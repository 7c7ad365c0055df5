-- ===== src/Controller/Targets/Ensures.antt =====
-- What the ensure functions of the target controller create.
use solution_arsenal.Prelude.{
  ◌≡◌, refl, true, false, Option, none, some, [], ◌∷◌, Memᴰ, Result, ok, err,
}
use solution_arsenal.Str.{Str}
use solution_arsenal.Api.{Target, RenderTask, RenderArtifact, RenderBinding}
use solution_arsenal.Cluster.{render_artifacts, render_bindings, Error, Call, get, create, Answer}
use solution_arsenal.Cluster.Safe.{
  History, Extends, Safe, branch-Safe, call-Safe, done-Safe, stop-Safe,
}
use solution_arsenal.Cluster.Errors.{is_not_found, is_already_exists}
use solution_arsenal.Controller.Targets.{
  created_or, binding_of, binding_name_of, binding_or, ensure_render_binding, artifact_of,
  artifact_name_of, artifact_or, ensure_render_artifact,
}

-- The answer to a create call is that the object was made, or that it is there already.
abbrev pub IsMade : {A : Type 0} → Result Error A → Type 0
IsMade (ok a) = Unit
IsMade (err e) = is_already_exists e ≡ true

-- An artifact of that name, beside its render task, with what the task says of the chart.
pub record IsArtifactOf (name : Str) (rt : RenderTask) (flavor push_secret_namespace : Str)
    (o : RenderArtifact) : Type 0 where
  pub named : o.meta.name ≡ name
  pub beside : o.meta.namespace ≡ rt.meta.namespace
  pub at_url : o.base_url ≡ rt.spec.base_url
  pub in_repository : o.repository ≡ rt.spec.repository
  pub tagged : o.tag ≡ rt.spec.tag
  pub of_task : o.render_task_ref ≡ rt.meta.name
  pub pushed_by : o.push_secret_ref ≡ rt.spec.push_secret_ref
  pub secret_in : o.push_secret_namespace ≡ push_secret_namespace
  pub flavored : o.registry_flavor ≡ flavor
  pub plain : o.plain_http ≡ rt.spec.plain_http

artifact_of-IsArtifactOf :
    (name : Str) (rt : RenderTask) (flavor push_secret_namespace : Str)
    → IsArtifactOf name rt flavor push_secret_namespace
        (artifact_of name rt flavor push_secret_namespace)
artifact_of-IsArtifactOf name rt flavor push_secret_namespace = record {
  named = refl;
  beside = refl;
  at_url = refl;
  in_repository = refl;
  tagged = refl;
  of_task = refl;
  pushed_by = refl;
  secret_in = refl;
  flavored = refl;
  plain = refl;
}

module _ (name : Str) (rt : RenderTask) (flavor push_secret_namespace : Str) where
  abbrev pub Wanted : RenderArtifact → Type 0
  Wanted = IsArtifactOf name rt flavor push_secret_namespace

  artifact_of-Wanted : Wanted (artifact_of name rt flavor push_secret_namespace)
  artifact_of-Wanted = artifact_of-IsArtifactOf name rt flavor push_secret_namespace

  abbrev wanted : RenderArtifact
  wanted = artifact_of name rt flavor push_secret_namespace

  -- The artifact is looked for, and created only after the answer that it is not there.
  pub data CreatesMissing (h : History) : Call → Type 0 where
    looks :
        CreatesMissing h
          (get render_artifacts (record { namespace = rt.meta.namespace; name = name }))
    creates :
        (o : RenderArtifact) (e : Error)
        → Wanted o
        → is_not_found e ≡ true
        → Memᴰ
            (get render_artifacts (record { namespace = rt.meta.namespace; name = name }), err e)
            h
        → CreatesMissing h (create render_artifacts o)

  -- An artifact was found that is not being deleted, or the wanted one is made.
  pub data IsEnsured (h : History) : Type 0 where
    found :
        (artifact : RenderArtifact)
        → artifact.meta.deleting ≡ false
        → Memᴰ
            (
              get render_artifacts (record { namespace = rt.meta.namespace; name = name }),
              ok artifact,
            )
            h
        → IsEnsured h
    made :
        (o : RenderArtifact) (a : Answer (create render_artifacts o))
        → Wanted o
        → IsMade a
        → Memᴰ (create render_artifacts o, a) h
        → IsEnsured h

  abbrev pub Ensured : History → Option Error → Type 0
  Ensured h none = IsEnsured h
  Ensured h (some e) = Unit

  created-Safe :
      (h : History) (a : Answer (create render_artifacts wanted))
      → Safe CreatesMissing Ensured Ensured ((create render_artifacts wanted, a) ∷ h) (created_or a)
  created-Safe h (ok o) =
      done-Safe CreatesMissing Ensured Ensured _ none
        (made wanted (ok o) artifact_of-Wanted tt (Memᴰ.head refl))
  created-Safe h (err e) =
      branch-Safe CreatesMissing Ensured Ensured (is_already_exists e) _ _ _
        (λ y.
          done-Safe CreatesMissing Ensured Ensured _ none
            (made wanted (err e) artifact_of-Wanted y (Memᴰ.head refl)))
        (λ n. stop-Safe CreatesMissing Ensured Ensured _ (some e) tt)

  looked-Safe :
      (h : History) (a : Answer (get render_artifacts (artifact_name_of name rt)))
      → Safe CreatesMissing Ensured Ensured
          ((get render_artifacts (artifact_name_of name rt), a) ∷ h)
          (artifact_or name rt flavor push_secret_namespace a)
  looked-Safe h (ok artifact) =
      branch-Safe CreatesMissing Ensured Ensured artifact.meta.deleting _ _ _
        (λ y. stop-Safe CreatesMissing Ensured Ensured _ (some _) tt)
        (λ n. stop-Safe CreatesMissing Ensured Ensured _ none (found artifact n (Memᴰ.head refl)))
  looked-Safe h (err e) =
      branch-Safe CreatesMissing Ensured Ensured (is_not_found e) _ _ _
        (λ y.
          call-Safe CreatesMissing Ensured Ensured (create render_artifacts wanted) _ _
            (creates wanted e artifact_of-Wanted y (Memᴰ.head refl)) (created-Safe _))
        (λ n. stop-Safe CreatesMissing Ensured Ensured _ (some e) tt)

  pub ensure_render_artifact-Creates :
      (h : History)
      → Safe CreatesMissing Ensured Ensured h
          (ensure_render_artifact name rt flavor push_secret_namespace)
  unfolding ensure_render_artifact
  ensure_render_artifact-Creates h =
      call-Safe CreatesMissing Ensured Ensured (get render_artifacts (artifact_name_of name rt)) _ h
        looks (looked-Safe h)

  -- Whatever the API server answers, ensureRenderArtifact creates only the artifact of the render
  -- task, and only after the answer that there is none; and where it returns no error, an artifact
  -- of that name was found that is not being deleted, or was made by this call or another client.
  pub ensure_render_artifact-Safe :
      Safe CreatesMissing Ensured Ensured []
        (ensure_render_artifact name rt flavor push_secret_namespace)
  ensure_render_artifact-Safe = ensure_render_artifact-Creates []

-- The same of ensureRenderBinding.
module _ (target : Target) (artifact_name binding_name : Str) where
  abbrev pub wanted_binding : RenderBinding
  wanted_binding = binding_of target artifact_name binding_name

  abbrev pub binding_read : Call
  binding_read = get render_bindings (binding_name_of target binding_name)

  pub data BindsMissing (h : History) : Call → Type 0 where
    looks_up : BindsMissing h binding_read
    binds :
        (e : Error)
        → is_not_found e ≡ true
        → Memᴰ (binding_read, err e) h
        → BindsMissing h (create render_bindings wanted_binding)

  -- A binding of the name is there, or the wanted one is made.
  pub data IsBound (h : History) : Type 0 where
    was_bound : (b : RenderBinding) → Memᴰ (binding_read, ok b) h → IsBound h
    now_bound :
        (a : Answer (create render_bindings wanted_binding))
        → IsMade a
        → Memᴰ (create render_bindings wanted_binding, a) h
        → IsBound h

  pub IsBound-Extends : (h h' : History) → Extends h h' → IsBound h → IsBound h'
  IsBound-Extends h h' x (was_bound b m) = was_bound b (x _ m)
  IsBound-Extends h h' x (now_bound a i m) = now_bound a i (x _ m)

  abbrev pub Bound : History → Option Error → Type 0
  Bound h none = IsBound h
  Bound h (some e) = Unit

  binding_made-Safe :
      (h : History) (a : Answer (create render_bindings wanted_binding))
      → Safe BindsMissing Bound Bound
          ((create render_bindings wanted_binding, a) ∷ h)
          (created_or a)
  binding_made-Safe h (ok o) =
      done-Safe BindsMissing Bound Bound _ none (now_bound (ok o) tt (Memᴰ.head refl))
  binding_made-Safe h (err e) =
      branch-Safe BindsMissing Bound Bound (is_already_exists e) _ _ _
        (λ y. done-Safe BindsMissing Bound Bound _ none (now_bound (err e) y (Memᴰ.head refl)))
        (λ n. stop-Safe BindsMissing Bound Bound _ (some e) tt)

  looked_up-Safe :
      (h : History) (a : Answer binding_read)
      → Safe BindsMissing Bound Bound
          ((binding_read, a) ∷ h)
          (binding_or target artifact_name binding_name a)
  looked_up-Safe h (ok b) = stop-Safe BindsMissing Bound Bound _ none (was_bound b (Memᴰ.head refl))
  looked_up-Safe h (err e) =
      branch-Safe BindsMissing Bound Bound (is_not_found e) _ _ _
        (λ y.
          call-Safe BindsMissing Bound Bound (create render_bindings wanted_binding) _ _
            (binds e y (Memᴰ.head refl)) (binding_made-Safe _))
        (λ n. stop-Safe BindsMissing Bound Bound _ (some e) tt)

  pub ensure_render_binding-Binds :
      (h : History)
      → Safe BindsMissing Bound Bound h (ensure_render_binding target artifact_name binding_name)
  unfolding ensure_render_binding
  ensure_render_binding-Binds h =
      call-Safe BindsMissing Bound Bound binding_read _ h looks_up (looked_up-Safe h)
