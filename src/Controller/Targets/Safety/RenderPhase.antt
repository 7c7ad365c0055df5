-- ===== src/Controller/Targets/Safety/RenderPhase.antt =====
-- The render tasks of a target: read or made for the releases of its bindings, and bound where they have
-- succeeded.
use solution_arsenal.Prelude.{
  ◌≡◌, refl, sym, ◌∙◌, Bool, true, false, List, [], ◌∷◌, ◌++◌, map, All, All-append, and_left,
}
use mathlib.Core.List.{map-append, append_assoc, append-nil}
use solution_arsenal.Str.{Str}
use solution_arsenal.Api.{Target, Registry, RenderTask}
use solution_arsenal.Resolver.{ReleaseInfo}
use solution_arsenal.PullSecrets.{Secrets}
use solution_arsenal.Cluster.{render_bindings, render_artifacts, NamespacedName, Call, Program}
use solution_arsenal.Cluster.Safe.{History, Policy, Safe, Extends, done-Safe}
use solution_arsenal.Controller.{Outcome, returns}
use solution_arsenal.Controller.Steps.{Anything, if-Safe}
use solution_arsenal.Controller.Rules.{then-Safe}
use solution_arsenal.Controller.Targets.Ensures.{
  CreatesMissing, looks, creates, BindsMissing, looks_up, binds, IsBound, IsBound-Extends,
  ensure_render_artifact-Creates, ensure_render_binding-Binds,
}
use solution_arsenal.Controller.Targets.Conditions.{TargetReconciler, releases_rendered}
use solution_arsenal.Controller.Targets.Render.{
  has_failed, has_succeeded, is_rendered, artifact_name_for, binding_name_for, rendered_info,
  bind_release, render_releases,
}
use solution_arsenal.Controller.Targets.Policy.{
  IsSeen, IsRenderRegistry, IsLooked, IsCandidate, IsTask, was_got, was_made, HasTask, is_there,
  is_made, IsRendered, TargetPolicy, reads, makes_binding, makes_artifact,
}
use solution_arsenal.Controller.Targets.Rules.{IsSeen-Extends, check_wrapped-Safe, refuse_with-Safe}
use solution_arsenal.Controller.Targets.Safety.TaskPhase.{ensure_release_task-Safe}
use solution_arsenal.Controller.Targets.Later.{
  IsRenderRegistry-Extends, IsLooked-Extends, all-IsCandidate-Extends, IsTask-Extends,
  HasTask-Extends, all-HasTask-Extends, all-IsRendered-Extends,
}

module _ (r : TargetReconciler) (req : NamespacedName) (target : Target) (rt : RenderTask) where
  -- The calls of the two ensure functions for a task that has succeeded.
  pub may_bind :
      (h : History) (c : Call)
      → IsSeen req h target
      → IsTask req h rt
      → has_succeeded r rt ≡ true
      → BindsMissing target (artifact_name_for r target rt) (binding_name_for r target rt) h c
      → TargetPolicy r req h c
  may_bind h _ i t y looks_up = reads render_bindings _
  may_bind h _ i t y (binds e n m) = makes_binding target rt i t y

  pub may_make_artifact :
      (flavor push_secret_namespace : Str) (h : History) (c : Call)
      → IsSeen req h target
      → IsTask req h rt
      → has_succeeded r rt ≡ true
      → IsBound target (artifact_name_for r target rt) (binding_name_for r target rt) h
      → CreatesMissing (artifact_name_for r target rt) rt flavor push_secret_namespace h c
      → TargetPolicy r req h c
  may_make_artifact flavor ns h _ i t y b looks = reads render_artifacts _
  may_make_artifact flavor ns h _ i t y b (creates o e w n m) =
      makes_artifact target rt flavor ns o i t y b w

module _ (r : TargetReconciler) (req : NamespacedName) (target : Target) (registry : Registry)
    (registry_namespace : Str) (secrets : Secrets) where
  abbrev P : Policy
  P = TargetPolicy r req

  abbrev Has : History → ReleaseInfo → RenderTask → Type 0
  Has h ri rt = HasTask req h r target registry secrets ri rt

  abbrev Is : History → ReleaseInfo → Type 0
  Is h ri = IsRendered req h r target registry secrets ri

  -- The releases with what was rendered of them: they keep their task names, each has its task, and
  -- where all are rendered, each of them is.
  abbrev pub Rendered : List Str → History → List ReleaseInfo × Bool → Type 0
  Rendered names h (infos, all_rendered) =
      (map (λ (ri : ReleaseInfo). ri.rt_name) infos ≡ names)
      × All (λ ri. (rt : RenderTask) × HasTask req h r target registry secrets ri rt) infos
      × (all_rendered ≡ true → All (IsRendered req h r target registry secrets) infos)

  HasTask-IsTask :
      (ri : ReleaseInfo) (rt : RenderTask) (h : History) → Has h ri rt → IsTask req h rt
  HasTask-IsTask ri rt h (is_there spec e m y) = was_got _ m
  HasTask-IsTask ri rt h (is_made spec e m) = was_made _ m

  rendered_info-HasTask :
      (ri : ReleaseInfo) (rt : RenderTask) (h : History)
      → Has h ri rt
      → Has h (rendered_info r target registry registry_namespace secrets ri rt) rt
  rendered_info-HasTask ri rt h (is_there spec e m y) = is_there spec e m y
  rendered_info-HasTask ri rt h (is_made spec e m) = is_made spec e m

  rendered_info-IsRendered :
      (ri : ReleaseInfo) (rt : RenderTask) (h : History)
      → Has h ri rt
      → is_rendered r rt ≡ true
      → Is h (rendered_info r target registry registry_namespace secrets ri rt)
  rendered_info-IsRendered ri rt h t y = record {
    rt = rt;
    has = rendered_info-HasTask ri rt h t;
    rendered = y;
    chart = refl;
    artifact = refl;
    binding = refl;
  }

  abbrev names_of : List ReleaseInfo → List Str
  names_of infos = map (λ (ri : ReleaseInfo). ri.rt_name) infos

  module _ (names : List Str) (ri : ReleaseInfo) (ris infos : List ReleaseInfo)
      (all_rendered : Bool) (h₀ : History)
      (rest : List ReleaseInfo → Bool → Program Outcome (List ReleaseInfo × Bool))
      (rest-Safe : (h : History) (infos : List ReleaseInfo) (all_rendered : Bool)
        → Extends h₀ h
        → IsSeen req h target
        → (names_of infos ++ names_of ris ≡ names)
        → All (λ ri. (rt : RenderTask) × Has h ri rt) infos
        → (all_rendered ≡ true → All (Is h) infos)
        → Safe P (Rendered names) Anything h (rest infos all_rendered)) where
    -- One more release behind those that are through.
    named :
        (ri' : ReleaseInfo)
        → ri'.rt_name ≡ ri.rt_name
        → (names_of infos ++ names_of (ri ∷ ris) ≡ names)
        → (names_of (infos ++ ri' ∷ []) ++ names_of ris ≡ names)
    named ri' e n =
        rw (map-append (λ (i : ReleaseInfo). i.rt_name) infos (ri' ∷ []), append_assoc, e) n

    bind_release-Safe :
        (rt : RenderTask) (h : History)
        → Extends h₀ h
        → IsSeen req h target
        → Has h ri rt
        → (names_of infos ++ names_of (ri ∷ ris) ≡ names)
        → All (λ ri. (rt : RenderTask) × Has h ri rt) infos
        → (all_rendered ≡ true → All (Is h) infos)
        → Safe P (Rendered names) Anything h (
            bind_release r target registry registry_namespace secrets rest ri infos all_rendered rt)
    unfolding bind_release
    bind_release-Safe rt h x0 i t n ts a =
        if-Safe returns r.settings P (Rendered names) (has_failed r rt) _ _ h
          (λ _. refuse_with-Safe r req target releases_rendered h _ _ _ i)
          (λ _.
            if-Safe returns r.settings P (Rendered names) (is_rendered r rt) _ _ h
              (λ y.
                then-Safe P
                  (λ h' _.
                    IsBound target (artifact_name_for r target rt) (binding_name_for r target rt)
                      h')
                  (Rendered names) _ _ h
                  (check_wrapped-Safe P _ _ r.settings _ _ h
                    (ensure_render_binding-Binds target _ _ h)
                    (λ h' c x p.
                      may_bind r req target rt h' c (IsSeen-Extends req h h' target x i)
                        (IsTask-Extends req h h' x rt (HasTask-IsTask ri rt h t)) (and_left _ _ y)
                        p))
                  (λ h1 _ x1 b.
                    then-Safe P _ (Rendered names) _ _ h1
                      (check_wrapped-Safe P _ _ r.settings _ _ h1
                        (ensure_render_artifact-Creates _ rt registry.flavor registry_namespace h1)
                        (λ h' c x p.
                          may_make_artifact r req target rt registry.flavor registry_namespace h' c
                            (IsSeen-Extends req h h' target (λ v m. x v (x1 v m)) i)
                            (IsTask-Extends req h h' (λ v m. x v (x1 v m)) rt
                              (HasTask-IsTask ri rt h t))
                            (and_left _ _ y) (IsBound-Extends target _ _ h1 h' x b) p))
                      (λ h2 _ x2 _.
                        rest-Safe h2 _ all_rendered (λ v m. x2 v (x1 v (x0 v m)))
                          (IsSeen-Extends req h h2 target (λ v m. x2 v (x1 v m)) i) (named _ refl n)
                          (All-append (λ ri. (rt : RenderTask) × Has h2 ri rt) infos _
                            (all-HasTask-Extends req h h2 (λ v m. x2 v (x1 v m)) r target registry
                              secrets infos ts)
                            (
                              (
                                rt,
                                rendered_info-HasTask ri rt h2 (still h2 (λ v m. x2 v (x1 v m))),
                              ),
                              tt,
                            ))
                          (λ k.
                            All-append (Is h2) infos _
                              (all-IsRendered-Extends req h h2 (λ v m. x2 v (x1 v m)) r target
                                registry secrets infos (a k))
                              (
                                rendered_info-IsRendered ri rt h2 (still h2 (λ v m. x2 v (x1 v m)))
                                    y,
                                tt,
                              )))))
              (λ _.
                rest-Safe h _ false x0 i (named ri refl n)
                  (All-append (λ ri. (rt : RenderTask) × Has h ri rt) infos _ ts ((rt, t), tt))
                  (λ k. cc)))
      where
        still : (h' : History) → Extends h h' → Has h' ri rt
        still h' x = HasTask-Extends req h h' x r target registry secrets ri rt t

  renders :
      (names : List Str) (ris infos : List ReleaseInfo) (all_rendered : Bool) (h : History)
      → IsSeen req h target
      → IsRenderRegistry req h registry
      → IsLooked req h secrets
      → All (IsCandidate req h r) ris
      → (names_of infos ++ names_of ris ≡ names)
      → All (λ ri. (rt : RenderTask) × Has h ri rt) infos
      → (all_rendered ≡ true → All (Is h) infos)
      → Safe P
          (Rendered names)
          Anything
          h
          (render_releases r target registry registry_namespace secrets ris infos all_rendered)
  unfolding render_releases
  renders names [] infos all_rendered h i u l cs n ts a =
      done-Safe P (Rendered names) Anything h (infos, all_rendered)
        (sym (append-nil (names_of infos)) ∙ n, ts, a)
  renders names (ri ∷ ris) infos all_rendered h i u l (c, cs) n ts a =
      then-Safe P (λ h' rt. Has h' ri rt) (Rendered names) _ _ h
        (ensure_release_task-Safe r req target registry registry_namespace secrets ri h i u l c)
        (λ h' rt x t.
          bind_release-Safe names ri ris infos all_rendered h
            (render_releases r target registry registry_namespace secrets ris)
            (λ h'' is all x' i' n' ts' a'.
              renders names ris is all h'' i' (IsRenderRegistry-Extends req h h'' x' registry u)
                (IsLooked-Extends req h h'' x' secrets l)
                (all-IsCandidate-Extends req h h'' x' r ris cs) n' ts' a')
            rt h' x (IsSeen-Extends req h h' target x i) t n
            (all-HasTask-Extends req h h' x r target registry secrets infos ts)
            (λ k. all-IsRendered-Extends req h h' x r target registry secrets infos (a k)))

  -- For releases of the target's bindings, a permitted render registry and pull secrets looked up for
  -- all registry bindings, whatever the API server answers: the calls are those that the policy
  -- allows, so a task is made with the spec that is computed for such a release, a task is deleted
  -- only if it lies under such a release's task name and its spec is not that one, and an artifact is
  -- made only behind its binding. Where the loop comes through, the releases are in their order and
  -- each has its task, read with the computed spec or made with it; where it reports all as rendered,
  -- the task of each has succeeded and has a chart, which is the release's.
  pub render_releases-Safe :
      (ris : List ReleaseInfo) (h : History)
      → IsSeen req h target
      → IsRenderRegistry req h registry
      → IsLooked req h secrets
      → All (IsCandidate req h r) ris
      → Safe
          (TargetPolicy r req)
          (Rendered (map (λ (ri : ReleaseInfo). ri.rt_name) ris))
          Anything
          h
          (render_releases r target registry registry_namespace secrets ris [] true)
  render_releases-Safe ris h i u l c =
      renders (names_of ris) ris [] true h i u l c refl tt (λ _. tt)
