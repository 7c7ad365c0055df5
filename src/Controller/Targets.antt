-- ===== src/Controller/Targets.antt =====
-- TargetReconciler (target_controller.go): the render tasks, artifacts and bindings that belong to a
-- target.
pub mod Deletes
pub mod Owned
pub mod Ensures
pub mod Specs
pub mod Conditions
pub mod RenderRegistry
pub mod Bindings
pub mod Collect
pub mod Render
pub mod Bootstrap
pub mod Reconcile
pub mod Policy
pub mod Rules
pub mod Later
pub mod Safety
use solution_arsenal.Prelude.{
  Bool, true, false, ◌&&◌, ◌||◌, not, Option, none, some, List, [], ◌∷◌, ◌++◌, Result, ok, err,
  if◌then◌else◌,
}
use solution_arsenal.Str.{Str, lit, str_eq, contains_str}
use solution_arsenal.Api.{Target, RenderTask, RenderArtifact, RenderBinding, ObjectMeta}
use solution_arsenal.Cluster.{
  Kind, Object, render_tasks, render_bindings, render_artifacts, NamespacedName, Error, other,
  ListOptions, Call, get, list, create, delete, Answer, Program, done, stop, call, and_then, ◌>>=◌,
  ◌>>◌,
}
use solution_arsenal.Cluster.Errors.{is_not_found, is_already_exists}

unfoldable pub index_owner_kind : Str
index_owner_kind = lit "spec.ownerKind"

-- The loops that delete what a list shows: an object that is gone already is no error.
module _ (k : Kind) (doomed : Object k → Bool) where
  abbrev pub deleted_or :
      {A : Type 0}
      → Program (Option Error) (Option Error)
      → Result Error A
      → Program (Option Error) (Option Error)
  deleted_or rest (ok _) = rest
  deleted_or rest (err e) = if is_not_found e then rest else stop (some e)

  unfoldable pub delete_all : List (Object k) → Program (Option Error) (Option Error)
  delete_all [] = done none
  delete_all (o ∷ os) =
      let rest = delete_all os in if doomed o then call (delete k o) (deleted_or rest) else rest

  abbrev pub listed_or : Result Error (List (Object k)) → Program (Option Error) (Option Error)
  listed_or (ok os) = delete_all os
  listed_or (err e) = stop (some e)

  unfoldable pub delete_listed : ListOptions → Program (Option Error) (Option Error)
  unfolding delete_all
  delete_listed options = call (list k options) listed_or

abbrev pub owns_task : Target → RenderTask → Bool
owns_task target rt =
    str_eq rt.spec.owner_name target.meta.name
    && str_eq rt.spec.owner_namespace target.meta.namespace

abbrev pub owns_binding : Target → RenderBinding → Bool
owns_binding target b =
    str_eq b.owner_kind (lit "Target")
    && (str_eq b.owner_name target.meta.name && str_eq b.owner_namespace target.meta.namespace)

abbrev pub tasks_of_targets : Target → ListOptions
tasks_of_targets target = record {
  namespace = some target.meta.namespace;
  live = false;
  field = some (index_owner_kind, lit "Target");
  selector = none;
}

abbrev pub bindings_in : Target → ListOptions
bindings_in target = record {
  namespace = some target.meta.namespace;
  live = true;
  field = none;
  selector = none;
}

unfoldable pub delete_stale_render_tasks : Target → List Str → Program (Option Error) (Option Error)
unfolding delete_listed
delete_stale_render_tasks target current_rt_names =
    delete_listed render_tasks
      (λ rt. owns_task target rt && not (contains_str rt.meta.name current_rt_names))
      (tasks_of_targets target)

unfoldable pub delete_owned_render_tasks : Target → Program (Option Error) (Option Error)
unfolding delete_listed
delete_owned_render_tasks target =
    delete_listed render_tasks (owns_task target) (tasks_of_targets target)

unfoldable pub delete_stale_render_bindings :
    Target → List Str → Program (Option Error) (Option Error)
unfolding delete_listed
delete_stale_render_bindings target current_binding_names =
    delete_listed render_bindings
      (λ b. owns_binding target b && not (contains_str b.meta.name current_binding_names))
      (bindings_in target)

unfoldable pub delete_owned_render_bindings : Target → Program (Option Error) (Option Error)
unfolding delete_listed
delete_owned_render_bindings target =
    delete_listed render_bindings (owns_binding target) (bindings_in target)

-- The end of the two ensure functions: another client may have made the object in the meantime.
abbrev pub created_or : {A : Type 0} → Result Error A → Program (Option Error) (Option Error)
created_or (ok _) = done none
created_or (err e) = if is_already_exists e then done none else stop (some e)

abbrev pub new_meta : Str → Str → ObjectMeta
new_meta namespace name = record {
  name = name;
  namespace = namespace;
  uid = [];
  generation = 0;
  generate_name = [];
  deleting = false;
  finalizers = [];
  labels = [];
  controller = none;
}

abbrev pub artifact_of : Str → RenderTask → (flavor push_secret_namespace : Str) → RenderArtifact
artifact_of name rt flavor push_secret_namespace = record {
  meta = new_meta rt.meta.namespace name;
  base_url = rt.spec.base_url;
  repository = rt.spec.repository;
  tag = rt.spec.tag;
  render_task_ref = rt.meta.name;
  push_secret_ref = rt.spec.push_secret_ref;
  push_secret_namespace = push_secret_namespace;
  registry_flavor = flavor;
  plain_http = rt.spec.plain_http;
  conditions = [];
  chart_url = [];
}

abbrev pub binding_of : Target → (artifact_name binding_name : Str) → RenderBinding
binding_of target artifact_name binding_name = record {
  meta = new_meta target.meta.namespace binding_name;
  render_artifact_ref = artifact_name;
  owner_kind = lit "Target";
  owner_name = target.meta.name;
  owner_namespace = target.meta.namespace;
}

abbrev pub artifact_name_of : Str → RenderTask → NamespacedName
artifact_name_of name rt = record { namespace = rt.meta.namespace; name = name }

abbrev pub artifact_or :
    Str
    → RenderTask
    → (flavor push_secret_namespace : Str) → Result Error RenderArtifact
    → Program (Option Error) (Option Error)
artifact_or name rt flavor push_secret_namespace (ok artifact) =
    if artifact.meta.deleting
    then stop (
        some (record {
          reason = other;
          text =
              lit "RenderArtifact "
              ++ rt.meta.namespace
              ++ lit "/"
              ++ name
              ++ lit " is terminating; requeuing";
        }))
    else stop none
artifact_or name rt flavor push_secret_namespace (err e) =
    if is_not_found e
    then call (create render_artifacts (artifact_of name rt flavor push_secret_namespace))
        created_or
    else stop (some e)

unfoldable pub ensure_render_artifact :
    Str → RenderTask → (flavor push_secret_namespace : Str) → Program (Option Error) (Option Error)
ensure_render_artifact name rt flavor push_secret_namespace =
    call (get render_artifacts (artifact_name_of name rt))
      (artifact_or name rt flavor push_secret_namespace)

abbrev pub binding_name_of : Target → Str → NamespacedName
binding_name_of target binding_name = record {
  namespace = target.meta.namespace;
  name = binding_name;
}

abbrev pub binding_or :
    Target
    → (artifact_name binding_name : Str) → Result Error RenderBinding
    → Program (Option Error) (Option Error)
binding_or target artifact_name binding_name (ok b) = stop none
binding_or target artifact_name binding_name (err e) =
    if is_not_found e
    then call (create render_bindings (binding_of target artifact_name binding_name)) created_or
    else stop (some e)

unfoldable pub ensure_render_binding :
    Target → (artifact_name binding_name : Str) → Program (Option Error) (Option Error)
ensure_render_binding target artifact_name binding_name =
    call (get render_bindings (binding_name_of target binding_name))
      (binding_or target artifact_name binding_name)
