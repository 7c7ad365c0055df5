-- ===== src/Controller/Tests.antt =====
-- The controllers' theorems at concrete requests, and a run against a fixed sequence of answers.
use solution_arsenal.Prelude.{◌≡◌, refl, Bool, true, false, none, some, List, [], ◌∷◌, ok, err}
use solution_arsenal.Str.{Str, lit, str_eq}
use solution_arsenal.Api.{Target, Registry, RegistryBinding, ObjectMeta, Condition}
use solution_arsenal.Cluster.{
  registries, registry_bindings, render_tasks, Call, get, list, patch, update_status, patch_status,
  delete_tag, create, delete, Answer, Program, done, stop, call, and_then, returned, without,
  NamespacedName, not_found,
}
use solution_arsenal.Cluster.Safe.{Safe}
use solution_arsenal.Controller.{
  Settings, attempt, find, drop_own_finalizer, add_own_finalizer, protect, unprotect, check,
  with_object,
}
use solution_arsenal.Controller.Steps.{Anything}
use solution_arsenal.Controller.Finalizers.{
  registry_ref_finalizer, registry_binding_finalizer, remove_registry_ref_finalizer,
  is_other_target, is_other_registry_binding,
}
use solution_arsenal.Controller.Rules.{Unprotecting}
use solution_arsenal.Controller.Protection.{RegistryIsFree, remove_registry_ref_finalizer-Safe}
use solution_arsenal.Controller.RegistryBindings.{
  delete_registry_binding, keep_registry_binding, reconcile_registry_binding,
}
use solution_arsenal.Controller.RegistryBindings.Safety.{
  registry_binding_policy, reconcile_registry_binding-Safe,
}
use solution_arsenal.Controller.ComponentVersions.{reconcile_component_version}
use solution_arsenal.Controller.ComponentVersions.Safety.{
  component_version_policy, reconcile_component_version-Safe,
}
use solution_arsenal.Controller.Releases.{reconcile_release}
use solution_arsenal.Controller.Releases.Safety.{release_policy, reconcile_release-Safe}
use solution_arsenal.Controller.Targets.Ensures.{
  CreatesMissing, Ensured, ensure_render_artifact-Safe,
}
use solution_arsenal.Api.Rendering.{bootstrap_config, RenderTask}
use solution_arsenal.Controller.Targets.{
  ensure_render_artifact, tasks_of_targets, delete_stale_render_tasks,
}
use solution_arsenal.Controller.Targets.Deletes.{DeletesDoomed, ListedGone}
use solution_arsenal.Controller.Targets.Owned.{is_stale_task, delete_stale_render_tasks-Safe}

abbrev settings : Settings
settings = record { test_mode = false; watch_namespace = [] }

abbrev request : NamespacedName
request = record { namespace = lit "ns"; name = lit "rb" }

abbrev meta : Str → Bool → List Str → ObjectMeta
meta name deleting finalizers = record {
  name = name;
  namespace = lit "ns";
  uid = lit "u";
  generation = 1;
  generate_name = [];
  deleting = deleting;
  finalizers = finalizers;
  labels = [];
  controller = none;
}

abbrev registry : List Str → Registry
registry finalizers = record {
  meta = meta (lit "reg") false finalizers;
  hostname = lit "reg.io";
  plain_http = false;
  solar_secret_ref = none;
  target_pull_secret_name = [];
  flavor = lit "zot";
}

abbrev binding : Bool → List Str → RegistryBinding
binding deleting finalizers = record {
  meta = meta (lit "rb") deleting finalizers;
  target_ref = lit "t";
  target_namespace = [];
  registry_ref = lit "reg";
}

abbrev target : Target
target = record {
  meta = meta (lit "t") false [];
  render_registry_ref = lit "reg";
  render_registry_namespace = [];
  userdata = [];
  bootstrap_version = 0;
  conditions = [];
}

-- A server that knows one registry and one binding of it, which is being deleted.
abbrev serve : (c : Call) → Answer c
serve (get registries n) = ok (registry (registry_ref_finalizer ∷ []))
serve (get registry_bindings n) = ok (binding true (registry_binding_finalizer ∷ []))
serve (list registry_bindings o) = ok (binding true (registry_binding_finalizer ∷ []) ∷ [])
serve (list k o) = ok []
serve (patch k lock o o') = ok o'
serve (create k o) = ok o
serve (update_status k o) = ok o
serve (patch_status k o o') = ok o'
serve (delete_tag reference auth insecure) = ok tt
serve (delete k o) = ok tt
serve (get k n) = err (record { reason = not_found; text = [] })

-- The calls of a run, in their order.
calls : {R A : Type 0} → Program R A → List Call
calls (done a) = []
calls (stop r) = []
calls (call c k) = c ∷ calls (k (serve c))

patched : List Call → List (List Str)
patched [] = []
patched (patch registries lock o o' ∷ cs) = o'.meta.finalizers ∷ patched cs
patched (patch registry_bindings lock o o' ∷ cs) = o'.meta.finalizers ∷ patched cs
patched (c ∷ cs) = patched cs

running : Unit {0}
unfolding calls patched and_then returned without attempt find drop_own_finalizer add_own_finalizer
    protect unprotect check with_object remove_registry_ref_finalizer is_other_target
    is_other_registry_binding delete_registry_binding keep_registry_binding
    reconcile_registry_binding registry_ref_finalizer registry_binding_finalizer lit str_eq
running = tt

-- Both finalizers are taken away: first the registry's, then the binding's own.
deleted_binding_run : patched (calls (reconcile_registry_binding settings request)) ≡ ([] ∷ [] ∷ [])
unfolding running
deleted_binding_run = refl

remove_registry_ref_finalizer-Safe_example :
    Safe
      (Unprotecting registries registry_ref_finalizer
        (RegistryIsFree none (some (binding true [])) (registry (registry_ref_finalizer ∷ []))))
      Anything
      Anything
      []
      (remove_registry_ref_finalizer settings none
        (some (binding true []))
        (registry (registry_ref_finalizer ∷ [])))
remove_registry_ref_finalizer-Safe_example =
    remove_registry_ref_finalizer-Safe settings none (some (binding true []))
      (registry (registry_ref_finalizer ∷ [])) []

reconcile_registry_binding-Safe_example :
    Safe
      (registry_binding_policy settings request)
      Anything
      Anything
      []
      (reconcile_registry_binding settings request)
reconcile_registry_binding-Safe_example = reconcile_registry_binding-Safe settings request

reconcile_component_version-Safe_example :
    Safe
      (component_version_policy settings request)
      Anything
      Anything
      []
      (reconcile_component_version settings request)
reconcile_component_version-Safe_example = reconcile_component_version-Safe settings request

abbrev always_changed : List Condition → Condition → List Condition × Bool
always_changed cs c = (c ∷ cs, true)

reconcile_release-Safe_example :
    Safe
      (release_policy always_changed settings request)
      Anything
      Anything
      []
      (reconcile_release always_changed settings request)
reconcile_release-Safe_example = reconcile_release-Safe always_changed settings request

abbrev current : List Str
current = lit "render-tgt-t-1" ∷ []

delete_stale_render_tasks-Safe_example :
    Safe
      (DeletesDoomed render_tasks (is_stale_task target current) (tasks_of_targets target))
      (ListedGone render_tasks (is_stale_task target current) (tasks_of_targets target))
      (ListedGone render_tasks (is_stale_task target current) (tasks_of_targets target))
      []
      (delete_stale_render_tasks target current)
delete_stale_render_tasks-Safe_example = delete_stale_render_tasks-Safe target current

abbrev task : RenderTask
task = record {
  meta = meta (lit "render-rel-a") false [];
  spec = record {
    config = bootstrap_config (record {
      chart = record {
        name = lit "bootstrap-t";
        description = [];
        version = lit "v0.0.0";
        app_version = lit "v0.0.0";
      };
      input = record { releases = []; userdata = [] };
    });
    repository = lit "ns/bootstrap-t";
    tag = lit "v0.0.0";
    base_url = lit "reg.io";
    plain_http = false;
    push_secret_ref = none;
    failed_job_ttl = none;
    owner_name = lit "t";
    owner_namespace = lit "ns";
    owner_kind = lit "Target";
  };
  conditions = [];
  job_ref = none;
  config_secret_ref = none;
  chart_url = [];
}

ensure_render_artifact-Safe_example :
    Safe
      (CreatesMissing (lit "render-art-1") task (lit "zot") (lit "ns"))
      (Ensured (lit "render-art-1") task (lit "zot") (lit "ns"))
      (Ensured (lit "render-art-1") task (lit "zot") (lit "ns"))
      []
      (ensure_render_artifact (lit "render-art-1") task (lit "zot") (lit "ns"))
ensure_render_artifact-Safe_example =
    ensure_render_artifact-Safe (lit "render-art-1") task (lit "zot") (lit "ns")
