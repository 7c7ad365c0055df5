-- ===== src/Controller/Targets/Policy.antt =====
-- What the Target controller may call, and when: the statement of its safety.
pub mod Facts
pub use Facts.*
use solution_arsenal.Prelude.{ℕ, ◌≡◌, Bool, true, false, List, [], ◌∷◌, ◌++◌, Memᴰ, ok}
use solution_arsenal.Str.{Str}
use solution_arsenal.Api.{
  Target, Registry, RenderTask, RenderTaskSpec, RenderBinding, RenderArtifact, Condition,
}
use solution_arsenal.Resolver.{ReleaseInfo}
use solution_arsenal.PullSecrets.{Secrets}
use solution_arsenal.Cluster.{
  Kind, targets, registries, releases, render_tasks, render_bindings, render_artifacts,
  NamespacedName, Call, get, list, create, delete, patch, update_status, ListOptions, refinalize,
  meta_of, without,
}
use solution_arsenal.Cluster.Safe.{History}
use solution_arsenal.Controller.Finalizers.{target_finalizer, registry_ref_finalizer}
use solution_arsenal.Controller.Targets.{
  owns_task, owns_binding, tasks_of_targets, bindings_in, binding_of,
}
use solution_arsenal.Controller.Targets.Ensures.{IsBound, IsArtifactOf}
use solution_arsenal.Controller.Targets.Specs.{compute_bootstrap_render_task_spec}
use solution_arsenal.Controller.Targets.Conditions.{TargetReconciler}
use solution_arsenal.Controller.Targets.Render.{
  task_of, task_name, has_succeeded, artifact_name_for, binding_name_for,
}
use solution_arsenal.Controller.Targets.Bootstrap.{bootstrap_name}

-- The controller reads; it writes conditions and the bootstrap version of its target, and its
-- finalizer, which it drops only when what the target owns is gone. It protects the registry that
-- the target may use, and drops the protection only while nobody else refers to it. It makes the
-- render tasks of releases that its bindings name and, when all that are deployed are rendered, the
-- bootstrap task; a task that it deletes, it owns, or the task lies under the name of such a
-- release's task with another spec. An artifact is made for a successful task only, behind its
-- binding.
pub data TargetPolicy (r : TargetReconciler) (req : NamespacedName) (h : History)
    : Call → Type 0 where
  reads : (k : Kind) (n : NamespacedName) → TargetPolicy r req h (get k n)
  lists : (k : Kind) (o : ListOptions) → TargetPolicy r req h (list k o)
  sets_conditions :
      (t : Target) (conditions : List Condition)
      → IsSeen req h t
      → TargetPolicy r req h (update_status targets (record t { conditions = conditions }))
  sets_version :
      (t : Target) (version : ℕ)
      → IsSeen req h t
      → TargetPolicy r req h (update_status targets (record t { bootstrap_version = version }))
  adds_own :
      (t : Target)
      → Memᴰ (get targets req, ok t) h
      → TargetPolicy r req h (
          patch targets false t
            (refinalize targets t ((meta_of targets t).finalizers ++ target_finalizer ∷ [])))
  drops_own :
      (t : Target)
      → Memᴰ (get targets req, ok t) h
      → IsCleaned req h
      → TargetPolicy r req h (
          patch targets false t
            (refinalize targets t (without target_finalizer (meta_of targets t).finalizers)))
  protects :
      (registry : Registry)
      → IsRenderRegistry req h registry
      → TargetPolicy r req h (
          patch registries true registry (
            refinalize registries registry
              ((meta_of registries registry).finalizers ++ registry_ref_finalizer ∷ [])))
  unprotects :
      (lock : Bool) (fresh : Registry)
      → IsReleased req h fresh
      → TargetPolicy r req h (
          patch registries lock fresh (
            refinalize registries fresh
              (without registry_ref_finalizer (meta_of registries fresh).finalizers)))
  makes_task :
      (t : Target) (registry : Registry) (secrets : Secrets) (ri : ReleaseInfo)
      (spec : RenderTaskSpec)
      → IsSeen req h t
      → IsRenderRegistry req h registry
      → IsLooked req h secrets
      → IsCandidate req h r ri
      → IsSpec req h r t registry secrets ri spec
      → TargetPolicy r req h (create render_tasks (task_of t ri.rt_name spec))
  drops_changed_task :
      (t : Target) (registry : Registry) (secrets : Secrets) (ri : ReleaseInfo)
      (spec : RenderTaskSpec) (rt : RenderTask)
      → IsSeen req h t
      → IsRenderRegistry req h registry
      → IsLooked req h secrets
      → IsCandidate req h r ri
      → Memᴰ (get render_tasks (task_name t ri.rt_name), ok rt) h
      → IsSpec req h r t registry secrets ri spec
      → r.lib.specs_equal rt.spec spec ≡ false
      → TargetPolicy r req h (delete render_tasks rt)
  drops_owned_task :
      (t : Target) (rt : RenderTask) (rts : List RenderTask)
      → IsSeen req h t
      → Memᴰ (list render_tasks (tasks_of_targets t), ok rts) h
      → Memᴰ rt rts
      → owns_task t rt ≡ true
      → TargetPolicy r req h (delete render_tasks rt)
  drops_owned_binding :
      (t : Target) (b : RenderBinding) (bs : List RenderBinding)
      → IsSeen req h t
      → Memᴰ (list render_bindings (bindings_in t), ok bs) h
      → Memᴰ b bs
      → owns_binding t b ≡ true
      → TargetPolicy r req h (delete render_bindings b)
  makes_bootstrap :
      (t : Target) (registry : Registry) (infos : List ReleaseInfo) (version : ℕ)
      (spec : RenderTaskSpec)
      → IsSeen req h t
      → IsRenderRegistry req h registry
      → AllRendered req h r registry infos
      → compute_bootstrap_render_task_spec r.lib t infos registry version ≡ ok spec
      → TargetPolicy r req h (create render_tasks (task_of t (bootstrap_name r t version) spec))
  makes_binding :
      (t : Target) (rt : RenderTask)
      → IsSeen req h t
      → IsTask req h rt
      → has_succeeded r rt ≡ true
      → TargetPolicy r req h (
          create render_bindings
            (binding_of t (artifact_name_for r t rt) (binding_name_for r t rt)))
  makes_artifact :
      (t : Target) (rt : RenderTask) (flavor push_secret_namespace : Str) (o : RenderArtifact)
      → IsSeen req h t
      → IsTask req h rt
      → has_succeeded r rt ≡ true
      → IsBound t (artifact_name_for r t rt) (binding_name_for r t rt) h
      → IsArtifactOf (artifact_name_for r t rt) rt flavor push_secret_namespace o
      → TargetPolicy r req h (create render_artifacts o)
