-- ===== src/Controller/Targets/Policy/Facts.antt =====
-- What the Target controller has seen: its target, bindings, releases, secrets, tasks and registry.
use solution_arsenal.Prelude.{
  ◌≡◌, ◌⊎◌, true, false, none, some, List, [], ◌∷◌, Memᴰ, ok, any, All, map, length, ◌==◌,
}
use solution_arsenal.Str.{str_eq}
use solution_arsenal.Api.{
  Target, Registry, ReleaseBinding, RenderTask, RenderTaskSpec, ReferenceGrant, Condition,
  ReferenceGrantFromSubject,
}
use solution_arsenal.Names.{release_render_task_name}
use solution_arsenal.Grants.{
  grant_permits_registry_access, grant_permits_component_version_access, from_kind_is, solar_group,
  kind_release_binding, grants_release_binding_to_target_resource,
}
use solution_arsenal.Resolver.{ReleaseInfo, resolve_release_conflicts}
use solution_arsenal.PullSecrets.{Secrets}
use solution_arsenal.PullSecrets.Lookup.{AllBound}
use solution_arsenal.Cluster.{
  targets, registries, releases, component_versions, render_tasks, render_bindings, NamespacedName,
  get, create, update_status,
}
use solution_arsenal.Cluster.Safe.{History}
use solution_arsenal.Controller.Protection.{RegistryIsFree}
use solution_arsenal.Controller.Releases.{cv_namespace, cv_name, grants_in}
use solution_arsenal.Controller.Targets.{owns_task, owns_binding, tasks_of_targets, bindings_in}
use solution_arsenal.Controller.Targets.Deletes.{ListedGone}
use solution_arsenal.Controller.Targets.Specs.{compute_release_render_task_spec}
use solution_arsenal.Controller.Targets.Conditions.{TargetReconciler}
use solution_arsenal.Controller.Targets.RenderRegistry.{registry_name, registry_namespace}
use solution_arsenal.Controller.Targets.Bindings.{
  own_bindings_list, is_own_binding, cross_bindings_list,
}
use solution_arsenal.Controller.Targets.Render.{
  task_of, task_name, is_rendered, artifact_name_for, binding_name_for,
}

-- The binding is one of the target's namespace that names it, or one of another namespace that names
-- it there and that a grant of the target's namespace lets in.
pub data IsBindingOf (target : Target) (h : History) (rb : ReleaseBinding) : Type 0 where
  of_namespace :
      (rbs : List ReleaseBinding)
      → Memᴰ (own_bindings_list target, ok rbs) h
      → Memᴰ rb rbs
      → is_own_binding target rb ≡ true
      → IsBindingOf target h rb
  let_in :
      (grants : List ReferenceGrant) (grant : ReferenceGrant) (from : ReferenceGrantFromSubject)
      (rbs : List ReleaseBinding)
      → Memᴰ (grants_in target.meta.namespace, ok grants) h
      → Memᴰ grant grants
      → grants_release_binding_to_target_resource grant ≡ true
      → Memᴰ from grant.from
      → from_kind_is solar_group kind_release_binding from ≡ true
      → Memᴰ (cross_bindings_list target from, ok rbs) h
      → Memᴰ rb rbs
      → str_eq rb.target_namespace target.meta.namespace ≡ true
      → IsBindingOf target h rb

-- The list of the target's own namespace was read, and what it shows of the target is among these.
abbrev pub HoldsOwn : Target → History → List ReleaseBinding → Type 0
HoldsOwn target h bindings =
    (rbs : List ReleaseBinding) × Memᴰ (own_bindings_list target, ok rbs) h
    × All (λ rb. is_own_binding target rb ≡ true → Memᴰ rb bindings) rbs

module _ (req : NamespacedName) (h : History) where
  -- The target as the API server has answered it, to the first read or to a status update, with the
  -- conditions that the reconciler has set on it since.
  pub data IsSeen : Target → Type 0 where
    was_read : (t : Target) → Memᴰ (get targets req, ok t) h → IsSeen t
    was_updated : (t t' : Target) → Memᴰ (update_status targets t', ok t) h → IsSeen t
    was_conditioned :
        (t : Target) (conditions : List Condition)
        → IsSeen t
        → IsSeen (record t { conditions = conditions })

  -- The render registry lies in the target's namespace, or a grant that was read permits it.
  pub record IsRegistryGranted (t : Target) : Type 0 where
    pub grants : List ReferenceGrant
    pub grants_listed : Memᴰ (grants_in (registry_namespace t), ok grants) h
    pub permitted : any (λ g. grant_permits_registry_access g t.meta.namespace) grants ≡ true

  -- The registry is the one that the target refers to, and the reference is permitted.
  pub record IsRenderRegistry (registry : Registry) : Type 0 where
    pub target : Target
    pub seen : IsSeen target
    pub registry_read : Memᴰ (get registries (registry_name target), ok registry) h
    pub permitted :
        (str_eq (registry_namespace target) target.meta.namespace ≡ true) ⊎ IsRegistryGranted target

  -- The list calls for what the deleted target owns show nothing that is left.
  pub record IsCleaned : Type 0 where
    pub target : Target
    pub seen : IsSeen target
    pub deleting : target.meta.deleting ≡ true
    pub tasks_gone : ListedGone render_tasks (owns_task target) (tasks_of_targets target) h none
    pub bindings_gone : ListedGone render_bindings (owns_binding target) (bindings_in target) h none

  -- The target is being deleted, and nobody but it refers to the registry.
  pub record IsReleased (fresh : Registry) : Type 0 where
    pub target : Target
    pub seen : IsSeen target
    pub deleting : target.meta.deleting ≡ true
    pub registry : Registry
    pub is_free : RegistryIsFree (some target) none registry h fresh

  -- The release was read under the name that the binding gives, and its component version by a
  -- permitted reference; the task is named after the release and the target.
  pub record IsCollected (r : TargetReconciler) (target : Target) (binding : ReleaseBinding)
      (ri : ReleaseInfo) : Type 0 where
    pub release_read :
        Memᴰ
          (
            get releases
                (record { namespace = binding.meta.namespace; name = binding.release_ref }),
            ok ri.release,
          )
          h
    pub version_read : Memᴰ (get component_versions (cv_name ri.release), ok ri.cv) h
    pub permitted :
        (str_eq (cv_namespace ri.release) ri.release.meta.namespace ≡ true)
        ⊎ ((grants : List ReferenceGrant) × Memᴰ (grants_in (cv_namespace ri.release), ok grants) h
            × (any (λ g. grant_permits_component_version_access g ri.release.meta.namespace) grants
                ≡ true))
    pub task_named :
        ri.rt_name
        ≡ release_render_task_name r.lib.sha256 ri.release.meta.namespace ri.release.meta.name
            target.meta.name ri.release.meta.generation

  -- The release comes from one of the bindings.
  abbrev pub IsFrom : TargetReconciler → Target → List ReleaseBinding → ReleaseInfo → Type 0
  IsFrom r target bindings ri =
      (binding : ReleaseBinding) × Memᴰ binding bindings × IsCollected r target binding ri

  -- The bindings and their releases, one by one.
  abbrev pub EachFrom : TargetReconciler → Target → List ReleaseBinding → List ReleaseInfo → Type 0
  EachFrom r target [] [] = Unit
  EachFrom r target [] (ri ∷ ris) = ⊥
  EachFrom r target (binding ∷ bindings) [] = ⊥
  EachFrom r target (binding ∷ bindings) (ri ∷ ris) =
      IsCollected r target binding ri × EachFrom r target bindings ris

  -- The release comes from a binding of the target.
  pub record IsCandidate (r : TargetReconciler) (ri : ReleaseInfo) : Type 0 where
    pub target : Target
    pub seen : IsSeen target
    pub binding : ReleaseBinding
    pub bound : IsBindingOf target h binding
    pub collected : IsCollected r target binding ri

  -- The pull secrets were looked up for all registry bindings of the target.
  abbrev pub IsLooked : Secrets → Type 0
  IsLooked secrets = (target : Target) × IsSeen target × AllBound target h (ok secrets)

  -- A render task as the API server has answered it.
  pub data IsTask (rt : RenderTask) : Type 0 where
    was_got : (n : NamespacedName) → Memᴰ (get render_tasks n, ok rt) h → IsTask rt
    was_made : (o : RenderTask) → Memᴰ (create render_tasks o, ok rt) h → IsTask rt

  module _ (r : TargetReconciler) (target : Target) (registry : Registry) (secrets : Secrets) where
    -- The spec that is computed for the release.
    abbrev pub IsSpec : ReleaseInfo → RenderTaskSpec → Type 0
    IsSpec ri spec =
        compute_release_render_task_spec r.lib r.registry_binding_strict ri.release ri.cv registry
          target secrets
        ≡ ok spec

    -- The task was read under the release's task name and has the computed spec, or it is the answer
    -- to a create call for a task of that name with that spec.
    pub data HasTask (ri : ReleaseInfo) (rt : RenderTask) : Type 0 where
      is_there :
          (spec : RenderTaskSpec)
          → IsSpec ri spec
          → Memᴰ (get render_tasks (task_name target ri.rt_name), ok rt) h
          → r.lib.specs_equal rt.spec spec ≡ true
          → HasTask ri rt
      is_made :
          (spec : RenderTaskSpec)
          → IsSpec ri spec
          → Memᴰ (create render_tasks (task_of target ri.rt_name spec), ok rt) h
          → HasTask ri rt

    -- The release's task has succeeded; its chart, artifact and binding are the task's.
    pub record IsRendered (ri : ReleaseInfo) : Type 0 where
      pub rt : RenderTask
      pub has : HasTask ri rt
      pub rendered : is_rendered r rt ≡ true
      pub chart : ri.chart_url ≡ rt.chart_url
      pub artifact : ri.artifact_name ≡ artifact_name_for r target rt
      pub binding : ri.artifact_binding_name ≡ binding_name_for r target rt

  -- Bindings of the target were collected, at least one and all of its own namespace's; each one has
  -- its release; the releases of the list are those that the resolver deploys of them, and each one
  -- is rendered.
  pub record AllRendered (r : TargetReconciler) (registry : Registry) (infos : List ReleaseInfo)
      : Type 0 where
    pub collector : Target
    pub collector_seen : IsSeen collector
    pub bindings : List ReleaseBinding
    pub bound : All (IsBindingOf collector h) bindings
    pub holds_own : HoldsOwn collector h bindings
    pub some_bound : (length bindings == 0) ≡ false
    pub collected : List ReleaseInfo
    pub complete : EachFrom r collector bindings collected
    pub some_deployed :
        (length (resolve_release_conflicts r.lib.as_selector collected).0 == 0) ≡ false
    pub deployed :
        map (λ (ri : ReleaseInfo). ri.rt_name) infos
        ≡ map
            (λ (ri : ReleaseInfo). ri.rt_name)
            (resolve_release_conflicts r.lib.as_selector collected).0
    pub target : Target
    pub seen : IsSeen target
    pub secrets : Secrets
    pub looked : IsLooked secrets
    pub rendered : All (IsRendered r target registry secrets) infos
