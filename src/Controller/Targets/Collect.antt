-- ===== src/Controller/Targets/Collect.antt =====
-- The releases of a target's bindings (the first loop of TargetReconciler.Reconcile): a release, or a
-- component version, that is missing or not granted is passed over, and remembered as pending.
use solution_arsenal.Prelude.{
  Bool, true, Option, none, some, List, [], ◌∷◌, ◌++◌, any, if◌then◌else◌,
}
use solution_arsenal.Str.{lit, str_eq}
use solution_arsenal.Names.{release_render_task_name}
use solution_arsenal.Api.{Target, Release, ReleaseBinding, ComponentVersion, ReferenceGrant}
use solution_arsenal.Grants.{grant_permits_component_version_access}
use solution_arsenal.Resolver.{ReleaseInfo}
use solution_arsenal.Cluster.{releases, component_versions, NamespacedName, Program, done, and_then}
use solution_arsenal.Controller.{Outcome, returns, attempt, find}
use solution_arsenal.Controller.Finalizers.{ref_key}
use solution_arsenal.Controller.Releases.{cv_namespace, cv_name, grants_in}
use solution_arsenal.Controller.Targets.Conditions.{TargetReconciler}

abbrev pub release_name_of : ReleaseBinding → NamespacedName
release_name_of binding = record { namespace = binding.meta.namespace; name = binding.release_ref }

-- What the loop has collected: `releases`, and `pendingDeps`.
abbrev pub Collecting : Type 0
Collecting = List ReleaseInfo → Bool → Program Outcome (List ReleaseInfo × Bool)

module _ (r : TargetReconciler) (target : Target) (binding : ReleaseBinding) where
  unfoldable pub info_of : Release → ComponentVersion → ReleaseInfo
  unfolding release_render_task_name
  info_of rel cv = record {
    binding_key = ref_key binding.meta;
    name = rel.meta.name;
    unique_name = [];
    release = rel;
    cv = cv;
    rt_name =
        release_render_task_name r.lib.sha256 rel.meta.namespace rel.meta.name target.meta.name
          rel.meta.generation;
    chart_url = [];
    artifact_name = [];
    artifact_binding_name = [];
  }

  -- The parts of one round: `rest` goes on with the loop.
  module _ (rest : Collecting) (infos : List ReleaseInfo) (pending_deps : Bool) where
    abbrev pub version_or :
        Release → Option ComponentVersion → Program Outcome (List ReleaseInfo × Bool)
    version_or rel none = rest infos true
    version_or rel (some cv) = rest (infos ++ info_of rel cv ∷ []) pending_deps

    unfoldable pub fetch_version : Release → Program Outcome (List ReleaseInfo × Bool)
    unfolding find and_then
    fetch_version rel =
        and_then
          (find returns r.settings component_versions (cv_name rel)
            (lit "failed to get ComponentVersion"))
          (version_or rel)

    abbrev pub version_granted_or :
        Release → List ReferenceGrant → Program Outcome (List ReleaseInfo × Bool)
    version_granted_or rel grants =
        if any (λ grant. grant_permits_component_version_access grant rel.meta.namespace) grants
        then fetch_version rel
        else rest infos true

    unfoldable pub release_or : Option Release → Program Outcome (List ReleaseInfo × Bool)
    unfolding fetch_version attempt and_then
    release_or none = rest infos true
    release_or (some rel) =
        if str_eq (cv_namespace rel) rel.meta.namespace
        then fetch_version rel
        else and_then
            (attempt returns r.settings (grants_in (cv_namespace rel))
              (lit "failed to check ReferenceGrant for cross-namespace ComponentVersion"))
            (version_granted_or rel)

module _ (r : TargetReconciler) (target : Target) where
  unfoldable pub collect_releases : List ReleaseBinding → Collecting
  unfolding release_or find and_then
  collect_releases [] infos pending_deps = done (infos, pending_deps)
  collect_releases (binding ∷ bindings) infos pending_deps =
      let rest = collect_releases bindings in
      and_then
        (find returns r.settings releases (release_name_of binding) (lit "failed to get Release"))
        (release_or r target binding rest infos pending_deps)
