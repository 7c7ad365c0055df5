-- ===== src/Controller/Targets/RenderRegistry.antt =====
-- The target's render registry (the part of TargetReconciler.Reconcile that resolves it, and
-- registryGranted): one in another namespace only by a ReferenceGrant, and none without the secret
-- that rendering needs.
use solution_arsenal.Prelude.{
  Bool, true, false, Option, none, some, ◌++◌, any, ltb, length, if◌then◌else◌,
}
use solution_arsenal.Str.{Str, lit, str_eq}
use solution_arsenal.Api.{Target, Registry}
use solution_arsenal.Grants.{grant_permits_registry_access}
use solution_arsenal.Cluster.{registries, NamespacedName, Program, done, and_then, ◌>>=◌, ◌>>◌}
use solution_arsenal.Controller.{Outcome, returns, attempt, find, protect}
use solution_arsenal.Controller.Finalizers.{registry_ref_finalizer}
use solution_arsenal.Controller.Releases.{grants_in}
use solution_arsenal.Controller.Targets.Conditions.{
  TargetReconciler, registry_resolved, set_condition, refuse_with, wait_with,
}

abbrev pub registry_namespace : Target → Str
registry_namespace target =
    if ltb 0 (length target.render_registry_namespace)
    then target.render_registry_namespace
    else target.meta.namespace

abbrev pub registry_name : Target → NamespacedName
registry_name target = record {
  namespace = registry_namespace target;
  name = target.render_registry_ref;
}

module _ (r : TargetReconciler) where
  -- registryGranted, with the error that Reconcile makes of its error
  unfoldable pub registry_granted : (registry_namespace from_namespace : Str) → Program Outcome Bool
  unfolding attempt and_then
  registry_granted registry_namespace from_namespace = do
    grants ←
        attempt returns r.settings (grants_in registry_namespace)
          (lit "failed to check ReferenceGrant for Registry")
    done (any (λ grant. grant_permits_registry_access grant from_namespace) grants)

  abbrev pub granted_or : Target → Bool → Program Outcome Unit
  granted_or target true = done tt
  granted_or target false = wait_with r target registry_resolved (lit "NotGranted") (
      lit "No ReferenceGrant allows access to Registry "
      ++ target.render_registry_ref
      ++ lit " in namespace "
      ++ registry_namespace target)

  unfoldable pub check_registry_grant : Target → Program Outcome Unit
  unfolding registry_granted and_then wait_with
  check_registry_grant target =
      if str_eq (registry_namespace target) target.meta.namespace
      then done tt
      else and_then (registry_granted (registry_namespace target) target.meta.namespace)
          (granted_or target)

  abbrev pub secret_or : Target → Registry → Option Str → Program Outcome (Target × Registry)
  secret_or target registry none =
      refuse_with r target registry_resolved (lit "MissingSolarSecretRef")
        (lit "Registry does not have SolarSecretRef set, required for rendering")
  secret_or target registry (some _) = do
    t ←
        set_condition r target registry_resolved true (lit "Resolved")
          (lit "Registry resolved: " ++ registry.meta.name)
    done (t, registry)

  abbrev pub registry_found_or : Target → Option Registry → Program Outcome (Target × Registry)
  registry_found_or target none =
      wait_with r target registry_resolved (lit "NotFound")
        (lit "Registry not found: " ++ target.render_registry_ref)
  registry_found_or target (some registry) = do
    protect returns r.settings registries true registry registry_ref_finalizer
        (lit "failed to add protection finalizer to Registry")
    secret_or target registry registry.solar_secret_ref

  unfoldable pub resolve_registry : Target → Program Outcome (Target × Registry)
  unfolding check_registry_grant find protect set_condition refuse_with wait_with and_then
  resolve_registry target = do
    check_registry_grant target
    found ← find returns r.settings registries (registry_name target) (lit "failed to get Registry")
    registry_found_or target found
