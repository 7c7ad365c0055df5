-- ===== src/Controller/RegistryBindings.antt =====
-- RegistryBindingReconciler (registrybinding_controller.go).
pub mod Safety
use solution_arsenal.Prelude.{
  Bool, true, false, Option, none, some, List, ltb, length, if◌then◌else◌,
}
use solution_arsenal.Str.{Str, lit}
use solution_arsenal.Api.{Registry, RegistryBinding}
use solution_arsenal.Cluster.{
  Kind, registries, registry_bindings, NamespacedName, Error, Program, done, stop, and_then, ◌>>=◌,
  ◌>>◌,
}
use solution_arsenal.Controller.{
  Settings, Outcome, returns, find, drop_own_finalizer, add_own_finalizer, protect, check,
  with_object,
}
use solution_arsenal.Controller.Finalizers.{
  registry_binding_finalizer, registry_ref_finalizer, remove_registry_ref_finalizer,
}

abbrev pub registry_name : RegistryBinding → NamespacedName
registry_name rb = record { namespace = rb.meta.namespace; name = rb.registry_ref }

module _ (s : Settings) (req : NamespacedName) (rb : RegistryBinding) where
  abbrev pub release_registry : Option Registry → Program Outcome Unit
  release_registry none = done tt
  release_registry (some registry) = check (remove_registry_ref_finalizer s none (some rb) registry)

  abbrev pub protect_registry : Option Registry → Program Outcome Unit
  protect_registry none = done tt
  protect_registry (some registry) =
      protect returns s registries true registry registry_ref_finalizer
        (lit "failed to add protection finalizer to Registry")

  unfoldable pub delete_registry_binding : Program Outcome Outcome
  unfolding and_then find
  delete_registry_binding = do
    if ltb 0 (length rb.registry_ref)
        then (do
          found ←
              find returns s registries (registry_name rb)
                (lit "failed to get Registry for finalizer cleanup")
          release_registry found)
        else done tt
    drop_own_finalizer returns s registry_bindings req rb registry_binding_finalizer
        (lit "failed to get latest RegistryBinding for finalizer removal")
        (lit "failed to remove finalizer from RegistryBinding")
    done (returns none)

  unfoldable pub keep_registry_binding : Program Outcome Outcome
  unfolding and_then find
  keep_registry_binding = do
    add_own_finalizer returns s registry_bindings req rb registry_binding_finalizer
        (lit "failed to get latest RegistryBinding for finalizer addition")
        (lit "failed to add finalizer to RegistryBinding")
    if ltb 0 (length rb.registry_ref)
        then (do
          found ←
              find returns s registries (registry_name rb)
                (lit "failed to get Registry for protection finalizer")
          protect_registry found)
        else done tt
    done (returns none)

unfoldable pub reconcile_registry_binding : Settings → NamespacedName → Program Outcome Outcome
unfolding with_object delete_registry_binding keep_registry_binding
reconcile_registry_binding s req =
    with_object s registry_bindings req (lit "failed to get RegistryBinding") (λ rb.
      if rb.meta.deleting then delete_registry_binding s req rb else keep_registry_binding s req rb)
