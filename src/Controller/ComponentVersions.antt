-- ===== src/Controller/ComponentVersions.antt =====
-- ComponentVersionReconciler (componentversion_controller.go).
pub mod Safety
use solution_arsenal.Prelude.{
  Bool, true, false, Option, none, some, List, ltb, length, if◌then◌else◌,
}
use solution_arsenal.Str.{Str, lit}
use solution_arsenal.Api.{Component, ComponentVersion}
use solution_arsenal.Cluster.{
  Kind, components, component_versions, NamespacedName, Error, Program, done, stop, and_then, ◌>>=◌,
  ◌>>◌,
}
use solution_arsenal.Controller.{
  Settings, Outcome, returns, find, drop_own_finalizer, add_own_finalizer, protect, check,
  with_object,
}
use solution_arsenal.Controller.Finalizers.{
  component_version_finalizer, component_ref_finalizer, remove_component_ref_finalizer,
}

abbrev pub component_name : ComponentVersion → NamespacedName
component_name cv = record { namespace = cv.meta.namespace; name = cv.component_ref }

module _ (s : Settings) (req : NamespacedName) (cv : ComponentVersion) where
  abbrev pub release_component : Option Component → Program Outcome Unit
  release_component none = done tt
  release_component (some comp) = check (remove_component_ref_finalizer s cv comp)

  abbrev pub protect_component : Option Component → Program Outcome Unit
  protect_component none = done tt
  protect_component (some comp) =
      protect returns s components false comp component_ref_finalizer
        (lit "failed to add protection finalizer to Component")

  unfoldable pub delete_component_version : Program Outcome Outcome
  unfolding and_then find
  delete_component_version = do
    if ltb 0 (length cv.component_ref)
        then (do
          found ←
              find returns s components (component_name cv)
                (lit "failed to get Component for finalizer cleanup")
          release_component found)
        else done tt
    drop_own_finalizer returns s component_versions req cv component_version_finalizer
        (lit "failed to get latest ComponentVersion for finalizer removal")
        (lit "failed to remove finalizer from ComponentVersion")
    done (returns none)

  unfoldable pub keep_component_version : Program Outcome Outcome
  unfolding and_then find
  keep_component_version = do
    add_own_finalizer returns s component_versions req cv component_version_finalizer
        (lit "failed to get latest ComponentVersion for finalizer addition")
        (lit "failed to add finalizer to ComponentVersion")
    if ltb 0 (length cv.component_ref)
        then (do
          found ←
              find returns s components (component_name cv)
                (lit "failed to get Component for protection finalizer")
          protect_component found)
        else done tt
    done (returns none)

unfoldable pub reconcile_component_version : Settings → NamespacedName → Program Outcome Outcome
unfolding with_object delete_component_version keep_component_version
reconcile_component_version s req =
    with_object s component_versions req (lit "failed to get ComponentVersion") (λ cv.
      if cv.meta.deleting
      then delete_component_version s req cv
      else keep_component_version s req cv)
