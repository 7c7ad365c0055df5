-- ===== src/Controller/Finalizers.antt =====
-- The finalizers and the functions that take a protecting one away when nobody refers to the object
-- any more (helpers.go, componentversion_controller.go, release_controller.go).
use solution_arsenal.Prelude.{
  Bool, true, false, Option, none, some, ◌++◌, any, not, ◌&&◌, if◌then◌else◌,
}
use solution_arsenal.Str.{Str, lit, str_eq}
use solution_arsenal.Api.{
  Target, Registry, RegistryBinding, Release, ComponentVersion, Component, ObjectMeta,
}
use solution_arsenal.Cluster.{
  targets, registries, registry_bindings, releases, component_versions, components, Error, Call,
  list, Program, done, stop, and_then, ◌>>=◌, ◌>>◌, has_finalizer,
}
use solution_arsenal.Controller.{Settings, attempt, unprotect}

unfoldable pub target_finalizer : Str
target_finalizer = lit "solar.opendefense.cloud/target-finalizer"

unfoldable pub release_finalizer : Str
release_finalizer = lit "solar.opendefense.cloud/release-finalizer"

unfoldable pub profile_finalizer : Str
profile_finalizer = lit "solar.opendefense.cloud/profile-finalizer"

unfoldable pub release_binding_finalizer : Str
release_binding_finalizer = lit "solar.opendefense.cloud/releasebinding-finalizer"

unfoldable pub component_version_finalizer : Str
component_version_finalizer = lit "solar.opendefense.cloud/componentversion-finalizer"

unfoldable pub registry_binding_finalizer : Str
registry_binding_finalizer = lit "solar.opendefense.cloud/registrybinding-finalizer"

unfoldable pub component_version_ref_finalizer : Str
component_version_ref_finalizer = lit "solar.opendefense.cloud/componentversion-ref"

unfoldable pub component_ref_finalizer : Str
component_ref_finalizer = lit "solar.opendefense.cloud/component-ref"

unfoldable pub release_ref_finalizer : Str
release_ref_finalizer = lit "solar.opendefense.cloud/release-ref"

unfoldable pub registry_ref_finalizer : Str
registry_ref_finalizer = lit "solar.opendefense.cloud/registry-ref"

-- The field indexes by which referrers are found.
unfoldable pub index_release_by_cv_ref : Str
index_release_by_cv_ref = lit "dp.spec.componentVersionRef"

unfoldable pub index_cv_by_component_name : Str
index_cv_by_component_name = lit "dp.spec.componentRef.name"

unfoldable pub index_profile_by_release_name : Str
index_profile_by_release_name = lit "dp.spec.releaseRef.name"

unfoldable pub index_target_by_registry_ref : Str
index_target_by_registry_ref = lit "dp.spec.renderRegistryRef"

unfoldable pub index_registry_binding_by_registry_name : Str
index_registry_binding_by_registry_name = lit "dp.spec.registryRef.name"

unfoldable pub index_release_binding_release_name : Str
index_release_binding_release_name = lit "spec.releaseRef.name"

unfoldable pub index_registry_binding_target_name : Str
index_registry_binding_target_name = lit "spec.targetRef.name"

-- "<namespace>/<name>"
abbrev pub ref_key : ObjectMeta → Str
ref_key m = m.namespace ++ lit "/" ++ m.name

abbrev pub same_object : ObjectMeta → ObjectMeta → Bool
same_object m n = str_eq m.name n.name && str_eq m.namespace n.namespace

-- The list calls that look for referrers.
abbrev pub targets_of_registry : Registry → Call
targets_of_registry registry = list targets (record {
  namespace = none;
  live = false;
  field = some (index_target_by_registry_ref, ref_key registry.meta);
  selector = none;
})

abbrev pub bindings_of_registry : Registry → Call
bindings_of_registry registry = list registry_bindings (record {
  namespace = some registry.meta.namespace;
  live = false;
  field = some (index_registry_binding_by_registry_name, registry.meta.name);
  selector = none;
})

-- The loops over the referrers: the one that is being reconciled and those that are being deleted
-- do not count.
unfoldable pub is_other_target : Option Target → Target → Bool
is_other_target none t = not t.meta.deleting
is_other_target (some skip) t = not (same_object t.meta skip.meta) && not t.meta.deleting

unfoldable pub is_other_registry_binding : Option RegistryBinding → RegistryBinding → Bool
is_other_registry_binding none rb = not rb.meta.deleting
is_other_registry_binding (some skip) rb =
    not (str_eq rb.meta.name skip.meta.name) && not rb.meta.deleting

abbrev pub versions_of_component : Component → Call
versions_of_component comp = list component_versions (record {
  namespace = some comp.meta.namespace;
  live = false;
  field = some (index_cv_by_component_name, comp.meta.name);
  selector = none;
})

unfoldable pub is_other_component_version : ComponentVersion → ComponentVersion → Bool
is_other_component_version deleting_cv cv =
    not (str_eq cv.meta.name deleting_cv.meta.name) && not cv.meta.deleting

abbrev pub releases_of_version : ComponentVersion → Call
releases_of_version cv = list releases (record {
  namespace = none;
  live = false;
  field = some (index_release_by_cv_ref, ref_key cv.meta);
  selector = none;
})

unfoldable pub is_other_release : Release → Release → Bool
is_other_release deleting_release rel =
    not (same_object rel.meta deleting_release.meta) && not rel.meta.deleting

abbrev pub exits : Option Error → Option Error
exits e = e

module _ (s : Settings) where
  unfoldable pub remove_registry_ref_finalizer :
      Option Target → Option RegistryBinding → Registry → Program (Option Error) (Option Error)
  unfolding and_then attempt unprotect is_other_target is_other_registry_binding
  remove_registry_ref_finalizer skip_target skip_registry_binding registry =
      if has_finalizer registries registry registry_ref_finalizer
      then (do
        ts ←
            attempt exits s (targets_of_registry registry)
              (lit "failed to list Targets for Registry finalizer check")
        if any (is_other_target skip_target) ts then stop none else (do
          rbs ←
              attempt exits s (bindings_of_registry registry)
                (lit "failed to list RegistryBindings for Registry finalizer check")
          if any (is_other_registry_binding skip_registry_binding) rbs then stop none else (do
            unprotect exits s registries true registry registry_ref_finalizer
                (lit "failed to get latest Registry for finalizer removal")
                (lit "failed to remove protection finalizer from Registry")
            done none)))
      else stop none

  unfoldable pub remove_component_ref_finalizer :
      ComponentVersion → Component → Program (Option Error) (Option Error)
  unfolding and_then attempt unprotect is_other_component_version
  remove_component_ref_finalizer deleting_cv comp =
      if has_finalizer components comp component_ref_finalizer
      then (do
        cvs ←
            attempt exits s (versions_of_component comp)
              (lit "failed to list ComponentVersions for Component finalizer check")
        if any (is_other_component_version deleting_cv) cvs then stop none else (do
          unprotect exits s components false comp component_ref_finalizer
              (lit "failed to get latest Component for finalizer removal")
              (lit "failed to remove protection finalizer from Component")
          done none))
      else stop none

  unfoldable pub remove_component_version_ref_finalizer :
      Release → ComponentVersion → Program (Option Error) (Option Error)
  unfolding and_then attempt unprotect is_other_release
  remove_component_version_ref_finalizer deleting_release cv =
      if has_finalizer component_versions cv component_version_ref_finalizer
      then (do
        rels ←
            attempt exits s (releases_of_version cv)
              (lit "failed to list Releases for ComponentVersion finalizer check")
        if any (is_other_release deleting_release) rels then stop none else (do
          unprotect exits s component_versions false cv component_version_ref_finalizer
              (lit "failed to get latest ComponentVersion for finalizer removal")
              (lit "failed to remove protection finalizer from ComponentVersion")
          done none))
      else stop none
