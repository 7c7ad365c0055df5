-- ===== src/Grants/Tests.antt =====
-- Runs of the grant tests, and the theorems at a grant.
use solution_arsenal.Prelude.{◌≡◌, refl, ◌↔◌, true, false, none, [], ◌∷◌}
use solution_arsenal.Str.{lit, str_eq}
use solution_arsenal.Api.{ReferenceGrant}
use solution_arsenal.Grants.{
  solar_group, kind_target, kind_profile, kind_release, kind_registry, kind_component_version,
  kind_release_binding, grant_permits, grant_permits_target_access,
  grant_permits_component_version_access, grant_permits_registry_access, grants_target_resource,
  grants_component_version_resource, grants_registry_resource,
  grants_release_binding_to_target_resource,
}
use solution_arsenal.Grants.Permits.{IsPermitted, grant_permits_iff}

-- Releases of the namespace `apps` may refer to component versions.
abbrev grant : ReferenceGrant
grant = record {
  meta = record {
    name = lit "grant";
    namespace = lit "catalog";
    uid = lit "u";
    generation = 1;
    generate_name = [];
    deleting = false;
    finalizers = [];
    labels = [];
    controller = none;
  };
  from = record { group = solar_group; kind = kind_release; namespace = lit "apps" } ∷ [];
  to = record { group = solar_group; kind = kind_component_version } ∷ [];
}

running : Unit {0}
unfolding solar_group kind_target kind_profile kind_release kind_registry kind_component_version
    kind_release_binding grant_permits grant_permits_target_access
    grant_permits_component_version_access grant_permits_registry_access grants_target_resource
    grants_component_version_resource grants_registry_resource
    grants_release_binding_to_target_resource lit str_eq
running = tt

grant_runs :
    (grant_permits_component_version_access grant (lit "apps") ≡ true)
    × (grant_permits_component_version_access grant (lit "other") ≡ false)
    × (grant_permits_registry_access grant (lit "apps") ≡ false)
    × (grants_component_version_resource grant ≡ true)
    × (grants_release_binding_to_target_resource grant ≡ false)
unfolding running
grant_runs = (refl, refl, refl, refl, refl)

grant_permits_iff_example :
    (grant_permits grant solar_group kind_release (lit "apps") solar_group kind_component_version
      ≡ true)
    ↔ IsPermitted grant solar_group kind_release (lit "apps") solar_group kind_component_version
grant_permits_iff_example =
    grant_permits_iff grant solar_group kind_release (lit "apps") solar_group kind_component_version
