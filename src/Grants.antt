-- ===== src/Grants.antt =====
-- Reference grants: which references across namespaces a ReferenceGrant permits
-- (pkg/controller/profile_controller.go, target_controller.go, release_controller.go).
pub mod Permits
mod Tests
use solution_arsenal.Prelude.{Bool, true, false, ◌&&◌, ◌||◌, List, [], ◌∷◌, any, if◌then◌else◌}
use solution_arsenal.Str.{Str, lit, str_eq}
use solution_arsenal.Api.{ReferenceGrant, ReferenceGrantFromSubject, ReferenceGrantToTarget}

unfoldable pub solar_group : Str
solar_group = lit "solar.opendefense.cloud"

unfoldable pub kind_target : Str
kind_target = lit "Target"

unfoldable pub kind_profile : Str
kind_profile = lit "Profile"

unfoldable pub kind_release : Str
kind_release = lit "Release"

unfoldable pub kind_registry : Str
kind_registry = lit "Registry"

unfoldable pub kind_component_version : Str
kind_component_version = lit "ComponentVersion"

unfoldable pub kind_release_binding : Str
kind_release_binding = lit "ReleaseBinding"

-- The first loop of grantPermits.
abbrev pub from_is : Str → Str → Str → ReferenceGrantFromSubject → Bool
from_is group kind namespace f =
    str_eq f.namespace namespace && (str_eq f.kind kind && str_eq f.group group)

-- The test on an entry of `spec.to`.
abbrev pub to_is : Str → Str → ReferenceGrantToTarget → Bool
to_is group kind t = str_eq t.kind kind && str_eq t.group group

-- The test on an entry of `spec.from` that the mapping functions make, for any namespace.
abbrev pub from_kind_is : Str → Str → ReferenceGrantFromSubject → Bool
from_kind_is group kind f = str_eq f.kind kind && str_eq f.group group

unfoldable pub grant_permits : ReferenceGrant → Str → Str → Str → Str → Str → Bool
grant_permits grant from_group from_kind from_namespace to_group to_kind =
    if any (from_is from_group from_kind from_namespace) grant.from
    then any (to_is to_group to_kind) grant.to
    else false

unfoldable pub grant_permits_target_access : ReferenceGrant → Str → Bool
unfolding grant_permits
grant_permits_target_access grant from_namespace =
    grant_permits grant solar_group kind_profile from_namespace solar_group kind_target

unfoldable pub grant_permits_component_version_access : ReferenceGrant → Str → Bool
unfolding grant_permits
grant_permits_component_version_access grant from_namespace =
    grant_permits grant solar_group kind_release from_namespace solar_group kind_component_version

unfoldable pub grant_permits_registry_access : ReferenceGrant → Str → Bool
unfolding grant_permits
grant_permits_registry_access grant from_namespace =
    grant_permits grant solar_group kind_target from_namespace solar_group kind_registry

unfoldable pub grants_target_resource : ReferenceGrant → Bool
grants_target_resource grant = any (to_is solar_group kind_target) grant.to

unfoldable pub grants_component_version_resource : ReferenceGrant → Bool
grants_component_version_resource grant = any (to_is solar_group kind_component_version) grant.to

unfoldable pub grants_registry_resource : ReferenceGrant → Bool
grants_registry_resource grant = any (to_is solar_group kind_registry) grant.to

unfoldable pub grants_release_binding_to_target_resource : ReferenceGrant → Bool
grants_release_binding_to_target_resource grant =
    if any (from_kind_is solar_group kind_release_binding) grant.from
    then any (to_is solar_group kind_target) grant.to
    else false
