-- ===== src/Grants/Permits.antt =====
-- A grant permits a reference exactly when it lists the referrer and the kind that is referred to;
-- and the mapping functions do not pass over a grant that permits something.
use solution_arsenal.Prelude.{
  ◌≡◌, refl, ◌↔◌, Bool, true, List, [], ◌∷◌, Memᴰ, arith, any, Bool-cases, inl, inr,
}
use solution_arsenal.Str.{Str}
use solution_arsenal.Str.Laws.{str_eq_iff}
use solution_arsenal.Api.{ReferenceGrant, ReferenceGrantFromSubject, ReferenceGrantToTarget}
use solution_arsenal.Grants.{
  from_is, to_is, grant_permits, grant_permits_target_access,
  grant_permits_component_version_access, grant_permits_registry_access, grants_target_resource,
  grants_component_version_resource, grants_registry_resource,
}

module _ {ℓ} {A : Type ℓ} (p : A → Bool) where
  pub any-Memᴰ : (xs : List A) → any p xs ≡ true → (a : A) × Memᴰ a xs × (p a ≡ true)
  any-Memᴰ [] h = cc
  any-Memᴰ (x ∷ xs) h = elim (Bool-cases (p x)) [
    | inl y ↦ (x, Memᴰ.head refl, y)
    | inr n ↦ let (a, m, e) = any-Memᴰ xs (ground arith) in (a, Memᴰ.tail m, e)
  ]

  pub any_of_Memᴰ : {a : A} (xs : List A) → Memᴰ a xs → p a ≡ true → any p xs ≡ true
  any_of_Memᴰ [] m h = elim m [ ]
  any_of_Memᴰ (x ∷ xs) (Memᴰ.head e) h = rw (← e) (ground arith)
  any_of_Memᴰ (x ∷ xs) (Memᴰ.tail m) h = ground (arith, any_of_Memᴰ xs m h)

-- The referrer is listed in `spec.from`, and the kind that it refers to in `spec.to`.
pub record IsPermitted (grant : ReferenceGrant)
    (from_group from_kind from_namespace to_group to_kind : Str) : Type 0 where
  pub from : ReferenceGrantFromSubject
  pub from_listed : Memᴰ from grant.from
  pub from_namespace_is : from.namespace ≡ from_namespace
  pub from_kind_is : from.kind ≡ from_kind
  pub from_group_is : from.group ≡ from_group
  pub to : ReferenceGrantToTarget
  pub to_listed : Memᴰ to grant.to
  pub to_kind_is : to.kind ≡ to_kind
  pub to_group_is : to.group ≡ to_group

module _ (grant : ReferenceGrant) (fg fk fn tg tk : Str) where
  permitted : grant_permits grant fg fk fn tg tk ≡ true → IsPermitted grant fg fk fn tg tk
  unfolding grant_permits
  permitted h =
      let (f, mf, ef) = any-Memᴰ (from_is fg fk fn) grant.from (ground arith) in
      let (t, mt, et) = any-Memᴰ (to_is tg tk) grant.to (ground arith) in
      record {
        from = f;
        from_listed = mf;
        from_namespace_is = (str_eq_iff _ _).0 (ground arith);
        from_kind_is = (str_eq_iff _ _).0 (ground arith);
        from_group_is = (str_eq_iff _ _).0 (ground arith);
        to = t;
        to_listed = mt;
        to_kind_is = (str_eq_iff _ _).0 (ground arith);
        to_group_is = (str_eq_iff _ _).0 (ground arith);
      }

  permits : IsPermitted grant fg fk fn tg tk → grant_permits grant fg fk fn tg tk ≡ true
  unfolding grant_permits
  permits r = ground (
    arith,
    any_of_Memᴰ (from_is fg fk fn) grant.from r.from_listed (
        ground (
          arith,
          str_eq_iff r.from.namespace fn,
          str_eq_iff r.from.kind fk,
          str_eq_iff r.from.group fg,
        )),
    any_of_Memᴰ (to_is tg tk) grant.to r.to_listed
        (ground (arith, str_eq_iff r.to.kind tk, str_eq_iff r.to.group tg)),
  )

  -- grantPermits answers yes exactly when the referrer's group, kind and namespace stand together
  -- in one entry of `spec.from` and the group and kind referred to in one entry of `spec.to`.
  pub grant_permits_iff :
      (grant_permits grant fg fk fn tg tk ≡ true) ↔ IsPermitted grant fg fk fn tg tk
  grant_permits_iff = (permitted, permits)

-- A grant that permits an access passes the test by which the mapping functions choose the grants
-- that matter for that kind: targets, component versions and registries.
pub grants-of_permits :
    (grant : ReferenceGrant) (namespace : Str)
    → (grant_permits_target_access grant namespace ≡ true → grants_target_resource grant ≡ true)
      × (grant_permits_component_version_access grant namespace ≡ true
          → grants_component_version_resource grant ≡ true)
      × (grant_permits_registry_access grant namespace ≡ true
          → grants_registry_resource grant ≡ true)
unfolding grant_permits_target_access grant_permits_component_version_access
    grant_permits_registry_access grants_target_resource grants_component_version_resource
    grants_registry_resource
grants-of_permits grant namespace = (λ h. ground arith, λ h. ground arith, λ h. ground arith)
