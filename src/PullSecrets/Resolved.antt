-- ===== src/PullSecrets/Resolved.antt =====
-- The resources of a release are resolved one by one, with the pull secret of their registry.
use solution_arsenal.Prelude.{
  ◌≡◌, ◌⊎◌, refl, inl, inr, Bool, true, false, ◌&&◌, Option, none, some, List, [], ◌∷◌, Memᴰ, ok,
  err, Bool-cases, All, and_left,
}
use solution_arsenal.Str.{Str}
use solution_arsenal.Names.{registry_host}
use solution_arsenal.Api.{ResourceAccess, ResolvedResourceAccess}
use solution_arsenal.PullSecrets.{
  Secrets, MissingBinding, find_key, secret_or_empty, is_missing, resolved_access,
  resolve_resources,
}

-- What a resource is resolved to: it keeps its name and its coordinates, and gets the pull secret of
-- its host, or none where the host has no binding.
pub record Resolves (secrets : Secrets) (from : Str × ResourceAccess)
    (to : Str × ResolvedResourceAccess) : Type 0 where
  pub same_name : to.0 ≡ from.0
  pub same_repository : to.1.repository ≡ from.1.repository
  pub same_insecure : to.1.insecure ≡ from.1.insecure
  pub same_tag : to.1.tag ≡ from.1.tag
  pub same_helm : to.1.helm ≡ from.1.helm
  pub bound :
      (secret : Str)
      → find_key (registry_host from.1.repository) secrets ≡ some secret
      → to.1.pull_secret_name ≡ secret
  pub unbound :
      find_key (registry_host from.1.repository) secrets ≡ none → to.1.pull_secret_name ≡ []

-- The resources one by one, in their order.
abbrev pub AllResolve :
    Secrets → List (Str × ResourceAccess) → List (Str × ResolvedResourceAccess) → Type 0
AllResolve secrets [] [] = Unit
AllResolve secrets [] (to ∷ tos) = ⊥
AllResolve secrets (from ∷ froms) [] = ⊥
AllResolve secrets (from ∷ froms) (to ∷ tos) =
    Resolves secrets from to × AllResolve secrets froms tos

-- One of the resources has a host without a binding, and the error names them.
abbrev pub IsMissing : Secrets → List (Str × ResourceAccess) → MissingBinding → Type 0
IsMissing secrets resources e =
    (name : Str) × (ra : ResourceAccess) × Memᴰ (name, ra) resources
    × (e.resource ≡ name)
    × (e.host ≡ registry_host ra.repository)
    × (find_key e.host secrets ≡ none)

-- In strict mode, the resource's host has a binding.
abbrev pub HasBinding : Secrets → Bool → Str × ResourceAccess → Type 0
HasBinding secrets strict (name, ra) =
    strict ≡ true → (secret : Str) × (find_key (registry_host ra.repository) secrets ≡ some secret)

module _ (secrets : Secrets) (strict : Bool) where
  has_binding :
      (name : Str) (ra : ResourceAccess)
      → (strict && is_missing (find_key (registry_host ra.repository) secrets)) ≡ false
      → HasBinding secrets strict (name, ra)
  has_binding name ra n y = settle (find_key (registry_host ra.repository) secrets) refl (rw y at n)
    where
      settle :
          (o : Option Str)
          → find_key (registry_host ra.repository) secrets ≡ o
          → is_missing (find_key (registry_host ra.repository) secrets) ≡ false
          → (secret : Str) × (find_key (registry_host ra.repository) secrets ≡ some secret)
      settle none e k = cc (rw e at k)
      settle (some secret) e k = (secret, e)

  not_missing :
      (name : Str) (ra : ResourceAccess)
      → HasBinding secrets strict (name, ra)
      → (strict && is_missing (find_key (registry_host ra.repository) secrets)) ≡ false
  not_missing name ra h = elim (Bool-cases strict) [
    | inl y ↦ let (secret, e) = h y in rw (y, e) refl
    | inr n ↦ rw n refl
  ]

  -- The guard holds: strict mode, and no binding.
  missing : (o : Option Str) → (strict && is_missing o) ≡ true → (strict ≡ true) × (o ≡ none)
  missing none y = (and_left _ _ y, refl)
  missing (some secret) y = elim (Bool-cases strict) [
    | inl z ↦ cc (rw z at y)
    | inr z ↦ cc (rw z at y)
  ]

  resolves :
      (name : Str) (ra : ResourceAccess)
      → Resolves secrets
          (name, ra)
          (
            name,
            resolved_access ra (secret_or_empty (find_key (registry_host ra.repository) secrets)),
          )
  resolves name ra = record {
    same_name = refl;
    same_repository = refl;
    same_insecure = refl;
    same_tag = refl;
    same_helm = refl;
    bound = λ secret e. rw e refl;
    unbound = λ e. rw e refl;
  }

  -- The resources are resolved, or one of them is missing.
  abbrev pub Outcome : List (Str × ResourceAccess) → Type 0
  Outcome resources =
      ((rs : List (Str × ResolvedResourceAccess)) × (resolve_resources resources secrets strict
          ≡ ok rs)
        × AllResolve secrets resources rs
        × All (HasBinding secrets strict) resources)
      ⊎ ((e : MissingBinding) × (resolve_resources resources secrets strict ≡ err e)
          × (strict ≡ true)
          × IsMissing secrets resources e)

  -- resolveResources either resolves every resource, in their order: each keeps its name and its
  -- coordinates and gets the pull secret of its host, or none where the host has no binding, which in
  -- strict mode is so for no host; or it fails, in strict mode, and the error names a resource and its
  -- host, which has no binding.
  pub resolve_resources-ok : (resources : List (Str × ResourceAccess)) → Outcome resources
  unfolding resolve_resources
  resolve_resources-ok [] = inl ([], refl, tt, tt)
  resolve_resources-ok ((name, ra) ∷ resources) =
      elim (Bool-cases (strict && is_missing (find_key (registry_host ra.repository) secrets))) [
        | inl y ↦
            let (z, m) = missing _ y in
            inr (
              record { host = registry_host ra.repository; resource = name },
              rw (y, resolve_resources) refl,
              z,
              (name, ra, Memᴰ.head refl, refl, refl, m),
            )
        | inr n ↦ elim (resolve_resources-ok resources) [
          | inl (rs, e, a, b) ↦ inl (
            (
              name,
              resolved_access ra (secret_or_empty (find_key (registry_host ra.repository) secrets)),
            )
                ∷ rs,
            rw (n, e, resolve_resources) refl,
            (resolves name ra, a),
            (has_binding name ra n, b),
          )
          | inr (x, e, z, (name', ra', m, k, l, f)) ↦
              inr (x, rw (n, e, resolve_resources) refl, z, (name', ra', Memᴰ.tail m, k, l, f))
        ]
      ]
