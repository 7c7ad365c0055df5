-- ===== src/Controller/Profiles/Policy.antt =====
-- What the Profile controller may do.
use solution_arsenal.Prelude.{
  ◌≡◌, ◌⊎◌, Bool, true, false, not, ◌&&◌, some, List, [], ◌∷◌, ◌++◌, Memᴰ, Result, ok, All, any,
  keep, length,
}
use solution_arsenal.Str.{Str, str_eq}
use solution_arsenal.Api.{Profile, Release, ReleaseBinding, Target, ReferenceGrant, ObjectMeta}
use solution_arsenal.Grants.{grant_permits_target_access}
use solution_arsenal.Cluster.{
  Kind, profiles, releases, release_bindings, NamespacedName, Call, get, list, create, delete,
  patch, update_status, ListOptions, meta_of, refinalize, without,
}
use solution_arsenal.Cluster.Safe.{History}
use solution_arsenal.Controller.{key_of}
use solution_arsenal.Controller.Finalizers.{profile_finalizer, release_ref_finalizer}
use solution_arsenal.Controller.ReleaseBindings.{
  owner_profile, profile_name, profiles_of_release, bindings_of_release,
}
use solution_arsenal.Controller.ReleaseBindings.Idle.{SaysGone}
use solution_arsenal.Controller.Profiles.{
  ProfileReconciler, binding_target_key, target_key, binding_for, profile_release,
}
use solution_arsenal.Controller.Profiles.Bindings.{
  Selector, targets_in, all_grants, bindings_beside, is_owned, desired_targets,
}
use solution_arsenal.Controller.Profiles.Unprotect.{is_other_profile, is_leaving}

-- A grant of another namespace that lets the profile in.
abbrev pub lets_in : Profile → ReferenceGrant → Bool
lets_in profile grant =
    not (str_eq grant.meta.namespace profile.meta.namespace)
    && grant_permits_target_access grant profile.meta.namespace

module _ (profile : Profile) (selector : Selector) (h : History) where
  -- The target was listed by the selector, in the profile's namespace or in one that lets it in.
  pub data IsMatched (t : Target) : Type 0 where
    of_namespace :
        (ts : List Target)
        → Memᴰ (targets_in profile.meta.namespace selector, ok ts) h
        → Memᴰ t ts
        → IsMatched t
    let_in :
        (grants : List ReferenceGrant) (grant : ReferenceGrant) (ts : List Target)
        → Memᴰ (all_grants, ok grants) h
        → Memᴰ grant grants
        → lets_in profile grant ≡ true
        → Memᴰ (targets_in grant.meta.namespace selector, ok ts) h
        → Memᴰ t ts
        → IsMatched t

  -- If the grant lets the profile in, the targets of its namespace were listed, and are there.
  abbrev pub Covers : List Target → ReferenceGrant → Type 0
  Covers ts grant =
      lets_in profile grant ≡ true
      → (crossing : List Target) × Memᴰ (targets_in grant.meta.namespace selector, ok crossing) h
        × All (λ t. Memᴰ t ts) crossing

module _ (r : ProfileReconciler) where
  -- The list holds the targets that the profile's selector matches, in its own namespace and in all
  -- those that let it in, and no others.
  pub record Collected (profile : Profile) (h : History) (ts : List Target) : Type 0 where
    pub selector : Selector
    pub is_selector : r.as_selector profile.target_selector ≡ some selector
    pub own : List Target
    pub own_listed : Memᴰ (targets_in profile.meta.namespace selector, ok own) h
    pub grants : List ReferenceGrant
    pub grants_listed : Memᴰ (all_grants, ok grants) h
    pub matched : All (IsMatched profile selector h) ts
    pub holds_own : All (λ t. Memᴰ t ts) own
    pub holds_crossing : All (Covers profile selector h ts) grants

  -- The binding belongs to the profile, it is being deleted, or its owner is gone or being deleted.
  abbrev pub IsPassed : Profile → History → ReleaseBinding → Type 0
  IsPassed profile h rb =
      (is_leaving r profile rb ≡ true)
      ⊎ ((owner : Str) × (owner_profile rb ≡ some owner)
          × (answer : Result _ Profile) × Memᴰ (get profiles (profile_name rb owner), answer) h
          × SaysGone answer)

  -- The lists that were read show no other profile and only bindings that are passed over, and the
  -- release was read again after that.
  pub record ReleaseIsUnused (profile : Profile) (release : Release) (h : History) (fresh : Release)
      : Type 0 where
    pub ps : List Profile
    pub ps_listed : Memᴰ (profiles_of_release release, ok ps) h
    pub no_profile : any (is_other_profile profile) ps ≡ false
    pub rbs : List ReleaseBinding
    pub rbs_listed : Memᴰ (bindings_of_release release, ok rbs) h
    pub passed : All (IsPassed profile h) rbs
    pub read_again : Memᴰ (get releases (key_of releases release), ok fresh) h

  -- The profile was read, it is being deleted, and the list that was read shows none of its bindings.
  pub record OwnsNothing (req : NamespacedName) (profile : Profile) (h : History) : Type 0 where
    pub profile_read : Memᴰ (get profiles req, ok profile) h
    pub deleting : profile.meta.deleting ≡ true
    pub rbs : List ReleaseBinding
    pub rbs_listed : Memᴰ (bindings_beside profile, ok rbs) h
    pub none_owned : keep (is_owned r profile) rbs ≡ []

  -- A binding of the profile that a list has shown.
  pub record IsOwned (profile : Profile) (h : History) (rb : ReleaseBinding) : Type 0 where
    pub rbs : List ReleaseBinding
    pub rbs_listed : Memᴰ (bindings_beside profile, ok rbs) h
    pub shown : Memᴰ rb rbs
    pub owned : is_owned r profile rb ≡ true

  abbrev pub IsKept : NamespacedName → Profile → History → Type 0
  IsKept req profile h = Memᴰ (get profiles req, ok profile) h × (profile.meta.deleting ≡ false)

  -- The controller reads. It adds its own finalizer to the profile, and drops it when the profile is
  -- being deleted and owns no binding any more; it protects the release of a profile that stays, and
  -- drops the protection for one that owns no binding, while nothing else uses the release. It
  -- deletes bindings of a profile that is being deleted, and those whose target is not matched; it
  -- creates a binding for a matched target that has none; and it counts the targets.
  pub data ProfilePolicy (req : NamespacedName) (h : History) : Call → Type 0 where
    reads : (k : Kind) (n : NamespacedName) → ProfilePolicy req h (get k n)
    lists : (k : Kind) (o : ListOptions) → ProfilePolicy req h (list k o)
    adds_own :
        (p : Profile)
        → Memᴰ (get profiles req, ok p) h
        → ProfilePolicy req h (
            patch profiles false p
              (refinalize profiles p ((meta_of profiles p).finalizers ++ profile_finalizer ∷ [])))
    drops_own :
        (p profile : Profile)
        → Memᴰ (get profiles req, ok p) h
        → OwnsNothing req profile h
        → ProfilePolicy req h (
            patch profiles false p
              (refinalize profiles p (without profile_finalizer (meta_of profiles p).finalizers)))
    protects :
        (profile : Profile) (release : Release)
        → IsKept req profile h
        → Memᴰ (get releases (profile_release profile), ok release) h
        → ProfilePolicy req h (
            patch releases true release (
              refinalize releases release
                ((meta_of releases release).finalizers ++ release_ref_finalizer ∷ [])))
    unprotects :
        (profile : Profile) (lock : Bool) (release fresh : Release)
        → OwnsNothing req profile h
        → Memᴰ (get releases (profile_release profile), ok release) h
        → ReleaseIsUnused profile release h fresh
        → ProfilePolicy req h (
            patch releases lock fresh (
              refinalize releases fresh
                (without release_ref_finalizer (meta_of releases fresh).finalizers)))
    deletes_owned :
        (profile : Profile) (rb : ReleaseBinding)
        → Memᴰ (get profiles req, ok profile) h
        → profile.meta.deleting ≡ true
        → IsOwned profile h rb
        → ProfilePolicy req h (delete release_bindings rb)
    deletes_unmatched :
        (profile : Profile) (rb : ReleaseBinding) (ts : List Target)
        → IsKept req profile h
        → IsOwned profile h rb
        → Collected profile h ts
        → All (λ t. str_eq (target_key t) (binding_target_key rb) ≡ false) ts
        → ProfilePolicy req h (delete release_bindings rb)
    creates :
        (profile : Profile) (t : Target) (meta : ObjectMeta) (rbs : List ReleaseBinding)
        (ts : List Target)
        → IsKept req profile h
        → Collected profile h ts
        → Memᴰ t ts
        → Memᴰ (bindings_beside profile, ok rbs) h
        → All
            (λ rb. str_eq (binding_target_key rb) (target_key t) ≡ false)
            (keep (is_owned r profile) rbs)
        → r.set_controller_reference profile.meta (binding_for r profile t).meta ≡ ok meta
        → ProfilePolicy req h
            (create release_bindings (record (binding_for r profile t) { meta = meta }))
    sets_matched :
        (profile : Profile) (ts : List Target)
        → IsKept req profile h
        → Collected profile h ts
        → ProfilePolicy req h (
            update_status profiles
              (record profile { matched_targets = length (desired_targets ts []) }))
