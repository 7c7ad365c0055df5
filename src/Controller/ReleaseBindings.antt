-- ===== src/Controller/ReleaseBindings.antt =====
-- The ReleaseBinding controller (releasebinding_controller.go): here removeReleaseRefFinalizer, in
-- Reconcile the reconciler. The cache of owner profiles keeps for a key whether the profile is there
-- and not being deleted.
pub mod Idle
pub mod Frees
pub mod Reconcile
pub mod Policy
pub mod Safety
use solution_arsenal.Prelude.{
  Bool, true, false, ◌&&◌, ◌||◌, not, Option, none, some, List, [], ◌∷◌, ◌++◌, Result, ok, err, any,
  ltb, length, if◌then◌else◌,
}
use solution_arsenal.Str.{Str, lit, str_eq}
use solution_arsenal.Api.{Release, ReleaseBinding, Profile, OwnerReference}
use solution_arsenal.PullSecrets.{find_key}
use solution_arsenal.Cluster.{
  Kind, profiles, releases, release_bindings, NamespacedName, Error, Call, get, list, Program, done,
  stop, call, and_then, ◌>>=◌, ◌>>◌, has_finalizer,
}
use solution_arsenal.Cluster.Errors.{is_not_found, err_log_and_wrap}
use solution_arsenal.Controller.{
  Settings, Outcome, returns, attempt, find, drop_own_finalizer, add_own_finalizer, protect,
  unprotect, check, with_object,
}
use solution_arsenal.Controller.Finalizers.{
  exits, profile_finalizer, release_ref_finalizer, release_binding_finalizer,
  index_profile_by_release_name, index_release_binding_release_name,
}

unfoldable pub solar_api_version : Str
solar_api_version = lit "solar.opendefense.cloud/v1alpha1"

-- metav1.GetControllerOf, where the controller is a Profile.
abbrev pub is_profile_reference : OwnerReference → Bool
is_profile_reference r = str_eq r.kind (lit "Profile") && str_eq r.api_version solar_api_version

abbrev pub profile_of : Option OwnerReference → Option Str
profile_of none = none
profile_of (some r) = if is_profile_reference r then some r.name else none

abbrev pub owner_profile : ReleaseBinding → Option Str
owner_profile rb = profile_of rb.meta.controller

abbrev pub profile_name : ReleaseBinding → Str → NamespacedName
profile_name rb owner = record { namespace = rb.meta.namespace; name = owner }

abbrev pub cache_key : NamespacedName → Str
cache_key n = n.namespace ++ lit "/" ++ n.name

abbrev pub profiles_of_release : Release → Call
profiles_of_release release = list profiles (record {
  namespace = some release.meta.namespace;
  live = false;
  field = some (index_profile_by_release_name, release.meta.name);
  selector = none;
})

abbrev pub bindings_of_release : Release → Call
bindings_of_release release = list release_bindings (record {
  namespace = some release.meta.namespace;
  live = false;
  field = some (index_release_binding_release_name, release.meta.name);
  selector = none;
})

-- A profile that still refers to the release, or that is being deleted and will take the finalizer
-- away itself.
abbrev pub holds_release : Profile → Bool
holds_release p = if p.meta.deleting then has_finalizer profiles p profile_finalizer else true

-- `rb.Name == deletingRB.Name || !rb.DeletionTimestamp.IsZero()`
abbrev pub is_passed : ReleaseBinding → ReleaseBinding → Bool
is_passed deleting_rb rb = str_eq rb.meta.name deleting_rb.meta.name || rb.meta.deleting

abbrev pub Cache : Type 0
Cache = List (Str × Bool)

module _ (s : Settings) where
  abbrev pub owner_or :
      Str
      → Cache
      → (Cache → Program (Option Error) Unit)
      → Result Error Profile
      → Program (Option Error) Unit
  owner_or key cache rest (ok op) =
      if op.meta.deleting then rest ((key, false) ∷ cache) else stop none
  owner_or key cache rest (err e) =
      if is_not_found e
      then rest ((key, false) ∷ cache)
      else stop (
          err_log_and_wrap s.test_mode (some e)
            (lit "failed to check owner Profile for Release finalizer check"))

  abbrev pub cached_or :
      NamespacedName
      → Cache
      → (Cache → Program (Option Error) Unit)
      → Option Bool
      → Program (Option Error) Unit
  cached_or n cache rest none = call (get profiles n) (owner_or (cache_key n) cache rest)
  cached_or n cache rest (some alive) = if alive then stop none else rest cache

  abbrev pub owned_or :
      ReleaseBinding
      → Cache
      → (Cache → Program (Option Error) Unit)
      → Option Str
      → Program (Option Error) Unit
  owned_or rb cache rest none = stop none
  owned_or rb cache rest (some owner) =
      cached_or (profile_name rb owner) cache rest
        (find_key (cache_key (profile_name rb owner)) cache)

module _ (s : Settings) (deleting_rb : ReleaseBinding) where
  -- The loop over the bindings: it returns where one of them is active.
  unfoldable pub check_bindings : List ReleaseBinding → Cache → Program (Option Error) Unit
  unfolding find_key
  check_bindings [] cache = done tt
  check_bindings (rb ∷ rbs) cache =
      let rest = check_bindings rbs in
      if is_passed deleting_rb rb then rest cache else owned_or s rb cache rest (owner_profile rb)

  unfoldable pub remove_release_ref_finalizer : Release → Program (Option Error) (Option Error)
  unfolding and_then attempt unprotect check_bindings
  remove_release_ref_finalizer release =
      if has_finalizer releases release release_ref_finalizer
      then (do
        ps ←
            attempt exits s (profiles_of_release release)
              (lit "failed to list Profiles for Release finalizer check")
        if any holds_release ps then stop none else (do
          rbs ←
              attempt exits s (bindings_of_release release)
                (lit "failed to list ReleaseBindings for Release finalizer check")
          check_bindings rbs []
          unprotect exits s releases true release release_ref_finalizer
              (lit "failed to get latest Release for finalizer removal")
              (lit "failed to remove protection finalizer from Release")
          done none))
      else stop none
