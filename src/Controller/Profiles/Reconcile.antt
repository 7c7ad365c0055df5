-- ===== src/Controller/Profiles/Reconcile.antt =====
-- ProfileReconciler.Reconcile (profile_controller.go).
use solution_arsenal.Prelude.{
  Bool, true, false, Option, none, some, List, [], ◌∷◌, keep, ltb, length, if◌then◌else◌,
}
use solution_arsenal.Str.{lit}
use solution_arsenal.Api.{Profile, Release, ReleaseBinding}
use solution_arsenal.Cluster.{
  profiles, releases, release_bindings, NamespacedName, delete, Program, done, call, and_then,
  ◌>>=◌, ◌>>◌,
}
use solution_arsenal.Controller.{
  Outcome, returns, attempt, find, drop_own_finalizer, add_own_finalizer, protect, check,
  with_object,
}
use solution_arsenal.Controller.Finalizers.{profile_finalizer, release_ref_finalizer}
use solution_arsenal.Controller.Profiles.{ProfileReconciler, profile_release}
use solution_arsenal.Controller.Profiles.Bindings.{
  Selector, is_owned, gone_or, bindings_beside, collect_targets, desired_targets, bind_targets,
}
use solution_arsenal.Controller.Profiles.Unprotect.{remove_release_ref_finalizer_if_unreferenced}

module _ (r : ProfileReconciler) (req : NamespacedName) (profile : Profile) where
  -- The loop over the owned bindings of a profile that is being deleted.
  unfoldable pub delete_bindings : List ReleaseBinding → Program Outcome Unit
  delete_bindings [] = done tt
  delete_bindings (rb ∷ rbs) =
      let rest = delete_bindings rbs in
      if rb.meta.deleting
      then rest
      else call (delete release_bindings rb) (
          gone_or r profile (lit "failed to delete owned ReleaseBinding during Profile deletion")
            rest)

  abbrev pub release_gone : Option Release → Program Outcome Unit
  release_gone none = done tt
  release_gone (some release) =
      check (remove_release_ref_finalizer_if_unreferenced r profile release)

  unfoldable pub leave : Program Outcome Outcome
  unfolding find and_then
  leave = do
    if ltb 0 (length profile.release_ref)
        then (do
          found ←
              find returns r.settings releases (profile_release profile)
                (lit "failed to get Release for finalizer cleanup")
          release_gone found)
        else done tt
    drop_own_finalizer returns r.settings profiles req profile profile_finalizer
        (lit "failed to get latest Profile for finalizer removal")
        (lit "failed to remove finalizer from Profile")
    done (returns none)

  -- ownedExist
  abbrev pub is_empty : List ReleaseBinding → Bool
  is_empty [] = true
  is_empty (rb ∷ rbs) = false

  unfoldable pub delete_profile : Program Outcome Outcome
  unfolding attempt and_then delete_bindings leave
  delete_profile = do
    all ←
        attempt returns r.settings (bindings_beside profile)
          (lit "failed to list owned ReleaseBindings for deletion")
    delete_bindings (keep (is_owned r profile) all)
    if is_empty (keep (is_owned r profile) all) then leave else done (returns none)

  abbrev pub protect_release : Option Release → Program Outcome Unit
  protect_release none = done tt
  protect_release (some release) =
      protect returns r.settings releases true release release_ref_finalizer
        (lit "failed to add protection finalizer to Release")

  abbrev pub select_targets : Option Selector → Program Outcome Outcome
  select_targets none = done (returns none)
  select_targets (some selector) =
      and_then (collect_targets r profile selector)
        (λ ts. bind_targets r profile (desired_targets ts []))

  unfoldable pub keep_profile : Program Outcome Outcome
  unfolding find and_then collect_targets bind_targets desired_targets
  keep_profile = do
    add_own_finalizer returns r.settings profiles req profile profile_finalizer
        (lit "failed to get latest Profile for finalizer addition")
        (lit "failed to add finalizer to Profile")
    if ltb 0 (length profile.release_ref)
        then (do
          found ←
              find returns r.settings releases (profile_release profile)
                (lit "failed to get Release for protection finalizer")
          protect_release found)
        else done tt
    select_targets (r.as_selector profile.target_selector)

unfoldable pub reconcile_profile : ProfileReconciler → NamespacedName → Program Outcome Outcome
unfolding with_object delete_profile keep_profile
reconcile_profile r req =
    with_object r.settings profiles req (lit "failed to get Profile") (λ profile.
      if profile.meta.deleting then delete_profile r req profile else keep_profile r req profile)
