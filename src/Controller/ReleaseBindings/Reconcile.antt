-- ===== src/Controller/ReleaseBindings/Reconcile.antt =====
-- ReleaseBindingReconciler.Reconcile (releasebinding_controller.go).
use solution_arsenal.Prelude.{Bool, true, false, Option, none, some, ltb, length, if◌then◌else◌}
use solution_arsenal.Str.{Str, lit}
use solution_arsenal.Api.{Release, ReleaseBinding, Profile}
use solution_arsenal.Cluster.{
  profiles, releases, release_bindings, NamespacedName, Program, done, stop, and_then, ◌>>=◌, ◌>>◌,
  has_finalizer,
}
use solution_arsenal.Controller.{
  Settings, Outcome, returns, find, drop_own_finalizer, add_own_finalizer, protect, check,
  with_object,
}
use solution_arsenal.Controller.Finalizers.{
  profile_finalizer, release_ref_finalizer, release_binding_finalizer,
}
use solution_arsenal.Controller.ReleaseBindings.{
  owner_profile, profile_name, remove_release_ref_finalizer,
}

abbrev pub bound_release : ReleaseBinding → NamespacedName
bound_release rb = record { namespace = rb.meta.namespace; name = rb.release_ref }

module _ (s : Settings) (rb : ReleaseBinding) where
  abbrev pub is_managing : Option Profile → Bool
  is_managing none = false
  is_managing (some owner) = has_finalizer profiles owner profile_finalizer

  -- profileOwnerManaging
  unfoldable pub profile_owner_managing : Option Str → Program Outcome Bool
  unfolding find and_then
  profile_owner_managing none = done false
  profile_owner_managing (some owner) = do
    found ←
        find returns s profiles (profile_name rb owner)
          (lit "failed to check owner Profile during ReleaseBinding deletion")
    done (is_managing found)

  abbrev pub let_release_go : Option Release → Program Outcome Unit
  let_release_go none = done tt
  let_release_go (some release) = check (remove_release_ref_finalizer s rb release)

  -- What follows on `profileOwnerManaging`.
  unfoldable pub unless_managed : Bool → Program Outcome Unit
  unfolding find and_then
  unless_managed managing = if managing then done tt else (do
    found ←
        find returns s releases (bound_release rb)
          (lit "failed to get Release for finalizer cleanup")
    let_release_go found)

  abbrev pub protect_fresh : Option Release → Program Outcome Unit
  protect_fresh none = stop (returns none)
  protect_fresh (some fresh) =
      protect returns s releases true fresh release_ref_finalizer
        (lit "failed to add protection finalizer to Release")

  unfoldable pub read_fresh : Program Outcome Unit
  unfolding find and_then protect
  read_fresh = do
    fresh ←
        find returns s releases (bound_release rb)
          (lit "failed to get latest Release for finalizer addition")
    protect_fresh fresh

  abbrev pub unless_leaving : Option Profile → Program Outcome Unit
  unless_leaving none = stop (returns none)
  unless_leaving (some owner) = if owner.meta.deleting then stop (returns none) else read_fresh

  unfoldable pub protect_owned : Option Str → Program Outcome Unit
  unfolding find and_then read_fresh
  protect_owned none = read_fresh
  protect_owned (some owner) = do
    found ←
        find returns s profiles (profile_name rb owner)
          (lit "failed to check owner Profile for deletion status")
    unless_leaving found

  abbrev pub protect_bound : Option Release → Program Outcome Unit
  protect_bound none = done tt
  protect_bound (some release) =
      if has_finalizer releases release release_ref_finalizer
      then done tt
      else protect_owned (owner_profile rb)

module _ (s : Settings) (req : NamespacedName) (rb : ReleaseBinding) where
  unfoldable pub delete_release_binding : Program Outcome Outcome
  unfolding and_then profile_owner_managing unless_managed
  delete_release_binding = do
    if ltb 0 (length rb.release_ref)
        then (do
          managing ← profile_owner_managing s rb (owner_profile rb)
          unless_managed s rb managing)
        else done tt
    drop_own_finalizer returns s release_bindings req rb release_binding_finalizer
        (lit "failed to get latest ReleaseBinding for finalizer removal")
        (lit "failed to remove finalizer from ReleaseBinding")
    done (returns none)

  unfoldable pub keep_release_binding : Program Outcome Outcome
  unfolding and_then find protect_owned
  keep_release_binding = do
    add_own_finalizer returns s release_bindings req rb release_binding_finalizer
        (lit "failed to get latest ReleaseBinding for finalizer addition")
        (lit "failed to add finalizer to ReleaseBinding")
    if ltb 0 (length rb.release_ref)
        then (do
          found ←
              find returns s releases (bound_release rb)
                (lit "failed to get Release for protection finalizer")
          protect_bound s rb found)
        else done tt
    done (returns none)

unfoldable pub reconcile_release_binding : Settings → NamespacedName → Program Outcome Outcome
unfolding with_object delete_release_binding keep_release_binding
reconcile_release_binding s req =
    with_object s release_bindings req (lit "failed to get ReleaseBinding") (λ rb.
      if rb.meta.deleting then delete_release_binding s req rb else keep_release_binding s req rb)
