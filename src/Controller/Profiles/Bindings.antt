-- ===== src/Controller/Profiles/Bindings.antt =====
-- The targets that a profile matches, and the bindings that it deletes and creates for them (the
-- second half of ProfileReconciler.Reconcile).
use solution_arsenal.Prelude.{
  ℕ, Bool, ◌==◌, not, Option, none, some, List, [], ◌∷◌, ◌++◌, ok, err, Result, keep, length,
  if◌then◌else◌, false,
}
use solution_arsenal.Str.{Str, lit, str_eq}
use solution_arsenal.Api.{Profile, Target, ReleaseBinding, ReferenceGrant, ObjectMeta, Labels}
use solution_arsenal.Grants.{grant_permits_target_access}
use solution_arsenal.PullSecrets.{find_key}
use solution_arsenal.Cluster.{
  profiles, targets, release_bindings, reference_grants, Error, Call, list, create, delete,
  update_status, Program, done, stop, call, and_then, ◌>>=◌, ◌>>◌,
}
use solution_arsenal.Cluster.Errors.{is_not_found, is_already_exists, err_log_and_wrap}
use solution_arsenal.Controller.{Outcome, returns, attempt}
use solution_arsenal.Controller.Profiles.{
  ProfileReconciler, binding_target_key, target_key, set_key, binding_for,
}

abbrev pub Selector : Type 0
Selector = Labels → Bool

abbrev pub targets_in : Str → Selector → Call
targets_in namespace selector =
    list targets
      (record { namespace = some namespace; live = false; field = none; selector = some selector })

abbrev pub all_grants : Call
all_grants =
    list reference_grants (record { namespace = none; live = false; field = none; selector = none })

abbrev pub bindings_beside : Profile → Call
bindings_beside profile = list release_bindings (record {
  namespace = some profile.meta.namespace;
  live = false;
  field = none;
  selector = none;
})

-- desiredTargets
unfoldable pub desired_targets : List Target → List (Str × Target) → List (Str × Target)
desired_targets [] m = m
desired_targets (t ∷ ts) m = desired_targets ts (set_key (target_key t) t m)

abbrev pub Existing : Type 0
Existing = List (Str × ReleaseBinding)

module _ (r : ProfileReconciler) (profile : Profile) where
  abbrev pub is_owned : ReleaseBinding → Bool
  is_owned rb = r.is_controlled_by rb.meta profile.meta

  abbrev pub fails : {A : Type 0} → Error → Str → Program Outcome A
  fails e text = stop (returns (err_log_and_wrap r.settings.test_mode (some e) text))

  -- The loop over the grants, with `allTargets` so far.
  unfoldable pub collect_granted_targets :
      Selector → List ReferenceGrant → List Target → Program Outcome (List Target)
  unfolding attempt and_then
  collect_granted_targets selector [] ts = done ts
  collect_granted_targets selector (grant ∷ grants) ts =
      let rest = collect_granted_targets selector grants in
      if str_eq grant.meta.namespace profile.meta.namespace
      then rest ts
      else if not (grant_permits_target_access grant profile.meta.namespace)
      then rest ts
      else (do
        crossing ←
            attempt returns r.settings (targets_in grant.meta.namespace selector)
              (lit "failed to list cross-namespace Targets in " ++ grant.meta.namespace)
        rest (ts ++ crossing))

  -- allTargets
  unfoldable pub collect_targets : Selector → Program Outcome (List Target)
  unfolding attempt and_then collect_granted_targets
  collect_targets selector = do
    own ←
        attempt returns r.settings (targets_in profile.meta.namespace selector)
          (lit "failed to list Targets")
    grants ← attempt returns r.settings all_grants (lit "failed to list ReferenceGrants")
    collect_granted_targets selector grants own

  abbrev pub gone_or :
      {A : Type 0} → Str → Program Outcome A → Result Error (Unit {0}) → Program Outcome A
  gone_or text rest (ok tt) = rest
  gone_or text rest (err e) = if is_not_found e then rest else fails e text

  abbrev pub desired_or :
      ReleaseBinding → Program Outcome Existing → Option Target → Program Outcome Existing
  desired_or rb rest (some t) = rest
  desired_or rb rest none =
      call (delete release_bindings rb) (gone_or (lit "failed to delete ReleaseBinding") rest)

  -- The loop over the existing bindings, with `existingByKey` so far.
  unfoldable pub delete_unmatched :
      List (Str × Target) → List ReleaseBinding → Existing → Program Outcome Existing
  unfolding find_key set_key
  delete_unmatched desired [] existing = done existing
  delete_unmatched desired (rb ∷ rbs) existing =
      let rest = delete_unmatched desired rbs in
      desired_or rb (rest (set_key (binding_target_key rb) rb existing))
        (find_key (binding_target_key rb) desired)

  abbrev pub made_or : Program Outcome Unit → Result Error ReleaseBinding → Program Outcome Unit
  made_or rest (ok rb) = rest
  made_or rest (err e) =
      if is_already_exists e then rest else fails e (lit "failed to create ReleaseBinding")

  abbrev pub owned_or :
      Target → Program Outcome Unit → Result Error ObjectMeta → Program Outcome Unit
  owned_or t rest (ok meta) =
      call (create release_bindings (record (binding_for r profile t) { meta = meta }))
        (made_or rest)
  owned_or t rest (err e) = fails e (lit "failed to set controller reference on ReleaseBinding")

  abbrev pub existing_or :
      Target → Program Outcome Unit → Option ReleaseBinding → Program Outcome Unit
  existing_or t rest (some rb) = rest
  existing_or t rest none =
      owned_or t rest (r.set_controller_reference profile.meta (binding_for r profile t).meta)

  -- The loop over the desired targets.
  unfoldable pub create_missing : Existing → List (Str × Target) → Program Outcome Unit
  unfolding find_key binding_for
  create_missing existing [] = done tt
  create_missing existing ((key, t) ∷ ts) =
      let rest = create_missing existing ts in existing_or t rest (find_key key existing)

  unfoldable pub set_matched : ℕ → Program Outcome Outcome
  unfolding attempt and_then
  set_matched n = if n == profile.matched_targets then done (returns none) else (do
    attempt returns r.settings (update_status profiles (record profile { matched_targets = n }))
        (lit "failed to update Profile status")
    done (returns none))

  -- From the list of targets on.
  unfoldable pub bind_targets : List (Str × Target) → Program Outcome Outcome
  unfolding attempt and_then delete_unmatched create_missing set_matched
  bind_targets desired = do
    all ←
        attempt returns r.settings (bindings_beside profile) (lit "failed to list ReleaseBindings")
    existing ← delete_unmatched desired (keep is_owned all) []
    create_missing existing (r.range desired)
    set_matched (length desired)
