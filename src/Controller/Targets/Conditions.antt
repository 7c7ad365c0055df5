-- ===== src/Controller/Targets/Conditions.antt =====
-- The conditions of a target (setCondition and setResolvedCondition of target_controller.go), and the
-- ways in which the reconciler ends behind one. A status update leaves the API server's answer in
-- the reconciler's target, as client.Client does.
use solution_arsenal.Prelude.{
  Bool, true, false, Option, none, some, List, [], ◌∷◌, ◌++◌, map, Result, ok, err, if◌then◌else◌,
}
use solution_arsenal.Str.{Str, lit}
use solution_arsenal.Api.{Target, Condition}
use solution_arsenal.Resolver.{Skipped, lower_priority, invalid_selector, anti_affinity}
use solution_arsenal.Cluster.{
  targets, Error, update_status, Program, done, stop, call, and_then, returned,
}
use solution_arsenal.Cluster.Errors.{err_log_and_wrap}
use solution_arsenal.Controller.{Settings, Outcome, returns}
use solution_arsenal.Controller.Backoff.{requeue_after_for_condition}
use solution_arsenal.Controller.Libraries.{Libraries}
use solution_arsenal.Controller.Targets.Specs.{wrap, join}

-- The fields of the reconciler.
pub record TargetReconciler : Type 0 where
  pub settings : Settings
  pub registry_binding_strict : Bool
  pub lib : Libraries

abbrev pub registry_resolved : Str
registry_resolved = lit "RegistryResolved"

abbrev pub releases_resolved : Str
releases_resolved = lit "ReleasesResolved"

abbrev pub releases_rendered : Str
releases_rendered = lit "ReleasesRendered"

abbrev pub bootstrap_ready : Str
bootstrap_ready = lit "BootstrapReady"

abbrev pub condition_of : Target → Str → Bool → (reason message : Str) → Condition
condition_of target condition_type status reason message = record {
  condition_type = condition_type;
  status = status;
  observed_generation = target.meta.generation;
  reason = reason;
  message = message;
  last_transition_time = 0;
}

abbrev pub update_failed : Str → Error → Error
update_failed condition_type =
    wrap (lit "failed to update Target status condition " ++ condition_type)

-- `if condErr := ...; condErr != nil { return ctrl.Result{}, condErr }`
abbrev pub updated_or : Str → Result Error Target → Program Outcome Target
updated_or condition_type (ok t) = done t
updated_or condition_type (err e) = stop (returns (some (update_failed condition_type e)))

module _ (s : Settings) where
  abbrev pub wrapped_or : Str → Option Error → Program Outcome Unit
  wrapped_or text none = done tt
  wrapped_or text (some e) = stop (returns (err_log_and_wrap s.test_mode (some e) text))

  -- `if err := m; err != nil { return ctrl.Result{}, errLogAndWrap(log, err, text) }`
  unfoldable pub check_wrapped : Str → Program (Option Error) (Option Error) → Program Outcome Unit
  unfolding returned and_then
  check_wrapped text m = and_then (returned m) (wrapped_or text)

-- An error that is only logged.
unfoldable pub ignore_error : Program (Option Error) (Option Error) → Program Outcome Unit
unfolding returned and_then
ignore_error m = and_then (returned m) (λ _. done tt)

module _ (r : TargetReconciler) where
  unfoldable pub set_condition :
      Target → Str → Bool → (reason message : Str) → Program Outcome Target
  set_condition target condition_type status reason message =
      let (conditions, changed) =
        r.lib.set_status_condition target.conditions
          (condition_of target condition_type status reason message) in
      let latest = record target { conditions = conditions } in
      if changed
      then call (update_status targets latest) (updated_or condition_type)
      else done latest

  -- The condition is set, and the reconciler returns without an error.
  unfoldable pub refuse_with :
      {A : Type 0} → Target → Str → (reason message : Str) → Program Outcome A
  unfolding set_condition and_then
  refuse_with target condition_type reason message =
      and_then (set_condition target condition_type false reason message) (λ _. stop (returns none))

  abbrev pub waits : Str → Target → Outcome
  waits condition_type t = (
    record {
      requeue_after =
          requeue_after_for_condition r.lib.next_back_off
            (r.lib.find_status_condition t.conditions condition_type) r.lib.now;
    },
    none,
  )

  -- The condition is set, and the reconciler asks to be called again.
  unfoldable pub wait_with :
      {A : Type 0} → Target → Str → (reason message : Str) → Program Outcome A
  unfolding set_condition and_then requeue_after_for_condition
  wait_with target condition_type reason message =
      and_then (set_condition target condition_type false reason message)
        (λ t. stop (waits condition_type t))

  -- How a filter message of resolveReleaseConflicts reads.
  abbrev pub message_of : Skipped → Str
  message_of (lower_priority loser unique_name winner) =
      lit "binding "
      ++ loser
      ++ lit " filtered: uniqueName "
      ++ r.lib.quote unique_name
      ++ lit " conflict, lower priority than "
      ++ winner
  message_of (invalid_selector loser) =
      lit "binding "
      ++ loser
      ++ lit " filtered: invalid antiAffinity selector: "
      ++ r.lib.selector_error loser
  message_of (anti_affinity loser winner) =
      lit "binding " ++ loser ++ lit " filtered: anti-affinity conflict with " ++ winner

  unfoldable pub set_resolved_condition : Target → List Skipped → Program Outcome Target
  unfolding set_condition join
  set_resolved_condition target [] =
      set_condition target releases_resolved true (lit "NoConflicts") []
  set_resolved_condition target (m ∷ ms) =
      set_condition target releases_resolved true (lit "Resolved")
        (join (lit "; ") (map message_of (m ∷ ms)))
