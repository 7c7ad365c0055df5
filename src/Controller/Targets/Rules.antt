-- ===== src/Controller/Targets/Rules.antt =====
-- Rules for the steps of the Target controller under its policy.
use solution_arsenal.Prelude.{
  refl, Bool, true, false, Option, none, some, List, [], ◌∷◌, Memᴰ, ok, err,
}
use solution_arsenal.Str.{Str}
use solution_arsenal.Api.{Target, Condition}
use solution_arsenal.Resolver.{Skipped}
use solution_arsenal.Cluster.{targets, NamespacedName, Error, Call, Answer, update_status, Program}
use solution_arsenal.Cluster.Safe.{
  History, Policy, Safe, Safe-map, Extends, branch-Safe, call-Safe, done-Safe, stop-Safe,
}
use solution_arsenal.Controller.{Settings}
use solution_arsenal.Controller.Steps.{Anything}
use solution_arsenal.Controller.Rules.{then-Safe, returned-then-Safe}
use solution_arsenal.Controller.Targets.Conditions.{
  TargetReconciler, set_condition, set_resolved_condition, condition_of, updated_or, refuse_with,
  wait_with, check_wrapped, wrapped_or, ignore_error,
}
use solution_arsenal.Controller.Targets.Policy.{
  IsSeen, was_read, was_updated, was_conditioned, TargetPolicy, sets_conditions,
}

pub IsSeen-Extends :
    (req : NamespacedName) (h h' : History) (t : Target)
    → Extends h h'
    → IsSeen req h t
    → IsSeen req h' t
IsSeen-Extends req h h' _ x (was_read t m) = was_read t (x _ m)
IsSeen-Extends req h h' _ x (was_updated t t' m) = was_updated t t' (x _ m)
IsSeen-Extends req h h' _ x (was_conditioned t cs i) =
    was_conditioned t cs (IsSeen-Extends req h h' t x i)

-- A call of a helper that returns an error, under a policy of its own.
module _ (P P' : Policy) (T : History → Option Error → Type 0) (s : Settings) where
  pub check_wrapped-Safe :
      (text : Str) (m : Program (Option Error) (Option Error)) (h : History)
      → Safe P' T T h m
      → ((h' : History) (c : Call) → Extends h h' → P' h' c → P h' c)
      → Safe P (λ h' _. T h' none) Anything h (check_wrapped s text m)
  unfolding check_wrapped
  check_wrapped-Safe text m h k p =
      returned-then-Safe P T (λ h' _. T h' none) m _ h
        (Safe-map P' P T T T T h p (λ _ _ _ t. t) (λ _ _ _ t. t) m h (λ _ i. i) k) goes_on
    where
      goes_on :
          (h' : History) (e : Option Error)
          → Extends h h'
          → T h' e
          → Safe P (λ h'' _. T h'' none) Anything h' (wrapped_or s text e)
      goes_on h' none x t = done-Safe P (λ h'' _. T h'' none) Anything h' tt t
      goes_on h' (some e) x t = stop-Safe P (λ h'' _. T h'' none) Anything h' _ tt

  pub ignore_error-Safe :
      (m : Program (Option Error) (Option Error)) (h : History)
      → Safe P' T T h m
      → ((h' : History) (c : Call) → Extends h h' → P' h' c → P h' c)
      → Safe P Anything Anything h (ignore_error m)
  unfolding ignore_error
  ignore_error-Safe m h k p =
      returned-then-Safe P T Anything m _ h
        (Safe-map P' P T T T T h p (λ _ _ _ t. t) (λ _ _ _ t. t) m h (λ _ i. i) k)
        (λ h' e _ _. done-Safe P Anything Anything h' tt tt)

-- The steps that set a condition, under a policy that lets conditions be set.
module _ (r : TargetReconciler) (req : NamespacedName) (P : Policy)
    (sets : (h : History) (t : Target) (conditions : List Condition)
      → IsSeen req h t
      → P h (update_status targets (record t { conditions = conditions })))
    (target : Target) (condition_type : Str) (h : History) where
  updated-Safe :
      (t : Target) (a : Answer (update_status targets t))
      → Safe P
          (IsSeen req)
          Anything
          ((update_status targets t, a) ∷ h)
          (updated_or condition_type a)
  updated-Safe t (ok t') =
      done-Safe P (IsSeen req) Anything _ t' (was_updated t' t (Memᴰ.head refl))
  updated-Safe t (err e) = stop-Safe P (IsSeen req) Anything _ _ tt

  pub sets_condition-Safe :
      (status : Bool) (reason message : Str)
      → IsSeen req h target
      → Safe P (IsSeen req) Anything h (set_condition r target condition_type status reason message)
  unfolding set_condition
  sets_condition-Safe status reason message i =
      let set =
        r.lib.set_status_condition target.conditions
          (condition_of target condition_type status reason message) in
      branch-Safe P (IsSeen req) Anything set.1 _ _ h
        (λ _. call-Safe P (IsSeen req) Anything _ _ h (sets h target set.0 i) (updated-Safe _))
        (λ _. done-Safe P (IsSeen req) Anything h _ (was_conditioned target set.0 i))

  module _ {A : Type 0} (Q : History → A → Type 0) (reason message : Str) where
    pub refuses-Safe :
        IsSeen req h target
        → Safe P Q Anything h (refuse_with r {A = A} target condition_type reason message)
    unfolding refuse_with
    refuses-Safe i =
        then-Safe P (IsSeen req) Q _ _ h (sets_condition-Safe false reason message i)
          (λ h' t _ _. stop-Safe P Q Anything h' _ tt)

    pub waits-Safe :
        IsSeen req h target
        → Safe P Q Anything h (wait_with r {A = A} target condition_type reason message)
    unfolding wait_with
    waits-Safe i =
        then-Safe P (IsSeen req) Q _ _ h (sets_condition-Safe false reason message i)
          (λ h' t _ _. stop-Safe P Q Anything h' _ tt)

module _ (r : TargetReconciler) (req : NamespacedName) where
  module _ (target : Target) (condition_type : Str) (h : History) where
    pub set_condition-Safe :
        (status : Bool) (reason message : Str)
        → IsSeen req h target
        → Safe
            (TargetPolicy r req)
            (IsSeen req)
            Anything
            h
            (set_condition r target condition_type status reason message)
    set_condition-Safe =
        sets_condition-Safe r req (TargetPolicy r req) (λ _ t cs i. sets_conditions t cs i) target
          condition_type h

    module _ {A : Type 0} (Q : History → A → Type 0) (reason message : Str) where
      pub refuse_with-Safe :
          IsSeen req h target
          → Safe
              (TargetPolicy r req)
              Q
              Anything
              h
              (refuse_with r {A = A} target condition_type reason message)
      refuse_with-Safe =
          refuses-Safe r req (TargetPolicy r req) (λ _ t cs i. sets_conditions t cs i) target
            condition_type h Q reason message

      pub wait_with-Safe :
          IsSeen req h target
          → Safe
              (TargetPolicy r req)
              Q
              Anything
              h
              (wait_with r {A = A} target condition_type reason message)
      wait_with-Safe =
          waits-Safe r req (TargetPolicy r req) (λ _ t cs i. sets_conditions t cs i) target
            condition_type h Q reason message

  pub set_resolved_condition-Safe :
      (target : Target) (skipped : List Skipped) (h : History)
      → IsSeen req h target
      → Safe (TargetPolicy r req) (IsSeen req) Anything h (set_resolved_condition r target skipped)
  unfolding set_resolved_condition
  set_resolved_condition-Safe target [] h i = set_condition-Safe target _ h true _ _ i
  set_resolved_condition-Safe target (m ∷ ms) h i = set_condition-Safe target _ h true _ _ i
