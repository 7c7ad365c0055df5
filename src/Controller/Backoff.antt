-- ===== src/Controller/Backoff.antt =====
-- How long a controller waits for a dependency (backoff.go). The intervals that the ExponentialBackOff
-- of cenkalti/backoff draws, with the initial interval, multiplier, maximum and jitter that
-- newDependencyWaitBackoff sets in it, are the parameter `next_back_off`: the i-th call of
-- NextBackOff gives `next_back_off i`. Times are in nanoseconds.
pub mod Curve
use solution_arsenal.Prelude.{
  ℕ, zero, suc, ◌+◌, ◌-◌, ◌*◌, Option, none, some, ◌==◌, ltb, if◌then◌else◌,
}
use solution_arsenal.Api.{Condition}

unfoldable pub dependency_wait_max_interval : ℕ
dependency_wait_max_interval = 300000000000

-- The loop's cap.
abbrev pub max_steps : ℕ
max_steps = 1000

unfoldable pub age_of : Option Condition → ℕ → ℕ
age_of none now = 0
age_of (some cond) now =
    if cond.last_transition_time == 0 then 0 else now - cond.last_transition_time

module _ (next_back_off : ℕ → ℕ) (age : ℕ) where
  -- The loop, with the rounds left, the calls of NextBackOff so far and the time that they make up.
  unfoldable pub walk : ℕ → ℕ → ℕ → ℕ
  unfolding dependency_wait_max_interval
  walk zero i elapsed = dependency_wait_max_interval
  walk (suc rounds) i elapsed =
      let rest = walk rounds (suc i) (elapsed + next_back_off i) in
      if ltb age (elapsed + next_back_off i) then next_back_off i else rest

unfoldable pub requeue_after_for_condition : (ℕ → ℕ) → Option Condition → ℕ → ℕ
unfolding walk age_of
requeue_after_for_condition next_back_off cond now =
    walk next_back_off (age_of cond now) max_steps 0 0
