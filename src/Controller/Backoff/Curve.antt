-- ===== src/Controller/Backoff/Curve.antt =====
-- The delay is the interval of the backoff curve that the age of the condition falls into.
use solution_arsenal.Prelude.{
  ℕ, zero, suc, ◌+◌, ◌*◌, ◌≤◌, ◌<◌, ◌≡◌, ◌⊎◌, refl, inl, inr, ltb, Bool-cases, Option, arith,
}
use solution_arsenal.Api.{Condition}
use solution_arsenal.Controller.Backoff.{
  max_steps, dependency_wait_max_interval, age_of, walk, requeue_after_for_condition,
}

module _ (next_back_off : ℕ → ℕ) where
  -- The time that the first intervals make up.
  unfoldable pub total : ℕ → ℕ
  total zero = 0
  total (suc k) = total k + next_back_off k

  module _ (age : ℕ) where
    -- The age lies in an interval before the last round, and that interval is the delay.
    abbrev pub Hits : ℕ → ℕ → Type 0
    Hits last delay =
        (k : ℕ) × (k < last) × (total k ≤ age) × (age < total (suc k)) × (delay ≡ next_back_off k)

    -- Or the age passes all the intervals, and the delay is the maximum.
    abbrev pub Ends : ℕ → ℕ → Type 0
    Ends last delay =
        Hits last delay ⊎ ((total last ≤ age) × (delay ≡ dependency_wait_max_interval))

    walk-Ends :
        (rounds i last : ℕ)
        → i + rounds ≡ last
        → total i ≤ age
        → Ends last (walk next_back_off age rounds i (total i))
    unfolding walk total
    walk-Ends zero i last e h = let e' : i ≡ last = omega arith in inr (rw (← e') h, refl)
    walk-Ends (suc rounds) i last e h = elim (Bool-cases (ltb age (total i + next_back_off i))) [
      | inl y ↦ rw (y, walk) (inl (i, omega arith, h, ground arith, refl))
      | inr n ↦ rw (n, walk) (walk-Ends rounds (suc i) last (omega arith) (ground arith))
    ]

  starts : (age : ℕ) → Ends age max_steps (walk next_back_off age max_steps 0 0)
  unfolding total
  starts age = walk-Ends age max_steps 0 max_steps refl (omega arith)

  total_grows :
      (least : ℕ)
      → ((i : ℕ) → 6 ≤ i → least ≤ next_back_off i)
      → (n k : ℕ) → k ≡ 6 + n
      → least * n ≤ total k
  unfolding total
  total_grows least f zero k e = omega arith
  total_grows least f (suc n) k e =
      let e' : k ≡ suc (6 + n) = omega arith in
      rw e' (omega (arith, total_grows least f n (6 + n) refl, f (6 + n) (omega arith)))

  -- 41 hours do not pass all the rounds.
  cap_unreached :
      (age : ℕ)
      → ((i : ℕ) → 6 ≤ i → 150000000000 ≤ next_back_off i)
      → age < 147600000000000
      → age < total max_steps
  cap_unreached age f h = omega (arith, total_grows 150000000000 f 994 max_steps refl)

  -- Where the intervals from the seventh on are at least half of the maximum, as the curve's
  -- multiplier and jitter make them, then for a condition of less than 41 hours the loop ends before
  -- its cap: the delay is the interval that the condition's age falls into.
  pub requeue_after-Hits :
      (cond : Option Condition) (now : ℕ)
      → ((i : ℕ) → 6 ≤ i → 150000000000 ≤ next_back_off i)
      → age_of cond now < 147600000000000
      → Hits (age_of cond now) max_steps (requeue_after_for_condition next_back_off cond now)
  unfolding requeue_after_for_condition
  requeue_after-Hits cond now f h = elim first [
    | inl k ↦ k
    | inr (l, e) ↦ absurd (below l (cap_unreached (age_of cond now) f h))
  ]
    where
      below : {m n : ℕ} → m ≤ n → n < m → ⊥
      below p q = omega arith

      first : Ends (age_of cond now) max_steps (requeue_after_for_condition next_back_off cond now)
      first = starts (age_of cond now)
