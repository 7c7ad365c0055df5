-- ===== src/Str/Decimal.antt =====
-- The decimal form of a number, as `%d` prints it. One digit for each round, so the fuel `n + 1`
-- is more than enough; two numbers have different forms.
use solution_arsenal.Prelude.{
  ℕ, zero, suc, ◌+◌, ◌-◌, ◌*◌, ◌/◌, ◌%◌, ◌<◌, ◌≤◌, ◌≡◌, refl, sym, ap, ◌∙◌, true, false, [], ◌∷◌,
  ◌++◌, arith, ltb, Bool-cases, inl, inr, All,
}
use solution_arsenal.Str.{Str}

-- The digits of n, last first.
digits_rev : ℕ → ℕ → Str
digits_rev zero n = []
digits_rev (suc f) n =
    let rest = digits_rev f (n / 10) in
    elim (ltb n 10) [ true ↦ (48 + n) ∷ [] | false ↦ (48 + n % 10) ∷ rest ]

flip : Str → Str → Str
flip [] acc = acc
flip (a ∷ s) acc = flip s (a ∷ acc)

unfoldable pub decimal : ℕ → Str
unfolding digits_rev flip
decimal n = flip (digits_rev (suc n) n) []

-- The number that digits stand for, least significant first.
value_rev : Str → ℕ
value_rev [] = 0
value_rev (a ∷ s) = (a - 48) + 10 * value_rev s

value_rev-digits_rev : (f n : ℕ) → n < f → value_rev (digits_rev f n) ≡ n
unfolding value_rev digits_rev
value_rev-digits_rev zero n h = absurd (omega arith)
value_rev-digits_rev (suc f) n h = elim (Bool-cases (ltb n 10)) [
  | inl y ↦ rw (y, value_rev) (omega arith)
  | inr m ↦ rw (m, value_rev) (omega (arith, value_rev-digits_rev f (n / 10) (ground arith)))
]

flip-append : (s t u : Str) → flip s (t ++ u) ≡ flip s t ++ u
unfolding flip
flip-append [] t u = refl
flip-append (a ∷ s) t u = flip-append s (a ∷ t) u

flip-flip : (s acc : Str) → flip (flip s acc) [] ≡ flip acc s
unfolding flip
flip-flip [] acc = refl
flip-flip (a ∷ s) acc = flip-flip s (a ∷ acc)

flip-injective : (s t : Str) → flip s [] ≡ flip t [] → s ≡ t
flip-injective s t h = sym (flip-nil s) ∙ ap (λ u. flip u []) h ∙ flip-nil t
  where
    flip-nil : (u : Str) → flip (flip u []) [] ≡ u
    flip-nil u = flip-flip u [] ∙ (unfold flip in refl)

pub decimal-injective : (m n : ℕ) → decimal m ≡ decimal n → m ≡ n
decimal-injective m n h =
    sym (value_rev-digits_rev (suc m) m (omega arith))
    ∙ ap value_rev
        (flip-injective (digits_rev (suc m) m) (digits_rev (suc n) n) (unfold decimal in h))
    ∙ value_rev-digits_rev (suc n) n (omega arith)

abbrev pub IsDigit : ℕ → Type 0
IsDigit c = (48 ≤ c) × (c ≤ 57)

All-digits_rev : (f n : ℕ) → All IsDigit (digits_rev f n)
unfolding digits_rev
All-digits_rev zero n = tt
All-digits_rev (suc f) n = elim (Bool-cases (ltb n 10)) [
  | inl y ↦ rw (y, All) ((omega arith, ground arith), tt)
  | inr m ↦ rw (m, All) ((omega arith, omega arith), All-digits_rev f (n / 10))
]

All-flip : (s acc : Str) → All IsDigit s → All IsDigit acc → All IsDigit (flip s acc)
unfolding flip
All-flip [] acc h k = k
All-flip (a ∷ s) acc h k = All-flip s (a ∷ acc) h.1 (h.0, k)

-- Every byte of the decimal form is a digit.
pub All-decimal : (n : ℕ) → All IsDigit (decimal n)
unfolding decimal
All-decimal n = All-flip (digits_rev (suc n) n) [] (All-digits_rev (suc n) n) tt

decimal_runs : decimal 1207 ≡ 49 ∷ 50 ∷ 48 ∷ 55 ∷ []
unfolding decimal
decimal_runs = refl
