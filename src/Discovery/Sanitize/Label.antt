-- ===== src/Discovery/Sanitize/Label.antt =====
-- SanitizeName gives a DNS label or nothing, and leaves a label alone.
use solution_arsenal.Prelude.{
  ℕ, zero, suc, ◌≤◌, ◌≡◌, ◌≢◌, refl, ◌⊎◌, inl, inr, Bool, true, false, [], ◌∷◌, arith, ltb, ◌==◌,
  length, take, length-take, Bool-cases,
}
use solution_arsenal.Str.{Str, to_lower}
use solution_arsenal.Discovery.Sanitize.{
  is_alnum, replace_runs, trim_left, dash_end, trim_right, clean, sanitize_name,
}

-- Lower-case letters, digits and single dashes; `after_dash` tells that a dash stands before.
abbrev pub IsWords : Bool → Str → Type 0
IsWords after_dash [] = Unit
IsWords after_dash (c ∷ s) =
    ((is_alnum c ≡ true) × IsWords false s) ⊎ ((c ≡ 45) × (after_dash ≡ false) × IsWords true s)

abbrev pub StartsWell : Str → Type 0
StartsWell [] = Unit
StartsWell (c ∷ s) = c ≢ 45

abbrev pub EndsWell : Str → Type 0
EndsWell [] = Unit
EndsWell (c ∷ []) = c ≢ 45
EndsWell (c ∷ d ∷ s) = EndsWell (d ∷ s)

-- A DNS label of RFC 1123 with no two dashes in a row, or nothing.
pub record IsLabel (s : Str) : Type 0 where
  pub words : IsWords false s
  pub starts : StartsWell s
  pub ends : EndsWell s
  pub short : length s ≤ 63

IsWords-weaken : (s : Str) → IsWords true s → IsWords false s
IsWords-weaken [] h = tt
IsWords-weaken (c ∷ s) (inl h) = inl h
IsWords-weaken (c ∷ s) (inr h) = cc h.1

replace_runs-IsWords : (r : Bool) (s : Str) → IsWords r (replace_runs r s)
unfolding replace_runs
replace_runs-IsWords r [] = tt
replace_runs-IsWords true (c ∷ s) = elim (Bool-cases (is_alnum c)) [
  | inl y ↦ rw (y, IsWords) (inl (y, replace_runs-IsWords false s))
  | inr n ↦ rw (n, IsWords) (replace_runs-IsWords true s)
]
replace_runs-IsWords false (c ∷ s) = elim (Bool-cases (is_alnum c)) [
  | inl y ↦ rw (y, IsWords) (inl (y, replace_runs-IsWords false s))
  | inr n ↦ rw (n, IsWords) (inr (refl, refl, replace_runs-IsWords true s))
]

trim_left-IsWords : (s : Str) → IsWords false s → IsWords false (trim_left s)
unfolding trim_left
trim_left-IsWords [] h = tt
trim_left-IsWords (c ∷ s) h = elim (Bool-cases (c == 45)) [
  | inl y ↦ rw (y, IsWords) (trim_left-IsWords s (rest h))
  | inr n ↦ rw (n, IsWords) h
]
  where
    rest : IsWords false (c ∷ s) → IsWords false s
    rest (inl k) = k.1
    rest (inr k) = IsWords-weaken s k.2

StartsWell-trim_left : (s : Str) → StartsWell (trim_left s)
unfolding trim_left
StartsWell-trim_left [] = tt
StartsWell-trim_left (c ∷ s) = elim (Bool-cases (c == 45)) [
  | inl y ↦ rw (y, StartsWell) (StartsWell-trim_left s)
  | inr n ↦ rw (n, StartsWell) (ground arith)
]

dash_end-IsWords :
    (r : Bool) (c : ℕ) (s t : Str)
    → IsWords r (c ∷ t)
    → ((q : Bool) → IsWords q t → IsWords q s)
    → IsWords r (dash_end c s)
dash_end-IsWords r c [] t h f = elim (Bool-cases (c == 45)) [
  | inl y ↦ rw (y, IsWords) tt
  | inr n ↦ rw (n, IsWords) (ground arith)
]
dash_end-IsWords r c (d ∷ s) t (inl h) f = inl (h.0, f false h.1)
dash_end-IsWords r c (d ∷ s) t (inr h) f = inr (h.0, h.1, f true h.2)

trim_right-IsWords : (s : Str) (r : Bool) → IsWords r s → IsWords r (trim_right s)
unfolding trim_right
trim_right-IsWords [] r h = tt
trim_right-IsWords (c ∷ s) r h = dash_end-IsWords r c (trim_right s) s h (trim_right-IsWords s)

take-IsWords : (n : ℕ) (r : Bool) (s : Str) → IsWords r s → IsWords r (take n s)
take-IsWords zero r s h = tt
take-IsWords (suc n) r [] h = tt
take-IsWords (suc n) r (c ∷ s) (inl h) = inl (h.0, take-IsWords n false s h.1)
take-IsWords (suc n) r (c ∷ s) (inr h) = inr (h.0, h.1, take-IsWords n true s h.2)

StartsWell-dash_end : (c : ℕ) (s : Str) → c ≢ 45 → StartsWell (dash_end c s)
StartsWell-dash_end c [] h = elim (Bool-cases (c == 45)) [
  | inl y ↦ rw (y, StartsWell) tt
  | inr n ↦ rw (n, StartsWell) h
]
StartsWell-dash_end c (d ∷ s) h = h

StartsWell-trim_right : (s : Str) → StartsWell s → StartsWell (trim_right s)
unfolding trim_right
StartsWell-trim_right [] h = tt
StartsWell-trim_right (c ∷ s) h = StartsWell-dash_end c (trim_right s) h

EndsWell-dash_end : (c : ℕ) (s : Str) → EndsWell s → EndsWell (dash_end c s)
EndsWell-dash_end c [] h = elim (Bool-cases (c == 45)) [
  | inl y ↦ rw (y, EndsWell) tt
  | inr n ↦ rw (n, EndsWell) (ground arith)
]
EndsWell-dash_end c (d ∷ s) h = h

EndsWell-trim_right : (s : Str) → EndsWell (trim_right s)
unfolding trim_right
EndsWell-trim_right [] = tt
EndsWell-trim_right (c ∷ s) = EndsWell-dash_end c (trim_right s) (EndsWell-trim_right s)

length-dash_end : (c : ℕ) (s : Str) → length (dash_end c s) ≤ suc (length s)
length-dash_end c [] = ground arith
length-dash_end c (d ∷ s) = omega arith

length-trim_right : (s : Str) → length (trim_right s) ≤ length s
unfolding trim_right
length-trim_right [] = omega arith
length-trim_right (c ∷ s) = omega (arith, length-dash_end c (trim_right s), length-trim_right s)

StartsWell-take : (n : ℕ) (s : Str) → StartsWell s → StartsWell (take n s)
StartsWell-take zero s h = tt
StartsWell-take (suc n) [] h = tt
StartsWell-take (suc n) (c ∷ s) h = h

module _ (input : Str) where
  clean-IsWords : IsWords false (clean input)
  unfolding clean
  clean-IsWords =
      trim_right-IsWords _ false (trim_left-IsWords _ (replace_runs-IsWords false (to_lower input)))

  StartsWell-clean : StartsWell (clean input)
  unfolding clean
  StartsWell-clean =
      StartsWell-trim_right _ (StartsWell-trim_left (replace_runs false (to_lower input)))

  EndsWell-clean : EndsWell (clean input)
  unfolding clean
  EndsWell-clean = EndsWell-trim_right (trim_left (replace_runs false (to_lower input)))

  cut-IsLabel : IsLabel (trim_right (take 63 (clean input)))
  cut-IsLabel = record {
    words = trim_right-IsWords _ false (take-IsWords 63 false _ clean-IsWords);
    starts = StartsWell-trim_right _ (StartsWell-take 63 _ StartsWell-clean);
    ends = EndsWell-trim_right (take 63 (clean input));
    short = omega (arith, length-trim_right (take 63 (clean input)), length-take 63 (clean input));
  }

  -- Every name that SanitizeName gives is a label or empty: at most 63 bytes, lower-case letters,
  -- digits and single dashes, with a dash at neither end.
  pub sanitize_name-IsLabel : IsLabel (sanitize_name input)
  unfolding sanitize_name
  sanitize_name-IsLabel = elim (Bool-cases (ltb 63 (length (clean input)))) [
    | inl y ↦ rw y cut-IsLabel
    | inr n ↦ rw n (record {
      words = clean-IsWords;
      starts = StartsWell-clean;
      ends = EndsWell-clean;
      short = ground arith;
    })
  ]
