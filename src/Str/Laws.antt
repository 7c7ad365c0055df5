-- ===== src/Str/Laws.antt =====
-- Equality, prefixes, cuts and splits of strings.
use solution_arsenal.Prelude.{
  ℕ, zero, suc, ◌≡◌, refl, ◌↔◌, true, some, List, [], ◌∷◌, ◌++◌, Memᴰ, ap, length-append, All, none,
  ◌≢◌, arith, ◌==◌, Bool-cases, Option-cases, length, inl, inr, ◌||◌,
}
use solution_arsenal.Str.{
  Str, str_eq, contains_str, has_prefix, drop, trim_prefix, cut_byte, split_from,
}

str_eq_refl : (s : Str) → str_eq s s ≡ true
unfolding str_eq
str_eq_refl [] = refl
str_eq_refl (a ∷ s) = ground (arith, str_eq_refl s)

eq_of_str_eq : (s t : Str) → str_eq s t ≡ true → s ≡ t
unfolding str_eq
eq_of_str_eq [] [] h = refl
eq_of_str_eq [] (b ∷ t) h = cc
eq_of_str_eq (a ∷ s) [] h = cc
eq_of_str_eq (a ∷ s) (b ∷ t) h = ground (arith, eq_of_str_eq s t)

-- The test decides equality.
pub str_eq_iff : (s t : Str) → (str_eq s t ≡ true) ↔ (s ≡ t)
str_eq_iff s t = (eq_of_str_eq s t, λ e. rw e (str_eq_refl t))

pub str_eq_self : (s : Str) → str_eq s s ≡ true
str_eq_self = str_eq_refl

pub contains_str_of_Memᴰ : {s : Str} (ts : List Str) → Memᴰ s ts → contains_str s ts ≡ true
unfolding contains_str
contains_str_of_Memᴰ [] m = elim m [ ]
contains_str_of_Memᴰ {s} (t ∷ ts) (Memᴰ.head e) = ground (arith, str_eq_iff t s)
contains_str_of_Memᴰ (t ∷ ts) (Memᴰ.tail m) = ground (arith, contains_str_of_Memᴰ ts m)

pub contains_str-append :
    (s : Str) (ts us : List Str)
    → contains_str s (ts ++ us) ≡ (contains_str s ts || contains_str s us)
unfolding contains_str
contains_str-append s [] us = refl
contains_str-append s (t ∷ ts) us = ground (arith, contains_str-append s ts us)

-- A prefix taken off and put back.
pub append-drop : (s p : Str) → has_prefix s p ≡ true → p ++ drop (length p) s ≡ s
unfolding has_prefix
append-drop s [] h = refl
append-drop [] (b ∷ p) h = cc
append-drop (a ∷ s) (b ∷ p) h = ground (arith, append-drop s p)

pub has_prefix-append : (p s : Str) → has_prefix (p ++ s) p ≡ true
unfolding has_prefix
has_prefix-append [] s = refl
has_prefix-append (a ∷ p) s = ground (arith, has_prefix-append p s)

pub drop-append : (p s : Str) → drop (length p) (p ++ s) ≡ s
drop-append [] s = refl
drop-append (a ∷ p) s = drop-append p s

pub trim_prefix-append : (p s : Str) → trim_prefix (p ++ s) p ≡ s
unfolding trim_prefix
trim_prefix-append p s = rw (has_prefix-append p s) (drop-append p s)

-- A cut puts the separator between its parts.
pub cut_byte-some : (b : ℕ) (s p q : Str) → cut_byte b s ≡ some (p, q) → s ≡ p ++ b ∷ q
unfolding cut_byte
cut_byte-some b [] p q h = cc
cut_byte-some b (a ∷ s) p q h = elim (Bool-cases (a == b)) [
  | inl e ↦ ground arith
  | inr e ↦ elim (Option-cases (cut_byte b s)) [
    | inl n ↦ ground arith
    | inr ((p', q'), y) ↦ ground (arith, cut_byte-some b s p' q' y)
  ]
]

-- The bytes that are still to be passed are dropped.
split_from-drop :
    (b : ℕ) (p : Str) (k : ℕ) (s : Str) → split_from b p k s ≡ split_from b p 0 (drop k s)
unfolding split_from
split_from-drop b p zero s = refl
split_from-drop b p (suc k) [] = refl
split_from-drop b p (suc k) (a ∷ s) = split_from-drop b p k s

-- The part before a cut holds no separator, and neither does a string that cannot be cut.
pub cut_byte-some-before : (b : ℕ) (s p q : Str) → cut_byte b s ≡ some (p, q) → All (λ c. c ≢ b) p
unfolding cut_byte
cut_byte-some-before b [] p q h = cc
cut_byte-some-before b (a ∷ s) p q h = elim (Bool-cases (a == b)) [
  | inl e ↦ let e' : p ≡ [] = ground arith in rw e' tt
  | inr e ↦ elim (Option-cases (cut_byte b s)) [
    | inl n ↦ absurd (ground arith)
    | inr ((p', q'), y) ↦
        let e' : p ≡ a ∷ p' = ground arith in
        rw e' (ground (arith, e), cut_byte-some-before b s p' q' y)
  ]
]

pub cut_byte-none : (b : ℕ) (s : Str) → cut_byte b s ≡ none → All (λ c. c ≢ b) s
unfolding cut_byte
cut_byte-none b [] h = tt
cut_byte-none b (a ∷ s) h = elim (Bool-cases (a == b)) [
  | inl e ↦ absurd (ground arith)
  | inr e ↦ elim (Option-cases (cut_byte b s)) [
    | inl n ↦ (ground (arith, e), cut_byte-none b s n)
    | inr (pq, y) ↦ absurd (ground arith)
  ]
]

pub cut_byte_of_none : (b : ℕ) (s : Str) → All (λ c. c ≢ b) s → cut_byte b s ≡ none
unfolding cut_byte
cut_byte_of_none b [] h = refl
cut_byte_of_none b (a ∷ s) h = ground (arith, cut_byte_of_none b s h.1, h.0)

pub cut_byte-append :
    (b : ℕ) (p q : Str) → All (λ c. c ≢ b) p → cut_byte b (p ++ b ∷ q) ≡ some (p, q)
unfolding cut_byte
cut_byte-append b [] q h = ground arith
cut_byte-append b (a ∷ p) q h = ground (arith, cut_byte-append b p q h.1, h.0)

-- Two concatenations whose last parts, or whose first parts, have one length agree part by part.
pub append-eq_left :
    (p q p' q' : Str) → length p ≡ length p' → p ++ q ≡ p' ++ q' → (p ≡ p') × (q ≡ q')
append-eq_left [] q [] q' l e = (refl, e)
append-eq_left [] q (b ∷ p') q' l e = absurd (omega arith)
append-eq_left (a ∷ p) q [] q' l e = absurd (omega arith)
append-eq_left (a ∷ p) q (b ∷ p') q' l e = ground (arith, append-eq_left p q p' q')

pub append-eq_right :
    (p q p' q' : Str) → length q ≡ length q' → p ++ q ≡ p' ++ q' → (p ≡ p') × (q ≡ q')
append-eq_right p q p' q' l e =
    append-eq_left p q p' q' (omega (arith, ap length e, length-append p q, length-append p' q')) e

pub append-cancel : (p q q' : Str) → p ++ q ≡ p ++ q' → q ≡ q'
append-cancel p q q' e = (append-eq_left p q p q' refl e).1
