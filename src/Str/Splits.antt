-- ===== src/Str/Splits.antt =====
-- The parts of a split, joined again, are the string; a string that does not contain the separator
-- is one part.
use solution_arsenal.Prelude.{
  ℕ, zero, suc, ◌≡◌, refl, ap, ◌∙◌, true, false, List, [], ◌∷◌, ◌++◌, arith, Bool-cases, length,
  inl, inr,
}
use mathlib.Core.List.{append-nil}
use solution_arsenal.Str.{Str, has_prefix, drop, contains, cons_head, split_from, split}
use solution_arsenal.Str.Laws.{append-drop}

-- Each part behind a separator.
join_rest : Str → List Str → Str
join_rest sep [] = []
join_rest sep (q ∷ qs) = sep ++ (q ++ join_rest sep qs)

-- strings.Join
unfoldable pub join : Str → List Str → Str
unfolding join_rest
join sep [] = []
join sep (p ∷ ps) = p ++ join_rest sep ps

join-cons_head : (sep : Str) (a : ℕ) (ps : List Str) → join sep (cons_head a ps) ≡ a ∷ join sep ps
unfolding join
join-cons_head sep a [] = refl
join-cons_head sep a (p ∷ ps) = refl

cons_head-cons : (a : ℕ) (ps : List Str) → (p : Str) × (qs : List Str) × (cons_head a ps ≡ p ∷ qs)
cons_head-cons a [] = (a ∷ [], [], refl)
cons_head-cons a (p ∷ ps) = (a ∷ p, ps, refl)

module _ (b : ℕ) (sep : Str) (a : ℕ) (s : Str) where
  split_from-match :
      has_prefix (a ∷ s) (b ∷ sep) ≡ true
      → split_from b sep 0 (a ∷ s) ≡ [] ∷ split_from b sep (length sep) s
  unfolding split_from
  split_from-match h = rw (h, split_from)

  split_from-pass :
      has_prefix (a ∷ s) (b ∷ sep) ≡ false
      → split_from b sep 0 (a ∷ s) ≡ cons_head a (split_from b sep 0 s)
  unfolding split_from
  split_from-pass h = rw (h, split_from)

-- A split has a first part.
split_from-cons :
    (b : ℕ) (sep : Str) (k : ℕ) (s : Str)
    → (p : Str) × (qs : List Str) × (split_from b sep k s ≡ p ∷ qs)
unfolding split_from
split_from-cons b sep k [] = ([], [], refl)
split_from-cons b sep (suc k) (a ∷ s) = split_from-cons b sep k s
split_from-cons b sep zero (a ∷ s) = elim (Bool-cases (has_prefix (a ∷ s) (b ∷ sep))) [
  | inl h ↦ ([], split_from b sep (length sep) s, split_from-match b sep a s h)
  | inr h ↦
      let (p, qs, e) = cons_head-cons a (split_from b sep 0 s) in
      (p, qs, split_from-pass b sep a s h ∙ e)
]

join-nil : (sep p : Str) (qs ps : List Str) → ps ≡ p ∷ qs → join sep ([] ∷ ps) ≡ sep ++ join sep ps
unfolding join
join-nil sep p qs ps e = rw e refl

join-split_from :
    (b : ℕ) (sep : Str) (k : ℕ) (s : Str) → join (b ∷ sep) (split_from b sep k s) ≡ drop k s
unfolding split_from join
join-split_from b sep zero [] = refl
join-split_from b sep (suc k) [] = refl
join-split_from b sep (suc k) (a ∷ s) = join-split_from b sep k s
join-split_from b sep zero (a ∷ s) = elim (Bool-cases (has_prefix (a ∷ s) (b ∷ sep))) [
  | inl h ↦
      let (p, qs, e) = split_from-cons b sep (length sep) s in
      ap (join (b ∷ sep)) (split_from-match b sep a s h)
      ∙ join-nil (b ∷ sep) p qs (split_from b sep (length sep) s) e
      ∙ ap (λ t. (b ∷ sep) ++ t) (join-split_from b sep (length sep) s)
      ∙ append-drop (a ∷ s) (b ∷ sep) h
  | inr h ↦
      ap (join (b ∷ sep)) (split_from-pass b sep a s h)
      ∙ join-cons_head (b ∷ sep) a (split_from b sep 0 s)
      ∙ ap (λ t. a ∷ t) (join-split_from b sep 0 s)
]

-- The parts, joined by the separator, are the string again.
pub join-split : (s sep : Str) → join sep (split s sep) ≡ s
unfolding split join
join-split s [] = append-nil s
join-split s (b ∷ sep) = join-split_from b sep 0 s

split_from-no_match :
    (b : ℕ) (sep s : Str) → contains s (b ∷ sep) ≡ false → split_from b sep 0 s ≡ s ∷ []
unfolding contains
split_from-no_match b sep [] h = unfold split_from in refl
split_from-no_match b sep (a ∷ s) h =
    split_from-pass b sep a s (ground arith)
    ∙ ap (cons_head a) (split_from-no_match b sep s (ground arith))

-- A string without the separator is one part.
pub split_of_not-contains : (s sep : Str) → contains s sep ≡ false → split s sep ≡ s ∷ []
unfolding split
split_of_not-contains s [] h = refl
split_of_not-contains s (b ∷ sep) h = split_from-no_match b sep s h
