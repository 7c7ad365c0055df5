-- ===== src/Discovery/Repository/Accepts.antt =====
-- What SplitRepository accepts, and how the parts make up the repository.
use solution_arsenal.Prelude.{
  ◌≡◌, ◌≢◌, refl, sym, ap, ◌∙◌, ◌⊎◌, inl, inr, true, false, not, ◌&&◌, ltb, List, [], ◌∷◌, ◌++◌,
  arith, length, Bool-cases, length-append, ok,
}
use mathlib.Core.List.{append-nil}
use solution_arsenal.Str.{Str, has_prefix, trim_prefix, contains, str_eq, split, lit}
use solution_arsenal.Str.Laws.{append-drop, str_eq_iff, trim_prefix-append, has_prefix-append}
use solution_arsenal.Str.Splits.{join, join-split}
use solution_arsenal.Discovery.Repository.{prefix, separator, two_parts, split_repository}

two_parts_ok : (ps : List Str) (p q : Str) → two_parts ps ≡ ok (p, q) → ps ≡ p ∷ q ∷ []
unfolding two_parts
two_parts_ok [] p q h = cc
two_parts_ok (a ∷ []) p q h = cc
two_parts_ok (a ∷ b ∷ []) p q h = cc
two_parts_ok (a ∷ b ∷ c ∷ ps) p q h = cc

-- A prefix that is trimmed was there.
trim_prefix_changed : (s p : Str) → str_eq (trim_prefix s p) s ≡ false → s ≡ p ++ trim_prefix s p
unfolding trim_prefix
trim_prefix_changed s p h = elim (Bool-cases (has_prefix s p)) [
  | inl y ↦ rw y (sym (append-drop s p y))
  | inr n ↦ ground (arith, str_eq_iff s s)
]

module _ (repo base comp : Str) where
  by_prefix :
      let trimmed = trim_prefix repo prefix in
      str_eq trimmed repo ≡ false
      → ltb 0 (length trimmed) ≡ true
      → contains trimmed separator ≡ false
      → trimmed ≡ comp
      → (repo ≡ prefix ++ comp) × (comp ≢ []) × (contains comp separator ≡ false)
  by_prefix changed some_left single same = (
    trim_prefix_changed repo prefix changed ∙ ap (λ t. prefix ++ t) same,
    (λ e. ground (arith, ap length (same ∙ e))),
    ap (λ t. contains t separator) (sym same) ∙ single,
  )

  by_split : two_parts (split repo separator) ≡ ok (base, comp) → repo ≡ base ++ (separator ++ comp)
  by_split h =
      sym (join-split repo separator)
      ∙ ap (join separator) (two_parts_ok (split repo separator) base comp h)
      ∙ (unfold join in ap (λ t. base ++ (separator ++ t)) (append-nil comp))

  -- An accepted repository is made of its two parts: the prefix and a component that is not empty
  -- and holds no separator, with an empty base; or the base, the separator and the component.
  pub split_repository-parts :
      split_repository repo ≡ ok (base, comp)
      → ((base ≡ []) × (repo ≡ prefix ++ comp) × (comp ≢ []) × (contains comp separator ≡ false))
        ⊎ (repo ≡ base ++ (separator ++ comp))
  unfolding split_repository
  split_repository-parts h =
      let trimmed = trim_prefix repo prefix in
      elim (Bool-cases (not (str_eq trimmed repo) && ltb 0 (length trimmed))) [
        | inl y ↦
            let (whole, some_left, single) =
              by_prefix (ground arith) (ground arith) (ground arith) (ground arith) in
            inl (ground arith, whole, some_left, single)
        | inr n ↦ inr (by_split (ground arith))
      ]

contains_of_has_prefix : (s p : Str) → has_prefix s p ≡ true → contains s p ≡ true
unfolding contains
contains_of_has_prefix [] p h = h
contains_of_has_prefix (a ∷ s) p h = ground arith

append-ne : (s : Str) → s ≢ prefix ++ s
unfolding prefix lit
append-ne s e = ground (arith, ap length e, length-append (lit "component-descriptors/") s)

-- A component without a separator, put behind the prefix, is read back with an empty base.
pub split_repository-prefix :
    (comp : Str)
    → comp ≢ []
    → contains comp separator ≡ false
    → split_repository (prefix ++ comp) ≡ ok ([], comp)
unfolding split_repository
split_repository-prefix comp some_left single =
    rw
      (
        trim_prefix-append prefix comp,
        contains_of_has_prefix (prefix ++ comp) prefix (has_prefix-append prefix comp),
      )
      (ground (
        arith,
        str_eq_iff comp (prefix ++ comp),
        append-ne comp,
        some_left,
        length_ne comp some_left,
      ))
  where
    length_ne : (s : Str) → s ≢ [] → ltb 0 (length s) ≡ true
    length_ne [] h = absurd (h refl)
    length_ne (a ∷ s) h = ground arith
