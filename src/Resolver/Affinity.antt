-- ===== src/Resolver/Affinity.antt =====
-- Step B of the resolver: the loop over the accepted releases, and the conflicts that it finds.
use solution_arsenal.Prelude.{
  ◌<◌, ◌≡◌, refl, sym, ap, ◌∙◌, inl, inr, Bool, true, false, ◌||◌, Option, none, some, List, [],
  ◌∷◌, ◌++◌, Memᴰ, arith, length, All, Bool-cases, Option-cases, ltb, if◌then◌else◌,
}
use solution_arsenal.Api.{LabelSelector, Labels}
use solution_arsenal.Resolver.{
  ReleaseInfo, Skipped, invalid_selector, anti_affinity, selector_of, forbids, find_conflict,
  filter_affinity,
}

module _ (as_selector : LabelSelector → Option (Labels → Bool)) where
  -- One of the two releases has an anti-affinity rule that selects the other.
  unfoldable pub clash : ReleaseInfo → ReleaseInfo → Bool
  clash a b =
      forbids as_selector (selector_of as_selector a) b.release.meta.labels
      || forbids as_selector (selector_of as_selector b) a.release.meta.labels

  pub clash_symm : (a b : ReleaseInfo) → clash a b ≡ false → clash b a ≡ false
  unfolding clash
  clash_symm a b h = ground arith

  module _ (sel : Option (Labels → Bool)) (ri : ReleaseInfo)
      (e : selector_of as_selector ri ≡ some sel) where
    find_conflict-cons :
        (o : ReleaseInfo) (l : List ReleaseInfo)
        → find_conflict as_selector sel ri (o ∷ l)
          ≡ (if clash ri o then o.binding_key else find_conflict as_selector sel ri l)
    unfolding find_conflict clash
    find_conflict-cons o l = rw (e, clash) refl

    hit :
        (o : ReleaseInfo) (l : List ReleaseInfo)
        → clash ri o ≡ true
        → find_conflict as_selector sel ri (o ∷ l) ≡ o.binding_key
    hit o l y =
        find_conflict-cons o l
        ∙ ap (λ (b : Bool). if b then o.binding_key else find_conflict as_selector sel ri l) y

    miss :
        (o : ReleaseInfo) (l : List ReleaseInfo)
        → clash ri o ≡ false
        → find_conflict as_selector sel ri (o ∷ l) ≡ find_conflict as_selector sel ri l
    miss o l n =
        find_conflict-cons o l
        ∙ ap (λ (b : Bool). if b then o.binding_key else find_conflict as_selector sel ri l) n

    -- No key is found: the release clashes with none of the list.
    pub no_conflict :
        (l : List ReleaseInfo)
        → All (λ o. 0 < length o.binding_key) l
        → ltb 0 (length (find_conflict as_selector sel ri l)) ≡ false
        → All (λ o. clash o ri ≡ false) l
    no_conflict [] k h = tt
    no_conflict (o ∷ l) (p, k) h = elim (Bool-cases (clash ri o)) [
      | inl y ↦ absurd (ground (arith, ap length (hit o l y), p))
      | inr n ↦
          (clash_symm ri o n, no_conflict l k (ap (λ t. ltb 0 (length t)) (sym (miss o l n)) ∙ h))
    ]

    -- A key is found: it is the key of a release that clashes.
    pub some_conflict :
        (l : List ReleaseInfo)
        → ltb 0 (length (find_conflict as_selector sel ri l)) ≡ true
        → (o : ReleaseInfo) × Memᴰ o l
          × (clash ri o ≡ true)
          × (find_conflict as_selector sel ri l ≡ o.binding_key)
    some_conflict [] h = unfold find_conflict in cc h
    some_conflict (o ∷ l) h = elim (Bool-cases (clash ri o)) [
      | inl y ↦ (o, Memᴰ.head refl, y, hit o l y)
      | inr n ↦
          let (o', m, y, k) = some_conflict l (ap (λ t. ltb 0 (length t)) (sym (miss o l n)) ∙ h) in
          (o', Memᴰ.tail m, y, miss o l n ∙ k)
    ]

  -- An invariant of the loop: it is kept where a release is left out for its selector or for a
  -- conflict, and where it is accepted.
  pub record IsInvariant (I : List ReleaseInfo → List ReleaseInfo → List Skipped → Type 0)
      : Type 0 where
    pub invalid :
        (ri : ReleaseInfo) (acc res : List ReleaseInfo) (sk : List Skipped)
        → selector_of as_selector ri ≡ none
        → I (ri ∷ acc) res sk
        → I acc res (sk ++ invalid_selector ri.binding_key ∷ [])
    pub conflict :
        (ri : ReleaseInfo) (acc res : List ReleaseInfo) (sk : List Skipped)
        (sel : Option (Labels → Bool))
        → selector_of as_selector ri ≡ some sel
        → ltb 0 (length (find_conflict as_selector sel ri res)) ≡ true
        → I (ri ∷ acc) res sk
        → I acc res (sk ++ anti_affinity ri.binding_key (find_conflict as_selector sel ri res) ∷ [])
    pub accept :
        (ri : ReleaseInfo) (acc res : List ReleaseInfo) (sk : List Skipped)
        (sel : Option (Labels → Bool))
        → selector_of as_selector ri ≡ some sel
        → ltb 0 (length (find_conflict as_selector sel ri res)) ≡ false
        → I (ri ∷ acc) res sk
        → I acc (res ++ ri ∷ []) sk

  module _ {I : List ReleaseInfo → List ReleaseInfo → List Skipped → Type 0}
      (inv : IsInvariant I) where
    pub filter_affinity_inv :
        (acc res : List ReleaseInfo) (sk : List Skipped)
        → I acc res sk
        → I [] (filter_affinity as_selector acc res sk).0 (filter_affinity as_selector acc res sk).1
    unfolding filter_affinity
    filter_affinity_inv [] res sk h = h
    filter_affinity_inv (ri ∷ acc) res sk h = elim (Option-cases (selector_of as_selector ri)) [
      | inl n ↦
          rw (n, filter_affinity) (filter_affinity_inv acc res _ (inv.invalid ri acc res sk n h))
      | inr (sel, e) ↦ elim (Bool-cases (ltb 0 (length (find_conflict as_selector sel ri res)))) [
        | inl y ↦
            rw (e, y, filter_affinity)
              (filter_affinity_inv acc res _ (inv.conflict ri acc res sk sel e y h))
        | inr n ↦
            rw (e, n, filter_affinity)
              (filter_affinity_inv acc (res ++ ri ∷ []) sk (inv.accept ri acc res sk sel e n h))
      ]
    ]
