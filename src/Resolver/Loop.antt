-- ===== src/Resolver/Loop.antt =====
-- Invariants of the loop of step B.
use mathlib.Core.List.{append_assoc, append-nil}
use solution_arsenal.Prelude.{
  ℕ, ◌+◌, ◌<◌, ◌≡◌, ◌⊎◌, inl, inr, Bool, true, false, Option, none, some, List, [], ◌∷◌, ◌++◌, Memᴰ,
  arith, length, All, All-append, All-append_right, Pairwise, Pairwise-append_one,
  Pairwise-drop_middle, ltb, length-append, Memᴰ-append_left, Memᴰ-append_right,
}
use solution_arsenal.Api.{LabelSelector, Labels}
use solution_arsenal.Resolver.{
  ReleaseInfo, Skipped, invalid_selector, by_priority, selector_of, find_conflict, filter_affinity,
}
use solution_arsenal.Resolver.Affinity.{
  clash, no_conflict, some_conflict, IsInvariant, filter_affinity_inv,
}

module _ (as_selector : LabelSelector → Option (Labels → Bool)) where
  abbrev Invariant : Type 1
  Invariant = List ReleaseInfo → List ReleaseInfo → List Skipped → Type 0

  module _ (R : ReleaseInfo → ReleaseInfo → Type 0) where
    abbrev RelatedSoFar : Invariant
    RelatedSoFar acc res sk = Pairwise R (res ++ acc)

    -- Dropping releases keeps a relation between all of them.
    related_inv : IsInvariant as_selector RelatedSoFar
    related_inv = record {
      invalid = λ ri acc res sk n h. Pairwise-drop_middle R res ri acc h;
      conflict = λ ri acc res sk sel e y h. Pairwise-drop_middle R res ri acc h;
      accept = λ ri acc res sk sel e n h. rw (append_assoc res (ri ∷ []) acc) h;
    }

  module _ (P : ReleaseInfo → Type 0) where
    abbrev HoldsSoFar : Invariant
    HoldsSoFar acc res sk = All P (res ++ acc)

    holds_inv : IsInvariant as_selector HoldsSoFar
    holds_inv = record {
      invalid = λ ri acc res sk n h. drop res ri acc h;
      conflict = λ ri acc res sk sel e y h. drop res ri acc h;
      accept = λ ri acc res sk sel e n h. rw (append_assoc res (ri ∷ []) acc) h;
    }
      where
        drop :
            (res : List ReleaseInfo) (ri : ReleaseInfo) (acc : List ReleaseInfo)
            → All P (res ++ ri ∷ acc)
            → All P (res ++ acc)
        drop [] ri acc h = h.1
        drop (r ∷ res) ri acc (p, h) = (p, drop res ri acc h)

  abbrev HasKey : ReleaseInfo → Type 0
  HasKey r = 0 < length r.binding_key

  -- What is resolved so far is free of clashes, and all keys are there.
  abbrev ClashFreeSoFar : Invariant
  ClashFreeSoFar acc res sk =
      Pairwise (λ a b. clash as_selector a b ≡ false) res × All HasKey res × All HasKey acc

  clash_free_inv : IsInvariant as_selector ClashFreeSoFar
  clash_free_inv = record {
    invalid = λ ri acc res sk n h. (h.0, h.1, h.2.1);
    conflict = λ ri acc res sk sel e y h. (h.0, h.1, h.2.1);
    accept = λ ri acc res sk sel e n h. (
      Pairwise-append_one (λ a b. clash as_selector a b ≡ false) res ri h.0
          (no_conflict as_selector sel ri e res h.1 n),
      All-append HasKey res (ri ∷ []) h.1 (h.2.0, tt),
      h.2.1,
    );
  }

  -- Every release is either deployed or named in one message.
  abbrev CountedSoFar : ℕ → Invariant
  CountedSoFar n acc res sk = length acc + length res + length sk ≡ n

  counted_inv : (n : ℕ) → IsInvariant as_selector (CountedSoFar n)
  counted_inv n = record {
    invalid =
        λ ri acc res sk e h. omega (arith, length-append sk (invalid_selector ri.binding_key ∷ []));
    conflict = λ ri acc res sk sel e y h. omega (arith, length-append {0} sk _);
    accept = λ ri acc res sk sel e y h. omega (arith, length-append res (ri ∷ []));
  }

  abbrev NotAfter : ReleaseInfo → ReleaseInfo → Type 0
  NotAfter a b = by_priority b a ≡ false

  -- `c` is resolved, has an invalid selector, or clashes with a resolved release that does not come
  -- after it.
  abbrev pub IsDecided : ReleaseInfo → List ReleaseInfo → Type 0
  IsDecided c res =
      Memᴰ c res
      ⊎ ((selector_of as_selector c ≡ none)
          ⊎ ((o : ReleaseInfo) × Memᴰ o res × (clash as_selector c o ≡ true) × NotAfter o c))

  IsDecided-append :
      (c ri : ReleaseInfo) (res : List ReleaseInfo) → IsDecided c res → IsDecided c (res ++ ri ∷ [])
  IsDecided-append c ri res (inl m) = inl (Memᴰ-append_left res (ri ∷ []) m)
  IsDecided-append c ri res (inr (inl n)) = inr (inl n)
  IsDecided-append c ri res (inr (inr (o, m, k, b))) =
      inr (inr (o, Memᴰ-append_left res (ri ∷ []) m, k, b))

  -- The candidate `c` is yet to come or decided, and the candidates come in order.
  abbrev DecidedSoFar : ReleaseInfo → Invariant
  DecidedSoFar c acc res sk = Pairwise NotAfter (res ++ acc) × (Memᴰ c acc ⊎ IsDecided c res)

  before_middle :
      (res : List ReleaseInfo) (ri : ReleaseInfo) (acc : List ReleaseInfo) {o : ReleaseInfo}
      → Pairwise NotAfter (res ++ ri ∷ acc)
      → Memᴰ o res
      → NotAfter o ri
  before_middle [] ri acc h m = elim m [ ]
  before_middle (r ∷ res) ri acc (p, h) (Memᴰ.head e) =
      rw e (All-append_right (NotAfter r) res (ri ∷ acc) p).0
  before_middle (r ∷ res) ri acc (p, h) (Memᴰ.tail m) = before_middle res ri acc h m

  module _ (c ri : ReleaseInfo) (acc res : List ReleaseInfo) where
    IsDecided-invalid :
        selector_of as_selector ri ≡ none
        → Memᴰ c (ri ∷ acc) ⊎ IsDecided c res
        → Memᴰ c acc ⊎ IsDecided c res
    IsDecided-invalid n (inl (Memᴰ.head e)) = inr (inr (inl (rw e n)))
    IsDecided-invalid n (inl (Memᴰ.tail m)) = inl m
    IsDecided-invalid n (inr h) = inr h

    IsDecided-conflict :
        (sel : Option (Labels → Bool))
        → selector_of as_selector ri ≡ some sel
        → ltb 0 (length (find_conflict as_selector sel ri res)) ≡ true
        → Pairwise NotAfter (res ++ ri ∷ acc)
        → Memᴰ c (ri ∷ acc) ⊎ IsDecided c res
        → Memᴰ c acc ⊎ IsDecided c res
    IsDecided-conflict sel e y s (inl (Memᴰ.head h)) =
        let (o, m, k, _) = some_conflict as_selector sel ri e res y in
        inr (inr (inr (o, m, rw h k, rw h (before_middle res ri acc s m))))
    IsDecided-conflict sel e y s (inl (Memᴰ.tail m)) = inl m
    IsDecided-conflict sel e y s (inr h) = inr h

    IsDecided-accept :
        Memᴰ c (ri ∷ acc) ⊎ IsDecided c res → Memᴰ c acc ⊎ IsDecided c (res ++ ri ∷ [])
    IsDecided-accept (inl (Memᴰ.head h)) = inr (inl (Memᴰ-append_right res (ri ∷ []) (Memᴰ.head h)))
    IsDecided-accept (inl (Memᴰ.tail m)) = inl m
    IsDecided-accept (inr h) = inr (IsDecided-append c ri res h)

  decided_inv : (c : ReleaseInfo) → IsInvariant as_selector (DecidedSoFar c)
  decided_inv c = record {
    invalid = λ ri acc res sk n h.
        (Pairwise-drop_middle NotAfter res ri acc h.0, IsDecided-invalid c ri acc res n h.1);
    conflict = λ ri acc res sk sel e y h. (
      Pairwise-drop_middle NotAfter res ri acc h.0,
      IsDecided-conflict c ri acc res sel e y h.0 h.1,
    );
    accept = λ ri acc res sk sel e n h.
        (rw (append_assoc res (ri ∷ []) acc) h.0, IsDecided-accept c ri acc res h.1);
  }

  -- The loop's guarantees, from the candidates to the result.
  module _ (acc : List ReleaseInfo) (sk : List Skipped) where
    abbrev result : List ReleaseInfo × List Skipped
    result = filter_affinity as_selector acc [] sk

    pub filter_affinity-Pairwise :
        (R : ReleaseInfo → ReleaseInfo → Type 0) → Pairwise R acc → Pairwise R result.0
    filter_affinity-Pairwise R h =
        rw append-nil at (filter_affinity_inv as_selector (related_inv R) acc [] sk h)

    pub filter_affinity-All : (P : ReleaseInfo → Type 0) → All P acc → All P result.0
    filter_affinity-All P h =
        rw append-nil at (filter_affinity_inv as_selector (holds_inv P) acc [] sk h)

    pub filter_affinity-clash_free :
        All (λ r. 0 < length r.binding_key) acc
        → Pairwise (λ a b. clash as_selector a b ≡ false) result.0
    filter_affinity-clash_free h =
        (filter_affinity_inv as_selector clash_free_inv acc [] sk (tt, tt, h)).0

    pub filter_affinity-counted : length result.0 + length result.1 ≡ length acc + length sk
    filter_affinity-counted = omega (
      arith,
      filter_affinity_inv as_selector (counted_inv (length acc + length sk)) acc [] sk
          (omega arith),
    )

    pub filter_affinity-IsDecided :
        (c : ReleaseInfo) → Pairwise NotAfter acc → Memᴰ c acc → IsDecided c result.0
    filter_affinity-IsDecided c s m =
        settle (filter_affinity_inv as_selector (decided_inv c) acc [] sk (s, inl m)).1
      where
        settle : Memᴰ c [] ⊎ IsDecided c result.0 → IsDecided c result.0
        settle (inl k) = elim k [ ]
        settle (inr h) = h
