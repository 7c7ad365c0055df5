-- ===== src/Resolver/Sorting.antt =====
-- Sorting: the result is sorted and holds the same items, and where the order tells all items apart
-- it does not depend on how they came.
use mathlib.Core.List.{Permᴰ}
use solution_arsenal.Prelude.{
  suc, ◌≡◌, refl, sym, ap, ◌∙◌, inl, inr, Bool, true, false, List, [], ◌∷◌, Memᴰ, arith, length,
  All, Pairwise, Bool-cases,
}
use solution_arsenal.Resolver.{insert_sorted, sort_by}

module _ {ℓ} {A : Type ℓ} (less : A → A → Bool) where
  pub length-insert_sorted : (a : A) (l : List A) → length (insert_sorted less a l) ≡ suc (length l)
  unfolding insert_sorted
  length-insert_sorted a [] = refl
  length-insert_sorted a (b ∷ l) = ground (arith, length-insert_sorted a l)

  pub length-sort_by : (l : List A) → length (sort_by less l) ≡ length l
  unfolding sort_by
  length-sort_by [] = refl
  length-sort_by (a ∷ l) = omega (arith, length-insert_sorted a (sort_by less l), length-sort_by l)

  module _ {κ} (P : A → Type κ) where
    pub All-insert_sorted : (a : A) (l : List A) → P a → All P l → All P (insert_sorted less a l)
    unfolding insert_sorted
    All-insert_sorted a [] p h = (p, tt)
    All-insert_sorted a (b ∷ l) p (q, h) = elim (Bool-cases (less b a)) [
      | inl y ↦ rw (y, All) (q, All-insert_sorted a l p h)
      | inr n ↦ rw (n, All) (p, (q, h))
    ]

    pub All-sort_by : (l : List A) → All P l → All P (sort_by less l)
    unfolding sort_by
    All-sort_by [] h = tt
    All-sort_by (a ∷ l) (p, h) = All-insert_sorted a (sort_by less l) p (All-sort_by l h)

  Memᴰ-insert_self : (a : A) (l : List A) → Memᴰ a (insert_sorted less a l)
  unfolding insert_sorted
  Memᴰ-insert_self a [] = Memᴰ.head refl
  Memᴰ-insert_self a (b ∷ l) = elim (Bool-cases (less b a)) [
    | inl y ↦ rw (y, insert_sorted) (Memᴰ.tail (Memᴰ-insert_self a l))
    | inr n ↦ rw (n, insert_sorted) (Memᴰ.head refl)
  ]

  Memᴰ-insert : (a : A) {b : A} (l : List A) → Memᴰ b l → Memᴰ b (insert_sorted less a l)
  unfolding insert_sorted
  Memᴰ-insert a [] m = elim m [ ]
  Memᴰ-insert a (c ∷ l) (Memᴰ.head e) = elim (Bool-cases (less c a)) [
    | inl y ↦ rw (y, insert_sorted) (Memᴰ.head e)
    | inr n ↦ rw (n, insert_sorted) (Memᴰ.tail (Memᴰ.head e))
  ]
  Memᴰ-insert a (c ∷ l) (Memᴰ.tail m) = elim (Bool-cases (less c a)) [
    | inl y ↦ rw (y, insert_sorted) (Memᴰ.tail (Memᴰ-insert a l m))
    | inr n ↦ rw (n, insert_sorted) (Memᴰ.tail (Memᴰ.tail m))
  ]

  pub Memᴰ-sort_by : {b : A} (l : List A) → Memᴰ b l → Memᴰ b (sort_by less l)
  unfolding sort_by
  Memᴰ-sort_by [] m = elim m [ ]
  Memᴰ-sort_by (a ∷ l) (Memᴰ.head e) = rw e (Memᴰ-insert_self a (sort_by less l))
  Memᴰ-sort_by (a ∷ l) (Memᴰ.tail m) = Memᴰ-insert a (sort_by less l) (Memᴰ-sort_by l m)

  -- Symmetric relations between the items survive the sort.
  module _ {κ} (R : A → A → Type κ) (R_symm : (a b : A) → R a b → R b a) where
    Pairwise-insert :
        (a : A) (l : List A) → All (R a) l → Pairwise R l → Pairwise R (insert_sorted less a l)
    unfolding insert_sorted
    Pairwise-insert a [] p h = (tt, tt)
    Pairwise-insert a (b ∷ l) (q, p) (r, h) = elim (Bool-cases (less b a)) [
      | inl y ↦
          rw (y, Pairwise) (All-insert_sorted (R b) a l (R_symm a b q) r, Pairwise-insert a l p h)
      | inr n ↦ rw (n, Pairwise) ((q, p), (r, h))
    ]

    pub Pairwise-sort_by : (l : List A) → Pairwise R l → Pairwise R (sort_by less l)
    unfolding sort_by
    Pairwise-sort_by [] h = tt
    Pairwise-sort_by (a ∷ l) (p, h) =
        Pairwise-insert a (sort_by less l) (All-sort_by (R a) l p) (Pairwise-sort_by l h)

  -- No item stands behind one that it should precede.
  abbrev pub IsSorted : List A → Type 0
  IsSorted = Pairwise (λ a b. less b a ≡ false)

  module _ (asymm : (a b : A) → less a b ≡ true → less b a ≡ false)
      (not_trans : (a b c : A) → less b a ≡ false → less c b ≡ false → less c a ≡ false) where
    All-not_less :
        (a b : A) (l : List A)
        → less b a ≡ false
        → All (λ c. less c b ≡ false) l
        → All (λ c. less c a ≡ false) l
    All-not_less a b [] h k = tt
    All-not_less a b (c ∷ l) h (q, k) = (not_trans a b c h q, All-not_less a b l h k)

    insert-IsSorted : (a : A) (l : List A) → IsSorted l → IsSorted (insert_sorted less a l)
    unfolding insert_sorted
    insert-IsSorted a [] h = (tt, tt)
    insert-IsSorted a (b ∷ l) (r, h) = elim (Bool-cases (less b a)) [
      | inl y ↦
          rw (y, Pairwise)
            (All-insert_sorted (λ c. less c b ≡ false) a l (asymm b a y) r, insert-IsSorted a l h)
      | inr n ↦ rw (n, Pairwise) ((n, All-not_less a b l n r), (r, h))
    ]

    pub sort_by-IsSorted : (l : List A) → IsSorted (sort_by less l)
    unfolding sort_by
    sort_by-IsSorted [] = tt
    sort_by-IsSorted (a ∷ l) = insert-IsSorted a (sort_by less l) (sort_by-IsSorted l)

    -- Two items that the order tells apart can be inserted in either order.
    insert-insert :
        (x y : A) (l : List A)
        → (less x y ≡ false → less y x ≡ false → x ≡ y)
        → insert_sorted less x (insert_sorted less y l)
          ≡ insert_sorted less y (insert_sorted less x l)
    unfolding insert_sorted
    insert-insert x y [] d = ground (arith, asymm x y, asymm y x, d)
    insert-insert x y (b ∷ l) d =
        ground
          (arith, asymm x y, asymm y x, d, not_trans y x b, not_trans x y b, insert-insert x y l d)

module _ {ℓ} {A : Type ℓ} where
  -- What a permuted list holds.
  pub Memᴰ-perm : {a : A} {l l' : List A} → Permᴰ l l' → Memᴰ a l' → Memᴰ a l
  Memᴰ-perm Permᴰ.nil m = m
  Memᴰ-perm (Permᴰ.cons e d) (Memᴰ.head h) = Memᴰ.head (h ∙ sym e)
  Memᴰ-perm (Permᴰ.cons e d) (Memᴰ.tail m) = Memᴰ.tail (Memᴰ-perm d m)
  Memᴰ-perm (Permᴰ.swap e f) (Memᴰ.head h) = Memᴰ.tail (Memᴰ.head (h ∙ sym f))
  Memᴰ-perm (Permᴰ.swap e f) (Memᴰ.tail (Memᴰ.head h)) = Memᴰ.head (h ∙ sym e)
  Memᴰ-perm (Permᴰ.swap e f) (Memᴰ.tail (Memᴰ.tail m)) = Memᴰ.tail (Memᴰ.tail m)
  Memᴰ-perm (Permᴰ.trans d d') m = Memᴰ-perm d (Memᴰ-perm d' m)

  -- The order tells any two different items of the list apart.
  abbrev pub Separates : (A → A → Bool) → List A → Type ℓ
  Separates less l = (a b : A) → Memᴰ a l → Memᴰ b l → less a b ≡ false → less b a ≡ false → a ≡ b

  module _ (less : A → A → Bool) (asymm : (a b : A) → less a b ≡ true → less b a ≡ false)
      (not_trans : (a b c : A) → less b a ≡ false → less c b ≡ false → less c a ≡ false) where
    -- Two permutations of items that the order tells apart are sorted to one list.
    pub sort_by-perm :
        {l l' : List A} → Permᴰ l l' → Separates less l → sort_by less l ≡ sort_by less l'
    unfolding sort_by
    sort_by-perm Permᴰ.nil s = refl
    sort_by-perm (Permᴰ.cons {a = a} {b = b} {l₁ = l} {l₂ = l'} e d) s =
        let rest = sort_by-perm d (λ x y mx my. s x y (Memᴰ.tail mx) (Memᴰ.tail my)) in
        ap (insert_sorted less a) rest ∙ ap (λ t. insert_sorted less t (sort_by less l')) e
    sort_by-perm (Permᴰ.swap {a = a} {b = b} {a' = a'} {b' = b'} {l = l} e f) s =
        insert-insert less asymm not_trans a b (sort_by less l)
          (s a b (Memᴰ.head refl) (Memᴰ.tail (Memᴰ.head refl)))
        ∙ ap (λ t. insert_sorted less t (insert_sorted less a (sort_by less l))) f
        ∙ ap (λ t. insert_sorted less a' (insert_sorted less t (sort_by less l))) e
    sort_by-perm (Permᴰ.trans d d') s =
        sort_by-perm d s ∙ sort_by-perm d' (λ x y mx my. s x y (Memᴰ-perm d mx) (Memᴰ-perm d my))
