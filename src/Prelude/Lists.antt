-- ===== src/Prelude/Lists.antt =====
-- Lists measured by native numbers, tests and predicates over lists.
use Prim.Native.Nat.{ℕ, zero, suc, ◌+◌, ◌≤◌, min}
use mathlib.Core.Path.{◌≡◌, refl, ap}
use mathlib.Core.Logic.{inl, inr}
use mathlib.Core.Bool.{Bool, true, false, ◌&&◌, ◌||◌}
use mathlib.Core.List.{List, [], ◌∷◌, ◌++◌, Memᴰ}
use native.Mathlib.Omega.{arith}
use solution_arsenal.Prelude.Tests.{if◌then◌else◌, Bool-cases}

module _ {ℓ} {A : Type ℓ} where
  abbrev pub length : List A → ℕ
  length [] = 0
  length (x ∷ xs) = suc (length xs)

  abbrev pub take : ℕ → List A → List A
  take zero xs = []
  take (suc n) [] = []
  take (suc n) (x ∷ xs) = x ∷ take n xs

  -- `filter` by a Boolean test.
  abbrev pub keep : (A → Bool) → List A → List A
  keep p [] = []
  keep p (x ∷ xs) = let rest = keep p xs in if p x then x ∷ rest else rest

  abbrev pub any : (A → Bool) → List A → Bool
  any p [] = false
  any p (x ∷ xs) = p x || any p xs

  abbrev pub all : (A → Bool) → List A → Bool
  all p [] = true
  all p (x ∷ xs) = p x && all p xs

  pub length-append : (xs ys : List A) → length (xs ++ ys) ≡ length xs + length ys
  length-append [] ys = omega arith
  length-append (x ∷ xs) ys = omega (arith, length-append xs ys)

  pub length-take : (n : ℕ) (xs : List A) → length (take n xs) ≡ min n (length xs)
  length-take zero xs = omega arith
  length-take (suc n) [] = omega arith
  length-take (suc n) (x ∷ xs) = omega (arith, length-take n xs)

  pub take_all : (n : ℕ) (xs : List A) → length xs ≤ n → take n xs ≡ xs
  take_all zero [] h = refl
  take_all zero (x ∷ xs) h = absurd (omega arith)
  take_all (suc n) [] h = refl
  take_all (suc n) (x ∷ xs) h = ap (λ t. x ∷ t) (take_all n xs (omega arith))

module _ {ℓ κ} {A : Type ℓ} (P : A → Type κ) where
  abbrev pub All : List A → Type κ
  All [] = Unit
  All (x ∷ xs) = P x × All xs

  pub All-append : (xs ys : List A) → All xs → All ys → All (xs ++ ys)
  All-append [] ys _ h = h
  All-append (x ∷ xs) ys (p, h) k = (p, All-append xs ys h k)

  pub All-take : (n : ℕ) (xs : List A) → All xs → All (take n xs)
  All-take zero xs h = tt
  All-take (suc n) [] h = tt
  All-take (suc n) (x ∷ xs) (p, h) = (p, All-take n xs h)

  pub All-Memᴰ : {a : A} (xs : List A) → All xs → Memᴰ a xs → P a
  All-Memᴰ [] h m = elim m [ ]
  All-Memᴰ (x ∷ xs) (p, h) (Memᴰ.head e) = rw e p
  All-Memᴰ (x ∷ xs) (p, h) (Memᴰ.tail m) = All-Memᴰ xs h m

  pub All-of_forall : (xs : List A) → ((a : A) → Memᴰ a xs → P a) → All xs
  All-of_forall [] f = tt
  All-of_forall (x ∷ xs) f = (f x (Memᴰ.head refl), All-of_forall xs (λ a m. f a (Memᴰ.tail m)))

module _ {ℓ κ} {A : Type ℓ} (R : A → A → Type κ) where
  -- Each item is related to every later one.
  abbrev pub Pairwise : List A → Type κ
  Pairwise [] = Unit
  Pairwise (x ∷ xs) = All (R x) xs × Pairwise xs

  pub Pairwise-append_one :
      (xs : List A) (y : A) → Pairwise xs → All (λ x. R x y) xs → Pairwise (xs ++ y ∷ [])
  Pairwise-append_one [] y h k = (tt, tt)
  Pairwise-append_one (x ∷ xs) y (p, h) (q, k) =
      (All-append (R x) xs (y ∷ []) p (q, tt), Pairwise-append_one xs y h k)

module _ {ℓ κ} {A : Type ℓ} (P : A → Type κ) where
  pub All-append_left : (xs ys : List A) → All P (xs ++ ys) → All P xs
  All-append_left [] ys h = tt
  All-append_left (x ∷ xs) ys (p, h) = (p, All-append_left xs ys h)

  pub All-append_right : (xs ys : List A) → All P (xs ++ ys) → All P ys
  All-append_right [] ys h = h
  All-append_right (x ∷ xs) ys (p, h) = All-append_right xs ys h

module _ {ℓ κ} {A : Type ℓ} (R : A → A → Type κ) where
  -- An item taken out of the middle leaves the others related.
  pub Pairwise-drop_middle :
      (xs : List A) (y : A) (ys : List A) → Pairwise R (xs ++ y ∷ ys) → Pairwise R (xs ++ ys)
  Pairwise-drop_middle [] y ys h = h.1
  Pairwise-drop_middle (x ∷ xs) y ys (p, h) = (
    All-append (R x) xs ys (All-append_left (R x) xs (y ∷ ys) p)
        (All-append_right (R x) xs (y ∷ ys) p).1,
    Pairwise-drop_middle xs y ys h,
  )

module _ {ℓ} {A : Type ℓ} (p : A → Bool) where
  pub Memᴰ-keep : {a : A} (xs : List A) → Memᴰ a xs → p a ≡ true → Memᴰ a (keep p xs)
  Memᴰ-keep [] m h = elim m [ ]
  Memᴰ-keep {a} (x ∷ xs) (Memᴰ.head e) h =
      let y : p x ≡ true = rw (← e) h in rw (y, keep) (Memᴰ.head e)
  Memᴰ-keep {a} (x ∷ xs) (Memᴰ.tail m) h = elim (Bool-cases (p x)) [
    | inl y ↦ rw (y, keep) (Memᴰ.tail (Memᴰ-keep xs m h))
    | inr n ↦ rw (n, keep) (Memᴰ-keep xs m h)
  ]

  pub All-keep {κ} :
      (P : A → Type κ) (xs : List A) → ((a : A) → Memᴰ a xs → p a ≡ true → P a) → All P (keep p xs)
  All-keep P [] f = tt
  All-keep P (x ∷ xs) f = elim (Bool-cases (p x)) [
    | inl y ↦ rw (y, keep, All) (f x (Memᴰ.head refl) y, All-keep P xs (λ a m. f a (Memᴰ.tail m)))
    | inr n ↦ rw (n, keep, All) (All-keep P xs (λ a m. f a (Memᴰ.tail m)))
  ]

pub Memᴰ-append_right {ℓ} : {A : Type ℓ} {a : A} (xs ys : List A) → Memᴰ a ys → Memᴰ a (xs ++ ys)
Memᴰ-append_right [] ys m = m
Memᴰ-append_right (x ∷ xs) ys m = Memᴰ.tail (Memᴰ-append_right xs ys m)

pub Memᴰ-append_left {ℓ} : {A : Type ℓ} {a : A} (xs ys : List A) → Memᴰ a xs → Memᴰ a (xs ++ ys)
Memᴰ-append_left [] ys m = elim m [ ]
Memᴰ-append_left (x ∷ xs) ys (Memᴰ.head e) = Memᴰ.head e
Memᴰ-append_left (x ∷ xs) ys (Memᴰ.tail m) = Memᴰ.tail (Memᴰ-append_left xs ys m)

pub All-map {ℓ κ ι} :
    {A : Type ℓ} (P : A → Type κ) (Q : A → Type ι) (xs : List A)
    → ((a : A) → P a → Q a)
    → All P xs
    → All Q xs
All-map P Q [] f h = tt
All-map P Q (x ∷ xs) f (p, h) = (f x p, All-map P Q xs f h)
