-- ===== src/Controller/Profiles/Maps.antt =====
-- The maps of the Profile controller: what is found in them.
use solution_arsenal.Prelude.{
  ◌≡◌, refl, inl, inr, false, none, some, List, [], ◌∷◌, All, Bool-cases,
}
use solution_arsenal.Str.{Str, str_eq}
use solution_arsenal.Str.Laws.{str_eq_iff}
use solution_arsenal.Api.{Target}
use solution_arsenal.PullSecrets.{find_key}
use solution_arsenal.Controller.Profiles.{target_key, set_key}
use solution_arsenal.Controller.Profiles.Bindings.{desired_targets}

module _ {A : Type 0} (key : Str) (a : A) where
  pub find_key-set_key_missing :
      (m : List (Str × A)) (other : Str)
      → find_key other (set_key key a m) ≡ none
      → (str_eq key other ≡ false) × (find_key other m ≡ none)
  unfolding find_key set_key
  find_key-set_key_missing [] other f = elim (Bool-cases (str_eq key other)) [
    | inl y ↦ absurd (let g : some a ≡ none = rw y at f in cc)
    | inr n ↦ (n, refl)
  ]
  find_key-set_key_missing ((k, b) ∷ m) other f = elim (Bool-cases (str_eq k key)) [
    | inl y ↦
        let k_is : k ≡ key = (str_eq_iff k key).0 y in
        let g : find_key other ((key, a) ∷ m) ≡ none = rw (y, set_key) at f in
        elim (Bool-cases (str_eq key other)) [
          | inl z ↦ absurd (let w : some a ≡ none = rw (z, find_key) at g in cc)
          | inr n ↦
              let w : find_key other m ≡ none = rw (n, find_key) at g in
              (n, rw (k_is, n, find_key) w)
        ]
    | inr n ↦
        let g : find_key other ((k, b) ∷ set_key key a m) ≡ none = rw (n, set_key) at f in
        elim (Bool-cases (str_eq k other)) [
          | inl z ↦ absurd (let w : some b ≡ none = rw (z, find_key) at g in cc)
          | inr z ↦
              let w : find_key other (set_key key a m) ≡ none = rw (z, find_key) at g in
              let (d, e) = find_key-set_key_missing m other w in (d, rw (z, find_key) e)
        ]
  ]

  pub All-set_key :
      (Q : Str × A → Type 0) (m : List (Str × A)) → Q (key, a) → All Q m → All Q (set_key key a m)
  unfolding set_key
  All-set_key Q [] q h = (q, tt)
  All-set_key Q ((k, b) ∷ m) q (p, h) = elim (Bool-cases (str_eq k key)) [
    | inl y ↦ rw (y, set_key) (q, h)
    | inr n ↦ rw (n, set_key) (p, All-set_key Q m q h)
  ]

-- What is missing among the desired targets is the key of none of them.
pub desired_targets-missing :
    (ts : List Target) (m : List (Str × Target)) (key : Str)
    → find_key key (desired_targets ts m) ≡ none
    → All (λ t. str_eq (target_key t) key ≡ false) ts × (find_key key m ≡ none)
unfolding desired_targets
desired_targets-missing [] m key f = (tt, f)
desired_targets-missing (t ∷ ts) m key f =
    let (h, g) = desired_targets-missing ts (set_key (target_key t) t m) key f in
    let (n, e) = find_key-set_key_missing (target_key t) t m key g in ((n, h), e)

-- The desired targets are those of the list, under their keys.
pub All-desired_targets :
    (Q : Str × Target → Type 0) (ts : List Target) (m : List (Str × Target))
    → All (λ t. Q (target_key t, t)) ts
    → All Q m
    → All Q (desired_targets ts m)
unfolding desired_targets
All-desired_targets Q [] m h k = k
All-desired_targets Q (t ∷ ts) m (q, h) k =
    All-desired_targets Q ts _ h (All-set_key (target_key t) t Q m q k)
