-- ===== src/Resolver/Confluence.antt =====
-- The outcome does not depend on the order in which the bindings are listed.
use mathlib.Core.List.{Permᴰ}
use mathlib.Core.List.Permᴰ
use solution_arsenal.Prelude.{
  All-keep, All-Memᴰ, ◌≡◌, refl, sym, ap, ◌∙◌, inl, inr, Bool, false, Option, List, [], ◌∷◌, Memᴰ,
  arith, Bool-cases, keep, map, if◌then◌else◌,
}
use solution_arsenal.Str.{Str, str_eq, str_lt, contains_str}
use solution_arsenal.Str.Laws.{str_eq_iff}
use solution_arsenal.Str.Order.{str_lt_asymm, str_lt_total}
use solution_arsenal.Api.{LabelSelector, Labels}
use solution_arsenal.Resolver.{
  ReleaseInfo, by_priority, sort_by, with_unique_name, unique_names, named_group, pick_groups,
  resolve_release_conflicts,
}
use solution_arsenal.Resolver.Sorting.{sort_by-perm, Memᴰ-perm, Separates}
use solution_arsenal.Resolver.Order.{
  by_priority_asymm, by_priority_not_trans, by_priority_total, str_lt_not_trans,
}

contains_str-perm : (s : Str) {l l' : List Str} → Permᴰ l l' → contains_str s l ≡ contains_str s l'
unfolding contains_str
contains_str-perm s Permᴰ.nil = refl
contains_str-perm s (Permᴰ.cons {a = a} {b = b} e d) =
    ground (arith, ap (λ t. str_eq t s) e, contains_str-perm s d)
contains_str-perm s (Permᴰ.swap {a = a} {b = b} {a' = a'} {b' = b'} e f) =
    ground (arith, ap (λ t. str_eq t s) e, ap (λ t. str_eq t s) f)
contains_str-perm s (Permᴰ.trans d d') = contains_str-perm s d ∙ contains_str-perm s d'

module _ {ℓ} {A : Type ℓ} (p : A → Bool) where
  keep_one : A → List A → List A
  keep_one a l = if p a then a ∷ l else l

  keep_one-perm : (a : A) {k k' : List A} → Permᴰ k k' → Permᴰ (keep_one a k) (keep_one a k')
  unfolding keep_one
  keep_one-perm a {k} {k'} d = elim (Bool-cases (p a)) [
    | inl y ↦ rw y (Permᴰ.cons refl d)
    | inr n ↦ rw n d
  ]

  keep_one-swap :
      (a b : A) (k : List A) → Permᴰ (keep_one a (keep_one b k)) (keep_one b (keep_one a k))
  unfolding keep_one
  keep_one-swap a b k = elim (Bool-cases (p a)) [
    | inl y ↦ elim (Bool-cases (p b)) [
      | inl z ↦ rw (y, z) (Permᴰ.swap refl refl)
      | inr z ↦ rw (y, z) (Permᴰ.refl _)
    ]
    | inr y ↦ elim (Bool-cases (p b)) [
      | inl z ↦ rw (y, z) (Permᴰ.refl _)
      | inr z ↦ rw (y, z) (Permᴰ.refl _)
    ]
  ]

  keep-perm : {l l' : List A} → Permᴰ l l' → Permᴰ (keep p l) (keep p l')
  unfolding keep_one
  keep-perm Permᴰ.nil = Permᴰ.nil
  keep-perm (Permᴰ.cons {a = a} {b = b} e d) = rw e (keep_one-perm b (keep-perm d))
  keep-perm (Permᴰ.swap {a = a} {b = b} {a' = a'} {b' = b'} {l = l} e f) =
      rw (e, f) (keep_one-swap b' a' (keep p l))
  keep-perm (Permᴰ.trans d d') = Permᴰ.trans (keep-perm d) (keep-perm d')

map-perm :
    (f : ReleaseInfo → ReleaseInfo) {l l' : List ReleaseInfo}
    → Permᴰ l l'
    → Permᴰ (map f l) (map f l')
map-perm f Permᴰ.nil = Permᴰ.nil
map-perm f (Permᴰ.cons e d) = Permᴰ.cons (ap f e) (map-perm f d)
map-perm f (Permᴰ.swap e g) = Permᴰ.swap (ap f e) (ap f g)
map-perm f (Permᴰ.trans d d') = Permᴰ.trans (map-perm f d) (map-perm f d')

-- What `unique_names` does with one name.
add_name : Str → List Str → List Str
add_name s l = if contains_str s l then l else s ∷ l

add_name-perm : (s : Str) {k k' : List Str} → Permᴰ k k' → Permᴰ (add_name s k) (add_name s k')
unfolding add_name
add_name-perm s {k} {k'} d = elim (Bool-cases (contains_str s k')) [
  | inl y ↦ rw (contains_str-perm s d, y) d
  | inr n ↦ rw (contains_str-perm s d, n) (Permᴰ.cons refl d)
]

add_name-swap :
    (s t : Str) (k : List Str) → Permᴰ (add_name s (add_name t k)) (add_name t (add_name s k))
unfolding add_name contains_str
add_name-swap s t k = elim (Bool-cases (str_eq s t)) [
  | inl e ↦ rw ((str_eq_iff s t).0 e) (Permᴰ.refl _)
  | inr e ↦
      let e' : str_eq t s ≡ false = ground (arith, str_eq_iff s t, str_eq_iff t s) in
      elim (Bool-cases (contains_str s k)) [
        | inl y ↦ elim (Bool-cases (contains_str t k)) [
          | inl z ↦ rw (y, z, y) (Permᴰ.refl _)
          | inr z ↦ rw (y, z, e', y) (Permᴰ.refl _)
        ]
        | inr y ↦ elim (Bool-cases (contains_str t k)) [
          | inl z ↦ rw (z, y, e, z) (Permᴰ.refl _)
          | inr z ↦ rw (z, y, e', e, z) (Permᴰ.swap refl refl)
        ]
      ]
]

unique_names-perm :
    {l l' : List ReleaseInfo} → Permᴰ l l' → Permᴰ (unique_names l) (unique_names l')
unfolding unique_names add_name
unique_names-perm Permᴰ.nil = Permᴰ.nil
unique_names-perm (Permᴰ.cons {a = a} {b = b} e d) =
    rw e (add_name-perm b.unique_name (unique_names-perm d))
unique_names-perm (Permᴰ.swap {a = a} {b = b} {a' = a'} {b' = b'} {l = l} e f) =
    rw (e, f) (add_name-swap b'.unique_name a'.unique_name (unique_names l))
unique_names-perm (Permᴰ.trans d d') = Permᴰ.trans (unique_names-perm d) (unique_names-perm d')

names-perm :
    {l l' : List ReleaseInfo}
    → Permᴰ l l'
    → sort_by str_lt (unique_names l) ≡ sort_by str_lt (unique_names l')
names-perm d =
    sort_by-perm str_lt str_lt_asymm str_lt_not_trans (unique_names-perm d)
      (λ s t _ _ h k. str_lt_total s t h k)

-- Different bindings have different keys, as `<namespace>/<name>` has.
abbrev pub KeysDiffer : List ReleaseInfo → Type 0
KeysDiffer rs = (a b : ReleaseInfo) → Memᴰ a rs → Memᴰ b rs → a.binding_key ≡ b.binding_key → a ≡ b

separates : (rs : List ReleaseInfo) → KeysDiffer rs → Separates by_priority rs
separates rs h a b ma mb k l = h a b ma mb (by_priority_total a b k l).1

Memᴰ-of_keep :
    (p : ReleaseInfo → Bool) (rs : List ReleaseInfo) {a : ReleaseInfo}
    → Memᴰ a (keep p rs)
    → Memᴰ a rs
Memᴰ-of_keep p rs {a} m =
    All-Memᴰ (λ r. Memᴰ r rs) (keep p rs) (All-keep p (λ r. Memᴰ r rs) rs (λ r k e. k)) m

pick_groups-perm :
    (us : List Str) {l l' : List ReleaseInfo}
    → Permᴰ l l'
    → KeysDiffer l
    → pick_groups us l ≡ pick_groups us l'
unfolding pick_groups named_group
pick_groups-perm [] d h = refl
pick_groups-perm (u ∷ us) {l} {l'} d h =
    let p = λ (ri : ReleaseInfo). str_eq ri.unique_name u in
    rw
      (
        pick_groups-perm us d h,
        sort_by-perm by_priority by_priority_asymm by_priority_not_trans (keep-perm p d) (
            separates (keep p l)
              (λ a b ma mb e. h a b (Memᴰ-of_keep p l ma) (Memᴰ-of_keep p l mb) e)),
      )
      refl

Memᴰ-map :
    (f : ReleaseInfo → ReleaseInfo) (rs : List ReleaseInfo) {a : ReleaseInfo}
    → Memᴰ a (map f rs)
    → (b : ReleaseInfo) × Memᴰ b rs × (a ≡ f b)
Memᴰ-map f [] m = elim m [ ]
Memᴰ-map f (r ∷ rs) (Memᴰ.head e) = (r, Memᴰ.head refl, e)
Memᴰ-map f (r ∷ rs) (Memᴰ.tail m) = let (b, k, e) = Memᴰ-map f rs m in (b, Memᴰ.tail k, e)

key_of_named :
    {a : ReleaseInfo} (b : ReleaseInfo) → a ≡ with_unique_name b → a.binding_key ≡ b.binding_key
unfolding with_unique_name
key_of_named b e = ap (λ (r : ReleaseInfo). r.binding_key) e

KeysDiffer-named : (rs : List ReleaseInfo) → KeysDiffer rs → KeysDiffer (map with_unique_name rs)
KeysDiffer-named rs h a b ma mb e =
    let (a', ka, ea) = Memᴰ-map with_unique_name rs ma in
    let (b', kb, eb) = Memᴰ-map with_unique_name rs mb in
    ea
    ∙ ap with_unique_name (h a' b' ka kb (sym (key_of_named a' ea) ∙ e ∙ key_of_named b' eb))
    ∙ sym eb

KeysDiffer-perm : {l l' : List ReleaseInfo} → Permᴰ l l' → KeysDiffer l → KeysDiffer l'
KeysDiffer-perm d h a b ma mb e = h a b (Memᴰ-perm d ma) (Memᴰ-perm d mb) e

-- Where the keys of the bindings differ, the deployed releases and the messages do not depend on
-- the order in which the bindings are listed.
pub resolve-perm :
    (as_selector : LabelSelector → Option (Labels → Bool)) {releases releases' : List ReleaseInfo}
    → Permᴰ releases releases'
    → KeysDiffer releases
    → resolve_release_conflicts as_selector releases
      ≡ resolve_release_conflicts as_selector releases'
unfolding resolve_release_conflicts
resolve-perm as_selector {releases = rs} {releases' = rs'} d h =
    let d' = map-perm with_unique_name d in
    rw
      (
        names-perm d',
        pick_groups-perm (sort_by str_lt (unique_names (map with_unique_name rs'))) d'
            (KeysDiffer-named rs h),
      )
      refl
