-- ===== src/Resolver/Groups.antt =====
-- Step A of the resolver: the best release of each unique name.
use solution_arsenal.Prelude.{
  ◌≡◌, ◌≢◌, refl, sym, ap, ◌∙◌, inl, inr, true, false, List, [], ◌∷◌, Memᴰ, arith, All, All-Memᴰ,
  Pairwise, Bool-cases, Memᴰ-keep, All-keep,
}
use solution_arsenal.Str.{Str, str_eq, contains_str}
use solution_arsenal.Str.Laws.{str_eq_iff}
use solution_arsenal.Resolver.{
  ReleaseInfo, Skipped, by_priority, sort_by, unique_names, named_group, pick_group, pick_groups,
}
use solution_arsenal.Resolver.Sorting.{sort_by-IsSorted, All-sort_by, Memᴰ-sort_by}
use solution_arsenal.Resolver.Order.{by_priority_asymm, by_priority_not_trans}

not_contains-All : (s : Str) (ts : List Str) → contains_str s ts ≡ false → All (λ t. s ≢ t) ts
unfolding contains_str
not_contains-All s [] h = tt
not_contains-All s (t ∷ ts) h =
    (λ e. ground (arith, str_eq_iff t s, e), not_contains-All s ts (ground arith))

contains_str-Memᴰ : (s : Str) (ts : List Str) → contains_str s ts ≡ true → Memᴰ s ts
unfolding contains_str
contains_str-Memᴰ s [] h = cc
contains_str-Memᴰ s (t ∷ ts) h = elim (Bool-cases (str_eq t s)) [
  | inl y ↦ Memᴰ.head (sym ((str_eq_iff t s).0 y))
  | inr n ↦ Memᴰ.tail (contains_str-Memᴰ s ts (ground arith))
]

-- The keys of the groups are all different, and every release has its group.
pub unique_names-Pairwise : (rs : List ReleaseInfo) → Pairwise (λ s t. s ≢ t) (unique_names rs)
unfolding unique_names
unique_names-Pairwise [] = tt
unique_names-Pairwise (r ∷ rs) = elim (Bool-cases (contains_str r.unique_name (unique_names rs))) [
  | inl y ↦ rw (y, Pairwise) (unique_names-Pairwise rs)
  | inr n ↦
      rw (n, Pairwise)
        (not_contains-All r.unique_name (unique_names rs) n, unique_names-Pairwise rs)
]

pub unique_names-Memᴰ :
    {r : ReleaseInfo} (rs : List ReleaseInfo) → Memᴰ r rs → Memᴰ r.unique_name (unique_names rs)
unfolding unique_names
unique_names-Memᴰ [] m = elim m [ ]
unique_names-Memᴰ {r} (s ∷ rs) (Memᴰ.head e) =
    elim (Bool-cases (contains_str s.unique_name (unique_names rs))) [
      | inl y ↦ rw (y, unique_names, e) (contains_str-Memᴰ s.unique_name (unique_names rs) y)
      | inr n ↦ rw (n, unique_names) (Memᴰ.head (ap (λ (t : ReleaseInfo). t.unique_name) e))
    ]
unique_names-Memᴰ {r} (s ∷ rs) (Memᴰ.tail m) =
    elim (Bool-cases (contains_str s.unique_name (unique_names rs))) [
      | inl y ↦ rw (y, unique_names) (unique_names-Memᴰ rs m)
      | inr n ↦ rw (n, unique_names) (Memᴰ.tail (unique_names-Memᴰ rs m))
    ]

-- The sorted group of a name: its members have the name and come from the list.
module _ (uname : Str) (rs : List ReleaseInfo) where
  abbrev pub sorted_group : List ReleaseInfo
  sorted_group = sort_by by_priority (named_group uname rs)

  abbrev pub Belongs : ReleaseInfo → Type 0
  Belongs r = (r.unique_name ≡ uname) × Memᴰ r rs

  pub All-sorted_group : All Belongs sorted_group
  unfolding named_group
  All-sorted_group =
      All-sort_by by_priority Belongs (named_group uname rs)
        (All-keep _ Belongs rs (λ r m h. ((str_eq_iff r.unique_name uname).0 h, m)))

  pub Memᴰ-sorted_group :
      {r : ReleaseInfo} → Memᴰ r rs → r.unique_name ≡ uname → Memᴰ r sorted_group
  unfolding named_group
  Memᴰ-sorted_group {r} m e =
      Memᴰ-sort_by by_priority (named_group uname rs)
        (Memᴰ-keep _ rs m ((str_eq_iff r.unique_name uname).1 e))

-- `w` is chosen among the accepted releases for the name of `r`, and `r` does not come before it.
pub record IsBeaten (r : ReleaseInfo) (accepted : List ReleaseInfo) : Type 0 where
  pub winner : ReleaseInfo
  pub listed : Memᴰ winner accepted
  pub same_name : winner.unique_name ≡ r.unique_name
  pub not_before : by_priority r winner ≡ false

IsBeaten-cons : {r w : ReleaseInfo} {l : List ReleaseInfo} → IsBeaten r l → IsBeaten r (w ∷ l)
IsBeaten-cons b = record {
  winner = b.winner;
  listed = Memᴰ.tail b.listed;
  same_name = b.same_name;
  not_before = b.not_before;
}

by_priority_irrefl : (r : ReleaseInfo) → by_priority r r ≡ false
by_priority_irrefl r = elim (Bool-cases (by_priority r r)) [
  | inl y ↦ cc (by_priority_asymm r r y)
  | inr n ↦ n
]

-- The head of a sorted group is not beaten by any of its members.
head_wins :
    (w r : ReleaseInfo) (l : List ReleaseInfo)
    → All (λ b. by_priority b w ≡ false) l
    → Memᴰ r (w ∷ l)
    → by_priority r w ≡ false
head_wins w r l h (Memᴰ.head e) = rw e (by_priority_irrefl w)
head_wins w r l h (Memᴰ.tail m) = All-Memᴰ (λ b. by_priority b w ≡ false) l h m

module _ (P : ReleaseInfo → Type 0) where
  pick_group-All :
      (u : Str) (l : List ReleaseInfo) (o : List ReleaseInfo × List Skipped)
      → All P l
      → All P o.0
      → All P (pick_group u l o).0
  unfolding pick_group
  pick_group-All u [] o h k = k
  pick_group-All u (w ∷ l) o (p, h) k = (p, k)

  -- What holds for the members of every group holds for the accepted releases.
  pub pick_groups-All :
      (rs : List ReleaseInfo) (us : List Str)
      → ((u : Str) → Memᴰ u us → All P (sorted_group u rs))
      → All P (pick_groups us rs).0
  unfolding pick_groups
  pick_groups-All rs [] f = tt
  pick_groups-All rs (u ∷ us) f =
      pick_group-All u (sorted_group u rs) (pick_groups us rs) (f u (Memᴰ.head refl))
        (pick_groups-All rs us (λ v m. f v (Memᴰ.tail m)))

All-map_Belongs :
    (P : ReleaseInfo → Type 0) (u : Str) (rs l : List ReleaseInfo)
    → ((r : ReleaseInfo) → Belongs u rs r → P r)
    → All (Belongs u rs) l
    → All P l
All-map_Belongs P u rs [] f h = tt
All-map_Belongs P u rs (r ∷ l) f (b, h) = (f r b, All-map_Belongs P u rs l f h)

module _ (rs : List ReleaseInfo) where
  -- The accepted releases come from the list, and each has one of the names.
  pub pick_groups-Belongs :
      (us : List Str) → All (λ r. Memᴰ r.unique_name us × Memᴰ r rs) (pick_groups us rs).0
  pick_groups-Belongs us =
      pick_groups-All (λ r. Memᴰ r.unique_name us × Memᴰ r rs) rs us
        (λ u m.
          All-map_Belongs (λ r. Memᴰ r.unique_name us × Memᴰ r rs) u rs (sorted_group u rs)
            (λ r b. (rw (b.0) m, b.1)) (All-sorted_group u rs))

  other_names :
      (u : Str) (us : List Str) (w : ReleaseInfo) (l : List ReleaseInfo)
      → All (λ v. u ≢ v) us
      → w.unique_name ≡ u
      → All (λ r. Memᴰ r.unique_name us × Memᴰ r rs) l
      → All (λ r. w.unique_name ≢ r.unique_name) l
  other_names u us w [] h e k = tt
  other_names u us w (r ∷ l) h e (b, k) =
      ((λ same. All-Memᴰ (λ v. u ≢ v) us h b.0 (sym e ∙ same)), other_names u us w l h e k)

  pick_group-Pairwise :
      (u : Str) (us : List Str) (l : List ReleaseInfo) (o : List ReleaseInfo × List Skipped)
      → All (λ v. u ≢ v) us
      → All (Belongs u rs) l
      → All (λ r. Memᴰ r.unique_name us × Memᴰ r rs) o.0
      → Pairwise (λ a b. a.unique_name ≢ b.unique_name) o.0
      → Pairwise (λ a b. a.unique_name ≢ b.unique_name) (pick_group u l o).0
  unfolding pick_group
  pick_group-Pairwise u us [] o h b k p = p
  pick_group-Pairwise u us (w ∷ l) o h b k p = (other_names u us w o.0 h b.0.0 k, p)

  -- The accepted releases have different unique names.
  pub pick_groups-Pairwise :
      (us : List Str)
      → Pairwise (λ s t. s ≢ t) us
      → Pairwise (λ a b. a.unique_name ≢ b.unique_name) (pick_groups us rs).0
  unfolding pick_groups
  pick_groups-Pairwise [] h = tt
  pick_groups-Pairwise (u ∷ us) (p, h) =
      pick_group-Pairwise u us (sorted_group u rs) (pick_groups us rs) p (All-sorted_group u rs)
        (pick_groups-Belongs us) (pick_groups-Pairwise us h)

  group_winner :
      (u : Str) (l : List ReleaseInfo) (o : List ReleaseInfo × List Skipped) {r : ReleaseInfo}
      → All (Belongs u rs) l
      → Pairwise (λ a b. by_priority b a ≡ false) l
      → r.unique_name ≡ u
      → Memᴰ r l
      → IsBeaten r (pick_group u l o).0
  unfolding pick_group
  group_winner u [] o b s e m = elim m [ ]
  group_winner u (w ∷ l) o {r} b s e m = record {
    winner = w;
    listed = Memᴰ.head refl;
    same_name = b.0.0 ∙ sym e;
    not_before = head_wins w r l s.0 m;
  }

  pick_group-keeps :
      (u : Str) (l : List ReleaseInfo) (o : List ReleaseInfo × List Skipped) {r : ReleaseInfo}
      → IsBeaten r o.0
      → IsBeaten r (pick_group u l o).0
  unfolding pick_group
  pick_group-keeps u [] o b = b
  pick_group-keeps u (w ∷ l) o b = IsBeaten-cons b

  -- Every release whose name is considered is the winner of its name, or yields to it.
  pub pick_groups-IsBeaten :
      (us : List Str) {r : ReleaseInfo}
      → Memᴰ r rs
      → Memᴰ r.unique_name us
      → IsBeaten r (pick_groups us rs).0
  unfolding pick_groups
  pick_groups-IsBeaten [] m n = elim n [ ]
  pick_groups-IsBeaten (u ∷ us) {r} m (Memᴰ.head e) =
      group_winner u (sorted_group u rs) (pick_groups us rs) (All-sorted_group u rs)
        (sort_by-IsSorted by_priority by_priority_asymm by_priority_not_trans (named_group u rs)) e
        (Memᴰ-sorted_group u rs m e)
  pick_groups-IsBeaten (u ∷ us) {r} m (Memᴰ.tail n) =
      pick_group-keeps u (sorted_group u rs) (pick_groups us rs) (pick_groups-IsBeaten us m n)
