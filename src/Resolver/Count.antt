-- ===== src/Resolver/Count.antt =====
-- No release is lost: each is deployed or named in a message.
use solution_arsenal.Prelude.{
  ℕ, suc, ◌+◌, ◌≡◌, ◌≢◌, refl, sym, ap, Bool, Option, List, [], ◌∷◌, Memᴰ, arith, length, All,
  All-Memᴰ, All-of_forall, Pairwise, length-append, map, if◌then◌else◌,
}
use solution_arsenal.Str.{Str, str_eq, str_lt}
use solution_arsenal.Str.Laws.{str_eq_iff}
use solution_arsenal.Api.{LabelSelector, Labels}
use solution_arsenal.Resolver.{
  ReleaseInfo, Skipped, by_priority, with_unique_name, unique_names, named_group, lose, pick_group,
  pick_groups, resolve_release_conflicts,
}
use solution_arsenal.Resolver.Sorting.{length-sort_by, Memᴰ-sort_by, Pairwise-sort_by}
use solution_arsenal.Resolver.Groups.{sorted_group, unique_names-Pairwise, unique_names-Memᴰ}
use solution_arsenal.Resolver.Loop.{filter_affinity-counted}
use solution_arsenal.Resolver.Outcome.{named, names, candidates}

-- How many releases the groups of the names hold together.
group_total : List Str → List ReleaseInfo → ℕ
group_total [] rs = 0
group_total (u ∷ us) rs = length (named_group u rs) + group_total us rs

length-lose : (u : Str) (w : ReleaseInfo) (l : List ReleaseInfo) → length (lose u w l) ≡ length l
unfolding lose
length-lose u w [] = refl
length-lose u w (r ∷ l) = ap suc (length-lose u w l)

length-pick_group :
    (u : Str) (l : List ReleaseInfo) (o : List ReleaseInfo × List Skipped)
    → length (pick_group u l o).0 + length (pick_group u l o).1
      ≡ length l + (length o.0 + length o.1)
unfolding pick_group
length-pick_group u [] o = omega arith
length-pick_group u (w ∷ l) o = omega (arith, length-append (lose u w l) o.1, length-lose u w l)

length-pick_groups :
    (us : List Str) (rs : List ReleaseInfo)
    → length (pick_groups us rs).0 + length (pick_groups us rs).1 ≡ group_total us rs
unfolding pick_groups group_total
length-pick_groups [] rs = omega arith
length-pick_groups (u ∷ us) rs = omega (
  arith,
  length-pick_group u (sorted_group u rs) (pick_groups us rs),
  length-sort_by by_priority (named_group u rs),
  length-pick_groups us rs,
)

-- How often a name stands in a list.
occurrences : Str → List Str → ℕ
occurrences s [] = 0
occurrences s (u ∷ us) = let rest = occurrences s us in if str_eq s u then suc rest else rest

group_total-cons :
    (us : List Str) (r : ReleaseInfo) (rs : List ReleaseInfo)
    → group_total us (r ∷ rs) ≡ occurrences r.unique_name us + group_total us rs
unfolding group_total occurrences named_group
group_total-cons [] r rs = omega arith
group_total-cons (u ∷ us) r rs = ground (arith, group_total-cons us r rs)

occurrences-absent : (s : Str) (us : List Str) → All (λ t. s ≢ t) us → occurrences s us ≡ 0
unfolding occurrences
occurrences-absent s [] h = refl
occurrences-absent s (u ∷ us) (p, h) = ground (arith, occurrences-absent s us h, str_eq_iff s u, p)

occurrences-once :
    (s : Str) (us : List Str) → Pairwise (λ a b. a ≢ b) us → Memᴰ s us → occurrences s us ≡ 1
unfolding occurrences
occurrences-once s [] h m = elim m [ ]
occurrences-once s (u ∷ us) (p, h) (Memᴰ.head e) =
    let absent : All (λ t. s ≢ t) us = rw e p in
    ground (arith, occurrences-absent s us absent, str_eq_iff s u)
occurrences-once s (u ∷ us) (p, h) (Memᴰ.tail m) =
    let differ : u ≢ s = All-Memᴰ (λ t. u ≢ t) us p m in
    ground (arith, occurrences-once s us h m, str_eq_iff s u, λ (e : u ≡ s). differ e)

group_total-nil : (us : List Str) → group_total us [] ≡ 0
unfolding group_total named_group
group_total-nil [] = refl
group_total-nil (u ∷ us) = omega (arith, group_total-nil us)

group_total-All :
    (us : List Str) (rs : List ReleaseInfo)
    → Pairwise (λ a b. a ≢ b) us
    → All (λ r. Memᴰ r.unique_name us) rs
    → group_total us rs ≡ length rs
group_total-All us [] h k = group_total-nil us
group_total-All us (r ∷ rs) h (m, k) = omega (
  arith,
  group_total-cons us r rs,
  occurrences-once r.unique_name us h m,
  group_total-All us rs h k,
)

length-map : (rs : List ReleaseInfo) → length (map with_unique_name rs) ≡ length rs
length-map [] = refl
length-map (r ∷ rs) = ap suc (length-map rs)

-- The deployed releases and the messages are together as many as the releases given.
pub resolve-length :
    (as_selector : LabelSelector → Option (Labels → Bool)) (releases : List ReleaseInfo)
    → length (resolve_release_conflicts as_selector releases).0
        + length (resolve_release_conflicts as_selector releases).1
      ≡ length releases
unfolding resolve_release_conflicts
resolve-length as_selector releases =
    let us = names releases in
    let rs = named releases in
    omega (
      arith,
      filter_affinity-counted as_selector (candidates releases) (pick_groups us rs).1,
      length-sort_by by_priority (pick_groups us rs).0,
      length-pick_groups us rs,
      group_total-All us rs
          (Pairwise-sort_by str_lt (λ s t. s ≢ t) (λ s t h e. h (sym e)) (unique_names rs)
            (unique_names-Pairwise rs))
          (All-of_forall (λ r. Memᴰ r.unique_name us) rs
            (λ r m. Memᴰ-sort_by str_lt (unique_names rs) (unique_names-Memᴰ rs m))),
      length-map releases,
    )
