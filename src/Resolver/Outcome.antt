-- ===== src/Resolver/Outcome.antt =====
-- What the resolver guarantees of the releases that it deploys and of those that it leaves out.
use solution_arsenal.Prelude.{
  ◌<◌, ◌≡◌, ◌≢◌, refl, sym, false, Option, Bool, List, [], ◌∷◌, Memᴰ, length, All, All-Memᴰ,
  Pairwise, map,
}
use solution_arsenal.Str.{Str, str_lt}
use solution_arsenal.Api.{LabelSelector, Labels}
use solution_arsenal.Resolver.{
  ReleaseInfo, by_priority, sort_by, with_unique_name, unique_names, pick_groups,
  resolve_release_conflicts,
}
use solution_arsenal.Resolver.Sorting.{
  All-sort_by, Pairwise-sort_by, Memᴰ-sort_by, sort_by-IsSorted,
}
use solution_arsenal.Resolver.Order.{by_priority_asymm, by_priority_not_trans}
use solution_arsenal.Resolver.Groups.{
  unique_names-Pairwise, unique_names-Memᴰ, pick_groups-Belongs, pick_groups-Pairwise,
  pick_groups-IsBeaten,
}
use solution_arsenal.Resolver.Affinity.{clash}
use solution_arsenal.Resolver.Loop.{
  IsDecided, filter_affinity-Pairwise, filter_affinity-All, filter_affinity-clash_free,
  filter_affinity-IsDecided,
}

module _ (releases : List ReleaseInfo) where
  abbrev pub named : List ReleaseInfo
  named = map with_unique_name releases

  abbrev pub names : List Str
  names = sort_by str_lt (unique_names named)

  abbrev pub candidates : List ReleaseInfo
  candidates = sort_by by_priority (pick_groups names named).0

  All-candidates : (P : ReleaseInfo → Type 0) → All P named → All P candidates
  All-candidates P h =
      All-sort_by by_priority P (pick_groups names named).0
        (pull (pick_groups names named).0 (pick_groups-Belongs named names))
    where
      pull : (l : List ReleaseInfo) → All (λ r. Memᴰ r.unique_name names × Memᴰ r named) l → All P l
      pull [] b = tt
      pull (r ∷ l) (b, k) = (All-Memᴰ P named h b.1, pull l k)

  keys_named :
      All (λ r. 0 < length r.binding_key) releases → All (λ r. 0 < length r.binding_key) named
  keys_named h = go releases h
    where
      go :
          (l : List ReleaseInfo)
          → All (λ r. 0 < length r.binding_key) l
          → All (λ r. 0 < length r.binding_key) (map with_unique_name l)
      go [] k = tt
      go (r ∷ l) (p, k) = (unfold with_unique_name in p, go l k)

  module _ (as_selector : LabelSelector → Option (Labels → Bool)) where
    -- No two releases that are deployed have one unique name.
    pub resolve-unique_names :
        Pairwise
          (λ a b. a.unique_name ≢ b.unique_name)
          (resolve_release_conflicts as_selector releases).0
    unfolding resolve_release_conflicts
    resolve-unique_names =
        filter_affinity-Pairwise as_selector candidates (pick_groups names named).1
          (λ a b. a.unique_name ≢ b.unique_name)
          (Pairwise-sort_by by_priority (λ a b. a.unique_name ≢ b.unique_name)
            (λ a b h e. h (sym e)) (pick_groups names named).0
            (pick_groups-Pairwise named names (
              Pairwise-sort_by str_lt (λ s t. s ≢ t) (λ s t h e. h (sym e)) (unique_names named)
                (unique_names-Pairwise named))))

    -- Where every binding has a key, no anti-affinity rule of a release that is deployed selects
    -- another one, in either direction.
    pub resolve-clash :
        All (λ r. 0 < length r.binding_key) releases
        → Pairwise
            (λ a b. clash as_selector a b ≡ false)
            (resolve_release_conflicts as_selector releases).0
    unfolding resolve_release_conflicts
    resolve-clash h =
        filter_affinity-clash_free as_selector candidates (pick_groups names named).1
          (All-candidates (λ r. 0 < length r.binding_key) (keys_named h))

    -- Every release that is deployed is one of the releases given, with its effective unique name.
    pub resolve-Memᴰ :
        All
          (λ r. Memᴰ r (map with_unique_name releases))
          (resolve_release_conflicts as_selector releases).0
    unfolding resolve_release_conflicts
    resolve-Memᴰ =
        filter_affinity-All as_selector candidates (pick_groups names named).1 (λ r. Memᴰ r named)
          (All-candidates (λ r. Memᴰ r named) (members named (λ r m. m)))
      where
        members :
            (l : List ReleaseInfo)
            → ((r : ReleaseInfo) → Memᴰ r l → Memᴰ r named)
            → All (λ r. Memᴰ r named) l
        members [] f = tt
        members (r ∷ l) f = (f r (Memᴰ.head refl), members l (λ s m. f s (Memᴰ.tail m)))

    -- The winner of a release's unique name: it is one of the releases given, it has the name, the release does not come before it,
    -- and it is deployed unless its selector is invalid or it clashes with a deployed release that
    -- does not come after it.
    pub record IsSettled (r : ReleaseInfo) (deployed : List ReleaseInfo) : Type 0 where
      pub winner : ReleaseInfo
      pub given : Memᴰ winner (map with_unique_name releases)
      pub same_name : winner.unique_name ≡ r.unique_name
      pub not_before : by_priority r winner ≡ false
      pub decided : IsDecided as_selector winner deployed

    -- For every release given, there is a release given with its unique name that it does not come
    -- before, and that is deployed, or is left out because its own selector is invalid or because it
    -- clashes with a deployed release that does not come after it.
    pub resolve-IsSettled :
        (r : ReleaseInfo)
        → Memᴰ r (map with_unique_name releases)
        → IsSettled r (resolve_release_conflicts as_selector releases).0
    unfolding resolve_release_conflicts
    resolve-IsSettled r m =
        let b =
          pick_groups-IsBeaten named names m
            (Memᴰ-sort_by str_lt (unique_names named) (unique_names-Memᴰ named m)) in
        record {
          winner = b.winner;
          given =
              (All-Memᴰ (λ w. Memᴰ w.unique_name names × Memᴰ w named) _
                (pick_groups-Belongs named names) b.listed).1;
          same_name = b.same_name;
          not_before = b.not_before;
          decided =
              filter_affinity-IsDecided as_selector candidates (pick_groups names named).1 b.winner
                (sort_by-IsSorted by_priority by_priority_asymm by_priority_not_trans
                  (pick_groups names named).0)
                (Memᴰ-sort_by by_priority (pick_groups names named).0 b.listed);
        }
