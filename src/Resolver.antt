-- ===== src/Resolver.antt =====
-- Which releases bound to a target are deployed (resolveReleaseConflicts of
-- pkg/controller/target_controller.go): one release for each unique name, the one of highest
-- priority, and none that an anti-affinity rule forbids beside a release that is already chosen.
-- Reading a label selector is Kubernetes code: the section's parameter `as_selector`, `none` where
-- the selector is invalid, gives the test on labels.
pub mod Sorting
pub mod Order
pub mod Groups
pub mod Affinity
pub mod Loop
pub mod Outcome
pub mod Confluence
pub mod Count
mod Tests
use solution_arsenal.Prelude.{
  ℕ, Bool, true, false, ◌&&◌, ◌||◌, not, Option, none, some, List, [], ◌∷◌, ◌++◌, map, keep, ltb,
  length, if◌then◌else◌,
}
use solution_arsenal.Str.{Str, str_eq, str_lt, contains_str}
use solution_arsenal.Api.{Release, ComponentVersion, LabelSelector, Labels}
use solution_arsenal.Api.Integer.{int_lt, int_eq}

pub record ReleaseInfo : Type 0 where
  pub binding_key : Str
  pub name : Str
  pub unique_name : Str
  pub release : Release
  pub cv : ComponentVersion
  pub rt_name : Str
  pub chart_url : Str
  pub artifact_name : Str
  pub artifact_binding_name : Str

-- The filter messages: the binding that is left out, and why.
pub data Skipped : Type 0 where
  lower_priority : (loser unique_name winner : Str) → Skipped
  invalid_selector : (loser : Str) → Skipped
  anti_affinity : (loser winner : Str) → Skipped

unfoldable pub effective_unique_name : Release → ComponentVersion → Str
effective_unique_name rel cv =
    if ltb 0 (length rel.spec.unique_name) then rel.spec.unique_name else cv.component_ref

-- byPriority: highest priority first, the binding key breaks ties.
unfoldable pub by_priority : ReleaseInfo → ReleaseInfo → Bool
by_priority a b =
    if not (int_eq a.release.spec.priority b.release.spec.priority)
    then int_lt b.release.spec.priority a.release.spec.priority
    else str_lt a.binding_key b.binding_key

-- sort.Slice and sort.Strings. They may leave items that are ordered neither way in any order;
-- here such items stay as they came.
module _ {ℓ} {A : Type ℓ} (less : A → A → Bool) where
  unfoldable pub insert_sorted : A → List A → List A
  insert_sorted a [] = a ∷ []
  insert_sorted a (b ∷ l) = let rest = insert_sorted a l in if less b a then b ∷ rest else a ∷ b ∷ l

  unfoldable pub sort_by : List A → List A
  unfolding insert_sorted
  sort_by [] = []
  sort_by (a ∷ l) = insert_sorted a (sort_by l)

-- The loop that sets `releases[i].uniqueName`.
unfoldable pub with_unique_name : ReleaseInfo → ReleaseInfo
with_unique_name ri = record ri { unique_name = effective_unique_name ri.release ri.cv }

-- The keys of `namedGroups`, each once.
unfoldable pub unique_names : List ReleaseInfo → List Str
unfolding contains_str
unique_names [] = []
unique_names (ri ∷ rs) =
    let rest = unique_names rs in
    if contains_str ri.unique_name rest then rest else ri.unique_name ∷ rest

-- namedGroups[uname]
unfoldable pub named_group : Str → List ReleaseInfo → List ReleaseInfo
named_group uname = keep (λ ri. str_eq ri.unique_name uname)

-- The losers of a sorted group, behind its winner.
unfoldable pub lose : Str → ReleaseInfo → List ReleaseInfo → List Skipped
lose uname winner = map (λ loser. lower_priority loser.binding_key uname winner.binding_key)

unfoldable pub pick_group :
    Str → List ReleaseInfo → (List ReleaseInfo × List Skipped) → List ReleaseInfo × List Skipped
unfolding lose
pick_group uname [] (accepted, skipped) = (accepted, skipped)
pick_group uname (winner ∷ losers) (accepted, skipped) =
    (winner ∷ accepted, lose uname winner losers ++ skipped)

-- Step A: the loop over the sorted unique names.
unfoldable pub pick_groups : List Str → List ReleaseInfo → List ReleaseInfo × List Skipped
unfolding pick_group named_group sort_by
pick_groups [] releases = ([], [])
pick_groups (uname ∷ unames) releases =
    pick_group uname (sort_by by_priority (named_group uname releases))
      (pick_groups unames releases)

module _ (as_selector : LabelSelector → Option (Labels → Bool)) where
  -- `riSelector`: the outer option is `none` where the selector is invalid.
  unfoldable pub selector_of : ReleaseInfo → Option (Option (Labels → Bool))
  selector_of ri = elim ri.release.spec.anti_affinity [
    | none ↦ some none
    | some s ↦ elim (as_selector s) [ none ↦ none | some sel ↦ some (some sel) ]
  ]

  abbrev pub selects : Option (Labels → Bool) → Labels → Bool
  selects none labels = false
  selects (some sel) labels = sel labels

  -- `err == nil && otherSel.Matches(labels.Set(ri.release.Labels))`
  abbrev pub forbids : Option (Option (Labels → Bool)) → Labels → Bool
  forbids none labels = false
  forbids (some sel) labels = selects sel labels

  -- The loop over `resolved`: the key of the first conflicting binding, or "".
  unfoldable pub find_conflict : Option (Labels → Bool) → ReleaseInfo → List ReleaseInfo → Str
  unfolding selector_of
  find_conflict sel ri [] = []
  find_conflict sel ri (other ∷ others) =
      if selects sel other.release.meta.labels || forbids (selector_of other) ri.release.meta.labels
      then other.binding_key
      else find_conflict sel ri others

  -- Step B: the loop over the accepted releases, with `resolved` and `skipped` so far.
  unfoldable pub filter_affinity :
      List ReleaseInfo → List ReleaseInfo → List Skipped → List ReleaseInfo × List Skipped
  unfolding find_conflict
  filter_affinity [] resolved skipped = (resolved, skipped)
  filter_affinity (ri ∷ accepted) resolved skipped = elim (selector_of ri) [
    | none ↦ filter_affinity accepted resolved (skipped ++ invalid_selector ri.binding_key ∷ [])
    | some sel ↦ elim (ltb 0 (length (find_conflict sel ri resolved))) [
      | true ↦
          filter_affinity accepted resolved
            (skipped ++ anti_affinity ri.binding_key (find_conflict sel ri resolved) ∷ [])
      | false ↦ filter_affinity accepted (resolved ++ ri ∷ []) skipped
    ]
  ]

  unfoldable pub resolve_release_conflicts : List ReleaseInfo → List ReleaseInfo × List Skipped
  unfolding unique_names pick_groups filter_affinity with_unique_name
  resolve_release_conflicts releases =
      let named = map with_unique_name releases in
      let (accepted, skipped) = pick_groups (sort_by str_lt (unique_names named)) named in
      filter_affinity (sort_by by_priority accepted) [] skipped
