-- ===== src/Discovery/Repository/Tests.antt =====
-- Runs of SplitRepository, and its theorems at them.
use solution_arsenal.Prelude.{◌≡◌, ◌≢◌, ◌⊎◌, refl, false, [], ◌++◌, ok, err}
use solution_arsenal.Discovery.Repository.Accepts.{split_repository-parts, split_repository-prefix}
use solution_arsenal.Str.{Str, lit, contains, has_prefix, trim_prefix, str_eq, split}
use solution_arsenal.Discovery.Repository.{not_ocm, separators, prefix, separator, split_repository}

running : Unit {0}
unfolding split_repository prefix separator lit contains has_prefix trim_prefix str_eq split
running = tt

split_repository_runs :
    (split_repository (lit "a/b/component-descriptors/c.d/e") ≡ ok (lit "a/b", lit "c.d/e"))
    × (split_repository (lit "component-descriptors/c") ≡ ok ([], lit "c"))
    × (split_repository (lit "component-descriptors/") ≡ err separators)
    × (split_repository (lit "charts/c") ≡ err not_ocm)
unfolding running
split_repository_runs = (refl, refl, refl, refl)

-- An empty component is refused behind the bare prefix, and accepted behind a base.
split_repository_empty : split_repository (lit "a/component-descriptors/") ≡ ok (lit "a", [])
unfolding running
split_repository_empty = refl

abbrev repo : Str
repo = lit "a/b/component-descriptors/c.d/e"

split_repository-parts_example :
    ((lit "a/b" ≡ [])
      × (repo ≡ prefix ++ lit "c.d/e")
      × (lit "c.d/e" ≢ [])
      × (contains (lit "c.d/e") separator ≡ false))
    ⊎ (repo ≡ lit "a/b" ++ (separator ++ lit "c.d/e"))
split_repository-parts_example =
    split_repository-parts repo (lit "a/b") (lit "c.d/e") split_repository_runs.0

split_repository-prefix_example : split_repository (prefix ++ lit "c") ≡ ok ([], lit "c")
unfolding running
split_repository-prefix_example = split_repository-prefix (lit "c") (λ e. cc e) refl
