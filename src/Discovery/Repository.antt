-- ===== src/Discovery/Repository.antt =====
-- SplitRepository of pkg/discovery/helpers.go: the base and the component of an OCM repository.
pub mod Accepts
mod Tests
use solution_arsenal.Prelude.{
  ltb, ◌<◌, ◌&&◌, not, List, [], ◌∷◌, length, if◌then◌else◌, Result, ok, err,
}
use solution_arsenal.Str.{Str, lit, str_eq, contains, trim_prefix, split}

-- Both wrap ErrNotComponentDescriptor; the constructors stand for the two messages.
pub data SplitError : Type 0 where
  not_ocm separators : SplitError

unfoldable pub prefix : Str
prefix = lit "component-descriptors/"

unfoldable pub separator : Str
separator = lit "/component-descriptors/"

-- The part of SplitRepository that splits at the separator: `len(parts) != 2`.
unfoldable pub two_parts : List Str → Result SplitError (Str × Str)
two_parts (p ∷ q ∷ []) = ok (p, q)
two_parts _ = err separators

unfoldable pub split_repository : Str → Result SplitError (Str × Str)
unfolding two_parts
split_repository repo =
    let trimmed = trim_prefix repo prefix in
    if not (contains repo prefix)
    then err not_ocm
    else if not (str_eq trimmed repo) && ltb 0 (length trimmed)
    then (if contains trimmed separator then err separators else ok ([], trimmed))
    else two_parts (split repo separator)
