-- ===== src/Cluster/Errors.antt =====
-- How errors are logged and wrapped (pkg/controller/errors.go). The parameter `test_mode` is the
-- environment variable CONTROLLER_TEST_MODE; the log is left out.
use solution_arsenal.Prelude.{
  Bool, true, false, ◌&&◌, Option, none, some, ◌++◌, ◌==◌, length, if◌then◌else◌,
}
use solution_arsenal.Str.{Str, lit, contains}
use solution_arsenal.Cluster.{Error, not_found, already_exists, other}

abbrev pub is_not_found : Error → Bool
is_not_found e = elim e.reason [ not_found ↦ true | already_exists ↦ false | other ↦ false ]

abbrev pub is_already_exists : Error → Bool
is_already_exists e = elim e.reason [ not_found ↦ false | already_exists ↦ true | other ↦ false ]

unfoldable pub is_namespace_terminating_error : Option Error → Bool
is_namespace_terminating_error none = false
is_namespace_terminating_error (some e) = contains e.text (lit "because it is being terminated")

unfoldable pub err_log_and_wrap : Bool → Option Error → Str → Option Error
unfolding is_namespace_terminating_error
err_log_and_wrap test_mode none text = none
err_log_and_wrap test_mode (some e) text =
    if test_mode && is_namespace_terminating_error (some e)
    then none
    else if length text == 0
    then some e
    else some (record e { text = text ++ lit ": " ++ e.text })
