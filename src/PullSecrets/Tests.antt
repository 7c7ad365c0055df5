-- ===== src/PullSecrets/Tests.antt =====
-- Runs of the pull secrets, and their theorems at concrete inputs.
use solution_arsenal.Prelude.{◌≡◌, refl, true, false, none, List, [], ◌∷◌, ok, err}
use solution_arsenal.Str.{Str, lit, str_eq, has_prefix, trim_prefix, cut_byte, to_lower}
use solution_arsenal.Names.{registry_host, oci_scheme}
use solution_arsenal.Api.{Target, ResourceAccess}
use solution_arsenal.Cluster.Safe.{Safe}
use solution_arsenal.PullSecrets.{Secrets, find_key, resolve_resources, build_pull_secrets_lookup}
use solution_arsenal.PullSecrets.Lookup.{OnlyReads, AllBound, build_pull_secrets_lookup-Safe}
use solution_arsenal.PullSecrets.Resolved.{Outcome, resolve_resources-ok}

abbrev target : Target
target = record {
  meta = record {
    name = lit "t";
    namespace = lit "ns";
    uid = lit "u";
    generation = 1;
    generate_name = [];
    deleting = false;
    finalizers = [];
    labels = [];
    controller = none;
  };
  render_registry_ref = lit "reg";
  render_registry_namespace = [];
  userdata = [];
  bootstrap_version = 0;
  conditions = [];
}

abbrev secrets : Secrets
secrets = (lit "reg.io", lit "pull") ∷ []

abbrev chart : Str → ResourceAccess
chart repository = record { repository = repository; insecure = false; tag = lit "v1"; helm = none }

abbrev resources : List (Str × ResourceAccess)
resources = (lit "chart", chart (lit "oci://Reg.io/chart")) ∷ []

running : Unit {0}
unfolding find_key resolve_resources registry_host oci_scheme lit str_eq has_prefix trim_prefix
    cut_byte to_lower
running = tt

resources_run :
    (resolve_resources resources secrets true
      ≡ ok (
          (
            lit "chart",
            record {
              repository = lit "oci://Reg.io/chart";
              insecure = false;
              tag = lit "v1";
              helm = none;
              pull_secret_name = lit "pull";
            },
          )
          ∷ []))
    × (resolve_resources ((lit "db", chart (lit "other.io/db")) ∷ resources) secrets true
        ≡ err (record { host = lit "other.io"; resource = lit "db" }))
unfolding running
resources_run = (refl, refl)

build_pull_secrets_lookup-Safe_example :
    Safe
      (OnlyReads target)
      (AllBound target)
      (AllBound target)
      []
      (build_pull_secrets_lookup target)
build_pull_secrets_lookup-Safe_example = build_pull_secrets_lookup-Safe target

resolve_resources-ok_example : Outcome secrets true resources
resolve_resources-ok_example = resolve_resources-ok secrets true resources
