-- ===== src/Controller/Targets/Specs.antt =====
-- The render tasks of a target: computeReleaseRenderTaskSpec, buildBootstrapInput and
-- computeBootstrapRenderTaskSpec of target_controller.go, and pullSecretsTag of helpers.go. Go's maps
-- are association lists in which an entry hides the later ones of its key.
use solution_arsenal.Prelude.{
  ℕ, Bool, Option, none, some, List, [], ◌∷◌, ◌++◌, map, Result, ok, err, ltb, length,
  if◌then◌else◌,
}
use solution_arsenal.Str.{Str, lit, str_lt, trim_prefix}
use solution_arsenal.Str.Decimal.{decimal}
use solution_arsenal.Names.{hash8, oci_scheme}
use solution_arsenal.Api.{
  Target, Release, ComponentVersion, Registry, ChartConfig, ResolvedResourceAccess, RenderTaskSpec,
  release_config, bootstrap_config, BootstrapInput,
}
use solution_arsenal.Resolver.{ReleaseInfo, sort_by}
use solution_arsenal.PullSecrets.{Secrets, MissingBinding, resolve_resources, find_key}
use solution_arsenal.Cluster.{Error, other}
use solution_arsenal.Controller.Libraries.{Libraries}

abbrev pub new_error : Str → Error
new_error text = record { reason = other; text = text }

-- fmt.Errorf("<text>: %w", err)
abbrev pub wrap : Str → Error → Error
wrap text e = record e { text = text ++ lit ": " ++ e.text }

abbrev pub chart_of : (name description tag : Str) → ChartConfig
chart_of name description tag = record {
  name = name;
  description = description;
  version = tag;
  app_version = tag;
}

abbrev pub value_or_empty : Option Str → Str
value_or_empty none = []
value_or_empty (some v) = v

-- strings.Join
unfoldable pub join : Str → List Str → Str
join sep [] = []
join sep (a ∷ []) = a
join sep (a ∷ b ∷ l) = a ++ sep ++ join sep (b ∷ l)

abbrev pub pull_secret_of : Option ResolvedResourceAccess → Str
pull_secret_of none = []
pull_secret_of (some ra) = ra.pull_secret_name

-- What the loop of pullSecretsTag writes into the hash.
unfoldable pub tag_input : List (Str × ResolvedResourceAccess) → List Str → Str
unfolding find_key
tag_input resolved [] = []
tag_input resolved (k ∷ keys) =
    k ++ lit "=" ++ pull_secret_of (find_key k resolved) ++ lit ";" ++ tag_input resolved keys

module _ (lib : Libraries) where
  unfoldable pub pull_secrets_tag : List (Str × ResolvedResourceAccess) → Str
  unfolding hash8 tag_input sort_by
  pull_secrets_tag resolved = hash8 lib.sha256 (
      tag_input resolved
        (sort_by str_lt (map (λ (e : Str × ResolvedResourceAccess). e.0) resolved)))

  abbrev pub missing_error : MissingBinding → Error
  missing_error m = new_error (
      lit "no RegistryBinding for host "
      ++ lib.quote m.host
      ++ lit " (resource "
      ++ lib.quote m.resource
      ++ lit "); create a RegistryBinding or use relaxed mode")

  -- The spec, with the resources that are resolved.
  unfoldable pub release_spec_of :
      Release
      → ComponentVersion
      → Registry
      → Target
      → List (Str × ResolvedResourceAccess)
      → RenderTaskSpec
  unfolding pull_secrets_tag
  release_spec_of rel cv registry target resolved =
      let chart_name = lit "release-" ++ rel.meta.name in
      let tag =
        lit "v0.0." ++ decimal rel.meta.generation ++ lit "-" ++ pull_secrets_tag resolved in
      record {
        config = release_config (record {
          chart = chart_of chart_name (lit "Release of " ++ rel.spec.component_version_ref) tag;
          component = cv.component_ref;
          resources = resolved;
          entrypoint = cv.entrypoint;
          values = rel.spec.values;
          target_namespace = value_or_empty rel.spec.target_namespace;
        });
        repository =
            target.meta.namespace ++ lit "/" ++ rel.meta.namespace ++ lit "/" ++ chart_name;
        tag = tag;
        base_url = registry.hostname;
        plain_http = registry.plain_http;
        push_secret_ref = registry.solar_secret_ref;
        failed_job_ttl = rel.spec.failed_job_ttl;
        owner_name = target.meta.name;
        owner_namespace = target.meta.namespace;
        owner_kind = lit "Target";
      }

  unfoldable pub compute_release_render_task_spec :
      Bool → Release → ComponentVersion → Registry → Target → Secrets → Result Error RenderTaskSpec
  unfolding release_spec_of resolve_resources
  compute_release_render_task_spec strict rel cv registry target pull_secrets_by_host =
      elim (resolve_resources cv.resources pull_secrets_by_host strict) [
        | ok resolved ↦ ok (release_spec_of rel cv registry target resolved)
        | err m ↦ err (wrap (lit "release " ++ rel.meta.name) (missing_error m))
      ]

  abbrev pub bootstrap_access : Str × Str → Str → Bool → ResolvedResourceAccess
  bootstrap_access reference render_registry_pull_secret insecure = record {
    repository = reference.0;
    insecure = insecure;
    tag = reference.1;
    helm = none;
    pull_secret_name = render_registry_pull_secret;
  }

  -- The loop of buildBootstrapInput, with `resolvedReleases` so far.
  unfoldable pub resolve_charts :
      Str
      → Bool
      → List ReleaseInfo
      → List (Str × ResolvedResourceAccess)
      → Result Error (List (Str × ResolvedResourceAccess))
  resolve_charts pull_secret insecure [] resolved = ok resolved
  resolve_charts pull_secret insecure (ri ∷ ris) resolved =
      let rest = resolve_charts pull_secret insecure ris in
      if ltb 0 (length ri.unique_name)
      then (elim (lib.parse_reference (trim_prefix ri.chart_url oci_scheme)) [
        | ok reference ↦
            rest ((ri.unique_name, bootstrap_access reference pull_secret insecure) ∷ resolved)
        | err e ↦ err (wrap (lit "failed to parse chartURL " ++ ri.chart_url) e)
      ])
      else err (
          new_error (
            lit "release "
            ++ lib.quote ri.name
            ++ lit
                " has empty uniqueName; resolveReleaseConflicts must run before buildBootstrapInput"))

  unfoldable pub build_bootstrap_input :
      Target → List ReleaseInfo → Str → Bool → Result Error BootstrapInput
  unfolding resolve_charts
  build_bootstrap_input target ris render_registry_pull_secret insecure =
      elim (resolve_charts render_registry_pull_secret insecure ris []) [
        | ok resolved ↦ ok (record { releases = resolved; userdata = target.userdata })
        | err e ↦ err e
      ]

  abbrev pub release_names : List ReleaseInfo → List Str
  release_names ris = sort_by str_lt (map (λ (ri : ReleaseInfo). ri.name) ris)

  unfoldable pub bootstrap_spec_of :
      Target → List ReleaseInfo → Registry → ℕ → BootstrapInput → RenderTaskSpec
  unfolding sort_by join
  bootstrap_spec_of target ris registry bootstrap_version input =
      let chart_name = lit "bootstrap-" ++ target.meta.name in
      let tag = lit "v0.0." ++ decimal bootstrap_version in
      record {
        config = bootstrap_config (record {
          chart =
              chart_of chart_name
                (lit "Bootstrap of [" ++ join (lit " ") (release_names ris) ++ lit "]") tag;
          input = input;
        });
        repository = target.meta.namespace ++ lit "/" ++ chart_name;
        tag = tag;
        base_url = registry.hostname;
        plain_http = registry.plain_http;
        push_secret_ref = registry.solar_secret_ref;
        failed_job_ttl = none;
        owner_name = target.meta.name;
        owner_namespace = target.meta.namespace;
        owner_kind = lit "Target";
      }

  unfoldable pub compute_bootstrap_render_task_spec :
      Target → List ReleaseInfo → Registry → ℕ → Result Error RenderTaskSpec
  unfolding build_bootstrap_input bootstrap_spec_of
  compute_bootstrap_render_task_spec target ris registry bootstrap_version =
      elim (build_bootstrap_input target ris registry.target_pull_secret_name registry.plain_http) [
        | ok input ↦ ok (bootstrap_spec_of target ris registry bootstrap_version input)
        | err e ↦ err e
      ]
