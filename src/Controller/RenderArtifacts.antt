-- ===== src/Controller/RenderArtifacts.antt =====
-- RenderArtifactReconciler (renderartifact_controller.go): it collects artifacts that no binding
-- refers to, and deletes the OCI tag of an artifact before the artifact goes. Deleting a tag is the
-- call `delete_tag`; reading a docker configuration's JSON is the parameter `unmarshal`.
pub mod Policy
pub mod Safety
use solution_arsenal.Prelude.{
  Bool, true, false, ◌&&◌, ◌||◌, not, ◌==◌, Option, none, some, List, [], ◌∷◌, ◌++◌, any, Result,
  ok, err, ltb, length, if◌then◌else◌,
}
use solution_arsenal.Str.{Str, lit, str_eq, trim_prefix, trim_suffix_byte}
use solution_arsenal.Names.{render_chart_url, oci_scheme}
use solution_arsenal.Api.{
  RenderArtifact, RenderBinding, Secret, Condition, AuthConfig, Authenticator, anonymous,
  from_config,
}
use solution_arsenal.PullSecrets.{find_key}
use solution_arsenal.Cluster.{
  render_artifacts, render_bindings, secrets, NamespacedName, Error, ListOptions, Call, get, list,
  delete, patch, patch_status, delete_tag, Program, done, stop, call, and_then, returned, ◌>>=◌,
  ◌>>◌, has_finalizer, refinalize, meta_of, without,
}
use solution_arsenal.Cluster.Errors.{is_not_found, err_log_and_wrap}
use solution_arsenal.Controller.{Settings, Outcome, returns, attempt, with_object, stop_on, check}
use solution_arsenal.Controller.Libraries.{Libraries}
use solution_arsenal.Controller.Targets.Specs.{wrap}
use solution_arsenal.Controller.RenderTasks.Pods.{basic_auth}

unfoldable pub render_artifact_finalizer : Str
render_artifact_finalizer = lit "solar.opendefense.cloud/render-artifact-finalizer"

unfoldable pub index_render_binding_artifact_name : Str
index_render_binding_artifact_name = lit "spec.renderArtifactRef.name"

abbrev pub value_at : Option Str → Str
value_at none = []
value_at (some v) = v

abbrev pub basic_config : (user pass : Str) → AuthConfig
basic_config user pass = record {
  username = user;
  password = pass;
  auth = [];
  identity_token = [];
  registry_token = [];
}

abbrev pub auth_or : Option AuthConfig → Authenticator → Authenticator
auth_or none other = other
auth_or (some ac) other = from_config ac

-- The entries of a docker configuration, by host.
abbrev pub auth_for : List (Str × AuthConfig) → Str → Authenticator
auth_for auths registry_host =
    auth_or (find_key registry_host auths)
      (auth_or (find_key (lit "https://" ++ registry_host) auths) anonymous)

-- The authenticator, of which a malformed secret gives the anonymous one and an error that is logged.
unfoldable pub oci_auth_from_secret :
    (Str → Option (List (Str × AuthConfig))) → Secret → Str → Authenticator
unfolding find_key
oci_auth_from_secret unmarshal secret registry_host =
    if str_eq secret.secret_type basic_auth
    then (let user = value_at (find_key (lit "username") secret.data_entries) in
        let pass = value_at (find_key (lit "password") secret.data_entries) in
        if ltb 0 (length user) || ltb 0 (length pass)
        then from_config (basic_config user pass)
        else anonymous)
    else (let config = value_at (find_key (lit ".dockerconfigjson") secret.data_entries) in
        if length config == 0 then anonymous else elim (unmarshal config) [
          | none ↦ anonymous
          | some auths ↦ auth_for auths registry_host
        ])

abbrev pub registry_host_of : RenderArtifact → Str
registry_host_of artifact = trim_prefix (trim_suffix_byte 47 artifact.base_url) oci_scheme

unfoldable pub raw_ref : RenderArtifact → Str
raw_ref artifact =
    registry_host_of artifact
    ++ lit "/"
    ++ trim_prefix artifact.repository (lit "/")
    ++ lit ":"
    ++ artifact.tag

abbrev pub cleanup_condition : RenderArtifact → (reason message : Str) → Condition
cleanup_condition artifact reason message = record {
  condition_type = lit "OCICleanup";
  status = false;
  observed_generation = artifact.meta.generation;
  reason = reason;
  message = message;
  last_transition_time = 0;
}

abbrev pub secret_name_of : RenderArtifact → Str → NamespacedName
secret_name_of artifact name = record {
  namespace =
      if ltb 0 (length artifact.push_secret_namespace)
      then artifact.push_secret_namespace
      else artifact.meta.namespace;
  name = name;
}

module _ (lib : Libraries) (unmarshal : Str → Option (List (Str × AuthConfig)))
    (artifact : RenderArtifact) where
  abbrev pub auth_of_secret :
      Str → Result Error Secret → Program (Result Error Authenticator) (Result Error Authenticator)
  auth_of_secret name (ok secret) =
      done (ok (oci_auth_from_secret unmarshal secret (registry_host_of artifact)))
  auth_of_secret name (err e) = stop (
      err (
        wrap
          (lit "failed to get push secret "
            ++ (secret_name_of artifact name).namespace
            ++ lit "/"
            ++ name)
          e))

  abbrev pub auth_by :
      Option Str → Program (Result Error Authenticator) (Result Error Authenticator)
  auth_by none = done (ok anonymous)
  auth_by (some name) = call (get secrets (secret_name_of artifact name)) (auth_of_secret name)

  unfoldable pub resolve_auth : Program (Result Error Authenticator) (Result Error Authenticator)
  unfolding oci_auth_from_secret
  resolve_auth = auth_by artifact.push_secret_ref

  -- A failure is written into the status, where it can be, and returned.
  abbrev pub surface : Str → Error → Program (Option Error) (Option Error)
  surface reason e =
      let conditions =
        (lib.set_status_condition artifact.conditions
          (cleanup_condition artifact reason e.text)).0 in
      call (patch_status render_artifacts artifact (record artifact { conditions = conditions }))
        (λ _. stop (some e))

  abbrev pub deleted_or : Result Error (Unit {0}) → Program (Option Error) (Option Error)
  deleted_or (ok _) = done none
  deleted_or (err e) = if is_not_found e then stop none else surface (lit "DeleteFailed") e

  abbrev pub authenticated_or : Result Error Authenticator → Program (Option Error) (Option Error)
  authenticated_or (ok auth) =
      call (delete_tag (raw_ref artifact) auth artifact.plain_http) deleted_or
  authenticated_or (err e) = surface (lit "AuthFailed") e

  unfoldable pub cleanup_oci_artifact : Program (Option Error) (Option Error)
  unfolding resolve_auth raw_ref returned and_then
  cleanup_oci_artifact = and_then (returned resolve_auth) authenticated_or

module _ (s : Settings) (lib : Libraries) (unmarshal : Str → Option (List (Str × AuthConfig)))
    (artifact : RenderArtifact) where
  unfoldable pub delete_artifact : Program Outcome Outcome
  unfolding cleanup_oci_artifact check attempt and_then without
  delete_artifact =
      if has_finalizer render_artifacts artifact render_artifact_finalizer
      then (do
        check (cleanup_oci_artifact lib unmarshal artifact)
        attempt returns s
            (patch render_artifacts false artifact (
              refinalize render_artifacts artifact
                (without render_artifact_finalizer artifact.meta.finalizers)))
            (lit "failed to remove finalizer from RenderArtifact")
        done (returns none))
      else done (returns none)

module _ (s : Settings) (artifact : RenderArtifact) where
  abbrev pub chart_url_of : Str
  chart_url_of = render_chart_url artifact.base_url artifact.repository artifact.tag

  -- The artifact as it is in memory once its URL is written.
  unfoldable pub populate_url : Program Outcome RenderArtifact
  unfolding attempt
  populate_url =
      if str_eq artifact.chart_url chart_url_of
      then done artifact
      else attempt returns s
          (patch_status render_artifacts artifact (record artifact { chart_url = chart_url_of }))
          (lit "failed to update RenderArtifact status")

  abbrev pub bindings_by_index : Call
  bindings_by_index = list render_bindings (record {
    namespace = some artifact.meta.namespace;
    live = false;
    field = some (index_render_binding_artifact_name, artifact.meta.name);
    selector = none;
  })

  abbrev pub all_bindings : Call
  all_bindings = list render_bindings (record {
    namespace = some artifact.meta.namespace;
    live = true;
    field = none;
    selector = none;
  })

  abbrev pub refers_to : RenderBinding → Bool
  refers_to b = str_eq b.render_artifact_ref artifact.meta.name

  -- client.IgnoreNotFound
  abbrev pub collected_or : Result Error (Unit {0}) → Program Outcome Outcome
  collected_or (ok _) = done (returns none)
  collected_or (err e) =
      if is_not_found e
      then done (returns none)
      else stop (
          returns (
            err_log_and_wrap s.test_mode (some e) (lit "failed to delete orphaned RenderArtifact")))

  unfoldable pub collect_artifact : Program Outcome Outcome
  unfolding attempt and_then
  collect_artifact = do
    bs ←
        attempt returns s bindings_by_index (lit "failed to list RenderBindings for RenderArtifact")
    if length bs == 0
        then (do
          confirmed ←
              attempt returns s all_bindings (lit "failed to confirm RenderBinding absence via API")
          if any refers_to confirmed
              then stop (returns none)
              else call (delete render_artifacts artifact) collected_or)
        else done (returns none)

unfoldable pub keep_artifact : Settings → RenderArtifact → Program Outcome Outcome
unfolding populate_url collect_artifact attempt and_then
keep_artifact s artifact =
    if has_finalizer render_artifacts artifact render_artifact_finalizer
    then (do latest ← populate_url s artifact; collect_artifact s latest)
    else (do
      attempt returns s
          (patch render_artifacts false artifact (
            refinalize render_artifacts artifact
              (artifact.meta.finalizers ++ render_artifact_finalizer ∷ [])))
          (lit "failed to add finalizer to RenderArtifact")
      done (returns none))

unfoldable pub reconcile_render_artifact :
    Settings
    → Libraries
    → (Str → Option (List (Str × AuthConfig)))
    → NamespacedName
    → Program Outcome Outcome
unfolding with_object delete_artifact keep_artifact
reconcile_render_artifact s lib unmarshal req =
    with_object s render_artifacts req (lit "failed to get RenderArtifact") (λ artifact.
      if artifact.meta.deleting
      then delete_artifact s lib unmarshal artifact
      else keep_artifact s artifact)
