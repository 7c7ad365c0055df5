-- ===== src/Controller/Samples.antt =====
-- Concrete objects for the witnesses and tests of the controllers.
use solution_arsenal.Prelude.{Bool, true, false, none, some, [], ◌∷◌, ok}
use solution_arsenal.Str.{Str, lit}
use solution_arsenal.Api.{
  Target, Registry, Release, ReleaseSpec, ReleaseBinding, ComponentVersion, ObjectMeta, RenderTask,
  RenderTaskSpec, bootstrap_config, Secret, Condition,
}
use solution_arsenal.Api.Integer.{pos}
use solution_arsenal.Cluster.{NamespacedName}
use solution_arsenal.Controller.{Settings}
use solution_arsenal.Controller.Libraries.{Libraries}
use solution_arsenal.Controller.Targets.Conditions.{TargetReconciler}
use solution_arsenal.Controller.RenderTasks.{RenderTaskReconciler}

abbrev pub settings : Settings
settings = record { test_mode = false; watch_namespace = [] }

abbrev pub request : NamespacedName
request = record { namespace = lit "ns"; name = lit "t" }

abbrev pub libraries : Libraries
libraries = record {
  set_status_condition = λ cs c. (c ∷ cs, true);
  find_status_condition = λ cs t. none;
  is_status_condition_true = λ cs t. false;
  specs_equal = λ a b. false;
  inputs_equal = λ a b. false;
  as_selector = λ s. none;
  selector_error = λ s. s;
  parse_reference = λ s. ok (s, lit "v1");
  quote = λ s. s;
  sha256 = λ s. s;
  now = 0;
  next_back_off = λ i. 150000000000;
}

abbrev pub reconciler : TargetReconciler
reconciler = record { settings = settings; registry_binding_strict = false; lib = libraries }

abbrev pub render_reconciler : RenderTaskReconciler
render_reconciler = record {
  settings = settings;
  lib = libraries;
  renderer_image = lit "renderer";
  renderer_command = lit "render";
  renderer_args = [];
  renderer_ca_config_map = lit "ca";
  renderer_image_pull_secrets = [];
  set_controller_reference = λ owner m. ok m;
  marshal = λ c. ok (lit "{}");
}

abbrev pub meta : Str → Bool → ObjectMeta
meta name deleting = record {
  name = name;
  namespace = lit "ns";
  uid = lit "u";
  generation = 1;
  generate_name = [];
  deleting = deleting;
  finalizers = [];
  labels = [];
  controller = none;
}

abbrev pub target : Target
target = record {
  meta = meta (lit "t") false;
  render_registry_ref = lit "reg";
  render_registry_namespace = [];
  userdata = [];
  bootstrap_version = 0;
  conditions = [];
}

abbrev pub registry : Registry
registry = record {
  meta = meta (lit "reg") false;
  hostname = lit "reg.io";
  plain_http = false;
  solar_secret_ref = some (lit "push");
  target_pull_secret_name = [];
  flavor = lit "zot";
}

abbrev pub release_spec : ReleaseSpec
release_spec = record {
  component_version_ref = lit "cv";
  component_version_namespace = [];
  target_namespace = none;
  unique_name = [];
  anti_affinity = none;
  values = [];
  failed_job_ttl = none;
  priority = pos 0;
}

abbrev pub release : Release
release = record {
  meta = meta (lit "rel") false;
  spec = release_spec;
  conditions = [];
  effective_unique_name = [];
}

abbrev pub version : ComponentVersion
version = record {
  meta = meta (lit "cv") false;
  component_ref = lit "comp";
  tag = lit "v1";
  resources = [];
  entrypoint = record { resource_name = lit "chart"; entrypoint_type = lit "helm" };
}

abbrev pub binding : ReleaseBinding
binding = record {
  meta = meta (lit "b") false;
  target_ref = lit "t";
  target_namespace = [];
  release_ref = lit "rel";
}

abbrev pub task_spec : RenderTaskSpec
task_spec = record {
  config = bootstrap_config (record {
    chart = record { name = []; description = []; version = []; app_version = [] };
    input = record { releases = []; userdata = [] };
  });
  repository = lit "ns/chart";
  tag = lit "v1";
  base_url = lit "reg.io";
  plain_http = true;
  push_secret_ref = some (lit "push");
  failed_job_ttl = some (pos 60);
  owner_name = lit "t";
  owner_namespace = lit "ns";
  owner_kind = lit "Target";
}

abbrev pub task : RenderTask
task = record {
  meta = meta (lit "rt") false;
  spec = task_spec;
  conditions = [];
  job_ref = none;
  config_secret_ref = none;
  chart_url = [];
}

abbrev pub secret : Str → Secret
secret secret_type = record {
  meta = meta (lit "push") false;
  annotations = [];
  secret_type = secret_type;
  data_entries = [];
}

abbrev pub failed_at : Condition
failed_at = record {
  condition_type = lit "JobFailed";
  status = true;
  observed_generation = 1;
  reason = lit "JobFailed";
  message = [];
  last_transition_time = 5000000000;
}
