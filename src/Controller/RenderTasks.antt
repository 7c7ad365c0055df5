-- ===== src/Controller/RenderTasks.antt =====
-- RenderTaskReconciler (rendertask_controller.go): a job renders the chart of a task, from a secret
-- with the task's configuration. SetControllerReference and json.Marshal are fields of the
-- reconciler's record, since their code is not in this repository.
pub mod Pods
pub mod Statuses
pub mod Reconcile
pub mod Policy
pub mod Creation
pub mod Cleanup
pub mod Safety
pub mod Wiring
pub mod Ttl
use solution_arsenal.Prelude.{Option, List, Result, ◌++◌, if◌then◌else◌}
use solution_arsenal.Str.{Str, lit, has_prefix, trim_suffix_byte}
use solution_arsenal.Names.{truncate_name, oci_scheme}
use solution_arsenal.Api.{ObjectMeta, RenderTask, RendererConfig}
use solution_arsenal.Cluster.{NamespacedName, Error}
use solution_arsenal.Controller.{Settings}
use solution_arsenal.Controller.Libraries.{Libraries}

pub record RenderTaskReconciler : Type 0 where
  pub settings : Settings
  pub lib : Libraries
  pub renderer_image : Str
  pub renderer_command : Str
  pub renderer_args : List Str
  pub renderer_ca_config_map : Str
  pub renderer_image_pull_secrets : List Str
  -- the owner, and the object that gets the reference
  pub set_controller_reference : ObjectMeta → ObjectMeta → Result Error ObjectMeta
  pub marshal : RendererConfig → Result Error Str

unfoldable pub reference : (base_url repo tag : Str) → Str
reference base_url repo tag =
    let base = if has_prefix base_url oci_scheme then base_url else oci_scheme ++ base_url in
    trim_suffix_byte 47 base ++ lit "/" ++ repo ++ lit ":" ++ tag

module _ (r : RenderTaskReconciler) (res : RenderTask) where
  -- The name of the task's secret and of its job, in the task's namespace: 63 bytes at most.
  unfoldable pub config_secret_key : NamespacedName
  unfolding truncate_name
  config_secret_key = record {
    namespace = res.meta.namespace;
    name = truncate_name r.lib.sha256 (lit "render-" ++ res.meta.name) 63;
  }

  unfoldable pub render_job_key : NamespacedName
  unfolding truncate_name
  render_job_key = record {
    namespace = res.meta.namespace;
    name = truncate_name r.lib.sha256 (lit "render-" ++ res.meta.name) 63;
  }
