-- ===== src/Controller/RenderTasks/Reconcile.antt =====
-- RenderTaskReconciler.Reconcile (rendertask_controller.go), put together from its parts.
use solution_arsenal.Prelude.{
  Bool, false, ◌&&◌, Option, none, some, [], ◌∷◌, Result, ok, err, ltb, leb, if◌then◌else◌,
}
use solution_arsenal.Str.{Str, lit}
use solution_arsenal.Api.{
  RenderTask, Secret, Job, JobStatus, ObjectMeta, ObjectReference, Condition,
}
use solution_arsenal.Cluster.{
  secrets, jobs, render_tasks, NamespacedName, Error, get, create, delete, update_status, Program,
  done, stop, call, and_then, returned, ◌>>=◌, ◌>>◌,
}
use solution_arsenal.Cluster.Errors.{err_log_and_wrap}
use solution_arsenal.Controller.{Outcome, returns, attempt, find, with_object}
use solution_arsenal.Controller.Targets.{new_meta}
use solution_arsenal.Controller.Targets.Conditions.{ignore_error}
use solution_arsenal.Controller.Targets.Specs.{new_error}
use solution_arsenal.Controller.Targets.Render.{job_failed, job_succeeded}
use solution_arsenal.Controller.RenderTasks.{
  RenderTaskReconciler, config_secret_key, render_job_key,
}
use solution_arsenal.Controller.RenderTasks.Pods.{job_of, ttl_of, idle_status}
use solution_arsenal.Controller.RenderTasks.Statuses.{
  update_resource_status_from_job, should_cleanup_secrets, cleanup_delay,
}

-- sc != nil && sc.ObservedGeneration >= res.Generation && sc.Status == metav1.ConditionTrue
abbrev pub is_complete : RenderTask → Option Condition → Bool
is_complete res none = false
is_complete res (some sc) = leb res.meta.generation sc.observed_generation && sc.status

abbrev pub annotation_secret_name : Str
annotation_secret_name = lit "solar.opendefense.cloud/secret-name"

abbrev pub config_secret_of : NamespacedName → Str → Secret
config_secret_of key cfg_json = record {
  meta = new_meta key.namespace key.name;
  annotations = (annotation_secret_name, key.name) ∷ [];
  secret_type = lit "Opaque";
  data_entries = (lit "config.json", cfg_json) ∷ [];
}

abbrev pub reference_to : (api_version kind : Str) → ObjectMeta → ObjectReference
reference_to api_version kind meta = record {
  api_version = api_version;
  kind = kind;
  namespace = meta.namespace;
  name = meta.name;
}

-- What createConfigSecret returns, and the task, which its status update changes.
abbrev pub Created : Type 0
Created = Option Secret × Option Error × RenderTask

-- The same of createRenderJob.
abbrev pub Started : Type 0
Started = Option Error × RenderTask

module _ (r : RenderTaskReconciler) where
  abbrev pub wrapped : Error → Str → Option Error
  wrapped e text = err_log_and_wrap r.settings.test_mode (some e) text

  module _ (res : RenderTask) where
    abbrev pub secret_noted_or :
        Secret → RenderTask → Result Error RenderTask → Program Created Created
    secret_noted_or secret res' (ok latest) = done (some secret, none, latest)
    secret_noted_or secret res' (err e) =
        stop (none, wrapped e (lit "failed to update status"), res')

    abbrev pub secret_created_or : Result Error Secret → Program Created Created
    secret_created_or (ok secret) =
        let res' = record res {
          config_secret_ref = some (reference_to (lit "v1") (lit "Secret") secret.meta);
        } in
        call (update_status render_tasks res') (secret_noted_or secret res')
    secret_created_or (err e) = stop (none, wrapped e (lit "secret creation failed"), res)

    abbrev pub secret_owned_or : Str → Result Error ObjectMeta → Program Created Created
    secret_owned_or cfg_json (ok meta) =
        call
          (create secrets
            (record (config_secret_of (config_secret_key r res) cfg_json) { meta = meta }))
          secret_created_or
    secret_owned_or cfg_json (err e) =
        stop (none, wrapped e (lit "failed to set controller reference"), res)

    abbrev pub marshalled_or : Result Error Str → Program Created Created
    marshalled_or (ok cfg_json) = secret_owned_or cfg_json (
        r.set_controller_reference res.meta
          (new_meta (config_secret_key r res).namespace (config_secret_key r res).name))
    marshalled_or (err e) = stop (none, some e, res)

    unfoldable pub create_config_secret : Program Created Created
    unfolding config_secret_key
    create_config_secret = marshalled_or (r.marshal res.spec.config)

    abbrev pub job_noted_or : RenderTask → Result Error RenderTask → Program Started Started
    job_noted_or res' (ok latest) = done (none, latest)
    job_noted_or res' (err e) = stop (wrapped e (lit "failed to update status"), res')

    abbrev pub job_created_or : Result Error Job → Program Started Started
    job_created_or (ok job) =
        let res' = record res {
          job_ref = some (reference_to (lit "batch/v1") (lit "Job") job.meta);
        } in
        call (update_status render_tasks res') (job_noted_or res')
    job_created_or (err e) = stop (wrapped e (lit "job creation failed"), res)

    abbrev pub job_owned_or : Job → Result Error ObjectMeta → Program Started Started
    job_owned_or job (ok meta) = call (create jobs (record job { meta = meta })) job_created_or
    job_owned_or job (err e) = stop (wrapped e (lit "failed to set controller reference"), res)

    unfoldable pub create_render_job : Secret → Option Secret → Program Started Started
    unfolding render_job_key job_of
    create_render_job config_secret push_secret =
        let job = job_of r res (render_job_key r res) config_secret push_secret in
        job_owned_or job (r.set_controller_reference res.meta job.meta)

    -- The clean-up, whose errors only make events.
    abbrev pub deletion_or : Result Error (Unit {0}) → Program (Option Error) (Option Error)
    deletion_or (ok _) = done none
    deletion_or (err e) = stop (some e)

    abbrev pub config_secret_or : Result Error Secret → Program (Option Error) (Option Error)
    config_secret_or (ok secret) = call (delete secrets secret) deletion_or
    config_secret_or (err e) = stop (some e)

    unfoldable pub delete_config_secret : Program (Option Error) (Option Error)
    unfolding config_secret_key
    delete_config_secret = call (get secrets (config_secret_key r res)) config_secret_or

    abbrev pub render_job_or : Result Error Job → Program (Option Error) (Option Error)
    render_job_or (ok job) = call (delete jobs job) deletion_or
    render_job_or (err e) = stop (some e)

    unfoldable pub delete_render_job : Program (Option Error) (Option Error)
    unfolding render_job_key
    delete_render_job = call (get jobs (render_job_key r res)) render_job_or

    unfoldable pub cleanup_secrets : Program Outcome Unit
    unfolding delete_config_secret ignore_error
    cleanup_secrets = ignore_error delete_config_secret

    unfoldable pub cleanup_render_resources : Program Outcome Unit
    unfolding cleanup_secrets delete_render_job ignore_error and_then
    cleanup_render_resources = do cleanup_secrets; ignore_error delete_render_job

  -- `if err != nil { return ctrlResult, errLogAndWrap(log, err, text) }` behind a creation
  abbrev pub created_or : Created → Program Outcome (Option Secret × RenderTask)
  created_or (secret, some e, res) = stop (returns (wrapped e (lit "failed to create secret")))
  created_or (secret, none, res) = done (secret, res)

  abbrev pub secret_or : RenderTask → Option Secret → Program Outcome (Option Secret × RenderTask)
  secret_or res (some secret) = done (some secret, res)
  secret_or res none = and_then (returned (create_config_secret res)) created_or

  unfoldable pub ensure_config_secret : RenderTask → Program Outcome (Option Secret × RenderTask)
  unfolding find create_config_secret returned and_then config_secret_key
  ensure_config_secret res = do
    found ← find returns r.settings secrets (config_secret_key r res) (lit "could not get secret")
    secret_or res found

  abbrev pub push_secret_at : RenderTask → Option Str → Program Outcome (Option Secret)
  push_secret_at res none = done none
  push_secret_at res (some name) = do
    secret ←
        attempt returns r.settings
          (get secrets (record { namespace = res.meta.namespace; name = name }))
          (lit "failed to get push secret")
    done (some secret)

  unfoldable pub get_push_secret : RenderTask → Program Outcome (Option Secret)
  unfolding attempt and_then
  get_push_secret res = push_secret_at res res.spec.push_secret_ref

  abbrev pub started_or : Started → Program Outcome RenderTask
  started_or (some e, res) = stop (returns (wrapped e (lit "failed to create job")))
  started_or (none, res) = done res

  -- A nil configuration secret is dereferenced: controller-runtime turns the panic into an error.
  abbrev pub panicked : Outcome
  panicked = returns (some (new_error (lit "panic: nil pointer dereference")))

  abbrev pub start_job : RenderTask → Option Secret → Option Secret → Program Outcome RenderTask
  start_job res none push_secret = stop panicked
  start_job res (some config_secret) push_secret =
      and_then (returned (create_render_job res config_secret push_secret)) started_or

  -- The status of the job that is there; a task whose job was started has the empty job's.
  abbrev pub job_or :
      RenderTask
      → Option Secret
      → Option Secret
      → Option Job
      → Program Outcome (RenderTask × JobStatus)
  job_or res config_secret push_secret (some job) = done (res, job.status)
  job_or res config_secret push_secret none =
      and_then (start_job res config_secret push_secret)
        (λ latest. done (latest, idle_status r res))

  unfoldable pub ensure_render_job :
      RenderTask → Option Secret → Option Secret → Program Outcome (RenderTask × JobStatus)
  unfolding find create_render_job returned and_then render_job_key
  ensure_render_job res config_secret push_secret = do
    found ← find returns r.settings jobs (render_job_key r res) (lit "could not get job")
    job_or res config_secret push_secret found

  abbrev pub failed_condition : RenderTask → Option Condition
  failed_condition res = r.lib.find_status_condition res.conditions job_failed

  -- The switch on the job's status.
  unfoldable pub settle : RenderTask → JobStatus → Program Outcome Outcome
  unfolding cleanup_secrets cleanup_render_resources should_cleanup_secrets cleanup_delay and_then
  settle res status =
      if ltb 0 status.succeeded
      then (do cleanup_render_resources res; done (returns none))
      else if ltb 0 status.failed
      then (if should_cleanup_secrets (failed_condition res) r.lib.now
            (ttl_of res.spec.failed_job_ttl)
          then (do cleanup_secrets res; done (returns none))
          else done (
            record {
              requeue_after =
                  cleanup_delay (failed_condition res) r.lib.now (ttl_of res.spec.failed_job_ttl);
            },
            none,
          ))
      else done (returns none)

  abbrev pub save_status : RenderTask × Bool → Program Outcome RenderTask
  save_status (res, changed) =
      if changed
      then attempt returns r.settings (update_status render_tasks res)
          (lit "failed to update status")
      else done res

  unfoldable pub render : RenderTask → Program Outcome Outcome
  unfolding ensure_config_secret get_push_secret ensure_render_job settle attempt and_then
      update_resource_status_from_job
  render res = do
    configured ← ensure_config_secret res
    push_secret ← get_push_secret configured.1
    started ← ensure_render_job configured.1 configured.0 push_secret
    latest ← save_status (update_resource_status_from_job r started.0 (some started.1))
    settle latest started.1

  unfoldable pub reconcile_render_task : NamespacedName → Program Outcome Outcome
  unfolding with_object render
  reconcile_render_task req =
      with_object r.settings render_tasks req (lit "failed to get object") (λ res.
        if res.meta.deleting
        then done (returns none)
        else if is_complete res (r.lib.find_status_condition res.conditions job_succeeded)
        then done (returns none)
        else render res)
