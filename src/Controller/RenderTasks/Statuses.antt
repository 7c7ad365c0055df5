-- ===== src/Controller/RenderTasks/Statuses.antt =====
-- What a render task's status says of its job, and when its secrets are cleaned up
-- (updateResourceStatusFromJob, shouldCleanupSecrets and remainingTTL).
use solution_arsenal.Prelude.{
  ℕ, suc, ◌+◌, ◌-◌, ◌*◌, Bool, true, false, ◌||◌, not, Option, none, some, ◌++◌, ltb, leb,
  if◌then◌else◌,
}
use solution_arsenal.Str.{Str, lit, str_eq}
use solution_arsenal.Str.Decimal.{decimal}
use solution_arsenal.Api.{RenderTask, JobStatus, Condition}
use solution_arsenal.Api.Integer.{ℤ, pos, negsuc}
use solution_arsenal.Controller.Targets.Render.{job_failed, job_succeeded}
use solution_arsenal.Controller.RenderTasks.{RenderTaskReconciler, reference}

abbrev pub job_scheduled : Str
job_scheduled = lit "JobScheduled"

abbrev pub task_condition : RenderTask → Str → Bool → (reason message : Str) → Condition
task_condition res condition_type status reason message = record {
  condition_type = condition_type;
  status = status;
  observed_generation = res.meta.generation;
  reason = reason;
  message = message;
  last_transition_time = 0;
}

-- A second, in nanoseconds.
abbrev pub second : ℕ
second = 1000000000

-- time.Since(since) >= ttl * time.Second
abbrev pub has_lasted : (since now : ℕ) → ℤ → Bool
has_lasted since now (pos n) = leb (since + n * second) now
has_lasted since now (negsuc n) = leb since (now + suc n * second)

unfoldable pub should_cleanup_secrets : Option Condition → ℕ → ℤ → Bool
should_cleanup_secrets none now ttl = false
should_cleanup_secrets (some cond) now ttl = has_lasted cond.last_transition_time now ttl

-- remainingTTL + time.Second, where a negative delay is none.
unfoldable pub cleanup_delay : Option Condition → ℕ → ℤ → ℕ
cleanup_delay none now (pos n) = n * second + second
cleanup_delay none now (negsuc n) = 0
cleanup_delay (some cond) now (pos n) = ((cond.last_transition_time + n * second) - now) + second
cleanup_delay (some cond) now (negsuc n) =
    (cond.last_transition_time - (now + suc n * second)) + second

module _ (r : RenderTaskReconciler) (res : RenderTask) where
  abbrev pub set_status : Str → Bool → (reason message : Str) → RenderTask × Bool
  set_status condition_type status reason message =
      let (conditions, changed) =
        r.lib.set_status_condition res.conditions
          (task_condition res condition_type status reason message) in
      (record res { conditions = conditions }, changed)

  abbrev pub running_message : JobStatus → Str
  running_message status =
      lit "Renderer job is running (active: "
      ++ decimal status.active
      ++ lit ", succeeded: "
      ++ decimal status.succeeded
      ++ lit ", failed: "
      ++ decimal status.failed
      ++ lit ")"

  abbrev pub chart_url_of : Str
  chart_url_of = reference res.spec.base_url res.spec.repository res.spec.tag

  -- The task with its status, by that of its job (`none` where the job is nil), and whether that has changed.
  unfoldable pub update_resource_status_from_job : Option JobStatus → RenderTask × Bool
  update_resource_status_from_job none =
      set_status job_scheduled false (lit "DoesNotExist") (lit "Renderer job does not exist")
  update_resource_status_from_job (some status) =
      if ltb 0 status.succeeded
      then (let (latest, changed) =
            set_status job_succeeded true (lit "JobSucceeded")
              (lit "Renderer job completed successfully at " ++ status.completion_time) in
          (
            record latest { chart_url = chart_url_of },
            changed || not (str_eq res.chart_url chart_url_of),
          ))
      else if ltb 0 status.failed
      then set_status job_failed true (lit "JobFailed") (lit "Renderer job failed")
      else set_status job_scheduled true (lit "JobScheduled") (running_message status)
