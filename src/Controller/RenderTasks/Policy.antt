-- ===== src/Controller/RenderTasks/Policy.antt =====
-- What the RenderTask controller may call, and when.
use solution_arsenal.Prelude.{◌≡◌, ◌⊎◌, true, false, Option, Memᴰ, ok, err, ltb}
use solution_arsenal.Str.{Str}
use solution_arsenal.Api.{RenderTask, Secret, Job, ObjectMeta}
use solution_arsenal.Cluster.{
  Kind, secrets, jobs, render_tasks, NamespacedName, Error, Call, get, create, delete,
  update_status,
}
use solution_arsenal.Cluster.Safe.{History, Extends}
use solution_arsenal.Cluster.Errors.{is_not_found}
use solution_arsenal.Controller.Targets.{new_meta}
use solution_arsenal.Controller.Targets.Render.{job_succeeded}
use solution_arsenal.Controller.RenderTasks.{
  RenderTaskReconciler, config_secret_key, render_job_key,
}
use solution_arsenal.Controller.RenderTasks.Pods.{job_of}
use solution_arsenal.Controller.RenderTasks.Reconcile.{is_complete, config_secret_of}

module _ (r : RenderTaskReconciler) (req : NamespacedName) (h : History) where
  -- A task that was read and is neither being deleted nor complete; as the API server has answered
  -- it since; or with another status.
  pub data IsOpen : RenderTask → Type 0 where
    was_read :
        (res : RenderTask)
        → Memᴰ (get render_tasks req, ok res) h
        → res.meta.deleting ≡ false
        → is_complete res (r.lib.find_status_condition res.conditions job_succeeded) ≡ false
        → IsOpen res
    was_updated : (o res : RenderTask) → Memᴰ (update_status render_tasks o, ok res) h → IsOpen res
    was_noted :
        (res latest : RenderTask)
        → IsOpen res
        → latest.meta ≡ res.meta
        → latest.spec ≡ res.spec
        → IsOpen latest

  -- The API server has answered that it is not there.
  pub record IsMissing (k : Kind) (n : NamespacedName) : Type 0 where
    pub error : Error
    pub not_there : is_not_found error ≡ true
    pub answered : Memᴰ (get k n, err error) h

  -- A configuration secret that was read, or made.
  pub data IsConfig (secret : Secret) : Type 0 where
    was_got :
        (res : RenderTask)
        → IsOpen res
        → Memᴰ (get secrets (config_secret_key r res), ok secret) h
        → IsConfig secret
    was_made : (o : Secret) → Memᴰ (create secrets o, ok secret) h → IsConfig secret

  -- The job of the task was read.
  pub record IsJob (job : Job) : Type 0 where
    pub res : RenderTask
    pub res_open : IsOpen res
    pub job_read : Memᴰ (get jobs (render_job_key r res), ok job) h

-- The controller makes a task's secret and its job only for a task that is open, where they are
-- missing, and with the task as their owner; it writes the task's status; and it deletes them only
-- when a job was read that has ended, the job itself only when it has succeeded.
pub data RenderTaskPolicy (r : RenderTaskReconciler) (req : NamespacedName) (h : History)
    : Call → Type 0 where
  reads : (k : Kind) (n : NamespacedName) → RenderTaskPolicy r req h (get k n)
  sets_status :
      (res : RenderTask)
      → IsOpen r req h res
      → RenderTaskPolicy r req h (update_status render_tasks res)
  makes_secret :
      (res : RenderTask) (cfg_json : Str) (meta : ObjectMeta)
      → IsOpen r req h res
      → IsMissing r req h secrets (config_secret_key r res)
      → r.marshal res.spec.config ≡ ok cfg_json
      → r.set_controller_reference res.meta
          (new_meta (config_secret_key r res).namespace (config_secret_key r res).name)
        ≡ ok meta
      → RenderTaskPolicy r req h (
          create secrets
            (record (config_secret_of (config_secret_key r res) cfg_json) { meta = meta }))
  makes_job :
      (res : RenderTask) (config_secret : Secret) (push_secret : Option Secret) (meta : ObjectMeta)
      → IsOpen r req h res
      → IsMissing r req h jobs (render_job_key r res)
      → IsConfig r req h config_secret
      → r.set_controller_reference res.meta
          (job_of r res (render_job_key r res) config_secret push_secret).meta
        ≡ ok meta
      → RenderTaskPolicy r req h (
          create jobs (record (job_of r res (render_job_key r res) config_secret push_secret) {
            meta = meta;
          }))
  drops_secret :
      (res : RenderTask) (secret : Secret) (job : Job)
      → IsOpen r req h res
      → Memᴰ (get secrets (config_secret_key r res), ok secret) h
      → IsJob r req h job
      → (ltb 0 job.status.succeeded ≡ true) ⊎ (ltb 0 job.status.failed ≡ true)
      → RenderTaskPolicy r req h (delete secrets secret)
  drops_job :
      (res : RenderTask) (job ended : Job)
      → IsOpen r req h res
      → Memᴰ (get jobs (render_job_key r res), ok job) h
      → IsJob r req h ended
      → ltb 0 ended.status.succeeded ≡ true
      → RenderTaskPolicy r req h (delete jobs job)

module _ (r : RenderTaskReconciler) (req : NamespacedName) (h h' : History) (x : Extends h h') where
  pub IsOpen-Extends : (res : RenderTask) → IsOpen r req h res → IsOpen r req h' res
  IsOpen-Extends _ (was_read res m d c) = was_read res (x _ m) d c
  IsOpen-Extends _ (was_updated o res m) = was_updated o res (x _ m)
  IsOpen-Extends _ (was_noted res latest i e f) = was_noted res latest (IsOpen-Extends res i) e f

  pub IsMissing-Extends :
      (k : Kind) (n : NamespacedName) → IsMissing r req h k n → IsMissing r req h' k n
  IsMissing-Extends k n m = record {
    error = m.error;
    not_there = m.not_there;
    answered = x _ m.answered;
  }

  pub IsConfig-Extends : (s : Secret) → IsConfig r req h s → IsConfig r req h' s
  IsConfig-Extends s (was_got res i m) = was_got res (IsOpen-Extends res i) (x _ m)
  IsConfig-Extends s (was_made o m) = was_made o (x _ m)

  pub IsJob-Extends : (job : Job) → IsJob r req h job → IsJob r req h' job
  IsJob-Extends job j = record {
    res = j.res;
    res_open = IsOpen-Extends j.res j.res_open;
    job_read = x _ j.job_read;
  }
