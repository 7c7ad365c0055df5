-- ===== src/Controller/RenderTasks/Safety.antt =====
-- The RenderTask controller keeps to its policy.
use solution_arsenal.Prelude.{
  refl, inl, inr, Bool, Bool-cases, Option, none, some, [], ◌∷◌, Memᴰ, ltb,
}
use solution_arsenal.Str.{Str}
use solution_arsenal.Api.{RenderTask, Secret, Job, JobStatus}
use solution_arsenal.Cluster.{secrets, jobs, render_tasks, NamespacedName, get, update_status}
use solution_arsenal.Cluster.Safe.{History, Event, Policy, Safe, Extends, done-Safe, stop-Safe}
use solution_arsenal.Controller.{returns}
use solution_arsenal.Controller.Steps.{Anything, attempt-Safe, if-Safe, with_object-Safe}
use solution_arsenal.Controller.Rules.{find-Missing, then-Safe, returned-then-Safe, attempt-ends}
use solution_arsenal.Controller.Targets.Render.{job_succeeded}
use solution_arsenal.Controller.RenderTasks.{
  RenderTaskReconciler, config_secret_key, render_job_key,
}
use solution_arsenal.Controller.RenderTasks.Pods.{ttl_of, idle_status}
use solution_arsenal.Controller.RenderTasks.Statuses.{
  update_resource_status_from_job, should_cleanup_secrets,
}
use solution_arsenal.Controller.RenderTasks.Reconcile.{
  is_complete, Created, Started, created_or, ensure_config_secret, push_secret_at, get_push_secret,
  started_or, start_job, ensure_render_job, failed_condition, settle, save_status, render,
  reconcile_render_task,
}
use solution_arsenal.Controller.RenderTasks.Cleanup.{
  cleanup_secrets-Safe, cleanup_render_resources-Safe,
}
use solution_arsenal.Controller.RenderTasks.Creation.{
  Open, Configured, AfterCreation, AfterStart, create_config_secret-Safe, create_render_job-Safe,
}
use solution_arsenal.Controller.RenderTasks.Policy.{
  was_read, was_updated, was_noted, IsMissing, was_got, IsJob, RenderTaskPolicy, reads, sets_status,
  IsOpen-Extends, IsConfig-Extends, IsJob-Extends,
}

module _ (r : RenderTaskReconciler) (req : NamespacedName) where
  abbrev P : Policy
  P = RenderTaskPolicy r req

  -- The task with its configuration secret.
  abbrev ReadyToStart : History → Option Secret × RenderTask → Type 0
  ReadyToStart h c = Configured r req h c.0 × Open r req h c.1

  created-Safe :
      (c : Created) (h : History)
      → AfterCreation r req h c
      → Safe P ReadyToStart Anything h (created_or r c)
  created-Safe (secret, some e, res) h t = stop-Safe P ReadyToStart Anything h _ tt
  created-Safe (secret, none, res) h t = done-Safe P ReadyToStart Anything h _ t

  ensure_config_secret-Safe :
      (res : RenderTask) (h : History)
      → Open r req h res
      → Safe P ReadyToStart Anything h (ensure_config_secret r res)
  unfolding ensure_config_secret
  ensure_config_secret-Safe res h i =
      find-Missing returns r.settings P ReadyToStart secrets (config_secret_key r res) _ _ h
        (reads secrets (config_secret_key r res))
        (λ secret.
          done-Safe P ReadyToStart Anything _ _
            (was_got res (later _ i) (Memᴰ.head refl), later _ i))
        (λ e n.
          returned-then-Safe P (AfterCreation r req) ReadyToStart _ _ _
            (create_config_secret-Safe r req res _ (later _ i)
              (record { error = e; not_there = n; answered = Memᴰ.head refl }))
            (λ h' c _ t. created-Safe c h' t))
    where
      later : (e : Event) → Open r req h res → Open r req (e ∷ h) res
      later e i = IsOpen-Extends r req h _ (λ _ m. Memᴰ.tail m) res i

  push_secret_at-Safe :
      (res : RenderTask) (name : Option Str) (h : History)
      → Safe P Anything Anything h (push_secret_at r res name)
  push_secret_at-Safe res none h = done-Safe P Anything Anything h none tt
  push_secret_at-Safe res (some name) h =
      attempt-Safe returns r.settings P Anything (get secrets _) _ _ h (reads secrets _)
        (λ secret. done-Safe P Anything Anything _ _ tt)

  get_push_secret-Safe :
      (res : RenderTask) (h : History) → Safe P Anything Anything h (get_push_secret r res)
  unfolding get_push_secret
  get_push_secret-Safe res h = push_secret_at-Safe res res.spec.push_secret_ref h

  -- The status is the empty job's or that of a job of the task that was read.
  data IsStatus (res₀ : RenderTask) (h : History) : JobStatus → Type 0 where
    of_none : IsStatus res₀ h (idle_status r res₀)
    of_job : (job : Job) → IsJob r req h job → IsStatus res₀ h job.status

  IsStatus-Extends :
      (res₀ : RenderTask) (h h' : History) (status : JobStatus)
      → Extends h h'
      → IsStatus res₀ h status
      → IsStatus res₀ h' status
  IsStatus-Extends res₀ h h' _ x of_none = of_none
  IsStatus-Extends res₀ h h' _ x (of_job job j) = of_job job (IsJob-Extends r req h h' x job j)

  abbrev Reported : RenderTask → History → RenderTask × JobStatus → Type 0
  Reported res₀ h s = Open r req h s.0 × IsStatus res₀ h s.1

  started-Safe :
      (s : Started) (h : History)
      → AfterStart r req h s
      → Safe P (Open r req) Anything h (started_or r s)
  started-Safe (some e, res) h i = stop-Safe P (Open r req) Anything h _ tt
  started-Safe (none, res) h i = done-Safe P (Open r req) Anything h res i

  start_job-Safe :
      (res : RenderTask) (config_secret push_secret : Option Secret) (h : History)
      → Open r req h res
      → IsMissing r req h jobs (render_job_key r res)
      → Configured r req h config_secret
      → Safe P (Open r req) Anything h (start_job r res config_secret push_secret)
  start_job-Safe res none push_secret h i n c = stop-Safe P (Open r req) Anything h _ tt
  start_job-Safe res (some config_secret) push_secret h i n c =
      returned-then-Safe P (AfterStart r req) (Open r req) _ _ h
        (create_render_job-Safe r req res config_secret push_secret h i n c)
        (λ h' s _ t. started-Safe s h' t)

  Configured-Extends :
      (h h' : History) (s : Option Secret)
      → Extends h h'
      → Configured r req h s
      → Configured r req h' s
  Configured-Extends h h' none x c = tt
  Configured-Extends h h' (some s) x c = IsConfig-Extends r req h h' x s c

  ensure_render_job-Safe :
      (res : RenderTask) (config_secret push_secret : Option Secret) (h : History)
      → Open r req h res
      → Configured r req h config_secret
      → Safe P (Reported res) Anything h (ensure_render_job r res config_secret push_secret)
  unfolding ensure_render_job
  ensure_render_job-Safe res config_secret push_secret h i c =
      find-Missing returns r.settings P (Reported res) jobs (render_job_key r res) _ _ h
        (reads jobs (render_job_key r res))
        (λ job. done-Safe P (Reported res) Anything _ _ (
          later _,
          of_job job (record { res = res; res_open = later _; job_read = Memᴰ.head refl }),
        ))
        (λ e n.
          then-Safe P (Open r req) (Reported res) _ _ _
            (start_job-Safe res config_secret push_secret _ (later _)
              (record { error = e; not_there = n; answered = Memᴰ.head refl })
              (Configured-Extends h _ config_secret (λ _ m. Memᴰ.tail m) c))
            (λ h' latest _ i'. done-Safe P (Reported res) Anything h' _ (i', of_none)))
    where
      later : (e : Event) → Open r req (e ∷ h) res
      later e = IsOpen-Extends r req h _ (λ _ m. Memᴰ.tail m) res i

  settle-Safe :
      (res₀ res : RenderTask) (status : JobStatus) (h : History)
      → Open r req h res
      → IsStatus res₀ h status
      → Safe P Anything Anything h (settle r res status)
  unfolding settle
  settle-Safe res₀ res _ h i of_none = done-Safe P Anything Anything h (returns none) tt
  settle-Safe res₀ res _ h i (of_job job j) =
      if-Safe returns r.settings P Anything (ltb 0 job.status.succeeded) _ _ h
        (λ y.
          then-Safe P Anything Anything _ _ h (cleanup_render_resources-Safe r req res job h i j y)
            (λ h' _ _ _. done-Safe P Anything Anything h' (returns none) tt))
        (λ _.
          if-Safe returns r.settings P Anything (ltb 0 job.status.failed) _ _ h
            (λ y.
              if-Safe returns r.settings P Anything
                (should_cleanup_secrets (failed_condition r res) r.lib.now
                  (ttl_of res.spec.failed_job_ttl))
                _ _ h
                (λ _.
                  then-Safe P Anything Anything _ _ h
                    (cleanup_secrets-Safe r req res job h i j (inr y))
                    (λ h' _ _ _. done-Safe P Anything Anything h' (returns none) tt))
                (λ _. done-Safe P Anything Anything h _ tt))
            (λ _. done-Safe P Anything Anything h (returns none) tt))

  save_status-Safe :
      (u : RenderTask × Bool) (h : History)
      → Open r req h u.0
      → Safe P (Open r req) Anything h (save_status r u)
  save_status-Safe (res, changed) h i =
      if-Safe returns r.settings P (Open r req) changed _ _ h
        (λ _.
          attempt-ends returns r.settings P (update_status render_tasks res) (Open r req) _ h
            (sets_status res i) (λ latest. was_updated res latest (Memᴰ.head refl)))
        (λ _. done-Safe P (Open r req) Anything h res i)

  -- The status that is reported leaves the task's metadata and spec alone.
  noted-IsOpen :
      (res : RenderTask) (status : JobStatus) (h : History)
      → Open r req h res
      → Open r req h (update_resource_status_from_job r res (some status)).0
  unfolding update_resource_status_from_job
  noted-IsOpen res status h i = elim (Bool-cases (ltb 0 status.succeeded)) [
    | inl y ↦ rw y (was_noted res _ i refl refl)
    | inr n ↦ elim (Bool-cases (ltb 0 status.failed)) [
      | inl y ↦ rw (n, y) (was_noted res _ i refl refl)
      | inr m ↦ rw (n, m) (was_noted res _ i refl refl)
    ]
  ]

  render-Safe :
      (res : RenderTask) (h : History)
      → Open r req h res
      → Safe P Anything Anything h (render r res)
  unfolding render
  render-Safe res h i =
      then-Safe P ReadyToStart Anything _ _ h (ensure_config_secret-Safe res h i) (λ h1 c x1 t.
        then-Safe P Anything Anything _ _ h1 (get_push_secret-Safe c.1 h1) (λ h2 p x2 _.
          then-Safe P (Reported c.1) Anything _ _ h2
            (ensure_render_job-Safe c.1 c.0 p h2 (IsOpen-Extends r req h1 h2 x2 c.1 t.1)
              (Configured-Extends h1 h2 c.0 x2 t.0))
            (λ h3 s x3 u.
              then-Safe P (Open r req) Anything _ _ h3
                (save_status-Safe _ h3 (noted-IsOpen s.0 s.1 h3 u.0))
                (λ h4 latest x4 k.
                  settle-Safe c.1 latest s.1 h4 k (IsStatus-Extends c.1 h3 h4 s.1 x4 u.1)))))

  -- Whatever the API server answers, the RenderTask controller leaves a task alone that is being
  -- deleted or has been rendered in its generation; for another one it makes the secret and the job
  -- that are missing, owned by the task, writes the task's status, and deletes the secret only when a
  -- job of the task has ended, and the job only when one has succeeded.
  pub reconcile_render_task-Safe :
      Safe (RenderTaskPolicy r req) Anything Anything [] (reconcile_render_task r req)
  unfolding reconcile_render_task
  reconcile_render_task-Safe =
      with_object-Safe P Anything r.settings render_tasks req _ _ (reads render_tasks req) (λ res.
        if-Safe returns r.settings P Anything res.meta.deleting _ _ _
          (λ _. done-Safe P Anything Anything _ (returns none) tt)
          (λ d.
            if-Safe returns r.settings P Anything
              (is_complete res (r.lib.find_status_condition res.conditions job_succeeded)) _ _ _
              (λ _. done-Safe P Anything Anything _ (returns none) tt)
              (λ c. render-Safe res _ (was_read res (Memᴰ.head refl) d c))))
