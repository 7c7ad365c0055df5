-- ===== src/Controller/RenderTasks/Cleanup.antt =====
-- The clean-up of a render task's secret and job, behind a job that has ended.
use solution_arsenal.Prelude.{◌≡◌, ◌⊎◌, refl, inl, true, none, ◌∷◌, Memᴰ, Result, ok, err, ltb}
use solution_arsenal.Api.{RenderTask, Job}
use solution_arsenal.Cluster.{secrets, jobs, NamespacedName, Error, Answer, get, delete}
use solution_arsenal.Cluster.Safe.{History, Policy, Safe, call-Safe, done-Safe, stop-Safe}
use solution_arsenal.Controller.Steps.{Anything}
use solution_arsenal.Controller.Rules.{then-Safe}
use solution_arsenal.Controller.Targets.Rules.{ignore_error-Safe}
use solution_arsenal.Controller.RenderTasks.{
  RenderTaskReconciler, config_secret_key, render_job_key,
}
use solution_arsenal.Controller.RenderTasks.Reconcile.{
  config_secret_or, delete_config_secret, render_job_or, delete_render_job, deletion_or,
  cleanup_secrets, cleanup_render_resources,
}
use solution_arsenal.Controller.RenderTasks.Creation.{Open}
use solution_arsenal.Controller.RenderTasks.Policy.{
  IsJob, RenderTaskPolicy, reads, drops_secret, drops_job, IsOpen-Extends, IsJob-Extends,
}

module _ (r : RenderTaskReconciler) (req : NamespacedName) where
  abbrev P : Policy
  P = RenderTaskPolicy r req

  -- The clean-up, behind a job that has ended.
  module _ (res : RenderTask) (ended : Job) where
    deletion-Safe :
        (c : Result Error (Unit {0})) (h : History)
        → Safe P Anything Anything h (deletion_or r res c)
    deletion-Safe (ok tt) h = done-Safe P Anything Anything h none tt
    deletion-Safe (err e) h = stop-Safe P Anything Anything h _ tt

    abbrev HasEnded : Type 0
    HasEnded = (ltb 0 ended.status.succeeded ≡ true) ⊎ (ltb 0 ended.status.failed ≡ true)

    delete_config_secret-Safe :
        (h : History)
        → Open r req h res
        → IsJob r req h ended
        → HasEnded
        → Safe P Anything Anything h (delete_config_secret r res)
    unfolding delete_config_secret
    delete_config_secret-Safe h i j y =
        call-Safe P Anything Anything (get secrets (config_secret_key r res)) _ h (reads secrets _)
          answered
      where
        answered :
            (a : Answer (get secrets (config_secret_key r res)))
            → Safe P Anything Anything
                ((get secrets (config_secret_key r res), a) ∷ h)
                (config_secret_or r res a)
        answered (ok secret) =
            call-Safe P Anything Anything (delete secrets secret) _ _
              (drops_secret res secret ended (IsOpen-Extends r req h _ (λ _ m. Memᴰ.tail m) res i)
                (Memᴰ.head refl) (IsJob-Extends r req h _ (λ _ m. Memᴰ.tail m) ended j) y)
              (λ c. deletion-Safe c _)
        answered (err e) = stop-Safe P Anything Anything _ _ tt

    delete_render_job-Safe :
        (h : History)
        → Open r req h res
        → IsJob r req h ended
        → ltb 0 ended.status.succeeded ≡ true
        → Safe P Anything Anything h (delete_render_job r res)
    unfolding delete_render_job
    delete_render_job-Safe h i j y =
        call-Safe P Anything Anything (get jobs (render_job_key r res)) _ h (reads jobs _) answered
      where
        answered :
            (a : Answer (get jobs (render_job_key r res)))
            → Safe P Anything Anything
                ((get jobs (render_job_key r res), a) ∷ h)
                (render_job_or r res a)
        answered (ok job) =
            call-Safe P Anything Anything (delete jobs job) _ _
              (drops_job res job ended (IsOpen-Extends r req h _ (λ _ m. Memᴰ.tail m) res i)
                (Memᴰ.head refl) (IsJob-Extends r req h _ (λ _ m. Memᴰ.tail m) ended j) y)
              (λ c. deletion-Safe c _)
        answered (err e) = stop-Safe P Anything Anything _ _ tt

    pub cleanup_secrets-Safe :
        (h : History)
        → Open r req h res
        → IsJob r req h ended
        → HasEnded
        → Safe P Anything Anything h (cleanup_secrets r res)
    unfolding cleanup_secrets
    cleanup_secrets-Safe h i j y =
        ignore_error-Safe P P Anything r.settings (delete_config_secret r res) h
          (delete_config_secret-Safe h i j y) (λ _ _ _ p. p)

    pub cleanup_render_resources-Safe :
        (h : History)
        → Open r req h res
        → IsJob r req h ended
        → ltb 0 ended.status.succeeded ≡ true
        → Safe P Anything Anything h (cleanup_render_resources r res)
    unfolding cleanup_render_resources
    cleanup_render_resources-Safe h i j y =
        then-Safe P Anything Anything _ _ h (cleanup_secrets-Safe h i j (inl y)) (λ h' _ x _.
          ignore_error-Safe P P Anything r.settings (delete_render_job r res) h'
            (delete_render_job-Safe h' (IsOpen-Extends r req h h' x res i)
              (IsJob-Extends r req h h' x ended j) y)
            (λ _ _ _ p. p))
