-- ===== src/Controller/RenderTasks/Creation.antt =====
-- What the RenderTask controller makes, it makes by its policy.
use solution_arsenal.Prelude.{◌≡◌, refl, Option, none, some, ◌∷◌, Memᴰ, Result, ok, err}
use solution_arsenal.Str.{Str}
use solution_arsenal.Api.{RenderTask, Secret, Job, ObjectMeta}
use solution_arsenal.Cluster.{
  secrets, jobs, render_tasks, NamespacedName, Error, Answer, create, update_status,
}
use solution_arsenal.Cluster.Safe.{History, Policy, Safe, call-Safe, done-Safe, stop-Safe}
use solution_arsenal.Controller.Targets.{new_meta}
use solution_arsenal.Controller.RenderTasks.{
  RenderTaskReconciler, config_secret_key, render_job_key,
}
use solution_arsenal.Controller.RenderTasks.Pods.{job_of}
use solution_arsenal.Controller.RenderTasks.Reconcile.{
  Created, Started, secret_noted_or, secret_created_or, secret_owned_or, marshalled_or,
  create_config_secret, job_noted_or, job_created_or, job_owned_or, create_render_job,
}
use solution_arsenal.Controller.RenderTasks.Policy.{
  IsOpen, was_updated, was_noted, IsMissing, IsConfig, was_made, RenderTaskPolicy, sets_status,
  makes_secret, makes_job, IsOpen-Extends, IsConfig-Extends,
}

module _ (r : RenderTaskReconciler) (req : NamespacedName) where
  abbrev P : Policy
  P = RenderTaskPolicy r req

  abbrev pub Open : History → RenderTask → Type 0
  Open = IsOpen r req

  abbrev pub Configured : History → Option Secret → Type 0
  Configured h none = Unit
  Configured h (some s) = IsConfig r req h s

  abbrev pub AfterCreation : History → Created → Type 0
  AfterCreation h c = Configured h c.0 × Open h c.2

  abbrev pub AfterStart : History → Started → Type 0
  AfterStart h c = Open h c.1

  module _ (res : RenderTask) where
    secret_noted-Safe :
        (secret : Secret) (res' : RenderTask) (h : History)
        (a : Answer (update_status render_tasks res'))
        → Open h res'
        → IsConfig r req h secret
        → Safe P AfterCreation AfterCreation
            ((update_status render_tasks res', a) ∷ h)
            (secret_noted_or r res secret res' a)
    secret_noted-Safe secret res' h (ok latest) i c = done-Safe P AfterCreation AfterCreation _ _ (
      IsConfig-Extends r req h _ (λ _ m. Memᴰ.tail m) secret c,
      was_updated res' latest (Memᴰ.head refl),
    )
    secret_noted-Safe secret res' h (err e) i c =
        stop-Safe P AfterCreation AfterCreation _ _
          (tt, IsOpen-Extends r req h _ (λ _ m. Memᴰ.tail m) res' i)

    secret_created-Safe :
        (o : Secret) (h : History) (a : Answer (create secrets o))
        → Open h res
        → Memᴰ (create secrets o, a) h
        → Safe P AfterCreation AfterCreation h (secret_created_or r res a)
    secret_created-Safe o h (ok secret) i m =
        call-Safe P AfterCreation AfterCreation (update_status render_tasks _) _ h
          (sets_status _ (was_noted res _ i refl refl))
          (λ a. secret_noted-Safe secret _ h a (was_noted res _ i refl refl) (was_made o m))
    secret_created-Safe o h (err e) i m = stop-Safe P AfterCreation AfterCreation h _ (tt, i)

    abbrev secret_meta : ObjectMeta
    secret_meta = new_meta (config_secret_key r res).namespace (config_secret_key r res).name

    secret_owned-Safe :
        (cfg_json : Str) (owned : Result Error ObjectMeta) (h : History)
        → Open h res
        → IsMissing r req h secrets (config_secret_key r res)
        → r.marshal res.spec.config ≡ ok cfg_json
        → r.set_controller_reference res.meta secret_meta ≡ owned
        → Safe P AfterCreation AfterCreation h (secret_owned_or r res cfg_json owned)
    secret_owned-Safe cfg_json (ok meta) h i n e f =
        call-Safe P AfterCreation AfterCreation (create secrets _) _ h
          (makes_secret res cfg_json meta i n e f)
          (λ a.
            secret_created-Safe _ _ a (IsOpen-Extends r req h _ (λ _ m. Memᴰ.tail m) res i)
              (Memᴰ.head refl))
    secret_owned-Safe cfg_json (err x) h i n e f =
        stop-Safe P AfterCreation AfterCreation h _ (tt, i)

    marshalled-Safe :
        (marshalled : Result Error Str) (h : History)
        → Open h res
        → IsMissing r req h secrets (config_secret_key r res)
        → r.marshal res.spec.config ≡ marshalled
        → Safe P AfterCreation AfterCreation h (marshalled_or r res marshalled)
    marshalled-Safe (ok cfg_json) h i n e = secret_owned-Safe cfg_json _ h i n e refl
    marshalled-Safe (err x) h i n e = stop-Safe P AfterCreation AfterCreation h _ (tt, i)

    pub create_config_secret-Safe :
        (h : History)
        → Open h res
        → IsMissing r req h secrets (config_secret_key r res)
        → Safe P AfterCreation AfterCreation h (create_config_secret r res)
    unfolding create_config_secret
    create_config_secret-Safe h i n = marshalled-Safe _ h i n refl

    job_noted-Safe :
        (res' : RenderTask) (h : History) (a : Answer (update_status render_tasks res'))
        → Open h res'
        → Safe P AfterStart AfterStart
            ((update_status render_tasks res', a) ∷ h)
            (job_noted_or r res res' a)
    job_noted-Safe res' h (ok latest) i =
        done-Safe P AfterStart AfterStart _ _ (was_updated res' latest (Memᴰ.head refl))
    job_noted-Safe res' h (err e) i =
        stop-Safe P AfterStart AfterStart _ _ (IsOpen-Extends r req h _ (λ _ m. Memᴰ.tail m) res' i)

    job_created-Safe :
        (o : Job) (h : History) (a : Answer (create jobs o))
        → Open h res
        → Safe P AfterStart AfterStart h (job_created_or r res a)
    job_created-Safe o h (ok job) i =
        call-Safe P AfterStart AfterStart (update_status render_tasks _) _ h
          (sets_status _ (was_noted res _ i refl refl))
          (λ a. job_noted-Safe _ h a (was_noted res _ i refl refl))
    job_created-Safe o h (err e) i = stop-Safe P AfterStart AfterStart h _ i

    module _ (config_secret : Secret) (push_secret : Option Secret) where
      abbrev wanted : Job
      wanted = job_of r res (render_job_key r res) config_secret push_secret

      job_owned-Safe :
          (owned : Result Error ObjectMeta) (h : History)
          → Open h res
          → IsMissing r req h jobs (render_job_key r res)
          → IsConfig r req h config_secret
          → r.set_controller_reference res.meta wanted.meta ≡ owned
          → Safe P AfterStart AfterStart h (job_owned_or r res wanted owned)
      job_owned-Safe (ok meta) h i n c e =
          call-Safe P AfterStart AfterStart (create jobs _) _ h
            (makes_job res config_secret push_secret meta i n c e)
            (λ a.
              job_created-Safe (record wanted { meta = meta }) _ a
                (IsOpen-Extends r req h _ (λ _ m. Memᴰ.tail m) res i))
      job_owned-Safe (err x) h i n c e = stop-Safe P AfterStart AfterStart h _ i

      pub create_render_job-Safe :
          (h : History)
          → Open h res
          → IsMissing r req h jobs (render_job_key r res)
          → IsConfig r req h config_secret
          → Safe P AfterStart AfterStart h (create_render_job r res config_secret push_secret)
      unfolding create_render_job
      create_render_job-Safe h i n c = job_owned-Safe _ h i n c refl
