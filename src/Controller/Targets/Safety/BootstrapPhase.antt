-- ===== src/Controller/Targets/Safety/BootstrapPhase.antt =====
-- The bootstrap render task is made for rendered releases only; its chart is bound when it has
-- succeeded, and what is cleaned up then, the target owns.
use solution_arsenal.Prelude.{
  ℕ, ◌==◌, ◌≡◌, refl, true, Option, none, some, List, [], Memᴰ, Result, ok, err, and_left,
}
use solution_arsenal.Str.{Str}
use solution_arsenal.Api.{Target, Registry, RenderTask, RenderTaskSpec, BootstrapInput}
use solution_arsenal.Resolver.{ReleaseInfo}
use solution_arsenal.Cluster.{
  targets, render_tasks, render_bindings, NamespacedName, Error, Answer, get, create, update_status,
}
use solution_arsenal.Cluster.Safe.{History, Policy, Safe, call-Safe, done-Safe, stop-Safe}
use solution_arsenal.Cluster.Errors.{is_already_exists}
use solution_arsenal.Controller.{returns}
use solution_arsenal.Controller.Steps.{Anything, find-Safe, if-Safe}
use solution_arsenal.Controller.Rules.{then-Safe, attempt-ends}
use solution_arsenal.Controller.Targets.{
  tasks_of_targets, bindings_in, delete_stale_render_tasks, delete_stale_render_bindings,
}
use solution_arsenal.Controller.Targets.Deletes.{delete_listed-Safe}
use solution_arsenal.Controller.Targets.Owned.{is_stale_task, is_stale_binding}
use solution_arsenal.Controller.Targets.Ensures.{
  IsBound, IsBound-Extends, ensure_render_artifact-Creates, ensure_render_binding-Binds,
}
use solution_arsenal.Controller.Targets.Conditions.{TargetReconciler, ignore_error, bootstrap_ready}
use solution_arsenal.Controller.Targets.Render.{
  task_of, has_failed, has_succeeded, artifact_name_for, binding_name_for,
}
use solution_arsenal.Controller.Targets.Bootstrap.{
  input_of, in_30_seconds, bootstrap_name, compared_or, current_bootstrap, created_or_get, persist,
  spec_or_fail, make_bootstrap, made_or, bind_bootstrap, finish_bootstrap, bootstrap,
}
use solution_arsenal.Controller.Targets.Policy.{
  IsSeen, was_updated, IsRenderRegistry, IsTask, was_got, was_made, AllRendered, TargetPolicy,
  reads, sets_version, makes_bootstrap,
}
use solution_arsenal.Controller.Targets.Rules.{
  IsSeen-Extends, check_wrapped-Safe, ignore_error-Safe, set_condition-Safe, refuse_with-Safe,
}
use solution_arsenal.Controller.Targets.Later.{
  IsRenderRegistry-Extends, IsTask-Extends, AllRendered-Extends,
}
use solution_arsenal.Controller.Targets.Safety.DeletePhase.{cleans_tasks, cleans_bindings}
use solution_arsenal.Controller.Targets.Safety.RenderPhase.{may_bind, may_make_artifact}

module _ (r : TargetReconciler) (req : NamespacedName) where
  abbrev P : Policy
  P = TargetPolicy r req

  -- The clean-up of tasks and bindings that are not current.
  cleans_stale :
      (t : Target) (tasks bindings : List Str) (h : History)
      → IsSeen req h t
      → Safe P Anything Anything h (ignore_error (delete_stale_render_tasks t tasks))
        × Safe P Anything Anything h (ignore_error (delete_stale_render_bindings t bindings))
  unfolding delete_stale_render_tasks delete_stale_render_bindings
  cleans_stale t tasks bindings h i = (
    ignore_error-Safe P _ _ r.settings _ h
        (delete_listed-Safe render_tasks (is_stale_task t tasks) (tasks_of_targets t) h)
        (λ h' c x p.
          cleans_tasks r req t (is_stale_task t tasks) (λ rt y. and_left _ _ y) h' c
            (IsSeen-Extends req h h' t x i) p),
    ignore_error-Safe P _ _ r.settings _ h
        (delete_listed-Safe render_bindings (is_stale_binding t bindings) (bindings_in t) h)
        (λ h' c x p.
          cleans_bindings r req t (is_stale_binding t bindings) (λ b y. and_left _ _ y) h' c
            (IsSeen-Extends req h h' t x i) p),
  )

  module _ (registry : Registry) (infos : List ReleaseInfo) where
    module _ (target : Target) where
      abbrev FoundTask : History → Option RenderTask → Type 0
      FoundTask h none = Unit
      FoundTask h (some rt) = IsTask req h rt

      abbrev Found : History → ℕ × Option RenderTask → Type 0
      Found h current = FoundTask h current.1

      compared_or-Safe :
          (rt : RenderTask) (input : Result Error BootstrapInput) (h : History)
          → IsTask req h rt
          → Safe P Found Anything h (compared_or r target registry infos rt input)
      compared_or-Safe rt (err e) h t = stop-Safe P Found Anything h _ tt
      compared_or-Safe rt (ok input) h t =
          if-Safe returns r.settings P Found (r.lib.inputs_equal input (input_of rt)) _ _ h
            (λ _. done-Safe P Found Anything h _ t) (λ _. done-Safe P Found Anything h _ tt)

      current_bootstrap-Safe :
          (h : History) → Safe P Found Anything h (current_bootstrap r target registry infos)
      unfolding current_bootstrap
      current_bootstrap-Safe h =
          find-Safe returns r.settings P Found render_tasks _ _ _ h (reads render_tasks _)
            (λ rt. compared_or-Safe rt _ _ (was_got _ (Memᴰ.head refl)))
            (λ e. done-Safe P Found Anything _ _ tt)

      -- The target with its version, and the bootstrap task.
      abbrev Made : History → Target × RenderTask → Type 0
      Made h made = IsSeen req h made.0 × IsTask req h made.1

      abbrev Computed : Result Error RenderTaskSpec → History → RenderTaskSpec → Type 0
      Computed res h spec = res ≡ ok spec

      spec_or_fail-Safe :
          (res : Result Error RenderTaskSpec) (h : History)
          → Safe P (Computed res) Anything h (spec_or_fail r target registry infos res)
      spec_or_fail-Safe (ok spec) h = done-Safe P (Computed (ok spec)) Anything h spec refl
      spec_or_fail-Safe (err e) h = stop-Safe P (Computed (err e)) Anything h _ tt

      created_or_get-Safe :
          (version : ℕ) (o : RenderTask) (a : Answer (create render_tasks o)) (h : History)
          → Memᴰ (create render_tasks o, a) h
          → Safe P (IsTask req) Anything h (created_or_get r target registry infos version a)
      created_or_get-Safe version o (ok rt) h m =
          done-Safe P (IsTask req) Anything h rt (was_made o m)
      created_or_get-Safe version o (err e) h m =
          if-Safe returns r.settings P (IsTask req) (is_already_exists e) _ _ h
            (λ _.
              attempt-ends returns r.settings P (get render_tasks _) (IsTask req) _ h
                (reads render_tasks _) (λ rt. was_got _ (Memᴰ.head refl)))
            (λ _. stop-Safe P (IsTask req) Anything h _ tt)

      persist-Safe :
          (version : ℕ) (h : History)
          → IsSeen req h target
          → Safe P (IsSeen req) Anything h (persist r target registry infos version)
      persist-Safe version h i =
          if-Safe returns r.settings P (IsSeen req) (version == target.bootstrap_version) _ _ h
            (λ _. done-Safe P (IsSeen req) Anything h target i)
            (λ _.
              attempt-ends returns r.settings P (update_status targets _) (IsSeen req) _ h
                (sets_version target version i) (λ t. was_updated t _ (Memᴰ.head refl)))

      make_bootstrap-Safe :
          (version : ℕ) (h : History)
          → IsSeen req h target
          → IsRenderRegistry req h registry
          → AllRendered req h r registry infos
          → Safe P Made Anything h (make_bootstrap r target registry infos version)
      unfolding make_bootstrap
      make_bootstrap-Safe version h i u a =
          then-Safe P (Computed _) Made _ _ h (spec_or_fail-Safe _ h) (λ h1 spec x1 e.
            then-Safe P (IsTask req) Made _ _ h1
              (call-Safe P (IsTask req) Anything
                (create render_tasks (task_of target (bootstrap_name r target version) spec)) _ h1
                (makes_bootstrap target registry infos version spec
                  (IsSeen-Extends req h h1 target x1 i)
                  (IsRenderRegistry-Extends req h h1 x1 registry u)
                  (AllRendered-Extends req h h1 x1 r registry infos a) e)
                (λ b. created_or_get-Safe version _ b _ (Memᴰ.head refl)))
              (λ h2 rt x2 t.
                then-Safe P (IsSeen req) Made _ _ h2
                  (persist-Safe version h2
                    (IsSeen-Extends req h h2 target (λ v m. x2 v (x1 v m)) i))
                  (λ h3 t' x3 i'.
                    done-Safe P Made Anything h3 (t', rt) (i', IsTask-Extends req h2 h3 x3 rt t))))

      made_or-Safe :
          (version : ℕ) (found : Option RenderTask) (h : History)
          → IsSeen req h target
          → IsRenderRegistry req h registry
          → AllRendered req h r registry infos
          → FoundTask h found
          → Safe P Made Anything h (made_or r target registry infos version found)
      made_or-Safe version (some rt) h i u a t = done-Safe P Made Anything h (target, rt) (i, t)
      made_or-Safe version none h i u a t = make_bootstrap-Safe version h i u a

    module _ (registry_namespace : Str) (rt : RenderTask) (rt_name : Str) where
      bind_bootstrap-Safe :
          (t : Target) (h : History)
          → IsSeen req h t
          → IsTask req h rt
          → has_succeeded r rt ≡ true
          → Safe P Anything Anything h
              (bind_bootstrap r t registry registry_namespace infos rt rt_name)
      unfolding bind_bootstrap
      bind_bootstrap-Safe t h i k y =
          then-Safe P (λ h' _. IsBound t (artifact_name_for r t rt) (binding_name_for r t rt) h')
            Anything _ _ h
            (check_wrapped-Safe P _ _ r.settings _ _ h (ensure_render_binding-Binds t _ _ h)
              (λ h' c x p.
                may_bind r req t rt h' c (IsSeen-Extends req h h' t x i)
                  (IsTask-Extends req h h' x rt k) y p))
            (λ h1 _ x1 b.
              then-Safe P _ Anything _ _ h1
                (check_wrapped-Safe P _ _ r.settings _ _ h1
                  (ensure_render_artifact-Creates _ rt registry.flavor registry_namespace h1)
                  (λ h' c x p.
                    may_make_artifact r req t rt registry.flavor registry_namespace h' c
                      (IsSeen-Extends req h h' t (λ v m. x v (x1 v m)) i)
                      (IsTask-Extends req h h' (λ v m. x v (x1 v m)) rt k) y
                      (IsBound-Extends t _ _ h1 h' x b) p))
                (λ h2 _ x2 _.
                  then-Safe P Anything Anything _ _ h2
                    (cleans_stale t _ [] h2 (IsSeen-Extends req h h2 t (λ v m. x2 v (x1 v m)) i)).0
                    (λ h3 _ x3 _.
                      then-Safe P Anything Anything _ _ h3
                        (cleans_stale t [] _ h3
                          (IsSeen-Extends req h h3 t (λ v m. x3 v (x2 v (x1 v m))) i)).1
                        (λ h4 _ _ _. done-Safe P Anything Anything h4 (in_30_seconds, none) tt))))

      finish_bootstrap-Safe :
          (t : Target) (h : History)
          → IsSeen req h t
          → IsTask req h rt
          → Safe P Anything Anything h
              (finish_bootstrap r t registry registry_namespace infos rt rt_name)
      unfolding finish_bootstrap
      finish_bootstrap-Safe t h i k =
          if-Safe returns r.settings P Anything (has_failed r rt) _ _ h
            (λ _. refuse_with-Safe r req t bootstrap_ready h _ _ _ i)
            (λ _.
              if-Safe returns r.settings P Anything (has_succeeded r rt) _ _ h
                (λ y.
                  then-Safe P (IsSeen req) Anything _ _ h
                    (set_condition-Safe r req t bootstrap_ready h true _ _ i)
                    (λ h' t' x i'. bind_bootstrap-Safe t' h' i' (IsTask-Extends req h h' x rt k) y))
                (λ _. done-Safe P Anything Anything h (in_30_seconds, none) tt))

    pub bootstrap-Safe :
        (target : Target) (registry_namespace : Str) (h : History)
        → IsSeen req h target
        → IsRenderRegistry req h registry
        → AllRendered req h r registry infos
        → Safe P Anything Anything h (bootstrap r target registry registry_namespace infos)
    unfolding bootstrap
    bootstrap-Safe target ns h i u a =
        then-Safe P (Found target) Anything _ _ h (current_bootstrap-Safe target h)
          (λ h1 current x1 f.
            then-Safe P (Made target) Anything _ _ h1
              (made_or-Safe target current.0 current.1 h1 (IsSeen-Extends req h h1 target x1 i)
                (IsRenderRegistry-Extends req h h1 x1 registry u)
                (AllRendered-Extends req h h1 x1 r registry infos a) f)
              (λ h2 made x2 m.
                finish_bootstrap-Safe ns made.1 (bootstrap_name r target current.0) made.0 h2 m.0
                  m.1))
