-- ===== src/Controller/Targets/Safety/TaskPhase.antt =====
-- The render task of a release of one of the target's bindings: read or made, with the computed spec.
use solution_arsenal.Prelude.{◌≡◌, refl, false, Memᴰ, Result, ok, err}
use solution_arsenal.Str.{Str}
use solution_arsenal.Api.{Target, Registry, RenderTask, RenderTaskSpec}
use solution_arsenal.Resolver.{ReleaseInfo}
use solution_arsenal.PullSecrets.{Secrets}
use solution_arsenal.Cluster.{render_tasks, NamespacedName, Error, Answer, get, create, delete}
use solution_arsenal.Cluster.Safe.{History, Policy, Safe, call-Safe, done-Safe, stop-Safe}
use solution_arsenal.Cluster.Errors.{is_not_found}
use solution_arsenal.Controller.{returns, attempt}
use solution_arsenal.Controller.Steps.{Anything, attempt-Safe, if-Safe}
use solution_arsenal.Controller.Rules.{then-Safe, attempt-ends}
use solution_arsenal.Controller.Targets.Specs.{compute_release_render_task_spec}
use solution_arsenal.Controller.Targets.Conditions.{TargetReconciler, releases_rendered}
use solution_arsenal.Controller.Targets.Render.{
  task_of, task_name, spec_or, desired_spec, task_or, ensure_release_task,
}
use solution_arsenal.Controller.Targets.Policy.{
  IsSeen, IsRenderRegistry, IsLooked, IsCandidate, HasTask, is_there, is_made, TargetPolicy, reads,
  makes_task, drops_changed_task,
}
use solution_arsenal.Controller.Targets.Rules.{IsSeen-Extends, set_condition-Safe}
use solution_arsenal.Controller.Targets.Later.{
  IsRenderRegistry-Extends, IsLooked-Extends, IsCandidate-Extends,
}

module _ (r : TargetReconciler) (req : NamespacedName) (target : Target) (registry : Registry)
    (registry_namespace : Str) (secrets : Secrets) where
  abbrev P : Policy
  P = TargetPolicy r req

  abbrev Spec : ReleaseInfo → RenderTaskSpec → Type 0
  Spec ri spec =
      compute_release_render_task_spec r.lib r.registry_binding_strict ri.release ri.cv registry
        target secrets
      ≡ ok spec

  abbrev Is : Result Error RenderTaskSpec → History → RenderTaskSpec → Type 0
  Is res h spec = res ≡ ok spec

  spec_or-Safe :
      (text : Str) (res : Result Error RenderTaskSpec) (h : History)
      → IsSeen req h target
      → Safe P (Is res) Anything h (spec_or r target registry registry_namespace secrets text res)
  spec_or-Safe text (ok spec) h i = done-Safe P (Is (ok spec)) Anything h spec refl
  spec_or-Safe text (err e) h i =
      then-Safe P (IsSeen req) (Is (err e)) _ _ h
        (set_condition-Safe r req target releases_rendered h false _ _ i)
        (λ h' _ _ _. stop-Safe P (Is (err e)) Anything h' _ tt)

  desired_spec-Safe :
      (ri : ReleaseInfo) (text : Str) (h : History)
      → IsSeen req h target
      → Safe P
          (λ _ spec. Spec ri spec)
          Anything
          h
          (desired_spec r target registry registry_namespace secrets ri text)
  unfolding desired_spec
  desired_spec-Safe ri text h i = spec_or-Safe text _ h i

  module _ (ri : ReleaseInfo) where
    abbrev Q : History → RenderTask → Type 0
    Q h rt = HasTask req h r target registry secrets ri rt

    -- The task is created, with the spec that is desired.
    makes-Safe :
        (spec : RenderTaskSpec) (text : Str) (h : History)
        → IsSeen req h target
        → IsRenderRegistry req h registry
        → IsLooked req h secrets
        → IsCandidate req h r ri
        → Spec ri spec
        → Safe P Q Anything h
            (attempt returns r.settings (create render_tasks (task_of target ri.rt_name spec)) text)
    makes-Safe spec text h i u l c e =
        attempt-ends returns r.settings P (create render_tasks (task_of target ri.rt_name spec)) Q
          text h (makes_task target registry secrets ri spec i u l c e)
          (λ rt. is_made spec e (Memᴰ.head refl))

    task_or-Safe :
        (a : Answer (get render_tasks (task_name target ri.rt_name))) (h : History)
        → IsSeen req h target
        → IsRenderRegistry req h registry
        → IsLooked req h secrets
        → IsCandidate req h r ri
        → Memᴰ (get render_tasks (task_name target ri.rt_name), a) h
        → Safe P Q Anything h (task_or r target registry registry_namespace secrets ri a)
    task_or-Safe (err e) h i u l c m =
        if-Safe returns r.settings P Q (is_not_found e) _ _ h
          (λ _.
            then-Safe P (λ _ spec. Spec ri spec) Q _ _ h (desired_spec-Safe ri _ h i)
              (λ h' spec x k.
                makes-Safe spec _ h' (IsSeen-Extends req h h' target x i)
                  (IsRenderRegistry-Extends req h h' x registry u)
                  (IsLooked-Extends req h h' x secrets l) (IsCandidate-Extends req h h' x r ri c)
                  k))
          (λ _. stop-Safe P Q Anything h _ tt)
    task_or-Safe (ok rt) h i u l c m =
        then-Safe P (λ _ spec. Spec ri spec) Q _ _ h (desired_spec-Safe ri _ h i)
          (λ h' spec x k.
            if-Safe returns r.settings P Q (r.lib.specs_equal rt.spec spec) _ _ h'
              (λ y. done-Safe P Q Anything h' rt (is_there spec k (x _ m) y))
              (λ n.
                attempt-Safe returns r.settings P Q (delete render_tasks rt) _ _ h'
                  (drops_changed_task target registry secrets ri spec rt
                    (IsSeen-Extends req h h' target x i)
                    (IsRenderRegistry-Extends req h h' x registry u)
                    (IsLooked-Extends req h h' x secrets l) (IsCandidate-Extends req h h' x r ri c)
                    (x _ m) k n)
                  (λ _.
                    makes-Safe spec _ _ (IsSeen-Extends req h _ target (λ v w. Memᴰ.tail (x v w)) i)
                      (IsRenderRegistry-Extends req h _ (λ v w. Memᴰ.tail (x v w)) registry u)
                      (IsLooked-Extends req h _ (λ v w. Memᴰ.tail (x v w)) secrets l)
                      (IsCandidate-Extends req h _ (λ v w. Memᴰ.tail (x v w)) r ri c) k)))

    -- Without an error the release has its task.
    pub ensure_release_task-Safe :
        (h : History)
        → IsSeen req h target
        → IsRenderRegistry req h registry
        → IsLooked req h secrets
        → IsCandidate req h r ri
        → Safe P Q Anything h (ensure_release_task r target registry registry_namespace secrets ri)
    unfolding ensure_release_task
    ensure_release_task-Safe h i u l c =
        call-Safe P Q Anything (get render_tasks (task_name target ri.rt_name)) _ h
          (reads render_tasks _)
          (λ a.
            task_or-Safe a _ (IsSeen-Extends req h _ target (λ _ w. Memᴰ.tail w) i)
              (IsRenderRegistry-Extends req h _ (λ _ w. Memᴰ.tail w) registry u)
              (IsLooked-Extends req h _ (λ _ w. Memᴰ.tail w) secrets l)
              (IsCandidate-Extends req h _ (λ _ w. Memᴰ.tail w) r ri c) (Memᴰ.head refl))
