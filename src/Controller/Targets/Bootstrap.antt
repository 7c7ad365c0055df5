-- ===== src/Controller/Targets/Bootstrap.antt =====
-- The bootstrap render task of a target (the last part of TargetReconciler.Reconcile): one for each
-- version, a new version where its input has changed.
use solution_arsenal.Prelude.{
  ℕ, ◌+◌, ◌==◌, true, Option, none, some, List, [], ◌∷◌, Result, ok, err, keep, map, ltb, length,
  ◌++◌, if◌then◌else◌,
}
use solution_arsenal.Str.{Str, lit}
use solution_arsenal.Names.{target_render_task_name}
use solution_arsenal.Api.{
  Target, Registry, RenderTask, RenderTaskSpec, release_config, bootstrap_config, BootstrapInput,
}
use solution_arsenal.Resolver.{ReleaseInfo}
use solution_arsenal.Cluster.{
  targets, render_tasks, Error, get, create, update_status, Program, done, stop, call, and_then,
  ◌>>=◌, ◌>>◌,
}
use solution_arsenal.Cluster.Errors.{is_already_exists, err_log_and_wrap}
use solution_arsenal.Controller.{CtrlResult, Outcome, returns, attempt, find}
use solution_arsenal.Controller.Targets.{
  ensure_render_binding, ensure_render_artifact, delete_stale_render_tasks,
  delete_stale_render_bindings,
}
use solution_arsenal.Controller.Targets.Specs.{
  build_bootstrap_input, compute_bootstrap_render_task_spec,
}
use solution_arsenal.Controller.Targets.Conditions.{
  TargetReconciler, bootstrap_ready, set_condition, refuse_with, check_wrapped, ignore_error,
}
use solution_arsenal.Controller.Targets.Render.{
  task_of, task_name, has_failed, has_succeeded, artifact_name_for, binding_name_for,
}

-- bootstrapRT.Spec.RendererConfig.BootstrapConfig.Input
abbrev pub input_of : RenderTask → BootstrapInput
input_of rt = elim rt.spec.config [
  | release_config c ↦ record { releases = []; userdata = [] }
  | bootstrap_config c ↦ c.input
]

-- 30 * time.Second
abbrev pub in_30_seconds : CtrlResult
in_30_seconds = record { requeue_after = 30000000000 }

-- The names of the bindings that are kept.
abbrev pub bound_names : List ReleaseInfo → List Str
bound_names infos =
    keep (λ name. ltb 0 (length name)) (map (λ (ri : ReleaseInfo). ri.artifact_binding_name) infos)

module _ (r : TargetReconciler) where
  abbrev pub bootstrap_name : Target → ℕ → Str
  bootstrap_name target version = target_render_task_name r.lib.sha256 target.meta.name version

  abbrev pub fail_with : {A : Type 0} → Error → Str → Program Outcome A
  fail_with e text = stop (returns (err_log_and_wrap r.settings.test_mode (some e) text))

  module _ (target : Target) (registry : Registry) (infos : List ReleaseInfo) where
    -- The task that is there and the version, and whether a new one is needed (`none`).
    abbrev pub compared_or :
        RenderTask → Result Error BootstrapInput → Program Outcome (ℕ × Option RenderTask)
    compared_or rt (err e) =
        fail_with e (lit "failed to build desired bootstrap input for comparison")
    compared_or rt (ok input) =
        if r.lib.inputs_equal input (input_of rt)
        then done (target.bootstrap_version, some rt)
        else done (target.bootstrap_version + 1, none)

    abbrev pub current_or : Option RenderTask → Program Outcome (ℕ × Option RenderTask)
    current_or none = done (target.bootstrap_version, none)
    current_or (some rt) = compared_or rt (
        build_bootstrap_input r.lib target infos registry.target_pull_secret_name
          registry.plain_http)

    unfoldable pub current_bootstrap : Program Outcome (ℕ × Option RenderTask)
    unfolding target_render_task_name find and_then build_bootstrap_input
    current_bootstrap = do
      found ←
          find returns r.settings render_tasks
            (task_name target (bootstrap_name target target.bootstrap_version))
            (lit "failed to get bootstrap RenderTask")
      current_or found

    abbrev pub created_or_get : ℕ → Result Error RenderTask → Program Outcome RenderTask
    created_or_get version (ok rt) = done rt
    created_or_get version (err e) =
        if is_already_exists e
        then attempt returns r.settings
            (get render_tasks (task_name target (bootstrap_name target version)))
            (lit "failed to get existing bootstrap RenderTask")
        else fail_with e (lit "failed to create bootstrap RenderTask")

    abbrev pub persist : ℕ → Program Outcome Target
    persist version =
        if version == target.bootstrap_version
        then done target
        else attempt returns r.settings
            (update_status targets (record target { bootstrap_version = version }))
            (lit "failed to update Target bootstrapVersion")

    abbrev pub spec_or_fail : Result Error RenderTaskSpec → Program Outcome RenderTaskSpec
    spec_or_fail (ok spec) = done spec
    spec_or_fail (err e) = fail_with e (lit "failed to compute bootstrap RenderTask spec")

    -- The branch of `needsNewBootstrap`: the task, and the target with its version.
    unfoldable pub make_bootstrap : ℕ → Program Outcome (Target × RenderTask)
    unfolding target_render_task_name attempt and_then compute_bootstrap_render_task_spec
    make_bootstrap version = do
      spec ← spec_or_fail (compute_bootstrap_render_task_spec r.lib target infos registry version)
      rt ←
          call (create render_tasks (task_of target (bootstrap_name target version) spec))
            (created_or_get version)
      t ← persist version
      done (t, rt)

    abbrev pub made_or : ℕ → Option RenderTask → Program Outcome (Target × RenderTask)
    made_or version (some rt) = done (target, rt)
    made_or version none = make_bootstrap version

  module _ (target : Target) (registry : Registry) (registry_namespace : Str)
      (infos : List ReleaseInfo) (rt : RenderTask) where
    -- The chart of a bootstrap task that has succeeded is bound, and what is stale is cleaned up.
    unfoldable pub bind_bootstrap : Str → Program Outcome Outcome
    unfolding check_wrapped ignore_error ensure_render_binding ensure_render_artifact and_then
        delete_stale_render_tasks delete_stale_render_bindings
    bind_bootstrap rt_name = do
      check_wrapped r.settings (lit "failed to ensure RenderBinding for bootstrap") (
          ensure_render_binding target (artifact_name_for r target rt)
            (binding_name_for r target rt))
      check_wrapped r.settings (lit "failed to ensure RenderArtifact for bootstrap") (
          ensure_render_artifact (artifact_name_for r target rt) rt registry.flavor
            registry_namespace)
      ignore_error (
          delete_stale_render_tasks target (rt_name ∷ map (λ (ri : ReleaseInfo). ri.rt_name) infos))
      ignore_error
          (delete_stale_render_bindings target (binding_name_for r target rt ∷ bound_names infos))
      done (in_30_seconds, none)

  unfoldable pub finish_bootstrap :
      Target → Registry → Str → List ReleaseInfo → RenderTask → Str → Program Outcome Outcome
  unfolding refuse_with set_condition and_then bind_bootstrap
  finish_bootstrap target registry registry_namespace infos rt rt_name =
      if has_failed r rt
      then refuse_with r target bootstrap_ready (lit "Failed") (lit "Bootstrap rendering failed")
      else if has_succeeded r rt
      then (do
        t ←
            set_condition r target bootstrap_ready true (lit "Ready")
              (lit "Bootstrap rendered successfully: " ++ rt.chart_url)
        bind_bootstrap t registry registry_namespace infos rt rt_name)
      else done (in_30_seconds, none)

  unfoldable pub bootstrap : Target → Registry → Str → List ReleaseInfo → Program Outcome Outcome
  unfolding current_bootstrap make_bootstrap finish_bootstrap and_then
  bootstrap target registry registry_namespace infos = do
    current ← current_bootstrap target registry infos
    made ← made_or target registry infos current.0 current.1
    finish_bootstrap made.0 registry registry_namespace infos made.1
        (bootstrap_name target current.0)
