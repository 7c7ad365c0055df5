-- ===== src/Controller/Targets/Render.antt =====
-- The render tasks of a target's releases (the second loop of TargetReconciler.Reconcile): each
-- release has its task, which is made again where its spec has changed; what a task has rendered is
-- bound to the target.
use solution_arsenal.Prelude.{
  Bool, false, ◌&&◌, none, some, List, [], ◌∷◌, ◌++◌, Result, ok, err, ltb, length, if◌then◌else◌,
}
use solution_arsenal.Str.{Str, lit}
use solution_arsenal.Names.{render_artifact_name, render_binding_name}
use solution_arsenal.Api.{Target, Registry, RenderTask, RenderTaskSpec}
use solution_arsenal.Resolver.{ReleaseInfo}
use solution_arsenal.PullSecrets.{Secrets}
use solution_arsenal.Cluster.{
  render_tasks, NamespacedName, Error, get, create, delete, Program, done, stop, call, and_then,
  ◌>>=◌, ◌>>◌,
}
use solution_arsenal.Cluster.Errors.{is_not_found, err_log_and_wrap}
use solution_arsenal.Controller.{Outcome, returns, attempt}
use solution_arsenal.Controller.Targets.{new_meta, ensure_render_binding, ensure_render_artifact}
use solution_arsenal.Controller.Targets.Conditions.{
  TargetReconciler, releases_rendered, set_condition, refuse_with, check_wrapped,
}
use solution_arsenal.Controller.Targets.Specs.{compute_release_render_task_spec}

abbrev pub job_failed : Str
job_failed = lit "JobFailed"

abbrev pub job_succeeded : Str
job_succeeded = lit "JobSucceeded"

abbrev pub task_of : Target → Str → RenderTaskSpec → RenderTask
task_of target name spec = record {
  meta = new_meta target.meta.namespace name;
  spec = spec;
  conditions = [];
  job_ref = none;
  config_secret_ref = none;
  chart_url = [];
}

abbrev pub task_name : Target → Str → NamespacedName
task_name target name = record { namespace = target.meta.namespace; name = name }

module _ (r : TargetReconciler) where
  -- apimeta.IsStatusConditionTrue on a render task
  abbrev pub has_failed : RenderTask → Bool
  has_failed rt = r.lib.is_status_condition_true rt.conditions job_failed

  abbrev pub has_succeeded : RenderTask → Bool
  has_succeeded rt = r.lib.is_status_condition_true rt.conditions job_succeeded

  abbrev pub is_rendered : RenderTask → Bool
  is_rendered rt = has_succeeded rt && ltb 0 (length rt.chart_url)

  abbrev pub artifact_name_for : Target → RenderTask → Str
  artifact_name_for target rt =
      render_artifact_name r.lib.sha256 target.meta.namespace rt.spec.base_url rt.spec.repository
        rt.spec.tag

  abbrev pub binding_name_for : Target → RenderTask → Str
  binding_name_for target rt =
      render_binding_name r.lib.sha256 (artifact_name_for target rt) target.meta.name

module _ (r : TargetReconciler) (target : Target) (registry : Registry) (registry_namespace : Str)
    (pull_secrets_by_host : Secrets) where
  -- computeReleaseRenderTaskSpec, and what happens on its error.
  abbrev pub spec_or : Str → Result Error RenderTaskSpec → Program Outcome RenderTaskSpec
  spec_or text (ok spec) = done spec
  spec_or text (err e) =
      and_then
        (set_condition r target releases_rendered false (lit "MissingRegistryBinding") e.text)
        (λ _. stop (returns (err_log_and_wrap r.settings.test_mode (some e) text)))

  unfoldable pub desired_spec : ReleaseInfo → Str → Program Outcome RenderTaskSpec
  unfolding compute_release_render_task_spec set_condition and_then
  desired_spec ri text = spec_or text (
      compute_release_render_task_spec r.lib r.registry_binding_strict ri.release ri.cv registry
        target pull_secrets_by_host)

  -- What the get call for the task answers: no task, a failure, or a task whose spec is compared.
  abbrev pub task_or : ReleaseInfo → Result Error RenderTask → Program Outcome RenderTask
  task_or ri (err e) =
      if is_not_found e
      then (do
        spec ← desired_spec ri (lit "failed to compute release RenderTask spec")
        attempt returns r.settings (create render_tasks (task_of target ri.rt_name spec))
            (lit "failed to create release RenderTask"))
      else stop (
          returns (
            err_log_and_wrap r.settings.test_mode (some e)
              (lit "failed to get release RenderTask")))
  task_or ri (ok rt) = do
    spec ← desired_spec ri (lit "failed to compute release RenderTask spec for comparison")
    if r.lib.specs_equal rt.spec spec then done rt else (do
      attempt returns r.settings (delete render_tasks rt)
          (lit "failed to delete stale release RenderTask")
      attempt returns r.settings (create render_tasks (task_of target ri.rt_name spec))
          (lit "failed to recreate release RenderTask"))

  unfoldable pub ensure_release_task : ReleaseInfo → Program Outcome RenderTask
  unfolding desired_spec attempt and_then
  ensure_release_task ri = call (get render_tasks (task_name target ri.rt_name)) (task_or ri)

  abbrev pub bind_text : Str
  bind_text = lit "failed to ensure RenderBinding for release"

  abbrev pub artifact_text : Str
  artifact_text = lit "failed to ensure RenderArtifact for release"

  abbrev pub rendered_info : ReleaseInfo → RenderTask → ReleaseInfo
  rendered_info ri rt = record ri {
    chart_url = rt.chart_url;
    artifact_name = artifact_name_for r target rt;
    artifact_binding_name = binding_name_for r target rt;
  }

  abbrev pub Rendering : Type 0
  Rendering = List ReleaseInfo → Bool → Program Outcome (List ReleaseInfo × Bool)

  -- The rest of a round, with the task.
  unfoldable pub bind_release :
      Rendering
      → ReleaseInfo
      → List ReleaseInfo
      → Bool
      → RenderTask
      → Program Outcome (List ReleaseInfo × Bool)
  unfolding refuse_with check_wrapped ensure_render_binding ensure_render_artifact and_then
  bind_release rest ri infos all_rendered rt =
      if has_failed r rt
      then refuse_with r target releases_rendered (lit "ReleaseFailed")
          (lit "Release " ++ ri.name ++ lit " rendering failed")
      else if is_rendered r rt
      then (do
        check_wrapped r.settings bind_text (
            ensure_render_binding target (artifact_name_for r target rt)
              (binding_name_for r target rt))
        check_wrapped r.settings artifact_text (
            ensure_render_artifact (artifact_name_for r target rt) rt registry.flavor
              registry_namespace)
        rest (infos ++ rendered_info ri rt ∷ []) all_rendered)
      else rest (infos ++ ri ∷ []) false

  -- The loop, with the releases so far and `allRendered`.
  unfoldable pub render_releases : List ReleaseInfo → Rendering
  unfolding ensure_release_task bind_release and_then
  render_releases [] infos all_rendered = done (infos, all_rendered)
  render_releases (ri ∷ ris) infos all_rendered =
      let rest = render_releases ris in
      and_then (ensure_release_task ri) (bind_release rest ri infos all_rendered)
