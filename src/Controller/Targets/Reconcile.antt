-- ===== src/Controller/Targets/Reconcile.antt =====
-- TargetReconciler.Reconcile (target_controller.go), put together from its parts.
use solution_arsenal.Prelude.{
  Bool, true, false, ◌&&◌, not, Option, none, some, List, [], ◌++◌, Result, ok, err, ltb, length,
  ◌==◌, if◌then◌else◌,
}
use solution_arsenal.Str.{Str, lit}
use solution_arsenal.Api.{Target, Registry}
use solution_arsenal.Resolver.{ReleaseInfo, resolve_release_conflicts}
use solution_arsenal.PullSecrets.{
  Secrets, LookupError, failed, no_registry, conflicting, build_pull_secrets_lookup,
}
use solution_arsenal.Cluster.{
  targets, registries, NamespacedName, Error, Program, done, stop, and_then, returned, ◌>>=◌, ◌>>◌,
  has_finalizer,
}
use solution_arsenal.Cluster.Errors.{err_log_and_wrap}
use solution_arsenal.Controller.{
  Outcome, returns, find, drop_own_finalizer, add_own_finalizer, check, with_object,
}
use solution_arsenal.Controller.Finalizers.{target_finalizer, remove_registry_ref_finalizer}
use solution_arsenal.Controller.Targets.{
  delete_owned_render_tasks, delete_owned_render_bindings, delete_stale_render_tasks,
  delete_stale_render_bindings,
}
use solution_arsenal.Controller.Targets.Specs.{wrap, new_error}
use solution_arsenal.Controller.Targets.Conditions.{
  TargetReconciler, releases_rendered, releases_resolved, set_condition, refuse_with, wait_with,
  set_resolved_condition, check_wrapped,
}
use solution_arsenal.Controller.Targets.RenderRegistry.{
  registry_namespace, registry_name, resolve_registry,
}
use solution_arsenal.Controller.Targets.Bindings.{collect_bindings}
use solution_arsenal.Controller.Targets.Collect.{collect_releases}
use solution_arsenal.Controller.Targets.Render.{render_releases}
use solution_arsenal.Controller.Targets.Bootstrap.{bootstrap}

module _ (r : TargetReconciler) (req : NamespacedName) (target : Target) where
  abbrev pub release_registry : Option Registry → Program Outcome Unit
  release_registry none = done tt
  release_registry (some registry) =
      check (remove_registry_ref_finalizer r.settings (some target) none registry)

  unfoldable pub delete_target : Program Outcome Outcome
  unfolding check_wrapped find and_then delete_owned_render_tasks delete_owned_render_bindings
  delete_target = do
    check_wrapped r.settings (lit "failed to delete owned RenderTasks")
        (delete_owned_render_tasks target)
    check_wrapped r.settings (lit "failed to delete owned RenderBindings")
        (delete_owned_render_bindings target)
    if ltb 0 (length target.render_registry_ref)
        then (do
          found ←
              find returns r.settings registries (registry_name target)
                (lit "failed to get Registry for finalizer cleanup")
          release_registry found)
        else done tt
    drop_own_finalizer returns r.settings targets req target target_finalizer
        (lit "failed to get latest Target for finalizer removal")
        (lit "failed to remove finalizer from Target")
    done (returns none)

module _ (r : TargetReconciler) where
  -- The error of buildPullSecretsLookup.
  abbrev pub lookup_error : LookupError → Error
  lookup_error (failed e) = e
  lookup_error (no_registry registry_name binding_name e) =
      wrap
        (lit "failed to get Registry "
          ++ registry_name
          ++ lit " referenced by RegistryBinding "
          ++ binding_name)
        e
  lookup_error (conflicting host previous binding_name pull_secret) = new_error (
      lit "conflicting RegistryBindings for host "
      ++ r.lib.quote host
      ++ lit ": RegistryBinding "
      ++ previous.binding_name
      ++ lit " (pull secret "
      ++ r.lib.quote previous.pull_secret
      ++ lit ") vs RegistryBinding "
      ++ binding_name
      ++ lit " (pull secret "
      ++ r.lib.quote pull_secret
      ++ lit ")")

  abbrev pub secrets_or : Target → Result LookupError Secrets → Program Outcome Secrets
  secrets_or target (ok secrets) = done secrets
  secrets_or target (err e) =
      and_then
        (set_condition r target releases_rendered false (lit "RegistryBindingConflict")
          (lookup_error e).text)
        (λ _. stop (
          returns (
            err_log_and_wrap r.settings.test_mode (some (lookup_error e))
              (lit "failed to build pull secrets lookup from RegistryBindings"))))

  unfoldable pub look_up_secrets : Target → Program Outcome Secrets
  unfolding build_pull_secrets_lookup returned and_then set_condition
  look_up_secrets target =
      and_then (returned (build_pull_secrets_lookup target)) (secrets_or target)

  -- Without bindings, the target has nothing to render.
  unfoldable pub clear_target : Target → Program Outcome Outcome
  unfolding set_condition check_wrapped and_then delete_stale_render_tasks
      delete_stale_render_bindings
  clear_target target = do
    t ←
        set_condition r target releases_rendered false (lit "NoReleaseBindings")
          (lit "No ReleaseBindings found for this target")
    t' ←
        set_condition r t releases_resolved false (lit "NoReleaseBindings")
          (lit "No ReleaseBindings found for this target")
    check_wrapped r.settings (lit "failed to clean up stale RenderTasks after all bindings removed")
        (delete_stale_render_tasks t' [])
    check_wrapped r.settings
        (lit "failed to clean up stale RenderBindings after all bindings removed")
        (delete_stale_render_bindings t' [])
    done (returns none)

  -- Behind the loop over the render tasks.
  unfoldable pub conclude :
      Target
      → Registry
      → (registry_namespace : Str) (pending_deps : Bool) → List ReleaseInfo × Bool
      → Program Outcome Outcome
  unfolding wait_with set_condition bootstrap and_then
  conclude target registry registry_namespace pending_deps (infos, all_rendered) =
      if pending_deps
      then wait_with r target releases_rendered (lit "MissingDependencies")
          (lit "One or more bound Releases or ComponentVersions not found")
      else if not all_rendered
      then wait_with r target releases_rendered (lit "Pending")
          (lit "Waiting for release RenderTasks to complete")
      else (do
        t ←
            set_condition r target releases_rendered true (lit "AllRendered")
              (lit "All releases rendered successfully")
        bootstrap r t registry registry_namespace infos)

  -- The releases are resolved, rendered and made into a bootstrap chart.
  unfoldable pub render_target :
      Target → Registry → Str → Secrets → List ReleaseInfo × Bool → Program Outcome Outcome
  unfolding set_resolved_condition refuse_with render_releases conclude and_then
      resolve_release_conflicts
  render_target target registry registry_namespace secrets (infos, pending_deps) = do
    let (resolved, skipped) = resolve_release_conflicts r.lib.as_selector infos in
        do
          t ← set_resolved_condition r target skipped
          if (length resolved == 0) && not pending_deps
              then refuse_with r t releases_rendered (lit "AllReleaseBindingsFiltered") (
                  lit "All ReleaseBindings were filtered out by the release resolver (uniqueName "
                  ++ lit "conflicts or anti-affinity rules)")
              else and_then
                  (render_releases r t registry registry_namespace secrets resolved [] true)
                  (conclude t registry registry_namespace pending_deps)

  unfoldable pub keep_target : NamespacedName → Target → Program Outcome Outcome
  unfolding resolve_registry look_up_secrets collect_bindings clear_target collect_releases
      render_target and_then
  keep_target req target =
      if has_finalizer targets target target_finalizer
      then (do
        resolved ← resolve_registry r target
        secrets ← look_up_secrets resolved.0
        bindings ← collect_bindings r resolved.0
        if length bindings == 0
            then clear_target resolved.0
            else and_then (collect_releases r resolved.0 bindings [] false)
                (render_target resolved.0 resolved.1 (registry_namespace target) secrets))
      else (do
        add_own_finalizer returns r.settings targets req target target_finalizer
            (lit "failed to get latest Target for finalizer addition")
            (lit "failed to add finalizer to Target")
        done (returns none))

  unfoldable pub reconcile_target : NamespacedName → Program Outcome Outcome
  unfolding with_object delete_target keep_target
  reconcile_target req = with_object r.settings targets req (lit "failed to get object") (λ target.
      if target.meta.deleting then delete_target r req target else keep_target req target)
