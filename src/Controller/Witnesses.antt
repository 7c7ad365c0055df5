-- ===== src/Controller/Witnesses.antt =====
-- The theorems on the Target, RenderTask and RenderArtifact controllers and on the backoff, at
-- concrete objects.
use solution_arsenal.Prelude.{
  ◌≡◌, ◌≤◌, ◌<◌, ◌+◌, refl, inl, true, false, none, some, [], ◌∷◌, Memᴰ, ok, arith,
}
use solution_arsenal.Str.{lit, str_eq}
use solution_arsenal.Api.Integer.{pos}
use solution_arsenal.Resolver.{ReleaseInfo}
use solution_arsenal.PullSecrets.{bindings_of_target}
use solution_arsenal.Cluster.{targets, registries, releases, component_versions, get}
use solution_arsenal.Cluster.Safe.{History, Safe}
use solution_arsenal.Controller.Steps.{Anything}
use solution_arsenal.Controller.Backoff.{age_of, max_steps, requeue_after_for_condition}
use solution_arsenal.Controller.Backoff.Curve.{Hits, requeue_after-Hits}
use solution_arsenal.Controller.Targets.RenderRegistry.{registry_name, resolve_registry}
use solution_arsenal.Controller.Targets.Bindings.{own_bindings_list, collect_bindings}
use solution_arsenal.Controller.Targets.Collect.{info_of, collect_releases, release_name_of}
use solution_arsenal.Controller.Targets.Render.{render_releases}
use solution_arsenal.Controller.Targets.Reconcile.{reconcile_target}
use solution_arsenal.Controller.Targets.Policy.{
  TargetPolicy, IsSeen, was_read, IsRenderRegistry, of_namespace, IsCandidate, IsLooked,
}
use solution_arsenal.Controller.Targets.Safety.RegistryPhase.{
  RegistryPolicy, Resolved, resolve_registry-Safe,
}
use solution_arsenal.Controller.Targets.Safety.CollectPhase.{
  OnlyLists, CollectedBindings, collect_bindings-Safe,
}
use solution_arsenal.Controller.Targets.Safety.ReleasesPhase.{Collected, collect_releases-Safe}
use solution_arsenal.Controller.Targets.Safety.RenderPhase.{Rendered, render_releases-Safe}
use solution_arsenal.Controller.Targets.Safety.Whole.{reconcile_target-Safe}
use solution_arsenal.Controller.Releases.{cv_name}
use solution_arsenal.Controller.RenderTasks.Pods.{pod_of, docker_config_json}
use solution_arsenal.Controller.RenderTasks.Statuses.{should_cleanup_secrets, cleanup_delay}
use solution_arsenal.Controller.RenderTasks.Reconcile.{reconcile_render_task}
use solution_arsenal.Controller.RenderTasks.Policy.{RenderTaskPolicy}
use solution_arsenal.Controller.RenderTasks.Safety.{reconcile_render_task-Safe}
use solution_arsenal.Controller.RenderTasks.Ttl.{cleanup_is_due}
use solution_arsenal.Controller.RenderTasks.Wiring.{IsWired, pod_of-IsWired}
use solution_arsenal.Controller.RenderArtifacts.{reconcile_render_artifact}
use solution_arsenal.Controller.RenderArtifacts.Policy.{ArtifactPolicy}
use solution_arsenal.Controller.RenderArtifacts.Safety.{reconcile_render_artifact-Safe}
use solution_arsenal.Controller.ReleaseBindings.Reconcile.{reconcile_release_binding}
use solution_arsenal.Controller.ReleaseBindings.Policy.{release_binding_policy}
use solution_arsenal.Controller.ReleaseBindings.Safety.{reconcile_release_binding-Safe}
use solution_arsenal.Controller.Profiles.{ProfileReconciler}
use solution_arsenal.Controller.Profiles.Reconcile.{reconcile_profile}
use solution_arsenal.Controller.Profiles.Policy.{ProfilePolicy}
use solution_arsenal.Controller.Profiles.Safety.{reconcile_profile-Safe}
use solution_arsenal.Controller.Samples.{
  settings, request, libraries, reconciler, render_reconciler, target, registry, release, version,
  binding, task, secret, failed_at,
}

reconcile_target-Safe_example :
    Safe
      (TargetPolicy reconciler request)
      Anything
      Anything
      []
      (reconcile_target reconciler request)
reconcile_target-Safe_example = reconcile_target-Safe reconciler request

-- What the reconciler has read when it comes to its phases.
abbrev seen : History
seen = (get targets request, ok target) ∷ []

target_seen : IsSeen request seen target
target_seen = was_read target (Memᴰ.head refl)

resolve_registry-Safe_example :
    Safe
      (RegistryPolicy request target)
      (Resolved reconciler request)
      Anything
      seen
      (resolve_registry reconciler target)
resolve_registry-Safe_example = resolve_registry-Safe reconciler request target seen target_seen

collect_bindings-Safe_example :
    Safe OnlyLists
      (CollectedBindings target reconciler)
      Anything
      seen
      (collect_bindings reconciler target)
collect_bindings-Safe_example = collect_bindings-Safe target reconciler seen

collect_releases-Safe_example :
    Safe
      (TargetPolicy reconciler request)
      (Collected reconciler request target (binding ∷ []))
      Anything
      seen
      (collect_releases reconciler target (binding ∷ []) [] false)
collect_releases-Safe_example = collect_releases-Safe reconciler request target (binding ∷ []) seen

abbrev info : ReleaseInfo
info = info_of reconciler target binding release version

-- What the reconciler has read of a target with one release, and without pull secrets.
abbrev collected : History
collected =
    (get component_versions (cv_name release), ok version)
    ∷ (get releases (release_name_of binding), ok release)
    ∷ (own_bindings_list target, ok (binding ∷ []))
    ∷ (bindings_of_target target, ok [])
    ∷ (get registries (registry_name target), ok registry)
    ∷ seen

target_collected : IsSeen request collected target
target_collected =
    was_read target (Memᴰ.tail (Memᴰ.tail (Memᴰ.tail (Memᴰ.tail (Memᴰ.tail (Memᴰ.head refl))))))

info-IsCandidate : IsCandidate request collected reconciler info
unfolding info_of lit str_eq
info-IsCandidate = record {
  target = target;
  seen = target_collected;
  binding = binding;
  bound =
      of_namespace (binding ∷ []) (Memᴰ.tail (Memᴰ.tail (Memᴰ.head refl))) (Memᴰ.head refl) refl;
  collected = record {
    release_read = Memᴰ.tail (Memᴰ.head refl);
    version_read = Memᴰ.head refl;
    permitted = inl refl;
    task_named = refl;
  };
}

secrets-IsLooked : IsLooked request collected []
secrets-IsLooked =
    (target, target_collected, ([], Memᴰ.tail (Memᴰ.tail (Memᴰ.tail (Memᴰ.head refl))), tt))

registry_usable : IsRenderRegistry request collected registry
unfolding lit str_eq
registry_usable = record {
  target = target;
  seen = target_collected;
  registry_read = Memᴰ.tail (Memᴰ.tail (Memᴰ.tail (Memᴰ.tail (Memᴰ.head refl))));
  permitted = inl refl;
}

render_releases-Safe_example :
    Safe
      (TargetPolicy reconciler request)
      (Rendered reconciler request target registry (lit "ns") [] (info.rt_name ∷ []))
      Anything
      collected
      (render_releases reconciler target registry (lit "ns") [] (info ∷ []) [] true)
render_releases-Safe_example =
    render_releases-Safe reconciler request target registry (lit "ns") [] (info ∷ []) collected
      target_collected registry_usable secrets-IsLooked (info-IsCandidate, tt)

young : age_of (some failed_at) 9000000000 < 147600000000000
unfolding age_of
young = omega arith

requeue_after-Hits_example :
    Hits
      (λ i. 150000000000)
      (age_of (some failed_at) 9000000000)
      max_steps
      (requeue_after_for_condition (λ i. 150000000000) (some failed_at) 9000000000)
requeue_after-Hits_example =
    requeue_after-Hits (λ i. 150000000000) (some failed_at) 9000000000 (λ i h. omega arith) young

reconcile_render_task-Safe_example :
    Safe
      (RenderTaskPolicy render_reconciler request)
      Anything
      Anything
      []
      (reconcile_render_task render_reconciler request)
reconcile_render_task-Safe_example = reconcile_render_task-Safe render_reconciler request

due : 6000000000 + cleanup_delay (some failed_at) 6000000000 (pos 60) ≤ 99000000000
unfolding cleanup_delay
due = omega arith

cleanup_is_due_example : should_cleanup_secrets (some failed_at) 99000000000 (pos 60) ≡ true
cleanup_is_due_example = cleanup_is_due failed_at 6000000000 99000000000 (pos 60) due

pod_of-IsWired_example :
    IsWired
      (pod_of render_reconciler task (secret (lit "Opaque")) (some (secret docker_config_json)))
pod_of-IsWired_example =
    pod_of-IsWired render_reconciler task (secret (lit "Opaque")) (some (secret docker_config_json))

reconcile_render_artifact-Safe_example :
    Safe
      (ArtifactPolicy settings request)
      Anything
      Anything
      []
      (reconcile_render_artifact settings libraries (λ s. none) request)
reconcile_render_artifact-Safe_example =
    reconcile_render_artifact-Safe settings libraries (λ s. none) request

reconcile_release_binding-Safe_example :
    Safe
      (release_binding_policy request)
      Anything
      Anything
      []
      (reconcile_release_binding settings request)
reconcile_release_binding-Safe_example = reconcile_release_binding-Safe settings request

abbrev profile_reconciler : ProfileReconciler
profile_reconciler = record {
  settings = settings;
  sha256 = λ s. s;
  as_selector = λ s. some (λ labels. true);
  set_controller_reference = λ owner m. ok m;
  is_controlled_by = λ o owner. str_eq o.name owner.name;
  range = λ m. m;
}

reconcile_profile-Safe_example :
    Safe
      (ProfilePolicy profile_reconciler request)
      Anything
      Anything
      []
      (reconcile_profile profile_reconciler request)
reconcile_profile-Safe_example = reconcile_profile-Safe profile_reconciler request (λ m kt i. i)
