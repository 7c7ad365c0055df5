-- ===== src/Controller/Targets/Safety/Whole.antt =====
-- The Target controller keeps to its policy.
use solution_arsenal.Prelude.{
  ◌≡◌, refl, inl, inr, Bool, true, false, Bool-cases, ◌&&◌, not, ◌==◌, none, List, [], ◌∷◌, map,
  Memᴰ, Result, ok, err, All, All-Memᴰ, All-of_forall, length, and_left,
}
use solution_arsenal.Str.{Str}
use solution_arsenal.Api.{Target, Registry, ReleaseBinding}
use solution_arsenal.Resolver.{ReleaseInfo, resolve_release_conflicts, with_unique_name}
use solution_arsenal.Resolver.Outcome.{resolve-Memᴰ}
use solution_arsenal.PullSecrets.{Secrets, LookupError, build_pull_secrets_lookup}
use solution_arsenal.PullSecrets.Lookup.{
  OnlyReads, reads_bindings, reads_registry, AllBound, build_pull_secrets_lookup-Reads,
}
use solution_arsenal.Cluster.{
  targets, registries, registry_bindings, release_bindings, reference_grants, and_then,
  render_tasks, render_bindings, NamespacedName, Call, has_finalizer,
}
use solution_arsenal.Cluster.Safe.{History, Policy, Safe, Safe-map, done-Safe, stop-Safe}
use solution_arsenal.Controller.{returns}
use solution_arsenal.Controller.Steps.{Anything, if-Safe, with_object-Safe}
use solution_arsenal.Controller.Rules as Rules
use solution_arsenal.Controller.Rules.{then-Safe, returned-then-Safe}
use solution_arsenal.Controller.Finalizers.{target_finalizer}
use solution_arsenal.Controller.Targets.{
  tasks_of_targets, bindings_in, delete_stale_render_tasks, delete_stale_render_bindings,
}
use solution_arsenal.Controller.Targets.Collect.{collect_releases}
use solution_arsenal.Controller.Targets.Deletes.{delete_listed-Safe}
use solution_arsenal.Controller.Targets.Owned.{is_stale_task, is_stale_binding}
use solution_arsenal.Controller.Targets.Conditions.{
  TargetReconciler, releases_rendered, releases_resolved,
}
use solution_arsenal.Controller.Targets.Reconcile.{
  secrets_or, look_up_secrets, clear_target, conclude, render_target, keep_target, reconcile_target,
}
use solution_arsenal.Controller.Targets.Policy.{
  IsSeen, was_read, IsRenderRegistry, IsBindingOf, IsCollected, IsFrom, IsCandidate, IsLooked,
  AllRendered, TargetPolicy, reads, lists, sets_conditions, protects, adds_own,
}
use solution_arsenal.Controller.Targets.Rules.{
  IsSeen-Extends, check_wrapped-Safe, set_condition-Safe, set_resolved_condition-Safe,
  refuse_with-Safe, wait_with-Safe,
}
use solution_arsenal.Controller.Targets.Later.{
  all-IsBindingOf-Extends, HoldsOwn-Extends, IsRenderRegistry-Extends, IsLooked-Extends,
  EachFrom-Extends, all-IsCandidate-Extends, AllRendered-Extends,
}
use solution_arsenal.Controller.Targets.Safety.RegistryPhase.{
  RegistryPolicy, asks_grants, fetches, marks, protects_read, Resolved, resolve_registry-Safe,
}
use solution_arsenal.Controller.Targets.Safety.DeletePhase.{
  cleans_tasks, cleans_bindings, delete_target-Safe,
}
use solution_arsenal.Controller.Targets.Safety.CollectPhase.{
  OnlyLists, lists_bindings, lists_grants, CollectedBindings, collect_bindings-Safe,
}
use solution_arsenal.Controller.Targets.Safety.ReleasesPhase.{Collected, collect_releases-Safe}
use solution_arsenal.Controller.Targets.Safety.RenderPhase.{render_releases-Safe}
use solution_arsenal.Controller.Targets.Safety.BootstrapPhase.{bootstrap-Safe}

module _ (r : TargetReconciler) (req : NamespacedName) where
  abbrev P : Policy
  P = TargetPolicy r req

  secrets_or-Safe :
      (target : Target) (res : Result LookupError Secrets) (h : History)
      → IsSeen req h target
      → AllBound target h res
      → Safe P (IsLooked req) Anything h (secrets_or r target res)
  secrets_or-Safe target (ok secrets) h i b =
      done-Safe P (IsLooked req) Anything h secrets (target, i, b)
  secrets_or-Safe target (err e) h i b =
      then-Safe P (IsSeen req) (IsLooked req) _ _ h
        (set_condition-Safe r req target releases_rendered h false _ _ i)
        (λ h' _ _ _. stop-Safe P (IsLooked req) Anything h' _ tt)

  only_lists : (h : History) (c : Call) → OnlyLists h c → P h c
  only_lists h _ (lists_bindings o) = lists release_bindings o
  only_lists h _ (lists_grants o) = lists reference_grants o

  may_resolve : (target : Target) (h : History) (c : Call) → RegistryPolicy req target h c → P h c
  may_resolve target h _ asks_grants = lists reference_grants _
  may_resolve target h _ (fetches p) = reads registries _
  may_resolve target h _ (marks t cs i) = sets_conditions t cs i
  may_resolve target h _ (protects_read registry u) = protects registry u

  reads_only : (target : Target) (h : History) (c : Call) → OnlyReads target h c → P h c
  reads_only target h _ reads_bindings = lists registry_bindings _
  reads_only target h _ (reads_registry rb) = reads registries _

  look_up_secrets-Safe :
      (target : Target) (h : History)
      → IsSeen req h target
      → Safe P (IsLooked req) Anything h (look_up_secrets r target)
  unfolding look_up_secrets
  look_up_secrets-Safe target h i =
      returned-then-Safe P (AllBound target) (IsLooked req) (build_pull_secrets_lookup target) _ h
        (Safe-map (OnlyReads target) P (AllBound target) (AllBound target) (AllBound target)
          (AllBound target) h (λ h' c _ p. reads_only target h' c p) (λ _ _ _ b. b) (λ _ _ _ b. b) _
          h (λ _ m. m) (build_pull_secrets_lookup-Reads target h))
        (λ h' res x b. secrets_or-Safe target res h' (IsSeen-Extends req h h' target x i) b)

  clear_target-Safe :
      (target : Target) (h : History)
      → IsSeen req h target
      → Safe P Anything Anything h (clear_target r target)
  unfolding clear_target delete_stale_render_tasks delete_stale_render_bindings
  clear_target-Safe target h i =
      then-Safe P (IsSeen req) Anything _ _ h
        (set_condition-Safe r req target releases_rendered h false _ _ i)
        (λ h1 t x1 i1.
          then-Safe P (IsSeen req) Anything _ _ h1
            (set_condition-Safe r req t releases_resolved h1 false _ _ i1)
            (λ h2 t' x2 i2.
              then-Safe P _ Anything _ _ h2
                (check_wrapped-Safe P _ _ r.settings _ _ h2
                  (delete_listed-Safe render_tasks (is_stale_task t' []) (tasks_of_targets t') h2)
                  (λ h' c x p.
                    cleans_tasks r req t' (is_stale_task t' []) (λ rt y. and_left _ _ y) h' c
                      (IsSeen-Extends req h2 h' t' x i2) p))
                (λ h3 _ x3 _.
                  then-Safe P _ Anything _ _ h3
                    (check_wrapped-Safe P _ _ r.settings _ _ h3
                      (delete_listed-Safe render_bindings (is_stale_binding t' []) (bindings_in t')
                        h3)
                      (λ h' c x p.
                        cleans_bindings r req t' (is_stale_binding t' []) (λ b y. and_left _ _ y) h'
                          c (IsSeen-Extends req h2 h' t' (λ v m. x v (x3 v m)) i2) p))
                    (λ h4 _ _ _. done-Safe P Anything Anything h4 (returns none) tt))))

  named-IsCollected :
      (h : History) (target : Target) (binding : ReleaseBinding) (ri : ReleaseInfo)
      → IsCollected req h r target binding ri
      → IsCollected req h r target binding (with_unique_name ri)
  unfolding with_unique_name
  named-IsCollected h target binding ri c = record {
    release_read = c.release_read;
    version_read = c.version_read;
    permitted = c.permitted;
    task_named = c.task_named;
  }

  module _ (target : Target) (bindings : List ReleaseBinding) where
    -- What is collected from bindings of the target, is a release of it.
    named_candidates :
        (h : History) (infos : List ReleaseInfo)
        → IsSeen req h target
        → All (IsBindingOf target h) bindings
        → All (IsFrom req h r target bindings) infos
        → All (IsCandidate req h r) (map with_unique_name infos)
    named_candidates h [] i b c = tt
    named_candidates h (ri ∷ infos) i b ((binding, m, c), cs) = (
      record {
        target = target;
        seen = i;
        binding = binding;
        bound = All-Memᴰ (IsBindingOf target h) bindings b m;
        collected = named-IsCollected h target binding ri c;
      },
      named_candidates h infos i b cs,
    )

    -- What the resolver deploys is so as well.
    resolved_candidates :
        (h : History) (infos : List ReleaseInfo)
        → IsSeen req h target
        → All (IsBindingOf target h) bindings
        → All (IsFrom req h r target bindings) infos
        → All (IsCandidate req h r) (resolve_release_conflicts r.lib.as_selector infos).0
    resolved_candidates h infos i b c =
        All-of_forall (IsCandidate req h r) (resolve_release_conflicts r.lib.as_selector infos).0
          (λ ri m.
            All-Memᴰ (IsCandidate req h r) (map with_unique_name infos)
              (named_candidates h infos i b c)
              (All-Memᴰ (λ ri. Memᴰ ri (map with_unique_name infos)) _
                (resolve-Memᴰ infos r.lib.as_selector) m))

  nonempty : (b pending : Bool) → (b && not pending) ≡ false → pending ≡ false → b ≡ false
  nonempty true true g p = cc
  nonempty true false g p = g
  nonempty false pending g p = refl

  module _ (registry : Registry) (registry_namespace : Str) where
    conclude-Safe :
        (target : Target) (pending_deps : Bool) (rendered : List ReleaseInfo × Bool) (h : History)
        → IsSeen req h target
        → IsRenderRegistry req h registry
        → (pending_deps ≡ false → rendered.1 ≡ true → AllRendered req h r registry rendered.0)
        → Safe P Anything Anything h
            (conclude r target registry registry_namespace pending_deps rendered)
    unfolding conclude
    conclude-Safe target pending_deps (infos, all_rendered) h i u a =
        if-Safe returns r.settings P Anything pending_deps _ _ h
          (λ _. wait_with-Safe r req target releases_rendered h _ _ _ i)
          (λ p. elim (Bool-cases all_rendered) [
            | inr n ↦ rw n (wait_with-Safe r req target releases_rendered h _ _ _ i)
            | inl y ↦ rw y (
                then-Safe P (IsSeen req) Anything _ _ h
                  (set_condition-Safe r req target releases_rendered h true _ _ i)
                  (λ h' t x i'.
                    bootstrap-Safe r req registry infos t registry_namespace h' i'
                      (IsRenderRegistry-Extends req h h' x registry u)
                      (AllRendered-Extends req h h' x r registry infos (a p y))))
          ])

    render_target-Safe :
        (target : Target) (secrets : Secrets) (bindings : List ReleaseBinding)
        (collected : List ReleaseInfo × Bool) (h : History)
        → IsSeen req h target
        → IsRenderRegistry req h registry
        → IsLooked req h secrets
        → CollectedBindings target r h bindings
        → (length bindings == 0) ≡ false
        → Collected r req target bindings h collected
        → Safe P Anything Anything h
            (render_target r target registry registry_namespace secrets collected)
    unfolding render_target
    render_target-Safe target secrets bindings (infos, pending_deps) h i u l b s c =
        let (resolved, skipped) = resolve_release_conflicts r.lib.as_selector infos in
        then-Safe P (IsSeen req) Anything _ _ h
          (set_resolved_condition-Safe r req target skipped h i)
          (λ h1 t x1 i1.
            if-Safe returns r.settings P Anything ((length resolved == 0) && not pending_deps) _ _
              h1 (λ _. refuse_with-Safe r req t releases_rendered h1 _ _ _ i1)
              (λ g.
                then-Safe P _ Anything _ _ h1
                  (render_releases-Safe r req t registry registry_namespace secrets resolved h1 i1
                    (IsRenderRegistry-Extends req h h1 x1 registry u)
                    (IsLooked-Extends req h h1 x1 secrets l)
                    (all-IsCandidate-Extends req h h1 x1 r resolved
                      (resolved_candidates target bindings h infos i b.0 c.0)))
                  (λ h2 rendered x2 k.
                    conclude-Safe t pending_deps rendered h2 (IsSeen-Extends req h1 h2 t x2 i1)
                      (IsRenderRegistry-Extends req h h2 (λ v m. x2 v (x1 v m)) registry u)
                      (λ p y. record {
                        collector = target;
                        collector_seen = IsSeen-Extends req h h2 target (λ v m. x2 v (x1 v m)) i;
                        bindings = bindings;
                        bound =
                            all-IsBindingOf-Extends h h2 (λ v m. x2 v (x1 v m)) target bindings b.0;
                        holds_own =
                            HoldsOwn-Extends h h2 (λ v m. x2 v (x1 v m)) target bindings b.1;
                        some_bound = s;
                        collected = infos;
                        complete =
                            EachFrom-Extends req h h2 (λ v m. x2 v (x1 v m)) r target bindings infos
                              (c.1 p);
                        some_deployed = nonempty (length resolved == 0) pending_deps g p;
                        deployed = k.0;
                        target = t;
                        seen = IsSeen-Extends req h1 h2 t x2 i1;
                        secrets = secrets;
                        looked = IsLooked-Extends req h h2 (λ v m. x2 v (x1 v m)) secrets l;
                        rendered = k.2 y;
                      }))))

    -- With the bindings and the pull secrets at hand, the releases are collected and rendered.
    render_bindings_of-Safe :
        (target : Target) (secrets : Secrets) (bindings : List ReleaseBinding) (h : History)
        → IsSeen req h target
        → IsRenderRegistry req h registry
        → IsLooked req h secrets
        → CollectedBindings target r h bindings
        → (length bindings == 0) ≡ false
        → Safe P Anything Anything h (
            and_then
              (collect_releases r target bindings [] false)
              (render_target r target registry registry_namespace secrets))
    render_bindings_of-Safe target secrets bindings h i u l b s =
        then-Safe P _ Anything _ _ h (collect_releases-Safe r req target bindings h)
          (λ h' collected x c.
            render_target-Safe target secrets bindings collected h'
              (IsSeen-Extends req h h' target x i) (IsRenderRegistry-Extends req h h' x registry u)
              (IsLooked-Extends req h h' x secrets l)
              (
                all-IsBindingOf-Extends h h' x target bindings b.0,
                HoldsOwn-Extends h h' x target bindings b.1,
              )
              s c)

  keep_target-Safe :
      (target : Target) (h : History)
      → IsSeen req h target
      → Safe P Anything Anything h (keep_target r req target)
  unfolding keep_target
  keep_target-Safe target h i =
      if-Safe returns r.settings P Anything (has_finalizer targets target target_finalizer) _ _ h
        (λ _.
          then-Safe P (Resolved r req) Anything _ _ h
            (Safe-map (RegistryPolicy req target) P (Resolved r req) (Resolved r req) Anything
              Anything h (λ h' c _ p. may_resolve target h' c p) (λ _ _ _ u. u) (λ _ _ _ _. tt) _ h
              (λ _ m. m) (resolve_registry-Safe r req target h i))
            (λ h1 resolved x1 u.
              then-Safe P (IsLooked req) Anything _ _ h1 (look_up_secrets-Safe resolved.0 h1 u.0)
                (λ h2 secrets x2 l.
                  then-Safe P (CollectedBindings resolved.0 r) Anything _ _ h2
                    (Safe-map OnlyLists P (CollectedBindings resolved.0 r)
                      (CollectedBindings resolved.0 r) Anything Anything h2
                      (λ h' c _ p. only_lists h' c p) (λ _ _ _ b. b) (λ _ _ _ _. tt) _ h2 (λ _ m. m)
                      (collect_bindings-Safe resolved.0 r h2))
                    (λ h3 bindings x3 b.
                      if-Safe returns r.settings P Anything (length bindings == 0) _ _ h3
                        (λ _.
                          clear_target-Safe resolved.0 h3
                            (IsSeen-Extends req h1 h3 _ (λ v m. x3 v (x2 v m)) u.0))
                        (λ s.
                          render_bindings_of-Safe resolved.1 _ resolved.0 secrets bindings h3
                            (IsSeen-Extends req h1 h3 _ (λ v m. x3 v (x2 v m)) u.0)
                            (IsRenderRegistry-Extends req h1 h3 (λ v m. x3 v (x2 v m)) _ u.1)
                            (IsLooked-Extends req h2 h3 x3 secrets l) b s)))))
        (λ _.
          then-Safe P Anything Anything _ _ h
            (Rules.add_own_finalizer-Safe returns r.settings P targets target_finalizer req target _
              _ h (reads targets req) (λ latest. adds_own latest (Memᴰ.head refl)))
            (λ h' _ _ _. done-Safe P Anything Anything h' (returns none) tt))

  -- Whatever the API server answers, every call of the Target controller is one that its policy
  -- allows. Apart from reading: on its target it sets conditions and the bootstrap version, adds its
  -- finalizer, and drops it only while the target is being deleted and the lists of what it owns show
  -- nothing that is left. It protects only a registry that the target refers to in its own namespace
  -- or by a grant that was read, and drops that protection only while the target is being deleted and
  -- the lists show nobody else who refers to the registry. It deletes a task or a binding only if a
  -- list showed it and the target owns it, or, a task, if it was read under the task name of a release
  -- of the target's bindings and its spec is not the one that is computed for that release. It makes a
  -- task for such a release with the computed spec; the bootstrap task, with the spec computed for its
  -- releases, only if there are bindings of the target, each has its release, and the resolver
  -- deploys some of these, all of which are rendered; a binding for a task that has succeeded; and an
  -- artifact behind it.
  pub reconcile_target-Safe : Safe P Anything Anything [] (reconcile_target r req)
  unfolding reconcile_target
  reconcile_target-Safe =
      with_object-Safe P Anything r.settings targets req _ _ (reads targets req) (λ target.
        if-Safe returns r.settings P Anything target.meta.deleting _ _ _
          (λ d. delete_target-Safe r req target _ (was_read target (Memᴰ.head refl)) d)
          (λ _. keep_target-Safe target _ (was_read target (Memᴰ.head refl))))
