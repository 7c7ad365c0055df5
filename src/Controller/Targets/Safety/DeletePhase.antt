-- ===== src/Controller/Targets/Safety/DeletePhase.antt =====
-- A target that is being deleted loses its finalizer only when what it owns is gone.
use solution_arsenal.Prelude.{◌≡◌, refl, Bool, true, none, some, Memᴰ, ltb, length}
use solution_arsenal.Str.{lit}
use solution_arsenal.Api.{Target, Registry, RenderTask, RenderBinding}
use solution_arsenal.Cluster.{
  targets, registries, render_tasks, render_bindings, NamespacedName, Call, done, ◌>>◌,
}
use solution_arsenal.Cluster.Safe.{History, Policy, Safe, Safe-map, Extends, done-Safe}
use solution_arsenal.Controller.{returns, drop_own_finalizer}
use solution_arsenal.Controller.Steps.{Anything, find-Safe, if-Safe, check-Safe}
use solution_arsenal.Controller.Rules as Rules
use solution_arsenal.Controller.Rules.{Unprotecting, looks_at, looks_for, frees, then-Safe}
use solution_arsenal.Controller.Protection.{RegistryIsFree, remove_registry_ref_finalizer-Safe}
use solution_arsenal.Controller.Finalizers.{
  target_finalizer, registry_ref_finalizer, remove_registry_ref_finalizer,
}
use solution_arsenal.Controller.Targets.{
  owns_task, owns_binding, tasks_of_targets, bindings_in, delete_owned_render_tasks,
  delete_owned_render_bindings,
}
use solution_arsenal.Controller.Targets.Deletes.{
  DeletesDoomed, lists_first, deletes_doomed, ListedGone, delete_listed-Safe, ListedGone-Extends,
}
use solution_arsenal.Controller.Targets.Conditions.{TargetReconciler}
use solution_arsenal.Controller.Targets.RenderRegistry.{registry_name}
use solution_arsenal.Controller.Targets.Reconcile.{delete_target, release_registry}
use solution_arsenal.Controller.Targets.Policy.{
  IsSeen, TargetPolicy, reads, lists, drops_own, unprotects, drops_owned_task, drops_owned_binding,
}
use solution_arsenal.Controller.Targets.Rules.{IsSeen-Extends, check_wrapped-Safe}

module _ (r : TargetReconciler) (req : NamespacedName) (target : Target) where
  abbrev P : Policy
  P = TargetPolicy r req

  abbrev Tasks : History → Type 0
  Tasks h = ListedGone render_tasks (owns_task target) (tasks_of_targets target) h none

  abbrev Bindings : History → Type 0
  Bindings h = ListedGone render_bindings (owns_binding target) (bindings_in target) h none

  -- The cleaning loops keep to the policy, whatever part of the owned objects they delete.
  pub cleans_tasks :
      (doomed : RenderTask → Bool)
      → ((rt : RenderTask) → doomed rt ≡ true → owns_task target rt ≡ true)
      → (h : History) (c : Call) → IsSeen req h target
      → DeletesDoomed render_tasks doomed (tasks_of_targets target) h c
      → P h c
  cleans_tasks doomed f h _ i lists_first = lists render_tasks _
  cleans_tasks doomed f h _ i (deletes_doomed o os l m d) =
      drops_owned_task target o os i l m (f o d)

  pub cleans_bindings :
      (doomed : RenderBinding → Bool)
      → ((b : RenderBinding) → doomed b ≡ true → owns_binding target b ≡ true)
      → (h : History) (c : Call) → IsSeen req h target
      → DeletesDoomed render_bindings doomed (bindings_in target) h c
      → P h c
  cleans_bindings doomed f h _ i lists_first = lists render_bindings _
  cleans_bindings doomed f h _ i (deletes_doomed o os l m d) =
      drops_owned_binding target o os i l m (f o d)

  frees_registry :
      (registry : Registry) (h : History) (c : Call)
      → IsSeen req h target
      → target.meta.deleting ≡ true
      → Unprotecting registries registry_ref_finalizer
          (RegistryIsFree (some target) none registry)
          h
          c
      → P h c
  frees_registry registry h _ i d (looks_at k n) = reads k n
  frees_registry registry h _ i d (looks_for k o) = lists k o
  frees_registry registry h _ i d (frees lock fresh f) =
      unprotects lock fresh
        (record { target = target; seen = i; deleting = d; registry = registry; is_free = f })

  module _ (h : History) (i : IsSeen req h target) (d : target.meta.deleting ≡ true) where
    -- From here on, the history is a later one.
    abbrev After : History → Type 0
    After h' = Extends h h'

    drops-Safe :
        (h' : History)
        → After h'
        → Tasks h'
        → Bindings h'
        → Safe P Anything Anything h' (
            drop_own_finalizer returns r.settings targets req target target_finalizer
              (lit "failed to get latest Target for finalizer removal")
              (lit "failed to remove finalizer from Target")
            >> done (returns none))
    drops-Safe h' x ts bs =
        then-Safe P Anything Anything _ _ h'
          (Rules.drop_own_finalizer-Safe returns r.settings P targets target_finalizer req target _
            _ h' (reads targets req)
            (λ latest. drops_own latest (Memᴰ.head refl) (record {
              target = target;
              seen = IsSeen-Extends req h _ target (λ v m. Memᴰ.tail (x v m)) i;
              deleting = d;
              tasks_gone = ListedGone-Extends render_tasks _ _ h' _ (λ _ m. Memᴰ.tail m) ts;
              bindings_gone = ListedGone-Extends render_bindings _ _ h' _ (λ _ m. Memᴰ.tail m) bs;
            })))
          (λ h'' _ _ _. done-Safe P Anything Anything h'' (returns none) tt)

    release_registry-Safe :
        (registry : Registry) (h' : History)
        → After h'
        → Safe P Anything Anything h' (release_registry r req target (some registry))
    release_registry-Safe registry h' x =
        check-Safe P Anything (remove_registry_ref_finalizer r.settings (some target) none registry)
          h'
          (Safe-map _ P Anything Anything Anything Anything h'
            (λ h'' c y p.
              frees_registry registry h'' c (IsSeen-Extends req h h'' target (λ v m. y v (x v m)) i)
                d p)
            (λ _ _ _ _. tt) (λ _ _ _ _. tt) _ h' (λ _ m. m)
            (remove_registry_ref_finalizer-Safe r.settings (some target) none registry h'))
          (λ _. tt)

    pub delete_target-Safe : Safe P Anything Anything h (delete_target r req target)
    unfolding delete_target delete_owned_render_tasks delete_owned_render_bindings
    delete_target-Safe =
        then-Safe P (λ h' _. Tasks h') Anything _ _ h
          (check_wrapped-Safe P _ _ r.settings _ _ h
            (delete_listed-Safe render_tasks (owns_task target) (tasks_of_targets target) h)
            (λ h' c x p.
              cleans_tasks (owns_task target) (λ _ y. y) h' c (IsSeen-Extends req h h' target x i)
                p))
          (λ h1 _ x1 ts.
            then-Safe P (λ h' _. Bindings h') Anything _ _ h1
              (check_wrapped-Safe P _ _ r.settings _ _ h1
                (delete_listed-Safe render_bindings (owns_binding target) (bindings_in target) h1)
                (λ h' c x p.
                  cleans_bindings (owns_binding target) (λ _ y. y) h' c
                    (IsSeen-Extends req h h' target (λ v m. x v (x1 v m)) i) p))
              (λ h2 _ x2 bs.
                then-Safe P Anything Anything _ _ h2
                  (if-Safe returns r.settings P Anything (ltb 0 (length target.render_registry_ref))
                    _ _ h2
                    (λ _.
                      find-Safe returns r.settings P Anything registries (registry_name target) _ _
                        h2 (reads registries (registry_name target))
                        (λ registry.
                          release_registry-Safe registry _ (λ v m. Memᴰ.tail (x2 v (x1 v m))))
                        (λ e. done-Safe P Anything Anything _ tt tt))
                    (λ _. done-Safe P Anything Anything h2 tt tt))
                  (λ h3 _ x3 _.
                    drops-Safe h3 (λ v m. x3 v (x2 v (x1 v m)))
                      (ListedGone-Extends render_tasks _ _ h1 h3 (λ v m. x3 v (x2 v m)) ts)
                      (ListedGone-Extends render_bindings _ _ h2 h3 x3 bs))))
