-- ===== src/Controller/ComponentVersions/Safety.antt =====
-- What the ComponentVersion controller may do to the objects of the cluster.
use solution_arsenal.Prelude.{◌≡◌, refl, true, false, none, [], Memᴰ, ok, length, ltb}
use solution_arsenal.Str.{lit}
use solution_arsenal.Api.{Component, ComponentVersion}
use solution_arsenal.Cluster.{components, component_versions, NamespacedName, get, ◌>>◌, done}
use solution_arsenal.Cluster.Safe.{History, Policy, Safe, Safe-map, and_then-Safe, done-Safe}
use solution_arsenal.Controller.{Settings, Outcome, returns, drop_own_finalizer}
use solution_arsenal.Controller.Steps.{
  Allowed, Allowed-map, reads, Anything, find-Safe, if-Safe, drop_own_finalizer-Safe,
  add_own_finalizer-Safe, protect-Safe, check-Safe, with_object-Safe,
}
use solution_arsenal.Controller.Protection.{ComponentIsFree, remove_component_ref_finalizer-Safe}
use solution_arsenal.Controller.Finalizers.{
  component_version_finalizer, component_ref_finalizer, remove_component_ref_finalizer,
}
use solution_arsenal.Controller.ComponentVersions.{
  component_name, delete_component_version, keep_component_version, reconcile_component_version,
}

-- The version was read, it is being deleted, and nobody but it refers to the component.
pub record IsReleased (req : NamespacedName) (h : History) (fresh : Component) : Type 0 where
  pub cv : ComponentVersion
  pub cv_read : Memᴰ (get component_versions req, ok cv) h
  pub deleting : cv.meta.deleting ≡ true
  pub comp : Component
  pub is_free : ComponentIsFree cv comp h fresh

module _ (s : Settings) (req : NamespacedName) where
  abbrev pub component_version_policy : Policy
  component_version_policy =
      Allowed component_versions components component_version_finalizer component_ref_finalizer
        Anything (IsReleased req)

  module _ (cv : ComponentVersion) where
    abbrev Read : History → Type 0
    Read h = Memᴰ (get component_versions req, ok cv) h

    remove-Safe :
        (comp : Component) (h : History)
        → Read h
        → cv.meta.deleting ≡ true
        → Safe component_version_policy Anything Anything h
            (remove_component_ref_finalizer s cv comp)
    remove-Safe comp h m d =
        Safe-map _ component_version_policy Anything Anything Anything Anything h
          (λ h' c e p.
            Allowed-map _ _ _ _ Anything _ (IsReleased req) h'
              (λ o f. record { cv = cv; cv_read = e _ m; deleting = d; comp = comp; is_free = f }) c
              p)
          (λ _ _ _ _. tt) (λ _ _ _ _. tt) (remove_component_ref_finalizer s cv comp) h (λ _ i. i)
          (remove_component_ref_finalizer-Safe s cv comp component_version_finalizer Anything h)

    delete-Safe :
        (h : History)
        → Read h
        → cv.meta.deleting ≡ true
        → Safe component_version_policy Anything Anything h (delete_component_version s req cv)
    unfolding delete_component_version
    delete-Safe h m d = and_then-Safe component_version_policy Anything Anything _ _ h (
        if-Safe returns s component_version_policy _ (ltb 0 (length cv.component_ref)) _ _ h
          (λ _.
            find-Safe returns s component_version_policy _ components (component_name cv) _ _ h
              (reads components (component_name cv))
              (λ comp.
                check-Safe component_version_policy _ _ _ (remove-Safe comp _ (Memᴰ.tail m) d)
                  drops)
              (λ e. done-Safe component_version_policy _ _ _ tt (drops _)))
          (λ _. done-Safe component_version_policy _ _ h tt (drops h)))
      where
        drops :
            (h' : History)
            → Safe component_version_policy Anything Anything h' (
                drop_own_finalizer returns s component_versions req cv component_version_finalizer
                  (lit "failed to get latest ComponentVersion for finalizer removal")
                  (lit "failed to remove finalizer from ComponentVersion")
                >> done (returns none))
        drops h' = and_then-Safe component_version_policy Anything Anything _ _ h' (
            drop_own_finalizer-Safe returns s component_versions components
              component_version_finalizer component_ref_finalizer Anything (IsReleased req) _ req cv
              _ _ h' (λ h''. done-Safe component_version_policy _ _ h'' (returns none) tt))

    keep-Safe :
        (h : History)
        → Safe component_version_policy Anything Anything h (keep_component_version s req cv)
    unfolding keep_component_version
    keep-Safe h = and_then-Safe component_version_policy Anything Anything _ _ h (
        add_own_finalizer-Safe returns s component_versions components component_version_finalizer
          component_ref_finalizer Anything (IsReleased req) _ req cv _ _ h
          (λ h1. and_then-Safe component_version_policy Anything Anything _ _ h1 (
            if-Safe returns s component_version_policy _ (ltb 0 (length cv.component_ref)) _ _ h1
              (λ _.
                find-Safe returns s component_version_policy _ components (component_name cv) _ _ h1
                  (reads components (component_name cv))
                  (λ comp.
                    protect-Safe returns s component_versions components component_version_finalizer
                      component_ref_finalizer Anything (IsReleased req) _ false comp _ _ tt ends)
                  (λ e. done-Safe component_version_policy _ _ _ tt (ends _)))
              (λ _. done-Safe component_version_policy _ _ h1 tt (ends h1)))))
      where
        ends :
            (h' : History)
            → Safe component_version_policy Anything
                (Anything {A = Outcome})
                h'
                (done (returns none))
        ends h' = done-Safe component_version_policy _ _ h' (returns none) tt

  -- Whatever the API server answers, the ComponentVersion controller only reads objects, adds and
  -- drops its own finalizer on component versions, and adds the protecting finalizer to components;
  -- it drops that one from a component only when the version that it has read is being deleted, and
  -- the list read before shows no other version of it.
  pub reconcile_component_version-Safe :
      Safe component_version_policy Anything Anything [] (reconcile_component_version s req)
  unfolding reconcile_component_version
  reconcile_component_version-Safe =
      with_object-Safe component_version_policy Anything s component_versions req _ _
        (reads component_versions req)
        (λ cv.
          if-Safe returns s component_version_policy Anything cv.meta.deleting _ _ _
            (λ d. delete-Safe cv _ (Memᴰ.head refl) d) (λ _. keep-Safe cv _))
