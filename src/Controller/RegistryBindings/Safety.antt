-- ===== src/Controller/RegistryBindings/Safety.antt =====
-- What the RegistryBinding controller may do to the objects of the cluster.
use solution_arsenal.Prelude.{◌≡◌, refl, true, none, some, [], Memᴰ, ok, length, ltb}
use solution_arsenal.Str.{lit}
use solution_arsenal.Api.{Registry, RegistryBinding}
use solution_arsenal.Cluster.{registries, registry_bindings, NamespacedName, get, ◌>>◌, done}
use solution_arsenal.Cluster.Safe.{History, Policy, Safe, Safe-map, and_then-Safe, done-Safe}
use solution_arsenal.Controller.{Settings, Outcome, returns, drop_own_finalizer}
use solution_arsenal.Controller.Steps.{
  Allowed, reads, Anything, find-Safe, if-Safe, drop_own_finalizer-Safe, add_own_finalizer-Safe,
  protect-Safe, check-Safe, with_object-Safe,
}
use solution_arsenal.Controller.Rules.{Unprotecting-Allowed}
use solution_arsenal.Controller.Protection.{RegistryIsFree, remove_registry_ref_finalizer-Safe}
use solution_arsenal.Controller.Finalizers.{
  registry_binding_finalizer, registry_ref_finalizer, remove_registry_ref_finalizer,
}
use solution_arsenal.Controller.RegistryBindings.{
  registry_name, delete_registry_binding, keep_registry_binding, reconcile_registry_binding,
}

-- The binding was read, it is being deleted, and nobody but it refers to the registry.
pub record IsReleased (req : NamespacedName) (h : History) (fresh : Registry) : Type 0 where
  pub rb : RegistryBinding
  pub rb_read : Memᴰ (get registry_bindings req, ok rb) h
  pub deleting : rb.meta.deleting ≡ true
  pub registry : Registry
  pub is_free : RegistryIsFree none (some rb) registry h fresh

module _ (s : Settings) (req : NamespacedName) where
  abbrev pub registry_binding_policy : Policy
  registry_binding_policy =
      Allowed registry_bindings registries registry_binding_finalizer registry_ref_finalizer
        Anything (IsReleased req)

  module _ (rb : RegistryBinding) where
    abbrev Read : History → Type 0
    Read h = Memᴰ (get registry_bindings req, ok rb) h

    remove-Safe :
        (registry : Registry) (h : History)
        → Read h
        → rb.meta.deleting ≡ true
        → Safe registry_binding_policy Anything Anything h
            (remove_registry_ref_finalizer s none (some rb) registry)
    remove-Safe registry h m d =
        Safe-map _ registry_binding_policy Anything Anything Anything Anything h
          (λ h' c e p.
            Unprotecting-Allowed registry_bindings registries registry_binding_finalizer
              registry_ref_finalizer Anything _ (IsReleased req) h'
              (λ o f. record {
                rb = rb;
                rb_read = e _ m;
                deleting = d;
                registry = registry;
                is_free = f;
              })
              c p)
          (λ _ _ _ _. tt) (λ _ _ _ _. tt) (remove_registry_ref_finalizer s none (some rb) registry)
          h (λ _ i. i) (remove_registry_ref_finalizer-Safe s none (some rb) registry h)

    delete-Safe :
        (h : History)
        → Read h
        → rb.meta.deleting ≡ true
        → Safe registry_binding_policy Anything Anything h (delete_registry_binding s req rb)
    unfolding delete_registry_binding
    delete-Safe h m d = and_then-Safe registry_binding_policy Anything Anything _ _ h (
        if-Safe returns s registry_binding_policy _ (ltb 0 (length rb.registry_ref)) _ _ h
          (λ _.
            find-Safe returns s registry_binding_policy _ registries (registry_name rb) _ _ h
              (reads registries (registry_name rb))
              (λ registry.
                check-Safe registry_binding_policy _ _ _ (remove-Safe registry _ (Memᴰ.tail m) d)
                  drops)
              (λ e. done-Safe registry_binding_policy _ _ _ tt (drops _)))
          (λ _. done-Safe registry_binding_policy _ _ h tt (drops h)))
      where
        drops :
            (h' : History)
            → Safe registry_binding_policy Anything Anything h' (
                drop_own_finalizer returns s registry_bindings req rb registry_binding_finalizer
                  (lit "failed to get latest RegistryBinding for finalizer removal")
                  (lit "failed to remove finalizer from RegistryBinding")
                >> done (returns none))
        drops h' = and_then-Safe registry_binding_policy Anything Anything _ _ h' (
            drop_own_finalizer-Safe returns s registry_bindings registries
              registry_binding_finalizer registry_ref_finalizer Anything (IsReleased req) _ req rb _
              _ h' (λ h''. done-Safe registry_binding_policy _ _ h'' (returns none) tt))

    keep-Safe :
        (h : History)
        → Safe registry_binding_policy Anything Anything h (keep_registry_binding s req rb)
    unfolding keep_registry_binding
    keep-Safe h = and_then-Safe registry_binding_policy Anything Anything _ _ h (
        add_own_finalizer-Safe returns s registry_bindings registries registry_binding_finalizer
          registry_ref_finalizer Anything (IsReleased req) _ req rb _ _ h
          (λ h1. and_then-Safe registry_binding_policy Anything Anything _ _ h1 (
            if-Safe returns s registry_binding_policy _ (ltb 0 (length rb.registry_ref)) _ _ h1
              (λ _.
                find-Safe returns s registry_binding_policy _ registries (registry_name rb) _ _ h1
                  (reads registries (registry_name rb))
                  (λ registry.
                    protect-Safe returns s registry_bindings registries registry_binding_finalizer
                      registry_ref_finalizer Anything (IsReleased req) _ true registry _ _ tt ends)
                  (λ e. done-Safe registry_binding_policy _ _ _ tt (ends _)))
              (λ _. done-Safe registry_binding_policy _ _ h1 tt (ends h1)))))
      where
        ends :
            (h' : History)
            → Safe registry_binding_policy Anything
                (Anything {A = Outcome})
                h'
                (done (returns none))
        ends h' = done-Safe registry_binding_policy _ _ h' (returns none) tt

  -- Whatever the API server answers, the RegistryBinding controller only reads objects, adds and
  -- drops its own finalizer on registry bindings, and adds the protecting finalizer to registries;
  -- it drops that one from a registry only when the binding that it has read is being deleted, and
  -- the lists read before show no other referrer.
  pub reconcile_registry_binding-Safe :
      Safe registry_binding_policy Anything Anything [] (reconcile_registry_binding s req)
  unfolding reconcile_registry_binding
  reconcile_registry_binding-Safe =
      with_object-Safe registry_binding_policy Anything s registry_bindings req _ _
        (reads registry_bindings req)
        (λ rb.
          if-Safe returns s registry_binding_policy Anything rb.meta.deleting _ _ _
            (λ d. delete-Safe rb _ (Memᴰ.head refl) d) (λ _. keep-Safe rb _))
