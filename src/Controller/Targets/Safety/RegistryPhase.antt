-- ===== src/Controller/Targets/Safety/RegistryPhase.antt =====
-- The render registry is used only from the target's own namespace or by a grant.
use solution_arsenal.Prelude.{
  ◌≡◌, ◌⊎◌, Bool, refl, inl, inr, true, false, Option, none, some, List, [], ◌∷◌, ◌++◌, Memᴰ,
}
use solution_arsenal.Str.{Str, str_eq}
use solution_arsenal.Api.{Target, Registry, Condition}
use solution_arsenal.Cluster.{
  registries, targets, NamespacedName, Call, get, patch, update_status, refinalize, meta_of,
}
use solution_arsenal.Cluster.Safe.{History, Policy, Event, Safe, Extends, done-Safe}
use solution_arsenal.Controller.{returns}
use solution_arsenal.Controller.Steps.{Anything, attempt-Safe, find-Safe, if-Safe}
use solution_arsenal.Controller.Rules as Rules
use solution_arsenal.Controller.Rules.{then-Safe}
use solution_arsenal.Controller.Finalizers.{registry_ref_finalizer}
use solution_arsenal.Controller.Releases.{grants_in}
use solution_arsenal.Controller.Targets.Conditions.{TargetReconciler, registry_resolved}
use solution_arsenal.Controller.Targets.RenderRegistry.{
  registry_namespace, registry_name, registry_granted, granted_or, check_registry_grant, secret_or,
  registry_found_or, resolve_registry,
}
use solution_arsenal.Controller.Targets.Policy.{IsSeen, IsRegistryGranted, IsRenderRegistry}
use solution_arsenal.Controller.Targets.Rules.{
  IsSeen-Extends, sets_condition-Safe, refuses-Safe, waits-Safe,
}
use solution_arsenal.Controller.Targets.Later.{permitted-Extends, IsRenderRegistry-Extends}

-- The render registry lies in the target's namespace, or a grant that was read permits it.
abbrev pub IsPermitted : NamespacedName → Target → History → Type 0
IsPermitted req target h =
    (str_eq (registry_namespace target) target.meta.namespace ≡ true)
    ⊎ IsRegistryGranted req h target

-- The grants are listed, the registry is read once the target may refer to it, conditions are set on
-- the target, and the registry that was read so is protected.
pub data RegistryPolicy (req : NamespacedName) (target : Target) (h : History) : Call → Type 0 where
  asks_grants : RegistryPolicy req target h (grants_in (registry_namespace target))
  fetches :
      IsPermitted req target h → RegistryPolicy req target h (get registries (registry_name target))
  marks :
      (t : Target) (conditions : List Condition)
      → IsSeen req h t
      → RegistryPolicy req target h (update_status targets (record t { conditions = conditions }))
  protects_read :
      (registry : Registry)
      → IsRenderRegistry req h registry
      → RegistryPolicy req target h (
          patch registries true registry (
            refinalize registries registry
              ((meta_of registries registry).finalizers ++ registry_ref_finalizer ∷ [])))

module _ (r : TargetReconciler) (req : NamespacedName) where
  -- The target, as it is after the condition was set, and its registry.
  abbrev pub Resolved : History → Target × Registry → Type 0
  Resolved h (t, registry) = IsSeen req h t × IsRenderRegistry req h registry

  module _ (target : Target) where
    abbrev P : Policy
    P = RegistryPolicy req target

    abbrev MayBeGranted : History → Bool → Type 0
    MayBeGranted h b = b ≡ true → IsRegistryGranted req h target

    registry_granted-Safe :
        (h : History)
        → Safe P MayBeGranted Anything h
            (registry_granted r (registry_namespace target) target.meta.namespace)
    unfolding registry_granted
    registry_granted-Safe h =
        attempt-Safe returns r.settings P MayBeGranted _ _ _ h asks_grants (λ grants.
          done-Safe P MayBeGranted Anything _ _
            (λ y. record { grants = grants; grants_listed = Memᴰ.head refl; permitted = y }))

    granted_or-Safe :
        (h : History) (b : Bool)
        → IsSeen req h target
        → MayBeGranted h b
        → Safe P (λ h' _. IsPermitted req target h') Anything h (granted_or r target b)
    granted_or-Safe h true i g =
        done-Safe P (λ h' _. IsPermitted req target h') Anything h tt (inr (g refl))
    granted_or-Safe h false i g =
        waits-Safe r req P (λ _ t cs j. marks t cs j) target registry_resolved h _ _ _ i

    check_registry_grant-Safe :
        (h : History)
        → IsSeen req h target
        → Safe P (λ h' _. IsPermitted req target h') Anything h (check_registry_grant r target)
    unfolding check_registry_grant
    check_registry_grant-Safe h i =
        if-Safe returns r.settings P (λ h' _. IsPermitted req target h')
          (str_eq (registry_namespace target) target.meta.namespace) _ _ h
          (λ y. done-Safe P (λ h' _. IsPermitted req target h') Anything h tt (inl y))
          (λ _.
            then-Safe P MayBeGranted _ _ _ h (registry_granted-Safe h)
              (λ h' b x g. granted_or-Safe h' b (IsSeen-Extends req h h' target x i) g))

    secret_or-Safe :
        (registry : Registry) (secret : Option Str) (h : History)
        → IsSeen req h target
        → IsRenderRegistry req h registry
        → Safe P Resolved Anything h (secret_or r target registry secret)
    secret_or-Safe registry none h i u =
        refuses-Safe r req P (λ _ t cs j. marks t cs j) target registry_resolved h _ _ _ i
    secret_or-Safe registry (some v) h i u =
        then-Safe P (IsSeen req) Resolved _ _ h
          (sets_condition-Safe r req P (λ _ t cs j. marks t cs j) target registry_resolved h true _
            _ i)
          (λ h' t x j.
            done-Safe P Resolved Anything h' (t, registry)
              (j, IsRenderRegistry-Extends req h h' x registry u))

    abbrev MayUse : History → Option Registry → Type 0
    MayUse h none = Unit
    MayUse h (some registry) = IsRenderRegistry req h registry

    registry_found_or-Safe :
        (found : Option Registry) (h : History)
        → IsSeen req h target
        → MayUse h found
        → Safe P Resolved Anything h (registry_found_or r target found)
    registry_found_or-Safe none h i u =
        waits-Safe r req P (λ _ t cs j. marks t cs j) target registry_resolved h _ _ _ i
    registry_found_or-Safe (some registry) h i u =
        then-Safe P Anything Resolved _ _ h
          (Rules.protect-Safe returns r.settings P registries registry_ref_finalizer true registry _
            h (protects_read registry u))
          (λ h' _ x _.
            secret_or-Safe registry registry.solar_secret_ref h'
              (IsSeen-Extends req h h' target x i) (IsRenderRegistry-Extends req h h' x registry u))

    -- For a target that was read, whatever the API server answers: the registry it refers to is read
    -- only if it lies in the target's namespace or after a grant that permits it was read; apart from
    -- that, only the grants are listed, conditions are set on the target, and the registry that was
    -- read so gets the protecting finalizer. What is resolved is such a registry, with the target as
    -- it is then.
    pub resolve_registry-Safe :
        (h : History)
        → IsSeen req h target
        → Safe (RegistryPolicy req target) Resolved Anything h (resolve_registry r target)
    unfolding resolve_registry
    resolve_registry-Safe h i =
        then-Safe P (λ h' _. IsPermitted req target h') Resolved _ _ h
          (check_registry_grant-Safe h i)
          (λ h' _ x p.
            find-Safe returns r.settings P Resolved registries (registry_name target) _ _ h'
              (fetches p)
              (λ registry. registry_found_or-Safe (some registry) _ (seen_then h' _ x) (record {
                target = target;
                seen = seen_then h' _ x;
                registry_read = Memᴰ.head refl;
                permitted = permitted-Extends req h' _ (λ v m. Memᴰ.tail m) target p;
              }))
              (λ e. registry_found_or-Safe none _ (seen_then h' _ x) tt))
      where
        seen_then : (h' : History) (e : Event) → Extends h h' → IsSeen req (e ∷ h') target
        seen_then h' e x = IsSeen-Extends req h _ target (λ v m. Memᴰ.tail (x v m)) i
