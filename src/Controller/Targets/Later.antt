-- ===== src/Controller/Targets/Later.antt =====
-- What the history has shown, later histories show as well.
use solution_arsenal.Prelude.{◌≡◌, ◌⊎◌, inl, inr, true, List, [], ◌∷◌, Memᴰ, ok, any, All, All-map}
use solution_arsenal.Str.{str_eq}
use solution_arsenal.Api.{Target, Registry, ReleaseBinding, RenderTask, ReferenceGrant}
use solution_arsenal.Grants.{grant_permits_component_version_access}
use solution_arsenal.PullSecrets.{Secrets}
use solution_arsenal.PullSecrets.Lookup.{AllBound-Extends}
use solution_arsenal.Resolver.{ReleaseInfo}
use solution_arsenal.Cluster.{NamespacedName}
use solution_arsenal.Cluster.Safe.{History, Extends}
use solution_arsenal.Controller.Releases.{cv_namespace, grants_in}
use solution_arsenal.Controller.Targets.Conditions.{TargetReconciler}
use solution_arsenal.Controller.Targets.RenderRegistry.{registry_namespace}
use solution_arsenal.Controller.Targets.Rules.{IsSeen-Extends}
use solution_arsenal.Controller.Targets.Policy.{
  IsRegistryGranted, IsRenderRegistry, IsBindingOf, of_namespace, let_in, HoldsOwn, IsCollected,
  IsFrom, EachFrom, IsCandidate, IsLooked, IsTask, was_got, was_made, HasTask, is_there, is_made,
  IsRendered, AllRendered,
}

module _ (h h' : History) (x : Extends h h') where
  pub IsBindingOf-Extends :
      (target : Target) (rb : ReleaseBinding) → IsBindingOf target h rb → IsBindingOf target h' rb
  IsBindingOf-Extends target rb (of_namespace rbs l m y) = of_namespace rbs (x _ l) m y
  IsBindingOf-Extends target rb (let_in gs g f rbs l m y k z l' n w) =
      let_in gs g f rbs (x _ l) m y k z (x _ l') n w

  pub all-IsBindingOf-Extends :
      (target : Target) (rbs : List ReleaseBinding)
      → All (IsBindingOf target h) rbs
      → All (IsBindingOf target h') rbs
  all-IsBindingOf-Extends target rbs a =
      All-map (IsBindingOf target h) (IsBindingOf target h') rbs (IsBindingOf-Extends target) a

  pub HoldsOwn-Extends :
      (target : Target) (bindings : List ReleaseBinding)
      → HoldsOwn target h bindings
      → HoldsOwn target h' bindings
  HoldsOwn-Extends target bindings (rbs, l, a) = (rbs, x _ l, a)

module _ (req : NamespacedName) (h h' : History) (x : Extends h h') where
  pub IsRegistryGranted-Extends :
      (t : Target) → IsRegistryGranted req h t → IsRegistryGranted req h' t
  IsRegistryGranted-Extends t g = record {
    grants = g.grants;
    grants_listed = x _ g.grants_listed;
    permitted = g.permitted;
  }

  pub permitted-Extends :
      (t : Target)
      → (str_eq (registry_namespace t) t.meta.namespace ≡ true) ⊎ IsRegistryGranted req h t
      → (str_eq (registry_namespace t) t.meta.namespace ≡ true) ⊎ IsRegistryGranted req h' t
  permitted-Extends t (inl y) = inl y
  permitted-Extends t (inr g) = inr (IsRegistryGranted-Extends t g)

  pub IsRenderRegistry-Extends :
      (registry : Registry) → IsRenderRegistry req h registry → IsRenderRegistry req h' registry
  IsRenderRegistry-Extends registry u = record {
    target = u.target;
    seen = IsSeen-Extends req h h' u.target x u.seen;
    registry_read = x _ u.registry_read;
    permitted = permitted-Extends u.target u.permitted;
  }

  pub IsLooked-Extends : (secrets : Secrets) → IsLooked req h secrets → IsLooked req h' secrets
  IsLooked-Extends secrets (t, i, b) =
      (t, IsSeen-Extends req h h' t x i, AllBound-Extends t h h' secrets x b)

  pub IsCollected-Extends :
      (r : TargetReconciler) (target : Target) (binding : ReleaseBinding) (ri : ReleaseInfo)
      → IsCollected req h r target binding ri
      → IsCollected req h' r target binding ri
  IsCollected-Extends r target binding ri c = record {
    release_read = x _ c.release_read;
    version_read = x _ c.version_read;
    permitted = later c.permitted;
    task_named = c.task_named;
  }
    where
      GrantedIn : History → Type 0
      GrantedIn k =
          (grants : List ReferenceGrant) × Memᴰ (grants_in (cv_namespace ri.release), ok grants) k
          × (any (λ g. grant_permits_component_version_access g ri.release.meta.namespace) grants
              ≡ true)

      later :
          (str_eq (cv_namespace ri.release) ri.release.meta.namespace ≡ true) ⊎ GrantedIn h
          → (str_eq (cv_namespace ri.release) ri.release.meta.namespace ≡ true) ⊎ GrantedIn h'
      later (inl y) = inl y
      later (inr (gs, l, y)) = inr (gs, x _ l, y)

  pub all-IsFrom-Extends :
      (r : TargetReconciler) (target : Target) (bindings : List ReleaseBinding)
      (ris : List ReleaseInfo)
      → All (IsFrom req h r target bindings) ris
      → All (IsFrom req h' r target bindings) ris
  all-IsFrom-Extends r target bindings ris c =
      All-map (IsFrom req h r target bindings) (IsFrom req h' r target bindings) ris
        (λ ri (binding, m, k). (binding, m, IsCollected-Extends r target binding ri k)) c

  pub EachFrom-Extends :
      (r : TargetReconciler) (target : Target) (bindings : List ReleaseBinding)
      (ris : List ReleaseInfo)
      → EachFrom req h r target bindings ris
      → EachFrom req h' r target bindings ris
  EachFrom-Extends r target [] [] c = tt
  EachFrom-Extends r target [] (ri ∷ ris) c = c
  EachFrom-Extends r target (binding ∷ bindings) [] c = c
  EachFrom-Extends r target (binding ∷ bindings) (ri ∷ ris) (c, cs) =
      (IsCollected-Extends r target binding ri c, EachFrom-Extends r target bindings ris cs)

  pub IsCandidate-Extends :
      (r : TargetReconciler) (ri : ReleaseInfo) → IsCandidate req h r ri → IsCandidate req h' r ri
  IsCandidate-Extends r ri c = record {
    target = c.target;
    seen = IsSeen-Extends req h h' c.target x c.seen;
    binding = c.binding;
    bound = IsBindingOf-Extends h h' x c.target c.binding c.bound;
    collected = IsCollected-Extends r c.target c.binding ri c.collected;
  }

  pub all-IsCandidate-Extends :
      (r : TargetReconciler) (ris : List ReleaseInfo)
      → All (IsCandidate req h r) ris
      → All (IsCandidate req h' r) ris
  all-IsCandidate-Extends r ris c =
      All-map (IsCandidate req h r) (IsCandidate req h' r) ris (IsCandidate-Extends r) c

  pub IsTask-Extends : (rt : RenderTask) → IsTask req h rt → IsTask req h' rt
  IsTask-Extends rt (was_got n m) = was_got n (x _ m)
  IsTask-Extends rt (was_made o m) = was_made o (x _ m)

  module _ (r : TargetReconciler) (target : Target) (registry : Registry) (secrets : Secrets) where
    pub HasTask-Extends :
        (ri : ReleaseInfo) (rt : RenderTask)
        → HasTask req h r target registry secrets ri rt
        → HasTask req h' r target registry secrets ri rt
    HasTask-Extends ri rt (is_there spec e m y) = is_there spec e (x _ m) y
    HasTask-Extends ri rt (is_made spec e m) = is_made spec e (x _ m)

    pub all-HasTask-Extends :
        (ris : List ReleaseInfo)
        → All (λ ri. (rt : RenderTask) × HasTask req h r target registry secrets ri rt) ris
        → All (λ ri. (rt : RenderTask) × HasTask req h' r target registry secrets ri rt) ris
    all-HasTask-Extends [] k = tt
    all-HasTask-Extends (ri ∷ ris) ((rt, k), ks) =
        ((rt, HasTask-Extends ri rt k), all-HasTask-Extends ris ks)

    pub IsRendered-Extends :
        (ri : ReleaseInfo)
        → IsRendered req h r target registry secrets ri
        → IsRendered req h' r target registry secrets ri
    IsRendered-Extends ri d = record {
      rt = d.rt;
      has = HasTask-Extends ri d.rt d.has;
      rendered = d.rendered;
      chart = d.chart;
      artifact = d.artifact;
      binding = d.binding;
    }

    pub all-IsRendered-Extends :
        (ris : List ReleaseInfo)
        → All (IsRendered req h r target registry secrets) ris
        → All (IsRendered req h' r target registry secrets) ris
    all-IsRendered-Extends ris c =
        All-map (IsRendered req h r target registry secrets)
          (IsRendered req h' r target registry secrets) ris IsRendered-Extends c

  pub AllRendered-Extends :
      (r : TargetReconciler) (registry : Registry) (infos : List ReleaseInfo)
      → AllRendered req h r registry infos
      → AllRendered req h' r registry infos
  AllRendered-Extends r registry infos a = record {
    collector = a.collector;
    collector_seen = IsSeen-Extends req h h' a.collector x a.collector_seen;
    bindings = a.bindings;
    bound = all-IsBindingOf-Extends h h' x a.collector a.bindings a.bound;
    holds_own = HoldsOwn-Extends h h' x a.collector a.bindings a.holds_own;
    some_bound = a.some_bound;
    collected = a.collected;
    complete = EachFrom-Extends r a.collector a.bindings a.collected a.complete;
    some_deployed = a.some_deployed;
    deployed = a.deployed;
    target = a.target;
    seen = IsSeen-Extends req h h' a.target x a.seen;
    secrets = a.secrets;
    looked = IsLooked-Extends a.secrets a.looked;
    rendered = all-IsRendered-Extends r a.target registry a.secrets infos a.rendered;
  }
