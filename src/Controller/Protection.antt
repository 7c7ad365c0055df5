-- ===== src/Controller/Protection.antt =====
-- A protecting finalizer is taken away only while nobody else refers to the object.
use solution_arsenal.Prelude.{◌≡◌, refl, true, false, Option, none, List, Memᴰ, ok, any}
use solution_arsenal.Str.{Str}
use solution_arsenal.Api.{Target, Registry, RegistryBinding, Release, ComponentVersion, Component}
use solution_arsenal.Cluster.{
  targets, registries, registry_bindings, releases, component_versions, components, get,
  has_finalizer,
}
use solution_arsenal.Cluster.Safe.{History, Safe, and_then-Safe, done-Safe, stop-Safe}
use solution_arsenal.Controller.{Settings, key_of}
use solution_arsenal.Controller.Steps.{
  Allowed, lists, Anything, attempt-Safe, if-Safe, unprotect-Safe,
}
use solution_arsenal.Controller.Rules as Rules
use solution_arsenal.Controller.Rules.{Unprotecting, looks_at, looks_for, frees, then-Safe}
use solution_arsenal.Controller.Finalizers.{
  registry_ref_finalizer, component_ref_finalizer, component_version_ref_finalizer,
  targets_of_registry, bindings_of_registry, versions_of_component, releases_of_version,
  is_other_target, is_other_registry_binding, is_other_component_version, is_other_release, exits,
  remove_registry_ref_finalizer, remove_component_ref_finalizer,
  remove_component_version_ref_finalizer,
}

-- The lists that were read show no other target and no other registry binding, and the registry was
-- read again after that.
pub record RegistryIsFree (skip_target : Option Target)
    (skip_registry_binding : Option RegistryBinding) (registry : Registry) (h : History)
    (fresh : Registry) : Type 0 where
  pub ts : List Target
  pub ts_listed : Memᴰ (targets_of_registry registry, ok ts) h
  pub no_target : any (is_other_target skip_target) ts ≡ false
  pub rbs : List RegistryBinding
  pub rbs_listed : Memᴰ (bindings_of_registry registry, ok rbs) h
  pub no_binding : any (is_other_registry_binding skip_registry_binding) rbs ≡ false
  pub read_again : Memᴰ (get registries (key_of registries registry), ok fresh) h

-- removeRegistryRefFinalizer only reads, and drops the protecting finalizer of a registry after it
-- has seen that no target and no registry binding refers to it, but for the ones to be skipped and
-- those that are being deleted.
pub remove_registry_ref_finalizer-Safe :
    (s : Settings) (skip_target : Option Target) (skip_registry_binding : Option RegistryBinding)
    (registry : Registry) (h : History)
    → Safe
        (Unprotecting registries registry_ref_finalizer
          (RegistryIsFree skip_target skip_registry_binding registry))
        Anything
        Anything
        h
        (remove_registry_ref_finalizer s skip_target skip_registry_binding registry)
unfolding remove_registry_ref_finalizer
remove_registry_ref_finalizer-Safe s skip_target skip_rb registry h =
    if-Safe exits s _ _ (has_finalizer registries registry registry_ref_finalizer) _ _ h
      (λ _. attempt-Safe exits s _ _ _ _ _ h (looks_for targets _) (λ ts.
        if-Safe exits s _ _ (any (is_other_target skip_target) ts) _ _ _
          (λ _. stop-Safe _ _ _ _ _ tt)
          (λ no_target. attempt-Safe exits s _ _ _ _ _ _ (looks_for registry_bindings _) (λ rbs.
            if-Safe exits s _ _ (any (is_other_registry_binding skip_rb) rbs) _ _ _
              (λ _. stop-Safe _ _ _ _ _ tt)
              (λ no_binding.
                then-Safe _ Anything _ _ _ _
                  (Rules.unprotect-Safe exits s _ registries registry_ref_finalizer true registry _
                    _ _ (looks_at registries _)
                    (λ fresh. frees true fresh (record {
                      ts = ts;
                      ts_listed = Memᴰ.tail (Memᴰ.tail (Memᴰ.head refl));
                      no_target = no_target;
                      rbs = rbs;
                      rbs_listed = Memᴰ.tail (Memᴰ.head refl);
                      no_binding = no_binding;
                      read_again = Memᴰ.head refl;
                    })))
                  (λ h' _ _ _. done-Safe _ _ _ h' none tt))))))
      (λ _. stop-Safe _ _ _ h none tt)

pub record ComponentIsFree (deleting_cv : ComponentVersion) (comp : Component) (h : History)
    (fresh : Component) : Type 0 where
  pub cvs : List ComponentVersion
  pub cvs_listed : Memᴰ (versions_of_component comp, ok cvs) h
  pub no_version : any (is_other_component_version deleting_cv) cvs ≡ false
  pub read_again : Memᴰ (get components (key_of components comp), ok fresh) h

pub remove_component_ref_finalizer-Safe :
    (s : Settings) (deleting_cv : ComponentVersion) (comp : Component) (own_finalizer : Str)
    (may : History → Component → Type 0) (h : History)
    → Safe
        (Allowed component_versions components own_finalizer component_ref_finalizer may
          (ComponentIsFree deleting_cv comp))
        Anything
        Anything
        h
        (remove_component_ref_finalizer s deleting_cv comp)
unfolding remove_component_ref_finalizer
remove_component_ref_finalizer-Safe s deleting_cv comp own_finalizer may h =
    if-Safe exits s _ _ (has_finalizer components comp component_ref_finalizer) _ _ h
      (λ _. attempt-Safe exits s _ _ _ _ _ h (lists component_versions _) (λ cvs.
        if-Safe exits s _ _ (any (is_other_component_version deleting_cv) cvs) _ _ _
          (λ _. stop-Safe _ _ _ _ _ tt)
          (λ no_version. and_then-Safe _ _ _ _ _ _ (
            unprotect-Safe exits s component_versions components own_finalizer
              component_ref_finalizer may _ _ false comp _ _ _
              (λ fresh. record {
                cvs = cvs;
                cvs_listed = Memᴰ.tail (Memᴰ.head refl);
                no_version = no_version;
                read_again = Memᴰ.head refl;
              })
              (λ h'. done-Safe _ _ _ h' none tt)))))
      (λ _. stop-Safe _ _ _ h none tt)

pub record VersionIsFree (deleting_release : Release) (cv : ComponentVersion) (h : History)
    (fresh : ComponentVersion) : Type 0 where
  pub rels : List Release
  pub rels_listed : Memᴰ (releases_of_version cv, ok rels) h
  pub no_release : any (is_other_release deleting_release) rels ≡ false
  pub read_again : Memᴰ (get component_versions (key_of component_versions cv), ok fresh) h

pub remove_component_version_ref_finalizer-Safe :
    (s : Settings) (deleting_release : Release) (cv : ComponentVersion) (own_finalizer : Str)
    (may : History → ComponentVersion → Type 0) (h : History)
    → Safe
        (Allowed releases component_versions own_finalizer component_version_ref_finalizer may
          (VersionIsFree deleting_release cv))
        Anything
        Anything
        h
        (remove_component_version_ref_finalizer s deleting_release cv)
unfolding remove_component_version_ref_finalizer
remove_component_version_ref_finalizer-Safe s deleting_release cv own_finalizer may h =
    if-Safe exits s _ _ (has_finalizer component_versions cv component_version_ref_finalizer) _ _ h
      (λ _. attempt-Safe exits s _ _ _ _ _ h (lists releases _) (λ rels.
        if-Safe exits s _ _ (any (is_other_release deleting_release) rels) _ _ _
          (λ _. stop-Safe _ _ _ _ _ tt)
          (λ no_release. and_then-Safe _ _ _ _ _ _ (
            unprotect-Safe exits s releases component_versions own_finalizer
              component_version_ref_finalizer may _ _ false cv _ _ _
              (λ fresh. record {
                rels = rels;
                rels_listed = Memᴰ.tail (Memᴰ.head refl);
                no_release = no_release;
                read_again = Memᴰ.head refl;
              })
              (λ h'. done-Safe _ _ _ h' none tt)))))
      (λ _. stop-Safe _ _ _ h none tt)
