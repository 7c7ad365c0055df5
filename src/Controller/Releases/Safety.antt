-- ===== src/Controller/Releases/Safety.antt =====
-- What the Release controller may do to the objects of the cluster.
use solution_arsenal.Prelude.{
  ◌≡◌, ◌⊎◌, refl, inl, inr, Bool, true, false, Option, none, some, List, [], ◌∷◌, ◌++◌, Memᴰ, ok,
  length, ltb, any, not, ◌||◌,
}
use solution_arsenal.Str.{Str, lit, str_eq}
use solution_arsenal.Api.{Release, ComponentVersion, Condition, ReferenceGrant}
use solution_arsenal.Grants.{grant_permits_component_version_access}
use solution_arsenal.Resolver.{effective_unique_name}
use solution_arsenal.Cluster.{
  releases, component_versions, reference_grants, NamespacedName, get, and_then, ◌>>◌, done,
}
use solution_arsenal.Cluster.Safe.{History, Event, Policy, Safe, Safe-map, and_then-Safe, done-Safe}
use solution_arsenal.Controller.{Settings, Outcome, returns, find, drop_own_finalizer}
use solution_arsenal.Controller.Steps.{
  Allowed, Allowed-map, reads, lists, sets_status, Anything, attempt-Safe, find-Safe, if-Safe,
  drop_own_finalizer-Safe, add_own_finalizer-Safe, protect-Safe, check-Safe, Safe-next,
  with_object-Safe,
}
use solution_arsenal.Controller.Protection.{
  VersionIsFree, remove_component_version_ref_finalizer-Safe,
}
use solution_arsenal.Controller.Finalizers.{
  release_finalizer, component_version_ref_finalizer, remove_component_version_ref_finalizer,
}
use solution_arsenal.Controller.Releases.{
  cv_namespace, cv_name, grants_in, resolved_condition, delete_release, refuse, resolve_with,
  keep_release, reconcile_release,
}

-- The release was read, it is being deleted, and no other release refers to the version.
pub record IsReleased (req : NamespacedName) (h : History) (fresh : ComponentVersion) : Type 0 where
  pub res : Release
  pub res_read : Memᴰ (get releases req, ok res) h
  pub deleting : res.meta.deleting ≡ true
  pub cv : ComponentVersion
  pub is_free : VersionIsFree res cv h fresh

-- A list of grants was read, and one of them permits the reference across namespaces.
pub record IsGranted (res : Release) (h : History) : Type 0 where
  pub grants : List ReferenceGrant
  pub grants_listed : Memᴰ (grants_in (cv_namespace res), ok grants) h
  pub permitted :
      any (λ grant. grant_permits_component_version_access grant res.meta.namespace) grants ≡ true

-- The release was read, the version is the one that it refers to, and it lies in the namespace of
-- the release or a grant permits the reference.
pub record MayProtect (req : NamespacedName) (h : History) (cv : ComponentVersion) : Type 0 where
  pub res : Release
  pub res_read : Memᴰ (get releases req, ok res) h
  pub cv_read : Memᴰ (get component_versions (cv_name res), ok cv) h
  pub permitted : (str_eq (cv_namespace res) res.meta.namespace ≡ true) ⊎ IsGranted res h

module _ (set_status_condition : List Condition → Condition → List Condition × Bool) (s : Settings)
    (req : NamespacedName) where
  abbrev pub release_policy : Policy
  release_policy =
      Allowed releases component_versions release_finalizer component_version_ref_finalizer
        (MayProtect req) (IsReleased req)

  module _ (res : Release) where
    abbrev Read : History → Type 0
    Read h = Memᴰ (get releases req, ok res) h

    remove-Safe :
        (cv : ComponentVersion) (h : History)
        → Read h
        → res.meta.deleting ≡ true
        → Safe release_policy Anything Anything h (remove_component_version_ref_finalizer s res cv)
    remove-Safe cv h m d =
        Safe-map _ release_policy Anything Anything Anything Anything h
          (λ h' c e p.
            Allowed-map _ _ _ _ (MayProtect req) _ (IsReleased req) h'
              (λ o f. record { res = res; res_read = e _ m; deleting = d; cv = cv; is_free = f }) c
              p)
          (λ _ _ _ _. tt) (λ _ _ _ _. tt) (remove_component_version_ref_finalizer s res cv) h
          (λ _ i. i)
          (remove_component_version_ref_finalizer-Safe s res cv release_finalizer (MayProtect req)
            h)

    delete-Safe :
        (h : History)
        → Read h
        → res.meta.deleting ≡ true
        → Safe release_policy Anything Anything h (delete_release s req res)
    unfolding delete_release
    delete-Safe h m d = and_then-Safe release_policy Anything Anything _ _ h (
        if-Safe returns s release_policy _ (ltb 0 (length res.spec.component_version_ref)) _ _ h
          (λ _.
            find-Safe returns s release_policy _ component_versions (cv_name res) _ _ h
              (reads component_versions (cv_name res))
              (λ cv. check-Safe release_policy _ _ _ (remove-Safe cv _ (Memᴰ.tail m) d) drops)
              (λ e. done-Safe release_policy _ _ _ tt (drops _)))
          (λ _. done-Safe release_policy _ _ h tt (drops h)))
      where
        drops :
            (h' : History)
            → Safe release_policy Anything Anything h' (
                drop_own_finalizer returns s releases req res release_finalizer
                  (lit "failed to get latest Release for finalizer removal")
                  (lit "failed to remove finalizer from Release")
                >> done (returns none))
        drops h' = and_then-Safe release_policy Anything Anything _ _ h' (
            drop_own_finalizer-Safe returns s releases component_versions release_finalizer
              component_version_ref_finalizer (MayProtect req) (IsReleased req) _ req res _ _ h'
              (λ h''. done-Safe release_policy _ _ h'' (returns none) tt))

    ends :
        (h : History)
        → Safe release_policy Anything (Anything {A = Outcome}) h (done (returns none))
    ends h = done-Safe release_policy _ _ h (returns none) tt

    refuse-Safe :
        (reason message : Str) (h : History)
        → Safe release_policy Anything Anything h
            (refuse set_status_condition s req res reason message)
    unfolding refuse
    refuse-Safe reason message h =
        if-Safe returns s release_policy _
          (set_status_condition res.conditions (resolved_condition res false reason message)).1 _ _
          h
          (λ _. attempt-Safe returns s release_policy _ _ _ _ h (sets_status _ refl) (λ _. ends _))
          (λ _. ends h)

    abbrev MayProtectFound : History → Option ComponentVersion → Type 0
    MayProtectFound h none = Unit
    MayProtectFound h (some cv) = MayProtect req h cv

    resolve_with-Safe :
        (found : Option ComponentVersion) (h : History)
        → MayProtectFound h found
        → Safe release_policy Anything Anything h
            (resolve_with set_status_condition s req res found)
    unfolding resolve_with
    resolve_with-Safe none h may = refuse-Safe _ _ h
    resolve_with-Safe (some cv) h may = and_then-Safe release_policy Anything Anything _ _ h (
        protect-Safe returns s releases component_versions release_finalizer
          component_version_ref_finalizer (MayProtect req) (IsReleased req) _ false cv _ h may
          (λ h'.
            if-Safe returns s release_policy _
              ((set_status_condition res.conditions (
                  resolved_condition res true (lit "Resolved")
                    (lit "ComponentVersion resolved: " ++ cv.meta.name))).1
                || not (str_eq res.effective_unique_name (effective_unique_name res cv)))
              _ _ h'
              (λ _.
                attempt-Safe returns s release_policy _ _ _ _ h' (sets_status _ refl) (λ _. ends _))
              (λ _. ends h')))

    -- Behind the check of the grants: the version is read, and resolved.
    fetch-Safe :
        (h : History)
        → Read h
        → (str_eq (cv_namespace res) res.meta.namespace ≡ true) ⊎ IsGranted res h
        → Safe release_policy Anything Anything h (
            and_then
              (find returns s component_versions
                (cv_name res)
                (lit "failed to get ComponentVersion"))
              (resolve_with set_status_condition s req res))
    fetch-Safe h m p =
        find-Safe returns s release_policy Anything component_versions (cv_name res) _ _ h
          (reads component_versions (cv_name res))
          (λ cv. resolve_with-Safe (some cv) _ (record {
            res = res;
            res_read = Memᴰ.tail m;
            cv_read = Memᴰ.head refl;
            permitted = later p;
          }))
          (λ e. resolve_with-Safe none _ tt)
      where
        later :
            {e : Event}
            → (str_eq (cv_namespace res) res.meta.namespace ≡ true) ⊎ IsGranted res h
            → (str_eq (cv_namespace res) res.meta.namespace ≡ true) ⊎ IsGranted res (e ∷ h)
        later (inl y) = inl y
        later (inr g) = inr (record {
          grants = g.grants;
          grants_listed = Memᴰ.tail g.grants_listed;
          permitted = g.permitted;
        })

    keep-Safe :
        (h : History)
        → Read h
        → Safe release_policy Anything Anything h (keep_release set_status_condition s req res)
    unfolding keep_release
    keep-Safe h m = and_then-Safe release_policy Anything Anything _ _ h (
        Safe-next release_policy _ _ h
          (add_own_finalizer-Safe returns s releases component_versions release_finalizer
            component_version_ref_finalizer (MayProtect req) (IsReleased req) _ req res _ _ h
            (λ _. tt))
          (λ h' e.
            if-Safe returns s release_policy _ (str_eq (cv_namespace res) res.meta.namespace) _ _ h'
              (λ y. fetch-Safe h' (e _ m) (inl y))
              (λ _.
                attempt-Safe returns s release_policy _ _ _ _ h' (lists reference_grants _)
                  (λ grants.
                    if-Safe returns s release_policy _
                      (any
                        (λ grant. grant_permits_component_version_access grant res.meta.namespace)
                        grants)
                      _ _ _
                      (λ y. fetch-Safe _ (Memᴰ.tail (e _ m)) (
                        inr (record {
                          grants = grants;
                          grants_listed = Memᴰ.head refl;
                          permitted = y;
                        })))
                      (λ _. refuse-Safe _ _ _)))))

  -- Whatever the API server answers, the Release controller only reads objects, sets the status of
  -- releases and adds and drops its own finalizer on them; it protects a component version only when
  -- the release that it has read refers to it, from the same namespace or by a grant that it has
  -- read; and it drops the protection only when the release is being deleted and the list read
  -- before shows no other one.
  pub reconcile_release-Safe :
      Safe release_policy Anything Anything [] (reconcile_release set_status_condition s req)
  unfolding reconcile_release
  reconcile_release-Safe =
      with_object-Safe release_policy Anything s releases req _ _ (reads releases req) (λ res.
        if-Safe returns s release_policy Anything res.meta.deleting _ _ _
          (λ d. delete-Safe res _ (Memᴰ.head refl) d) (λ _. keep-Safe res _ (Memᴰ.head refl)))
