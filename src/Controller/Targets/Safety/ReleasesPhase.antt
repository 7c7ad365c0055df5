-- ===== src/Controller/Targets/Safety/ReleasesPhase.antt =====
-- The releases that the Target controller collects are read, with their component versions, by
-- permitted references; what is passed over is remembered.
use solution_arsenal.Prelude.{
  ◌≡◌, ◌⊎◌, refl, sym, ◌∙◌, inl, inr, Bool, true, false, Option, none, some, List, [], ◌∷◌, ◌++◌,
  Memᴰ, ok, any, All, All-append,
}
use mathlib.Core.List.{append_assoc, append-nil}
use solution_arsenal.Str.{str_eq}
use solution_arsenal.Api.{Target, Release, ReleaseBinding, ComponentVersion, ReferenceGrant}
use solution_arsenal.Grants.{grant_permits_component_version_access}
use solution_arsenal.Resolver.{ReleaseInfo}
use solution_arsenal.Cluster.{
  releases, component_versions, reference_grants, NamespacedName, Program, get,
}
use solution_arsenal.Cluster.Safe.{History, Event, Policy, Safe, done-Safe}
use solution_arsenal.Controller.{Outcome, returns}
use solution_arsenal.Controller.Steps.{Anything, attempt-Safe, find-Safe, if-Safe}
use solution_arsenal.Controller.Releases.{cv_namespace, cv_name, grants_in}
use solution_arsenal.Controller.Targets.Conditions.{TargetReconciler}
use solution_arsenal.Controller.Targets.Collect.{
  release_name_of, info_of, fetch_version, release_or, collect_releases,
}
use solution_arsenal.Controller.Targets.Policy.{
  TargetPolicy, IsCollected, IsFrom, EachFrom, reads, lists,
}
use solution_arsenal.Controller.Targets.Later.{all-IsFrom-Extends, EachFrom-Extends}

module _ (r : TargetReconciler) (req : NamespacedName) (target : Target) where
  abbrev P : Policy
  P = TargetPolicy r req

  -- What the loop gives for the bindings: every release comes from one of them, and where nothing is
  -- pending, each of them has its release.
  abbrev pub Collected : List ReleaseBinding → History → List ReleaseInfo × Bool → Type 0
  Collected all h (infos, pending_deps) =
      All (IsFrom req h r target all) infos
      × (pending_deps ≡ false → EachFrom req h r target all infos)

  -- The state of the loop, with the bindings that are through.
  abbrev Through :
      List ReleaseBinding → List ReleaseBinding → History → List ReleaseInfo → Bool → Type 0
  Through all through h infos pending_deps =
      All (IsFrom req h r target all) infos
      × (pending_deps ≡ false → EachFrom req h r target through infos)

  Through-later :
      (all through : List ReleaseBinding) (h : History) (e : Event) (infos : List ReleaseInfo)
      (pending_deps : Bool)
      → Through all through h infos pending_deps
      → Through all through (e ∷ h) infos pending_deps
  Through-later all through h e infos pending_deps c = (
    all-IsFrom-Extends req h _ (λ _ m. Memᴰ.tail m) r target all infos c.0,
    λ y. EachFrom-Extends req h _ (λ _ m. Memᴰ.tail m) r target through infos (c.1 y),
  )

  EachFrom-append :
      (h : History) (through : List ReleaseBinding) (infos : List ReleaseInfo)
      (binding : ReleaseBinding) (ri : ReleaseInfo)
      → EachFrom req h r target through infos
      → IsCollected req h r target binding ri
      → EachFrom req h r target (through ++ binding ∷ []) (infos ++ ri ∷ [])
  EachFrom-append h [] [] binding ri c k = (k, tt)
  EachFrom-append h [] (i ∷ infos) binding ri c k = elim c [ ]
  EachFrom-append h (b ∷ through) [] binding ri c k = elim c [ ]
  EachFrom-append h (b ∷ through) (i ∷ infos) binding ri (c, cs) k =
      (c, EachFrom-append h through infos binding ri cs k)

  module _ (binding : ReleaseBinding) (rel : Release) where
    abbrev IsPermitted : History → Type 0
    IsPermitted h =
        (str_eq (cv_namespace rel) rel.meta.namespace ≡ true)
        ⊎ ((grants : List ReferenceGrant) × Memᴰ (grants_in (cv_namespace rel), ok grants) h
            × (any (λ g. grant_permits_component_version_access g rel.meta.namespace) grants
                ≡ true))

    abbrev WasRead : History → Type 0
    WasRead h = Memᴰ (get releases (release_name_of binding), ok rel) h

    IsPermitted-later : (h : History) (e : Event) → IsPermitted h → IsPermitted (e ∷ h)
    IsPermitted-later h e (inl y) = inl y
    IsPermitted-later h e (inr (gs, l, y)) = inr (gs, Memᴰ.tail l, y)

    info-IsCollected :
        (cv : ComponentVersion) (h : History)
        → WasRead h
        → Memᴰ (get component_versions (cv_name rel), ok cv) h
        → IsPermitted h
        → IsCollected req h r target binding (info_of r target binding rel cv)
    unfolding info_of
    info-IsCollected cv h m m' p = record {
      release_read = m;
      version_read = m';
      permitted = p;
      task_named = refl;
    }

  module _ (all through : List ReleaseBinding) (binding : ReleaseBinding) (given : Memᴰ binding all)
      (rest : List ReleaseInfo → Bool → Program Outcome (List ReleaseInfo × Bool))
      (rest-Safe : (h : History) (infos : List ReleaseInfo) (pending_deps : Bool)
        → Through all (through ++ binding ∷ []) h infos pending_deps
        → Safe P (Collected all) Anything h (rest infos pending_deps)) where
    module _ (infos : List ReleaseInfo) (pending_deps : Bool) where
      abbrev Now : History → Type 0
      Now h = Through all through h infos pending_deps

      skips : (h : History) → Now h → Safe P (Collected all) Anything h (rest infos true)
      skips h c = rest-Safe h infos true (c.0, λ y. cc)

      later : (h : History) (e : Event) → Now h → Now (e ∷ h)
      later h e c = Through-later all through h e infos pending_deps c

      goes_on :
          (h : History) (ri : ReleaseInfo)
          → Now h
          → IsCollected req h r target binding ri
          → Safe P (Collected all) Anything h (rest (infos ++ ri ∷ []) pending_deps)
      goes_on h ri c k = rest-Safe h (infos ++ ri ∷ []) pending_deps (
        All-append (IsFrom req h r target all) infos _ c.0 ((binding, given, k), tt),
        λ y. EachFrom-append h through infos binding ri (c.1 y) k,
      )

      module _ (rel : Release) where
        fetch_version-Safe :
            (h : History)
            → Now h
            → WasRead binding rel h
            → IsPermitted binding rel h
            → Safe P
                (Collected all)
                Anything
                h
                (fetch_version r target binding rest infos pending_deps rel)
        unfolding fetch_version
        fetch_version-Safe h c m p =
            find-Safe returns r.settings P (Collected all) component_versions (cv_name rel) _ _ h
              (reads component_versions (cv_name rel))
              (λ cv. goes_on _ _ (later h _ c) (
                info-IsCollected binding rel cv _ (Memᴰ.tail m) (Memᴰ.head refl)
                  (IsPermitted-later binding rel h _ p)))
              (λ e. skips _ (later h _ c))

        release_or-Safe :
            (h : History)
            → Now h
            → WasRead binding rel h
            → Safe P
                (Collected all)
                Anything
                h
                (release_or r target binding rest infos pending_deps (some rel))
        unfolding release_or
        release_or-Safe h c m =
            if-Safe returns r.settings P (Collected all)
              (str_eq (cv_namespace rel) rel.meta.namespace) _ _ h
              (λ y. fetch_version-Safe h c m (inl y))
              (λ _.
                attempt-Safe returns r.settings P (Collected all) _ _ _ h (lists reference_grants _)
                  (λ grants.
                    if-Safe returns r.settings P (Collected all)
                      (any (λ g. grant_permits_component_version_access g rel.meta.namespace)
                        grants)
                      _ _ _
                      (λ y.
                        fetch_version-Safe _ (later h _ c) (Memᴰ.tail m)
                          (inr (grants, Memᴰ.head refl, y)))
                      (λ _. skips _ (later h _ c))))

      round-Safe :
          (h : History) (found : Option Release)
          → Now h
          → ((rel : Release) → found ≡ some rel → WasRead binding rel h)
          → Safe P
              (Collected all)
              Anything
              h
              (release_or r target binding rest infos pending_deps found)
      unfolding release_or
      round-Safe h none c f = skips h c
      round-Safe h (some rel) c f = release_or-Safe rel h c (f rel refl)

  collects :
      (all through bindings : List ReleaseBinding) (h : History) (infos : List ReleaseInfo)
      (pending_deps : Bool)
      → (through ++ bindings ≡ all)
      → ((binding : ReleaseBinding) → Memᴰ binding bindings → Memᴰ binding all)
      → Through all through h infos pending_deps
      → Safe P (Collected all) Anything h (collect_releases r target bindings infos pending_deps)
  unfolding collect_releases
  collects all through [] h infos pending_deps e given c =
      done-Safe P (Collected all) Anything h (infos, pending_deps)
        (c.0, λ y. rw (sym e, append-nil) (c.1 y))
  collects all through (binding ∷ bindings) h infos pending_deps e given c =
      find-Safe returns r.settings P (Collected all) releases (release_name_of binding) _ _ h
        (reads releases (release_name_of binding))
        (λ rel.
          release_or-Safe all through binding (given binding (Memᴰ.head refl))
            (collect_releases r target bindings)
            (λ h' is p c'.
              collects all (through ++ binding ∷ []) bindings h' is p
                (append_assoc through (binding ∷ []) bindings ∙ e) (λ b m. given b (Memᴰ.tail m))
                c')
            infos pending_deps rel _ (Through-later all through h _ infos pending_deps c)
            (Memᴰ.head refl))
        (λ err.
          round-Safe all through binding (given binding (Memᴰ.head refl))
            (collect_releases r target bindings)
            (λ h' is p c'.
              collects all (through ++ binding ∷ []) bindings h' is p
                (append_assoc through (binding ∷ []) bindings ∙ e) (λ b m. given b (Memᴰ.tail m))
                c')
            infos pending_deps _ none (Through-later all through h _ infos pending_deps c)
            (λ rel y. cc))

  -- Whatever the API server answers, every release that is collected was read under the name that one
  -- of the bindings given gives, and its component version under the name that the release gives, in
  -- the release's namespace or by a grant that was read; its task is named after it and the target;
  -- and where nothing is reported as pending, the releases are so those of the bindings one by one, in
  -- their order, none left out.
  pub collect_releases-Safe :
      (bindings : List ReleaseBinding) (h : History)
      → Safe P (Collected bindings) Anything h (collect_releases r target bindings [] false)
  collect_releases-Safe bindings h =
      collects bindings [] bindings h [] false refl (λ _ m. m) (tt, λ y. tt)
