-- ===== src/Controller/Profiles/Safety.antt =====
-- What the Profile controller may do to the objects of the cluster.
use solution_arsenal.Prelude.{
  ◌≡◌, refl, true, Option, none, some, List, [], ◌∷◌, Memᴰ, ok, All, All-map, All-keep, keep,
  length, ltb,
}
use solution_arsenal.Str.{Str}
use solution_arsenal.Api.{Profile, Release, ReleaseBinding, Target}
use solution_arsenal.Cluster.{
  profiles, releases, release_bindings, NamespacedName, Call, get, delete,
}
use solution_arsenal.Cluster.Safe.{Policy, History, Safe, Extends, Safe-map, call-Safe, done-Safe}
use solution_arsenal.Controller.{returns}
use solution_arsenal.Controller.Steps.{
  Anything, attempt-Safe, find-Safe, if-Safe, check-Safe, with_object-Safe,
}
use solution_arsenal.Controller.Rules.{
  Unprotecting, looks_at, looks_for, frees, then-Safe, drop_own_finalizer-Safe,
  add_own_finalizer-Safe, protect-Safe,
}
use solution_arsenal.Controller.Finalizers.{profile_finalizer, release_ref_finalizer}
use solution_arsenal.Controller.Profiles.{ProfileReconciler, profile_release}
use solution_arsenal.Controller.Profiles.Bindings.{Selector, is_owned}
use solution_arsenal.Controller.Profiles.Unprotect.{remove_release_ref_finalizer_if_unreferenced}
use solution_arsenal.Controller.Profiles.Reconcile.{
  delete_bindings, is_empty, leave, delete_profile, select_targets, keep_profile, reconcile_profile,
}
use solution_arsenal.Controller.Profiles.Policy.{
  IsOwned, IsKept, OwnsNothing, ReleaseIsUnused, Collected, ProfilePolicy, reads, lists, adds_own,
  drops_own, protects, unprotects, deletes_owned,
}
use solution_arsenal.Controller.Profiles.Frees.{remove_release_ref_finalizer_if_unreferenced-Safe}
use solution_arsenal.Controller.Profiles.Matching.{collect_targets-Safe}
use solution_arsenal.Controller.Profiles.Binding.{IsOwned-Extends, gone_or-Safe, bind_targets-Safe}

module _ (r : ProfileReconciler) (req : NamespacedName) where
  abbrev P : Policy
  P = ProfilePolicy r req

  Unprotecting-Profile :
      (profile : Profile) (release : Release) (h : History)
      → OwnsNothing r req profile h
      → Memᴰ (get releases (profile_release profile), ok release) h
      → (c : Call)
      → Unprotecting releases release_ref_finalizer (ReleaseIsUnused r profile release) h c
      → P h c
  Unprotecting-Profile profile release h o l _ (looks_at k n) = reads k n
  Unprotecting-Profile profile release h o l _ (looks_for k n) = lists k n
  Unprotecting-Profile profile release h o l _ (frees lock fresh f) =
      unprotects profile lock release fresh o l f

  module _ (profile : Profile) where
    OwnsNothing-Extends :
        (h h' : History) → Extends h h' → OwnsNothing r req profile h → OwnsNothing r req profile h'
    OwnsNothing-Extends h h' x o = record {
      profile_read = x _ o.profile_read;
      deleting = o.deleting;
      rbs = o.rbs;
      rbs_listed = x _ o.rbs_listed;
      none_owned = o.none_owned;
    }

    remove-Safe :
        (release : Release) (h : History)
        → OwnsNothing r req profile h
        → Memᴰ (get releases (profile_release profile), ok release) h
        → Safe P Anything Anything h
            (remove_release_ref_finalizer_if_unreferenced r profile release)
    remove-Safe release h o l =
        Safe-map _ P Anything Anything Anything Anything h
          (λ h' c x p.
            Unprotecting-Profile profile release h' (OwnsNothing-Extends h h' x o) (x _ l) c p)
          (λ _ _ _ _. tt) (λ _ _ _ _. tt)
          (remove_release_ref_finalizer_if_unreferenced r profile release) h (λ _ i. i)
          (remove_release_ref_finalizer_if_unreferenced-Safe r profile release h)

    leave-Safe :
        (h : History)
        → OwnsNothing r req profile h
        → Safe P Anything Anything h (leave r req profile)
    unfolding leave
    leave-Safe h o =
        then-Safe P Anything Anything _ _ h
          (if-Safe returns r.settings P Anything (ltb 0 (length profile.release_ref)) _ _ h
            (λ _.
              find-Safe returns r.settings P Anything releases (profile_release profile) _ _ h
                (reads releases (profile_release profile))
                (λ release.
                  check-Safe P Anything _ _
                    (remove-Safe release _ (OwnsNothing-Extends h _ (λ _ i. Memᴰ.tail i) o)
                      (Memᴰ.head refl))
                    (λ _. tt))
                (λ _. done-Safe P _ _ _ tt tt))
            (λ _. done-Safe P _ _ h tt tt))
          (λ h' _ x _.
            then-Safe P Anything Anything _ _ h'
              (drop_own_finalizer-Safe returns r.settings P profiles profile_finalizer req profile _
                _ h' (reads profiles req)
                (λ latest.
                  drops_own latest profile (Memᴰ.head refl)
                    (OwnsNothing-Extends h _ (λ _ i. Memᴰ.tail (x _ i)) o)))
              (λ h'' _ _ _. done-Safe P _ _ h'' _ tt))

    delete_bindings-Safe :
        (rbs : List ReleaseBinding) (h : History)
        → Memᴰ (get profiles req, ok profile) h
        → profile.meta.deleting ≡ true
        → All (IsOwned r profile h) rbs
        → Safe P Anything Anything h (delete_bindings r req profile rbs)
    unfolding delete_bindings
    delete_bindings-Safe [] h m d a = done-Safe P _ _ h tt tt
    delete_bindings-Safe (rb ∷ rbs) h m d (o, a) =
        if-Safe returns r.settings P Anything rb.meta.deleting _ _ h
          (λ _. delete_bindings-Safe rbs h m d a)
          (λ _.
            call-Safe P Anything Anything (delete release_bindings rb) _ h
              (deletes_owned profile rb m d o)
              (λ b. gone_or-Safe r profile P Anything _ _ _ b (
                delete_bindings-Safe rbs _ (Memᴰ.tail m) d (
                  All-map (IsOwned r profile h) (IsOwned r profile _) rbs
                    (λ v i. IsOwned-Extends r profile h _ v (λ _ n. Memᴰ.tail n) i) a))))

    empty : (rbs : List ReleaseBinding) → is_empty r req profile rbs ≡ true → rbs ≡ []
    empty [] y = refl
    empty (rb ∷ rbs) y = cc

    delete-Safe :
        (h : History)
        → Memᴰ (get profiles req, ok profile) h
        → profile.meta.deleting ≡ true
        → Safe P Anything Anything h (delete_profile r req profile)
    unfolding delete_profile
    delete-Safe h m d =
        attempt-Safe returns r.settings P _ _ _ _ h (lists release_bindings _) (λ rbs.
          then-Safe P Anything Anything _ _ _
            (delete_bindings-Safe (keep (is_owned r profile) rbs) _ (Memᴰ.tail m) d (
              All-keep (is_owned r profile) (IsOwned r profile _) rbs
                (λ b n y. record { rbs = rbs; rbs_listed = Memᴰ.head refl; shown = n; owned = y })))
            (λ h' _ x _.
              if-Safe returns r.settings P Anything
                (is_empty r req profile (keep (is_owned r profile) rbs)) _ _ h'
                (λ y. leave-Safe h' (record {
                  profile_read = x _ (Memᴰ.tail m);
                  deleting = d;
                  rbs = rbs;
                  rbs_listed = x _ (Memᴰ.head refl);
                  none_owned = empty _ y;
                }))
                (λ _. done-Safe P _ _ h' _ tt)))

    module _
        (ranges : (m : List (Str × Target)) (kt : Str × Target)
          → Memᴰ kt (r.range m)
          → Memᴰ kt m) where
      select_targets-Safe :
          (o : Option Selector) (h : History)
          → r.as_selector profile.target_selector ≡ o
          → IsKept r req profile h
          → Safe P Anything Anything h (select_targets r req profile o)
      select_targets-Safe none h e k = done-Safe P _ _ h _ tt
      select_targets-Safe (some selector) h e (m, d) =
          then-Safe P (Collected r profile) Anything _ _ h
            (collect_targets-Safe r req profile selector h e)
            (λ h' ts x c. bind_targets-Safe r req profile ts ranges h' (x _ m, d) c)

      keep-Safe :
          (h : History)
          → IsKept r req profile h
          → Safe P Anything Anything h (keep_profile r req profile)
      unfolding keep_profile
      keep-Safe h (m, d) =
          then-Safe P Anything Anything _ _ h
            (add_own_finalizer-Safe returns r.settings P profiles profile_finalizer req profile _ _
              h (reads profiles req) (λ latest. adds_own latest (Memᴰ.head refl)))
            (λ h' _ x _.
              then-Safe P Anything Anything _ _ h'
                (if-Safe returns r.settings P Anything (ltb 0 (length profile.release_ref)) _ _ h'
                  (λ _.
                    find-Safe returns r.settings P Anything releases (profile_release profile) _ _
                      h' (reads releases (profile_release profile))
                      (λ release.
                        protect-Safe returns r.settings P releases release_ref_finalizer true
                          release _ _
                          (protects profile release (Memᴰ.tail (x _ m), d) (Memᴰ.head refl)))
                      (λ _. done-Safe P _ _ _ tt tt))
                  (λ _. done-Safe P _ _ h' tt tt))
                (λ h'' _ x' _.
                  select_targets-Safe (r.as_selector profile.target_selector) h'' refl
                    (x' _ (x _ m), d)))

  -- Whatever the API server answers, and however Go ranges over a map, the Profile controller deletes
  -- only bindings that the profile controls, when the profile is being deleted or the binding's target
  -- is none of those that the selector matches in the namespaces that let the profile in; it creates
  -- a binding only for such a target that has none, and counts these targets; it protects the release
  -- of a profile that stays; and it drops its finalizer and the protection only when the profile is
  -- being deleted and owns no binding any more, the protection while nothing else uses the release.
  pub reconcile_profile-Safe :
      ((m : List (Str × Target)) (kt : Str × Target) → Memᴰ kt (r.range m) → Memᴰ kt m)
      → Safe (ProfilePolicy r req) Anything Anything [] (reconcile_profile r req)
  unfolding reconcile_profile
  reconcile_profile-Safe ranges =
      with_object-Safe P Anything r.settings profiles req _ _ (reads profiles req) (λ profile.
        if-Safe returns r.settings P Anything profile.meta.deleting _ _ _
          (λ d. delete-Safe profile _ (Memᴰ.head refl) d)
          (λ d. keep-Safe profile ranges _ (Memᴰ.head refl, d)))
