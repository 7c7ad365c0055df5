-- ===== src/Controller/Profiles/Frees.antt =====
-- A profile takes the protection of its release away only when nothing else uses the release.
use solution_arsenal.Prelude.{
  ◌≡◌, refl, inl, inr, true, Option, none, some, List, [], ◌∷◌, Memᴰ, ok, err, All, All-map, any,
}
use solution_arsenal.Str.{Str}
use solution_arsenal.Api.{Profile, Release, ReleaseBinding}
use solution_arsenal.Cluster.{profiles, releases, release_bindings, Error, Program, has_finalizer}
use solution_arsenal.Cluster.Safe.{Policy, History, Safe, Safe-map, Extends, done-Safe, stop-Safe}
use solution_arsenal.Controller.Steps.{Anything, attempt-Safe, if-Safe}
use solution_arsenal.Controller.Rules.{
  Unprotecting, looks_at, looks_for, frees, then-Safe, find-Missing, unprotect-Safe,
}
use solution_arsenal.Controller.Finalizers.{exits, release_ref_finalizer}
use solution_arsenal.Controller.ReleaseBindings.{
  owner_profile, profile_name, profiles_of_release, bindings_of_release,
}
use solution_arsenal.Controller.Profiles.{ProfileReconciler}
use solution_arsenal.Controller.Profiles.Unprotect.{
  is_other_profile, is_leaving, owner_gone_or, pass_bindings,
  remove_release_ref_finalizer_if_unreferenced,
}
use solution_arsenal.Controller.Profiles.Policy.{IsPassed, ReleaseIsUnused}

module _ (r : ProfileReconciler) (profile : Profile) where
  IsPassed-Extends :
      (h h' : History) (rb : ReleaseBinding)
      → Extends h h'
      → IsPassed r profile h rb
      → IsPassed r profile h' rb
  IsPassed-Extends h h' rb x (inl y) = inl y
  IsPassed-Extends h h' rb x (inr (owner, e, answer, m, g)) = inr (owner, e, answer, x _ m, g)

  module _ (release : Release) where
    abbrev P : Policy
    P = Unprotecting releases release_ref_finalizer (ReleaseIsUnused r profile release)

    abbrev Passes : List ReleaseBinding → History → Program (Option Error) Unit → Type 0
    Passes rbs h m = Safe P (λ h' _. All (IsPassed r profile h') rbs) Anything h m

    module _ (rb : ReleaseBinding) (rbs : List ReleaseBinding)
        (rest : (h : History) → Passes rbs h (pass_bindings r profile rbs)) where
      goes_on :
          (h : History)
          → IsPassed r profile h rb
          → Passes (rb ∷ rbs) h (pass_bindings r profile rbs)
      goes_on h i =
          Safe-map P P (λ h' _. All (IsPassed r profile h') rbs)
            (λ h' _. All (IsPassed r profile h') (rb ∷ rbs)) Anything Anything h (λ _ _ _ p. p)
            (λ h' _ x k. (IsPassed-Extends h h' rb x i, k)) (λ _ _ _ _. tt)
            (pass_bindings r profile rbs) h (λ _ v. v) (rest h)

      owner_gone-Safe :
          (o : Option Str) (h : History)
          → owner_profile rb ≡ o
          → Passes (rb ∷ rbs) h (owner_gone_or r profile rb (pass_bindings r profile rbs) o)
      owner_gone-Safe none h e = stop-Safe P _ Anything h none tt
      owner_gone-Safe (some owner) h e =
          find-Missing exits r.settings P _ profiles (profile_name rb owner) _ _ h
            (looks_at profiles (profile_name rb owner))
            (λ p.
              if-Safe exits r.settings P _ p.meta.deleting _ _ _
                (λ d. goes_on _ (inr (owner, e, ok p, Memᴰ.head refl, d)))
                (λ _. stop-Safe P _ Anything _ none tt))
            (λ x y. goes_on _ (inr (owner, e, err x, Memᴰ.head refl, y)))

    pass_bindings-Safe :
        (rbs : List ReleaseBinding) (h : History) → Passes rbs h (pass_bindings r profile rbs)
    unfolding pass_bindings
    pass_bindings-Safe [] h = done-Safe P _ Anything h tt tt
    pass_bindings-Safe (rb ∷ rbs) h =
        if-Safe exits r.settings P _ (is_leaving r profile rb) _ _ h
          (λ y. goes_on rb rbs (pass_bindings-Safe rbs) h (inl y))
          (λ _. owner_gone-Safe rb rbs (pass_bindings-Safe rbs) (owner_profile rb) h refl)

    abbrev asked : History → List Profile → List ReleaseBinding → History
    asked h ps rbs =
        (bindings_of_release release, ok rbs) ∷ (profiles_of_release release, ok ps) ∷ h

    -- removeReleaseRefFinalizerIfUnreferenced only reads, and drops the protecting finalizer of a release
    -- after it has seen that no other profile refers to it, and that every binding of it belongs to
    -- the profile, is being deleted or has an owner that is gone or being deleted.
    pub remove_release_ref_finalizer_if_unreferenced-Safe :
        (h : History)
        → Safe
            (Unprotecting releases release_ref_finalizer (ReleaseIsUnused r profile release))
            Anything
            Anything
            h
            (remove_release_ref_finalizer_if_unreferenced r profile release)
    unfolding remove_release_ref_finalizer_if_unreferenced
    remove_release_ref_finalizer_if_unreferenced-Safe h =
        if-Safe exits r.settings P _ (has_finalizer releases release release_ref_finalizer) _ _ h
          (λ _. attempt-Safe exits r.settings P _ _ _ _ h (looks_for profiles _) (λ ps.
            if-Safe exits r.settings P _ (any (is_other_profile profile) ps) _ _ _
              (λ _. stop-Safe P _ _ _ _ tt)
              (λ no_profile.
                attempt-Safe exits r.settings P _ _ _ _ _ (looks_for release_bindings _) (λ rbs.
                  then-Safe P (λ h' _. All (IsPassed r profile h') rbs) Anything _ _
                    (asked h ps rbs) (pass_bindings-Safe rbs (asked h ps rbs))
                    (λ h' _ x passed.
                      then-Safe P Anything Anything _ _ h'
                        (unprotect-Safe exits r.settings P releases release_ref_finalizer true
                          release _ _ h' (looks_at releases _)
                          (λ fresh. frees true fresh (record {
                            ps = ps;
                            ps_listed = Memᴰ.tail (x _ (Memᴰ.tail (Memᴰ.head refl)));
                            no_profile = no_profile;
                            rbs = rbs;
                            rbs_listed = Memᴰ.tail (x _ (Memᴰ.head refl));
                            passed =
                                All-map (IsPassed r profile h') (IsPassed r profile _) rbs
                                  (λ rb i. IsPassed-Extends h' _ rb (λ _ v. Memᴰ.tail v) i) passed;
                            read_again = Memᴰ.head refl;
                          })))
                        (λ h'' _ _ _. done-Safe P _ _ h'' none tt))))))
          (λ _. stop-Safe P _ _ h none tt)
