-- ===== src/Controller/ReleaseBindings/Frees.antt =====
-- A release loses its protection only when nobody refers to it.
use solution_arsenal.Prelude.{◌≡◌, refl, true, false, none, List, [], ◌∷◌, Memᴰ, ok, All, any}
use solution_arsenal.Str.{Str}
use solution_arsenal.Api.{Release, ReleaseBinding, Profile}
use solution_arsenal.Cluster.{profiles, releases, release_bindings, get, has_finalizer}
use solution_arsenal.Cluster.Safe.{
  Policy, History, Safe, Safe-map, Extends, and_then-Safe, done-Safe, stop-Safe,
}
use solution_arsenal.Controller.{Settings, key_of}
use solution_arsenal.Controller.Steps.{
  Allowed, reads, lists, Anything, attempt-Safe, if-Safe, unprotect-Safe,
}
use solution_arsenal.Controller.Finalizers.{exits, release_ref_finalizer}
use solution_arsenal.Controller.ReleaseBindings.{
  profiles_of_release, bindings_of_release, holds_release, check_bindings,
  remove_release_ref_finalizer,
}
use solution_arsenal.Controller.ReleaseBindings.Idle.{
  IsIdle, IsIdle-Extends, Known-nil, check_bindings-Safe,
}

All-Extends :
    (deleting_rb : ReleaseBinding) (rbs : List ReleaseBinding) (h h' : History)
    → Extends h h'
    → All (IsIdle deleting_rb h) rbs
    → All (IsIdle deleting_rb h') rbs
All-Extends deleting_rb [] h h' x k = tt
All-Extends deleting_rb (rb ∷ rbs) h h' x (i, k) =
    (IsIdle-Extends deleting_rb h h' rb x i, All-Extends deleting_rb rbs h h' x k)

-- The lists that were read show no profile that holds the release and only idle bindings, and the
-- release was read again after that.
pub record ReleaseIsFree (deleting_rb : ReleaseBinding) (release : Release) (h : History)
    (fresh : Release) : Type 0 where
  pub ps : List Profile
  pub ps_listed : Memᴰ (profiles_of_release release, ok ps) h
  pub no_profile : any holds_release ps ≡ false
  pub rbs : List ReleaseBinding
  pub rbs_listed : Memᴰ (bindings_of_release release, ok rbs) h
  pub idle : All (IsIdle deleting_rb h) rbs
  pub read_again : Memᴰ (get releases (key_of releases release), ok fresh) h

-- Whatever the API server answers, removeReleaseRefFinalizer only reads, and drops the protecting
-- finalizer of a release after it has seen that no profile refers to it or still cleans up, and that
-- every other binding of it is being deleted or has an owner profile that is gone or being deleted.
pub remove_release_ref_finalizer-Safe :
    (s : Settings) (deleting_rb : ReleaseBinding) (release : Release) (own_finalizer : Str)
    (may : History → Release → Type 0) (h : History)
    → Safe
        (Allowed release_bindings releases own_finalizer release_ref_finalizer may
          (ReleaseIsFree deleting_rb release))
        Anything
        Anything
        h
        (remove_release_ref_finalizer s deleting_rb release)
unfolding remove_release_ref_finalizer
remove_release_ref_finalizer-Safe s deleting_rb release own_finalizer may h =
    if-Safe exits s P _ (has_finalizer releases release release_ref_finalizer) _ _ h
      (λ _. attempt-Safe exits s P _ _ _ _ h (lists profiles _) (λ ps.
        if-Safe exits s P _ (any holds_release ps) _ _ _ (λ _. stop-Safe P _ _ _ _ tt)
          (λ no_profile. attempt-Safe exits s P _ _ _ _ _ (lists release_bindings _) (λ rbs.
            and_then-Safe P _ _ _ _ (asked ps rbs) (
              Safe-map P P (λ h' _. All (IsIdle deleting_rb h') rbs) _ Anything Anything
                (asked ps rbs) (λ _ _ _ p. p)
                (λ h' _ x idle. and_then-Safe P _ _ _ _ h' (
                  unprotect-Safe exits s release_bindings releases own_finalizer
                    release_ref_finalizer may _ _ true release _ _ h'
                    (λ fresh. record {
                      ps = ps;
                      ps_listed = Memᴰ.tail (x _ (Memᴰ.tail (Memᴰ.head refl)));
                      no_profile = no_profile;
                      rbs = rbs;
                      rbs_listed = Memᴰ.tail (x _ (Memᴰ.head refl));
                      idle = All-Extends deleting_rb rbs h' _ (λ _ v. Memᴰ.tail v) idle;
                      read_again = Memᴰ.head refl;
                    })
                    (λ h''. done-Safe P _ _ h'' none tt)))
                (λ _ _ _ _. tt) (check_bindings s deleting_rb rbs []) (asked ps rbs) (λ _ v. v)
                (check_bindings-Safe deleting_rb s P (λ _ n. reads profiles n) rbs [] (asked ps rbs)
                  (Known-nil deleting_rb _)))))))
      (λ _. stop-Safe P _ _ h none tt)
  where
    P : Policy
    P =
        Allowed release_bindings releases own_finalizer release_ref_finalizer may
          (ReleaseIsFree deleting_rb release)

    asked : List Profile → List ReleaseBinding → History
    asked ps rbs = (bindings_of_release release, ok rbs) ∷ (profiles_of_release release, ok ps) ∷ h
