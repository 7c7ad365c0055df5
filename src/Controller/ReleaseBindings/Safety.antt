-- ===== src/Controller/ReleaseBindings/Safety.antt =====
-- What the ReleaseBinding controller may do to the objects of the cluster.
use solution_arsenal.Prelude.{
  ◌≡◌, refl, Bool, true, false, Option, none, some, [], Memᴰ, ok, err, length, ltb,
}
use solution_arsenal.Str.{Str, lit}
use solution_arsenal.Api.{Release, ReleaseBinding}
use solution_arsenal.Cluster.{
  profiles, releases, release_bindings, NamespacedName, get, ◌>>◌, done, has_finalizer,
}
use solution_arsenal.Cluster.Safe.{
  Policy, History, Safe, Safe-map, and_then-Safe, done-Safe, stop-Safe,
}
use solution_arsenal.Controller.{Settings, Outcome, returns, drop_own_finalizer}
use solution_arsenal.Controller.Steps.{
  Allowed-map, reads, Anything, find-Safe, if-Safe, drop_own_finalizer-Safe, add_own_finalizer-Safe,
  protect-Safe, check-Safe, Safe-next, with_object-Safe,
}
use solution_arsenal.Controller.Rules.{then-Safe, find-Missing}
use solution_arsenal.Controller.Finalizers.{release_ref_finalizer, release_binding_finalizer}
use solution_arsenal.Controller.ReleaseBindings.{
  owner_profile, profile_name, remove_release_ref_finalizer,
}
use solution_arsenal.Controller.ReleaseBindings.Frees.{remove_release_ref_finalizer-Safe}
use solution_arsenal.Controller.ReleaseBindings.Reconcile.{
  bound_release, profile_owner_managing, unless_managed, read_fresh, protect_owned,
  delete_release_binding, keep_release_binding, reconcile_release_binding,
}
use solution_arsenal.Controller.ReleaseBindings.Policy.{
  Unmanaged, StaysOwned, MayProtect, IsReleased, Unmanaged-Extends, StaysOwned-Extends,
  release_binding_policy,
}

module _ (s : Settings) (req : NamespacedName) where
  abbrev P : Policy
  P = release_binding_policy req

  ends : (h : History) → Safe P Anything (Anything {A = Outcome}) h (done (returns none))
  ends h = done-Safe P Anything Anything h (returns none) tt

  module _ (rb : ReleaseBinding) where
    abbrev Read : History → Type 0
    Read h = Memᴰ (get release_bindings req, ok rb) h

    remove-Safe :
        (release : Release) (h : History)
        → Read h
        → rb.meta.deleting ≡ true
        → Unmanaged rb h (owner_profile rb)
        → Memᴰ (get releases (bound_release rb), ok release) h
        → Safe P Anything Anything h (remove_release_ref_finalizer s rb release)
    remove-Safe release h m d u l =
        Safe-map _ P Anything Anything Anything Anything h
          (λ h' c x p.
            Allowed-map _ _ _ _ (MayProtect req) _ (IsReleased req) h'
              (λ o f. record {
                rb = rb;
                rb_read = x _ m;
                deleting = d;
                unmanaged = Unmanaged-Extends rb h h' (owner_profile rb) x u;
                release = release;
                release_read = x _ l;
                is_free = f;
              })
              c p)
          (λ _ _ _ _. tt) (λ _ _ _ _. tt) (remove_release_ref_finalizer s rb release) h (λ _ i. i)
          (remove_release_ref_finalizer-Safe s rb release release_binding_finalizer (MayProtect req)
            h)

    abbrev KnowsManaging : Option Str → History → Bool → Type 0
    KnowsManaging owner h managing = managing ≡ false → Unmanaged rb h owner

    managing-Safe :
        (owner : Option Str) (h : History)
        → Safe P (KnowsManaging owner) Anything h (profile_owner_managing s rb owner)
    unfolding profile_owner_managing
    managing-Safe none h = done-Safe P _ _ h false (λ _. tt)
    managing-Safe (some owner) h =
        find-Missing returns s P (KnowsManaging (some owner)) profiles (profile_name rb owner) _ _ h
          (reads profiles (profile_name rb owner))
          (λ p. done-Safe P _ _ _ _ (λ n. (ok p, Memᴰ.head refl, n)))
          (λ e y. done-Safe P _ _ _ false (λ _. (err e, Memᴰ.head refl, y)))

    unless_managed-Safe :
        (managing : Bool) (h : History)
        → Read h
        → rb.meta.deleting ≡ true
        → KnowsManaging (owner_profile rb) h managing
        → Safe P Anything Anything h (unless_managed s rb managing)
    unfolding unless_managed
    unless_managed-Safe managing h m d u =
        if-Safe returns s P Anything managing _ _ h (λ _. done-Safe P _ _ h tt tt)
          (λ n.
            find-Safe returns s P Anything releases (bound_release rb) _ _ h
              (reads releases (bound_release rb))
              (λ release.
                check-Safe P Anything _ _
                  (remove-Safe release _ (Memᴰ.tail m) d
                    (Unmanaged-Extends rb h _ (owner_profile rb) (λ _ i. Memᴰ.tail i) (u n))
                    (Memᴰ.head refl))
                  (λ _. tt))
              (λ _. done-Safe P _ _ _ tt tt))

    drops :
        (h : History)
        → Safe P Anything Anything h (
            drop_own_finalizer returns s release_bindings req rb release_binding_finalizer
              (lit "failed to get latest ReleaseBinding for finalizer removal")
              (lit "failed to remove finalizer from ReleaseBinding")
            >> done (returns none))
    drops h = and_then-Safe P Anything Anything _ _ h (
        drop_own_finalizer-Safe returns s release_bindings releases release_binding_finalizer
          release_ref_finalizer (MayProtect req) (IsReleased req) _ req rb _ _ h ends)

    delete-Safe :
        (h : History)
        → Read h
        → rb.meta.deleting ≡ true
        → Safe P Anything Anything h (delete_release_binding s req rb)
    unfolding delete_release_binding
    delete-Safe h m d =
        then-Safe P Anything Anything _ _ h
          (if-Safe returns s P Anything (ltb 0 (length rb.release_ref)) _ _ h
            (λ _.
              then-Safe P (KnowsManaging (owner_profile rb)) Anything
                (profile_owner_managing s rb (owner_profile rb)) (unless_managed s rb) h
                (managing-Safe (owner_profile rb) h)
                (λ h' managing x u. unless_managed-Safe managing h' (x _ m) d u))
            (λ _. done-Safe P _ _ h tt tt))
          (λ h' _ _ _. drops h')

    read_fresh-Safe :
        (h : History)
        → Read h
        → rb.meta.deleting ≡ false
        → StaysOwned rb h (owner_profile rb)
        → Safe P Anything Anything h (read_fresh s rb)
    unfolding read_fresh
    read_fresh-Safe h m d o =
        find-Safe returns s P Anything releases (bound_release rb) _ _ h
          (reads releases (bound_release rb))
          (λ fresh.
            protect-Safe returns s release_bindings releases release_binding_finalizer
              release_ref_finalizer (MayProtect req) (IsReleased req) Anything true fresh _ _
              (record {
                rb = rb;
                rb_read = Memᴰ.tail m;
                stays = d;
                owned = StaysOwned-Extends rb h _ (owner_profile rb) (λ _ i. Memᴰ.tail i) o;
                fresh_read = Memᴰ.head refl;
              })
              (λ _. tt))
          (λ _. stop-Safe P _ _ _ _ tt)

    protect_owned-Safe :
        (owner : Option Str) (h : History)
        → owner_profile rb ≡ owner
        → Read h
        → rb.meta.deleting ≡ false
        → Safe P Anything Anything h (protect_owned s rb owner)
    unfolding protect_owned
    protect_owned-Safe none h e m d = read_fresh-Safe h m d (rw e tt)
    protect_owned-Safe (some owner) h e m d =
        find-Safe returns s P Anything profiles (profile_name rb owner) _ _ h
          (reads profiles (profile_name rb owner))
          (λ p.
            if-Safe returns s P Anything p.meta.deleting _ _ _ (λ _. stop-Safe P _ _ _ _ tt)
              (λ n. read_fresh-Safe _ (Memᴰ.tail m) d (rw e (p, Memᴰ.head refl, n))))
          (λ _. stop-Safe P _ _ _ _ tt)

    keep-Safe :
        (h : History)
        → Read h
        → rb.meta.deleting ≡ false
        → Safe P Anything Anything h (keep_release_binding s req rb)
    unfolding keep_release_binding
    keep-Safe h m d = and_then-Safe P Anything Anything _ _ h (
        Safe-next P _ _ h
          (add_own_finalizer-Safe returns s release_bindings releases release_binding_finalizer
            release_ref_finalizer (MayProtect req) (IsReleased req) _ req rb _ _ h (λ _. tt))
          (λ h' x.
            then-Safe P Anything Anything _ _ h'
              (if-Safe returns s P Anything (ltb 0 (length rb.release_ref)) _ _ h'
                (λ _.
                  find-Safe returns s P Anything releases (bound_release rb) _ _ h'
                    (reads releases (bound_release rb))
                    (λ release.
                      if-Safe returns s P Anything
                        (has_finalizer releases release release_ref_finalizer) _ _ _
                        (λ _. done-Safe P _ _ _ tt tt)
                        (λ _. protect_owned-Safe (owner_profile rb) _ refl (Memᴰ.tail (x _ m)) d))
                    (λ _. done-Safe P _ _ _ tt tt))
                (λ _. done-Safe P _ _ h' tt tt))
              (λ h'' _ _ _. ends h'')))

  -- Whatever the API server answers, the ReleaseBinding controller only reads objects, adds and drops
  -- its own finalizer on release bindings, and protects and unprotects releases; it protects the
  -- release that it has read for a binding that stays, as does the profile that owns it, if any; and
  -- it drops the protection only when the binding is being deleted, no owner profile cleans up
  -- behind it, and the lists read before show no other referrer.
  pub reconcile_release_binding-Safe :
      Safe (release_binding_policy req) Anything Anything [] (reconcile_release_binding s req)
  unfolding reconcile_release_binding
  reconcile_release_binding-Safe =
      with_object-Safe P Anything s release_bindings req _ _ (reads release_bindings req) (λ rb.
        if-Safe returns s P Anything rb.meta.deleting _ _ _
          (λ d. delete-Safe rb _ (Memᴰ.head refl) d) (λ d. keep-Safe rb _ (Memᴰ.head refl) d))
