-- ===== src/Controller/ReleaseBindings/Policy.antt =====
-- What the ReleaseBinding controller may do, and what it has read before.
use solution_arsenal.Prelude.{◌≡◌, true, false, Option, none, some, Memᴰ, Result, ok, err}
use solution_arsenal.Str.{Str}
use solution_arsenal.Api.{Release, ReleaseBinding, Profile}
use solution_arsenal.Cluster.{
  profiles, releases, release_bindings, NamespacedName, Error, get, has_finalizer,
}
use solution_arsenal.Cluster.Errors.{is_not_found}
use solution_arsenal.Cluster.Safe.{Policy, History, Extends}
use solution_arsenal.Controller.Steps.{Allowed}
use solution_arsenal.Controller.Finalizers.{
  profile_finalizer, release_ref_finalizer, release_binding_finalizer,
}
use solution_arsenal.Controller.ReleaseBindings.{owner_profile, profile_name}
use solution_arsenal.Controller.ReleaseBindings.Frees.{ReleaseIsFree}
use solution_arsenal.Controller.ReleaseBindings.Reconcile.{bound_release}

abbrev pub SaysUnmanaged : Result Error Profile → Type 0
SaysUnmanaged (ok p) = has_finalizer profiles p profile_finalizer ≡ false
SaysUnmanaged (err e) = is_not_found e ≡ true

-- There is no owner profile, or it was read and it does not clean up any more.
abbrev pub Unmanaged : ReleaseBinding → History → Option Str → Type 0
Unmanaged rb h none = Unit
Unmanaged rb h (some owner) =
    (answer : Result Error Profile) × Memᴰ (get profiles (profile_name rb owner), answer) h
    × SaysUnmanaged answer

-- There is no owner profile, or it was read and it is not being deleted.
abbrev pub StaysOwned : ReleaseBinding → History → Option Str → Type 0
StaysOwned rb h none = Unit
StaysOwned rb h (some owner) =
    (p : Profile) × Memᴰ (get profiles (profile_name rb owner), ok p) h × p.meta.deleting ≡ false

-- The binding was read and is not being deleted, nor is its owner; the release was read.
pub record MayProtect (req : NamespacedName) (h : History) (fresh : Release) : Type 0 where
  pub rb : ReleaseBinding
  pub rb_read : Memᴰ (get release_bindings req, ok rb) h
  pub stays : rb.meta.deleting ≡ false
  pub owned : StaysOwned rb h (owner_profile rb)
  pub fresh_read : Memᴰ (get releases (bound_release rb), ok fresh) h

-- The binding was read, it is being deleted, no profile cleans up behind it, and nothing else refers to
-- its release.
pub record IsReleased (req : NamespacedName) (h : History) (fresh : Release) : Type 0 where
  pub rb : ReleaseBinding
  pub rb_read : Memᴰ (get release_bindings req, ok rb) h
  pub deleting : rb.meta.deleting ≡ true
  pub unmanaged : Unmanaged rb h (owner_profile rb)
  pub release : Release
  pub release_read : Memᴰ (get releases (bound_release rb), ok release) h
  pub is_free : ReleaseIsFree rb release h fresh

pub Unmanaged-Extends :
    (rb : ReleaseBinding) (h h' : History) (owner : Option Str)
    → Extends h h'
    → Unmanaged rb h owner
    → Unmanaged rb h' owner
Unmanaged-Extends rb h h' none x u = tt
Unmanaged-Extends rb h h' (some owner) x (answer, m, u) = (answer, x _ m, u)

pub StaysOwned-Extends :
    (rb : ReleaseBinding) (h h' : History) (owner : Option Str)
    → Extends h h'
    → StaysOwned rb h owner
    → StaysOwned rb h' owner
StaysOwned-Extends rb h h' none x u = tt
StaysOwned-Extends rb h h' (some owner) x (p, m, u) = (p, x _ m, u)

abbrev pub release_binding_policy : NamespacedName → Policy
release_binding_policy req =
    Allowed release_bindings releases release_binding_finalizer release_ref_finalizer
      (MayProtect req) (IsReleased req)
