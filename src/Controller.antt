-- ===== src/Controller.antt =====
-- The controllers of pkg/controller: what they share, and the fields by which objects are listed
-- (helpers.go). A reconciler returns a result and an error, as in Go.
pub mod Finalizers
pub mod Backoff
pub mod Libraries
pub mod Steps
pub mod Rules
pub mod Protection
pub mod RegistryBindings
pub mod ComponentVersions
pub mod Releases
pub mod Targets
pub mod ReleaseBindings
pub mod RenderTasks
pub mod RenderArtifacts
pub mod Profiles
mod Samples
mod Witnesses
mod Tests
use solution_arsenal.Prelude.{
  ℕ, Bool, true, false, Option, none, some, List, [], ◌∷◌, ◌++◌, Result, ok, err, ◌==◌, length, not,
  ◌&&◌, ltb, if◌then◌else◌,
}
use solution_arsenal.Str.{Str, lit, str_eq}
use solution_arsenal.Cluster.{
  Kind, Object, meta_of, NamespacedName, Error, Call, get, patch, Value, Program, done, stop, call,
  and_then, returned, ◌>>=◌, ◌>>◌, has_finalizer, refinalize, without,
}
use solution_arsenal.Cluster.Errors.{is_not_found, err_log_and_wrap}

-- ctrl.Result: `requeue_after` in nanoseconds.
pub record CtrlResult : Type 0 where
  pub requeue_after : ℕ

abbrev pub Outcome : Type 0
Outcome = CtrlResult × Option Error

-- ctrl.Result{}
abbrev pub empty_result : CtrlResult
empty_result = record { requeue_after = 0 }

-- return ctrl.Result{}, e
abbrev pub returns : Option Error → Outcome
returns e = (empty_result, e)

-- What the reconcilers are configured with.
pub record Settings : Type 0 where
  pub test_mode : Bool
  pub watch_namespace : Str

abbrev pub key_of : (k : Kind) → Object k → NamespacedName
key_of k o = record { namespace = (meta_of k o).namespace; name = (meta_of k o).name }

-- r.WatchNamespace != "" && req.Namespace != r.WatchNamespace
abbrev pub is_elsewhere : Settings → NamespacedName → Bool
is_elsewhere s req =
    ltb 0 (length s.watch_namespace) && not (str_eq req.namespace s.watch_namespace)

module _ {R : Type 0} (exit : Option Error → R) (s : Settings) where
  abbrev pub or_fail : {A : Type 0} → Str → Result Error A → Program R A
  or_fail text (ok v) = done v
  or_fail text (err e) = stop (exit (err_log_and_wrap s.test_mode (some e) text))

  -- `if err := call; err != nil { return errLogAndWrap(log, err, text) }`
  unfoldable pub attempt : (c : Call) → Str → Program R (Value c)
  attempt c text = call c (or_fail text)

  abbrev pub or_missing : {A : Type 0} → Str → Result Error A → Program R (Option A)
  or_missing text (ok v) = done (some v)
  or_missing text (err e) =
      if is_not_found e then done none else stop (exit (err_log_and_wrap s.test_mode (some e) text))

  -- A `get` whose NotFound is not an error: `none` where the object is not there.
  unfoldable pub find : (k : Kind) → NamespacedName → Str → Program R (Option (Object k))
  find k n text = call (get k n) (or_missing text)

  -- `slices.DeleteFunc` on the latest version of the object.
  unfoldable pub drop_own_finalizer :
      (k : Kind) → NamespacedName → Object k → Str → (get_text patch_text : Str) → Program R Unit
  unfolding attempt without
  drop_own_finalizer k req o finalizer get_text patch_text =
      if has_finalizer k o finalizer
      then (do
        latest ← attempt (get k req) get_text
        attempt
            (patch k false latest
              (refinalize k latest (without finalizer (meta_of k latest).finalizers)))
            patch_text
        done tt)
      else done tt

  unfoldable pub add_own_finalizer :
      (k : Kind) → NamespacedName → Object k → Str → (get_text patch_text : Str) → Program R Unit
  unfolding attempt
  add_own_finalizer k req o finalizer get_text patch_text =
      if has_finalizer k o finalizer then done tt else (do
        latest ← attempt (get k req) get_text
        if has_finalizer k latest finalizer then done tt else (do
          attempt
              (patch k false latest
                (refinalize k latest ((meta_of k latest).finalizers ++ finalizer ∷ [])))
              patch_text
          done tt))

  -- The finalizer that protects an object while another one refers to it.
  unfoldable pub protect : (k : Kind) → Bool → Object k → Str → Str → Program R Unit
  unfolding attempt
  protect k lock o finalizer text = if has_finalizer k o finalizer then done tt else (do
    attempt (patch k lock o (refinalize k o ((meta_of k o).finalizers ++ finalizer ∷ []))) text
    done tt)

  -- The end of the functions that take a protecting finalizer away.
  unfoldable pub unprotect :
      (k : Kind) → Bool → Object k → Str → (get_text patch_text : Str) → Program R Unit
  unfolding attempt find without
  unprotect k lock o finalizer get_text patch_text = do
    found ← find k (key_of k o) get_text
    elim found [
      | none ↦ stop (exit none)
      | some fresh ↦ (do
        attempt
            (patch k lock fresh
              (refinalize k fresh (without finalizer (meta_of k fresh).finalizers)))
            patch_text
        done tt)
    ]

-- `else if err := f(...); err != nil { return ctrl.Result{}, err }`
abbrev pub stop_on : Option Error → Program Outcome Unit
stop_on none = done tt
stop_on (some e) = stop (returns (some e))

unfoldable pub check : Program (Option Error) (Option Error) → Program Outcome Unit
unfolding returned and_then
check m = and_then (returned m) stop_on

-- The start of every reconciler: another namespace is passed over, as is an object that is gone.
unfoldable pub with_object :
    (s : Settings) (k : Kind)
    → NamespacedName
    → Str
    → (Object k → Program Outcome Outcome)
    → Program Outcome Outcome
unfolding find and_then
with_object s k req text f =
    if is_elsewhere s req then stop (returns none) else and_then (find returns s k req text) found
  where
    found : Option (Object k) → Program Outcome Outcome
    found none = stop (returns none)
    found (some o) = f o
