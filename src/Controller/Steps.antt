-- ===== src/Controller/Steps.antt =====
-- What the shared pieces of the controllers may call.
use solution_arsenal.Prelude.{
  ◌≡◌, refl, inl, inr, Bool, true, false, Option, none, some, [], ◌∷◌, ◌++◌, ok, err, Bool-cases,
  if◌then◌else◌,
}
use solution_arsenal.Str.{Str}
use solution_arsenal.Cluster.{
  Kind, releases, Object, meta_of, NamespacedName, Error, Call, get, list, patch, update_status,
  ListOptions, Value, Answer, Program, and_then, has_finalizer, refinalize, without, returned,
}
use solution_arsenal.Cluster.Safe.{
  Policy, History, Safe, Extends, Safe-map, returned-Safe, and_then-Safe, done-Safe, stop-Safe,
}
use solution_arsenal.Cluster.Errors.{is_not_found}
use solution_arsenal.Controller.{
  Settings, attempt, find, or_fail, or_missing, drop_own_finalizer, add_own_finalizer, protect,
  unprotect, key_of, Outcome, stop_on, check, returns, with_object, is_elsewhere,
}

-- Of these controllers, only the one of releases sets the status of its objects.
abbrev pub sets_own_status : Kind → Bool
sets_own_status releases = true
sets_own_status k = false

-- What a controller with its own kind and a kind that it protects may call: it reads; it adds and
-- drops its own finalizer, on a version of its object that it has read; it adds the protecting
-- finalizer where `may` allows it; it drops that one only while `free` says that nobody refers to the object; and the
-- controller of releases sets its object's status.
pub data Allowed (own ref : Kind) (own_finalizer ref_finalizer : Str)
    (may free : History → Object ref → Type 0) (h : History) : Call → Type 0 where
  reads :
      (k : Kind) (n : NamespacedName)
      → Allowed own ref own_finalizer ref_finalizer may free h (get k n)
  lists :
      (k : Kind) (o : ListOptions)
      → Allowed own ref own_finalizer ref_finalizer may free h (list k o)
  adds_own :
      (o : Object own)
      → Allowed own ref own_finalizer ref_finalizer may free h
          (patch own false o (refinalize own o ((meta_of own o).finalizers ++ own_finalizer ∷ [])))
  drops_own :
      (o : Object own)
      → Allowed own ref own_finalizer ref_finalizer may free h
          (patch own false o (refinalize own o (without own_finalizer (meta_of own o).finalizers)))
  protects :
      (lock : Bool) (o : Object ref)
      → may h o
      → Allowed own ref own_finalizer ref_finalizer may free h
          (patch ref lock o (refinalize ref o ((meta_of ref o).finalizers ++ ref_finalizer ∷ [])))
  unprotects :
      (lock : Bool) (o : Object ref)
      → free h o
      → Allowed own ref own_finalizer ref_finalizer may free h
          (patch ref lock o (refinalize ref o (without ref_finalizer (meta_of ref o).finalizers)))
  sets_status :
      (o : Object own)
      → sets_own_status own ≡ true
      → Allowed own ref own_finalizer ref_finalizer may free h (update_status own o)

-- Nothing is claimed of a value.
abbrev pub Anything : {A : Type 0} → History → A → Type 0
Anything h a = Unit

-- Rules for the steps: `P` is the policy, and `Q` what the program behind the step establishes.
module _ {R B : Type 0} (exit : Option Error → R) (s : Settings) (P : Policy)
    (Q : History → B → Type 0) where
  pub attempt-Safe :
      (c : Call) (text : Str) (f : Value c → Program R B) (h : History)
      → P h c
      → ((v : Value c) → Safe P Q Anything ((c, ok v) ∷ h) (f v))
      → Safe P Q Anything h (and_then (attempt exit s c text) f)
  unfolding attempt and_then Safe
  attempt-Safe c text f h p q = (p, answered)
    where
      answered :
          (a : Answer c) → Safe P Q Anything ((c, a) ∷ h) (and_then (or_fail exit s text a) f)
      answered (ok v) = q v
      answered (err e) = tt

  pub find-Safe :
      (k : Kind) (n : NamespacedName) (text : Str) (f : Option (Object k) → Program R B)
      (h : History)
      → P h (get k n)
      → ((o : Object k) → Safe P Q Anything ((get k n, ok o) ∷ h) (f (some o)))
      → ((e : Error) → Safe P Q Anything ((get k n, err e) ∷ h) (f none))
      → Safe P Q Anything h (and_then (find exit s k n text) f)
  unfolding find and_then Safe
  find-Safe k n text f h p q r = (p, answered)
    where
      answered :
          (a : Answer (get k n))
          → Safe P Q Anything ((get k n, a) ∷ h) (and_then (or_missing exit s text a) f)
      answered (ok o) = q o
      answered (err e) = elim (Bool-cases (is_not_found e)) [
        | inl y ↦ rw y (r e)
        | inr n ↦ rw (n, Safe) tt
      ]

  pub if-Safe :
      (b : Bool) (m n : Program R B) (h : History)
      → (b ≡ true → Safe P Q Anything h m)
      → (b ≡ false → Safe P Q Anything h n)
      → Safe P Q Anything h (if b then m else n)
  if-Safe true m n h p q = p refl
  if-Safe false m n h p q = q refl

module _ {R : Type 0} (exit : Option Error → R) (s : Settings) (own ref : Kind)
    (own_finalizer ref_finalizer : Str) (may free : History → Object ref → Type 0)
    (Q : History → Unit {0} → Type 0) where
  abbrev policy : Policy
  policy = Allowed own ref own_finalizer ref_finalizer may free

  abbrev Goes : History → Program R Unit → Type 0
  Goes h m = ((h' : History) → Q h' tt) → Safe policy Q Anything h m

  pub drop_own_finalizer-Safe :
      (req : NamespacedName) (o : Object own) (get_text patch_text : Str) (h : History)
      → Goes h (drop_own_finalizer exit s own req o own_finalizer get_text patch_text)
  unfolding drop_own_finalizer
  drop_own_finalizer-Safe req o get_text patch_text h next =
      if-Safe exit s policy Q _ _ _ h
        (λ _. attempt-Safe exit s policy _ (get own req) get_text _ h (reads own req) (λ latest.
          attempt-Safe exit s policy _ _ patch_text _ _ (drops_own latest)
            (λ _. done-Safe policy _ _ _ tt (next _))))
        (λ _. done-Safe policy _ _ h tt (next h))

  pub add_own_finalizer-Safe :
      (req : NamespacedName) (o : Object own) (get_text patch_text : Str) (h : History)
      → Goes h (add_own_finalizer exit s own req o own_finalizer get_text patch_text)
  unfolding add_own_finalizer
  add_own_finalizer-Safe req o get_text patch_text h next =
      if-Safe exit s policy Q (has_finalizer own o own_finalizer) _ _ h
        (λ _. done-Safe policy _ _ h tt (next h))
        (λ _. attempt-Safe exit s policy _ (get own req) get_text _ h (reads own req) (λ latest.
          if-Safe exit s policy Q (has_finalizer own latest own_finalizer) _ _ _
            (λ _. done-Safe policy _ _ _ tt (next _))
            (λ _.
              attempt-Safe exit s policy _ _ patch_text _ _ (adds_own latest)
                (λ _. done-Safe policy _ _ _ tt (next _)))))

  pub protect-Safe :
      (lock : Bool) (o : Object ref) (text : Str) (h : History)
      → may h o
      → Goes h (protect exit s ref lock o ref_finalizer text)
  unfolding protect
  protect-Safe lock o text h may_protect next =
      if-Safe exit s policy Q _ _ _ h (λ _. done-Safe policy _ _ h tt (next h))
        (λ _.
          attempt-Safe exit s policy _ _ text _ h (protects lock o may_protect)
            (λ _. done-Safe policy _ _ _ tt (next _)))

  pub unprotect-Safe :
      (lock : Bool) (o : Object ref) (get_text patch_text : Str) (h : History)
      → ((fresh : Object ref) → free ((get ref (key_of ref o), ok fresh) ∷ h) fresh)
      → Goes h (unprotect exit s ref lock o ref_finalizer get_text patch_text)
  unfolding unprotect
  unprotect-Safe lock o get_text patch_text h is_free next =
      find-Safe exit s policy Q ref (key_of ref o) get_text _ h (reads ref (key_of ref o))
        (λ fresh.
          attempt-Safe exit s policy _ _ patch_text _ _ (unprotects lock fresh (is_free fresh))
            (λ _. done-Safe policy _ _ _ tt (next _)))
        (λ _. stop-Safe policy _ _ _ _ tt)

module _ (own ref : Kind) (own_finalizer ref_finalizer : Str)
    (may free free' : History → Object ref → Type 0) (h : History) where
  pub Allowed-map :
      ((o : Object ref) → free h o → free' h o)
      → (c : Call) → Allowed own ref own_finalizer ref_finalizer may free h c
      → Allowed own ref own_finalizer ref_finalizer may free' h c
  Allowed-map f _ (reads k n) = reads k n
  Allowed-map f _ (lists k o) = lists k o
  Allowed-map f _ (adds_own o) = adds_own o
  Allowed-map f _ (drops_own o) = drops_own o
  Allowed-map f _ (protects lock o m) = protects lock o m
  Allowed-map f _ (unprotects lock o p) = unprotects lock o (f o p)
  Allowed-map f _ (sets_status o y) = sets_status o y

module _ (P : Policy) (Q : History → Unit {0} → Type 0) where
  pub check-Safe :
      (m : Program (Option Error) (Option Error)) (h : History)
      → Safe P Anything Anything h m
      → ((h' : History) → Q h' tt)
      → Safe P Q Anything h (check m)
  unfolding check
  check-Safe m h k next = and_then-Safe P Q Anything (returned m) stop_on h (
      returned-Safe P (λ h' a. Safe P Q Anything h' (stop_on a)) Anything m h
        (Safe-map P P Anything _ Anything _ h (λ _ _ _ p. p) (λ h' a _ _. goes_on h' a)
          (λ h' a _ _. goes_on h' a) m h (λ _ i. i) k))
    where
      goes_on : (h' : History) (a : Option Error) → Safe P Q Anything h' (stop_on a)
      goes_on h' none = done-Safe P Q Anything h' tt (next h')
      goes_on h' (some x) = stop-Safe P Q Anything h' (returns (some x)) tt

-- A reconciler goes on with the object that it has read.
pub with_object-Safe :
    (P : Policy) (Q : History → Outcome → Type 0) (s : Settings) (k : Kind) (req : NamespacedName)
    (text : Str) (f : Object k → Program Outcome Outcome)
    → P [] (get k req)
    → ((o : Object k) → Safe P Q Anything ((get k req, ok o) ∷ []) (f o))
    → Safe P Q Anything [] (with_object s k req text f)
unfolding with_object
with_object-Safe P Q s k req text f p q =
    if-Safe returns s P Q (is_elsewhere s req) _ _ []
      (λ _. stop-Safe P Q Anything [] (returns none) tt)
      (λ _.
        find-Safe returns s P Q k req text _ [] p q
          (λ e. stop-Safe P Q Anything _ (returns none) tt))

-- A step, and what holds behind it of the history that it has extended.
pub Safe-next :
    {R : Type 0} (P : Policy) (Q : History → Unit {0} → Type 0) (m : Program R Unit) (h : History)
    → Safe P Anything Anything h m
    → ((h' : History) → Extends h h' → Q h' tt)
    → Safe P Q Anything h m
Safe-next P Q m h k next =
    Safe-map P P Anything Q Anything Anything h (λ _ _ _ p. p) (λ h' _ e _. next h' e)
      (λ _ _ _ _. tt) m h (λ _ i. i) k
