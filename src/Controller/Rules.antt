-- ===== src/Controller/Rules.antt =====
-- Rules for the shared pieces of the controllers, for any policy that allows their calls.
use solution_arsenal.Prelude.{
  ◌≡◌, inl, inr, Bool, Bool-cases, true, false, Option, none, some, [], ◌∷◌, ◌++◌, ok, err,
}
use solution_arsenal.Str.{Str}
use solution_arsenal.Cluster.{
  Kind, Object, meta_of, NamespacedName, Error, Call, get, list, patch, ListOptions, Value, Answer,
  Program, and_then, has_finalizer, refinalize, without, returned,
}
use solution_arsenal.Cluster.Errors.{is_not_found}
use solution_arsenal.Cluster.Safe.{
  Policy, History, Safe, Extends, Safe-map, returned-Safe, and_then-Safe, call-Safe, done-Safe,
  stop-Safe,
}
use solution_arsenal.Controller.{
  Settings, attempt, find, or_missing, or_fail, drop_own_finalizer, add_own_finalizer, protect,
  unprotect, key_of,
}
use solution_arsenal.Controller.Steps.{
  Allowed, reads, lists, unprotects, Anything, attempt-Safe, find-Safe, if-Safe,
}

-- A program, and another one behind it that may use what the first one has established.
pub then-Safe :
    {R A B : Type 0} (P : Policy) (T : History → A → Type 0) (Q : History → B → Type 0)
    (m : Program R A) (f : A → Program R B) (h : History)
    → Safe P T Anything h m
    → ((h' : History) (a : A) → Extends h h' → T h' a → Safe P Q Anything h' (f a))
    → Safe P Q Anything h (and_then m f)
then-Safe P T Q m f h k next = and_then-Safe P Q Anything m f h (
    Safe-map P P T _ Anything Anything h (λ _ _ _ p. p) (λ h' a e t. next h' a e t) (λ _ _ _ _. tt)
      m h (λ _ i. i) k)

-- A call to a function whose early returns are values.
pub returned-then-Safe :
    {R A B : Type 0} (P : Policy) (T : History → A → Type 0) (Q : History → B → Type 0)
    (m : Program A A) (f : A → Program R B) (h : History)
    → Safe P T T h m
    → ((h' : History) (a : A) → Extends h h' → T h' a → Safe P Q Anything h' (f a))
    → Safe P Q Anything h (and_then (returned m) f)
returned-then-Safe P T Q m f h k next =
    then-Safe P T Q (returned m) f h (returned-Safe P T Anything m h k) next

-- What takes a protecting finalizer away: it reads, and drops the finalizer while `free` says that
-- nobody refers to the object.
pub data Unprotecting (ref : Kind) (ref_finalizer : Str) (free : History → Object ref → Type 0)
    (h : History) : Call → Type 0 where
  looks_at : (k : Kind) (n : NamespacedName) → Unprotecting ref ref_finalizer free h (get k n)
  looks_for : (k : Kind) (o : ListOptions) → Unprotecting ref ref_finalizer free h (list k o)
  frees :
      (lock : Bool) (o : Object ref)
      → free h o
      → Unprotecting ref ref_finalizer free h
          (patch ref lock o (refinalize ref o (without ref_finalizer (meta_of ref o).finalizers)))

-- A controller that protects objects may do what takes the protection away, for its own reasons.
pub Unprotecting-Allowed :
    (own ref : Kind) (own_finalizer ref_finalizer : Str)
    (may free free' : History → Object ref → Type 0) (h : History)
    → ((o : Object ref) → free h o → free' h o)
    → (c : Call) → Unprotecting ref ref_finalizer free h c
    → Allowed own ref own_finalizer ref_finalizer may free' h c
Unprotecting-Allowed own ref own_finalizer ref_finalizer may free free' h f _ (looks_at k n) =
    reads k n
Unprotecting-Allowed own ref own_finalizer ref_finalizer may free free' h f _ (looks_for k o) =
    lists k o
Unprotecting-Allowed own ref own_finalizer ref_finalizer may free free' h f _ (frees lock o p) =
    unprotects lock o (f o p)

module _ {R : Type 0} (exit : Option Error → R) (s : Settings) (P : Policy) (own : Kind)
    (finalizer : Str) where
  pub drop_own_finalizer-Safe :
      (req : NamespacedName) (o : Object own) (get_text patch_text : Str) (h : History)
      → P h (get own req)
      → ((latest : Object own)
          → P ((get own req, ok latest) ∷ h) (
              patch own false latest
                (refinalize own latest (without finalizer (meta_of own latest).finalizers))))
      → Safe P Anything Anything h
          (drop_own_finalizer exit s own req o finalizer get_text patch_text)
  unfolding drop_own_finalizer
  drop_own_finalizer-Safe req o get_text patch_text h p q =
      if-Safe exit s P Anything (has_finalizer own o finalizer) _ _ h
        (λ _. attempt-Safe exit s P _ (get own req) get_text _ h p (λ latest.
          attempt-Safe exit s P _ _ patch_text _ _ (q latest) (λ _. done-Safe P _ _ _ tt tt)))
        (λ _. done-Safe P _ _ h tt tt)

  pub add_own_finalizer-Safe :
      (req : NamespacedName) (o : Object own) (get_text patch_text : Str) (h : History)
      → P h (get own req)
      → ((latest : Object own)
          → P ((get own req, ok latest) ∷ h) (
              patch own false latest
                (refinalize own latest ((meta_of own latest).finalizers ++ finalizer ∷ []))))
      → Safe P Anything Anything h
          (add_own_finalizer exit s own req o finalizer get_text patch_text)
  unfolding add_own_finalizer
  add_own_finalizer-Safe req o get_text patch_text h p q =
      if-Safe exit s P Anything (has_finalizer own o finalizer) _ _ h (λ _. done-Safe P _ _ h tt tt)
        (λ _. attempt-Safe exit s P _ (get own req) get_text _ h p (λ latest.
          if-Safe exit s P Anything (has_finalizer own latest finalizer) _ _ _
            (λ _. done-Safe P _ _ _ tt tt)
            (λ _.
              attempt-Safe exit s P _ _ patch_text _ _ (q latest) (λ _. done-Safe P _ _ _ tt tt))))

  pub protect-Safe :
      (lock : Bool) (o : Object own) (text : Str) (h : History)
      → P h (patch own lock o (refinalize own o ((meta_of own o).finalizers ++ finalizer ∷ [])))
      → Safe P Anything Anything h (protect exit s own lock o finalizer text)
  unfolding protect
  protect-Safe lock o text h p =
      if-Safe exit s P Anything (has_finalizer own o finalizer) _ _ h (λ _. done-Safe P _ _ h tt tt)
        (λ _. attempt-Safe exit s P _ _ text _ h p (λ _. done-Safe P _ _ _ tt tt))

  pub unprotect-Safe :
      (lock : Bool) (o : Object own) (get_text patch_text : Str) (h : History)
      → P h (get own (key_of own o))
      → ((fresh : Object own)
          → P ((get own (key_of own o), ok fresh) ∷ h) (
              patch own lock fresh
                (refinalize own fresh (without finalizer (meta_of own fresh).finalizers))))
      → Safe P Anything Anything h (unprotect exit s own lock o finalizer get_text patch_text)
  unfolding unprotect
  unprotect-Safe lock o get_text patch_text h p q =
      find-Safe exit s P Anything own (key_of own o) get_text _ h p
        (λ fresh. attempt-Safe exit s P _ _ patch_text _ _ (q fresh) (λ _. done-Safe P _ _ _ tt tt))
        (λ _. stop-Safe P _ _ _ _ tt)

-- A call whose answer is the program's value.
pub attempt-ends :
    {R : Type 0} (exit : Option Error → R) (s : Settings) (P : Policy) (c : Call)
    (Q : History → Value c → Type 0) (text : Str) (h : History)
    → P h c
    → ((v : Value c) → Q ((c, ok v) ∷ h) v)
    → Safe P Q Anything h (attempt exit s c text)
unfolding attempt
attempt-ends exit s P c Q text h p q = call-Safe P Q Anything c _ h p answered
  where
    answered : (a : Answer c) → Safe P Q Anything ((c, a) ∷ h) (or_fail exit s text a)
    answered (ok v) = done-Safe P Q Anything _ v (q v)
    answered (err e) = stop-Safe P Q Anything _ _ tt

-- A `get` whose NotFound is not an error, where what follows needs to know that it was answered.
pub find-Missing :
    {R B : Type 0} (exit : Option Error → R) (s : Settings) (P : Policy) (Q : History → B → Type 0)
    (k : Kind) (n : NamespacedName) (text : Str) (f : Option (Object k) → Program R B) (h : History)
    → P h (get k n)
    → ((o : Object k) → Safe P Q Anything ((get k n, ok o) ∷ h) (f (some o)))
    → ((e : Error) → is_not_found e ≡ true → Safe P Q Anything ((get k n, err e) ∷ h) (f none))
    → Safe P Q Anything h (and_then (find exit s k n text) f)
unfolding find and_then Safe
find-Missing exit s P Q k n text f h p q r = (p, answered)
  where
    answered :
        (a : Answer (get k n))
        → Safe P Q Anything ((get k n, a) ∷ h) (and_then (or_missing exit s text a) f)
    answered (ok o) = q o
    answered (err e) = elim (Bool-cases (is_not_found e)) [
      | inl y ↦ rw y (r e y)
      | inr m ↦ rw (m, Safe) tt
    ]
