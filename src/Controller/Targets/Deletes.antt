-- ===== src/Controller/Targets/Deletes.antt =====
-- The deleting loops delete what is doomed, and nothing else.
use solution_arsenal.Prelude.{
  ◌≡◌, refl, inl, inr, Bool, true, Option, none, some, List, [], ◌∷◌, Memᴰ, ok, err, All,
  All-of_forall, Bool-cases,
}
use solution_arsenal.Cluster.{Kind, Object, Error, ListOptions, Call, list, delete, Answer, Program}
use solution_arsenal.Cluster.Safe.{
  History, Safe, Extends, Safe-map, call-Safe, done-Safe, stop-Safe,
}
use solution_arsenal.Cluster.Errors.{is_not_found}
use solution_arsenal.Controller.Targets.{delete_all, delete_listed, deleted_or, listed_or}

module _ (k : Kind) (doomed : Object k → Bool) (options : ListOptions) where
  -- The list is read, and then objects are deleted that it shows and that are doomed.
  pub data DeletesDoomed (h : History) : Call → Type 0 where
    lists_first : DeletesDoomed h (list k options)
    deletes_doomed :
        (o : Object k) (os : List (Object k))
        → Memᴰ (list k options, ok os) h
        → Memᴰ o os
        → doomed o ≡ true
        → DeletesDoomed h (delete k o)

  -- The API server has answered that the object is deleted, or that it is not there.
  pub data IsGone (h : History) (o : Object k) : Type 0 where
    is_deleted : Memᴰ (delete k o, ok tt) h → IsGone h o
    was_missing : (e : Error) → is_not_found e ≡ true → Memᴰ (delete k o, err e) h → IsGone h o

  IsGone-Extends : (h h' : History) (o : Object k) → Extends h h' → IsGone h o → IsGone h' o
  IsGone-Extends h h' o x (is_deleted m) = is_deleted (x _ m)
  IsGone-Extends h h' o x (was_missing e n m) = was_missing e n (x _ m)

  -- Where there is no error, every doomed object of the list is gone.
  abbrev pub AllGone : List (Object k) → History → Option Error → Type 0
  AllGone os h none = All (λ o. doomed o ≡ true → IsGone h o) os
  AllGone os h (some e) = Unit

  -- The same of the objects that the list call has shown.
  abbrev pub ListedGone : History → Option Error → Type 0
  ListedGone h none = (os : List (Object k)) × Memᴰ (list k options, ok os) h × AllGone os h none
  ListedGone h (some e) = Unit

  pub ListedGone-Extends : (h h' : History) → Extends h h' → ListedGone h none → ListedGone h' none
  ListedGone-Extends h h' x (os, l, a) = (os, x _ l, later os a)
    where
      later : (os' : List (Object k)) → AllGone os' h none → AllGone os' h' none
      later [] a' = tt
      later (o ∷ os') (g, a') = (λ y. IsGone-Extends h h' o x (g y), later os' a')

  AllGone-cons :
      (o : Object k) (os : List (Object k)) (h h' : History) (e : Option Error)
      → (doomed o ≡ true → IsGone h o)
      → Extends h h'
      → AllGone os h' e
      → AllGone (o ∷ os) h' e
  AllGone-cons o os h h' none g x a = (λ y. IsGone-Extends h h' o x (g y), a)
  AllGone-cons o os h h' (some e) g x a = tt

  module _ (all : List (Object k)) where
    abbrev Listed : History → Type 0
    Listed h = Memᴰ (list k options, ok all) h

    abbrev Loops : List (Object k) → History → Program (Option Error) (Option Error) → Type 0
    Loops os h m = Safe DeletesDoomed (AllGone os) (AllGone os) h m

    goes_on :
        (o : Object k) (os : List (Object k)) (h : History)
        (m : Program (Option Error) (Option Error))
        → (doomed o ≡ true → IsGone h o)
        → Loops os h m
        → Loops (o ∷ os) h m
    goes_on o os h m g k =
        Safe-map DeletesDoomed DeletesDoomed (AllGone os) (AllGone (o ∷ os)) (AllGone os)
          (AllGone (o ∷ os)) h (λ _ _ _ p. p) (λ h' e x a. AllGone-cons o os h h' e g x a)
          (λ h' e x a. AllGone-cons o os h h' e g x a) m h (λ _ i. i) k

    answered :
        (o : Object k) (os : List (Object k)) (h : History) (a : Answer (delete k o))
        → ((h' : History) → Extends h h' → Loops os h' (delete_all k doomed os))
        → Loops (o ∷ os) ((delete k o, a) ∷ h) (deleted_or k doomed (delete_all k doomed os) a)
    answered o os h (ok tt) next =
        goes_on o os _ _ (λ _. is_deleted (Memᴰ.head refl)) (next _ (λ _ i. Memᴰ.tail i))
    answered o os h (err e) next = elim (Bool-cases (is_not_found e)) [
      | inl y ↦
          rw y
            (goes_on o os _ _ (λ _. was_missing e y (Memᴰ.head refl)) (next _ (λ _ i. Memᴰ.tail i)))
      | inr n ↦ rw n (stop-Safe DeletesDoomed (AllGone (o ∷ os)) (AllGone (o ∷ os)) _ (some e) tt)
    ]

    delete_all-Safe :
        (os : List (Object k)) (h : History)
        → Listed h
        → All (λ o. Memᴰ o all) os
        → Loops os h (delete_all k doomed os)
    unfolding delete_all
    delete_all-Safe [] h l ms = done-Safe DeletesDoomed (AllGone []) (AllGone []) h none tt
    delete_all-Safe (o ∷ os) h l (m, ms) = elim (Bool-cases (doomed o)) [
      | inl y ↦ rw y (
          call-Safe DeletesDoomed (AllGone (o ∷ os)) (AllGone (o ∷ os)) (delete k o) _ h
            (deletes_doomed o all l m y)
            (λ a. answered o os h a (λ h' x. delete_all-Safe os h' (x _ l) ms)))
      | inr n ↦ rw n (goes_on o os h _ (λ y. cc) (delete_all-Safe os h l ms))
    ]

  listed-Safe :
      (h : History) (a : Answer (list k options))
      → Safe DeletesDoomed ListedGone ListedGone ((list k options, a) ∷ h) (listed_or k doomed a)
  listed-Safe h (err e) = stop-Safe DeletesDoomed ListedGone ListedGone _ (some e) tt
  listed-Safe h₀ (ok os) =
      Safe-map DeletesDoomed DeletesDoomed (AllGone os) ListedGone (AllGone os) ListedGone h
        (λ _ _ _ p. p) shown shown (delete_all k doomed os) h (λ _ i. i)
        (delete_all-Safe os os h (Memᴰ.head refl) (All-of_forall (λ o. Memᴰ o os) os (λ o m. m)))
    where
      h : History
      h = (list k options, ok os) ∷ h₀

      shown : (h' : History) (e : Option Error) → Extends h h' → AllGone os h' e → ListedGone h' e
      shown h' none x a = (os, x _ (Memᴰ.head refl), a)
      shown h' (some e) x a = tt

  pub delete_listed-Safe :
      (h : History) → Safe DeletesDoomed ListedGone ListedGone h (delete_listed k doomed options)
  unfolding delete_listed
  delete_listed-Safe h =
      call-Safe DeletesDoomed ListedGone ListedGone (list k options) _ h lists_first (listed-Safe h)
