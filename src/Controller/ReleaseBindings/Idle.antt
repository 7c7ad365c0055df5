-- ===== src/Controller/ReleaseBindings/Idle.antt =====
-- The loop over the bindings goes through only when all of them are idle.
use solution_arsenal.Prelude.{
  ◌≡◌, ◌⊎◌, refl, inl, inr, Bool, true, false, Option, none, some, List, [], ◌∷◌, Memᴰ, Result, ok,
  err, All, Bool-cases,
}
use solution_arsenal.Str.{Str, str_eq}
use solution_arsenal.Str.Laws.{str_eq_iff}
use solution_arsenal.Api.{ReleaseBinding, Profile}
use solution_arsenal.PullSecrets.{find_key}
use solution_arsenal.Cluster.{profiles, NamespacedName, Error, get, Answer, Program}
use solution_arsenal.Cluster.Safe.{
  Policy, History, Safe, Safe-map, Extends, branch-Safe, call-Safe, done-Safe, stop-Safe,
}
use solution_arsenal.Cluster.Errors.{is_not_found}
use solution_arsenal.Controller.{Settings}
use solution_arsenal.Controller.Steps.{Anything}
use solution_arsenal.Controller.ReleaseBindings.{
  owner_profile, profile_name, cache_key, is_passed, Cache, owner_or, cached_or, owned_or,
  check_bindings,
}

abbrev pub SaysGone : Result Error Profile → Type 0
SaysGone (ok p) = p.meta.deleting ≡ true
SaysGone (err e) = is_not_found e ≡ true

-- The profile of that key was read, and it was gone or being deleted.
pub record KeyIsGone (key : Str) (h : History) : Type 0 where
  pub n : NamespacedName
  pub key_is : cache_key n ≡ key
  pub answer : Result Error Profile
  pub read : Memᴰ (get profiles n, answer) h
  pub gone : SaysGone answer

module _ (deleting_rb : ReleaseBinding) where
  -- The binding is the one that is reconciled, it is being deleted, or its owner is gone.
  abbrev pub IsIdle : History → ReleaseBinding → Type 0
  IsIdle h rb =
      (is_passed deleting_rb rb ≡ true)
      ⊎ ((owner : Str) × (owner_profile rb ≡ some owner)
          × KeyIsGone (cache_key (profile_name rb owner)) h)

  KeyIsGone-Extends :
      (key : Str) (h h' : History) → Extends h h' → KeyIsGone key h → KeyIsGone key h'
  KeyIsGone-Extends key h h' x k = record {
    n = k.n;
    key_is = k.key_is;
    answer = k.answer;
    read = x _ k.read;
    gone = k.gone;
  }

  pub IsIdle-Extends :
      (h h' : History) (rb : ReleaseBinding) → Extends h h' → IsIdle h rb → IsIdle h' rb
  IsIdle-Extends h h' rb x (inl p) = inl p
  IsIdle-Extends h h' rb x (inr (owner, e, k)) = inr (owner, e, KeyIsGone-Extends _ h h' x k)

  -- What the cache says of a key is what was read.
  abbrev Known : History → Cache → Type 0
  Known h cache = (key : Str) → find_key key cache ≡ some false → KeyIsGone key h

  pub Known-nil : (h : History) → Known h []
  unfolding find_key
  Known-nil h key f = cc

  Known-cons :
      (key : Str) (cache : Cache) (h : History)
      → KeyIsGone key h
      → Known h cache
      → Known h ((key, false) ∷ cache)
  unfolding find_key
  Known-cons key cache h k known other f = elim (Bool-cases (str_eq key other)) [
    | inl y ↦ rw⁻¹ ((str_eq_iff key other).0 y) k
    | inr n ↦ known other (rw n at f)
  ]

  module _ (s : Settings) (P : Policy)
      (may_read : (h : History) (n : NamespacedName) → P h (get profiles n)) where
    abbrev Loops : List ReleaseBinding → History → Program (Option Error) Unit → Type 0
    Loops rbs h m = Safe P (λ h' _. All (IsIdle h') rbs) Anything h m

    module _ (rb : ReleaseBinding) (rbs : List ReleaseBinding)
        (rest : (cache : Cache) (h : History)
          → Known h cache
          → Loops rbs h (check_bindings s deleting_rb rbs cache)) where
      goes_on :
          (cache : Cache) (h : History)
          → Known h cache
          → IsIdle h rb
          → Loops (rb ∷ rbs) h (check_bindings s deleting_rb rbs cache)
      goes_on cache h known i =
          Safe-map P P (λ h' _. All (IsIdle h') rbs) (λ h' _. All (IsIdle h') (rb ∷ rbs)) Anything
            Anything h (λ _ _ _ p. p) (λ h' _ x k. (IsIdle-Extends h h' rb x i, k)) (λ _ _ _ _. tt)
            (check_bindings s deleting_rb rbs cache) h (λ _ v. v) (rest cache h known)

      module _ (owner : Str) (owned : owner_profile rb ≡ some owner) (cache : Cache) where
        abbrev n : NamespacedName
        n = profile_name rb owner

        answered :
            (h : History) (a : Answer (get profiles n))
            → Known h cache
            → Loops
                (rb ∷ rbs)
                ((get profiles n, a) ∷ h)
                (owner_or s (cache_key n) cache (check_bindings s deleting_rb rbs) a)
        answered h a known = settle a
          where
            noted :
                (a : Answer (get profiles n))
                → SaysGone a
                → Loops
                    (rb ∷ rbs)
                    ((get profiles n, a) ∷ h)
                    (check_bindings s deleting_rb rbs ((cache_key n, false) ∷ cache))
            noted a g =
                let k : KeyIsGone (cache_key n) ((get profiles n, a) ∷ h) = record {
                  n = n;
                  key_is = refl;
                  answer = a;
                  read = Memᴰ.head refl;
                  gone = g;
                } in
                goes_on _ _
                  (Known-cons (cache_key n) cache _ k
                    (λ key f. KeyIsGone-Extends key h _ (λ _ v. Memᴰ.tail v) (known key f)))
                  (inr (owner, owned, k))

            settle :
                (a : Answer (get profiles n))
                → Loops
                    (rb ∷ rbs)
                    ((get profiles n, a) ∷ h)
                    (owner_or s (cache_key n) cache (check_bindings s deleting_rb rbs) a)
            settle (ok op) =
                branch-Safe P _ Anything op.meta.deleting _ _ _ (λ y. noted (ok op) y)
                  (λ _. stop-Safe P _ Anything _ none tt)
            settle (err e) =
                branch-Safe P _ Anything (is_not_found e) _ _ _ (λ y. noted (err e) y)
                  (λ _. stop-Safe P _ Anything _ _ tt)

        cached-Safe :
            (h : History) (o : Option Bool)
            → find_key (cache_key n) cache ≡ o
            → Known h cache
            → Loops (rb ∷ rbs) h (cached_or s n cache (check_bindings s deleting_rb rbs) o)
        cached-Safe h none f known =
            call-Safe P _ Anything (get profiles n) _ h (may_read h n) (λ a. answered h a known)
        cached-Safe h (some true) f known = stop-Safe P _ Anything h none tt
        cached-Safe h (some false) f known =
            goes_on cache h known (inr (owner, owned, known (cache_key n) f))

      owned-Safe :
          (cache : Cache) (h : History) (o : Option Str)
          → owner_profile rb ≡ o
          → Known h cache
          → Loops (rb ∷ rbs) h (owned_or s rb cache (check_bindings s deleting_rb rbs) o)
      owned-Safe cache h none e known = stop-Safe P _ Anything h none tt
      owned-Safe cache h (some owner) e known = cached-Safe owner e cache h _ refl known

    pub check_bindings-Safe :
        (rbs : List ReleaseBinding) (cache : Cache) (h : History)
        → Known h cache
        → Loops rbs h (check_bindings s deleting_rb rbs cache)
    unfolding check_bindings
    check_bindings-Safe [] cache h known = done-Safe P _ Anything h tt tt
    check_bindings-Safe (rb ∷ rbs) cache h known =
        branch-Safe P _ Anything (is_passed deleting_rb rb) _ _ h
          (λ y. goes_on rb rbs (check_bindings-Safe rbs) cache h known (inl y))
          (λ _. owned-Safe rb rbs (check_bindings-Safe rbs) cache h (owner_profile rb) refl known)
