-- ===== src/Cluster/Safe.antt =====
-- Policies on calls: what a program may do, given what it was answered.
use solution_arsenal.Prelude.{◌≡◌, refl, Bool, true, false, if◌then◌else◌, List, ◌∷◌, Memᴰ}
use solution_arsenal.Cluster.{Call, Answer, Program, done, stop, call, and_then, returned}

-- A call that was made, and its answer.
abbrev pub Event : Type 0
Event = (c : Call) × Answer c

-- The calls made so far, the last one first.
abbrev pub History : Type 0
History = List Event

abbrev pub Policy : Type 1
Policy = History → Call → Type 0

-- Whatever the answers are, every call is allowed by the policy when it is made, the program's
-- value has the property Q and its early return the property S.
unfoldable pub Safe :
    {R A : Type 0}
    → Policy
    → (History → A → Type 0)
    → (History → R → Type 0)
    → History
    → Program R A
    → Type 0
Safe P Q S h (done a) = Q h a
Safe P Q S h (stop r) = S h r
Safe P Q S h (call c k) = P h c × ((a : Answer c) → Safe P Q S ((c, a) ∷ h) (k a))

module _ {R A B : Type 0} (P : Policy) (Q : History → B → Type 0) (S : History → R → Type 0) where
  pub and_then-Safe :
      (m : Program R A) (f : A → Program R B) (h : History)
      → Safe P (λ h' a. Safe P Q S h' (f a)) S h m
      → Safe P Q S h (and_then m f)
  unfolding and_then Safe
  and_then-Safe (done a) f h s = s
  and_then-Safe (stop r) f h s = s
  and_then-Safe (call c k) f h (p, s) = (p, λ a. and_then-Safe (k a) f ((c, a) ∷ h) (s a))

module _ {R A : Type 0} (P : Policy) (Q : History → A → Type 0) (S : History → R → Type 0) where
  pub returned-Safe : (m : Program A A) (h : History) → Safe P Q Q h m → Safe P Q S h (returned m)
  unfolding returned Safe
  returned-Safe (done a) h s = s
  returned-Safe (stop a) h s = s
  returned-Safe (call c k) h (p, s) = (p, λ a. returned-Safe (k a) ((c, a) ∷ h) (s a))

  pub done-Safe : (h : History) (a : A) → Q h a → Safe P Q S h (done a)
  unfolding Safe
  done-Safe h a q = q

  pub call-Safe :
      (c : Call) (k : Answer c → Program R A) (h : History)
      → P h c
      → ((a : Answer c) → Safe P Q S ((c, a) ∷ h) (k a))
      → Safe P Q S h (call c k)
  unfolding Safe
  call-Safe c k h p s = (p, s)

  pub branch-Safe :
      (b : Bool) (m n : Program R A) (h : History)
      → (b ≡ true → Safe P Q S h m)
      → (b ≡ false → Safe P Q S h n)
      → Safe P Q S h (if b then m else n)
  branch-Safe true m n h p q = p refl
  branch-Safe false m n h p q = q refl

  pub stop-Safe : (h : History) (r : R) → S h r → Safe P Q S h (stop r)
  unfolding Safe
  stop-Safe h r q = q

-- The history only grows.
abbrev pub Extends : History → History → Type 0
Extends h h' = (e : Event) → Memᴰ e h → Memᴰ e h'

module _ {R A : Type 0} (P P' : Policy) (Q Q' : History → A → Type 0) (S S' : History → R → Type 0)
    (h₀ : History) where
  -- A policy can be weakened, and what the history holds at the start is still there.
  pub Safe-map :
      ((h : History) (c : Call) → Extends h₀ h → P h c → P' h c)
      → ((h : History) (a : A) → Extends h₀ h → Q h a → Q' h a)
      → ((h : History) (r : R) → Extends h₀ h → S h r → S' h r)
      → (m : Program R A) (h : History) → Extends h₀ h
      → Safe P Q S h m
      → Safe P' Q' S' h m
  unfolding Safe
  Safe-map p q s (done a) h e k = q h a e k
  Safe-map p q s (stop r) h e k = s h r e k
  Safe-map p q s (call c m) h e (k, l) =
      (p h c e k, λ a. Safe-map p q s (m a) ((c, a) ∷ h) (λ v i. Memᴰ.tail (e v i)) (l a))
