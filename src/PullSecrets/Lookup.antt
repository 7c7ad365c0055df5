-- ===== src/PullSecrets/Lookup.antt =====
-- The lookup holds the pull secret of every binding's registry: no binding overwrites another one.
use solution_arsenal.Prelude.{
  ◌≡◌, refl, inl, inr, sym, ap, ◌∙◌, Option, none, some, List, [], ◌∷◌, Memᴰ, Result, ok, err, All,
  All-map, Bool-cases,
}
use solution_arsenal.Str.{Str, str_eq, to_lower}
use solution_arsenal.Str.Laws.{str_eq_iff, str_eq_self}
use solution_arsenal.Api.{Target, Registry, RegistryBinding}
use solution_arsenal.Cluster.{Call, Answer}
use solution_arsenal.Cluster.Safe.{
  History, Safe, Safe-map, Extends, call-Safe, done-Safe, stop-Safe,
}
use solution_arsenal.PullSecrets.{
  HostEntry, LookupError, Entries, Secrets, Looks, find_key, secrets_of, bindings_of_target,
  registry_of, clashing, entry_or, registry_or, look_up, bindings_or, build_pull_secrets_lookup,
}

abbrev pulled : Option HostEntry → Option Str
pulled none = none
pulled (some e) = some e.pull_secret

find_key-secrets_of :
    (host : Str) (l : Entries) → find_key host (secrets_of l) ≡ pulled (find_key host l)
unfolding find_key
find_key-secrets_of host [] = refl
find_key-secrets_of host ((k, e) ∷ l) = elim (Bool-cases (str_eq k host)) [
  | inl y ↦ rw y refl
  | inr n ↦ rw n (find_key-secrets_of host l)
]

-- An entry that does not clash leaves every secret as it is.
no_clash :
    (previous : Option HostEntry) (secret s : Str)
    → clashing previous secret ≡ none
    → pulled previous ≡ some s
    → secret ≡ s
no_clash none secret s c h = cc
no_clash (some e) secret s c h = elim (Bool-cases (str_eq e.pull_secret secret)) [
  | inl y ↦ cc ((str_eq_iff e.pull_secret secret).0 y)
  | inr n ↦ absurd (rw n at c)
]
  where
    absurd : some e ≡ none → secret ≡ s
    absurd k = cc

find_key-cons :
    (host key secret s : Str) (binding_name : Str) (l : Entries)
    → clashing (find_key key l) secret ≡ none
    → find_key host (secrets_of l) ≡ some s
    → find_key host
        (secrets_of ((key, record { pull_secret = secret; binding_name = binding_name }) ∷ l))
      ≡ some s
unfolding find_key
find_key-cons host key secret s binding_name l c h = elim (Bool-cases (str_eq key host)) [
  | inl y ↦
      let e : key ≡ host = (str_eq_iff key host).0 y in
      rw y
        (ap some (no_clash (find_key key l) secret s c (sym (find_key-secrets_of key l) ∙ rw e h)))
  | inr n ↦ rw n h
]

-- The calls only read.
pub data OnlyReads (target : Target) (h : History) : Call → Type 0 where
  reads_bindings : OnlyReads target h (bindings_of_target target)
  reads_registry : (rb : RegistryBinding) → OnlyReads target h (registry_of rb)

-- The registry of the binding was read, and the lookup has its host with its pull secret.
pub record IsBound (h : History) (secrets : Secrets) (rb : RegistryBinding) : Type 0 where
  pub reg : Registry
  pub reg_read : Memᴰ (registry_of rb, ok reg) h
  pub bound : find_key (to_lower reg.hostname) secrets ≡ some reg.target_pull_secret_name

abbrev Keeps : Entries → Secrets → Type 0
Keeps l secrets =
    (host s : Str) → find_key host (secrets_of l) ≡ some s → find_key host secrets ≡ some s

abbrev Holds : List RegistryBinding → Entries → History → Result LookupError Secrets → Type 0
Holds rbs l h (ok secrets) = Keeps l secrets × All (IsBound h secrets) rbs
Holds rbs l h (err e) = Unit

module _ (target : Target) where
  abbrev Loops : List RegistryBinding → Entries → History → Looks → Type 0
  Loops rbs l h m = Safe (OnlyReads target) (Holds rbs l) (Holds rbs l) h m

  abbrev added : RegistryBinding → Registry → Entries → Entries
  added rb reg l =
      (
        to_lower reg.hostname,
        record { pull_secret = reg.target_pull_secret_name; binding_name = rb.meta.name },
      )
      ∷ l

  module _ (rb : RegistryBinding) (rbs : List RegistryBinding) (reg : Registry) (l : Entries)
      (h : History) where
    abbrev asked : History
    asked = (registry_of rb, ok reg) ∷ h

    Holds-cons :
        clashing (find_key (to_lower reg.hostname) l) reg.target_pull_secret_name ≡ none
        → (h' : History) (r : Result LookupError Secrets) → Extends asked h'
        → Holds rbs (added rb reg l) h' r
        → Holds (rb ∷ rbs) l h' r
    unfolding find_key
    Holds-cons c h' (err e) x k = tt
    Holds-cons c h' (ok secrets) x (keeps, k) = (
      λ host s f. keeps host s (find_key-cons host _ _ s rb.meta.name l c f),
      (
        record {
          reg = reg;
          reg_read = x _ (Memᴰ.head refl);
          bound =
              keeps (to_lower reg.hostname) reg.target_pull_secret_name
                (rw (str_eq_self (to_lower reg.hostname)) refl);
        },
        k,
      ),
    )

    entered :
        (o : Option HostEntry)
        → clashing (find_key (to_lower reg.hostname) l) reg.target_pull_secret_name ≡ o
        → Loops rbs (added rb reg l) asked (look_up rbs (added rb reg l))
        → Loops (rb ∷ rbs) l asked (entry_or rb reg l (look_up rbs) o)
    entered (some prev) c k =
        stop-Safe (OnlyReads target) (Holds (rb ∷ rbs) l) (Holds (rb ∷ rbs) l) _ (err _) tt
    entered none c k =
        Safe-map (OnlyReads target) (OnlyReads target) (Holds rbs (added rb reg l))
          (Holds (rb ∷ rbs) l) (Holds rbs (added rb reg l)) (Holds (rb ∷ rbs) l) asked
          (λ _ _ _ p. p) (Holds-cons c) (Holds-cons c) (look_up rbs (added rb reg l)) asked
          (λ _ i. i) k

  answered :
      (rb : RegistryBinding) (rbs : List RegistryBinding) (l : Entries) (h : History)
      (a : Answer (registry_of rb))
      → ((l' : Entries) (h' : History) → Loops rbs l' h' (look_up rbs l'))
      → Loops (rb ∷ rbs) l ((registry_of rb, a) ∷ h) (registry_or rb l (look_up rbs) a)
  answered rb rbs l h (ok reg) rest =
      entered rb rbs reg l h
        (clashing (find_key (to_lower reg.hostname) l) reg.target_pull_secret_name) refl
        (rest (added rb reg l) _)
  answered rb rbs l h (err e) rest =
      stop-Safe (OnlyReads target) (Holds (rb ∷ rbs) l) (Holds (rb ∷ rbs) l) _ (err _) tt

  look_up-Safe :
      (rbs : List RegistryBinding) (l : Entries) (h : History) → Loops rbs l h (look_up rbs l)
  unfolding look_up
  look_up-Safe [] l h =
      done-Safe (OnlyReads target) (Holds [] l) (Holds [] l) h (ok (secrets_of l))
        (λ host s f. f, tt)
  look_up-Safe (rb ∷ rbs) l h =
      call-Safe (OnlyReads target) (Holds (rb ∷ rbs) l) (Holds (rb ∷ rbs) l) (registry_of rb) _ h
        (reads_registry rb) (λ a. answered rb rbs l h a (λ l' h'. look_up-Safe rbs l' h'))

  -- Where there is a lookup, it holds for every binding that was listed.
  abbrev pub AllBound : History → Result LookupError Secrets → Type 0
  AllBound h (ok secrets) =
      (rbs : List RegistryBinding) × Memᴰ (bindings_of_target target, ok rbs) h
      × All (IsBound h secrets) rbs
  AllBound h (err e) = Unit

  pub AllBound-Extends :
      (h h' : History) (secrets : Secrets)
      → Extends h h'
      → AllBound h (ok secrets)
      → AllBound h' (ok secrets)
  AllBound-Extends h h' secrets x (rbs, l, a) = (
    rbs,
    x _ l,
    All-map (IsBound h secrets) (IsBound h' secrets) rbs
        (λ rb b. record { reg = b.reg; reg_read = x _ b.reg_read; bound = b.bound }) a,
  )

  listed-Safe :
      (h₀ : History) (a : Answer (bindings_of_target target))
      → Safe
          (OnlyReads target)
          AllBound
          AllBound
          ((bindings_of_target target, a) ∷ h₀)
          (bindings_or a)
  listed-Safe h₀ (err e) = stop-Safe (OnlyReads target) AllBound AllBound _ (err _) tt
  listed-Safe h₀ (ok rbs) =
      Safe-map (OnlyReads target) (OnlyReads target) (Holds rbs []) AllBound (Holds rbs []) AllBound
        h (λ _ _ _ p. p) shown shown (look_up rbs []) h (λ _ i. i) (look_up-Safe rbs [] h)
    where
      h : History
      h = (bindings_of_target target, ok rbs) ∷ h₀

      shown :
          (h' : History) (r : Result LookupError Secrets)
          → Extends h h'
          → Holds rbs [] h' r
          → AllBound h' r
      shown h' (ok secrets) x k = (rbs, x _ (Memᴰ.head refl), k.1)
      shown h' (err e) x k = tt

  pub build_pull_secrets_lookup-Reads :
      (h : History) → Safe (OnlyReads target) AllBound AllBound h (build_pull_secrets_lookup target)
  unfolding build_pull_secrets_lookup
  build_pull_secrets_lookup-Reads h =
      call-Safe (OnlyReads target) AllBound AllBound (bindings_of_target target) _ h reads_bindings
        (listed-Safe h)

  -- Whatever the API server answers, buildPullSecretsLookup only reads the bindings of the target and
  -- their registries; and where it gives a lookup, every binding that was listed has its registry's
  -- host there, with that registry's pull secret: none hides another one.
  pub build_pull_secrets_lookup-Safe :
      Safe (OnlyReads target) AllBound AllBound [] (build_pull_secrets_lookup target)
  build_pull_secrets_lookup-Safe = build_pull_secrets_lookup-Reads []
