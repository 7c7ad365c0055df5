-- ===== src/Controller/Profiles/Binding.antt =====
-- The bindings that the Profile controller deletes and creates.
use solution_arsenal.Prelude.{
  ◌≡◌, refl, false, ◌==◌, Option, none, some, List, [], ◌∷◌, Memᴰ, Result, ok, err, All, All-Memᴰ,
  All-map, All-keep, All-of_forall, keep, length,
}
use solution_arsenal.Str.{Str, lit, str_eq}
use solution_arsenal.Api.{Profile, Target, ReleaseBinding, ObjectMeta}
use solution_arsenal.PullSecrets.{find_key}
use solution_arsenal.Cluster.{release_bindings, NamespacedName, Error, delete, Program}
use solution_arsenal.Cluster.Errors.{is_not_found, is_already_exists}
use solution_arsenal.Cluster.Safe.{
  Policy, History, Safe, Extends, Safe-map, call-Safe, done-Safe, stop-Safe,
}
use solution_arsenal.Controller.{Outcome, returns}
use solution_arsenal.Controller.Steps.{Anything, attempt-Safe, if-Safe}
use solution_arsenal.Controller.Rules.{then-Safe}
use solution_arsenal.Controller.Profiles.{
  ProfileReconciler, binding_target_key, target_key, set_key, binding_for,
}
use solution_arsenal.Controller.Profiles.Bindings.{
  bindings_beside, is_owned, gone_or, desired_or, made_or, existing_or, owned_or, Existing,
  desired_targets, delete_unmatched, create_missing, set_matched, bind_targets,
}
use solution_arsenal.Controller.Profiles.Maps.{
  find_key-set_key_missing, desired_targets-missing, All-desired_targets,
}
use solution_arsenal.Controller.Profiles.Matching.{Collected-Extends}
use solution_arsenal.Controller.Profiles.Policy.{
  IsOwned, IsKept, Collected, ProfilePolicy, lists, deletes_unmatched, creates, sets_matched,
}

pub IsOwned-Extends :
    (r : ProfileReconciler) (profile : Profile) (h h' : History) (rb : ReleaseBinding)
    → Extends h h'
    → IsOwned r profile h rb
    → IsOwned r profile h' rb
IsOwned-Extends r profile h h' rb x o = record {
  rbs = o.rbs;
  rbs_listed = x _ o.rbs_listed;
  shown = o.shown;
  owned = o.owned;
}

-- An answered delete: the error ends the program, unless nothing was there.
pub gone_or-Safe :
    {A : Type 0} (r : ProfileReconciler) (profile : Profile) (P : Policy) (Q : History → A → Type 0)
    (text : Str) (rest : Program Outcome A) (h : History) (a : Result Error (Unit {0}))
    → Safe P Q Anything h rest
    → Safe P Q Anything h (gone_or r profile text rest a)
gone_or-Safe r profile P Q text rest h (ok tt) k = k
gone_or-Safe r profile P Q text rest h (err e) k =
    if-Safe returns r.settings P Q (is_not_found e) _ _ h (λ _. k)
      (λ _. stop-Safe P Q Anything h _ tt)

module _ (r : ProfileReconciler) (req : NamespacedName) (profile : Profile) (ts : List Target) where
  abbrev P : Policy
  P = ProfilePolicy r req

  -- The profile stays, and these are the targets that it matches.
  abbrev Ready : History → Type 0
  Ready h = IsKept r req profile h × Collected r profile h ts

  Ready-Extends : (h h' : History) → Extends h h' → Ready h → Ready h'
  Ready-Extends h h' x ((m, d), c) = ((x _ m, d), Collected-Extends r profile h h' ts x c)

  abbrev desired : List (Str × Target)
  desired = desired_targets ts []

  -- What is missing among the existing bindings is the key of none of them.
  abbrev Knows : List ReleaseBinding → Existing → Existing → Type 0
  Knows rbs before existing =
      (key : Str)
      → find_key key existing ≡ none
      → All (λ rb. str_eq (binding_target_key rb) key ≡ false) rbs × (find_key key before ≡ none)

  delete_unmatched-Safe :
      (rbs : List ReleaseBinding) (before : Existing) (h : History)
      → Ready h
      → All (IsOwned r profile h) rbs
      → Safe P
          (λ _ existing. Knows rbs before existing)
          Anything
          h
          (delete_unmatched r profile desired rbs before)
  unfolding delete_unmatched
  delete_unmatched-Safe [] before h c a = done-Safe P _ Anything h before (λ key f. (tt, f))
  delete_unmatched-Safe (rb ∷ rbs) before h c (o, a) =
      settle (rest (λ h'. delete_unmatched-Safe rbs (set_key (binding_target_key rb) rb before) h'))
        (find_key (binding_target_key rb) desired) refl
    where
      rest :
          ((h' : History)
            → Ready h'
            → All (IsOwned r profile h') rbs
            → Safe P
                (λ _ existing. Knows rbs (set_key (binding_target_key rb) rb before) existing)
                Anything
                h'
                (delete_unmatched r profile desired rbs
                  (set_key (binding_target_key rb) rb before)))
          → (h' : History) → Extends h h'
          → Safe P
              (λ _ existing. Knows (rb ∷ rbs) before existing)
              Anything
              h'
              (delete_unmatched r profile desired rbs (set_key (binding_target_key rb) rb before))
      rest next h' x =
          Safe-map P P
            (λ _ existing. Knows rbs (set_key (binding_target_key rb) rb before) existing)
            (λ _ existing. Knows (rb ∷ rbs) before existing) Anything Anything h' (λ _ _ _ p. p)
            (λ _ existing _ k key f.
              let (b, g) = k key f in
              let (n, w) = find_key-set_key_missing (binding_target_key rb) rb before key g in
              ((n, b), w))
            (λ _ _ _ _. tt) _ h' (λ _ i. i)
            (next h' (Ready-Extends h h' x c) (
              All-map (IsOwned r profile h) (IsOwned r profile h') rbs
                (λ b i. IsOwned-Extends r profile h h' b x i) a))

      settle :
          ((h' : History)
            → Extends h h'
            → Safe P
                (λ _ existing. Knows (rb ∷ rbs) before existing)
                Anything
                h'
                (delete_unmatched r profile desired rbs
                  (set_key (binding_target_key rb) rb before)))
          → (found : Option Target) → find_key (binding_target_key rb) desired ≡ found
          → Safe P
              (λ _ existing. Knows (rb ∷ rbs) before existing)
              Anything
              h
              (desired_or r profile rb
                (delete_unmatched r profile desired rbs (set_key (binding_target_key rb) rb before))
                found)
      settle go (some t) e = go h (λ _ i. i)
      settle go none e =
          call-Safe P _ Anything (delete release_bindings rb) _ h
            (deletes_unmatched profile rb ts c.0 o c.1
              (desired_targets-missing ts [] (binding_target_key rb) e).0)
            (λ b.
              gone_or-Safe r profile P _ (lit "failed to delete ReleaseBinding") _ _ b
                (go _ (λ _ i. Memᴰ.tail i)))

  abbrev Rest : Existing → List (Str × Target) → History → Type 0
  Rest existing kts h =
      (h' : History)
      → Extends h h'
      → Safe P Anything Anything h' (create_missing r profile existing kts)

  module _ (rbs : List ReleaseBinding) (existing : Existing)
      (knows : Knows (keep (is_owned r profile) rbs) [] existing) where
    create_missing-Safe :
        (kts : List (Str × Target)) (h : History)
        → Ready h
        → Memᴰ (bindings_beside profile, ok rbs) h
        → All (λ kt. Memᴰ kt.1 ts × (kt.0 ≡ target_key kt.1)) kts
        → Safe P Anything Anything h (create_missing r profile existing kts)
    unfolding create_missing
    create_missing-Safe [] h c l a = done-Safe P Anything Anything h tt tt
    create_missing-Safe ((key, t) ∷ kts) h c l ((m, k), a) =
        settle (λ h' x. create_missing-Safe kts h' (Ready-Extends h h' x c) (x _ l) a)
          (find_key key existing) refl
      where
        made :
            Rest existing kts h
            → (h' : History) (b : Result Error ReleaseBinding) → Extends h h'
            → Safe P Anything Anything h'
                (made_or r profile (create_missing r profile existing kts) b)
        made go h' (ok b) x = go h' x
        made go h' (err e) x =
            if-Safe returns r.settings P Anything (is_already_exists e) _ _ h' (λ _. go h' x)
              (λ _. stop-Safe P _ _ h' _ tt)

        owned :
            Rest existing kts h
            → (o : Result Error ObjectMeta) → find_key key existing ≡ none
            → r.set_controller_reference profile.meta (binding_for r profile t).meta ≡ o
            → Safe P Anything Anything h
                (owned_or r profile t (create_missing r profile existing kts) o)
        owned go (err e) f w = stop-Safe P _ _ h _ tt
        owned go (ok meta) f w =
            call-Safe P Anything Anything _ _ h
              (creates profile t meta rbs ts c.0 c.1 m l (knows (target_key t) (rw (← k) f)).0 w)
              (λ b. made go _ b (λ _ i. Memᴰ.tail i))

        settle :
            Rest existing kts h
            → (found : Option ReleaseBinding) → find_key key existing ≡ found
            → Safe P Anything Anything h
                (existing_or r profile t (create_missing r profile existing kts) found)
        settle go (some b) e = go h (λ _ i. i)
        settle go none e = owned go _ e refl

  set_matched-Safe :
      (h : History) → Ready h → Safe P Anything Anything h (set_matched r profile (length desired))
  unfolding set_matched
  set_matched-Safe h c =
      if-Safe returns r.settings P Anything (length desired == profile.matched_targets) _ _ h
        (λ _. done-Safe P _ _ h _ tt)
        (λ _.
          attempt-Safe returns r.settings P _ _ _ _ h (sets_matched profile ts c.0 c.1)
            (λ _. done-Safe P _ _ _ _ tt))

  desired-In : All (λ kt. Memᴰ kt.1 ts × (kt.0 ≡ target_key kt.1)) desired
  desired-In =
      All-desired_targets (λ kt. Memᴰ kt.1 ts × (kt.0 ≡ target_key kt.1)) ts []
        (All-of_forall _ ts (λ t m. (m, refl))) tt

  pub bind_targets-Safe :
      ((m : List (Str × Target)) (kt : Str × Target) → Memᴰ kt (r.range m) → Memᴰ kt m)
      → (h : History) → IsKept r req profile h
      → Collected r profile h ts
      → Safe P Anything Anything h (bind_targets r profile desired)
  unfolding bind_targets
  bind_targets-Safe ranges h k c =
      attempt-Safe returns r.settings P _ _ _ _ h (lists release_bindings _) (λ rbs.
        then-Safe P (λ _ existing. Knows (keep (is_owned r profile) rbs) [] existing) Anything _ _ _
          (delete_unmatched-Safe (keep (is_owned r profile) rbs) [] _
            (Ready-Extends h _ (λ _ i. Memᴰ.tail i) (k, c))
            (All-keep (is_owned r profile) (IsOwned r profile _) rbs
              (λ b m y. record { rbs = rbs; rbs_listed = Memᴰ.head refl; shown = m; owned = y })))
          (λ h' existing x knows.
            then-Safe P Anything Anything _ _ h'
              (create_missing-Safe rbs existing knows (r.range desired) h'
                (Ready-Extends h h' (λ _ i. x _ (Memᴰ.tail i)) (k, c)) (x _ (Memᴰ.head refl))
                (All-of_forall _ (r.range desired)
                  (λ kt i. All-Memᴰ _ desired desired-In (ranges desired kt i))))
              (λ h'' _ x' _.
                set_matched-Safe h''
                  (Ready-Extends h h'' (λ _ i. x' _ (x _ (Memᴰ.tail i))) (k, c)))))
