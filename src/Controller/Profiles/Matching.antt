-- ===== src/Controller/Profiles/Matching.antt =====
-- The targets that the Profile controller collects are those that the profile's selector matches.
use solution_arsenal.Prelude.{
  ◌≡◌, refl, sym, ◌∙◌, Bool, true, false, not, ◌&&◌, some, List, [], ◌∷◌, ◌++◌, Memᴰ, ok, All,
  All-map, All-append, All-of_forall, Memᴰ-append_left, Memᴰ-append_right,
}
use solution_arsenal.Str.{str_eq}
use solution_arsenal.Api.{Profile, Target, ReferenceGrant}
use solution_arsenal.Grants.{grant_permits_target_access}
use solution_arsenal.Cluster.{targets, reference_grants, NamespacedName, Program}
use solution_arsenal.Cluster.Safe.{Policy, History, Safe, Safe-map, Extends, done-Safe}
use solution_arsenal.Controller.{Outcome, returns}
use solution_arsenal.Controller.Steps.{Anything, attempt-Safe, if-Safe}
use solution_arsenal.Controller.Profiles.{ProfileReconciler}
use solution_arsenal.Controller.Profiles.Bindings.{
  Selector, targets_in, all_grants, collect_granted_targets, collect_targets,
}
use solution_arsenal.Controller.Profiles.Policy.{
  lets_in, IsMatched, of_namespace, let_in, Covers, Collected, ProfilePolicy, lists,
}

module _ (profile : Profile) (selector : Selector) (h h' : History) (x : Extends h h') where
  pub IsMatched-Extends :
      (t : Target) → IsMatched profile selector h t → IsMatched profile selector h' t
  IsMatched-Extends t (of_namespace ts l m) = of_namespace ts (x _ l) m
  IsMatched-Extends t (let_in gs g ts l m y k n) = let_in gs g ts (x _ l) m y (x _ k) n

  AllMatched-Extends :
      (ts : List Target)
      → All (IsMatched profile selector h) ts
      → All (IsMatched profile selector h') ts
  AllMatched-Extends ts a =
      All-map (IsMatched profile selector h) (IsMatched profile selector h') ts IsMatched-Extends a

  -- Later, and for a longer list.
  Covers-Extends :
      (ts ts' : List Target) (grant : ReferenceGrant)
      → ((t : Target) → Memᴰ t ts → Memᴰ t ts')
      → Covers profile selector h ts grant
      → Covers profile selector h' ts' grant
  Covers-Extends ts ts' grant f c y =
      let (crossing, l, a) = c y in
      (crossing, x _ l, All-map (λ t. Memᴰ t ts) (λ t. Memᴰ t ts') crossing f a)

pub Collected-Extends :
    (r : ProfileReconciler) (profile : Profile) (h h' : History) (ts : List Target)
    → Extends h h'
    → Collected r profile h ts
    → Collected r profile h' ts
Collected-Extends r profile h h' ts x c = record {
  selector = c.selector;
  is_selector = c.is_selector;
  own = c.own;
  own_listed = x _ c.own_listed;
  grants = c.grants;
  grants_listed = x _ c.grants_listed;
  matched = AllMatched-Extends profile c.selector h h' x ts c.matched;
  holds_own = c.holds_own;
  holds_crossing =
      All-map (Covers profile c.selector h ts) (Covers profile c.selector h' ts) c.grants
        (λ g k. Covers-Extends profile c.selector h h' x ts ts g (λ _ m. m) k) c.holds_crossing;
}

module _ (r : ProfileReconciler) (req : NamespacedName) (profile : Profile)
    (selector : Selector) where
  abbrev P : Policy
  P = ProfilePolicy r req

  -- What the loop over the grants `gs` adds to the targets so far.
  record Grown (gs : List ReferenceGrant) (ts : List Target) (h : History) (ts' : List Target)
      : Type 0 where
    matched : All (IsMatched profile selector h) ts'
    longer : (t : Target) → Memᴰ t ts → Memᴰ t ts'
    covers : All (Covers profile selector h ts') gs

  abbrev Loops :
      List ReferenceGrant → List Target → History → Program Outcome (List Target) → Type 0
  Loops gs ts h m = Safe P (Grown gs ts) Anything h m

  module _ (grants : List ReferenceGrant) where
    passes_over :
        (g : ReferenceGrant) (gs : List ReferenceGrant) (ts : List Target) (h : History)
        (m : Program Outcome (List Target))
        → lets_in profile g ≡ false
        → Loops gs ts h m
        → Loops (g ∷ gs) ts h m
    passes_over g gs ts h m n k =
        Safe-map P P (Grown gs ts) (Grown (g ∷ gs) ts) Anything Anything h (λ _ _ _ p. p)
          (λ h' ts' _ w. record {
            matched = w.matched;
            longer = w.longer;
            covers = (λ y. absurd (let z : true ≡ false = sym y ∙ n in cc), w.covers);
          })
          (λ _ _ _ _. tt) m h (λ _ i. i) k

    takes_in :
        (g : ReferenceGrant) (gs : List ReferenceGrant) (ts crossing : List Target) (h : History)
        (m : Program Outcome (List Target))
        → Memᴰ (targets_in g.meta.namespace selector, ok crossing) h
        → Loops gs (ts ++ crossing) h m
        → Loops (g ∷ gs) ts h m
    takes_in g gs ts crossing h m l k =
        Safe-map P P (Grown gs (ts ++ crossing)) (Grown (g ∷ gs) ts) Anything Anything h
          (λ _ _ _ p. p)
          (λ h' ts' x w. record {
            matched = w.matched;
            longer = λ t i. w.longer t (Memᴰ-append_left ts crossing i);
            covers = (
              λ _. (
                crossing,
                x _ l,
                All-of_forall (λ t. Memᴰ t ts') crossing
                    (λ t i. w.longer t (Memᴰ-append_right ts crossing i)),
              ),
              w.covers,
            );
          })
          (λ _ _ _ _. tt) m h (λ _ i. i) k

    collect_granted_targets-Safe :
        (gs : List ReferenceGrant) (ts : List Target) (h : History)
        → ((g : ReferenceGrant) → Memᴰ g gs → Memᴰ g grants)
        → Memᴰ (all_grants, ok grants) h
        → All (IsMatched profile selector h) ts
        → Loops gs ts h (collect_granted_targets r profile selector gs ts)
    unfolding collect_granted_targets
    collect_granted_targets-Safe [] ts h f l a =
        done-Safe P (Grown [] ts) Anything h ts
          (record { matched = a; longer = λ _ i. i; covers = tt })
    collect_granted_targets-Safe (g ∷ gs) ts h f l a =
        if-Safe returns r.settings P _ (str_eq g.meta.namespace profile.meta.namespace) _ _ h
          (λ y.
            passes_over g gs ts h _ (rw y refl)
              (collect_granted_targets-Safe gs ts h (λ v i. f v (Memᴰ.tail i)) l a))
          (λ n.
            if-Safe returns r.settings P _
              (not (grant_permits_target_access g profile.meta.namespace)) _ _ h
              (λ y.
                passes_over g gs ts h _ (refused _ _ y)
                  (collect_granted_targets-Safe gs ts h (λ v i. f v (Memᴰ.tail i)) l a))
              (λ k. attempt-Safe returns r.settings P _ _ _ _ h (lists targets _) (λ crossing.
                takes_in g gs ts crossing _ _ (Memᴰ.head refl) (
                  collect_granted_targets-Safe gs (ts ++ crossing) _ (λ v i. f v (Memᴰ.tail i))
                    (Memᴰ.tail l)
                    (All-append (IsMatched profile selector _) ts crossing
                      (AllMatched-Extends profile selector h _ (λ _ i. Memᴰ.tail i) ts a)
                      (All-of_forall (IsMatched profile selector _) crossing (λ t i.
                        let_in grants g crossing (Memᴰ.tail l) (f g (Memᴰ.head refl))
                          (permitted _ _ n k) (Memᴰ.head refl) i)))))))
      where
        refused : (same permits : Bool) → not permits ≡ true → (not same && permits) ≡ false
        refused same true y = cc
        refused true false y = refl
        refused false false y = refl

        permitted :
            (same permits : Bool)
            → same ≡ false
            → not permits ≡ false
            → (not same && permits) ≡ true
        permitted true permits y z = cc
        permitted false true y z = refl
        permitted false false y z = cc

  -- The targets that are collected are those that the selector matches in the profile's namespace and
  -- in all those that let it in, and no others.
  pub collect_targets-Safe :
      (h : History)
      → r.as_selector profile.target_selector ≡ some selector
      → Safe P (Collected r profile) Anything h (collect_targets r profile selector)
  unfolding collect_targets
  collect_targets-Safe h is_selector =
      attempt-Safe returns r.settings P _ _ _ _ h (lists targets _) (λ own.
        attempt-Safe returns r.settings P _ _ _ _ _ (lists reference_grants _) (λ grants.
          Safe-map P P (Grown grants own) (Collected r profile) Anything Anything _ (λ _ _ _ p. p)
            (λ h' ts x w. record {
              selector = selector;
              is_selector = is_selector;
              own = own;
              own_listed = x _ (Memᴰ.tail (Memᴰ.head refl));
              grants = grants;
              grants_listed = x _ (Memᴰ.head refl);
              matched = w.matched;
              holds_own = All-of_forall (λ t. Memᴰ t ts) own w.longer;
              holds_crossing = w.covers;
            })
            (λ _ _ _ _. tt) _ _ (λ _ i. i)
            (collect_granted_targets-Safe grants grants own _ (λ _ i. i) (Memᴰ.head refl)
              (All-of_forall (IsMatched profile selector _) own
                (λ t i. of_namespace own (Memᴰ.tail (Memᴰ.head refl)) i)))))
