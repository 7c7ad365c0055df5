-- ===== src/Controller/Targets/Safety/CollectPhase.antt =====
-- The bindings that the Target controller collects are the target's own or let in by a grant, and no
-- release is dropped without being noticed.
use solution_arsenal.Prelude.{
  ◌≡◌, refl, inl, inr, true, List, [], ◌∷◌, ◌++◌, Memᴰ, Memᴰ-append_left, Memᴰ-keep, ok, All,
  All-append, All-keep, All-of_forall, Bool-cases,
}
use solution_arsenal.Str.{Str, str_eq, contains_str}
use solution_arsenal.Api.{Target, ReleaseBinding, ReferenceGrant, ReferenceGrantFromSubject}
use solution_arsenal.Grants.{
  from_kind_is, solar_group, kind_release_binding, grants_release_binding_to_target_resource,
}
use solution_arsenal.Cluster.{release_bindings, reference_grants, ListOptions, Call, list}
use solution_arsenal.Cluster.Safe.{History, Policy, Safe, done-Safe}
use solution_arsenal.Controller.{returns}
use solution_arsenal.Controller.Steps.{Anything, attempt-Safe, if-Safe}
use solution_arsenal.Controller.Rules.{then-Safe}
use solution_arsenal.Controller.Finalizers.{ref_key}
use solution_arsenal.Controller.Releases.{grants_in}
use solution_arsenal.Controller.Targets.Conditions.{TargetReconciler}
use solution_arsenal.Controller.Targets.Bindings.{
  is_own_binding, add_bindings, collect_from, collect_granted,
  collect_cross_namespace_release_bindings, collect_bindings,
}
use solution_arsenal.Controller.Targets.Policy.{IsBindingOf, of_namespace, let_in, HoldsOwn}
use solution_arsenal.Controller.Targets.Later.{all-IsBindingOf-Extends}

-- The calls only list release bindings and grants.
pub data OnlyLists (h : History) : Call → Type 0 where
  lists_bindings : (o : ListOptions) → OnlyLists h (list release_bindings o)
  lists_grants : (o : ListOptions) → OnlyLists h (list reference_grants o)

module _ (target : Target) where
  add_bindings-All :
      (Q : ReleaseBinding → Type 0) (rbs : List ReleaseBinding) (seen : List Str)
      (result : List ReleaseBinding)
      → All Q result
      → ((rb : ReleaseBinding)
          → Memᴰ rb rbs
          → str_eq rb.target_namespace target.meta.namespace ≡ true
          → Q rb)
      → All Q (add_bindings target rbs seen result).1
  unfolding add_bindings
  add_bindings-All Q [] seen result a f = a
  add_bindings-All Q (rb ∷ rbs) seen result a f =
      elim (Bool-cases (str_eq rb.target_namespace target.meta.namespace)) [
        | inr n ↦
            rw (n, add_bindings) (add_bindings-All Q rbs seen result a (λ b m. f b (Memᴰ.tail m)))
        | inl y ↦ elim (Bool-cases (contains_str (ref_key rb.meta) seen)) [
          | inl k ↦
              rw (y, k, add_bindings)
                (add_bindings-All Q rbs seen result a (λ b m. f b (Memᴰ.tail m)))
          | inr k ↦
              rw (y, k, add_bindings)
                (add_bindings-All Q rbs (ref_key rb.meta ∷ seen) (result ++ rb ∷ [])
                  (All-append Q result (rb ∷ []) a (f rb (Memᴰ.head refl) y, tt))
                  (λ b m. f b (Memᴰ.tail m)))
        ]
      ]

  module _ (r : TargetReconciler) where
    abbrev P : Policy
    P = OnlyLists

    abbrev Bound : History → List ReleaseBinding → Type 0
    Bound h rbs = All (IsBindingOf target h) rbs

    module _ (grants : List ReferenceGrant) (grant : ReferenceGrant) (m : Memᴰ grant grants)
        (y : grants_release_binding_to_target_resource grant ≡ true) where
      collect_from-Safe :
          (froms : List ReferenceGrantFromSubject) (seen : List Str) (result : List ReleaseBinding)
          (h : History)
          → ((from : ReferenceGrantFromSubject) → Memᴰ from froms → Memᴰ from grant.from)
          → Memᴰ (grants_in target.meta.namespace, ok grants) h
          → Bound h result
          → Safe P (λ h' c. Bound h' c.1) Anything h (collect_from r target froms seen result)
      unfolding collect_from
      collect_from-Safe [] seen result h f l a = done-Safe P (λ h' c. Bound h' c.1) Anything h _ a
      collect_from-Safe (from ∷ froms) seen result h f l a =
          if-Safe returns r.settings P (λ h' c. Bound h' c.1)
            (from_kind_is solar_group kind_release_binding from) _ _ h
            (λ z.
              attempt-Safe returns r.settings P (λ h' c. Bound h' c.1) _ _ _ h (lists_bindings _)
                (λ rbs.
                  collect_from-Safe froms _ _ _ (λ v n. f v (Memᴰ.tail n)) (Memᴰ.tail l)
                    (add_bindings-All (IsBindingOf target _) rbs seen result
                      (all-IsBindingOf-Extends h _ (λ _ n. Memᴰ.tail n) target result a)
                      (λ rb n w.
                        let_in grants grant from rbs (Memᴰ.tail l) m y (f from (Memᴰ.head refl)) z
                          (Memᴰ.head refl) n w))))
            (λ _. collect_from-Safe froms seen result h (λ v n. f v (Memᴰ.tail n)) l a)

    module _ (grants : List ReferenceGrant) where
      collect_granted-Safe :
          (gs : List ReferenceGrant) (seen : List Str) (result : List ReleaseBinding) (h : History)
          → ((g : ReferenceGrant) → Memᴰ g gs → Memᴰ g grants)
          → Memᴰ (grants_in target.meta.namespace, ok grants) h
          → Bound h result
          → Safe P Bound Anything h (collect_granted r target gs seen result)
      unfolding collect_granted
      collect_granted-Safe [] seen result h f l a = done-Safe P Bound Anything h result a
      collect_granted-Safe (g ∷ gs) seen result h f l a =
          if-Safe returns r.settings P Bound (grants_release_binding_to_target_resource g) _ _ h
            (λ y.
              then-Safe P (λ h' c. Bound h' c.1) Bound _ _ h
                (collect_from-Safe grants g (f g (Memᴰ.head refl)) y g.from seen result h (λ _ n. n)
                  l a)
                (λ h' c x b.
                  collect_granted-Safe gs c.0 c.1 h' (λ v n. f v (Memᴰ.tail n)) (x _ l) b))
            (λ _. collect_granted-Safe gs seen result h (λ v n. f v (Memᴰ.tail n)) l a)

    collect_cross-Safe :
        (h : History) → Safe P Bound Anything h (collect_cross_namespace_release_bindings r target)
    unfolding collect_cross_namespace_release_bindings
    collect_cross-Safe h =
        attempt-Safe returns r.settings P Bound _ _ _ h (lists_grants _)
          (λ grants. collect_granted-Safe grants grants [] [] _ (λ _ n. n) (Memᴰ.head refl) tt)

    -- What is collected for the target.
    abbrev pub CollectedBindings : History → List ReleaseBinding → Type 0
    CollectedBindings h bindings = All (IsBindingOf target h) bindings × HoldsOwn target h bindings

    -- Whatever the API server answers, the bindings that are collected for a target are bindings of
    -- its namespace that name it without a namespace, or bindings that name it with its namespace
    -- and that a ReferenceGrant of that namespace lets in; all of the former that its namespace's
    -- list shows are there; and only list calls, for bindings and grants, are made for it.
    pub collect_bindings-Safe :
        (h : History) → Safe OnlyLists CollectedBindings Anything h (collect_bindings r target)
    unfolding collect_bindings
    collect_bindings-Safe h =
        attempt-Safe returns r.settings P CollectedBindings _ _ _ h (lists_bindings _) (λ rbs.
          then-Safe P Bound CollectedBindings _ _ _ (collect_cross-Safe _) (λ h' crossing x b.
            done-Safe P CollectedBindings Anything h' _ (
              All-append (IsBindingOf target h') _ crossing
                  (All-keep (is_own_binding target) (IsBindingOf target h') rbs
                    (λ rb m y. of_namespace rbs (x _ (Memᴰ.head refl)) m y))
                  b,
              (
                rbs,
                x _ (Memᴰ.head refl),
                All-of_forall _ rbs (λ rb m y.
                    Memᴰ-append_left _ crossing (Memᴰ-keep (is_own_binding target) rbs m y)),
              ),
            )))
