-- ===== src/Controller/Targets/Bindings.antt =====
-- The ReleaseBindings of a target (the part of TargetReconciler.Reconcile that lists them, and
-- collectCrossNamespaceReleaseBindings): those of its own namespace, and those of other namespaces
-- that a ReferenceGrant in the target's namespace lets in.
use solution_arsenal.Prelude.{
  Bool, ◌&&◌, not, none, some, List, [], ◌∷◌, ◌++◌, keep, ◌==◌, length, if◌then◌else◌, false, true,
}
use solution_arsenal.Str.{Str, lit, str_eq, contains_str}
use solution_arsenal.Api.{Target, ReleaseBinding, ReferenceGrant, ReferenceGrantFromSubject}
use solution_arsenal.Grants.{
  from_kind_is, solar_group, kind_release_binding, grants_release_binding_to_target_resource,
}
use solution_arsenal.Cluster.{release_bindings, Call, list, Program, done, and_then, ◌>>=◌}
use solution_arsenal.Controller.{Outcome, returns, attempt}
use solution_arsenal.Controller.Finalizers.{ref_key}
use solution_arsenal.Controller.Releases.{grants_in}
use solution_arsenal.Controller.Targets.Conditions.{TargetReconciler}

unfoldable pub index_release_binding_target_name : Str
index_release_binding_target_name = lit "spec.targetRef.name"

abbrev pub own_bindings_list : Target → Call
own_bindings_list target =
    list release_bindings (record {
      namespace = some target.meta.namespace;
      live = true;
      field = none;
      selector = none;
    })

-- rb.Spec.TargetRef.Name == target.Name && rb.Spec.TargetNamespace == ""
abbrev pub is_own_binding : Target → ReleaseBinding → Bool
is_own_binding target rb =
    str_eq rb.target_ref target.meta.name && (length rb.target_namespace == 0)

abbrev pub cross_bindings_list : Target → ReferenceGrantFromSubject → Call
cross_bindings_list target from = list release_bindings (record {
  namespace = some from.namespace;
  live = false;
  field = some (index_release_binding_target_name, target.meta.name);
  selector = none;
})

-- The loop over the bindings of one namespace, with `seen` and `result` so far.
unfoldable pub add_bindings :
    Target → List ReleaseBinding → List Str → List ReleaseBinding → List Str × List ReleaseBinding
unfolding contains_str str_eq
add_bindings target [] seen result = (seen, result)
add_bindings target (rb ∷ rbs) seen result =
    let rest = add_bindings target rbs in
    if not (str_eq rb.target_namespace target.meta.namespace)
    then rest seen result
    else if contains_str (ref_key rb.meta) seen
    then rest seen result
    else rest (ref_key rb.meta ∷ seen) (result ++ rb ∷ [])

abbrev pub cross_text : Str
cross_text = lit "failed to collect cross-namespace ReleaseBindings"

module _ (r : TargetReconciler) (target : Target) where
  -- The loop over `grant.Spec.From`.
  unfoldable pub collect_from :
      List ReferenceGrantFromSubject
      → List Str
      → List ReleaseBinding
      → Program Outcome (List Str × List ReleaseBinding)
  unfolding add_bindings attempt and_then
  collect_from [] seen result = done (seen, result)
  collect_from (from ∷ froms) seen result =
      let rest = collect_from froms in
      if from_kind_is solar_group kind_release_binding from
      then (do
        rbs ← attempt returns r.settings (cross_bindings_list target from) cross_text
        rest (add_bindings target rbs seen result).0 (add_bindings target rbs seen result).1)
      else rest seen result

  -- The loop over the grants.
  unfoldable pub collect_granted :
      List ReferenceGrant → List Str → List ReleaseBinding → Program Outcome (List ReleaseBinding)
  unfolding collect_from and_then
  collect_granted [] seen result = done result
  collect_granted (grant ∷ grants) seen result =
      let rest = collect_granted grants in
      if grants_release_binding_to_target_resource grant
      then (do collected ← collect_from grant.from seen result; rest collected.0 collected.1)
      else rest seen result

  unfoldable pub collect_cross_namespace_release_bindings : Program Outcome (List ReleaseBinding)
  unfolding collect_granted attempt and_then
  collect_cross_namespace_release_bindings = do
    grants ← attempt returns r.settings (grants_in target.meta.namespace) cross_text
    collect_granted grants [] []

  unfoldable pub collect_bindings : Program Outcome (List ReleaseBinding)
  unfolding collect_cross_namespace_release_bindings attempt and_then
  collect_bindings = do
    rbs ←
        attempt returns r.settings (own_bindings_list target) (lit "failed to list ReleaseBindings")
    crossing ← collect_cross_namespace_release_bindings
    done (keep (is_own_binding target) rbs ++ crossing)
