-- ===== src/Controller/Releases.antt =====
-- ReleaseReconciler (release_controller.go). SetStatusCondition of apimachinery is the parameter
-- `set_status_condition`: the conditions with a new one, and whether that changed them.
pub mod Safety
use solution_arsenal.Prelude.{
  ℕ, Bool, true, false, ◌||◌, not, Option, none, some, List, [], ◌∷◌, ◌++◌, ltb, length, any,
  if◌then◌else◌,
}
use solution_arsenal.Str.{Str, lit, str_eq}
use solution_arsenal.Api.{Release, ComponentVersion, Condition}
use solution_arsenal.Grants.{grant_permits_component_version_access}
use solution_arsenal.Resolver.{effective_unique_name}
use solution_arsenal.Cluster.{
  Kind, releases, component_versions, reference_grants, NamespacedName, Error, Call, list,
  update_status, Program, done, stop, and_then, returned, ◌>>=◌, ◌>>◌,
}
use solution_arsenal.Controller.{
  Settings, Outcome, returns, attempt, find, drop_own_finalizer, add_own_finalizer, protect, check,
  with_object,
}
use solution_arsenal.Controller.Finalizers.{
  release_finalizer, component_version_ref_finalizer, remove_component_version_ref_finalizer,
}

abbrev pub cv_namespace : Release → Str
cv_namespace res =
    if ltb 0 (length res.spec.component_version_namespace)
    then res.spec.component_version_namespace
    else res.meta.namespace

abbrev pub cv_name : Release → NamespacedName
cv_name res = record { namespace = cv_namespace res; name = res.spec.component_version_ref }

abbrev pub grants_in : Str → Call
grants_in namespace =
    list reference_grants
      (record { namespace = some namespace; live = false; field = none; selector = none })

abbrev pub resolved_condition : Release → Bool → (reason message : Str) → Condition
resolved_condition res status reason message = record {
  condition_type = lit "ComponentVersionResolved";
  status = status;
  observed_generation = res.meta.generation;
  reason = reason;
  message = message;
  last_transition_time = 0;
}

module _ (s : Settings) (req : NamespacedName) (res : Release) where
  abbrev pub release_version : Option ComponentVersion → Program Outcome Unit
  release_version none = done tt
  release_version (some cv) = check (remove_component_version_ref_finalizer s res cv)

  unfoldable pub delete_release : Program Outcome Outcome
  unfolding and_then find
  delete_release = do
    if ltb 0 (length res.spec.component_version_ref)
        then (do
          found ←
              find returns s component_versions (cv_name res)
                (lit "failed to get ComponentVersion for finalizer cleanup")
          release_version found)
        else done tt
    drop_own_finalizer returns s releases req res release_finalizer
        (lit "failed to get latest Release for finalizer removal")
        (lit "failed to remove finalizer from Release")
    done (returns none)

module _ (set_status_condition : List Condition → Condition → List Condition × Bool) (s : Settings)
    (req : NamespacedName) (res : Release) where
  -- A failed resolution: the status is written where the condition is new, and that is the end.
  unfoldable pub refuse : (reason message : Str) → Program Outcome Outcome
  unfolding and_then attempt
  refuse reason message =
      let (conditions, changed) =
        set_status_condition res.conditions (resolved_condition res false reason message) in
      if changed
      then (do
        attempt returns s (update_status releases (record res { conditions = conditions }))
            (lit "failed to update status")
        done (returns none))
      else done (returns none)

  -- The end of the reconciler, with the component version that it has found.
  unfoldable pub resolve_with : Option ComponentVersion → Program Outcome Outcome
  unfolding and_then attempt refuse
  resolve_with none =
      refuse (lit "NotFound") (lit "ComponentVersion not found: " ++ res.spec.component_version_ref)
  resolve_with (some cv) = do
    protect returns s component_versions false cv component_version_ref_finalizer
        (lit "failed to add protection finalizer to ComponentVersion")
    let uname = effective_unique_name res cv in
        let (conditions, condition_changed) = set_status_condition res.conditions (
          resolved_condition res true (lit "Resolved")
            (lit "ComponentVersion resolved: " ++ cv.meta.name)) in
        if condition_changed || not (str_eq res.effective_unique_name uname)
        then (do
          attempt returns s
              (update_status releases
                (record res { conditions = conditions; effective_unique_name = uname }))
              (lit "failed to update status")
          done (returns none))
        else done (returns none)

  unfoldable pub keep_release : Program Outcome Outcome
  unfolding and_then attempt find refuse resolve_with
  keep_release = do
    add_own_finalizer returns s releases req res release_finalizer
        (lit "failed to get latest Release for finalizer addition")
        (lit "failed to add finalizer to Release")
    if str_eq (cv_namespace res) res.meta.namespace
        then and_then
            (find returns s component_versions (cv_name res) (lit "failed to get ComponentVersion"))
            resolve_with
        else (do
          grants ←
              attempt returns s (grants_in (cv_namespace res))
                (lit "failed to check ReferenceGrant for cross-namespace ComponentVersion")
          if any (λ grant. grant_permits_component_version_access grant res.meta.namespace) grants
              then and_then
                  (find returns s component_versions (cv_name res)
                    (lit "failed to get ComponentVersion"))
                  resolve_with
              else refuse (lit "NotGranted") (
                  lit "no ReferenceGrant permits access to ComponentVersion in namespace "
                  ++ cv_namespace res))

unfoldable pub reconcile_release :
    (List Condition → Condition → List Condition × Bool)
    → Settings
    → NamespacedName
    → Program Outcome Outcome
unfolding with_object delete_release keep_release
reconcile_release set_status_condition s req =
    with_object s releases req (lit "failed to get object") (λ res.
      if res.meta.deleting
      then delete_release s req res
      else keep_release set_status_condition s req res)
