-- ===== src/Controller/Profiles.antt =====
-- ProfileReconciler (profile_controller.go): the bindings that a profile makes for the targets that
-- its selector matches, in its own namespace and in those that let it in by a ReferenceGrant. Of
-- other libraries it uses LabelSelectorAsSelector (`none` where the selector is invalid),
-- SetControllerReference and IsControlledBy, and the order in which Go ranges over a map.
pub mod Bindings
pub mod Unprotect
pub mod Reconcile
pub mod Maps
pub mod Policy
pub mod Frees
pub mod Matching
pub mod Binding
pub mod Safety
use solution_arsenal.Prelude.{
  Bool, false, Option, none, List, [], ◌∷◌, ◌++◌, Result, ltb, length, if◌then◌else◌,
}
use solution_arsenal.Str.{Str, lit, str_eq}
use solution_arsenal.Names.{truncate_name}
use solution_arsenal.Api.{Profile, Target, ReleaseBinding, ObjectMeta, LabelSelector, Labels}
use solution_arsenal.Cluster.{NamespacedName, Error}
use solution_arsenal.Controller.{Settings}
use solution_arsenal.Controller.Finalizers.{ref_key}

pub record ProfileReconciler : Type 0 where
  pub settings : Settings
  pub sha256 : Str → Str
  pub as_selector : LabelSelector → Option (Labels → Bool)
  pub set_controller_reference : ObjectMeta → ObjectMeta → Result Error ObjectMeta
  -- the object, and the one that may control it
  pub is_controlled_by : ObjectMeta → ObjectMeta → Bool
  pub range : List (Str × Target) → List (Str × Target)

abbrev pub binding_target_key : ReleaseBinding → Str
binding_target_key rb =
    (if ltb 0 (length rb.target_namespace) then rb.target_namespace else rb.meta.namespace)
    ++ lit "/"
    ++ rb.target_ref

abbrev pub target_key : Target → Str
target_key t = ref_key t.meta

-- m[key] = a
module _ {A : Type 0} where
  unfoldable pub set_key : Str → A → List (Str × A) → List (Str × A)
  set_key key a [] = (key, a) ∷ []
  set_key key a ((k, b) ∷ m) =
      let rest = set_key key a m in if str_eq k key then (key, a) ∷ m else (k, b) ∷ rest

-- The namespace of a binding's target, where it is not the profile's own.
abbrev pub cross_namespace : Profile → Target → Str
cross_namespace profile target =
    if str_eq target.meta.namespace profile.meta.namespace then [] else target.meta.namespace

-- The binding that the reconciler makes for a target, without its owner.
unfoldable pub binding_for : ProfileReconciler → Profile → Target → ReleaseBinding
unfolding truncate_name
binding_for r profile target = record {
  meta = record {
    name = [];
    generate_name =
        truncate_name r.sha256 (profile.meta.name ++ lit "-" ++ target.meta.name) 57 ++ lit "-";
    namespace = profile.meta.namespace;
    uid = [];
    generation = 0;
    deleting = false;
    finalizers = [];
    labels = [];
    controller = none;
  };
  target_ref = target.meta.name;
  target_namespace = cross_namespace profile target;
  release_ref = profile.release_ref;
}

-- The release that a profile refers to.
abbrev pub profile_release : Profile → NamespacedName
profile_release profile = record { namespace = profile.meta.namespace; name = profile.release_ref }
