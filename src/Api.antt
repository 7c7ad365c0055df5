-- ===== src/Api.antt =====
-- The API objects (api/solar/v1alpha1). A LocalObjectReference is its name; a RawExtension, which
-- the controllers only pass on, is its bytes; of the Kubernetes metadata the fields that the
-- controllers read are kept, and `deleting` says that the deletion timestamp is set. Spec and status
-- stand in one record where one kind is never copied without the other, and fields that no modelled
-- code reads are left out.
pub mod Integer
pub mod Meta
pub mod Rendering
pub mod Jobs
pub use Meta.*
pub use Rendering.*
pub use Jobs.*
pub use Integer.{ℤ}
use solution_arsenal.Prelude.{ℕ, Bool, Option, List}
use solution_arsenal.Str.{Str}

pub record ReferenceGrantFromSubject : Type 0 where
  pub group : Str
  pub kind : Str
  pub namespace : Str

pub record ReferenceGrantToTarget : Type 0 where
  pub group : Str
  pub kind : Str

pub record ReferenceGrant : Type 0 where
  pub meta : ObjectMeta
  pub from : List ReferenceGrantFromSubject
  pub to : List ReferenceGrantToTarget

pub record ReleaseSpec : Type 0 where
  pub component_version_ref : Str
  pub component_version_namespace : Str
  pub target_namespace : Option Str
  pub unique_name : Str
  pub anti_affinity : Option LabelSelector
  pub values : Str
  pub failed_job_ttl : Option ℤ
  pub priority : ℤ

pub record Release : Type 0 where
  pub meta : ObjectMeta
  pub spec : ReleaseSpec
  pub conditions : List Condition
  pub effective_unique_name : Str

pub record ReleaseBinding : Type 0 where
  pub meta : ObjectMeta
  pub target_ref : Str
  pub target_namespace : Str
  pub release_ref : Str

pub record ComponentVersion : Type 0 where
  pub meta : ObjectMeta
  pub component_ref : Str
  pub tag : Str
  pub resources : List (Str × ResourceAccess)
  pub entrypoint : Entrypoint

pub record Component : Type 0 where
  pub meta : ObjectMeta

pub record Registry : Type 0 where
  pub meta : ObjectMeta
  pub hostname : Str
  pub plain_http : Bool
  pub solar_secret_ref : Option Str
  pub target_pull_secret_name : Str
  pub flavor : Str

pub record RegistryBinding : Type 0 where
  pub meta : ObjectMeta
  pub target_ref : Str
  pub target_namespace : Str
  pub registry_ref : Str

pub record Target : Type 0 where
  pub meta : ObjectMeta
  pub render_registry_ref : Str
  pub render_registry_namespace : Str
  pub userdata : Str
  pub bootstrap_version : ℕ
  pub conditions : List Condition

pub record Profile : Type 0 where
  pub meta : ObjectMeta
  pub release_ref : Str
  pub target_selector : LabelSelector
  pub matched_targets : ℕ
