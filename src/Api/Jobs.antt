-- ===== src/Api/Jobs.antt =====
-- What Kubernetes itself defines and the RenderTask controller makes: secrets and jobs, with the
-- fields that it sets or reads.
use solution_arsenal.Prelude.{ℕ, Bool, List}
use solution_arsenal.Str.{Str}
use solution_arsenal.Api.Integer.{ℤ}
use solution_arsenal.Api.Meta.{ObjectMeta}

pub record ObjectReference : Type 0 where
  pub api_version : Str
  pub kind : Str
  pub namespace : Str
  pub name : Str

pub record Secret : Type 0 where
  pub meta : ObjectMeta
  pub annotations : List (Str × Str)
  pub secret_type : Str
  pub data_entries : List (Str × Str)

-- The key of an entry, and the path that it is mounted at.
pub data VolumeSource : Type 0 where
  secret_volume : (name : Str) (items : List (Str × Str)) → VolumeSource
  config_map_volume : (name : Str) (items : List (Str × Str)) → VolumeSource

pub record Volume : Type 0 where
  pub name : Str
  pub source : VolumeSource

pub record VolumeMount : Type 0 where
  pub name : Str
  pub mount_path : Str
  pub sub_path : Str
  pub read_only : Bool

pub data EnvSource : Type 0 where
  literal : Str → EnvSource
  field_ref : Str → EnvSource
  secret_key_ref : (name key : Str) → EnvSource

pub record EnvVar : Type 0 where
  pub name : Str
  pub source : EnvSource

pub record Container : Type 0 where
  pub name : Str
  pub image : Str
  pub command : List Str
  pub args : List Str
  pub env : List EnvVar
  pub volume_mounts : List VolumeMount

pub record JobSpec : Type 0 where
  pub backoff_limit : ℕ
  pub ttl_seconds_after_finished : ℤ
  pub restart_policy : Str
  pub container : Container
  pub volumes : List Volume
  pub image_pull_secrets : List Str

pub record JobStatus : Type 0 where
  pub active : ℕ
  pub succeeded : ℕ
  pub failed : ℕ
  -- as it is printed
  pub completion_time : Str

pub record Job : Type 0 where
  pub meta : ObjectMeta
  pub annotations : List (Str × Str)
  pub spec : JobSpec
  pub status : JobStatus

-- What go-containerregistry logs in with.
pub record AuthConfig : Type 0 where
  pub username : Str
  pub password : Str
  pub auth : Str
  pub identity_token : Str
  pub registry_token : Str

pub data Authenticator : Type 0 where
  anonymous : Authenticator
  from_config : AuthConfig → Authenticator
