-- ===== src/Api/Rendering.antt =====
-- The render tasks and what they produce (rendertask_types.go, renderartifact_types.go,
-- renderbinding_types.go): the renderer's configuration is one of two kinds.
use solution_arsenal.Prelude.{Bool, Option, List}
use solution_arsenal.Str.{Str}
use solution_arsenal.Api.Integer.{ℤ}
use solution_arsenal.Api.Jobs.{ObjectReference}
use solution_arsenal.Api.Meta.{ObjectMeta, Condition}

pub record HelmResourceMetadata : Type 0 where
  pub name : Str
  pub description : Str
  pub version : Str
  pub app_version : Str
  pub values_template : Option Str

pub record ResourceAccess : Type 0 where
  pub repository : Str
  pub insecure : Bool
  pub tag : Str
  pub helm : Option HelmResourceMetadata

pub record ResolvedResourceAccess : Type 0 where
  pub repository : Str
  pub insecure : Bool
  pub tag : Str
  pub helm : Option HelmResourceMetadata
  pub pull_secret_name : Str

pub record Entrypoint : Type 0 where
  pub resource_name : Str
  pub entrypoint_type : Str

pub record ChartConfig : Type 0 where
  pub name : Str
  pub description : Str
  pub version : Str
  pub app_version : Str

pub record ReleaseConfig : Type 0 where
  pub chart : ChartConfig
  pub component : Str
  pub resources : List (Str × ResolvedResourceAccess)
  pub entrypoint : Entrypoint
  pub values : Str
  pub target_namespace : Str

pub record BootstrapInput : Type 0 where
  pub releases : List (Str × ResolvedResourceAccess)
  pub userdata : Str

pub record BootstrapConfig : Type 0 where
  pub chart : ChartConfig
  pub input : BootstrapInput

pub data RendererConfig : Type 0 where
  release_config : ReleaseConfig → RendererConfig
  bootstrap_config : BootstrapConfig → RendererConfig

pub record RenderTaskSpec : Type 0 where
  pub config : RendererConfig
  pub repository : Str
  pub tag : Str
  pub base_url : Str
  pub plain_http : Bool
  pub push_secret_ref : Option Str
  pub failed_job_ttl : Option ℤ
  pub owner_name : Str
  pub owner_namespace : Str
  pub owner_kind : Str

pub record RenderTask : Type 0 where
  pub meta : ObjectMeta
  pub spec : RenderTaskSpec
  pub conditions : List Condition
  pub job_ref : Option ObjectReference
  pub config_secret_ref : Option ObjectReference
  pub chart_url : Str

pub record RenderArtifact : Type 0 where
  pub meta : ObjectMeta
  pub base_url : Str
  pub repository : Str
  pub tag : Str
  pub render_task_ref : Str
  pub push_secret_ref : Option Str
  pub push_secret_namespace : Str
  pub registry_flavor : Str
  pub plain_http : Bool
  pub conditions : List Condition
  pub chart_url : Str

pub record RenderBinding : Type 0 where
  pub meta : ObjectMeta
  pub render_artifact_ref : Str
  pub owner_kind : Str
  pub owner_name : Str
  pub owner_namespace : Str
