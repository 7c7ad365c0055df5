-- ===== src/Controller/RenderTasks/Pods.antt =====
-- The job of a render task (the part of createRenderJob that builds it).
use solution_arsenal.Prelude.{
  true, Option, none, some, List, [], ◌∷◌, ◌++◌, ltb, length, if◌then◌else◌,
}
use solution_arsenal.Str.{Str, lit, str_eq}
use solution_arsenal.Api.{
  RenderTask, Secret, Job, JobStatus, Volume, VolumeMount, EnvVar, secret_volume, config_map_volume,
  literal, field_ref, secret_key_ref,
}
use solution_arsenal.Api.Integer.{ℤ, pos}
use solution_arsenal.Cluster.{NamespacedName}
use solution_arsenal.Controller.Targets.{new_meta}
use solution_arsenal.Controller.RenderTasks.{RenderTaskReconciler, reference}

-- What a pod mounts, and what it is told.
pub record Pod : Type 0 where
  pub volumes : List Volume
  pub mounts : List VolumeMount
  pub env : List EnvVar

abbrev pub ttl_of : Option ℤ → ℤ
ttl_of none = pos 3600
ttl_of (some ttl) = ttl

abbrev pub annotation_job_name : Str
annotation_job_name = lit "solar.opendefense.cloud/job-name"

abbrev pub basic_auth : Str
basic_auth = lit "kubernetes.io/basic-auth"

abbrev pub docker_config_json : Str
docker_config_json = lit "kubernetes.io/dockerconfigjson"

unfoldable pub base_pod : Secret → Pod
base_pod config_secret = record {
  volumes =
      record {
        name = lit "config";
        source =
            secret_volume config_secret.meta.name ((lit "config.json", lit "config.json") ∷ []);
      }
      ∷ [];
  mounts =
      record {
        name = lit "config";
        mount_path = lit "/etc/renderer/config.json";
        sub_path = lit "config.json";
        read_only = true;
      }
      ∷ [];
  env =
      record { name = lit "POD_NAMESPACE"; source = field_ref (lit "metadata.namespace") }
      ∷ record { name = lit "POD_NAME"; source = field_ref (lit "metadata.name") }
      ∷ [];
}

-- `if r.RendererCAConfigMap != ""`
unfoldable pub add_ca : Str → Pod → Pod
add_ca ca_config_map pod =
    if ltb 0 (length ca_config_map)
    then record {
      volumes =
          pod.volumes
          ++ record {
            name = lit "ca-bundle";
            source =
                config_map_volume ca_config_map
                  ((lit "trust-bundle.pem", lit "ca-bundle.pem") ∷ []);
          }
            ∷ [];
      mounts =
          pod.mounts
          ++ record {
            name = lit "ca-bundle";
            mount_path = lit "/etc/ssl/certs";
            sub_path = [];
            read_only = true;
          }
            ∷ [];
      env =
          pod.env
          ++ record {
            name = lit "SSL_CERT_FILE";
            source = literal (lit "/etc/ssl/certs/ca-bundle.pem");
          }
            ∷ [];
    }
    else pod

-- `if pushSecret != nil { switch pushSecret.Type`
unfoldable pub add_push_secret : Option Secret → Pod → Pod
add_push_secret none pod = pod
add_push_secret (some push_secret) pod =
    if str_eq push_secret.secret_type basic_auth
    then record pod {
      env =
          pod.env
          ++ record {
            name = lit "REGISTRY_USERNAME";
            source = secret_key_ref push_secret.meta.name (lit "username");
          }
            ∷ record {
              name = lit "REGISTRY_PASSWORD";
              source = secret_key_ref push_secret.meta.name (lit "password");
            }
            ∷ [];
    }
    else if str_eq push_secret.secret_type docker_config_json
    then record {
      volumes =
          pod.volumes
          ++ record {
            name = lit "dockerconfig";
            source =
                secret_volume push_secret.meta.name
                  ((lit ".dockerconfigjson", lit "dockerconfig.json") ∷ []);
          }
            ∷ [];
      mounts =
          pod.mounts
          ++ record {
            name = lit "dockerconfig";
            mount_path = lit "/etc/renderer/dockerconfig.json";
            sub_path = lit "dockerconfig.json";
            read_only = true;
          }
            ∷ [];
      env =
          pod.env
          ++ record {
            name = lit "DOCKER_CONFIG";
            source = literal (lit "/etc/renderer/dockerconfig.json");
          }
            ∷ [];
    }
    else pod

module _ (r : RenderTaskReconciler) (res : RenderTask) where
  unfoldable pub render_args : List Str
  render_args =
      let url = lit "--url=" ++ reference res.spec.base_url res.spec.repository res.spec.tag in
      r.renderer_args
      ++ lit "/etc/renderer/config.json"
        ∷ url
        ∷ (if res.spec.plain_http then lit "--plain-http=true" ∷ [] else [])

  unfoldable pub pod_of : Secret → Option Secret → Pod
  unfolding base_pod add_ca add_push_secret
  pod_of config_secret push_secret =
      add_push_secret push_secret (add_ca r.renderer_ca_config_map (base_pod config_secret))

  abbrev pub idle_status : JobStatus
  idle_status = record { active = 0; succeeded = 0; failed = 0; completion_time = [] }

  unfoldable pub job_of : NamespacedName → Secret → Option Secret → Job
  unfolding pod_of render_args
  job_of key config_secret push_secret =
      let pod = pod_of config_secret push_secret in
      record {
        meta = new_meta key.namespace key.name;
        annotations = (annotation_job_name, key.name) ∷ [];
        spec = record {
          backoff_limit = 3;
          ttl_seconds_after_finished = ttl_of res.spec.failed_job_ttl;
          restart_policy = lit "Never";
          container = record {
            name = lit "renderer";
            image = r.renderer_image;
            command = r.renderer_command ∷ [];
            args = render_args;
            env = pod.env;
            volume_mounts = pod.mounts;
          };
          volumes = pod.volumes;
          image_pull_secrets = r.renderer_image_pull_secrets;
        };
        status = idle_status;
      }
