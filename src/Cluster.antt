-- ===== src/Cluster.antt =====
-- The Kubernetes API as the controllers use it. A controller is a program that makes calls to the
-- API server (client.Client of controller-runtime) and goes on with the answers; `stop` is an early
-- return. The API server is no part of this repository: nothing is assumed of its answers, so what
-- holds of a program holds for every server, with other clients writing between two calls.
pub mod Safe
pub mod Errors
use solution_arsenal.Prelude.{
  ℕ, Bool, true, false, Option, none, some, List, [], ◌∷◌, Result, ok, err, any, keep, not,
}
use solution_arsenal.Str.{Str, str_eq}
use solution_arsenal.Api.{
  Target, Registry, RegistryBinding, Release, ReleaseBinding, ComponentVersion, Component, Profile,
  Secret, Job, Authenticator, ReferenceGrant, RenderTask, RenderArtifact, RenderBinding, ObjectMeta,
  Labels,
}

pub data Kind : Type 0 where
  targets registries registry_bindings releases release_bindings component_versions components
        profiles reference_grants render_tasks render_artifacts render_bindings secrets jobs :
      Kind

abbrev pub Object : Kind → Type 0
Object targets = Target
Object registries = Registry
Object registry_bindings = RegistryBinding
Object releases = Release
Object release_bindings = ReleaseBinding
Object component_versions = ComponentVersion
Object components = Component
Object profiles = Profile
Object reference_grants = ReferenceGrant
Object render_tasks = RenderTask
Object render_artifacts = RenderArtifact
Object render_bindings = RenderBinding
Object secrets = Secret
Object jobs = Job

abbrev pub meta_of : (k : Kind) → Object k → ObjectMeta
meta_of targets o = o.meta
meta_of registries o = o.meta
meta_of registry_bindings o = o.meta
meta_of releases o = o.meta
meta_of release_bindings o = o.meta
meta_of component_versions o = o.meta
meta_of components o = o.meta
meta_of profiles o = o.meta
meta_of reference_grants o = o.meta
meta_of render_tasks o = o.meta
meta_of render_artifacts o = o.meta
meta_of render_bindings o = o.meta
meta_of secrets o = o.meta
meta_of jobs o = o.meta

-- The same object with other finalizers.
abbrev pub refinalize : (k : Kind) → Object k → List Str → Object k
refinalize targets o l = record o { meta = record o.meta { finalizers = l } }
refinalize registries o l = record o { meta = record o.meta { finalizers = l } }
refinalize registry_bindings o l = record o { meta = record o.meta { finalizers = l } }
refinalize releases o l = record o { meta = record o.meta { finalizers = l } }
refinalize release_bindings o l = record o { meta = record o.meta { finalizers = l } }
refinalize component_versions o l = record o { meta = record o.meta { finalizers = l } }
refinalize components o l = record o { meta = record o.meta { finalizers = l } }
refinalize profiles o l = record o { meta = record o.meta { finalizers = l } }
refinalize reference_grants o l = record o { meta = record o.meta { finalizers = l } }
refinalize render_tasks o l = record o { meta = record o.meta { finalizers = l } }
refinalize render_artifacts o l = record o { meta = record o.meta { finalizers = l } }
refinalize render_bindings o l = record o { meta = record o.meta { finalizers = l } }
refinalize secrets o l = record o { meta = record o.meta { finalizers = l } }
refinalize jobs o l = record o { meta = record o.meta { finalizers = l } }

-- types.NamespacedName
pub record NamespacedName : Type 0 where
  pub namespace : Str
  pub name : Str

-- How the API server's errors are told apart (apierrors.IsNotFound, IsAlreadyExists).
pub data Reason : Type 0 where
  not_found already_exists other : Reason

pub record Error : Type 0 where
  pub reason : Reason
  pub text : Str

-- client.InNamespace and client.MatchingFields, and a label selector.
pub record ListOptions : Type 0 where
  pub namespace : Option Str
  -- whether the list is read from the API server itself (APIReader), and not from the cache
  pub live : Bool
  pub field : Option (Str × Str)
  pub selector : Option (Labels → Bool)

pub data Call : Type 0 where
  get : Kind → NamespacedName → Call
  list : Kind → ListOptions → Call
  create : (k : Kind) → Object k → Call
  delete : (k : Kind) → Object k → Call
  -- the object as it was, and as it shall be; with an optimistic lock or without
  patch : (k : Kind) → Bool → Object k → Object k → Call
  update_status : (k : Kind) → Object k → Call
  patch_status : (k : Kind) → Object k → Object k → Call
  -- DeleteTag of pkg/ociregistry, with the reference and whether the registry is plain HTTP; an
  -- answer with HTTP status 404 counts as NotFound
  delete_tag : (reference : Str) → Authenticator → Bool → Call

abbrev pub Value : Call → Type 0
Value (get k n) = Object k
Value (list k o) = List (Object k)
Value (create k o) = Object k
Value (delete k o) = Unit
Value (patch k lock o o') = Object k
Value (update_status k o) = Object k
Value (patch_status k o o') = Object k
Value (delete_tag reference auth insecure) = Unit

abbrev pub Answer : Call → Type 0
Answer c = Result Error (Value c)

pub data Program (R A : Type 0) : Type 0 where
  done : A → Program R A
  stop : R → Program R A
  call : (c : Call) → (Answer c → Program R A) → Program R A

module _ {R A B : Type 0} where
  unfoldable pub and_then : Program R A → (A → Program R B) → Program R B
  and_then (done a) f = f a
  and_then (stop r) f = stop r
  and_then (call c k) f = call c (λ a. and_then (k a) f)

  infixl 5 ◌>>=◌ ◌>>◌
  abbrev pub ◌>>=◌ : Program R A → (A → Program R B) → Program R B
  ◌>>=◌ = and_then

  abbrev pub ◌>>◌ : Program R A → Program R B → Program R B
  m >> n = and_then m (λ _. n)

-- A call to a function of the source: its early returns are its value.
unfoldable pub returned : {R A : Type 0} → Program A A → Program R A
returned (done a) = done a
returned (stop a) = done a
returned (call c k) = call c (λ a. returned (k a))

-- slices.Contains and slices.DeleteFunc
abbrev pub has_finalizer : (k : Kind) → Object k → Str → Bool
has_finalizer k o f = any (λ s. str_eq s f) (meta_of k o).finalizers

unfoldable pub without : Str → List Str → List Str
without f = keep (λ s. not (str_eq s f))
