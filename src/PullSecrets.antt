-- ===== src/PullSecrets.antt =====
-- The pull secrets of a target's registries (buildPullSecretsLookup of
-- pkg/controller/target_controller.go) and the resources of a release with them (resolveResources of
-- pkg/controller/helpers.go). Go's maps are association lists: an entry hides the later ones of its
-- key. Where several resources lack a binding, Go's iteration order decides which one the error
-- names; here it is the first.
pub mod Lookup
pub mod Resolved
mod Tests
use solution_arsenal.Prelude.{
  Bool, true, false, ◌&&◌, not, Option, none, some, List, [], ◌∷◌, Result, ok, err, map,
  if◌then◌else◌,
}
use solution_arsenal.Str.{Str, str_eq, to_lower}
use solution_arsenal.Names.{registry_host}
use solution_arsenal.Api.{Target, Registry, RegistryBinding, ResourceAccess, ResolvedResourceAccess}
use solution_arsenal.Cluster.{
  registries, registry_bindings, NamespacedName, Error, Call, get, list, Answer, Program, done,
  stop, call,
}
use solution_arsenal.Controller.Finalizers.{index_registry_binding_target_name}

pub record HostEntry : Type 0 where
  pub pull_secret : Str
  pub binding_name : Str

pub data LookupError : Type 0 where
  failed : Error → LookupError
  no_registry : (registry_name binding_name : Str) → Error → LookupError
  conflicting : (host : Str) (previous : HostEntry) (binding_name pull_secret : Str) → LookupError

abbrev pub Entries : Type 0
Entries = List (Str × HostEntry)

-- result: the hosts with their pull secrets
abbrev pub Secrets : Type 0
Secrets = List (Str × Str)

module _ {ℓ} {A : Type ℓ} where
  -- m[key]
  unfoldable pub find_key : Str → List (Str × A) → Option A
  find_key key [] = none
  find_key key ((k, a) ∷ m) = let rest = find_key key m in if str_eq k key then some a else rest

abbrev pub secrets_of : Entries → Secrets
secrets_of = map (λ (e : Str × HostEntry). (e.0, e.1.pull_secret))

abbrev pub bindings_of_target : Target → Call
bindings_of_target target = list registry_bindings (record {
  namespace = some target.meta.namespace;
  live = false;
  field = some (index_registry_binding_target_name, target.meta.name);
  selector = none;
})

abbrev pub registry_of : RegistryBinding → Call
registry_of rb = get registries (record { namespace = rb.meta.namespace; name = rb.registry_ref })

-- `prev, ok := lookup[host]; ok && prev.pullSecret != reg.Spec.TargetPullSecretName`
abbrev pub clashing : Option HostEntry → Str → Option HostEntry
clashing none pull_secret = none
clashing (some prev) pull_secret = if str_eq prev.pull_secret pull_secret then none else some prev

abbrev pub Looks : Type 0
Looks = Program (Result LookupError Secrets) (Result LookupError Secrets)

abbrev pub entry_or :
    RegistryBinding → Registry → Entries → (Entries → Looks) → Option HostEntry → Looks
entry_or rb reg lookup rest (some prev) =
    stop (err (conflicting (to_lower reg.hostname) prev rb.meta.name reg.target_pull_secret_name))
entry_or rb reg lookup rest none = rest (
    (
      to_lower reg.hostname,
      record { pull_secret = reg.target_pull_secret_name; binding_name = rb.meta.name },
    )
    ∷ lookup)

abbrev pub registry_or :
    RegistryBinding → Entries → (Entries → Looks) → Result Error Registry → Looks
registry_or rb lookup rest (err e) = stop (err (no_registry rb.registry_ref rb.meta.name e))
registry_or rb lookup rest (ok reg) =
    entry_or rb reg lookup rest
      (clashing (find_key (to_lower reg.hostname) lookup) reg.target_pull_secret_name)

-- The loop over the bindings.
unfoldable pub look_up : List RegistryBinding → Entries → Looks
unfolding find_key
look_up [] lookup = done (ok (secrets_of lookup))
look_up (rb ∷ rbs) lookup =
    let rest = look_up rbs in call (registry_of rb) (registry_or rb lookup rest)

abbrev pub bindings_or : Result Error (List RegistryBinding) → Looks
bindings_or (ok rbs) = look_up rbs []
bindings_or (err e) = stop (err (failed e))

unfoldable pub build_pull_secrets_lookup : Target → Looks
unfolding look_up
build_pull_secrets_lookup target = call (bindings_of_target target) bindings_or

-- The host, and the resource, that have no binding.
pub record MissingBinding : Type 0 where
  pub host : Str
  pub resource : Str

abbrev pub secret_or_empty : Option Str → Str
secret_or_empty none = []
secret_or_empty (some secret) = secret

abbrev pub is_missing : Option Str → Bool
is_missing none = true
is_missing (some secret) = false

abbrev pub resolved_access : ResourceAccess → Str → ResolvedResourceAccess
resolved_access ra pull_secret = record {
  repository = ra.repository;
  insecure = ra.insecure;
  tag = ra.tag;
  helm = ra.helm;
  pull_secret_name = pull_secret;
}

abbrev pub and_resolved :
    Str × ResolvedResourceAccess
    → Result MissingBinding (List (Str × ResolvedResourceAccess))
    → Result MissingBinding (List (Str × ResolvedResourceAccess))
and_resolved r (ok rs) = ok (r ∷ rs)
and_resolved r (err e) = err e

unfoldable pub resolve_resources :
    List (Str × ResourceAccess)
    → Secrets
    → Bool
    → Result MissingBinding (List (Str × ResolvedResourceAccess))
unfolding find_key
resolve_resources [] pull_secrets_by_host strict = ok []
resolve_resources ((name, ra) ∷ resources) pull_secrets_by_host strict =
    let rest = resolve_resources resources pull_secrets_by_host strict in
    let found = find_key (registry_host ra.repository) pull_secrets_by_host in
    if strict && is_missing found
    then err (record { host = registry_host ra.repository; resource = name })
    else and_resolved (name, resolved_access ra (secret_or_empty found)) rest
