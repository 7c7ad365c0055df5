-- ===== src/Lib.antt =====
-- Solution Arsenal: a model of its control plane's core, and the theorems that make it correct.
--
-- The program manages software releases for Kubernetes clusters. Discovery reads component
-- descriptors from OCI registries and turns their repositories into object names; controllers
-- resolve which Releases a Target gets, protect objects that others refer to by finalizers, render
-- charts by RenderTasks and record the result in RenderArtifacts and RenderBindings; a web interface
-- keeps sessions.
--
-- Parts and files:
-- - Prelude, Str: lists, options, results, and Go strings as sequences of bytes (packages strings,
--   strconv and encoding/hex, as far as they are used; ToLower on ASCII text).
-- - Api (api/solar/v1alpha1): the API objects as records, with the fields that the modelled code
--   reads. Priorities are signed integers of which only the order is used.
-- - Discovery (pkg/discovery/helpers.go): SplitRepository is split_repository, SanitizeName is
--   sanitize_name, SanitizeWithHash is sanitize_with_hash, with the 32-bit FNV-1a sum written out.
-- - Names (pkg/controller/helpers.go): truncateName, releaseRenderTaskName, targetRenderTaskName,
--   renderArtifactName, renderBindingName, renderChartURL and registryHost. SHA-256 is a parameter
--   that gives 32 bytes.
-- - Grants (pkg/controller/profile_controller.go, target_controller.go): grantPermits and the tests
--   made from it.
-- - Resolver (pkg/controller/target_controller.go): resolveReleaseConflicts. Reading a label selector
--   is a parameter. The groups of Go's map are read off the list for every unique name.
-- - Cluster: the API server. A controller is a program of calls (get, list, create, delete, patch,
--   update_status) that goes on with the answers. Nothing is assumed of the answers: `Safe` speaks
--   of every server, with other clients writing between two calls. A list call says whether it is
--   answered by the cache (r.List) or by the API server itself (r.APIReader.List): `live`. Errors are
--   told apart as apierrors does (Cluster/Errors, pkg/controller/errors.go).
-- - Controller (pkg/controller): Finalizers has the functions that take a protecting finalizer away,
--   RegistryBindings, ComponentVersions, Releases and ReleaseBindings are the whole reconcilers of
--   registrybinding_controller.go, componentversion_controller.go, release_controller.go and
--   releasebinding_controller.go. Libraries names what other libraries give, and Backoff is
--   backoff.go. Steps and Rules have the rules for the shared pieces: Steps under the policy
--   `Allowed`, Rules under any policy.
-- - Controller/Targets: target_controller.go. Conditions is setCondition, RenderRegistry, Bindings,
--   Collect, Render and Bootstrap are the phases of Reconcile in their order, Specs the render task
--   specifications, and Reconcile puts them together; the file Targets itself has the cleanup loops
--   and the ensure functions. Policy says what the controller may call, with Policy/Facts for what
--   it has seen by then, and Safety proves it phase by phase.
-- - Controller/RenderTasks: rendertask_controller.go, with the job's pod in Pods, the task's status in
--   Statuses, and Reconcile. Controller/RenderArtifacts: renderartifact_controller.go.
-- - Controller/Profiles: profile_controller.go. Reconcile is the reconciler, Bindings the targets that
--   it matches and the bindings that it keeps for them, Unprotect
--   removeReleaseRefFinalizerIfUnreferenced. A Go map is a list of pairs, and the order in which Go
--   ranges over it a parameter.
-- - PullSecrets (pkg/controller/target_controller.go, helpers.go): buildPullSecretsLookup and
--   resolveResources.
-- - Session (pkg/ui/session/store.go): the session store, every operation of it one step. Refines has
--   the map from cookies to sessions that it stands for.
--
-- Interaction: the Profile controller makes the release bindings that the Target controller
-- collects, and the ReleaseBinding controller leaves their releases to it; the Target controller
-- gives the release list to Resolver and the resources to PullSecrets, names what it makes with
-- Names, and makes and deletes it with Controller/Targets; the RenderTask controller runs the jobs
-- of the tasks so made, whose results the Target controller binds as artifacts, which the
-- RenderArtifact controller collects when their bindings are gone; the reconcilers ask Grants before
-- they follow a reference into another namespace; Discovery gives the component names that Resolver
-- falls back on.
--
-- The loops of the modelled code go through lists, but for the search along the backoff curve, whose
-- 1000 rounds are the source's own cap: it is not reached within 41 hours. Numbers are natural
-- numbers, with the wrap-around of the FNV sum written out. sort.Slice, which may leave items that
-- are ordered neither way in any order, is a stable insertion sort.
--
-- Not modelled: logs and event recorders, the wiring of watches and the functions that map events to
-- requests, the discovery pipeline, rendering (Helm), OCI access, OIDC and the HTTP handlers,
-- generated code and the web frontend. What the code calls of other libraries is a parameter:
-- SetStatusCondition and its companions, DeepEqual, IsControlledBy, image references, SHA-256, the
-- clock, JSON, random bytes and hex decoding.
-- Durations that are negative count as none.
mod Prelude
pub mod Str
pub mod Discovery
pub mod Names
pub mod Api
pub mod Grants
pub mod Resolver
pub mod Cluster
pub mod Controller
pub mod Session
pub mod PullSecrets
