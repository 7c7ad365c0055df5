-- ===== src/Controller/RenderTasks/Wiring.antt =====
-- The pod of a render job is put together soundly: createRenderJob in
-- pkg/controller/rendertask_controller.go.
use solution_arsenal.Prelude.{
  ◌≡◌, refl, inl, inr, Bool, Bool-cases, true, false, ◌||◌, Option, none, some, List, [], ◌∷◌, ◌++◌,
  any, All, All-append, ltb, length,
}
use solution_arsenal.Str.{Str, str_eq, lit}
use solution_arsenal.Api.{RenderTask, Secret, Volume, VolumeMount}
use solution_arsenal.Controller.RenderTasks.{RenderTaskReconciler}
use solution_arsenal.Controller.RenderTasks.Pods.{
  Pod, base_pod, add_ca, add_push_secret, pod_of, basic_auth, docker_config_json,
}

-- The volume that a mount names is there.
abbrev pub has_volume : List Volume → VolumeMount → Bool
has_volume volumes m = any (λ v. str_eq v.name m.name) volumes

abbrev pub IsWired : Pod → Type 0
IsWired pod = All (λ m. has_volume pod.volumes m ≡ true) pod.mounts

or_right : (a b : Bool) → a ≡ false → (a || b) ≡ true → b ≡ true
or_right true b e h = cc
or_right false b e h = h

or_swap : (a b : Bool) → b ≡ true → (a || b) ≡ true
or_swap true b h = refl
or_swap false b h = h

has_volume-append :
    (vs : List Volume) (v : Volume) (m : VolumeMount)
    → has_volume vs m ≡ true
    → has_volume (vs ++ v ∷ []) m ≡ true
has_volume-append [] v m y = cc
has_volume-append (w ∷ vs) v m y = elim (Bool-cases (str_eq w.name m.name)) [
  | inl e ↦ rw e refl
  | inr n ↦ or_swap (str_eq w.name m.name) _ (has_volume-append vs v m (or_right _ _ n y))
]

has_volume-last :
    (vs : List Volume) (v : Volume) (m : VolumeMount)
    → str_eq v.name m.name ≡ true
    → has_volume (vs ++ v ∷ []) m ≡ true
has_volume-last [] v m y = rw y refl
has_volume-last (w ∷ vs) v m y = or_swap (str_eq w.name m.name) _ (has_volume-last vs v m y)

-- A volume is added together with a mount of its name.
IsWired-add :
    (vs : List Volume) (ms : List VolumeMount) (v : Volume) (m : VolumeMount)
    → All (λ n. has_volume vs n ≡ true) ms
    → str_eq v.name m.name ≡ true
    → All (λ n. has_volume (vs ++ v ∷ []) n ≡ true) (ms ++ m ∷ [])
IsWired-add vs ms v m a y =
    All-append (λ n. has_volume (vs ++ v ∷ []) n ≡ true) ms (m ∷ []) (kept ms a)
      (has_volume-last vs v m y, tt)
  where
    kept :
        (ns : List VolumeMount)
        → All (λ n. has_volume vs n ≡ true) ns
        → All (λ n. has_volume (vs ++ v ∷ []) n ≡ true) ns
    kept [] b = tt
    kept (n ∷ ns) (b, bs) = (has_volume-append vs v n b, kept ns bs)

base_pod-IsWired : (config_secret : Secret) → IsWired (base_pod config_secret)
unfolding base_pod lit str_eq
base_pod-IsWired config_secret = (refl, tt)

add_ca-IsWired :
    (ca_config_map : Str) (pod : Pod) → IsWired pod → IsWired (add_ca ca_config_map pod)
unfolding add_ca lit str_eq
add_ca-IsWired ca_config_map pod w = elim (Bool-cases (ltb 0 (length ca_config_map))) [
  | inl y ↦ rw y (IsWired-add pod.volumes pod.mounts _ _ w refl)
  | inr n ↦ rw n w
]

add_push_secret-IsWired :
    (push_secret : Option Secret) (pod : Pod)
    → IsWired pod
    → IsWired (add_push_secret push_secret pod)
unfolding add_push_secret lit str_eq
add_push_secret-IsWired none pod w = w
add_push_secret-IsWired (some s) pod w = elim (Bool-cases (str_eq s.secret_type basic_auth)) [
  | inl y ↦ rw y w
  | inr n ↦ elim (Bool-cases (str_eq s.secret_type docker_config_json)) [
    | inl y ↦ rw (n, y) (IsWired-add pod.volumes pod.mounts _ _ w refl)
    | inr m ↦ rw (n, m) w
  ]
]

-- Whatever the renderer's configuration and the push secret are, each mount of a render job's
-- container names a volume of its pod.
pub pod_of-IsWired :
    (r : RenderTaskReconciler) (res : RenderTask) (config_secret : Secret)
    (push_secret : Option Secret)
    → IsWired (pod_of r res config_secret push_secret)
unfolding pod_of
pod_of-IsWired r res config_secret push_secret =
    add_push_secret-IsWired push_secret (add_ca r.renderer_ca_config_map (base_pod config_secret)) (
      add_ca-IsWired r.renderer_ca_config_map (base_pod config_secret)
        (base_pod-IsWired config_secret))
