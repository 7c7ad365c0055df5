-- ===== src/Names.antt =====
-- The object names of pkg/controller/helpers.go, and the chart URL. SHA-256 is the section's
-- parameter; its first eight hexadecimal digits go into the names.
pub mod Bounds
pub mod Injective
pub mod Host
mod Tests
use solution_arsenal.Prelude.{ℕ, ◌-◌, ◌+◌, [], ◌∷◌, ◌++◌, ltb, leb, length, take, if◌then◌else◌}
use solution_arsenal.Str.{Str, lit, has_prefix, trim_suffix_byte, trim_prefix, cut_byte, to_lower}
use solution_arsenal.Str.Hex.{hex_encode}
use solution_arsenal.Str.Decimal.{decimal}
use solution_arsenal.Prelude.{Option, none, some}

abbrev pub max_k8s_object_name_len : ℕ
max_k8s_object_name_len = 253

abbrev at_least_ten : ℕ → ℕ
at_least_ten n = if ltb n 10 then 10 else n

module _ (sha256 : Str → Str) where
  -- hex.EncodeToString(sha256.Sum256(s))[:8]
  unfoldable pub hash8 : Str → Str
  hash8 s = take 8 (hex_encode (sha256 s))

  unfoldable pub truncate_name : Str → ℕ → Str
  truncate_name name max_len =
      let bound = at_least_ten max_len in
      if leb (length name) bound then name else take (bound - 9) name ++ (45 ∷ hash8 name)

  -- "%s/%s-%s-%d"
  unfoldable pub release_task_input : Str → Str → Str → ℕ → Str
  release_task_input release_namespace release_name target_name generation =
      release_namespace ++ (47 ∷ release_name ++ (45 ∷ target_name ++ (45 ∷ decimal generation)))

  unfoldable pub release_render_task_name : Str → Str → Str → ℕ → Str
  unfolding release_task_input
  release_render_task_name release_namespace release_name target_name generation =
      let hash = hash8 (release_task_input release_namespace release_name target_name generation) in
      truncate_name (lit "render-rel-" ++ (release_name ++ (45 ∷ hash))) max_k8s_object_name_len

  unfoldable pub target_render_task_name : Str → ℕ → Str
  target_render_task_name target_name bootstrap_version =
      truncate_name (lit "render-tgt-" ++ (target_name ++ (45 ∷ decimal bootstrap_version)))
        max_k8s_object_name_len

  -- "%s/%s/%s/%s"
  unfoldable pub render_artifact_name : Str → Str → Str → Str → Str
  render_artifact_name namespace base_url repository tag =
      lit "render-art-" ++ hash8 (namespace ++ (47 ∷ base_url ++ (47 ∷ repository ++ (47 ∷ tag))))

  -- "%s/Target/%s"
  unfoldable pub render_binding_name : Str → Str → Str
  render_binding_name artifact_name owner_name =
      lit "render-bind-" ++ hash8 (artifact_name ++ (lit "/Target/" ++ owner_name))

unfoldable pub oci_scheme : Str
oci_scheme = lit "oci://"

unfoldable pub render_chart_url : Str → Str → Str → Str
render_chart_url base_url repository tag =
    let base = if has_prefix base_url oci_scheme then base_url else oci_scheme ++ base_url in
    trim_suffix_byte 47 base ++ (47 ∷ repository ++ (58 ∷ tag))

abbrev before_slash : Str → Option (Str × Str) → Str
before_slash repo none = to_lower repo
before_slash repo (some (before, after)) = to_lower before

unfoldable pub registry_host : Str → Str
registry_host repository =
    let repo = trim_prefix repository oci_scheme in before_slash repo (cut_byte 47 repo)
