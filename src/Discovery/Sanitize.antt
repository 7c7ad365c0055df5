-- ===== src/Discovery/Sanitize.antt =====
-- The object names of pkg/discovery/helpers.go: SanitizeName, SanitizeWithHash,
-- ComponentVersionName and SanitizeDigestLabel, with the FNV-1a sum of the standard library.
pub mod Label
pub mod WithHash
mod Tests
use Prim.Native.Nat.{◌*◌, ◌^◌, bit_xor}
use solution_arsenal.Prelude.{
  ℕ, ◌+◌, ◌%◌, Bool, true, false, ◌&&◌, ◌||◌, Option, none, some, List, [], ◌∷◌, ◌++◌, leb, ltb,
  ◌==◌, length, take, if◌then◌else◌,
}
use solution_arsenal.Str.{Str, lit, to_lower, cut_byte}
use solution_arsenal.Str.Hex.{hex_u32}

-- [a-z0-9]
unfoldable pub is_alnum : ℕ → Bool
is_alnum c = (leb 97 c && leb c 122) || (leb 48 c && leb c 57)

-- ReplaceAllString of "[^a-z0-9]+" by "-": a run of other bytes becomes one dash. `in_run` tells
-- that the dash of the current run is written.
unfoldable pub replace_runs : Bool → Str → Str
replace_runs in_run [] = []
replace_runs in_run (c ∷ s) = elim (is_alnum c) [
  | true ↦ c ∷ replace_runs false s
  | false ↦ elim in_run [ true ↦ replace_runs true s | false ↦ 45 ∷ replace_runs true s ]
]

-- strings.TrimLeft s "-"
unfoldable pub trim_left : Str → Str
trim_left [] = []
trim_left (c ∷ s) = let rest = trim_left s in if c == 45 then rest else c ∷ s

abbrev dash_end : ℕ → Str → Str
dash_end c [] = if c == 45 then [] else c ∷ []
dash_end c (d ∷ s) = c ∷ d ∷ s

-- strings.TrimRight s "-"
unfoldable pub trim_right : Str → Str
trim_right [] = []
trim_right (c ∷ s) = dash_end c (trim_right s)

-- The name before the bound of 63 bytes is applied.
unfoldable pub clean : Str → Str
unfolding replace_runs trim_left trim_right
clean input = trim_right (trim_left (replace_runs false (to_lower input)))

unfoldable pub sanitize_name : Str → Str
sanitize_name input =
    let name = clean input in if ltb 63 (length name) then trim_right (take 63 name) else name

-- hash/fnv New32a
unfoldable pub fnv32a : ℕ → Str → ℕ
fnv32a h [] = h
fnv32a h (b ∷ s) = fnv32a ((bit_xor h b * 16777619) % 2 ^ 32) s

abbrev pub fnv_offset : ℕ
fnv_offset = 2166136261

unfoldable pub sanitize_with_hash : Str → Str
sanitize_with_hash input =
    let name = sanitize_name input in
    if ltb (length name) 57 then name else take 57 name ++ (45 ∷ hex_u32 (fnv32a fnv_offset input))

-- fmt.Sprintf "%s-%s"
unfoldable pub component_version_name : Str → Str → Str
component_version_name comp version = sanitize_name (comp ++ (45 ∷ version))

-- `if _, rest, found := strings.Cut(digest, ":"); found { digest = rest }`
unfoldable pub without_algorithm : Str → Str
without_algorithm digest = elim (cut_byte 58 digest) [
  | none ↦ digest
  | some (algorithm, rest) ↦ rest
]

-- Without the algorithm prefix, and cut to the length of a label value.
unfoldable pub sanitize_digest_label : Str → Str
unfolding without_algorithm
sanitize_digest_label [] = []
sanitize_digest_label (c ∷ s) =
    let digest = without_algorithm (c ∷ s) in
    if ltb 63 (length digest) then take 63 digest else digest
