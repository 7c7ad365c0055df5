-- ===== src/Discovery/Sanitize/Tests.antt =====
-- Runs of the name functions, and their theorems at concrete inputs.
use solution_arsenal.Prelude.{take, ◌++◌, ℕ, ◌≤◌, ◌<◌, ◌≡◌, refl, [], ◌∷◌, arith, length, zero, suc}
use solution_arsenal.Str.{Str, lit, to_lower, cut_byte}
use solution_arsenal.Str.Hex.{hex_u32}
use solution_arsenal.Discovery.Sanitize.{
  is_alnum, clean, sanitize_name, fnv32a, fnv_offset, sanitize_with_hash, component_version_name,
  sanitize_digest_label,
}
use solution_arsenal.Discovery.Sanitize.Label.{IsLabel, sanitize_name-IsLabel}
use solution_arsenal.Discovery.Sanitize.WithHash.{
  sanitize_with_hash-length, sanitize_with_hash_too_long,
}

running : Unit {0}
unfolding sanitize_with_hash component_version_name sanitize_digest_label sanitize_name clean
    is_alnum to_lower cut_byte fnv32a hex_u32 lit
running = tt

sanitize_runs :
    (component_version_name (lit "My.Component") (lit "1.0.0") ≡ lit "my-component-1-0-0")
    × (sanitize_name (lit "--..--") ≡ [])
    × (sanitize_digest_label (lit "sha256:abc") ≡ lit "abc")
    × (sanitize_with_hash (lit "opendefense.cloud/ARC") ≡ lit "opendefense-cloud-arc")
unfolding running
sanitize_runs = (refl, refl, refl, refl)

-- The input of the source's own test.
hundred : Str
hundred = replicate 100
  where
    replicate : ℕ → Str
    replicate zero = []
    replicate (suc n) = b'a' ∷ replicate n

hundred_long : length (sanitize_name hundred) ≡ 63
unfolding running hundred
hundred_long = refl

hundred_sum : 1048576 ≤ fnv32a fnv_offset hundred
unfolding running hundred
hundred_sum = omega arith

sanitize_name-IsLabel_example : IsLabel (sanitize_name (lit "A--b/C_"))
sanitize_name-IsLabel_example = sanitize_name-IsLabel (lit "A--b/C_")

sanitize_with_hash-length_example :
    (length (sanitize_name hundred) < 57 → sanitize_with_hash hundred ≡ sanitize_name hundred)
    × (57 ≤ length (sanitize_name hundred)
        → (sanitize_with_hash hundred
            ≡ take 57 (sanitize_name hundred) ++ (45 ∷ hex_u32 (fnv32a fnv_offset hundred)))
          × (length (hex_u32 (fnv32a fnv_offset hundred)) ≤ 8))
    × (length (sanitize_with_hash hundred) ≤ 66)
sanitize_with_hash-length_example = sanitize_with_hash-length hundred

sanitize_with_hash_too_long_example : 63 < length (sanitize_with_hash hundred)
sanitize_with_hash_too_long_example =
    sanitize_with_hash_too_long hundred (omega (arith, hundred_long)) hundred_sum
