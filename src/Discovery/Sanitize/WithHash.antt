-- ===== src/Discovery/Sanitize/WithHash.antt =====
-- A label is left alone by SanitizeName; how long the names of SanitizeWithHash and the labels of
-- SanitizeDigestLabel are.
use solution_arsenal.Prelude.{
  ℕ, ◌+◌, ◌≤◌, ◌<◌, ◌≡◌, refl, sym, ap, inl, inr, Bool, true, false, [], ◌∷◌, ◌++◌, arith, ltb,
  length, take, length-append, length-take, Bool-cases, ◌⊎◌, min, if◌then◌else◌,
}
use mathlib.Core.Path.{ap₂}
use solution_arsenal.Str.{Str, to_lower}
use solution_arsenal.Str.Hex.{hex_u32, length-hex_u32, length-hex_u32-lt}
use solution_arsenal.Discovery.Sanitize.{
  is_alnum, replace_runs, trim_left, trim_right, clean, sanitize_name, fnv32a, fnv_offset,
  sanitize_with_hash, without_algorithm, sanitize_digest_label,
}
use solution_arsenal.Discovery.Sanitize.Label.{IsWords, StartsWell, EndsWell, IsLabel}

to_lower_words : (r : Bool) (s : Str) → IsWords r s → to_lower s ≡ s
unfolding to_lower is_alnum
to_lower_words r [] h = refl
to_lower_words r (c ∷ s) (inl h) = ground (arith, to_lower_words false s h.1, h.0)
to_lower_words r (c ∷ s) (inr h) = ground (arith, to_lower_words true s h.2, h.0)

dash_not_alnum : (c : ℕ) → c ≡ 45 → is_alnum c ≡ false
unfolding is_alnum
dash_not_alnum c e = rw e refl

replace_runs_words : (r : Bool) (s : Str) → IsWords r s → replace_runs r s ≡ s
unfolding replace_runs
replace_runs_words r [] h = refl
replace_runs_words r (c ∷ s) (inl h) =
    rw (h.0, replace_runs) (ap (λ t. c ∷ t) (replace_runs_words false s h.1))
replace_runs_words true (c ∷ s) (inr h) = cc h.1
replace_runs_words false (c ∷ s) (inr h) =
    rw (dash_not_alnum c h.0, replace_runs)
      (ap₂ (λ a t. a ∷ t) (sym h.0) (replace_runs_words true s h.2))

trim_left_words : (s : Str) → StartsWell s → trim_left s ≡ s
unfolding trim_left
trim_left_words [] h = refl
trim_left_words (c ∷ s) h = ground arith

trim_right_words : (s : Str) → EndsWell s → trim_right s ≡ s
unfolding trim_right
trim_right_words [] h = refl
trim_right_words (c ∷ []) h = ground arith
trim_right_words (c ∷ d ∷ s) h = rw (trim_right_words (d ∷ s) h)

-- A label is its own sanitized name, so a second pass changes nothing.
pub sanitize_name_label : (s : Str) → IsLabel s → sanitize_name s ≡ s
unfolding sanitize_name clean
sanitize_name_label s l =
    rw
      (
        to_lower_words false s l.words,
        replace_runs_words false s l.words,
        trim_left_words s l.starts,
        trim_right_words s l.ends,
      )
      (ground (arith, l.short))

length-cut : (n : ℕ) (s t : Str) → length (take n s ++ (45 ∷ t)) ≡ min n (length s) + 1 + length t
length-cut n s t = omega (arith, length-append (take n s) (45 ∷ t), length-take n s)

module _ (input : Str) where
  abbrev name : Str
  name = sanitize_name input

  abbrev digits : Str
  digits = hex_u32 (fnv32a fnv_offset input)

  sanitize_with_hash_kept : length name < 57 → sanitize_with_hash input ≡ name
  unfolding sanitize_with_hash
  sanitize_with_hash_kept h = let e : ltb (length name) 57 ≡ true = ground arith in rw e refl

  sanitize_with_hash_cut : 57 ≤ length name → length (sanitize_with_hash input) ≡ 58 + length digits
  unfolding sanitize_with_hash
  sanitize_with_hash_cut h =
      let e : ltb (length name) 57 ≡ false = ground arith in
      rw e (omega (arith, length-cut 57 name digits))

  sanitize_with_hash_is :
      57 ≤ length name → sanitize_with_hash input ≡ take 57 name ++ (45 ∷ digits)
  unfolding sanitize_with_hash
  sanitize_with_hash_is h = let e : ltb (length name) 57 ≡ false = ground arith in rw e refl

  -- A sanitized name of fewer than 57 bytes is kept; a longer one becomes its first 57 bytes, a dash
  -- and the FNV sum of the input in at most eight hexadecimal digits, so 66 bytes at most.
  pub sanitize_with_hash-length :
      (length name < 57 → sanitize_with_hash input ≡ name)
      × (57 ≤ length name
          → (sanitize_with_hash input ≡ take 57 name ++ (45 ∷ digits)) × (length digits ≤ 8))
      × (length (sanitize_with_hash input) ≤ 66)
  sanitize_with_hash-length = (
    sanitize_with_hash_kept,
    λ h. (sanitize_with_hash_is h, length-hex_u32 (fnv32a fnv_offset input)),
    bound (Bool-cases (ltb (length name) 57)),
  )
    where
      bound :
          (ltb (length name) 57 ≡ true) ⊎ (ltb (length name) 57 ≡ false)
          → length (sanitize_with_hash input) ≤ 66
      bound (inl y) =
          let short : length name < 57 = ground arith in
          omega (arith, ap length (sanitize_with_hash_kept short))
      bound (inr n) =
          let long : 57 ≤ length name = ground arith in
          omega (arith, sanitize_with_hash_cut long, length-hex_u32 (fnv32a fnv_offset input))

  -- Where the sanitized name has 57 bytes or more and the sum has six digits or more, the name with
  -- the hash is longer than the 63 bytes that SanitizeName keeps to.
  pub sanitize_with_hash_too_long :
      57 ≤ length name → 1048576 ≤ fnv32a fnv_offset input → 63 < length (sanitize_with_hash input)
  sanitize_with_hash_too_long h g =
      omega (arith, sanitize_with_hash_cut h, length-hex_u32-lt (fnv32a fnv_offset input) g)

length-cut_label :
    (digest : Str) → length (if ltb 63 (length digest) then take 63 digest else digest) ≤ 63
length-cut_label digest = elim (Bool-cases (ltb 63 (length digest))) [
  | inl y ↦ rw y (omega (arith, length-take 63 digest))
  | inr n ↦ rw n (ground arith)
]

-- A digest label has 63 bytes at most, whatever the digest.
pub sanitize_digest_label_short : (digest : Str) → length (sanitize_digest_label digest) ≤ 63
unfolding sanitize_digest_label
sanitize_digest_label_short [] = omega arith
sanitize_digest_label_short (c ∷ s) = length-cut_label (without_algorithm (c ∷ s))
