-- ===== src/Str/Hex.antt =====
-- Hexadecimal text: hex.EncodeToString, and `%x` of a number.
use Prim.Native.Nat.{◌*◌, ◌^◌}
use native.Mathlib.Nat.{pow-suc}
use solution_arsenal.Prelude.{
  ℕ, zero, suc, ◌+◌, ◌/◌, ◌%◌, ◌≤◌, ◌<◌, ◌≡◌, refl, true, false, [], ◌∷◌, ◌++◌, arith, ltb, length,
  Bool-cases, inl, inr, if◌then◌else◌, length-append,
}
use solution_arsenal.Str.{Str}

abbrev hex_digit : ℕ → ℕ
hex_digit d = if ltb d 10 then 48 + d else 87 + d

unfoldable pub hex_encode : Str → Str
hex_encode [] = []
hex_encode (b ∷ s) = hex_digit (b / 16) ∷ hex_digit (b % 16) ∷ hex_encode s

pub length-hex_encode : (s : Str) → length (hex_encode s) ≡ 2 * length s
unfolding hex_encode
length-hex_encode [] = omega arith
length-hex_encode (b ∷ s) = omega (arith, length-hex_encode s)

-- `%x` of a number below 16 ^ f.
hex_fuel : ℕ → ℕ → Str
hex_fuel zero n = []
hex_fuel (suc f) n =
    let rest = hex_fuel f (n / 16) in
    elim (ltb n 16) [ true ↦ hex_digit n ∷ [] | false ↦ rest ++ hex_digit (n % 16) ∷ [] ]

-- `%x` of a uint32: eight digits at most.
unfoldable pub hex_u32 : ℕ → Str
unfolding hex_fuel
hex_u32 n = hex_fuel 8 n

length-hex_fuel : (f n : ℕ) → length (hex_fuel f n) ≤ f
unfolding hex_fuel
length-hex_fuel zero n = omega arith
length-hex_fuel (suc f) n = elim (Bool-cases (ltb n 16)) [
  | inl y ↦ rw (y, length) (omega arith)
  | inr m ↦
      rw (m, length)
        (omega (
          arith,
          length-append (hex_fuel f (n / 16)) (hex_digit (n % 16) ∷ []),
          length-hex_fuel f (n / 16),
        ))
]

pub length-hex_u32 : (n : ℕ) → length (hex_u32 n) ≤ 8
unfolding hex_u32
length-hex_u32 n = length-hex_fuel 8 n

hex_fuel-pos : (f n : ℕ) → 1 ≤ length (hex_fuel (suc f) n)
unfolding hex_fuel
hex_fuel-pos f n = elim (Bool-cases (ltb n 16)) [
  | inl y ↦ rw (y, length) (omega arith)
  | inr m ↦
      rw (m, length) (omega (arith, length-append (hex_fuel f (n / 16)) (hex_digit (n % 16) ∷ [])))
]

pow_pos : (k : ℕ) → 1 ≤ 16 ^ k
pow_pos zero = omega arith
pow_pos (suc k) = omega (arith, pow-suc 16 k, pow_pos k)

div_step : (k n : ℕ) → 16 ^ suc k ≤ n → 16 ^ k ≤ n / 16
div_step k n h = omega (arith, pow-suc 16 k)

-- A number with more than k hexadecimal digits is printed with more than k.
length-hex_fuel-lt : (k f n : ℕ) → k < f → 16 ^ k ≤ n → k < length (hex_fuel f n)
unfolding hex_fuel
length-hex_fuel-lt k zero n h g = absurd (omega arith)
length-hex_fuel-lt zero (suc f) n h g = hex_fuel-pos f n
length-hex_fuel-lt (suc k) (suc f) n h g = elim (Bool-cases (ltb n 16)) [
  | inl y ↦ absurd (grind (arith, pow-suc, pow_pos k))
  | inr m ↦
      rw (m, length)
        (omega (
          arith,
          length-append (hex_fuel f (n / 16)) (hex_digit (n % 16) ∷ []),
          length-hex_fuel-lt k f (n / 16) (omega arith) (div_step k n g),
        ))
]

pub length-hex_u32-lt : (n : ℕ) → 1048576 ≤ n → 5 < length (hex_u32 n)
unfolding hex_u32
length-hex_u32-lt n h = length-hex_fuel-lt 5 8 n (omega arith) h

hex_runs : hex_u32 0xdeadbeef ≡ 100 ∷ 101 ∷ 97 ∷ 100 ∷ 98 ∷ 101 ∷ 101 ∷ 102 ∷ []
unfolding hex_u32
hex_runs = refl
