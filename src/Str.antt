-- ===== src/Str.antt =====
-- Go strings as sequences of bytes, with the functions of the standard library (package strings,
-- `%d` of package fmt) that the source calls. ToLower is read on ASCII text.
pub mod Order
pub mod Laws
pub mod Decimal
pub mod Splits
pub mod Hex
use Prim.Native.Char.{code}
use Prim.Native.String as NativeString
use solution_arsenal.Prelude.{
  ℕ, zero, suc, ◌+◌, ◌-◌, Bool, true, false, ◌&&◌, ◌||◌, Option, none, some, List, [], ◌∷◌, ◌++◌,
  map, String, ltb, leb, ◌==◌, length, take, if◌then◌else◌,
}

abbrev pub Str : Type 0
Str = List ℕ

-- The bytes of an ASCII literal.
unfoldable pub lit : String → Str
lit String.[] = []
lit (String.◌∷◌ c s) = code c ∷ lit s

-- a == b
unfoldable pub str_eq : Str → Str → Bool
str_eq [] [] = true
str_eq (a ∷ s) (b ∷ t) = a == b && str_eq s t
str_eq _ _ = false

-- a < b, bytewise
unfoldable pub str_lt : Str → Str → Bool
str_lt [] [] = false
str_lt [] (b ∷ t) = true
str_lt (a ∷ s) [] = false
str_lt (a ∷ s) (b ∷ t) = ltb a b || (a == b && str_lt s t)

-- slices.Contains on strings
unfoldable pub contains_str : Str → List Str → Bool
unfolding str_eq
contains_str s [] = false
contains_str s (t ∷ ts) = str_eq t s || contains_str s ts

-- strings.HasPrefix s p
unfoldable pub has_prefix : Str → Str → Bool
has_prefix s [] = true
has_prefix [] (b ∷ p) = false
has_prefix (a ∷ s) (b ∷ p) = a == b && has_prefix s p

abbrev pub drop : ℕ → Str → Str
drop zero s = s
drop (suc n) [] = []
drop (suc n) (a ∷ s) = drop n s

-- strings.TrimPrefix s p
unfoldable pub trim_prefix : Str → Str → Str
unfolding has_prefix
trim_prefix s p = if has_prefix s p then drop (length p) s else s

-- strings.TrimSuffix s "b", for a suffix of one byte
unfoldable pub trim_suffix_byte : ℕ → Str → Str
trim_suffix_byte b [] = []
trim_suffix_byte b (a ∷ []) = if a == b then [] else a ∷ []
trim_suffix_byte b (a ∷ c ∷ s) = a ∷ trim_suffix_byte b (c ∷ s)

-- strings.Cut s "b": the parts before and after the first byte b
unfoldable pub cut_byte : ℕ → Str → Option (Str × Str)
cut_byte b [] = none
cut_byte b (a ∷ s) = elim (a == b) [
  | true ↦ some ([], s)
  | false ↦ elim (cut_byte b s) [ none ↦ none | some (p, q) ↦ some (a ∷ p, q) ]
]

-- strings.Contains s p
unfoldable pub contains : Str → Str → Bool
unfolding has_prefix
contains [] p = has_prefix [] p
contains (a ∷ s) p = has_prefix (a ∷ s) p || contains s p

abbrev pub cons_head : ℕ → List Str → List Str
cons_head a [] = (a ∷ []) ∷ []
cons_head a (p ∷ ps) = (a ∷ p) ∷ ps

-- strings.Split s (b ∷ p): `skip` counts the bytes of a separator that are still to be passed
unfoldable pub split_from : ℕ → Str → ℕ → Str → List Str
unfolding has_prefix
split_from b p skip [] = [] ∷ []
split_from b p (suc skip) (a ∷ s) = split_from b p skip s
split_from b p zero (a ∷ s) = elim (has_prefix (a ∷ s) (b ∷ p)) [
  | true ↦ [] ∷ split_from b p (length p) s
  | false ↦ cons_head a (split_from b p zero s)
]

unfoldable pub split : Str → Str → List Str
unfolding split_from
split s [] = s ∷ []
split s (b ∷ p) = split_from b p 0 s

-- unicode.ToLower on one ASCII byte
abbrev pub lower_byte : ℕ → ℕ
lower_byte c = if leb 65 c && leb c 90 then c + 32 else c

-- strings.ToLower on ASCII text
unfoldable pub to_lower : Str → Str
to_lower = map lower_byte
