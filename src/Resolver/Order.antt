-- ===== src/Resolver/Order.antt =====
-- The order of releases by priority and binding key is a strict order that tells binding keys apart.
use solution_arsenal.Prelude.{
  ◌≡◌, inl, inr, true, false, not, arith, Bool, Bool-cases, if◌then◌else◌,
}
use solution_arsenal.Str.{Str, str_lt}
use solution_arsenal.Str.Order.{str_lt_asymm, str_lt_total, str_lt_trans}
use solution_arsenal.Api.{ℤ}
use solution_arsenal.Api.Integer.{pos, negsuc, int_lt, int_eq}
use solution_arsenal.Resolver.{ReleaseInfo, by_priority}

-- The negation of the bytewise order is transitive.
pub str_lt_not_trans : (a b c : Str) → str_lt b a ≡ false → str_lt c b ≡ false → str_lt c a ≡ false
str_lt_not_trans a b c h k = elim (Bool-cases (str_lt c a)) [
  | inr n ↦ n
  | inl y ↦ elim (Bool-cases (str_lt a b)) [
    | inl ab ↦ cc (str_lt_trans c a b y ab)
    | inr ba ↦ cc (str_lt_total a b ba h)
  ]
]

-- The test of byPriority on the priorities and the keys alone.
ranks : ℤ → Str → ℤ → Str → Bool
ranks p s q t = if not (int_eq p q) then int_lt q p else str_lt s t

module _ (s t : Str) where
  ranks_asymm : (p q : ℤ) → ranks p s q t ≡ true → ranks q t p s ≡ false
  unfolding ranks
  ranks_asymm (pos m) (pos n) h = ground (arith, str_lt_asymm s t)
  ranks_asymm (pos m) (negsuc n) h = ground (arith, str_lt_asymm s t)
  ranks_asymm (negsuc m) (pos n) h = ground (arith, str_lt_asymm s t)
  ranks_asymm (negsuc m) (negsuc n) h = ground (arith, str_lt_asymm s t)

  ranks_total : (p q : ℤ) → ranks p s q t ≡ false → ranks q t p s ≡ false → (p ≡ q) × (s ≡ t)
  unfolding ranks
  ranks_total (pos m) (pos n) h k = ground (arith, str_lt_total s t)
  ranks_total (pos m) (negsuc n) h k = ground arith
  ranks_total (negsuc m) (pos n) h k = ground arith
  ranks_total (negsuc m) (negsuc n) h k = ground (arith, str_lt_total s t)

  ranks_not_trans :
      (u : Str) (p q r : ℤ) → ranks q t p s ≡ false → ranks r u q t ≡ false → ranks r u p s ≡ false
  unfolding ranks
  ranks_not_trans u (pos m) (pos n) (pos o) h k = ground (arith, str_lt_not_trans s t u)
  ranks_not_trans u (negsuc m) (negsuc n) (negsuc o) h k = ground (arith, str_lt_not_trans s t u)
  ranks_not_trans u _ _ _ h k = ground arith

pub by_priority_asymm : (a b : ReleaseInfo) → by_priority a b ≡ true → by_priority b a ≡ false
unfolding by_priority ranks
by_priority_asymm a b =
    ranks_asymm a.binding_key b.binding_key a.release.spec.priority b.release.spec.priority

-- Releases that are ordered neither way have one priority and one binding key.
pub by_priority_total :
    (a b : ReleaseInfo)
    → by_priority a b ≡ false
    → by_priority b a ≡ false
    → (a.release.spec.priority ≡ b.release.spec.priority) × (a.binding_key ≡ b.binding_key)
unfolding by_priority ranks
by_priority_total a b =
    ranks_total a.binding_key b.binding_key a.release.spec.priority b.release.spec.priority

pub by_priority_not_trans :
    (a b c : ReleaseInfo)
    → by_priority b a ≡ false
    → by_priority c b ≡ false
    → by_priority c a ≡ false
unfolding by_priority ranks
by_priority_not_trans a b c =
    ranks_not_trans a.binding_key b.binding_key c.binding_key a.release.spec.priority
      b.release.spec.priority c.release.spec.priority
