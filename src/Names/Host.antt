-- ===== src/Names/Host.antt =====
-- The registry host of a repository.
use solution_arsenal.Prelude.{
  ◌≡◌, ◌≢◌, refl, ap, ◌∙◌, inl, inr, true, false, Option, none, some, [], ◌∷◌, ◌++◌, arith, All,
  Bool-cases,
}
use solution_arsenal.Str.{Str, lit, has_prefix, trim_prefix, cut_byte, to_lower, lower_byte}
use solution_arsenal.Str.Laws.{
  cut_byte-some-before, cut_byte-none, cut_byte_of_none, cut_byte-append, trim_prefix-append,
}
use solution_arsenal.Names.{oci_scheme, before_slash, registry_host}

abbrev NoSlash : Str → Type 0
NoSlash = All (λ c. c ≢ 47)

NoSlash-to_lower : (s : Str) → NoSlash s → NoSlash (to_lower s)
unfolding to_lower
NoSlash-to_lower [] h = tt
NoSlash-to_lower (c ∷ s) h = (lower h.0, NoSlash-to_lower s h.1)
  where
    lower : c ≢ 47 → lower_byte c ≢ 47
    lower k = ground arith

to_lower-to_lower : (s : Str) → to_lower (to_lower s) ≡ to_lower s
unfolding to_lower
to_lower-to_lower [] = refl
to_lower-to_lower (c ∷ s) = ground (arith, to_lower-to_lower s)

NoSlash-before_slash :
    (s : Str) (o : Option (Str × Str)) → cut_byte 47 s ≡ o → NoSlash (before_slash s o)
NoSlash-before_slash s none e = NoSlash-to_lower s (cut_byte-none 47 s e)
NoSlash-before_slash s (some (p, q)) e = NoSlash-to_lower p (cut_byte-some-before 47 s p q e)

has_prefix-NoSlash : (s p : Str) → has_prefix s p ≡ true → NoSlash s → NoSlash p
unfolding has_prefix
has_prefix-NoSlash s [] e h = tt
has_prefix-NoSlash [] (b ∷ p) e h = cc
has_prefix-NoSlash (a ∷ s) (b ∷ p) e h =
    (ground (arith, h.0), has_prefix-NoSlash s p (ground arith) h.1)

oci_scheme-slash : ¬ NoSlash oci_scheme
unfolding oci_scheme lit
oci_scheme-slash h = h.1.1.1.1.0 refl

-- A string with no slash does not begin with the scheme.
no_scheme : (s : Str) → NoSlash s → has_prefix s oci_scheme ≡ false
no_scheme s h = elim (Bool-cases (has_prefix s oci_scheme)) [
  | inl y ↦ absurd (oci_scheme-slash (has_prefix-NoSlash s oci_scheme y h))
  | inr n ↦ n
]

trim_no_scheme : (s : Str) → NoSlash s → trim_prefix s oci_scheme ≡ s
unfolding trim_prefix
trim_no_scheme s h = rw (no_scheme s h) refl

module _ (host path : Str) (h : NoSlash host) where
  -- The host of "<host>/<path>" is the host in lower case, with the scheme before it or without.
  pub registry_host-append :
      (registry_host (oci_scheme ++ (host ++ (47 ∷ path))) ≡ to_lower host)
      × (registry_host host ≡ to_lower host)
  unfolding registry_host
  registry_host-append = (
    ap (λ t. before_slash t (cut_byte 47 t)) (trim_prefix-append oci_scheme (host ++ (47 ∷ path)))
        ∙ ap (before_slash (host ++ (47 ∷ path))) (cut_byte-append 47 host path h),
    ap (λ t. before_slash t (cut_byte 47 t)) (trim_no_scheme host h)
        ∙ ap (before_slash host) (cut_byte_of_none 47 host h),
  )

registry_host-NoSlash : (r : Str) → NoSlash (registry_host r)
unfolding registry_host
registry_host-NoSlash r = NoSlash-before_slash (trim_prefix r oci_scheme) _ refl

lower-before_slash :
    (s : Str) (o : Option (Str × Str)) → to_lower (before_slash s o) ≡ before_slash s o
lower-before_slash s none = to_lower-to_lower s
lower-before_slash s (some (p, q)) = to_lower-to_lower p

-- The host is normalised: it holds no slash, and it is its own host.
pub registry_host_idem :
    (r : Str)
    → All (λ c. c ≢ 47) (registry_host r) × (registry_host (registry_host r) ≡ registry_host r)
registry_host_idem r = (
  registry_host-NoSlash r,
  (registry_host-append (registry_host r) [] (registry_host-NoSlash r)).1
      ∙ (unfold registry_host in lower-before_slash (trim_prefix r oci_scheme) _),
)
