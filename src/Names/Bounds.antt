-- ===== src/Names/Bounds.antt =====
-- How long the names are: no name passes the limit of a Kubernetes object name.
use solution_arsenal.Prelude.{
  ℕ, ◌-◌, ◌≤◌, ◌<◌, ◌≡◌, refl, ap, ◌⊎◌, inl, inr, true, false, ◌∷◌, ◌++◌, arith, leb, length, take,
  length-append, length-take, Bool-cases,
}
use solution_arsenal.Str.{Str, lit}
use solution_arsenal.Str.Hex.{hex_encode, length-hex_encode}
use solution_arsenal.Names.{
  at_least_ten, max_k8s_object_name_len, hash8, truncate_name, release_render_task_name,
  target_render_task_name, render_artifact_name, render_binding_name,
}

-- A sum of SHA-256 has 32 bytes.
module _ (sha256 : Str → Str) (length-sha256 : (s : Str) → length (sha256 s) ≡ 32) where
  pub length-hash8 : (s : Str) → length (hash8 sha256 s) ≡ 8
  unfolding hash8
  length-hash8 s =
      omega (
        arith,
        length-take 8 (hex_encode (sha256 s)),
        length-hex_encode (sha256 s),
        length-sha256 s,
      )

  pub length-truncate_cut :
      (name : Str) (n : ℕ)
      → 10 ≤ n
      → n < length name
      → length (take (n - 9) name ++ (45 ∷ hash8 sha256 name)) ≡ n
  length-truncate_cut name n h g = omega (
    arith,
    length-append (take (n - 9) name) (45 ∷ hash8 sha256 name),
    length-take (n - 9) name,
    length-hash8 name,
  )

  -- A name is truncated to the bound, or to ten bytes where the bound is less; a name that fits is
  -- kept; a name that does not fit fills the bound exactly.
  pub length-truncate_name :
      (name : Str) (max_len : ℕ)
      → (length name ≤ at_least_ten max_len → truncate_name sha256 name max_len ≡ name)
        × (at_least_ten max_len < length name
            → length (truncate_name sha256 name max_len) ≡ at_least_ten max_len)
  unfolding truncate_name
  length-truncate_name name max_len = (kept, cut)
    where
      n : ℕ
      n = at_least_ten max_len

      kept : length name ≤ at_least_ten max_len → truncate_name sha256 name max_len ≡ name
      kept h = let e : leb (length name) (at_least_ten max_len) ≡ true = ground arith in rw e refl

      ten : 10 ≤ at_least_ten max_len
      ten = ground arith

      cut :
          at_least_ten max_len < length name
          → length (truncate_name sha256 name max_len) ≡ at_least_ten max_len
      cut h =
          let e : leb (length name) (at_least_ten max_len) ≡ false = ground arith in
          rw e (length-truncate_cut name (at_least_ten max_len) ten h)

  truncate_name-le :
      (name : Str) (max_len : ℕ) → length (truncate_name sha256 name max_len) ≤ at_least_ten max_len
  truncate_name-le name max_len = split (Bool-cases (leb (length name) (at_least_ten max_len)))
    where
      split :
          (leb (length name) (at_least_ten max_len) ≡ true)
            ⊎ (leb (length name) (at_least_ten max_len) ≡ false)
          → length (truncate_name sha256 name max_len) ≤ at_least_ten max_len
      split (inl y) =
          let h : length name ≤ at_least_ten max_len = ground arith in
          omega (arith, h, ap length ((length-truncate_name name max_len).0 h))
      split (inr m) =
          let h : at_least_ten max_len < length name = ground arith in
          omega (arith, (length-truncate_name name max_len).1 h)

  -- The names of tasks have at most the 253 bytes of an object name, whatever they are made from,
  -- and the names of artifacts and of bindings always have 19 and 20.
  pub names_fit :
      (a b c d : Str) (n : ℕ)
      → (length (release_render_task_name sha256 a b c n) ≤ 253)
        × (length (target_render_task_name sha256 a n) ≤ 253)
        × (length (render_artifact_name sha256 a b c d) ≡ 19)
        × (length (render_binding_name sha256 a b) ≡ 20)
  unfolding release_render_task_name target_render_task_name render_artifact_name
      render_binding_name lit
  names_fit a b c d n = (
    truncate_name-le _ max_k8s_object_name_len,
    truncate_name-le _ max_k8s_object_name_len,
    omega (arith, length-hash8 _),
    omega (arith, length-hash8 _),
  )
