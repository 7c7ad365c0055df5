-- ===== src/Names/Injective.antt =====
-- When two names are the same.
use solution_arsenal.Prelude.{
  ℕ, ◌+◌, ◌-◌, ◌≤◌, ◌<◌, ◌≡◌, refl, sym, ap, ◌∙◌, false, ◌∷◌, ◌++◌, arith, leb, length, take,
  length-append,
}
use mathlib.Core.List.{append_assoc}
use solution_arsenal.Str.{Str, lit}
use solution_arsenal.Str.Laws.{append-eq_right, append-cancel}
use solution_arsenal.Str.Decimal.{decimal, decimal-injective}
use solution_arsenal.Names.{
  at_least_ten, hash8, truncate_name, release_render_task_name, release_task_input,
  target_render_task_name, render_artifact_name,
}
use solution_arsenal.Names.Bounds.{length-hash8, length-truncate_name}

-- "namespace/release-target-generation"
abbrev pub written : (namespace release target : Str) → ℕ → Str
written namespace release target generation =
    namespace ++ (b'/' ∷ (release ++ (b'-' ∷ (target ++ (b'-' ∷ decimal generation)))))

release_task_input-written :
    (sha256 : Str → Str) (ns rel target : Str) (g : ℕ)
    → release_task_input sha256 ns rel target g ≡ written ns rel target g
unfolding release_task_input
release_task_input-written sha256 ns rel target g = refl

module _ (sha256 : Str → Str) (length-sha256 : (s : Str) → length (sha256 s) ≡ 32) where
  -- Names that are both too long are truncated to one name only if they agree in all but the last
  -- nine bytes that are kept, and if their hashes collide.
  pub truncate_name-injective :
      (a b : Str) (max_len : ℕ)
      → at_least_ten max_len < length a
      → at_least_ten max_len < length b
      → truncate_name sha256 a max_len ≡ truncate_name sha256 b max_len
      → (take (at_least_ten max_len - 9) a ≡ take (at_least_ten max_len - 9) b)
        × (hash8 sha256 a ≡ hash8 sha256 b)
  unfolding truncate_name
  truncate_name-injective a b max_len ha hb e =
      let ta : leb (length a) (at_least_ten max_len) ≡ false = ground arith in
      let tb : leb (length b) (at_least_ten max_len) ≡ false = ground arith in
      let (p, q) =
        append-eq_right (take (at_least_ten max_len - 9) a) (45 ∷ hash8 sha256 a)
          (take (at_least_ten max_len - 9) b) (45 ∷ hash8 sha256 b)
          (omega (arith, length-hash8 sha256 length-sha256 a, length-hash8 sha256 length-sha256 b))
          (rw (ta, tb) at e) in
      (p, cc q)

  -- The bootstrap tasks of two versions of one target have different names, where the names fit.
  pub target_render_task_name-injective :
      (target : Str) (m n : ℕ)
      → length target + length (decimal m) ≤ 241
      → length target + length (decimal n) ≤ 241
      → target_render_task_name sha256 target m ≡ target_render_task_name sha256 target n
      → m ≡ n
  unfolding target_render_task_name
  target_render_task_name-injective target m n hm hn e = decimal-injective m n (
      cc (
        append-cancel target (45 ∷ decimal m) (45 ∷ decimal n) (
          append-cancel (lit "render-tgt-") _ _ (
            sym ((length-truncate_name sha256 length-sha256 _ 253).0 (fits m hm))
            ∙ e
            ∙ (length-truncate_name sha256 length-sha256 _ 253).0 (fits n hn)))))
    where
      fits :
          (k : ℕ)
          → length target + length (decimal k) ≤ 241
          → length (lit "render-tgt-" ++ (target ++ (45 ∷ decimal k))) ≤ 253
      fits k h = unfold lit in omega (arith, length-append target (45 ∷ decimal k))

  -- Release tasks with one name are of releases with one name, and the texts
  -- "namespace/release-target-generation" of the two have one hash, where the names fit.
  pub release_render_task_name-injective :
      (ns rel target ns' rel' target' : Str) (g g' : ℕ)
      → length rel ≤ 233
      → length rel' ≤ 233
      → release_render_task_name sha256 ns rel target g
        ≡ release_render_task_name sha256 ns' rel' target' g'
      → (rel ≡ rel')
        × (hash8 sha256 (written ns rel target g) ≡ hash8 sha256 (written ns' rel' target' g'))
  unfolding release_render_task_name
  release_render_task_name-injective ns rel target ns' rel' target' g g' h h' e =
      let (p, q) =
        append-eq_right rel _ rel' _
          (omega (arith, length-hash8 sha256 length-sha256 _, length-hash8 sha256 length-sha256 _))
          (append-cancel (lit "render-rel-") _ _ (
            sym ((length-truncate_name sha256 length-sha256 _ 253).0 (fits rel _ h))
            ∙ e
            ∙ (length-truncate_name sha256 length-sha256 _ 253).0 (fits rel' _ h'))) in
      (
        p,
        cc (
          q,
          release_task_input-written sha256 ns rel target g,
          release_task_input-written sha256 ns' rel' target' g',
        ),
      )
    where
      fits :
          (r s : Str)
          → length r ≤ 233
          → length (lit "render-rel-" ++ (r ++ (45 ∷ hash8 sha256 s))) ≤ 253
      fits r s k =
          unfold lit in
          omega (arith, length-append r (45 ∷ hash8 sha256 s), length-hash8 sha256 length-sha256 s)

-- The artifact's name depends on the base URL and the repository only through the path that they
-- make together.
pub render_artifact_name-path :
    (sha256 : Str → Str) (ns u v r tag : Str)
    → render_artifact_name sha256 ns (u ++ (47 ∷ v)) r tag
      ≡ render_artifact_name sha256 ns u (v ++ (47 ∷ r)) tag
unfolding render_artifact_name
render_artifact_name-path sha256 ns u v r tag =
    ap (λ t. lit "render-art-" ++ hash8 sha256 (ns ++ (47 ∷ t))) (simp append_assoc)
