-- ===== src/Names/Tests.antt =====
-- Runs of the names with a sum that stands in for SHA-256, and the theorems at them.
use solution_arsenal.Prelude.{
  ℕ, zero, suc, ◌+◌, ◌-◌, ◌%◌, ◌≤◌, ◌≡◌, refl, [], ◌∷◌, arith, length, take,
}
use solution_arsenal.Str.{Str, lit, has_prefix, trim_prefix, trim_suffix_byte, cut_byte, to_lower}
use solution_arsenal.Str.Hex.{hex_encode}
use solution_arsenal.Str.Decimal.{decimal}
use solution_arsenal.Names.{
  at_least_ten, hash8, truncate_name, release_task_input, release_render_task_name,
  target_render_task_name, render_artifact_name, render_binding_name, oci_scheme, render_chart_url,
  registry_host,
}
use solution_arsenal.Names.Bounds.{names_fit}
use solution_arsenal.Names.Injective.{
  written, truncate_name-injective, release_render_task_name-injective,
}

byte_sum : Str → ℕ
byte_sum [] = 0
byte_sum (c ∷ s) = (c + byte_sum s) % 256

fill : ℕ → ℕ → Str
fill zero b = []
fill (suc n) b = b ∷ fill n b

sum : Str → Str
sum s = fill 32 (byte_sum s)

length-fill : (n b : ℕ) → length (fill n b) ≡ n
unfolding fill
length-fill zero b = refl
length-fill (suc n) b = omega (arith, length-fill n b)

length-sum : (s : Str) → length (sum s) ≡ 32
unfolding sum
length-sum s = length-fill 32 (byte_sum s)

running : Unit {0}
unfolding sum byte_sum fill hash8 truncate_name release_task_input release_render_task_name
    target_render_task_name render_artifact_name render_chart_url registry_host oci_scheme
    hex_encode decimal lit has_prefix trim_prefix trim_suffix_byte cut_byte to_lower
running = tt

name_runs :
    (target_render_task_name sum (lit "edge") 12 ≡ lit "render-tgt-edge-12")
    × (truncate_name sum (lit "abcdefghijkl") 10 ≡ lit "a-cececece")
    × (render_chart_url (lit "reg.io/") (lit "ns/chart") (lit "v1")
        ≡ lit "oci://reg.io/ns/chart:v1")
    × (registry_host (lit "oci://Reg.IO:5000/foo/bar") ≡ lit "reg.io:5000")
unfolding running
name_runs = (refl, refl, refl, refl)

names_fit_example :
    (length (release_render_task_name sum (lit "a") (lit "b") (lit "c") 1) ≤ 253)
    × (length (target_render_task_name sum (lit "a") 1) ≤ 253)
    × (length (render_artifact_name sum (lit "a") (lit "b") (lit "c") (lit "d")) ≡ 19)
    × (length (render_binding_name sum (lit "a") (lit "b")) ≡ 20)
names_fit_example = names_fit sum length-sum (lit "a") (lit "b") (lit "c") (lit "d") 1

truncate_name-injective_example :
    (take (at_least_ten 10 - 9) (lit "abcdefghijkl")
      ≡ take (at_least_ten 10 - 9) (lit "abcdefghijlk"))
    × (hash8 sum (lit "abcdefghijkl") ≡ hash8 sum (lit "abcdefghijlk"))
unfolding running
truncate_name-injective_example =
    truncate_name-injective sum length-sum (lit "abcdefghijkl") (lit "abcdefghijlk") 10
      (omega arith) (omega arith) refl

release_render_task_name-injective_example :
    (lit "app" ≡ lit "app")
    × (hash8 sum (written (lit "ns") (lit "app") (lit "edge") 1)
        ≡ hash8 sum (written (lit "sn") (lit "app") (lit "gede") 1))
unfolding running
release_render_task_name-injective_example =
    release_render_task_name-injective sum length-sum (lit "ns") (lit "app") (lit "edge") (lit "sn")
      (lit "app") (lit "gede") 1 1 (omega arith) (omega arith) refl
