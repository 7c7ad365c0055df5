-- ===== src/Controller/Libraries.antt =====
-- What the controllers call of other libraries: apimeta and apiequality of apimachinery, the parser of
-- image references of go-containerregistry, SHA-256, the quotation of a string by `%q`, the clock and
-- the intervals of cenkalti/backoff.
use solution_arsenal.Prelude.{ℕ, Bool, Option, List, Result}
use solution_arsenal.Str.{Str}
use solution_arsenal.Api.{Condition, Labels, LabelSelector, RenderTaskSpec, BootstrapInput}
use solution_arsenal.Cluster.{Error}

pub record Libraries : Type 0 where
  -- the conditions with a new one, and whether that changed them
  pub set_status_condition : List Condition → Condition → List Condition × Bool
  pub find_status_condition : List Condition → Str → Option Condition
  pub is_status_condition_true : List Condition → Str → Bool
  -- apiequality.Semantic.DeepEqual
  pub specs_equal : RenderTaskSpec → RenderTaskSpec → Bool
  pub inputs_equal : BootstrapInput → BootstrapInput → Bool
  -- `none` where the selector is invalid
  pub as_selector : LabelSelector → Option (Labels → Bool)
  -- why the selector of a binding's release is invalid
  pub selector_error : Str → Str
  -- the repository and the identifier of a reference
  pub parse_reference : Str → Result Error (Str × Str)
  pub quote : Str → Str
  pub sha256 : Str → Str
  pub now : ℕ
  pub next_back_off : ℕ → ℕ
