-- ===== src/Api/Meta.antt =====
-- What Kubernetes itself defines: object metadata, owner references, conditions and selectors.
use solution_arsenal.Prelude.{ℕ, Bool, Option, List}
use solution_arsenal.Str.{Str}

pub record OwnerReference : Type 0 where
  pub api_version : Str
  pub kind : Str
  pub name : Str
  pub uid : Str

abbrev pub Labels : Type 0
Labels = List (Str × Str)

pub record ObjectMeta : Type 0 where
  pub name : Str
  -- the prefix of a name that the API server makes up
  pub generate_name : Str
  pub namespace : Str
  pub uid : Str
  pub generation : ℕ
  pub deleting : Bool
  pub finalizers : List Str
  pub labels : Labels
  -- the owner reference that metav1.GetControllerOf returns
  pub controller : Option OwnerReference

pub record LabelSelectorRequirement : Type 0 where
  pub key : Str
  pub operator : Str
  pub values : List Str

pub record LabelSelector : Type 0 where
  pub match_labels : Labels
  pub match_expressions : List LabelSelectorRequirement

pub record Condition : Type 0 where
  pub condition_type : Str
  pub status : Bool
  pub observed_generation : ℕ
  pub reason : Str
  pub message : Str
  -- in nanoseconds; 0 is the zero time
  pub last_transition_time : ℕ
