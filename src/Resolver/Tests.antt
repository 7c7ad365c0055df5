-- ===== src/Resolver/Tests.antt =====
-- Runs of the resolver on four bindings, and its theorems at them. The selector that stands in for
-- the one of Kubernetes reads `match_labels` and refuses one with expressions.
use mathlib.Core.List.{Permᴰ}
use solution_arsenal.Prelude.{
  ℕ, sym, ap, ◌∙◌, ◌+◌, ◌<◌, ◌≡◌, ◌≢◌, refl, Bool, false, ◌&&◌, Option, none, some, List, [], ◌∷◌,
  ◌++◌, arith, length, map, all, any, Memᴰ, All, Pairwise, ltb, if◌then◌else◌,
}
use solution_arsenal.Str.{Str, lit, str_eq, str_lt, contains_str}
use solution_arsenal.Str.Laws.{str_eq_iff}
use solution_arsenal.Api.{Release, ComponentVersion, LabelSelector, Labels}
use solution_arsenal.Api.Integer.{pos}
use solution_arsenal.Resolver.{
  ReleaseInfo, lower_priority, anti_affinity, effective_unique_name, by_priority, insert_sorted,
  sort_by, with_unique_name, unique_names, named_group, lose, pick_group, pick_groups, selector_of,
  find_conflict, filter_affinity, resolve_release_conflicts,
}
use solution_arsenal.Resolver.Affinity.{clash}
use solution_arsenal.Resolver.Outcome.{
  resolve-unique_names, resolve-clash, resolve-Memᴰ, resolve-IsSettled, IsSettled,
}
use solution_arsenal.Resolver.Confluence.{KeysDiffer, resolve-perm}
use solution_arsenal.Resolver.Count.{resolve-length}

has_label : Labels → Str × Str → Bool
has_label labels (k, v) = any (λ (l : Str × Str). str_eq l.0 k && str_eq l.1 v) labels

match_labels : LabelSelector → Option (Labels → Bool)
match_labels s =
    if ltb 0 (length s.match_expressions)
    then none
    else some (λ labels. all (has_label labels) s.match_labels)

abbrev cv : Str → ComponentVersion
cv component = record {
  meta = record {
    name = lit "cv";
    namespace = lit "ns";
    uid = lit "u";
    generation = 1;
    generate_name = [];
    deleting = false;
    finalizers = [];
    labels = [];
    controller = none;
  };
  component_ref = component;
  tag = lit "v1";
  resources = [];
  entrypoint = record { resource_name = lit "chart"; entrypoint_type = lit "helm" };
}

abbrev release : Str → ℕ → Labels → Option LabelSelector → Release
release n p labels rule = record {
  meta = record {
    name = n;
    namespace = lit "ns";
    uid = n;
    generation = 1;
    generate_name = [];
    deleting = false;
    finalizers = [];
    labels = labels;
    controller = none;
  };
  spec = record {
    component_version_ref = lit "cv";
    component_version_namespace = [];
    target_namespace = none;
    unique_name = [];
    anti_affinity = rule;
    values = [];
    failed_job_ttl = none;
    priority = pos p;
  };
  conditions = [];
  effective_unique_name = [];
}

abbrev bound : Str → Str → ℕ → Labels → Option LabelSelector → ReleaseInfo
bound n component p labels rule = record {
  binding_key = lit "ns/" ++ n;
  name = n;
  unique_name = [];
  release = release n p labels rule;
  cv = cv component;
  rt_name = [];
  chart_url = [];
  artifact_name = [];
  artifact_binding_name = [];
}

abbrev gpu : Labels
gpu = (lit "uses", lit "gpu") ∷ []

abbrev no_gpu : Option LabelSelector
no_gpu = some (record { match_labels = gpu; match_expressions = [] })

-- Two releases of one component; a third that cannot stand beside a fourth that uses the GPU.
abbrev db_old : ReleaseInfo
db_old = bound (lit "a") (lit "db") 1 [] none

abbrev db_new : ReleaseInfo
db_new = bound (lit "b") (lit "db") 2 [] none

abbrev web : ReleaseInfo
web = bound (lit "c") (lit "web") 9 [] no_gpu

abbrev ai : ReleaseInfo
ai = bound (lit "d") (lit "ai") 3 gpu none

abbrev four : List ReleaseInfo
four = db_old ∷ db_new ∷ ai ∷ web ∷ []

running : Unit {0}
unfolding has_label match_labels effective_unique_name by_priority insert_sorted sort_by
    with_unique_name unique_names named_group lose pick_group pick_groups selector_of find_conflict
    filter_affinity resolve_release_conflicts lit str_eq str_lt contains_str clash
running = tt

four_run : resolve_release_conflicts match_labels four ≡ (
  with_unique_name web ∷ with_unique_name db_new ∷ [],
  lower_priority (lit "ns/a") (lit "db") (lit "ns/b")
      ∷ anti_affinity (lit "ns/d") (lit "ns/c")
      ∷ [],
)
unfolding running
four_run = refl

resolve-unique_names_example :
    Pairwise (λ a b. a.unique_name ≢ b.unique_name) (resolve_release_conflicts match_labels four).0
resolve-unique_names_example = resolve-unique_names four match_labels

four_keys : All (λ r. 0 < length r.binding_key) four
unfolding running
four_keys = (omega arith, (omega arith, (omega arith, (omega arith, tt))))

resolve-clash_example :
    Pairwise (λ a b. clash match_labels a b ≡ false) (resolve_release_conflicts match_labels four).0
resolve-clash_example = resolve-clash four match_labels four_keys

resolve-Memᴰ_example :
    All (λ r. Memᴰ r (map with_unique_name four)) (resolve_release_conflicts match_labels four).0
resolve-Memᴰ_example = resolve-Memᴰ four match_labels

resolve-IsSettled_example :
    IsSettled four match_labels
      (with_unique_name db_old)
      (resolve_release_conflicts match_labels four).0
resolve-IsSettled_example =
    resolve-IsSettled four match_labels (with_unique_name db_old) (Memᴰ.head refl)

resolve-length_example :
    length (resolve_release_conflicts match_labels four).0
      + length (resolve_release_conflicts match_labels four).1
    ≡ 4
resolve-length_example = resolve-length match_labels four

abbrev two : List ReleaseInfo
two = db_old ∷ db_new ∷ []

key : ReleaseInfo → Str
key r = r.binding_key

other_key : db_old.binding_key ≢ db_new.binding_key
unfolding running
other_key p = cc ((str_eq_iff db_old.binding_key db_new.binding_key).1 p)

two_keys : KeysDiffer two
unfolding key
two_keys a b (Memᴰ.head e) (Memᴰ.head f) h = e ∙ sym f
two_keys a b (Memᴰ.head e) (Memᴰ.tail (Memᴰ.head f)) h =
    elim (other_key (sym (ap key e) ∙ h ∙ ap key f)) [ ]
two_keys a b (Memᴰ.tail (Memᴰ.head e)) (Memᴰ.head f) h =
    elim (other_key (sym (ap key f) ∙ sym h ∙ ap key e)) [ ]
two_keys a b (Memᴰ.tail (Memᴰ.head e)) (Memᴰ.tail (Memᴰ.head f)) h = e ∙ sym f
two_keys a b (Memᴰ.head e) (Memᴰ.tail (Memᴰ.tail m)) h = elim m [ ]
two_keys a b (Memᴰ.tail (Memᴰ.head e)) (Memᴰ.tail (Memᴰ.tail m)) h = elim m [ ]
two_keys a b (Memᴰ.tail (Memᴰ.tail m)) _ h = elim m [ ]

resolve-perm_example :
    resolve_release_conflicts match_labels two
    ≡ resolve_release_conflicts match_labels (db_new ∷ db_old ∷ [])
resolve-perm_example = resolve-perm match_labels (Permᴰ.swap refl refl) two_keys
