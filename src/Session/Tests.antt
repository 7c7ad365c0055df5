-- ===== src/Session/Tests.antt =====
-- Runs of the session store, and its theorems at them.
use solution_arsenal.Prelude.{◌≡◌, ◌≢◌, refl, true, false, none, some, List, [], ◌∷◌}
use solution_arsenal.Str.{Str, lit, str_eq}
use solution_arsenal.Str.Hex.{hex_encode}
use solution_arsenal.Session.{
  SessionData, Sessions, Request, get, find_session, drop_session, put_session, generate_session_id,
  set, clear, change, impersonate, set_impersonation, set_can_impersonate, clear_impersonation,
  set_can_list_all_namespaces,
}
use solution_arsenal.Session.Laws.{request, get-set}
use solution_arsenal.Session.Refines as Refines
use solution_arsenal.Session.Refines.{sets, reads, serve, serve_map, serve-serve_map}
use solution_arsenal.Session.Caches.{
  impersonates, caches_impersonation, apply, run, listing, run-listing,
}

abbrev user : SessionData
user = record {
  username = lit "ann";
  groups = [];
  id_token = [];
  access_token = [];
  impersonating_as = [];
  impersonating_groups = [];
  can_impersonate = none;
  can_list_all_namespaces = some true;
}

abbrev store : Sessions
store = (lit "s1", user) ∷ []

running : Unit {0}
unfolding get find_session drop_session put_session generate_session_id set clear change impersonate
    set_impersonation set_can_impersonate clear_impersonation set_can_list_all_namespaces apply run
    lit str_eq hex_encode
running = tt

session_runs :
    (listing (lit "s1") store ≡ some true)
    × (listing (lit "s1") (set_impersonation store (request (lit "s1")) (lit "bob") []).0 ≡ none)
    × ((set_impersonation store (request (lit "s2")) (lit "bob") []).1 ≡ false)
unfolding running
session_runs = (refl, refl, refl)

get-set_example :
    (get (set (lit "rnd") store user).0 (request (set (lit "rnd") store user).1.value) ≡ some user)
    × ((i : Str)
        → i ≢ (set (lit "rnd") store user).1.value
        → get (set (lit "rnd") store user).0 (request i) ≡ get store (request i))
get-set_example = get-set (lit "rnd") store user

run-listing_example :
    listing (lit "s1") (
      run
        ((impersonates (lit "bob") [], lit "s1") ∷ (caches_impersonation true, lit "s1") ∷ [])
        store)
    ≡ none
run-listing_example =
    run-listing (impersonates (lit "bob") []) ((caches_impersonation true, lit "s1") ∷ [])
      (lit "s1") store refl (tt, tt)

abbrev requests : List (Refines.Step × Request)
requests =
    (sets (lit "rnd") user, request [])
    ∷ (Refines.impersonates (lit "bob") [], request (lit "s1"))
    ∷ (reads, request (lit "s1"))
    ∷ []

serve-serve_map_example : serve requests store ≡ serve_map requests (λ id. find_session id store)
serve-serve_map_example = serve-serve_map requests store (λ id. find_session id store) (λ id. refl)
