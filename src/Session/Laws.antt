-- ===== src/Session/Laws.antt =====
-- A session is only seen and changed under its own cookie.
use solution_arsenal.Prelude.{◌≡◌, ◌≢◌, sym, none, some, [], ◌∷◌, arith, if◌then◌else◌}
use solution_arsenal.Str.{Str, str_eq}
use solution_arsenal.Str.Laws.{str_eq_iff, str_eq_self}
use solution_arsenal.Session.{
  SessionData, Sessions, Request, find_session, drop_session, put_session, get, generate_session_id,
  set, change, clear,
}

abbrev pub request : Str → Request
request id = record { session_cookie = some id; state_cookie = none }

-- What `change` does is seen in the session of that name, and in no other.
pub find_session-change :
    (f : SessionData → SessionData) (l : Sessions) (id i : Str)
    → find_session i (change f l id).0 ≡ (
        if str_eq id i
        then elim (find_session i l) [ none ↦ none | some d ↦ some (f d) ]
        else find_session i l)
unfolding find_session change
find_session-change f [] id i = ground arith
find_session-change f ((j, d) ∷ l) id i =
    ground (arith, find_session-change f l id i, str_eq_iff j id, str_eq_iff id i, str_eq_iff j i)

pub find_session-drop :
    (l : Sessions) (id i : Str)
    → find_session i (drop_session id l) ≡ (if str_eq id i then none else find_session i l)
unfolding find_session drop_session
find_session-drop [] id i = ground arith
find_session-drop ((j, d) ∷ l) id i =
    ground (arith, find_session-drop l id i, str_eq_iff j id, str_eq_iff id i, str_eq_iff j i)

-- The session that is set is read back under the cookie that comes with it, and every other session
-- is what it was.
pub get-set :
    (bytes : Str) (l : Sessions) (d : SessionData)
    → (get (set bytes l d).0 (request (set bytes l d).1.value) ≡ some d)
      × ((i : Str)
          → i ≢ (set bytes l d).1.value
          → get (set bytes l d).0 (request i) ≡ get l (request i))
unfolding get set put_session find_session
get-set bytes l d =
    let id = generate_session_id bytes in
    (
      ground (arith, str_eq_self id),
      λ i h. ground (arith, str_eq_iff id i, find_session-drop l id i, λ (e : id ≡ i). h (sym e)),
    )

-- A session that is cleared is gone, and every other session is what it was.
pub get-clear :
    (l : Sessions) (id : Str)
    → (get (clear l (request id)).0 (request id) ≡ none)
      × ((i : Str) → i ≢ id → get (clear l (request id)).0 (request i) ≡ get l (request i))
unfolding get clear
get-clear l id = (
  ground (arith, str_eq_self id, find_session-drop l id id),
  λ i h. ground (arith, str_eq_iff id i, find_session-drop l id i, λ (e : id ≡ i). h (sym e)),
)
