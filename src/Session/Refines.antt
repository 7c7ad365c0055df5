-- ===== src/Session/Refines.antt =====
-- The session store behaves as a map from cookies to sessions, for any sequence of requests.
use solution_arsenal.Prelude.{
  ◌≡◌, refl, ◌∙◌, ap, inl, inr, Bool, Bool-cases, true, false, Option, none, some, List, [], ◌∷◌,
  arith, if◌then◌else◌,
}
use solution_arsenal.Str.{Str, str_eq}
use solution_arsenal.Str.Laws.{str_eq_iff}
use solution_arsenal.Session.{
  SessionData, Sessions, Request, Cookie, session_cookie_of, generate_session_id, find_session,
  drop_session, put_session, change, get, set, impersonate, set_impersonation, set_can_impersonate,
  clear_impersonation, set_can_list_all_namespaces, clear,
}
use solution_arsenal.Session.Laws.{find_session-change, find_session-drop}

-- The operations of the store on its sessions. `sets` has the random bytes of the new session's name.
pub data Step : Type 0 where
  reads : Step
  sets : Str → SessionData → Step
  impersonates : Str → List Str → Step
  stops_impersonating : Step
  caches_impersonation : Bool → Step
  caches_listing : Bool → Step
  clears : Step

-- What the caller sees.
pub data Answer : Type 0 where
  session : Option SessionData → Answer
  found : Bool → Answer
  cookie : Cookie → Answer

abbrev finds : Sessions × Bool → Sessions × Answer
finds p = (p.0, found p.1)

abbrev gives : Sessions × Cookie → Sessions × Answer
gives p = (p.0, cookie p.1)

unfoldable pub step : Step → Request → Sessions → Sessions × Answer
unfolding get set set_impersonation clear_impersonation set_can_impersonate
    set_can_list_all_namespaces clear
step reads r l = (l, session (get l r))
step (sets bytes d) r l = gives (set bytes l d)
step (impersonates username groups) r l = finds (set_impersonation l r username groups)
step stops_impersonating r l = finds (clear_impersonation l r)
step (caches_impersonation allowed) r l = finds (set_can_impersonate l r allowed)
step (caches_listing allowed) r l = finds (set_can_list_all_namespaces l r allowed)
step clears r l = gives (clear l r)

-- The answers to a sequence of requests.
unfoldable pub serve : List (Step × Request) → Sessions → List Answer
unfolding step
serve [] l = []
serve ((op, r) ∷ ops) l = (step op r l).1 ∷ serve ops (step op r l).0

-- The specification: a map from cookies to sessions.
abbrev pub SessionMap : Type 0
SessionMap = Str → Option SessionData

abbrev pub store_at : Str → Option SessionData → SessionMap → SessionMap
store_at id o m i = if str_eq id i then o else m i

abbrev change_session : (SessionData → SessionData) → Option SessionData → Option SessionData
change_session f none = none
change_session f (some d) = some (f d)

abbrev is_there : Option SessionData → Bool
is_there none = false
is_there (some d) = true

abbrev pub update_at : (SessionData → SessionData) → Option Str → SessionMap → SessionMap × Answer
update_at f none m = (m, found false)
update_at f (some id) m = (store_at id (change_session f (m id)) m, found (is_there (m id)))

abbrev look_at : Option Str → SessionMap → Option SessionData
look_at none m = none
look_at (some id) m = m id

abbrev remove_at : Option Str → SessionMap → SessionMap
remove_at none m = m
remove_at (some id) m = store_at id none m

unfoldable pub step_map : Step → Request → SessionMap → SessionMap × Answer
unfolding impersonate generate_session_id
step_map reads r m = (m, session (look_at r.session_cookie m))
step_map (sets bytes d) r m = (
  store_at (generate_session_id bytes) (some d) m,
  cookie (session_cookie_of (generate_session_id bytes) (some 86400)),
)
step_map (impersonates username groups) r m =
    update_at (impersonate username groups) r.session_cookie m
step_map stops_impersonating r m = update_at (impersonate [] []) r.session_cookie m
step_map (caches_impersonation allowed) r m =
    update_at (λ d. record d { can_impersonate = some allowed }) r.session_cookie m
step_map (caches_listing allowed) r m =
    update_at (λ d. record d { can_list_all_namespaces = some allowed }) r.session_cookie m
step_map clears r m = (remove_at r.session_cookie m, cookie (session_cookie_of [] none))

unfoldable pub serve_map : List (Step × Request) → SessionMap → List Answer
unfolding step_map
serve_map [] m = []
serve_map ((op, r) ∷ ops) m = (step_map op r m).1 ∷ serve_map ops (step_map op r m).0

-- The store holds what the map says.
abbrev pub Implements : Sessions → SessionMap → Type 0
Implements l m = (id : Str) → find_session id l ≡ m id

-- A step on the store, and the same step on the map.
abbrev Agrees : Sessions × Answer → SessionMap × Answer → Type 0
Agrees p q = Implements p.0 q.0 × (p.1 ≡ q.1)

change-found :
    (f : SessionData → SessionData) (l : Sessions) (id : Str)
    → (change f l id).1 ≡ is_there (find_session id l)
unfolding change find_session
change-found f [] id = refl
change-found f ((i, d) ∷ l) id = ground (arith, change-found f l id)

module _ (l : Sessions) (m : SessionMap) (h : Implements l m) where
  update-Agrees :
      (f : SessionData → SessionData) (o : Option Str)
      → Agrees (finds (elim o [ none ↦ (l, false) | some id ↦ change f l id ])) (update_at f o m)
  update-Agrees f none = (h, refl)
  update-Agrees f (some id) = (
    λ i. find_session-change f l id i ∙ settle id i (find_session i l) (h i),
    ap found (change-found f l id ∙ ap is_there (h id)),
  )
    where
      changed :
          (o : Option SessionData)
          → elim o [ none ↦ none | some d ↦ some (f d) ] ≡ change_session f o
      changed none = refl
      changed (some d) = refl

      settle :
          (id i : Str) (o : Option SessionData)
          → o ≡ m i
          → (if str_eq id i then elim o [ none ↦ none | some d ↦ some (f d) ] else o)
            ≡ store_at id (change_session f (m id)) m i
      settle id i o e = elim (Bool-cases (str_eq id i)) [
        | inl y ↦ let k : id ≡ i = (str_eq_iff id i).0 y in rw (y, k, ← e) (changed o)
        | inr n ↦ rw n e
      ]

  get-Agrees : (o : Option Str) → elim o [ none ↦ none | some id ↦ find_session id l ] ≡ look_at o m
  get-Agrees none = refl
  get-Agrees (some id) = h id

  put-Implements :
      (id : Str) (d : SessionData) → Implements (put_session id d l) (store_at id (some d) m)
  unfolding put_session find_session
  put-Implements id d i = elim (Bool-cases (str_eq id i)) [
    | inl y ↦ rw y refl
    | inr n ↦ rw (n, find_session-drop l id i, n) (h i)
  ]

  clear-Implements :
      (o : Option Str)
      → Implements (elim o [ none ↦ l | some id ↦ drop_session id l ]) (remove_at o m)
  clear-Implements none i = h i
  clear-Implements (some id) i = elim (Bool-cases (str_eq id i)) [
    | inl y ↦ rw (find_session-drop l id i, y) refl
    | inr n ↦ rw (find_session-drop l id i, n) (h i)
  ]

  step-Agrees : (op : Step) (r : Request) → Agrees (step op r l) (step_map op r m)
  unfolding step step_map get set clear generate_session_id impersonate set_impersonation
      clear_impersonation set_can_impersonate set_can_list_all_namespaces
  step-Agrees reads r = (h, ap session (get-Agrees r.session_cookie))
  step-Agrees (sets bytes d) r = (put-Implements _ d, refl)
  step-Agrees (impersonates username groups) r = update-Agrees _ r.session_cookie
  step-Agrees stops_impersonating r = update-Agrees _ r.session_cookie
  step-Agrees (caches_impersonation allowed) r = update-Agrees _ r.session_cookie
  step-Agrees (caches_listing allowed) r = update-Agrees _ r.session_cookie
  step-Agrees clears r = (clear-Implements r.session_cookie, refl)

-- A store that holds what a map says answers every sequence of requests as the map does, found and
-- missing sessions and the cookies included.
pub serve-serve_map :
    (ops : List (Step × Request)) (l : Sessions) (m : SessionMap)
    → Implements l m
    → serve ops l ≡ serve_map ops m
unfolding serve serve_map
serve-serve_map [] l m h = refl
serve-serve_map ((op, r) ∷ ops) l m h =
    let (k, e) = step-Agrees l m h op r in
    rw (e, serve-serve_map ops (step op r l).0 (step_map op r m).0 k) refl
