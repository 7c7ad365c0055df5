-- ===== src/Session.antt =====
-- The session store of the web interface (pkg/ui/session/store.go). The map of sessions is an
-- association list without repeated keys in mind; the random bytes and hex.DecodeString, which are
-- not in this repository, are parameters. A request is known by its two cookies, and an answer by
-- the cookies that it sets. The lock makes every operation one step.
pub mod Laws
pub mod Caches
pub mod Refines
mod Tests
use solution_arsenal.Prelude.{
  ℕ, Bool, true, false, not, Option, none, some, List, [], ◌∷◌, ◌++◌, Result, ok, err, ◌==◌, length,
  keep, if◌then◌else◌,
}
use solution_arsenal.Str.{Str, lit, str_eq}
use solution_arsenal.Str.Hex.{hex_encode}

pub record SessionData : Type 0 where
  pub username : Str
  pub groups : List Str
  pub id_token : Str
  pub access_token : Str
  pub impersonating_as : Str
  pub impersonating_groups : List Str
  pub can_impersonate : Option Bool
  pub can_list_all_namespaces : Option Bool

abbrev pub Sessions : Type 0
Sessions = List (Str × SessionData)

pub record Store : Type 0 where
  pub sessions : Sessions
  pub key : Str

pub record Request : Type 0 where
  pub session_cookie : Option Str
  pub state_cookie : Option Str

-- http.Cookie: every one of them is HttpOnly, Secure and SameSite=Lax.
pub record Cookie : Type 0 where
  pub name : Str
  pub value : Str
  pub path : Str
  pub max_age : Option ℕ

unfoldable pub cookie_name : Str
cookie_name = lit "solar-session"

unfoldable pub state_cookie_name : Str
state_cookie_name = lit "solar-oidc-state"

pub data KeyError : Type 0 where
  invalid_session_key : KeyError
  wrong_key_length : ℕ → KeyError
  no_random_key : KeyError

-- `decode` is hex.DecodeString, and `random` what rand.Read gives for 32 bytes.
unfoldable pub new_store : (Str → Option Str) → Option Str → Str → Result KeyError Store
new_store decode random [] = elim random [
  | none ↦ err no_random_key
  | some key ↦ ok (record { sessions = []; key = key })
]
new_store decode random (c ∷ hex) = elim (decode (c ∷ hex)) [
  | none ↦ err invalid_session_key
  | some key ↦
      if length key == 32
      then ok (record { sessions = []; key = key })
      else err (wrong_key_length (length key))
]

-- s.sessions[id]
unfoldable pub find_session : Str → Sessions → Option SessionData
find_session id [] = none
find_session id ((i, d) ∷ l) = let rest = find_session id l in if str_eq i id then some d else rest

-- delete(s.sessions, id)
unfoldable pub drop_session : Str → Sessions → Sessions
drop_session id = keep (λ (p : Str × SessionData). not (str_eq p.0 id))

-- s.sessions[id] = data
unfoldable pub put_session : Str → SessionData → Sessions → Sessions
unfolding drop_session
put_session id d l = (id, d) ∷ drop_session id l

unfoldable pub get : Sessions → Request → Option SessionData
unfolding find_session
get l r = elim r.session_cookie [ none ↦ none | some id ↦ find_session id l ]

abbrev pub session_cookie_of : Str → Option ℕ → Cookie
session_cookie_of value max_age = record {
  name = cookie_name;
  value = value;
  path = lit "/";
  max_age = max_age;
}

-- `bytes` are the random bytes of generateSessionID.
unfoldable pub generate_session_id : Str → Str
unfolding hex_encode
generate_session_id bytes = hex_encode bytes

unfoldable pub set : Str → Sessions → SessionData → Sessions × Cookie
unfolding generate_session_id put_session
set bytes l d = (
  put_session (generate_session_id bytes) d l,
  session_cookie_of (generate_session_id bytes) (some 86400),
)

-- `if sess, ok := s.sessions[cookie.Value]; ok { ...; return true }`
unfoldable pub change : (SessionData → SessionData) → Sessions → Str → Sessions × Bool
change f [] id = ([], false)
change f ((i, d) ∷ l) id =
    let (l', found) = change f l id in
    if str_eq i id then ((i, f d) ∷ l, true) else ((i, d) ∷ l', found)

abbrev pub with_cookie : (SessionData → SessionData) → Sessions → Request → Sessions × Bool
with_cookie f l r = elim r.session_cookie [ none ↦ (l, false) | some id ↦ change f l id ]

unfoldable pub impersonate : Str → List Str → SessionData → SessionData
impersonate username groups d = record d {
  impersonating_as = username;
  impersonating_groups = groups;
  can_list_all_namespaces = none;
}

unfoldable pub set_impersonation : Sessions → Request → Str → List Str → Sessions × Bool
unfolding change impersonate
set_impersonation l r username groups = with_cookie (impersonate username groups) l r

unfoldable pub set_can_impersonate : Sessions → Request → Bool → Sessions × Bool
unfolding change
set_can_impersonate l r allowed = with_cookie (λ d. record d { can_impersonate = some allowed }) l r

unfoldable pub clear_impersonation : Sessions → Request → Sessions × Bool
unfolding change impersonate
clear_impersonation l r = with_cookie (impersonate [] []) l r

unfoldable pub set_can_list_all_namespaces : Sessions → Request → Bool → Sessions × Bool
unfolding change
set_can_list_all_namespaces l r allowed =
    with_cookie (λ d. record d { can_list_all_namespaces = some allowed }) l r

-- MaxAge -1, which deletes the cookie, is `none`.
unfoldable pub clear : Sessions → Request → Sessions × Cookie
unfolding drop_session
clear l r =
    (elim r.session_cookie [ none ↦ l | some id ↦ drop_session id l ], session_cookie_of [] none)

abbrev pub state_cookie_of : Str → Option ℕ → Cookie
state_cookie_of value max_age = record {
  name = state_cookie_name;
  value = value;
  path = lit "/api/auth/";
  max_age = max_age;
}

unfoldable pub set_state : Str → Cookie
set_state state = state_cookie_of state (some 300)

unfoldable pub get_state : Request → Str
get_state r = elim r.state_cookie [ none ↦ [] | some state ↦ state ]

unfoldable pub clear_state : Cookie
clear_state = state_cookie_of [] none
