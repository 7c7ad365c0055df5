-- ===== src/Session/Caches.antt =====
-- The cached answer to "may this user list all namespaces" does not outlive the identity that it was
-- computed for.
use solution_arsenal.Prelude.{
  ◌≡◌, ◌≢◌, ◌⊎◌, refl, inl, inr, Bool, true, false, Option, none, some, List, [], ◌∷◌, Bool-cases,
  All,
}
use solution_arsenal.Str.{Str, str_eq}
use solution_arsenal.Str.Laws.{str_eq_iff, str_eq_self}
use solution_arsenal.Session.{
  SessionData, Sessions, get, set, clear, generate_session_id, put_session, drop_session,
  find_session, change, impersonate, set_impersonation, set_can_impersonate, clear_impersonation,
  set_can_list_all_namespaces,
}
use solution_arsenal.Session.Laws.{request, find_session-change, find_session-drop}

-- The operations on the store, each with its request. `sets` has the random bytes of the new session's
-- name.
pub data Operation : Type 0 where
  sets : Str → SessionData → Operation
  clears : Operation
  impersonates : Str → List Str → Operation
  stops_impersonating : Operation
  caches_impersonation : Bool → Operation
  caches_listing : Bool → Operation

unfoldable pub apply : Operation → Str → Sessions → Sessions
unfolding set clear set_impersonation set_can_impersonate clear_impersonation
    set_can_list_all_namespaces
apply (sets bytes d) id l = (set bytes l d).0
apply clears id l = (clear l (request id)).0
apply (impersonates username groups) id l = (set_impersonation l (request id) username groups).0
apply stops_impersonating id l = (clear_impersonation l (request id)).0
apply (caches_impersonation allowed) id l = (set_can_impersonate l (request id) allowed).0
apply (caches_listing allowed) id l = (set_can_list_all_namespaces l (request id) allowed).0

unfoldable pub run : List (Operation × Str) → Sessions → Sessions
unfolding apply
run [] l = l
run ((op, id) ∷ ops) l = run ops (apply op id l)

abbrev pub changes_identity : Operation → Bool
changes_identity (sets bytes d) = false
changes_identity clears = false
changes_identity (impersonates username groups) = true
changes_identity stops_impersonating = true
changes_identity (caches_impersonation allowed) = false
changes_identity (caches_listing allowed) = false

-- The operation does not cache an answer for the session: it is not told one, nor does it set the
-- session anew with one.
abbrev pub CachesNothing : Str → Operation × Str → Type 0
CachesNothing id (sets bytes d, i) =
    (generate_session_id bytes ≢ id) ⊎ (d.can_list_all_namespaces ≡ none)
CachesNothing id (caches_listing allowed, i) = i ≢ id
CachesNothing id (op, i) = Unit

-- No answer is cached for the session.
abbrev pub has_listing : Option SessionData → Option Bool
has_listing none = none
has_listing (some d) = d.can_list_all_namespaces

abbrev pub listing : Str → Sessions → Option Bool
listing id l = has_listing (get l (request id))

module _ (f : SessionData → SessionData) where
  abbrev updated : Option SessionData → Option SessionData
  updated none = none
  updated (some d) = some (f d)

  -- The cache behind `change`: of the session itself, and of another one.
  listing-change_self :
      (id : Str) (l : Sessions)
      → ((d : SessionData) → (f d).can_list_all_namespaces ≡ none)
      → listing id (change f l id).0 ≡ none
  unfolding get
  listing-change_self id l keeps_none =
      rw (find_session-change f l id id, str_eq_self id) (settle (find_session id l))
    where
      settle : (o : Option SessionData) → has_listing (updated o) ≡ none
      settle none = refl
      settle (some d) = keeps_none d

  listing-change :
      (i id : Str) (l : Sessions)
      → (i ≡ id
          → (d : SessionData) → d.can_list_all_namespaces ≡ none
          → (f d).can_list_all_namespaces ≡ none)
      → listing id l ≡ none
      → listing id (change f l i).0 ≡ none
  unfolding get
  listing-change i id l keeps h = elim (Bool-cases (str_eq i id)) [
    | inr n ↦ rw (find_session-change f l i id, n) h
    | inl y ↦
        rw (find_session-change f l i id, y) (settle ((str_eq_iff i id).0 y) (find_session id l) h)
  ]
    where
      settle :
          i ≡ id → (o : Option SessionData) → has_listing o ≡ none → has_listing (updated o) ≡ none
      settle e none k = refl
      settle e (some d) k = keeps e d k

listing-drop :
    (i id : Str) (l : Sessions) → listing id l ≡ none → listing id (drop_session i l) ≡ none
unfolding get
listing-drop i id l h = elim (Bool-cases (str_eq i id)) [
  | inl y ↦ rw (find_session-drop l i id, y) refl
  | inr n ↦ rw (find_session-drop l i id, n) h
]

listing-put :
    (i id : Str) (d : SessionData) (l : Sessions)
    → (i ≢ id) ⊎ (d.can_list_all_namespaces ≡ none)
    → listing id l ≡ none
    → listing id (put_session i d l) ≡ none
unfolding get put_session find_session
listing-put i id d l c h = elim (Bool-cases (str_eq i id)) [
  | inr n ↦ rw n (listing-drop i id l h)
  | inl y ↦ rw y (elim c [ inl k ↦ absurd (k ((str_eq_iff i id).0 y)) | inr k ↦ k ])
]

apply-listing :
    (op : Operation) (i id : Str) (l : Sessions)
    → CachesNothing id (op, i)
    → listing id l ≡ none
    → listing id (apply op i l) ≡ none
unfolding apply impersonate set clear
apply-listing (sets bytes d) i id l c h = listing-put (generate_session_id bytes) id d l c h
apply-listing clears i id l c h = listing-drop i id l h
apply-listing (impersonates username groups) i id l c h =
    listing-change (impersonate username groups) i id l (λ _ d _. refl) h
apply-listing stops_impersonating i id l c h =
    listing-change (impersonate [] []) i id l (λ _ d _. refl) h
apply-listing (caches_impersonation allowed) i id l c h = listing-change _ i id l (λ _ d k. k) h
apply-listing (caches_listing allowed) i id l c h =
    listing-change _ i id l (λ e d k. elim (c e) [ ]) h

apply-listing-none :
    (op : Operation) (id : Str) (l : Sessions)
    → changes_identity op ≡ true
    → listing id (apply op id l) ≡ none
unfolding apply impersonate
apply-listing-none (sets bytes d) id l h = cc
apply-listing-none clears id l h = cc
apply-listing-none (impersonates username groups) id l h =
    listing-change_self (impersonate username groups) id l (λ d. refl)
apply-listing-none stops_impersonating id l h =
    listing-change_self (impersonate [] []) id l (λ d. refl)
apply-listing-none (caches_impersonation allowed) id l h = cc
apply-listing-none (caches_listing allowed) id l h = cc

run-none :
    (ops : List (Operation × Str)) (id : Str) (l : Sessions)
    → All (CachesNothing id) ops
    → listing id l ≡ none
    → listing id (run ops l) ≡ none
unfolding run
run-none [] id l c h = h
run-none ((op, i) ∷ ops) id l (c, cs) h =
    run-none ops id (apply op i l) cs (apply-listing op i id l c h)

-- After an operation that changes the identity of a session, no answer on listing all namespaces is
-- cached for it, whatever operations on any sessions follow (new and cleared ones included), until one
-- caches an answer for it or sets it anew with one.
pub run-listing :
    (op : Operation) (ops : List (Operation × Str)) (id : Str) (l : Sessions)
    → changes_identity op ≡ true
    → All (CachesNothing id) ops
    → listing id (run ((op, id) ∷ ops) l) ≡ none
unfolding run
run-listing op ops id l h c = run-none ops id (apply op id l) c (apply-listing-none op id l h)
