-- ===== src/Controller/RenderArtifacts/Safety.antt =====
-- What the RenderArtifact controller may call: no artifact goes before its tag, and none that a
-- binding refers to is collected.
use solution_arsenal.Prelude.{
  ◌≡◌, refl, true, false, ◌==◌, Option, none, some, List, [], ◌∷◌, Memᴰ, Result, ok, err, any,
  length,
}
use solution_arsenal.Str.{Str, str_eq}
use solution_arsenal.Api.{RenderArtifact, Secret, AuthConfig, Authenticator}
use solution_arsenal.Cluster.{
  render_artifacts, render_bindings, secrets, NamespacedName, Error, Answer, get, delete,
  patch_status, delete_tag, has_finalizer,
}
use solution_arsenal.Cluster.Safe.{
  History, Policy, Safe, Safe-map, Extends, and_then-Safe, returned-Safe, call-Safe, done-Safe,
  stop-Safe, branch-Safe,
}
use solution_arsenal.Cluster.Errors.{is_not_found}
use solution_arsenal.Controller.{Settings, returns, stop_on, check}
use solution_arsenal.Controller.Libraries.{Libraries}
use solution_arsenal.Controller.Steps.{Anything, attempt-Safe, if-Safe, with_object-Safe}
use solution_arsenal.Controller.Rules.{then-Safe, returned-then-Safe, attempt-ends}
use solution_arsenal.Controller.RenderArtifacts.Policy.{
  IsAnswered, was_read, was_patched, IsTagGone, is_deleted, was_missing, ArtifactPolicy, reads,
  lists, sets_status, adds_own, deletes_tag, drops_own, collects,
}
use solution_arsenal.Controller.RenderArtifacts.{
  render_artifact_finalizer, raw_ref, secret_name_of, auth_of_secret, auth_by, resolve_auth,
  surface, deleted_or, authenticated_or, cleanup_oci_artifact, delete_artifact, chart_url_of,
  populate_url, bindings_by_index, all_bindings, refers_to, collected_or, collect_artifact,
  keep_artifact, reconcile_render_artifact,
}

module _ (s : Settings) (lib : Libraries) (unmarshal : Str → Option (List (Str × AuthConfig)))
    (req : NamespacedName) where
  abbrev P : Policy
  P = ArtifactPolicy s req

  IsAnswered-Extends :
      (h h' : History) (a : RenderArtifact)
      → Extends h h'
      → IsAnswered req h a
      → IsAnswered req h' a
  IsAnswered-Extends h h' _ x (was_read a m) = was_read a (x _ m)
  IsAnswered-Extends h h' _ x (was_patched o o' a m) = was_patched o o' a (x _ m)

  module _ (a : RenderArtifact) where
    -- Where the clean-up gives no error, the tag is gone.
    abbrev Cleaned : History → Option Error → Type 0
    Cleaned h none = IsTagGone req h a
    Cleaned h (some e) = Unit

    module _ (d : a.meta.deleting ≡ true)
        (f : has_finalizer render_artifacts a render_artifact_finalizer ≡ true) where
      surface-Safe :
          (reason : Str) (e : Error) (h : History)
          → IsAnswered req h a
          → Safe P Cleaned Cleaned h (surface lib unmarshal a reason e)
      surface-Safe reason e h i =
          call-Safe P Cleaned Cleaned (patch_status render_artifacts a _) _ h
            (sets_status a _ i refl) (λ _. stop-Safe P Cleaned Cleaned _ (some e) tt)

      deleted-Safe :
          (auth : Authenticator) (h : History)
          (c : Answer (delete_tag (raw_ref a) auth a.plain_http))
          → IsAnswered req h a
          → Memᴰ (delete_tag (raw_ref a) auth a.plain_http, c) h
          → Safe P Cleaned Cleaned h (deleted_or lib unmarshal a c)
      deleted-Safe auth h (ok tt) i m = done-Safe P Cleaned Cleaned h none (is_deleted auth m)
      deleted-Safe auth h (err e) i m =
          branch-Safe P Cleaned Cleaned (is_not_found e) _ _ h
            (λ y. stop-Safe P Cleaned Cleaned h none (was_missing auth e y m))
            (λ _. surface-Safe _ e h i)

      authenticated-Safe :
          (auth : Result Error Authenticator) (h : History)
          → IsAnswered req h a
          → Safe P Cleaned Cleaned h (authenticated_or lib unmarshal a auth)
      authenticated-Safe (ok auth) h i =
          call-Safe P Cleaned Cleaned (delete_tag (raw_ref a) auth a.plain_http) _ h
            (deletes_tag a auth i d f)
            (λ c.
              deleted-Safe auth _ c (IsAnswered-Extends h _ a (λ _ m. Memᴰ.tail m) i)
                (Memᴰ.head refl))
      authenticated-Safe (err e) h i = surface-Safe _ e h i

      -- The authenticator of the clean-up is read, if at all, from a secret.
      auth_by-Safe :
          (name : Option Str) (h : History)
          → Safe P Anything Anything h (auth_by lib unmarshal a name)
      auth_by-Safe none h = done-Safe P Anything Anything h _ tt
      auth_by-Safe (some name) h =
          call-Safe P Anything Anything (get secrets (secret_name_of a name)) _ h (reads secrets _)
            answered
        where
          answered :
              (c : Result Error Secret)
              → Safe P Anything Anything
                  ((get secrets (secret_name_of a name), c) ∷ h)
                  (auth_of_secret lib unmarshal a name c)
          answered (ok secret) = done-Safe P Anything Anything _ _ tt
          answered (err e) = stop-Safe P Anything Anything _ _ tt

      cleanup_oci_artifact-Safe :
          (h : History)
          → IsAnswered req h a
          → Safe P Cleaned Cleaned h (cleanup_oci_artifact lib unmarshal a)
      unfolding cleanup_oci_artifact resolve_auth
      cleanup_oci_artifact-Safe h i = and_then-Safe P Cleaned Cleaned _ _ h (
          returned-Safe P _ Cleaned (auth_by lib unmarshal a a.push_secret_ref) h (
            Safe-map P P Anything _ Anything _ h (λ _ _ _ p. p) goes_on goes_on _ h (λ _ m. m)
              (auth_by-Safe a.push_secret_ref h)))
        where
          goes_on :
              (h' : History) (auth : Result Error Authenticator)
              → Extends h h'
              → Unit {0}
              → Safe P Cleaned Cleaned h' (authenticated_or lib unmarshal a auth)
          goes_on h' auth x _ = authenticated-Safe auth h' (IsAnswered-Extends h h' a x i)

      checked-Safe :
          (h : History)
          → IsAnswered req h a
          → Safe P
              (λ h' _. IsTagGone req h' a)
              Anything
              h
              (check (cleanup_oci_artifact lib unmarshal a))
      unfolding check
      checked-Safe h i =
          returned-then-Safe P Cleaned (λ h' _. IsTagGone req h' a) _ stop_on h
            (cleanup_oci_artifact-Safe h i) (λ h' e _ c. goes_on h' e c)
        where
          goes_on :
              (h' : History) (e : Option Error)
              → Cleaned h' e
              → Safe P (λ h'' _. IsTagGone req h'' a) Anything h' (stop_on e)
          goes_on h' none c = done-Safe P (λ h'' _. IsTagGone req h'' a) Anything h' tt c
          goes_on h' (some e) c = stop-Safe P (λ h'' _. IsTagGone req h'' a) Anything h' _ tt

    delete_artifact-Safe :
        (h : History)
        → IsAnswered req h a
        → a.meta.deleting ≡ true
        → Safe P Anything Anything h (delete_artifact s lib unmarshal a)
    unfolding delete_artifact
    delete_artifact-Safe h i d =
        if-Safe returns s P Anything (has_finalizer render_artifacts a render_artifact_finalizer) _
          _ h
          (λ f.
            then-Safe P (λ h' _. IsTagGone req h' a) Anything _ _ h (checked-Safe d f h i)
              (λ h' _ x g.
                attempt-Safe returns s P Anything _ _ _ h'
                  (drops_own a (IsAnswered-Extends h h' a x i) d g)
                  (λ _. done-Safe P Anything Anything _ (returns none) tt)))
          (λ _. done-Safe P Anything Anything h (returns none) tt)

    populate_url-Safe :
        (h : History) → IsAnswered req h a → Safe P (IsAnswered req) Anything h (populate_url s a)
    unfolding populate_url
    populate_url-Safe h i =
        if-Safe returns s P (IsAnswered req) (str_eq a.chart_url (chart_url_of s a)) _ _ h
          (λ _. done-Safe P (IsAnswered req) Anything h a i)
          (λ _.
            attempt-ends returns s P (patch_status render_artifacts a _) (IsAnswered req) _ h
              (sets_status a _ i refl) (λ b. was_patched a _ b (Memᴰ.head refl)))

    collected-Safe :
        (c : Result Error (Unit {0})) (h : History)
        → Safe P Anything Anything h (collected_or s a c)
    collected-Safe (ok tt) h = done-Safe P Anything Anything h _ tt
    collected-Safe (err e) h =
        if-Safe returns s P Anything (is_not_found e) _ _ h
          (λ _. done-Safe P Anything Anything h _ tt) (λ _. stop-Safe P Anything Anything h _ tt)

    collect_artifact-Safe :
        (h : History) → IsAnswered req h a → Safe P Anything Anything h (collect_artifact s a)
    unfolding collect_artifact
    collect_artifact-Safe h i =
        attempt-Safe returns s P Anything (bindings_by_index s a) _ _ h (lists render_bindings _)
          (λ cached.
            if-Safe returns s P Anything (length cached == 0) _ _ _
              (λ y.
                attempt-Safe returns s P Anything (all_bindings s a) _ _ _ (lists render_bindings _)
                  (λ confirmed.
                    if-Safe returns s P Anything (any (refers_to s a) confirmed) _ _ _
                      (λ _. stop-Safe P Anything Anything _ _ tt)
                      (λ n.
                        call-Safe P Anything Anything (delete render_artifacts a) _ _
                          (collects a (IsAnswered-Extends h _ a (λ _ m. Memᴰ.tail (Memᴰ.tail m)) i)
                            (record {
                              cached = cached;
                              cached_empty = y;
                              confirmed = confirmed;
                              later = [];
                              earlier = (bindings_by_index s a, ok cached) ∷ h;
                              history_is = refl;
                              cached_listed = Memᴰ.head refl;
                              unbound = n;
                            }))
                          (λ c. collected-Safe c _))))
              (λ _. done-Safe P Anything Anything _ (returns none) tt))

  keep_artifact-Safe :
      (a : RenderArtifact) (h : History)
      → IsAnswered req h a
      → a.meta.deleting ≡ false
      → Safe P Anything Anything h (keep_artifact s a)
  unfolding keep_artifact
  keep_artifact-Safe a h i d =
      if-Safe returns s P Anything (has_finalizer render_artifacts a render_artifact_finalizer) _ _
        h
        (λ _.
          then-Safe P (IsAnswered req) Anything _ _ h (populate_url-Safe a h i)
            (λ h' latest _ j. collect_artifact-Safe latest h' j))
        (λ _.
          attempt-Safe returns s P Anything _ _ _ h (adds_own a i d)
            (λ _. done-Safe P Anything Anything _ (returns none) tt))

  -- Whatever the API server and the registry answer, the RenderArtifact controller deletes an
  -- artifact only when the cache has shown no binding of it and a list read after that from the API
  -- server itself shows none; it deletes the artifact's OCI tag only when the artifact is being deleted, and lets the
  -- artifact go only when the registry has answered that the tag is deleted or not there.
  pub reconcile_render_artifact-Safe :
      Safe
        (ArtifactPolicy s req)
        Anything
        Anything
        []
        (reconcile_render_artifact s lib unmarshal req)
  unfolding reconcile_render_artifact
  reconcile_render_artifact-Safe =
      with_object-Safe P Anything s render_artifacts req _ _ (reads render_artifacts req) (λ a.
        if-Safe returns s P Anything a.meta.deleting _ _ _
          (λ d. delete_artifact-Safe a _ (was_read a (Memᴰ.head refl)) d)
          (λ d. keep_artifact-Safe a _ (was_read a (Memᴰ.head refl)) d))
