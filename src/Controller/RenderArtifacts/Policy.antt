-- ===== src/Controller/RenderArtifacts/Policy.antt =====
-- What the RenderArtifact controller may call, and when.
use solution_arsenal.Prelude.{
  ◌≡◌, true, false, ◌==◌, List, [], ◌∷◌, ◌++◌, Memᴰ, ok, err, any, length,
}
use solution_arsenal.Api.{RenderArtifact, RenderBinding, Authenticator}
use solution_arsenal.Cluster.{
  Kind, render_artifacts, NamespacedName, Error, ListOptions, Call, get, list, delete, patch,
  patch_status, delete_tag, has_finalizer, refinalize, without,
}
use solution_arsenal.Cluster.Safe.{History}
use solution_arsenal.Cluster.Errors.{is_not_found}
use solution_arsenal.Controller.{Settings}
use solution_arsenal.Controller.RenderArtifacts.{
  render_artifact_finalizer, raw_ref, bindings_by_index, all_bindings, refers_to,
}

module _ (req : NamespacedName) (h : History) where
  -- The artifact as the API server has answered it.
  pub data IsAnswered : RenderArtifact → Type 0 where
    was_read : (a : RenderArtifact) → Memᴰ (get render_artifacts req, ok a) h → IsAnswered a
    was_patched :
        (o o' a : RenderArtifact) → Memᴰ (patch_status render_artifacts o o', ok a) h → IsAnswered a

  -- The registry has answered that the artifact's tag is deleted, or that it is not there.
  pub data IsTagGone (a : RenderArtifact) : Type 0 where
    is_deleted :
        (auth : Authenticator)
        → Memᴰ (delete_tag (raw_ref a) auth a.plain_http, ok tt) h
        → IsTagGone a
    was_missing :
        (auth : Authenticator) (e : Error)
        → is_not_found e ≡ true
        → Memᴰ (delete_tag (raw_ref a) auth a.plain_http, err e) h
        → IsTagGone a

  -- The cache has shown no binding of the artifact, and after that a list read from the API server
  -- itself shows none either.
  pub record IsUnbound (s : Settings) (a : RenderArtifact) : Type 0 where
    pub cached : List RenderBinding
    pub cached_empty : (length cached == 0) ≡ true
    pub confirmed : List RenderBinding
    pub later : History
    pub earlier : History
    pub history_is : h ≡ later ++ (all_bindings s a, ok confirmed) ∷ earlier
    pub cached_listed : Memᴰ (bindings_by_index s a, ok cached) earlier
    pub unbound : any (refers_to s a) confirmed ≡ false

pub data ArtifactPolicy (s : Settings) (req : NamespacedName) (h : History) : Call → Type 0 where
  reads : (k : Kind) (n : NamespacedName) → ArtifactPolicy s req h (get k n)
  lists : (k : Kind) (o : ListOptions) → ArtifactPolicy s req h (list k o)
  sets_status :
      (a a' : RenderArtifact)
      → IsAnswered req h a
      → a'.meta ≡ a.meta
      → ArtifactPolicy s req h (patch_status render_artifacts a a')
  adds_own :
      (a : RenderArtifact)
      → IsAnswered req h a
      → a.meta.deleting ≡ false
      → ArtifactPolicy s req h (
          patch render_artifacts false a
            (refinalize render_artifacts a (a.meta.finalizers ++ render_artifact_finalizer ∷ [])))
  deletes_tag :
      (a : RenderArtifact) (auth : Authenticator)
      → IsAnswered req h a
      → a.meta.deleting ≡ true
      → has_finalizer render_artifacts a render_artifact_finalizer ≡ true
      → ArtifactPolicy s req h (delete_tag (raw_ref a) auth a.plain_http)
  drops_own :
      (a : RenderArtifact)
      → IsAnswered req h a
      → a.meta.deleting ≡ true
      → IsTagGone req h a
      → ArtifactPolicy s req h (
          patch render_artifacts false a
            (refinalize render_artifacts a (without render_artifact_finalizer a.meta.finalizers)))
  collects :
      (a : RenderArtifact)
      → IsAnswered req h a
      → IsUnbound req h s a
      → ArtifactPolicy s req h (delete render_artifacts a)
