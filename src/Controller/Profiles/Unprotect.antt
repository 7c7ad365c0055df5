-- ===== src/Controller/Profiles/Unprotect.antt =====
-- removeReleaseRefFinalizerIfUnreferenced (profile_controller.go): the protection of a release, when a
-- profile goes away.
use solution_arsenal.Prelude.{
  Bool, true, ◌&&◌, ◌||◌, not, Option, none, some, List, [], ◌∷◌, any, if◌then◌else◌,
}
use solution_arsenal.Str.{Str, lit, str_eq}
use solution_arsenal.Api.{Profile, Release, ReleaseBinding}
use solution_arsenal.Cluster.{
  profiles, releases, Error, Program, done, stop, and_then, ◌>>=◌, ◌>>◌, has_finalizer,
}
use solution_arsenal.Controller.{attempt, find, unprotect}
use solution_arsenal.Controller.Finalizers.{exits, release_ref_finalizer}
use solution_arsenal.Controller.ReleaseBindings.{
  owner_profile, profile_name, profiles_of_release, bindings_of_release,
}
use solution_arsenal.Controller.Profiles.{ProfileReconciler}

-- The profiles that count: not the one that is deleted, nor another one that is being deleted.
unfoldable pub is_other_profile : Profile → Profile → Bool
is_other_profile deleting_profile p =
    not (str_eq p.meta.name deleting_profile.meta.name) && not p.meta.deleting

module _ (r : ProfileReconciler) (deleting_profile : Profile) where
  -- A binding that goes away with the profile, or that is being deleted.
  abbrev pub is_leaving : ReleaseBinding → Bool
  is_leaving rb = r.is_controlled_by rb.meta deleting_profile.meta || rb.meta.deleting

  abbrev pub unless_alive :
      Program (Option Error) Unit → Option Profile → Program (Option Error) Unit
  unless_alive rest none = rest
  unless_alive rest (some owner) = if owner.meta.deleting then rest else stop none

  abbrev pub owner_gone_or :
      ReleaseBinding → Program (Option Error) Unit → Option Str → Program (Option Error) Unit
  owner_gone_or rb rest none = stop none
  owner_gone_or rb rest (some owner) =
      and_then
        (find exits r.settings profiles (profile_name rb owner)
          (lit "failed to check owner Profile for concurrent deletion"))
        (unless_alive rest)

  -- The loop over the bindings: it returns where one of them still counts.
  unfoldable pub pass_bindings : List ReleaseBinding → Program (Option Error) Unit
  unfolding find and_then
  pass_bindings [] = done tt
  pass_bindings (rb ∷ rbs) =
      let rest = pass_bindings rbs in
      if is_leaving rb then rest else owner_gone_or rb rest (owner_profile rb)

  unfoldable pub remove_release_ref_finalizer_if_unreferenced :
      Release → Program (Option Error) (Option Error)
  unfolding and_then attempt unprotect pass_bindings is_other_profile
  remove_release_ref_finalizer_if_unreferenced release =
      if has_finalizer releases release release_ref_finalizer
      then (do
        ps ←
            attempt exits r.settings (profiles_of_release release)
              (lit "failed to list Profiles for Release finalizer check")
        if any (is_other_profile deleting_profile) ps then stop none else (do
          rbs ←
              attempt exits r.settings (bindings_of_release release)
                (lit "failed to list ReleaseBindings for Release finalizer check")
          pass_bindings rbs
          unprotect exits r.settings releases true release release_ref_finalizer
              (lit "failed to get latest Release for finalizer removal")
              (lit "failed to remove protection finalizer from Release")
          done none))
      else stop none
