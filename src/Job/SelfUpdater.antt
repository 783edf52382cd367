-- ===== src/Job/SelfUpdater.antt =====
-- The handler of internal/job/selfupdate.go. The answers are those of the release checker and of the
-- Docker daemon.
pub mod Swap
use dockbrr.Common.{
  Bool, true, false, not, ◌&&◌, Option, none, some, List, [], ◌∷◌, ◌++◌, Text, bytes, text_eq, ◌==◌,
  if◌then◌else◌,
}
use dockbrr.Common.Strings.{has_char}
use dockbrr.Detect.Semver.{Core, parse_core, core_less}
use dockbrr.Detect.Ref.{split_ref}
use dockbrr.Store.Jobs.Defs as JobDefs
use dockbrr.Store.Jobs.Defs.{Status as JobStatus}
use dockbrr.Job.Effects.{Answer, good, bad}
use dockbrr.Job.Steps.{with_tag}

-- The fields of `selfupdate.Result` that are read.
pub record Result : Type 0 where
  pub latest : Text
  pub update_available : Bool

pub record World : Type 0 where
  pub self_id : Text
  pub check : Answer Result
  pub image_ref : Answer Text
  pub image_pull : Text → Answer (Unit {0})
  pub image_version : Text → Answer Text
  pub spawn_updater : Text → Text → Answer (Unit {0})

-- The messages of a failed job.
pub data Reason : Type 0 where
  no_container : Reason
  check_failed ref_failed version_unread spawn_failed : Text → Reason
  pull_failed not_published : Text → Text → Reason

pub data Note : Type 0 where
  up_to_date self_update : Note
  pulling restarting : Text → Note
  reason : Reason → Note

-- The calls that change state. The helper runs on the first image, and moves dockbrr to the second.
pub data Effect : Type 0 where
  emit : Note → Effect
  pull : Text → Bool → Effect
  spawn : Text → Text → Bool → Effect
  finish : JobStatus → Option Reason → Effect

-- `strings.TrimPrefix(latestTag, "v")`.
unfoldable pub trim_v : Text → Text
trim_v [] = []
trim_v (c ∷ s) = if c == b'v' then s else c ∷ s

-- `targetSelfImage` for a normalised tag.
unfoldable pub moved_to : Text → Text → Text
moved_to ref [] = ref
moved_to ref (c ∷ norm) =
    if not (has_char b'@' ref) && text_eq (split_ref ref).1 (bytes "latest")
    then ref
    else with_tag (split_ref ref).0 (c ∷ norm)

-- `targetSelfImage`.
unfoldable pub target_self_image : Text → Text → Text
target_self_image ref latest = moved_to ref (trim_v latest)

-- `okGot && okWant && !detect.CoreLess(gotCore, wantCore)`.
unfoldable pub is_published : Option Core → Option Core → Bool
is_published (some got) (some want) = not (core_less got want)
is_published (some got) none = false
is_published none want = false

-- What is told of an image without the version.
unfoldable pub pulled_name : Text → Text
pulled_name [] = bytes "an image with no version label"
pulled_name (c ∷ s) = c ∷ s

-- `verifyPulledVersion`: `none` for "".
unfoldable pub verify_pulled : Answer Text → Text → Option Reason
verify_pulled (bad e) latest = some (version_unread e)
verify_pulled (good got) latest =
    if is_published (parse_core got) (parse_core latest)
    then none
    else some (not_published latest (pulled_name got))

-- `fail`.
unfoldable pub fail : Reason → List Effect
fail r = emit (reason r) ∷ finish JobDefs.failed (some r) ∷ []

module _ (w : World) where
  unfoldable pub spawn_helper : Text → Text → List Effect
  spawn_helper ref image = elim (w.spawn_updater ref image) [
    | bad e ↦ spawn ref image false ∷ fail (spawn_failed e)
    | good _ ↦ spawn ref image true ∷ emit (restarting image) ∷ finish JobDefs.success none ∷ []
  ]

  unfoldable pub unless_unpublished : Text → Text → Option Reason → List Effect
  unless_unpublished ref image (some r) = fail r
  unless_unpublished ref image none = spawn_helper ref image

  -- Behind the pull.
  unfoldable pub after_pull : Text → Text → Text → Answer (Unit {0}) → List Effect
  after_pull ref image latest (bad e) = pull image false ∷ fail (pull_failed image e)
  after_pull ref image latest (good _) =
      pull image true ∷ unless_unpublished ref image (verify_pulled (w.image_version image) latest)

  unfoldable pub pull_image : Text → Text → Text → List Effect
  pull_image ref image latest =
      emit (pulling image) ∷ after_pull ref image latest (w.image_pull image)

  -- Once the own image is known.
  unfoldable pub from_ref : Text → Answer Text → List Effect
  from_ref latest (bad e) = fail (ref_failed e)
  from_ref latest (good ref) = pull_image ref (target_self_image ref latest) latest

  unfoldable pub update_to : Text → List Effect
  update_to latest = emit self_update ∷ from_ref latest w.image_ref

  unfoldable pub checked : Answer Result → List Effect
  checked (bad e) = fail (check_failed e)
  checked (good res) =
      if res.update_available
      then update_to res.latest
      else emit up_to_date ∷ finish JobDefs.success none ∷ []

  -- `Handle`.
  unfoldable pub handle : List Effect
  handle = if text_eq w.self_id [] then fail no_container else checked w.check
