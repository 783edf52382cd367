-- ===== src/Job/Standalone/Handlers.antt =====
-- `Handle`, `runApply` and `runRollback` of internal/job/standalone.go.
pub mod Restores
pub mod Finishes
use dockbrr.Common.{
  ℕ, Bool, true, false, ◌&&◌, ◌||◌, not, Option, none, some, List, [], ◌∷◌, ◌++◌, Text, bytes,
  text_eq, if◌then◌else◌,
}
use dockbrr.Detect.Ref.{split_ref}
use dockbrr.Store.Updates.Defs.{Update}
use dockbrr.Store.Updates.Defs as UpdateDefs
use dockbrr.Store.Jobs.Defs.{JobType, apply, rollback}
use dockbrr.Job.Effects.{Answer, good, bad, Service, Remote, EventKind, failed, succeeded}
use dockbrr.Job.Effects as Effects
use dockbrr.Job.Steps.{with_tag}
use dockbrr.Job.Standalone.{
  World, Snapshot, recreating, Reason, unknown_type, no_service, no_container, target_moved,
  empty_inspect, no_previous_state, load_service, no_open_update, re_resolve, inspect_current,
  snapshot_failed, pull_failed, no_snapshot, resolving, snapshot_taken, health_gating,
  apply_succeeded, rolling_back, rolled_back, pulling, Effect, emit, insert_snapshot, pull,
  set_status, mark_applied, mark_rolled_back, update_runtime, update_image_ref, written, fail,
  succeed, record_event, fail_apply,
}
use dockbrr.Job.Standalone as Standalone
use dockbrr.Job.Standalone.Swap.{swap, removes}

-- `targetRef`.
unfoldable pub target_ref : Service → Update → Text
target_ref svc upd =
    let parts = split_ref svc.image_ref in
    if not (text_eq upd.tag []) && not (text_eq upd.tag parts.1)
    then with_tag parts.0 upd.tag
    else svc.image_ref

-- `remote.Digest != upd.ToDigest && remote.PlatformDigest != upd.ToDigest`.
unfoldable pub has_moved : Remote → Update → Bool
has_moved remote upd =
    not (text_eq remote.digest upd.to_digest) && not (text_eq remote.platform_digest upd.to_digest)

-- `oldRef`.
abbrev pub pinned_ref : Snapshot → Text
pinned_ref snap = snap.prev_repo ++ (b'@' ∷ snap.prev_digest)

-- `snap.PrevDigest == "" || snap.PrevContainerInspect == "" || …`.
unfoldable pub lacks_state : Snapshot → Bool
lacks_state snap =
    text_eq snap.prev_digest []
    || (text_eq snap.prev_container_inspect [] || text_eq snap.prev_container_inspect (bytes "{}"))

module _ (w : World) where
  -- The success of an apply.
  unfoldable pub close_apply : Service → Update → Text → Text → Text → List Effect
  close_apply svc upd old target new =
      removes w recreating old
      ∷ (written w.save_runtime (update_runtime svc.id (new ∷ []) upd.to_digest)
          ++ ((if text_eq target svc.image_ref
                then []
                else written w.save_image_ref (update_image_ref svc.id target))
              ++ (mark_applied upd.id
                  ∷ (record_event w svc.id succeeded svc.current_digest upd.to_digest
                      ++ (emit apply_succeeded ∷ succeed)))))

  -- Behind the pull.
  unfoldable pub replace : Service → Update → Text → Text → Text → List Effect
  replace svc upd old inspect target =
      emit Standalone.recreating
      ∷ swap w old inspect target svc.name (emit health_gating ∷ []) (fail_apply w svc upd)
          (close_apply svc upd old target)

  -- Behind the snapshot.
  unfoldable pub pull_target : Service → Update → Text → Text → Text → List Effect
  pull_target svc upd old inspect target = emit (pulling target) ∷ elim (w.image_pull target) [
    | bad e ↦ pull target false ∷ fail_apply w svc upd (pull_failed e)
    | good _ ↦ pull target true ∷ replace svc upd old inspect target
  ]

  -- The snapshot.
  unfoldable pub take_snapshot : Service → Update → Text → Text → Text → List Effect
  take_snapshot svc upd old inspect target = elim w.save_snapshot [
    | bad e ↦ fail (snapshot_failed e)
    | good _ ↦
        insert_snapshot svc.id (record {
          prev_repo = (split_ref svc.image_ref).0;
          prev_digest = svc.current_digest;
          prev_image_id = svc.current_image_id;
          prev_container_inspect = inspect;
        })
        ∷ emit snapshot_taken
        ∷ pull_target svc upd old inspect target
  ]

  -- The precheck of the container, once it is inspected.
  unfoldable pub inspected : Service → Update → Text → Text → Answer Text → List Effect
  inspected svc upd old target (bad e) = fail (inspect_current e)
  inspected svc upd old target (good []) = fail empty_inspect
  inspected svc upd old target (good (c ∷ json)) = take_snapshot svc upd old (c ∷ json) target

  -- The precheck of the target, once it is resolved.
  unfoldable pub precheck : Service → Update → Text → Text → Remote → List Effect
  precheck svc upd old target remote =
      if has_moved remote upd
      then set_status upd.id UpdateDefs.superseded
        ∷ (record_event w svc.id failed svc.current_digest upd.to_digest ++ fail target_moved)
      else inspected svc upd old target (w.inspect_json old)

  unfoldable pub apply_container : Service → Update → List Text → List Effect
  apply_container svc upd [] = fail no_container
  apply_container svc upd (old ∷ ids) = emit resolving ∷ elim (w.resolve (target_ref svc upd)) [
    | bad e ↦ fail (re_resolve e)
    | good remote ↦ precheck svc upd old (target_ref svc upd) remote
  ]

  unfoldable pub apply_loaded : Service → List Effect
  apply_loaded svc = elim (w.latest_open svc.id) [
    | bad e ↦ fail (no_open_update e)
    | good upd ↦ apply_container svc upd svc.container_ids
  ]

  -- `runApply`.
  unfoldable pub run_apply : Option ℕ → List Effect
  run_apply none = fail no_service
  run_apply (some id) = elim (w.get_service id) [
    | bad e ↦ fail (load_service e)
    | good svc ↦ apply_loaded svc
  ]

  -- The success of a rollback.
  unfoldable pub close_rollback : Service → Snapshot → Text → Text → List Effect
  close_rollback svc snap current new =
      removes w recreating current
      ∷ (written w.save_runtime (update_runtime svc.id (new ∷ []) snap.prev_digest)
          ++ (written w.save_rolled_back (mark_rolled_back svc.id svc.current_digest)
              ++ (record_event w svc.id Effects.rolled_back svc.current_digest snap.prev_digest
                  ++ (emit rolled_back ∷ succeed))))

  unfoldable pub rollback_container : Service → Snapshot → List Text → List Effect
  rollback_container svc snap [] = fail no_container
  rollback_container svc snap (current ∷ ids) =
      emit rolling_back ∷ elim (w.image_pull (pinned_ref snap)) [
        | bad e ↦ pull (pinned_ref snap) false ∷ fail (pull_failed e)
        | good _ ↦
            pull (pinned_ref snap) true
            ∷ swap w current snap.prev_container_inspect (pinned_ref snap) svc.name [] fail
                (close_rollback svc snap current)
      ]

  unfoldable pub rollback_loaded : Service → List Effect
  rollback_loaded svc = elim (w.latest_snapshot svc.id) [
    | bad e ↦ fail (no_snapshot e)
    | good snap ↦
        if lacks_state snap
        then fail no_previous_state
        else rollback_container svc snap svc.container_ids
  ]

  -- `runRollback`.
  unfoldable pub run_rollback : Option ℕ → List Effect
  run_rollback none = fail no_service
  run_rollback (some id) = elim (w.get_service id) [
    | bad e ↦ fail (load_service e)
    | good svc ↦ rollback_loaded svc
  ]

  -- `Handle`.
  unfoldable pub handle : JobType → Option ℕ → List Effect
  handle apply target = run_apply target
  handle rollback target = run_rollback target
  handle _ target = fail unknown_type
