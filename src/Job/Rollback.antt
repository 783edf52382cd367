-- ===== src/Job/Rollback.antt =====
-- `runRollback` and `rollbackPullUp` of internal/job/worker.go, and `Handle`, which gives a claimed
-- job to its handler.
pub mod Finishes
pub mod Restores
use dockbrr.Common.{
  ℕ, true, false, Option, none, some, List, [], ◌∷◌, ◌++◌, Text, text_eq, if◌then◌else◌,
}
use dockbrr.Compose.Runner.{pull_spec, up_spec}
use dockbrr.Compose.Dependents.{namespace_dependents}
use dockbrr.Compose.Dependents.{Service as ComposeService}
use dockbrr.Store.Jobs.Defs.{Scope, JobType, apply, rollback}
use dockbrr.Job.Steps.{
  fail, succeed, override_content, record_event, refresh, force_recreate, rediscovered,
}
use dockbrr.Job.Apply.{run_apply}
use dockbrr.Job.Effects.{
  Answer, good, bad, Service, Project, Blob, Snapshot, primary, World, no_service, unknown_type,
  load_service, load_project, no_snapshot, no_previous_digest, restore_compose, write_override,
  pull_failed, up_failed, rolled_back, Effect, emit, detection_skipped, mark_lost, runtime_lost,
  rollback_succeeded, write_file, create_override, remove_override, compose, mark_rolled_back,
  exited_zero,
}

-- What the detection of dependents notes.
abbrev pub skipped : Answer (List ComposeService) → List Effect
skipped (bad e) = emit (detection_skipped e) ∷ []
skipped (good services) = []

-- `nsDeps`: none where the compose files cannot be parsed.
abbrev pub detected : Text → Answer (List ComposeService) → List Text
detected name (bad e) = []
detected name (good services) = namespace_dependents services name

module _ (w : World) where
  -- `MarkRolledBack`, with the note of a failure.
  unfoldable pub mark_reverted : Service → List Effect
  mark_reverted svc = elim w.save_rolled_back [
    | good _ ↦ mark_rolled_back svc.id svc.current_digest ∷ []
    | bad e ↦ emit (mark_lost e) ∷ []
  ]

  -- The records of a rollback, over the ids and the digest found.
  unfoldable pub settle_rollback : Service → Text → List Effect × List Text × Text → List Effect
  settle_rollback svc prev (notes, ids, dig) =
      notes
      ++ (refresh w (λ e. emit (runtime_lost e)) svc.id ids dig
          ++ (mark_reverted svc
              ++ (record_event w svc.id rolled_back svc.current_digest prev
                  ++ (emit rollback_succeeded ∷ succeed))))

  -- Behind the `up`.
  unfoldable pub after_rollback_up : Service → Project → Text → List Text → List Text → List Effect
  after_rollback_up svc proj prev deps files =
      (force_recreate w svc proj files deps).0
      ++ settle_rollback svc prev
          (rediscovered w svc.container_ids prev (w.locate primary proj.name svc.name))

  -- The `up`.
  unfoldable pub rollback_up :
      Service → Project → Scope → Text → List Text → List Text → List Effect
  rollback_up svc proj scope prev deps files =
      let spec = up_spec files proj.working_dir proj.name scope svc.name in
      elim (exited_zero (w.compose spec)) [
        | false ↦ compose spec false ∷ fail (up_failed (w.compose spec))
        | true ↦ compose spec true ∷ after_rollback_up svc proj prev deps files
      ]

  -- `rollbackPullUp`.
  unfoldable pub rollback_pull_up : Service → Project → Scope → Text → List Text → List Effect
  rollback_pull_up svc proj scope prev files =
      let spec = pull_spec files proj.working_dir proj.name scope svc.name in
      let parsed = w.parse proj.working_dir proj.config_files in
      elim (exited_zero (w.compose spec)) [
        | false ↦ compose spec false ∷ fail (pull_failed (w.compose spec))
        | true ↦
            compose spec true
            ∷ (skipped parsed ++ rollback_up svc proj scope prev (detected svc.name parsed) files)
      ]

  -- The pin to the previous digest by a temporary override.
  unfoldable pub repin : Service → Project → Scope → Snapshot → List Effect
  repin svc proj scope snap =
      let content = override_content svc.name snap.prev_repo [] snap.prev_digest in
      elim (w.create_override proj.working_dir content) [
        | bad e ↦ fail (write_override e)
        | good path ↦
            create_override path content
            ∷ (rollback_pull_up svc proj scope snap.prev_digest (proj.config_files ++ (path ∷ []))
                ++ (remove_override path ∷ []))
      ]

  -- The compose file as it was before the apply.
  unfoldable pub restore : Service → Project → Scope → Snapshot → Blob → List Effect
  restore svc proj scope snap b = elim (w.write_file b.path b.content) [
    | bad e ↦ fail (restore_compose e)
    | good _ ↦
        write_file b.path b.content
        ∷ rollback_pull_up svc proj scope snap.prev_digest proj.config_files
  ]

  -- A blob with an empty path is passed over; one that does not decode is no blob here.
  unfoldable pub revert : Service → Project → Scope → Snapshot → Option Blob → List Effect
  revert svc proj scope snap none = repin svc proj scope snap
  revert svc proj scope snap (some b) =
      if text_eq b.path [] then repin svc proj scope snap else restore svc proj scope snap b

  unfoldable pub rollback_from : Service → Project → Scope → Snapshot → List Effect
  rollback_from svc proj scope snap =
      if text_eq snap.prev_digest []
      then fail no_previous_digest
      else revert svc proj scope snap snap.blob

  unfoldable pub rollback_loaded : Service → Scope → List Effect
  rollback_loaded svc scope = elim (w.get_project svc.project_id) [
    | bad e ↦ fail (load_project e)
    | good proj ↦ elim (w.latest_snapshot svc.id) [
      | bad e ↦ fail (no_snapshot e)
      | good snap ↦ rollback_from svc proj scope snap
    ]
  ]

  -- `runRollback`.
  unfoldable pub run_rollback : Option ℕ → Scope → List Effect
  run_rollback none scope = fail no_service
  run_rollback (some id) scope = elim (w.get_service id) [
    | bad e ↦ fail (load_service e)
    | good svc ↦ rollback_loaded svc scope
  ]

  -- `Handle`.
  unfoldable pub handle : JobType → Option ℕ → Scope → List Effect
  handle apply target scope = run_apply w target scope
  handle rollback target scope = run_rollback target scope
  handle _ target scope = fail unknown_type
