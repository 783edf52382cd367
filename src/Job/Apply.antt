-- ===== src/Job/Apply.antt =====
-- `runApply` of internal/job/worker.go and what it calls, in the order of the source. Each stage is
-- a function that ends in the stages behind it.
pub mod Finishes
pub mod Floating
use dockbrr.Common.{
  ℕ, Bool, true, false, ◌&&◌, not, Option, none, some, List, [], ◌∷◌, ◌++◌, Text, bytes, text_eq,
  if◌then◌else◌,
}
use dockbrr.Compose.Runner.{pull_spec, up_spec}
use dockbrr.Compose.Dependents.{namespace_dependents}
use dockbrr.Compose.Rewrite.{Rewritten, rewritten, refused, LocatedImage, replace_image_line}
use dockbrr.Detect.Ref.{TagClass, floating, exact, split_ref, classify_tag}
use dockbrr.Store.Updates.Defs.{Update}
use dockbrr.Store.Updates.Defs as UpdateDefs
use dockbrr.Store.Jobs.Defs.{Scope}
use dockbrr.Job.Steps.{fail, with_tag, override_content, digest_or, record_event, fail_apply}
use dockbrr.Job.Settle.{after_up}
use dockbrr.Job.Effects.{
  good, bad, Service, Project, Remote, Blob, Snapshot, World, no_service, target_moved,
  load_service, load_project, no_open_update, unparseable, re_resolve, snapshot_failed,
  write_compose, write_override, pull_failed, up_failed, apply_started, failed, Effect,
  insert_snapshot, write_file, create_override, remove_override, compose, set_status, exited_zero,
}

-- `upd.Tag != "" && upd.Tag != trackedTag`.
unfoldable pub cross_tag : Service → Update → Bool
cross_tag svc upd = not (text_eq upd.tag []) && not (text_eq upd.tag (split_ref svc.image_ref).1)

-- The tag that the container is to run: `newTag`.
unfoldable pub new_tag : Service → Update → Text
new_tag svc upd = if cross_tag svc upd then upd.tag else (split_ref svc.image_ref).1

-- The reference that the precheck resolves: `targetRef`.
unfoldable pub target_ref : Service → Update → Text
target_ref svc upd =
    if cross_tag svc upd then with_tag (split_ref svc.image_ref).0 upd.tag else svc.image_ref

abbrev pub is_exact : TagClass → Bool
is_exact exact = true
is_exact _ = false

abbrev pub is_floating : TagClass → Bool
is_floating floating = true
is_floating _ = false

-- The staged edit: `editFile`, the content before it, `editContent`.
pub record Edit : Type 0 where
  pub file : Text
  pub before : Text
  pub after : Text

abbrev pub edit_of : Text → Text → Rewritten → Option Edit
edit_of file raw (rewritten new) = some (record { file = file; before = raw; after = new })
edit_of file raw (refused e) = none

module _ (w : World) where
  -- UP.
  unfoldable pub bring_up : Service → Project → Update → Scope → List Text → List Text → List Effect
  bring_up svc proj upd scope deps files =
      let spec = up_spec files proj.working_dir proj.name scope svc.name in
      elim (exited_zero (w.compose spec)) [
        | false ↦ compose spec false ∷ fail_apply w svc upd (up_failed (w.compose spec))
        | true ↦ compose spec true ∷ after_up w svc proj upd scope deps files
      ]

  -- PULL.
  unfoldable pub pull_images :
      Service → Project → Update → Scope → List Text → List Text → List Effect
  pull_images svc proj upd scope deps files =
      let spec = pull_spec files proj.working_dir proj.name scope svc.name in
      elim (exited_zero (w.compose spec)) [
        | false ↦ compose spec false ∷ fail_apply w svc upd (pull_failed (w.compose spec))
        | true ↦ compose spec true ∷ bring_up svc proj upd scope deps files
      ]

  -- The pin of the container by a temporary override, removed when the handler returns.
  unfoldable pub apply_pinned : Service → Project → Update → Scope → List Text → List Effect
  apply_pinned svc proj upd scope deps =
      let content = override_content svc.name (split_ref svc.image_ref).0 upd.tag upd.to_digest in
      elim (w.create_override proj.working_dir content) [
        | bad e ↦ fail_apply w svc upd (write_override e)
        | good path ↦
            create_override path content
            ∷ (pull_images svc proj upd scope deps (proj.config_files ++ (path ∷ []))
                ++ (remove_override path ∷ []))
      ]

  -- APPLY THE STAGED EFFECT.
  unfoldable pub apply_staged :
      Service → Project → Update → Scope → List Text → Option Edit → List Effect
  apply_staged svc proj upd scope deps (some e) = elim (w.write_file e.file e.after) [
    | bad x ↦ fail_apply w svc upd (write_compose x)
    | good _ ↦ write_file e.file e.after ∷ pull_images svc proj upd scope deps proj.config_files
  ]
  apply_staged svc proj upd scope deps none =
      elim (cross_tag svc upd && not (is_floating (classify_tag svc.image_ref))) [
        | true ↦ apply_pinned svc proj upd scope deps
        | false ↦ pull_images svc proj upd scope deps proj.config_files
      ]

  -- The raw status of the first container, "{}" if there is none.
  unfoldable pub first_inspect : List Text → Text
  first_inspect [] = bytes "{}"
  first_inspect (id ∷ ids) = elim (w.inspect_json id) [
    | bad e ↦ bytes "{}"
    | good json ↦ digest_or json (bytes "{}")
  ]

  abbrev pub blob_of : Option Edit → Option Blob
  blob_of none = none
  blob_of (some e) = some (record { path = e.file; content = e.before })

  abbrev pub snapshot_of : Service → Option Edit → Snapshot
  snapshot_of svc plan = record {
    prev_repo = (split_ref svc.image_ref).0;
    prev_digest = svc.current_digest;
    blob = blob_of plan;
  }

  -- SNAPSHOT, and the event of the start.
  unfoldable pub apply_snapshot :
      Service → Project → Update → Scope → List Text → Option Edit → List Effect
  apply_snapshot svc proj upd scope deps plan = elim (w.hash_files proj.config_files) [
    | bad e ↦ fail (snapshot_failed e)
    | good hash ↦ elim w.save_snapshot [
      | bad e ↦ fail (snapshot_failed e)
      | good _ ↦
          insert_snapshot svc.id (snapshot_of svc plan) hash (first_inspect svc.container_ids)
          ∷ (record_event w svc.id apply_started svc.current_digest upd.to_digest
              ++ apply_staged svc proj upd scope deps plan)
    ]
  ]

  -- The edit of a line that was located.
  unfoldable pub edit_located : Service → Update → LocatedImage → Option Edit
  edit_located svc upd loc =
      if loc.rewritable && text_eq loc.old_ref svc.image_ref
      then elim (w.read_file loc.file) [
        | bad e ↦ none
        | good raw ↦ edit_of loc.file raw (
            replace_image_line raw loc.old_ref
              (with_tag (split_ref svc.image_ref).0 (new_tag svc upd)) loc.line)
      ]
      else none

  -- PLAN: the branch is on the class of the tracked tag.
  unfoldable pub planned_edit : Service → Project → Update → Option Edit
  planned_edit svc proj upd =
      if w.write_back
        && is_exact (classify_tag svc.image_ref)
        && not (text_eq (new_tag svc upd) (split_ref svc.image_ref).1)
      then elim (w.locate_image proj.config_files svc.name) [
        | bad e ↦ none
        | good loc ↦ edit_located svc upd loc
      ]
      else none

  -- `remote.Digest != upd.ToDigest && remote.PlatformDigest != upd.ToDigest`.
  abbrev pub still_served : Remote → Update → Bool
  still_served remote upd = not (
      not (text_eq remote.digest upd.to_digest)
      && not (text_eq remote.platform_digest upd.to_digest))

  -- PRECHECK: the target is still the one that was detected.
  unfoldable pub apply_resolved :
      Service → Project → Update → Scope → List Text → Remote → List Effect
  apply_resolved svc proj upd scope deps remote = elim (still_served remote upd) [
    | false ↦
        set_status upd.id UpdateDefs.superseded
        ∷ (record_event w svc.id failed svc.current_digest upd.to_digest ++ fail target_moved)
    | true ↦ apply_snapshot svc proj upd scope deps (planned_edit svc proj upd)
  ]

  unfoldable pub apply_checked : Service → Project → Update → Scope → List Effect
  apply_checked svc proj upd scope = elim (w.parse proj.working_dir proj.config_files) [
    | bad e ↦ fail (unparseable e)
    | good services ↦ elim (w.resolve (target_ref svc upd)) [
      | bad e ↦ fail (re_resolve e)
      | good remote ↦
          apply_resolved svc proj upd scope (namespace_dependents services svc.name) remote
    ]
  ]

  unfoldable pub apply_loaded : Service → Scope → List Effect
  apply_loaded svc scope = elim (w.get_project svc.project_id) [
    | bad e ↦ fail (load_project e)
    | good proj ↦ elim (w.latest_open svc.id) [
      | bad e ↦ fail (no_open_update e)
      | good upd ↦ apply_checked svc proj upd scope
    ]
  ]

  -- `runApply`.
  unfoldable pub run_apply : Option ℕ → Scope → List Effect
  run_apply none scope = fail no_service
  run_apply (some id) scope = elim (w.get_service id) [
    | bad e ↦ fail (load_service e)
    | good svc ↦ apply_loaded svc scope
  ]
