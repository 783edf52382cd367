-- ===== src/Job/Apply/Floating.antt =====
-- `runApply` of internal/job/worker.go for a service with a floating tag.
use dockbrr.Common.{
  ◌≡◌, refl, ℕ, Bool, true, false, not, ◌&&◌, none, some, List, Text, Bool-cases, inl, inr,
}
use dockbrr.Store.Updates.Defs.{Update}
use dockbrr.Store.Jobs.Defs.{Scope}
use dockbrr.Compose.Runner.{pull_spec, up_spec}
use dockbrr.Compose.Dependents.{namespace_dependents}
use dockbrr.Detect.Ref.{floating, classify_tag}
use dockbrr.Job.Effects.{
  good, Service, Project, Remote, World, failed, apply_started, Answer-cases, exited_zero,
  target_moved, load_project, no_open_update, unparseable, re_resolve, snapshot_failed, pull_failed,
  up_failed,
}
use dockbrr.Job.Effects.Writes.{Quiet, Quiet-append}
use dockbrr.Job.Steps.{fail, record_event}
use dockbrr.Job.Steps.Quiet.{fail-Quiet, record_event-Quiet, fail_apply-Quiet}
use dockbrr.Job.Settle.Quiet.{after_up-Quiet}
use dockbrr.Job.Apply.{
  cross_tag, target_ref, is_floating, bring_up, pull_images, apply_staged, apply_snapshot,
  planned_edit, still_served, apply_resolved, apply_checked, apply_loaded, run_apply,
}

module _ (w : World) where
  bring_up-Quiet :
      (svc : Service) (proj : Project) (upd : Update) (scope : Scope) (deps files : List Text)
      → Quiet (bring_up w svc proj upd scope deps files)
  unfolding bring_up
  bring_up-Quiet svc proj upd scope deps files =
      let spec = up_spec files proj.working_dir proj.name scope svc.name in
      elim (Bool-cases (exited_zero (w.compose spec))) [
        | inl e ↦ rw (bring_up, e) (refl, after_up-Quiet w svc proj upd scope deps files)
        | inr e ↦ rw (bring_up, e) (refl, fail_apply-Quiet w svc upd (up_failed (w.compose spec)))
      ]

  pull_images-Quiet :
      (svc : Service) (proj : Project) (upd : Update) (scope : Scope) (deps files : List Text)
      → Quiet (pull_images w svc proj upd scope deps files)
  unfolding pull_images
  pull_images-Quiet svc proj upd scope deps files =
      let spec = pull_spec files proj.working_dir proj.name scope svc.name in
      elim (Bool-cases (exited_zero (w.compose spec))) [
        | inl e ↦ rw (pull_images, e) (refl, bring_up-Quiet svc proj upd scope deps files)
        | inr e ↦
            rw (pull_images, e) (refl, fail_apply-Quiet w svc upd (pull_failed (w.compose spec)))
      ]

  module _ (svc : Service) (f : classify_tag svc.image_ref ≡ floating) where
    unpinned :
        (upd : Update)
        → (cross_tag svc upd && not (is_floating (classify_tag svc.image_ref))) ≡ false
    unpinned upd = rw f (never (cross_tag svc upd))
      where
        never : (b : Bool) → (b && false) ≡ false
        never true = refl
        never false = refl

    -- Nothing is planned.
    unplanned : (proj : Project) (upd : Update) → planned_edit w svc proj upd ≡ none
    unfolding planned_edit
    unplanned proj upd = elim (Bool-cases w.write_back) [
      | inl e ↦ rw (e, f) refl
      | inr e ↦ rw e refl
    ]

    staged-Quiet :
        (proj : Project) (upd : Update) (scope : Scope) (deps : List Text)
        → Quiet (apply_staged w svc proj upd scope deps none)
    unfolding apply_staged
    staged-Quiet proj upd scope deps =
        rw (apply_staged, unpinned upd)
          (pull_images-Quiet svc proj upd scope deps proj.config_files)

    apply_snapshot-Quiet :
        (proj : Project) (upd : Update) (scope : Scope) (deps : List Text)
        → Quiet (apply_snapshot w svc proj upd scope deps none)
    unfolding apply_snapshot
    apply_snapshot-Quiet proj upd scope deps =
        elim (Answer-cases (w.hash_files proj.config_files)) [
          | inr (x, e) ↦ rw (apply_snapshot, e) (fail-Quiet (snapshot_failed x))
          | inl (hash, e) ↦ elim (Answer-cases w.save_snapshot) [
            | inr (x, k) ↦ rw (apply_snapshot, e, k) (fail-Quiet (snapshot_failed x))
            | inl (x, k) ↦
                rw (apply_snapshot, e, k)
                  (
                    refl,
                    Quiet-append
                        (record_event w svc.id apply_started svc.current_digest upd.to_digest)
                        (apply_staged w svc proj upd scope deps none)
                        (record_event-Quiet w svc.id apply_started svc.current_digest upd.to_digest)
                        (staged-Quiet proj upd scope deps),
                  )
          ]
        ]

    apply_resolved-Quiet :
        (proj : Project) (upd : Update) (scope : Scope) (deps : List Text) (remote : Remote)
        → Quiet (apply_resolved w svc proj upd scope deps remote)
    unfolding apply_resolved
    apply_resolved-Quiet proj upd scope deps remote =
        elim (Bool-cases (still_served w remote upd)) [
          | inl e ↦
              rw (apply_resolved, e, unplanned proj upd) (apply_snapshot-Quiet proj upd scope deps)
          | inr e ↦
              rw (apply_resolved, e)
                (
                  refl,
                  Quiet-append (record_event w svc.id failed svc.current_digest upd.to_digest)
                      (fail target_moved)
                      (record_event-Quiet w svc.id failed svc.current_digest upd.to_digest)
                      (fail-Quiet target_moved),
                )
        ]

    apply_checked-Quiet :
        (proj : Project) (upd : Update) (scope : Scope) → Quiet (apply_checked w svc proj upd scope)
    unfolding apply_checked
    apply_checked-Quiet proj upd scope =
        elim (Answer-cases (w.parse proj.working_dir proj.config_files)) [
          | inr (x, e) ↦ rw (apply_checked, e) (fail-Quiet (unparseable x))
          | inl (services, e) ↦ elim (Answer-cases (w.resolve (target_ref svc upd))) [
            | inr (x, k) ↦ rw (apply_checked, e, k) (fail-Quiet (re_resolve x))
            | inl (remote, k) ↦
                rw (apply_checked, e, k)
                  (apply_resolved-Quiet proj upd scope (namespace_dependents services svc.name)
                    remote)
          ]
        ]

    apply_loaded-Quiet : (scope : Scope) → Quiet (apply_loaded w svc scope)
    unfolding apply_loaded
    apply_loaded-Quiet scope = elim (Answer-cases (w.get_project svc.project_id)) [
      | inr (x, e) ↦ rw (apply_loaded, e) (fail-Quiet (load_project x))
      | inl (proj, e) ↦ elim (Answer-cases (w.latest_open svc.id)) [
        | inr (x, k) ↦ rw (apply_loaded, e, k) (fail-Quiet (no_open_update x))
        | inl (upd, k) ↦ rw (apply_loaded, e, k) (apply_checked-Quiet proj upd scope)
      ]
    ]

-- An apply of a service whose tracked tag is floating writes no compose file and no override, whatever
-- update is open for it and whatever else the world answers.
pub run_apply-Quiet :
    (w : World) (id : ℕ) (svc : Service) (scope : Scope)
    → w.get_service id ≡ good svc
    → classify_tag svc.image_ref ≡ floating
    → Quiet (run_apply w (some id) scope)
unfolding run_apply
run_apply-Quiet w id svc scope h f = rw (run_apply, h) (apply_loaded-Quiet w svc f scope)
