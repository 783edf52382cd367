-- ===== src/Job/Apply/Finishes.antt =====
-- `runApply` of internal/job/worker.go, over the protocol.
use dockbrr.Common.{
  refl, ℕ, true, false, not, ◌&&◌, Option, none, some, List, [], ◌∷◌, ◌++◌, Text, Bool-cases, inl,
  inr,
}
use dockbrr.Store.Updates.Defs.{Update}
use dockbrr.Store.Updates.Defs as UpdateDefs
use dockbrr.Store.Jobs.Defs.{Scope}
use dockbrr.Compose.Runner.{pull_spec, up_spec}
use dockbrr.Compose.Dependents.{namespace_dependents}
use dockbrr.Detect.Ref.{split_ref, classify_tag}
use dockbrr.Job.Effects.{
  Service, Project, Remote, World, failed, apply_started, create_override, write_file,
  insert_snapshot, set_status, compose, Answer-cases, exited_zero, no_service, target_moved,
  load_service, load_project, no_open_update, unparseable, re_resolve, snapshot_failed,
  write_compose, write_override, pull_failed, up_failed,
}
use dockbrr.Job.Effects.Protocol.{
  fresh, snapped, pulled, upped, broken, removed-Closes, Closes, Closes-append, Closes-cons, next,
}
use dockbrr.Job.Steps.{fail, record_event, fail_apply, override_content}
use dockbrr.Job.Steps.Stays.{fail-Closes, record_event-Stays, fail_apply-Closes}
use dockbrr.Job.Settle.{after_up}
use dockbrr.Job.Settle.Closes.{after_up-Closes}
use dockbrr.Job.Apply.{
  cross_tag, target_ref, is_floating, Edit, bring_up, pull_images, apply_pinned, apply_staged,
  first_inspect, snapshot_of, apply_snapshot, planned_edit, still_served, apply_resolved,
  apply_checked, apply_loaded, run_apply,
}

module _ (w : World) where
  bring_up-Closes :
      (svc : Service) (proj : Project) (upd : Update) (scope : Scope) (deps files : List Text)
      → Closes pulled (bring_up w svc proj upd scope deps files)
  unfolding bring_up
  bring_up-Closes svc proj upd scope deps files =
      let spec = up_spec files proj.working_dir proj.name scope svc.name in
      elim (Bool-cases (exited_zero (w.compose spec))) [
        | inl e ↦
            rw (bring_up, e)
              (Closes-cons pulled upped (compose spec true)
                (after_up w svc proj upd scope deps files) (unfold next up_spec in refl)
                (after_up-Closes w svc proj upd scope deps files))
        | inr e ↦
            rw (bring_up, e)
              (Closes-cons pulled broken (compose spec false)
                (fail_apply w svc upd (up_failed (w.compose spec))) (unfold next up_spec in refl)
                (fail_apply-Closes w svc upd (up_failed (w.compose spec)) broken refl))
      ]

  pull_images-Closes :
      (svc : Service) (proj : Project) (upd : Update) (scope : Scope) (deps files : List Text)
      → Closes snapped (pull_images w svc proj upd scope deps files)
  unfolding pull_images
  pull_images-Closes svc proj upd scope deps files =
      let spec = pull_spec files proj.working_dir proj.name scope svc.name in
      elim (Bool-cases (exited_zero (w.compose spec))) [
        | inl e ↦
            rw (pull_images, e)
              (Closes-cons snapped pulled (compose spec true)
                (bring_up w svc proj upd scope deps files) (unfold next pull_spec in refl)
                (bring_up-Closes svc proj upd scope deps files))
        | inr e ↦
            rw (pull_images, e)
              (Closes-cons snapped broken (compose spec false)
                (fail_apply w svc upd (pull_failed (w.compose spec)))
                (unfold next pull_spec in refl)
                (fail_apply-Closes w svc upd (pull_failed (w.compose spec)) broken refl))
      ]

  apply_pinned-Closes :
      (svc : Service) (proj : Project) (upd : Update) (scope : Scope) (deps : List Text)
      → Closes snapped (apply_pinned w svc proj upd scope deps)
  unfolding apply_pinned
  apply_pinned-Closes svc proj upd scope deps =
      let content = override_content svc.name (split_ref svc.image_ref).0 upd.tag upd.to_digest in
      elim (Answer-cases (w.create_override proj.working_dir content)) [
        | inl (path, e) ↦
            rw (apply_pinned, e)
              (Closes-cons snapped snapped (create_override path content) _ (unfold next in refl) (
                removed-Closes snapped path
                  (pull_images w svc proj upd scope deps (proj.config_files ++ (path ∷ [])))
                  (pull_images-Closes svc proj upd scope deps (proj.config_files ++ (path ∷ [])))))
        | inr (x, e) ↦
            rw (apply_pinned, e) (fail_apply-Closes w svc upd (write_override x) snapped refl)
      ]

  apply_staged-Closes :
      (svc : Service) (proj : Project) (upd : Update) (scope : Scope) (deps : List Text)
      (plan : Option Edit)
      → Closes snapped (apply_staged w svc proj upd scope deps plan)
  unfolding apply_staged
  apply_staged-Closes svc proj upd scope deps (some ed) =
      elim (Answer-cases (w.write_file ed.file ed.after)) [
        | inl (x, e) ↦
            rw (apply_staged, e)
              (Closes-cons snapped snapped (write_file ed.file ed.after) _ (unfold next in refl)
                (pull_images-Closes svc proj upd scope deps proj.config_files))
        | inr (x, e) ↦
            rw (apply_staged, e) (fail_apply-Closes w svc upd (write_compose x) snapped refl)
      ]
  apply_staged-Closes svc proj upd scope deps none =
      elim (Bool-cases (cross_tag svc upd && not (is_floating (classify_tag svc.image_ref)))) [
        | inl e ↦ rw (apply_staged, e) (apply_pinned-Closes svc proj upd scope deps)
        | inr e ↦
            rw (apply_staged, e) (pull_images-Closes svc proj upd scope deps proj.config_files)
      ]

  apply_snapshot-Closes :
      (svc : Service) (proj : Project) (upd : Update) (scope : Scope) (deps : List Text)
      (plan : Option Edit)
      → Closes fresh (apply_snapshot w svc proj upd scope deps plan)
  unfolding apply_snapshot
  apply_snapshot-Closes svc proj upd scope deps plan =
      elim (Answer-cases (w.hash_files proj.config_files)) [
        | inr (x, e) ↦ rw (apply_snapshot, e) (fail-Closes (snapshot_failed x) fresh refl)
        | inl (hash, e) ↦ elim (Answer-cases w.save_snapshot) [
          | inr (x, k) ↦ rw (apply_snapshot, e, k) (fail-Closes (snapshot_failed x) fresh refl)
          | inl (x, k) ↦
              rw (apply_snapshot, e, k)
                (Closes-cons fresh snapped
                  (insert_snapshot svc.id (snapshot_of w svc plan) hash
                    (first_inspect w svc.container_ids))
                  _ (unfold next in refl)
                  (Closes-append snapped
                    (record_event w svc.id apply_started svc.current_digest upd.to_digest)
                    (apply_staged w svc proj upd scope deps plan)
                    (record_event-Stays w svc.id apply_started svc.current_digest upd.to_digest
                      snapped refl refl)
                    (apply_staged-Closes svc proj upd scope deps plan)))
        ]
      ]

  apply_resolved-Closes :
      (svc : Service) (proj : Project) (upd : Update) (scope : Scope) (deps : List Text)
      (remote : Remote)
      → Closes fresh (apply_resolved w svc proj upd scope deps remote)
  unfolding apply_resolved
  apply_resolved-Closes svc proj upd scope deps remote =
      elim (Bool-cases (still_served w remote upd)) [
        | inl e ↦
            rw (apply_resolved, e)
              (apply_snapshot-Closes svc proj upd scope deps (planned_edit w svc proj upd))
        | inr e ↦
            rw (apply_resolved, e)
              (Closes-cons fresh fresh (set_status upd.id UpdateDefs.superseded) _
                (unfold next in refl)
                (Closes-append fresh (record_event w svc.id failed svc.current_digest upd.to_digest)
                  (fail target_moved)
                  (record_event-Stays w svc.id failed svc.current_digest upd.to_digest fresh refl
                    refl)
                  (fail-Closes target_moved fresh refl)))
      ]

  apply_checked-Closes :
      (svc : Service) (proj : Project) (upd : Update) (scope : Scope)
      → Closes fresh (apply_checked w svc proj upd scope)
  unfolding apply_checked
  apply_checked-Closes svc proj upd scope =
      elim (Answer-cases (w.parse proj.working_dir proj.config_files)) [
        | inr (x, e) ↦ rw (apply_checked, e) (fail-Closes (unparseable x) fresh refl)
        | inl (services, e) ↦ elim (Answer-cases (w.resolve (target_ref svc upd))) [
          | inr (x, k) ↦ rw (apply_checked, e, k) (fail-Closes (re_resolve x) fresh refl)
          | inl (remote, k) ↦
              rw (apply_checked, e, k)
                (apply_resolved-Closes svc proj upd scope (namespace_dependents services svc.name)
                  remote)
        ]
      ]

  apply_loaded-Closes : (svc : Service) (scope : Scope) → Closes fresh (apply_loaded w svc scope)
  unfolding apply_loaded
  apply_loaded-Closes svc scope = elim (Answer-cases (w.get_project svc.project_id)) [
    | inr (x, e) ↦ rw (apply_loaded, e) (fail-Closes (load_project x) fresh refl)
    | inl (proj, e) ↦ elim (Answer-cases (w.latest_open svc.id)) [
      | inr (x, k) ↦ rw (apply_loaded, e, k) (fail-Closes (no_open_update x) fresh refl)
      | inl (upd, k) ↦ rw (apply_loaded, e, k) (apply_checked-Closes svc proj upd scope)
    ]
  ]

-- Whatever the world answers, the effects of an apply are in the order of the protocol: nothing is
-- written, pulled or started before a snapshot is saved, a pull with exit code 0 precedes the `up`, an
-- update is marked applied only with the containers up, and the job gets exactly one terminal result.
pub run_apply-Closes :
    (w : World) (target : Option ℕ) (scope : Scope) → Closes fresh (run_apply w target scope)
unfolding run_apply
run_apply-Closes w none scope = fail-Closes no_service fresh refl
run_apply-Closes w (some id) scope = elim (Answer-cases (w.get_service id)) [
  | inr (x, e) ↦ rw (run_apply, e) (fail-Closes (load_service x) fresh refl)
  | inl (svc, e) ↦ rw (run_apply, e) (apply_loaded-Closes w svc scope)
]
