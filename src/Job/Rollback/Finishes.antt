-- ===== src/Job/Rollback/Finishes.antt =====
-- `runRollback` of internal/job/worker.go, over the protocol.
use dockbrr.Common.{
  refl, ℕ, true, false, Option, none, some, List, [], ◌∷◌, ◌++◌, Text, text_eq, Bool-cases, inl,
  inr,
}
use dockbrr.Store.Jobs.Defs.{Scope}
use dockbrr.Compose.Runner.{pull_spec, up_spec}
use dockbrr.Compose.Dependents.{Service as ComposeService}
use dockbrr.Job.Effects.{
  Answer, good, bad, Service, Project, Blob, Snapshot, World, rolled_back, Effect, emit,
  create_override, write_file, compose, Answer-cases, exited_zero, primary, no_service,
  load_service, load_project, no_snapshot, no_previous_digest, restore_compose, write_override,
  pull_failed, up_failed, runtime_lost, rollback_succeeded,
}
use dockbrr.Job.Effects.Protocol.{
  snapped, pulled, upped, broken, protocol, removed-Closes, Closes, Stays, Closes-append,
  Closes-cons, next,
}
use dockbrr.Job.Steps.{
  succeed, record_event, refresh, override_content, force_recreate, rediscovered,
}
use dockbrr.Job.Steps.Stays.{
  fail-Closes, succeed-Closes, record_event-Stays, refresh-Stays, force_recreate-Stays,
  rediscovered-Stays,
}
use dockbrr.Job.Rollback.{
  skipped, detected, mark_reverted, settle_rollback, after_rollback_up, rollback_up,
  rollback_pull_up, repin, restore, revert, rollback_from, rollback_loaded, run_rollback,
}

skipped-Stays : (a : Answer (List ComposeService)) → Stays pulled (skipped a)
unfolding protocol
skipped-Stays (good x) = refl
skipped-Stays (bad e) = refl

module _ (w : World) where
  mark_reverted-Stays : (svc : Service) → Stays upped (mark_reverted w svc)
  unfolding mark_reverted
  mark_reverted-Stays svc = elim (Answer-cases w.save_rolled_back) [
    | inl (x, e) ↦ rw (mark_reverted, e) (unfold protocol in refl)
    | inr (x, e) ↦ rw (mark_reverted, e) (unfold protocol in refl)
  ]

  settle_rollback-Closes :
      (svc : Service) (prev : Text) (r : List Effect × List Text × Text)
      → Stays upped r.0
      → Closes upped (settle_rollback w svc prev r)
  unfolding settle_rollback
  settle_rollback-Closes svc prev (notes, ids, dig) h = Closes-append upped notes _ h (
      Closes-append upped (refresh w (λ e. emit (runtime_lost e)) svc.id ids dig) _
        (refresh-Stays w runtime_lost svc.id ids dig)
        (Closes-append upped (mark_reverted w svc) _ (mark_reverted-Stays svc) (
          Closes-append upped (record_event w svc.id rolled_back svc.current_digest prev) _
            (record_event-Stays w svc.id rolled_back svc.current_digest prev upped refl refl)
            (Closes-cons upped upped (emit rollback_succeeded) succeed (unfold next in refl)
              succeed-Closes))))

  after_rollback_up-Closes :
      (svc : Service) (proj : Project) (prev : Text) (deps files : List Text)
      → Closes upped (after_rollback_up w svc proj prev deps files)
  unfolding after_rollback_up
  after_rollback_up-Closes svc proj prev deps files =
      let found = rediscovered w svc.container_ids prev (w.locate primary proj.name svc.name) in
      Closes-append upped (force_recreate w svc proj files deps).0
        (settle_rollback w svc prev found) (force_recreate-Stays w svc proj files deps)
        (settle_rollback-Closes svc prev found
          (rediscovered-Stays w svc.container_ids prev (w.locate primary proj.name svc.name)))

  rollback_up-Closes :
      (svc : Service) (proj : Project) (scope : Scope) (prev : Text) (deps files : List Text)
      → Closes pulled (rollback_up w svc proj scope prev deps files)
  unfolding rollback_up
  rollback_up-Closes svc proj scope prev deps files =
      let spec = up_spec files proj.working_dir proj.name scope svc.name in
      elim (Bool-cases (exited_zero (w.compose spec))) [
        | inl e ↦
            rw (rollback_up, e)
              (Closes-cons pulled upped (compose spec true) _ (unfold next up_spec in refl)
                (after_rollback_up-Closes svc proj prev deps files))
        | inr e ↦
            rw (rollback_up, e)
              (Closes-cons pulled broken (compose spec false) _ (unfold next up_spec in refl)
                (fail-Closes (up_failed (w.compose spec)) broken refl))
      ]

  rollback_pull_up-Closes :
      (svc : Service) (proj : Project) (scope : Scope) (prev : Text) (files : List Text)
      → Closes snapped (rollback_pull_up w svc proj scope prev files)
  unfolding rollback_pull_up
  rollback_pull_up-Closes svc proj scope prev files =
      let spec = pull_spec files proj.working_dir proj.name scope svc.name in
      let parsed = w.parse proj.working_dir proj.config_files in
      elim (Bool-cases (exited_zero (w.compose spec))) [
        | inl e ↦
            rw (rollback_pull_up, e)
              (Closes-cons snapped pulled (compose spec true) _ (unfold next pull_spec in refl) (
                Closes-append pulled (skipped parsed)
                  (rollback_up w svc proj scope prev (detected svc.name parsed) files)
                  (skipped-Stays parsed)
                  (rollback_up-Closes svc proj scope prev (detected svc.name parsed) files)))
        | inr e ↦
            rw (rollback_pull_up, e)
              (Closes-cons snapped broken (compose spec false) _ (unfold next pull_spec in refl)
                (fail-Closes (pull_failed (w.compose spec)) broken refl))
      ]

  repin-Closes :
      (svc : Service) (proj : Project) (scope : Scope) (snap : Snapshot)
      → Closes snapped (repin w svc proj scope snap)
  unfolding repin
  repin-Closes svc proj scope snap =
      let content = override_content svc.name snap.prev_repo [] snap.prev_digest in
      elim (Answer-cases (w.create_override proj.working_dir content)) [
        | inl (path, e) ↦
            rw (repin, e)
              (Closes-cons snapped snapped (create_override path content) _ (unfold next in refl) (
                removed-Closes snapped path
                  (rollback_pull_up w svc proj scope snap.prev_digest
                    (proj.config_files ++ (path ∷ [])))
                  (rollback_pull_up-Closes svc proj scope snap.prev_digest
                    (proj.config_files ++ (path ∷ [])))))
        | inr (x, e) ↦ rw (repin, e) (fail-Closes (write_override x) snapped refl)
      ]

  restore-Closes :
      (svc : Service) (proj : Project) (scope : Scope) (snap : Snapshot) (b : Blob)
      → Closes snapped (restore w svc proj scope snap b)
  unfolding restore
  restore-Closes svc proj scope snap b = elim (Answer-cases (w.write_file b.path b.content)) [
    | inl (x, e) ↦
        rw (restore, e)
          (Closes-cons snapped snapped (write_file b.path b.content) _ (unfold next in refl)
            (rollback_pull_up-Closes svc proj scope snap.prev_digest proj.config_files))
    | inr (x, e) ↦ rw (restore, e) (fail-Closes (restore_compose x) snapped refl)
  ]

  revert-Closes :
      (svc : Service) (proj : Project) (scope : Scope) (snap : Snapshot) (o : Option Blob)
      → Closes snapped (revert w svc proj scope snap o)
  unfolding revert
  revert-Closes svc proj scope snap none = repin-Closes svc proj scope snap
  revert-Closes svc proj scope snap (some b) = elim (Bool-cases (text_eq b.path [])) [
    | inl e ↦ rw e (repin-Closes svc proj scope snap)
    | inr e ↦ rw e (restore-Closes svc proj scope snap b)
  ]

  rollback_from-Closes :
      (svc : Service) (proj : Project) (scope : Scope) (snap : Snapshot)
      → Closes snapped (rollback_from w svc proj scope snap)
  unfolding rollback_from
  rollback_from-Closes svc proj scope snap = elim (Bool-cases (text_eq snap.prev_digest [])) [
    | inl e ↦ rw e (fail-Closes no_previous_digest snapped refl)
    | inr e ↦ rw e (revert-Closes svc proj scope snap snap.blob)
  ]

  rollback_loaded-Closes :
      (svc : Service) (scope : Scope) → Closes snapped (rollback_loaded w svc scope)
  unfolding rollback_loaded
  rollback_loaded-Closes svc scope = elim (Answer-cases (w.get_project svc.project_id)) [
    | inr (x, e) ↦ rw (rollback_loaded, e) (fail-Closes (load_project x) snapped refl)
    | inl (proj, e) ↦ elim (Answer-cases (w.latest_snapshot svc.id)) [
      | inr (x, k) ↦ rw (rollback_loaded, e, k) (fail-Closes (no_snapshot x) snapped refl)
      | inl (snap, k) ↦ rw (rollback_loaded, e, k) (rollback_from-Closes svc proj scope snap)
    ]
  ]

-- Whatever the world answers, the effects of a rollback are in the order of the protocol.
pub run_rollback-Closes :
    (w : World) (target : Option ℕ) (scope : Scope) → Closes snapped (run_rollback w target scope)
unfolding run_rollback
run_rollback-Closes w none scope = fail-Closes no_service snapped refl
run_rollback-Closes w (some id) scope = elim (Answer-cases (w.get_service id)) [
  | inr (x, e) ↦ rw (run_rollback, e) (fail-Closes (load_service x) snapped refl)
  | inl (svc, e) ↦ rw (run_rollback, e) (rollback_loaded-Closes w svc scope)
]
