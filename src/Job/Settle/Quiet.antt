-- ===== src/Job/Settle/Quiet.antt =====
-- The last stages of `runApply` of internal/job/worker.go, and writes of compose files.
use dockbrr.Common.{
  refl, ℕ, not, ◌&&◌, List, [], ◌∷◌, ◌++◌, Text, text_eq, ◌==◌, Bool-cases, inl, inr,
}
use dockbrr.Store.Updates.Defs.{Update}
use dockbrr.Store.Jobs.Defs.{Scope, service, project}
use dockbrr.Job.Health.{Verdict, healthy, timed_out, down, health_gate}
use dockbrr.Job.Effects.{
  Answer, good, bad, Service, Project, World, succeeded, emit, primary, sibling, Answer-cases,
  runtime_lost, sibling_lost, Effect,
}
use dockbrr.Job.Effects as Effects
use dockbrr.Job.Effects.Writes.{Quiet, Quiet-append}
use dockbrr.Job.Steps.{record_event, refresh, force_recreate, rediscovered}
use dockbrr.Job.Steps.Quiet.{
  succeed-Quiet, record_event-Quiet, fail_apply-Quiet, refresh-Quiet, force_recreate-Quiet,
  rediscovered-Quiet,
}
use dockbrr.Job.Settle.{
  close_sibling, moved_sibling, refresh_sibling, refresh_siblings, close_project, settle, gate,
  check_health, after_up,
}

module _ (w : World) where
  close_sibling-Quiet :
      (sib : Service) (d : Text) (a : Answer Update) → Quiet (close_sibling w sib d a)
  unfolding close_sibling
  close_sibling-Quiet sib d (bad e) = tt
  close_sibling-Quiet sib d (good upd) = elim (Bool-cases (text_eq upd.to_digest d)) [
    | inl e ↦ rw e (refl, record_event-Quiet w sib.id succeeded sib.current_digest d)
    | inr e ↦ rw e tt
  ]

  moved_sibling-Quiet :
      (sib : Service) (ids : List Text) (d : Text) → Quiet (moved_sibling w sib ids d)
  unfolding moved_sibling
  moved_sibling-Quiet sib ids d =
      elim (Bool-cases (not (text_eq d []) && not (text_eq d sib.current_digest))) [
        | inl e ↦ rw e (
            Quiet-append (refresh w (λ e. emit (sibling_lost e)) sib.id ids d)
              (close_sibling w sib d (w.latest_open sib.id))
              (refresh-Quiet w sibling_lost sib.id ids d)
              (close_sibling-Quiet sib d (w.latest_open sib.id)))
        | inr e ↦ rw e tt
      ]

  refresh_sibling-Quiet :
      (sib : Service) (a : Answer (List Text × Text)) → Quiet (refresh_sibling w sib a)
  unfolding refresh_sibling
  refresh_sibling-Quiet sib (bad e) = (refl, tt)
  refresh_sibling-Quiet sib (good ([], d)) = tt
  refresh_sibling-Quiet sib (good (id ∷ ids, d)) = moved_sibling-Quiet sib (id ∷ ids) d

  refresh_siblings-Quiet :
      (own : ℕ) (name : Text) (ss : List Service) → Quiet (refresh_siblings w own name ss)
  unfolding refresh_siblings
  refresh_siblings-Quiet own name [] = tt
  refresh_siblings-Quiet own name (s ∷ ss) = elim (Bool-cases (s.id == own)) [
    | inl e ↦ rw e (refresh_siblings-Quiet own name ss)
    | inr e ↦ rw e (
        Quiet-append (refresh_sibling w s (w.locate sibling name s.name))
          (refresh_siblings w own name ss) (refresh_sibling-Quiet s (w.locate sibling name s.name))
          (refresh_siblings-Quiet own name ss))
  ]

  close_project-Quiet :
      (svc : Service) (proj : Project) (scope : Scope) → Quiet (close_project w svc proj scope)
  unfolding close_project
  close_project-Quiet svc proj Scope.unset = tt
  close_project-Quiet svc proj service = tt
  close_project-Quiet svc proj project =
      elim (Answer-cases (w.list_services sibling svc.project_id)) [
        | inl (ss, e) ↦ rw (close_project, e) (refresh_siblings-Quiet svc.id proj.name ss)
        | inr (x, e) ↦ rw (close_project, e) (refl, tt)
      ]

  settle-Quiet :
      (svc : Service) (proj : Project) (upd : Update) (scope : Scope) (ids : List Text) (d : Text)
      → Quiet (settle w svc proj upd scope ids d)
  unfolding settle
  settle-Quiet svc proj upd scope ids d =
      Quiet-append (refresh w (λ e. emit (runtime_lost e)) svc.id ids d) _
        (refresh-Quiet w runtime_lost svc.id ids d)
        (
          refl,
          Quiet-append (record_event w svc.id succeeded svc.current_digest upd.to_digest) _
              (record_event-Quiet w svc.id succeeded svc.current_digest upd.to_digest)
              (Quiet-append (close_project w svc proj scope) _ (close_project-Quiet svc proj scope)
                (refl, succeed-Quiet)),
        )

  gate-Quiet :
      (svc : Service) (proj : Project) (upd : Update) (scope : Scope) (ids : List Text) (d : Text)
      (v : Verdict)
      → Quiet (gate w svc proj upd scope ids d v)
  unfolding gate
  gate-Quiet svc proj upd scope ids d healthy = settle-Quiet svc proj upd scope ids d
  gate-Quiet svc proj upd scope ids d timed_out = fail_apply-Quiet w svc upd Effects.timed_out
  gate-Quiet svc proj upd scope ids d (down id st) =
      fail_apply-Quiet w svc upd (Effects.unhealthy id st)

  check_health-Quiet :
      (svc : Service) (proj : Project) (upd : Update) (scope : Scope) (extra : List Text)
      (r : List Effect × List Text × Text)
      → Quiet r.0
      → Quiet (check_health w svc proj upd scope extra r)
  unfolding check_health
  check_health-Quiet svc proj upd scope extra (notes, ids, d) h = Quiet-append notes _ h (
      gate-Quiet svc proj upd scope (ids ++ extra) d (health_gate w.inspect w.polls (ids ++ extra)))

  pub after_up-Quiet :
      (svc : Service) (proj : Project) (upd : Update) (scope : Scope) (deps files : List Text)
      → Quiet (after_up w svc proj upd scope deps files)
  unfolding after_up
  after_up-Quiet svc proj upd scope deps files =
      let found =
        rediscovered w svc.container_ids upd.to_digest (w.locate primary proj.name svc.name) in
      let forced = force_recreate w svc proj files deps in
      Quiet-append forced.0 (check_health w svc proj upd scope forced.1 found)
        (force_recreate-Quiet w svc proj files deps)
        (check_health-Quiet svc proj upd scope forced.1 found (
          rediscovered-Quiet w svc.container_ids upd.to_digest
            (w.locate primary proj.name svc.name)))
