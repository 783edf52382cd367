-- ===== src/Job/Settle/Closes.antt =====
-- The last stages of `runApply` of internal/job/worker.go, over the protocol.
use dockbrr.Common.{
  refl, ℕ, not, ◌&&◌, List, [], ◌∷◌, ◌++◌, Text, text_eq, ◌==◌, Bool-cases, inl, inr,
}
use dockbrr.Store.Updates.Defs.{Update}
use dockbrr.Store.Jobs.Defs.{Scope, service, project}
use dockbrr.Job.Health.{Verdict, healthy, timed_out, down, health_gate}
use dockbrr.Job.Effects.{
  Answer, good, bad, Service, Project, World, succeeded, Effect, emit, mark_applied, primary,
  sibling, Answer-cases, runtime_lost, sibling_lost, apply_succeeded,
}
use dockbrr.Job.Effects as Effects
use dockbrr.Job.Effects.Protocol.{
  upped, protocol, Closes, Stays, Closes-append, Stays-append, Closes-cons, Stays-cons, Stays-nil,
  next,
}
use dockbrr.Job.Steps.{succeed, record_event, refresh, force_recreate, rediscovered}
use dockbrr.Job.Steps.Stays.{
  succeed-Closes, record_event-Stays, fail_apply-Closes, refresh-Stays, force_recreate-Stays,
  rediscovered-Stays,
}
use dockbrr.Job.Settle.{
  close_sibling, moved_sibling, refresh_sibling, refresh_siblings, close_project, settle, gate,
  check_health, after_up,
}

module _ (w : World) where
  close_sibling-Stays :
      (sib : Service) (d : Text) (a : Answer Update) → Stays upped (close_sibling w sib d a)
  unfolding close_sibling
  close_sibling-Stays sib d (bad e) = Stays-nil upped
  close_sibling-Stays sib d (good upd) = elim (Bool-cases (text_eq upd.to_digest d)) [
    | inl e ↦ rw e (
        Stays-cons upped (mark_applied upd.id)
          (record_event w sib.id succeeded sib.current_digest d) (unfold next in refl)
          (record_event-Stays w sib.id succeeded sib.current_digest d upped refl refl))
    | inr e ↦ rw e (Stays-nil upped)
  ]

  moved_sibling-Stays :
      (sib : Service) (ids : List Text) (d : Text) → Stays upped (moved_sibling w sib ids d)
  unfolding moved_sibling
  moved_sibling-Stays sib ids d =
      elim (Bool-cases (not (text_eq d []) && not (text_eq d sib.current_digest))) [
        | inl e ↦ rw e (
            Stays-append upped (refresh w (λ e. emit (sibling_lost e)) sib.id ids d)
              (close_sibling w sib d (w.latest_open sib.id))
              (refresh-Stays w sibling_lost sib.id ids d)
              (close_sibling-Stays sib d (w.latest_open sib.id)))
        | inr e ↦ rw e (Stays-nil upped)
      ]

  refresh_sibling-Stays :
      (sib : Service) (a : Answer (List Text × Text)) → Stays upped (refresh_sibling w sib a)
  unfolding refresh_sibling
  refresh_sibling-Stays sib (bad e) = unfold protocol in refl
  refresh_sibling-Stays sib (good ([], d)) = Stays-nil upped
  refresh_sibling-Stays sib (good (id ∷ ids, d)) = moved_sibling-Stays sib (id ∷ ids) d

  refresh_siblings-Stays :
      (own : ℕ) (name : Text) (ss : List Service) → Stays upped (refresh_siblings w own name ss)
  unfolding refresh_siblings
  refresh_siblings-Stays own name [] = Stays-nil upped
  refresh_siblings-Stays own name (s ∷ ss) = elim (Bool-cases (s.id == own)) [
    | inl e ↦ rw e (refresh_siblings-Stays own name ss)
    | inr e ↦ rw e (
        Stays-append upped (refresh_sibling w s (w.locate sibling name s.name))
          (refresh_siblings w own name ss) (refresh_sibling-Stays s (w.locate sibling name s.name))
          (refresh_siblings-Stays own name ss))
  ]

  close_project-Stays :
      (svc : Service) (proj : Project) (scope : Scope)
      → Stays upped (close_project w svc proj scope)
  unfolding close_project
  close_project-Stays svc proj Scope.unset = Stays-nil upped
  close_project-Stays svc proj service = Stays-nil upped
  close_project-Stays svc proj project =
      elim (Answer-cases (w.list_services sibling svc.project_id)) [
        | inl (ss, e) ↦ rw (close_project, e) (refresh_siblings-Stays svc.id proj.name ss)
        | inr (x, e) ↦ rw (close_project, e) (unfold protocol in refl)
      ]

  settle-Closes :
      (svc : Service) (proj : Project) (upd : Update) (scope : Scope) (ids : List Text) (d : Text)
      → Closes upped (settle w svc proj upd scope ids d)
  unfolding settle
  settle-Closes svc proj upd scope ids d =
      Closes-append upped (refresh w (λ e. emit (runtime_lost e)) svc.id ids d) _
        (refresh-Stays w runtime_lost svc.id ids d)
        (Closes-cons upped upped (mark_applied upd.id) _ (unfold next in refl) (
          Closes-append upped (record_event w svc.id succeeded svc.current_digest upd.to_digest) _
            (record_event-Stays w svc.id succeeded svc.current_digest upd.to_digest upped refl refl)
            (Closes-append upped (close_project w svc proj scope) _
              (close_project-Stays svc proj scope)
              (Closes-cons upped upped (emit apply_succeeded) succeed (unfold next in refl)
                succeed-Closes))))

  gate-Closes :
      (svc : Service) (proj : Project) (upd : Update) (scope : Scope) (ids : List Text) (d : Text)
      (v : Verdict)
      → Closes upped (gate w svc proj upd scope ids d v)
  unfolding gate
  gate-Closes svc proj upd scope ids d healthy = settle-Closes svc proj upd scope ids d
  gate-Closes svc proj upd scope ids d timed_out =
      fail_apply-Closes w svc upd Effects.timed_out upped refl
  gate-Closes svc proj upd scope ids d (down id st) =
      fail_apply-Closes w svc upd (Effects.unhealthy id st) upped refl

  check_health-Closes :
      (svc : Service) (proj : Project) (upd : Update) (scope : Scope) (extra : List Text)
      (r : List Effect × List Text × Text)
      → Stays upped r.0
      → Closes upped (check_health w svc proj upd scope extra r)
  unfolding check_health
  check_health-Closes svc proj upd scope extra (notes, ids, d) h = Closes-append upped notes _ h (
      gate-Closes svc proj upd scope (ids ++ extra) d
        (health_gate w.inspect w.polls (ids ++ extra)))

  pub after_up-Closes :
      (svc : Service) (proj : Project) (upd : Update) (scope : Scope) (deps files : List Text)
      → Closes upped (after_up w svc proj upd scope deps files)
  unfolding after_up
  after_up-Closes svc proj upd scope deps files =
      let found =
        rediscovered w svc.container_ids upd.to_digest (w.locate primary proj.name svc.name) in
      let forced = force_recreate w svc proj files deps in
      Closes-append upped forced.0 (check_health w svc proj upd scope forced.1 found)
        (force_recreate-Stays w svc proj files deps)
        (check_health-Closes svc proj upd scope forced.1 found (
          rediscovered-Stays w svc.container_ids upd.to_digest
            (w.locate primary proj.name svc.name)))
