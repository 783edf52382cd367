-- ===== src/Job/Settle.antt =====
-- The last stages of `runApply` of internal/job/worker.go, once the containers are up: the recreation
-- of dependents, the re-discovery, the health gate and the records of a success.
pub mod Closes
pub mod Quiet
use dockbrr.Common.{ℕ, ◌&&◌, not, List, [], ◌∷◌, ◌++◌, Text, text_eq, ◌==◌, if◌then◌else◌}
use dockbrr.Store.Updates.Defs.{Update}
use dockbrr.Store.Jobs.Defs.{Scope, project}
use dockbrr.Job.Health.{Verdict, health_gate}
use dockbrr.Job.Health as Health
use dockbrr.Job.Steps.{succeed, record_event, refresh, fail_apply, force_recreate, rediscovered}
use dockbrr.Job.Effects.{
  Answer, good, bad, Service, Project, primary, sibling, World, timed_out, unhealthy, runtime_lost,
  siblings_lost, sibling_lost, apply_succeeded, succeeded, Effect, emit, mark_applied,
}

module _ (w : World) where
  -- The open update of a sibling is closed if this very `up` delivered it.
  unfoldable pub close_sibling : Service → Text → Answer Update → List Effect
  close_sibling sib dig (bad e) = []
  close_sibling sib dig (good upd) =
      if text_eq upd.to_digest dig
      then mark_applied upd.id ∷ record_event w sib.id succeeded sib.current_digest dig
      else []

  -- A sibling that runs.
  unfoldable pub moved_sibling : Service → List Text → Text → List Effect
  moved_sibling sib ids dig =
      if not (text_eq dig []) && not (text_eq dig sib.current_digest)
      then refresh w (λ e. emit (sibling_lost e)) sib.id ids dig
        ++ close_sibling sib dig (w.latest_open sib.id)
      else []

  unfoldable pub refresh_sibling : Service → Answer (List Text × Text) → List Effect
  refresh_sibling sib (bad e) = emit (sibling_lost e) ∷ []
  refresh_sibling sib (good ([], dig)) = []
  refresh_sibling sib (good (id ∷ ids, dig)) = moved_sibling sib (id ∷ ids) dig

  -- The loop over the siblings.
  unfoldable pub refresh_siblings : ℕ → Text → List Service → List Effect
  refresh_siblings own project_name [] = []
  refresh_siblings own project_name (s ∷ ss) =
      let rest = refresh_siblings own project_name ss in
      (if s.id == own then [] else refresh_sibling s (w.locate sibling project_name s.name)) ++ rest

  -- The project scope's part of the success.
  unfoldable pub close_project : Service → Project → Scope → List Effect
  close_project svc proj project = elim (w.list_services sibling svc.project_id) [
    | bad e ↦ emit (siblings_lost e) ∷ []
    | good sibs ↦ refresh_siblings svc.id proj.name sibs
  ]
  close_project svc proj _ = []

  -- SUCCESS.
  unfoldable pub settle : Service → Project → Update → Scope → List Text → Text → List Effect
  settle svc proj upd scope ids dig =
      refresh w (λ e. emit (runtime_lost e)) svc.id ids dig
      ++ (mark_applied upd.id
          ∷ (record_event w svc.id succeeded svc.current_digest upd.to_digest
              ++ (close_project svc proj scope ++ (emit apply_succeeded ∷ succeed))))

  -- HEALTH GATE.
  unfoldable pub gate :
      Service → Project → Update → Scope → List Text → Text → Verdict → List Effect
  gate svc proj upd scope ids dig Health.healthy = settle svc proj upd scope ids dig
  gate svc proj upd scope ids dig Health.timed_out = fail_apply w svc upd timed_out
  gate svc proj upd scope ids dig (Health.down id st) = fail_apply w svc upd (unhealthy id st)

  -- RE-DISCOVER, and the gate over the ids found, the forced dependents included.
  unfoldable pub check_health :
      Service → Project → Update → Scope → List Text → List Effect × List Text × Text → List Effect
  check_health svc proj upd scope extra (notes, ids, dig) =
      notes
      ++ gate svc proj upd scope (ids ++ extra) dig (health_gate w.inspect w.polls (ids ++ extra))

  -- NAMESPACE-DEPENDENT RECREATE and what follows.
  unfoldable pub after_up : Service → Project → Update → Scope → List Text → List Text → List Effect
  after_up svc proj upd scope deps files =
      let forced = force_recreate w svc proj files deps in
      forced.0
      ++ check_health svc proj upd scope forced.1
          (rediscovered w svc.container_ids upd.to_digest (w.locate primary proj.name svc.name))
