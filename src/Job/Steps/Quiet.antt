-- ===== src/Job/Steps/Quiet.antt =====
-- The shared steps of internal/job/worker.go, and writes of compose files.
use dockbrr.Common.{refl, ℕ, Option, none, some, List, [], ◌∷◌, Text, Bool-cases, inl, inr}
use dockbrr.Store.Updates.Defs.{Update}
use dockbrr.Compose.Runner.{force_recreate_spec}
use dockbrr.Job.Effects.{
  Answer, good, bad, Service, Project, World, Reason, EventKind, failed, emit, dependent,
  Answer-cases, Note, dependent_lost, exited_zero,
}
use dockbrr.Job.Effects.Writes.{Quiet, Quiet-append}
use dockbrr.Job.Steps.{
  fail, succeed, record_event, refresh, fail_apply, rejoin, rejoin_known, rejoin_all,
  after_recreate, force_recreate, rediscovered, by_name,
}

pub fail-Quiet : (r : Reason) → Quiet (fail r)
unfolding fail
fail-Quiet r = (refl, (refl, tt))

pub succeed-Quiet : Quiet succeed
unfolding succeed
succeed-Quiet = (refl, tt)

module _ (w : World) where
  pub record_event-Quiet :
      (i : ℕ) (k : EventKind) (from to : Text) → Quiet (record_event w i k from to)
  unfolding record_event
  record_event-Quiet i k from to = elim (Answer-cases w.save_event) [
    | inl (x, e) ↦ rw (record_event, e) (refl, tt)
    | inr (x, e) ↦ rw (record_event, e) (refl, tt)
  ]

  pub fail_apply-Quiet :
      (svc : Service) (upd : Update) (r : Reason) → Quiet (fail_apply w svc upd r)
  unfolding fail_apply
  fail_apply-Quiet svc upd r = (
    refl,
    Quiet-append (record_event w svc.id failed svc.current_digest upd.to_digest) (fail r)
        (record_event-Quiet svc.id failed svc.current_digest upd.to_digest) (fail-Quiet r),
  )

  pub refresh-Quiet :
      (note : Text → Note) (i : ℕ) (ids : List Text) (d : Text)
      → Quiet (refresh w (λ e. emit (note e)) i ids d)
  unfolding refresh
  refresh-Quiet note i ids d = elim (Answer-cases (w.save_runtime i)) [
    | inl (x, e) ↦ rw (refresh, e) (refl, tt)
    | inr (x, e) ↦ rw (refresh, e) (refl, tt)
  ]

  rejoin-Quiet :
      (name : Text) (dep : Service) (a : Answer (List Text × Text)) → Quiet (rejoin w name dep a).0
  unfolding rejoin
  rejoin-Quiet name dep (bad e) = (refl, tt)
  rejoin-Quiet name dep (good ([], d)) = tt
  rejoin-Quiet name dep (good (id ∷ ids, d)) = refresh-Quiet dependent_lost dep.id (id ∷ ids) _

  rejoin_known-Quiet :
      (project name : Text) (o : Option Service) → Quiet (rejoin_known w project name o).0
  unfolding rejoin_known
  rejoin_known-Quiet project name none = tt
  rejoin_known-Quiet project name (some dep) =
      rejoin-Quiet name dep (w.locate dependent project name)

  rejoin_all-Quiet :
      (project : Text) (sibs : List Service) (ds : List Text)
      → Quiet (rejoin_all w project sibs ds).0
  unfolding rejoin_all
  rejoin_all-Quiet project sibs [] = tt
  rejoin_all-Quiet project sibs (d ∷ ds) =
      Quiet-append (rejoin_known w project d (by_name d sibs)).0 (rejoin_all w project sibs ds).0
        (rejoin_known-Quiet project d (by_name d sibs)) (rejoin_all-Quiet project sibs ds)

  after_recreate-Quiet :
      (svc : Service) (proj : Project) (deps : List Text) → Quiet (after_recreate w svc proj deps).0
  unfolding after_recreate
  after_recreate-Quiet svc proj deps =
      elim (Answer-cases (w.list_services dependent svc.project_id)) [
        | inl (sibs, e) ↦ rw (after_recreate, e) (rejoin_all-Quiet proj.name sibs deps)
        | inr (x, e) ↦ rw (after_recreate, e) (refl, tt)
      ]

  pub force_recreate-Quiet :
      (svc : Service) (proj : Project) (files deps : List Text)
      → Quiet (force_recreate w svc proj files deps).0
  unfolding force_recreate
  force_recreate-Quiet svc proj files [] = tt
  force_recreate-Quiet svc proj files (d ∷ ds) =
      elim (Bool-cases
        (exited_zero (w.compose (force_recreate_spec files proj.working_dir proj.name (d ∷ ds))))) [
          | inl e ↦ rw (force_recreate, e) (refl, after_recreate-Quiet svc proj (d ∷ ds))
          | inr e ↦ rw (force_recreate, e) (refl, (refl, tt))
        ]

  pub rediscovered-Quiet :
      (ids : List Text) (d : Text) (a : Answer (List Text × Text))
      → Quiet (rediscovered w ids d a).0
  unfolding rediscovered
  rediscovered-Quiet ids d (bad e) = (refl, tt)
  rediscovered-Quiet ids d (good ([], f)) = tt
  rediscovered-Quiet ids d (good (id ∷ rest, f)) = tt
