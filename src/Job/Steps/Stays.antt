-- ===== src/Job/Steps/Stays.antt =====
-- The shared steps of internal/job/worker.go, over the protocol.
use dockbrr.Common.{
  ◌≡◌, refl, ℕ, true, Option, none, some, List, [], ◌∷◌, ◌++◌, Text, arith, Bool-cases, inl, inr,
}
use dockbrr.Store.Updates.Defs.{Update}
use dockbrr.Store.Updates.Defs as UpdateDefs
use dockbrr.Compose.Runner.{force_recreate_spec}
use dockbrr.Job.Effects.{
  Answer, good, bad, Service, Project, World, Reason, EventKind, failed, emit, set_status, compose,
  dependent, Answer-cases, Note, dependent_lost, exited_zero,
}
use dockbrr.Job.Effects.Protocol.{
  Stage, upped, is_open, protocol, Closes, Stays, Closes-append, Stays-append, Closes-cons,
  Stays-cons, Stays-nil, next, event_step,
}
use dockbrr.Job.Steps.{
  fail, succeed, record_event, refresh, fail_apply, rejoin, rejoin_known, rejoin_all,
  after_recreate, force_recreate, rediscovered, by_name,
}

pub fail-Closes : (r : Reason) (s : Stage) → is_open s ≡ true → Closes s (fail r)
unfolding fail protocol
fail-Closes r s h = ground arith

pub succeed-Closes : Closes upped succeed
unfolding succeed protocol
succeed-Closes = refl

module _ (w : World) where
  pub record_event-Stays :
      (i : ℕ) (k : EventKind) (from to : Text) (s : Stage)
      → event_step k s ≡ some s
      → is_open s ≡ true
      → Stays s (record_event w i k from to)
  unfolding record_event protocol
  record_event-Stays i k from to s h o = ground arith

  pub fail_apply-Closes :
      (svc : Service) (upd : Update) (r : Reason) (s : Stage)
      → is_open s ≡ true
      → Closes s (fail_apply w svc upd r)
  unfolding fail_apply
  fail_apply-Closes svc upd r s h =
      Closes-cons s s (set_status upd.id UpdateDefs.failed)
        (record_event w svc.id failed svc.current_digest upd.to_digest ++ fail r)
        (unfold next in ground arith)
        (Closes-append s (record_event w svc.id failed svc.current_digest upd.to_digest) (fail r)
          (record_event-Stays svc.id failed svc.current_digest upd.to_digest s (ground arith) h)
          (fail-Closes r s h))

  pub refresh-Stays :
      (note : Text → Note) (i : ℕ) (ids : List Text) (d : Text)
      → Stays upped (refresh w (λ e. emit (note e)) i ids d)
  unfolding refresh protocol
  refresh-Stays note i ids d = ground arith

  rejoin-Stays :
      (name : Text) (dep : Service) (a : Answer (List Text × Text))
      → Stays upped (rejoin w name dep a).0
  unfolding rejoin
  rejoin-Stays name dep (bad e) = unfold protocol in refl
  rejoin-Stays name dep (good ([], d)) = unfold protocol in refl
  rejoin-Stays name dep (good (id ∷ ids, d)) = refresh-Stays dependent_lost dep.id (id ∷ ids) _

  rejoin_known-Stays :
      (project name : Text) (o : Option Service) → Stays upped (rejoin_known w project name o).0
  unfolding rejoin_known
  rejoin_known-Stays project name none = Stays-nil upped
  rejoin_known-Stays project name (some dep) =
      rejoin-Stays name dep (w.locate dependent project name)

  rejoin_all-Stays :
      (project : Text) (sibs : List Service) (ds : List Text)
      → Stays upped (rejoin_all w project sibs ds).0
  unfolding rejoin_all
  rejoin_all-Stays project sibs [] = Stays-nil upped
  rejoin_all-Stays project sibs (d ∷ ds) =
      Stays-append upped (rejoin_known w project d (by_name d sibs)).0
        (rejoin_all w project sibs ds).0 (rejoin_known-Stays project d (by_name d sibs))
        (rejoin_all-Stays project sibs ds)

  after_recreate-Stays :
      (svc : Service) (proj : Project) (deps : List Text)
      → Stays upped (after_recreate w svc proj deps).0
  unfolding after_recreate
  after_recreate-Stays svc proj deps =
      elim (Answer-cases (w.list_services dependent svc.project_id)) [
        | inl (sibs, e) ↦ rw (after_recreate, e) (rejoin_all-Stays proj.name sibs deps)
        | inr (x, e) ↦ rw (after_recreate, e) (unfold protocol in refl)
      ]

  pub force_recreate-Stays :
      (svc : Service) (proj : Project) (files deps : List Text)
      → Stays upped (force_recreate w svc proj files deps).0
  unfolding force_recreate
  force_recreate-Stays svc proj files [] = Stays-nil upped
  force_recreate-Stays svc proj files (d ∷ ds) =
      let spec = force_recreate_spec files proj.working_dir proj.name (d ∷ ds) in
      elim (Bool-cases (exited_zero (w.compose spec))) [
        | inl e ↦
            rw (force_recreate, e)
              (Stays-cons upped (compose spec true) (after_recreate w svc proj (d ∷ ds)).0
                (unfold next force_recreate_spec in refl) (after_recreate-Stays svc proj (d ∷ ds)))
        | inr e ↦ rw (force_recreate, e) (unfold protocol force_recreate_spec in refl)
      ]

  pub rediscovered-Stays :
      (ids : List Text) (d : Text) (a : Answer (List Text × Text))
      → Stays upped (rediscovered w ids d a).0
  unfolding rediscovered protocol
  rediscovered-Stays ids d (bad e) = refl
  rediscovered-Stays ids d (good ([], f)) = refl
  rediscovered-Stays ids d (good (id ∷ rest, f)) = refl
