-- ===== src/Job/Steps.antt =====
-- What `runApply` and `runRollback` of internal/job/worker.go share: the records of an outcome, the
-- pin override, the recreation of the services that share a namespace, and the re-discovery.
pub mod Stays
pub mod Quiet
use dockbrr.Common.{
  ℕ, true, false, Option, none, some, List, [], ◌∷◌, ◌++◌, Text, bytes, text_eq, if◌then◌else◌,
}
use dockbrr.Compose.Runner.{force_recreate_spec}
use dockbrr.Store.Updates.Defs.{Update}
use dockbrr.Store.Updates.Defs as UpdateDefs
use dockbrr.Store.Jobs.Defs as JobDefs
use dockbrr.Job.Effects.{
  Answer, good, bad, Service, Project, dependent, World, Reason, reason, event_lost,
  relocation_failed, dependents_lost, dependent_lost, recreate_failed, EventKind, failed, Effect,
  emit, event, compose, set_status, update_runtime, finish, exited_zero,
}

-- `fail`.
unfoldable pub fail : Reason → List Effect
fail r = emit (reason r) ∷ finish JobDefs.failed none (some r) ∷ []

-- `succeed`.
unfoldable pub succeed : List Effect
succeed = finish JobDefs.success (some 0) none ∷ []

-- An image reference "repo:tag".
abbrev pub with_tag : Text → Text → Text
with_tag repo tag = repo ++ (b':' ∷ tag)

-- `ref` of `writePinOverride`, and the content of the override.
unfoldable pub override_content : Text → Text → Text → Text → Text
override_content name repo tag dig =
    let ref = if text_eq tag [] then repo ++ (b'@' ∷ dig) else with_tag repo tag ++ (b'@' ∷ dig) in
    bytes "services:\n  " ++ (name ++ (bytes ":\n    image: " ++ (ref ++ bytes "\n")))

-- `byName[…]`: of two services with one name the later one.
unfoldable pub by_name : Text → List Service → Option Service
by_name name [] = none
by_name name (s ∷ ss) = elim (by_name name ss) [
  | none ↦ if text_eq s.name name then some s else none
  | some r ↦ some r
]

-- The digest that was found, if any.
abbrev pub digest_or : Text → Text → Text
digest_or [] d = d
digest_or (c ∷ s) d = c ∷ s

module _ (w : World) where
  -- `event`: an insert that fails is noted in the log.
  unfoldable pub record_event : ℕ → EventKind → Text → Text → List Effect
  record_event service kind from to = elim w.save_event [
    | good _ ↦ event service kind from to ∷ []
    | bad e ↦ emit (event_lost e) ∷ []
  ]

  -- `UpdateRuntime`, with the note of a failure.
  unfoldable pub refresh : (Text → Effect) → ℕ → List Text → Text → List Effect
  refresh lost service ids dig = elim (w.save_runtime service) [
    | good _ ↦ update_runtime service ids dig ∷ []
    | bad e ↦ lost e ∷ []
  ]

  -- `failApply`.
  unfoldable pub fail_apply : Service → Update → Reason → List Effect
  fail_apply svc upd r =
      set_status upd.id UpdateDefs.failed
      ∷ (record_event svc.id failed svc.current_digest upd.to_digest ++ fail r)

  -- One dependent, once recreated: what is done, and its container ids.
  unfoldable pub rejoin : Text → Service → Answer (List Text × Text) → List Effect × List Text
  rejoin name dep (bad e) = (emit (dependent_lost e) ∷ [], [])
  rejoin name dep (good ([], dig)) = ([], [])
  rejoin name dep (good (id ∷ ids, dig)) = (
    refresh (λ e. emit (dependent_lost e)) dep.id (id ∷ ids) (digest_or dig dep.current_digest),
    id ∷ ids,
  )

  -- A name that is not tracked is passed over.
  unfoldable pub rejoin_known : Text → Text → Option Service → List Effect × List Text
  rejoin_known project_name name none = ([], [])
  rejoin_known project_name name (some dep) = rejoin name dep (w.locate dependent project_name name)

  -- The loop over `nsDeps`.
  unfoldable pub rejoin_all : Text → List Service → List Text → List Effect × List Text
  rejoin_all project_name sibs [] = ([], [])
  rejoin_all project_name sibs (d ∷ ds) =
      let one = rejoin_known project_name d (by_name d sibs) in
      let rest = rejoin_all project_name sibs ds in (one.0 ++ rest.0, one.1 ++ rest.1)

  -- `forceRecreateNamespaceDependents` once compose exited with 0.
  unfoldable pub after_recreate : Service → Project → List Text → List Effect × List Text
  after_recreate svc proj deps = elim (w.list_services dependent svc.project_id) [
    | bad e ↦ (emit (dependents_lost e) ∷ [], [])
    | good sibs ↦ rejoin_all proj.name sibs deps
  ]

  -- `forceRecreateNamespaceDependents`.
  unfoldable pub force_recreate :
      Service → Project → List Text → List Text → List Effect × List Text
  force_recreate svc proj files [] = ([], [])
  force_recreate svc proj files (d ∷ ds) =
      let spec = force_recreate_spec files proj.working_dir proj.name (d ∷ ds) in
      elim (exited_zero (w.compose spec)) [
        | false ↦ (compose spec false ∷ emit (recreate_failed (d ∷ ds) (w.compose spec)) ∷ [], [])
        | true ↦ let rest = after_recreate svc proj (d ∷ ds) in (compose spec true ∷ rest.0, rest.1)
      ]

  -- The ids and the digest behind a re-discovery, with the note of a failure.
  unfoldable pub rediscovered :
      List Text → Text → Answer (List Text × Text) → List Effect × List Text × Text
  rediscovered ids dig (bad e) = (emit (relocation_failed e) ∷ [], ids, dig)
  rediscovered ids dig (good ([], found)) = ([], ids, dig)
  rediscovered ids dig (good (id ∷ rest, found)) = ([], id ∷ rest, digest_or found dig)
