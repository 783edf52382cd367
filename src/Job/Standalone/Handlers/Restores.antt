-- ===== src/Job/Standalone/Handlers/Restores.antt =====
-- What `runApply` and `runRollback` of internal/job/standalone.go leave of the container they replace.
use dockbrr.Common.{
  ◌≡◌, refl, sym, inl, inr, ℕ, Bool, true, false, some, List, [], ◌∷◌, ◌++◌, Text, text_eq, subst,
  if◌then◌else◌, Bool-cases,
}
use dockbrr.Store.Updates.Defs.{Update}
use dockbrr.Store.Updates.Defs as UpdateDefs
use dockbrr.Store.Jobs.Defs.{
  JobType, check, apply, rollback, sync, start, stop, restart, remove, self_update, other,
}
use dockbrr.Job.Effects.{Answer, good, bad, Answer-cases, Service, Remote, succeeded, EventKind}
use dockbrr.Job.Effects as Effects
use dockbrr.Job.Standalone.{
  World, Snapshot, recreating, restoring, Reason, Effect, emit, event, insert_snapshot, pull,
  set_status, written, fail, record_event, fail_apply, health_gating, Note, update_runtime,
  update_image_ref, mark_applied, mark_rolled_back, snapshot_failed, pull_failed, target_moved,
  apply_succeeded, rolled_back, re_resolve, empty_inspect, inspect_current, no_open_update,
  load_service, no_snapshot, no_previous_state, no_container, no_service, unknown_type,
}
use dockbrr.Job.Standalone as Standalone
use dockbrr.Job.Standalone.Swap.Tracked.{moved, track, Untouched, Untouched-append}
use dockbrr.Job.Standalone.Swap.Outcome.{
  is_success, has_success, any-append, Safe, Untouched-Safe, Fresh, swap-Safe,
}
use dockbrr.Job.Standalone.Handlers.{
  target_ref, close_apply, replace, pull_target, take_snapshot, inspected, has_moved, precheck,
  apply_container, apply_loaded, run_apply, close_rollback, pinned_ref, rollback_container,
  lacks_state, rollback_loaded, run_rollback, handle,
}

module _ (w : World) (old : Text) where
  nil-Untouched : Untouched old []
  unfolding track
  nil-Untouched p = refl

  fail-Untouched : (r : Reason) → Untouched old (fail r)
  unfolding fail track moved
  fail-Untouched r p = refl

  written_event-Untouched :
      (a : Answer (Unit {0})) (i : ℕ) (k : EventKind) (x y : Text)
      → Untouched old (written a (event i k x y))
  unfolding track moved
  written_event-Untouched (good _) i k x y p = refl
  written_event-Untouched (bad _) i k x y p = refl

  status-Untouched :
      (i : ℕ) (st : UpdateDefs.Status) (es : List Effect)
      → Untouched old es
      → Untouched old (set_status i st ∷ es)
  unfolding track moved
  status-Untouched i st es h p = h p

  recorded-Untouched :
      (i : ℕ) (k : EventKind) (x y : Text) (r : Reason)
      → Untouched old (record_event w i k x y ++ fail r)
  unfolding record_event
  recorded-Untouched i k x y r =
      Untouched-append old (written w.save_event (event i k x y)) (fail r)
        (written_event-Untouched w.save_event i k x y) (fail-Untouched r)

  fail_apply-Untouched :
      (svc : Service) (upd : Update) (r : Reason) → Untouched old (fail_apply w svc upd r)
  unfolding fail_apply
  fail_apply-Untouched svc upd r =
      status-Untouched upd.id UpdateDefs.failed _
        (recorded-Untouched svc.id Effects.failed svc.current_digest upd.to_digest r)

  emit-Safe :
      (name : Text) (n : Note) (es : List Effect) → Safe old name es → Safe old name (emit n ∷ es)
  unfolding track moved
  emit-Safe name n es h = h

  pull-Safe :
      (name ref : Text) (ok : Bool) (es : List Effect)
      → Safe old name es
      → Safe old name (pull ref ok ∷ es)
  unfolding track moved
  pull-Safe name ref ok es h = h

  snapshot-Safe :
      (name : Text) (i : ℕ) (sn : Snapshot) (es : List Effect)
      → Safe old name es
      → Safe old name (insert_snapshot i sn ∷ es)
  unfolding track moved
  snapshot-Safe name i sn es h = h

  fail-Safe : (name : Text) (r : Reason) → Safe old name (fail r)
  fail-Safe name r = Untouched-Safe old name (fail r) (fail-Untouched r)

  close_apply-succeeds :
      (svc : Service) (upd : Update) (target new : Text)
      → has_success (close_apply w svc upd old target new) ≡ true
  unfolding close_apply Standalone.succeed
  close_apply-succeeds svc upd target new =
      any-append is_success
        (written w.save_runtime (update_runtime svc.id (new ∷ []) upd.to_digest)) _
        (any-append is_success
          (if text_eq target svc.image_ref
            then []
            else written w.save_image_ref (update_image_ref svc.id target))
          _
          (any-append is_success (record_event w svc.id succeeded svc.current_digest upd.to_digest)
            _ refl))

  close_rollback-succeeds :
      (svc : Service) (snap : Snapshot) (new : Text)
      → has_success (close_rollback w svc snap old new) ≡ true
  unfolding close_rollback Standalone.succeed
  close_rollback-succeeds svc snap new =
      any-append is_success
        (written w.save_runtime (update_runtime svc.id (new ∷ []) snap.prev_digest)) _
        (any-append is_success
          (written w.save_rolled_back (mark_rolled_back svc.id svc.current_digest)) _
          (any-append is_success
            (record_event w svc.id Effects.rolled_back svc.current_digest snap.prev_digest) _ refl))

  module _ (svc : Service) (renamed : w.container_rename old svc.name ≡ good tt)
      (started : w.container_start restoring old ≡ good tt) (fresh : Fresh w old svc.name) where
    gating-Untouched : Untouched old (emit health_gating ∷ [])
    unfolding track moved
    gating-Untouched p = refl

    replace-Safe :
        (upd : Update) (inspect target : Text)
        → Safe old svc.name (replace w svc upd old inspect target)
    unfolding replace
    replace-Safe upd inspect target = emit-Safe svc.name Standalone.recreating _ (
        swap-Safe w old svc.name renamed started (emit health_gating ∷ []) gating-Untouched
          (fail_apply w svc upd) (fail_apply-Untouched svc upd) (close_apply w svc upd old target)
          (close_apply-succeeds svc upd target) fresh inspect target)

    pull_target-Safe :
        (upd : Update) (inspect target : Text)
        → Safe old svc.name (pull_target w svc upd old inspect target)
    unfolding pull_target
    pull_target-Safe upd inspect target = elim (Answer-cases (w.image_pull target)) [
      | inl (_, e) ↦
          rw (pull_target, e)
            (emit-Safe svc.name (Standalone.pulling target) _
              (pull-Safe svc.name target true _ (replace-Safe upd inspect target)))
      | inr (x, e) ↦
          rw (pull_target, e)
            (emit-Safe svc.name (Standalone.pulling target) _ (
              pull-Safe svc.name target false _
                (Untouched-Safe old svc.name _ (fail_apply-Untouched svc upd (pull_failed x)))))
    ]

    take_snapshot-Safe :
        (upd : Update) (inspect target : Text)
        → Safe old svc.name (take_snapshot w svc upd old inspect target)
    unfolding take_snapshot
    take_snapshot-Safe upd inspect target = elim (Answer-cases w.save_snapshot) [
      | inl (_, e) ↦
          rw (take_snapshot, e)
            (snapshot-Safe svc.name svc.id _ _ (
              emit-Safe svc.name Standalone.snapshot_taken _ (pull_target-Safe upd inspect target)))
      | inr (x, e) ↦ rw (take_snapshot, e) (fail-Safe svc.name (snapshot_failed x))
    ]

    inspected-Safe :
        (upd : Update) (target : Text) (a : Answer Text)
        → Safe old svc.name (inspected w svc upd old target a)
    unfolding inspected
    inspected-Safe upd target (bad e) = fail-Safe svc.name (inspect_current e)
    inspected-Safe upd target (good []) = fail-Safe svc.name empty_inspect
    inspected-Safe upd target (good (c ∷ json)) = take_snapshot-Safe upd (c ∷ json) target

    precheck-Safe :
        (upd : Update) (target : Text) (remote : Remote)
        → Safe old svc.name (precheck w svc upd old target remote)
    unfolding precheck
    precheck-Safe upd target remote = elim (Bool-cases (has_moved remote upd)) [
      | inl e ↦
          rw (precheck, e)
            (Untouched-Safe old svc.name _ (
              status-Untouched upd.id UpdateDefs.superseded _ (
                recorded-Untouched svc.id Effects.failed svc.current_digest upd.to_digest
                  target_moved)))
      | inr e ↦ rw (precheck, e) (inspected-Safe upd target (w.inspect_json old))
    ]

    apply_container-Safe :
        (upd : Update) (ids : List Text) → Safe old svc.name (apply_container w svc upd (old ∷ ids))
    unfolding apply_container
    apply_container-Safe upd ids = elim (Answer-cases (w.resolve (target_ref svc upd))) [
      | inl (remote, e) ↦
          rw (apply_container, e)
            (emit-Safe svc.name Standalone.resolving _
              (precheck-Safe upd (target_ref svc upd) remote))
      | inr (x, e) ↦
          rw (apply_container, e)
            (emit-Safe svc.name Standalone.resolving _ (fail-Safe svc.name (re_resolve x)))
    ]

    apply_loaded-Safe :
        (ids : List Text) → svc.container_ids ≡ old ∷ ids → Safe old svc.name (apply_loaded w svc)
    unfolding apply_loaded
    apply_loaded-Safe ids h = elim (Answer-cases (w.latest_open svc.id)) [
      | inl (upd, e) ↦
          rw (apply_loaded, e)
            (subst (λ l. Safe old svc.name (apply_container w svc upd l)) (sym h)
              (apply_container-Safe upd ids))
      | inr (x, e) ↦ rw (apply_loaded, e) (fail-Safe svc.name (no_open_update x))
    ]

    rollback_container-Safe :
        (snap : Snapshot) (ids : List Text)
        → Safe old svc.name (rollback_container w svc snap (old ∷ ids))
    unfolding rollback_container
    rollback_container-Safe snap ids = elim (Answer-cases (w.image_pull (pinned_ref snap))) [
      | inl (_, e) ↦
          rw (rollback_container, e)
            (emit-Safe svc.name Standalone.rolling_back _ (
              pull-Safe svc.name (pinned_ref snap) true _ (
                swap-Safe w old svc.name renamed started [] nil-Untouched fail fail-Untouched
                  (close_rollback w svc snap old) (close_rollback-succeeds svc snap) fresh
                  snap.prev_container_inspect (pinned_ref snap))))
      | inr (x, e) ↦
          rw (rollback_container, e)
            (emit-Safe svc.name Standalone.rolling_back _
              (pull-Safe svc.name (pinned_ref snap) false _ (fail-Safe svc.name (pull_failed x))))
    ]

    rollback_loaded-Safe :
        (ids : List Text)
        → svc.container_ids ≡ old ∷ ids
        → Safe old svc.name (rollback_loaded w svc)
    unfolding rollback_loaded
    rollback_loaded-Safe ids h = elim (Answer-cases (w.latest_snapshot svc.id)) [
      | inl (snap, e) ↦ elim (Bool-cases (lacks_state snap)) [
        | inl k ↦ rw (rollback_loaded, e, k) (fail-Safe svc.name no_previous_state)
        | inr k ↦
            rw (rollback_loaded, e, k)
              (subst (λ l. Safe old svc.name (rollback_container w svc snap l)) (sym h)
                (rollback_container-Safe snap ids))
      ]
      | inr (x, e) ↦ rw (rollback_loaded, e) (fail-Safe svc.name (no_snapshot x))
    ]

module _ (w : World) (id : ℕ) (svc : Service) (old : Text) (ids : List Text)
    (e : w.get_service id ≡ good svc) (h : svc.container_ids ≡ old ∷ ids)
    (renamed : w.container_rename old svc.name ≡ good tt)
    (started : w.container_start restoring old ≡ good tt) (fresh : Fresh w old svc.name) where
  run_apply-Safe : Safe old svc.name (run_apply w (some id))
  unfolding run_apply
  run_apply-Safe = rw (run_apply, e) (apply_loaded-Safe w old svc renamed started fresh ids h)

  run_rollback-Safe : Safe old svc.name (run_rollback w (some id))
  unfolding run_rollback
  run_rollback-Safe =
      rw (run_rollback, e) (rollback_loaded-Safe w old svc renamed started fresh ids h)

-- A job of a standalone service leaves its container running under its name, unless the job succeeds:
-- if the daemon gives a new container an id of its own, and the rename back and the start of the old
-- container work. This is so wherever an apply or a rollback fails, in a precheck, the pull, the
-- recreation or the health gate.
pub handle-Safe :
    (w : World) (type : JobType) (id : ℕ) (svc : Service) (old : Text) (ids : List Text)
    → w.get_service id ≡ good svc
    → svc.container_ids ≡ old ∷ ids
    → w.container_rename old svc.name ≡ good tt
    → w.container_start restoring old ≡ good tt
    → Fresh w old svc.name
    → Safe old svc.name (handle w type (some id))
unfolding handle
handle-Safe w apply id svc old ids e h r s f = run_apply-Safe w id svc old ids e h r s f
handle-Safe w rollback id svc old ids e h r s f = run_rollback-Safe w id svc old ids e h r s f
handle-Safe w check id svc old ids e h r s f = fail-Safe w old svc.name unknown_type
handle-Safe w sync id svc old ids e h r s f = fail-Safe w old svc.name unknown_type
handle-Safe w start id svc old ids e h r s f = fail-Safe w old svc.name unknown_type
handle-Safe w stop id svc old ids e h r s f = fail-Safe w old svc.name unknown_type
handle-Safe w restart id svc old ids e h r s f = fail-Safe w old svc.name unknown_type
handle-Safe w remove id svc old ids e h r s f = fail-Safe w old svc.name unknown_type
handle-Safe w self_update id svc old ids e h r s f = fail-Safe w old svc.name unknown_type
handle-Safe w (other t) id svc old ids e h r s f = fail-Safe w old svc.name unknown_type
