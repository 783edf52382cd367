-- ===== src/Job/Standalone/Handlers/Finishes.antt =====
-- The order in which the handlers of internal/job/standalone.go act, and their terminal result.
use dockbrr.Common.{
  ◌≡◌, refl, ℕ, true, Bool-cases, Option, none, some, List, [], ◌∷◌, ◌++◌, inl, inr, Text, text_eq,
  if◌then◌else◌, by_cases,
}
use dockbrr.Common.Automaton.{Leads-cons, follow}
use dockbrr.Store.Updates.Defs.{Update}
use dockbrr.Store.Updates.Defs as UpdateDefs
use dockbrr.Store.Jobs.Defs as JobDefs
use dockbrr.Store.Jobs.Defs.{
  JobType, check, apply, rollback, sync, stop, restart, remove, self_update, other,
}
use dockbrr.Job.Effects.{Answer, good, bad, Answer-cases, Service, Remote, EventKind, succeeded}
use dockbrr.Job.Effects as Effects
use dockbrr.Job.Standalone.{
  World, Snapshot, Reason, Effect, emit, event, pull, set_status, update_image_ref, update_runtime,
  mark_rolled_back, written, fail, succeed, record_event, fail_apply, health_gating, pull_failed,
  snapshot_failed, target_moved, re_resolve, empty_inspect, inspect_current, no_open_update,
  load_service, no_service, no_container, no_snapshot, no_previous_state, unknown_type,
}
use dockbrr.Job.Standalone as Standalone
use dockbrr.Job.Standalone.Protocol.{
  Stage, fresh, snapped, pulled, broken, closed, next, Closes, is_open,
}
use dockbrr.Job.Standalone.Swap.Closes.{swap-Closes}
use dockbrr.Job.Standalone.Handlers.{
  target_ref, has_moved, pinned_ref, lacks_state, close_apply, replace, pull_target, take_snapshot,
  inspected, precheck, apply_container, apply_loaded, run_apply, close_rollback, rollback_container,
  rollback_loaded, run_rollback, handle,
}

fail-Closes : (s : Stage) (r : Reason) → is_open s ≡ true → Closes s (fail r)
unfolding fail follow next
fail-Closes fresh r h = refl
fail-Closes snapped r h = refl
fail-Closes pulled r h = refl
fail-Closes broken r h = refl
fail-Closes closed r h = cc

module _ (w : World) where
  written-Closes :
      {A : Type 0} (s : Stage) (a : Answer A) (e : Effect) (es : List Effect)
      → next e s ≡ some s
      → Closes s es
      → Closes s (written a e ++ es)
  written-Closes s (good _) e es h k = Leads-cons next s s closed e es h k
  written-Closes s (bad _) e es h k = k

  event-Closes :
      (s : Stage) (i : ℕ) (k : EventKind) (x y : Text) (es : List Effect)
      → next (event i k x y) s ≡ some s
      → Closes s es
      → Closes s (record_event w i k x y ++ es)
  unfolding record_event
  event-Closes s i k x y es h c = written-Closes s w.save_event (event i k x y) es h c

  fail_apply-Closes :
      (s : Stage) (svc : Service) (upd : Update) (r : Reason)
      → ((i : ℕ) (k : EventKind) (x y : Text) → next (event i k x y) s ≡ some s)
      → ((i : ℕ) → next (set_status i UpdateDefs.failed) s ≡ some s)
      → is_open s ≡ true
      → Closes s (fail_apply w svc upd r)
  unfolding fail_apply
  fail_apply-Closes s svc upd r h k o = Leads-cons next s s closed _ _ (k upd.id) (
      event-Closes s svc.id Effects.failed svc.current_digest upd.to_digest (fail r) (h _ _ _ _)
        (fail-Closes s r o))

  fail_pulled-Closes :
      (svc : Service) (upd : Update) (r : Reason) → Closes pulled (fail_apply w svc upd r)
  unfolding next
  fail_pulled-Closes svc upd r =
      fail_apply-Closes pulled svc upd r (λ i k x y. refl) (λ i. refl) refl

  -- The end of an apply.
  abbrev applied : Service → Update → List Effect
  applied svc upd =
      Standalone.mark_applied upd.id
      ∷ (record_event w svc.id succeeded svc.current_digest upd.to_digest
          ++ (emit Standalone.apply_succeeded ∷ succeed))

  applied-Closes : (svc : Service) (upd : Update) → Closes pulled (applied svc upd)
  unfolding succeed next follow
  applied-Closes svc upd =
      event-Closes pulled svc.id succeeded svc.current_digest upd.to_digest
        (emit Standalone.apply_succeeded ∷ succeed) refl refl

  close_apply-Closes :
      (svc : Service) (upd : Update) (old target new : Text)
      → Closes pulled (close_apply w svc upd old target new)
  unfolding close_apply next follow
  close_apply-Closes svc upd old target new =
      written-Closes pulled w.save_runtime (update_runtime svc.id (new ∷ []) upd.to_digest) _ refl (
        by_cases
          (λ b. Closes pulled (
            (if b then [] else written w.save_image_ref (update_image_ref svc.id target))
            ++ applied svc upd))
          (text_eq target svc.image_ref) (λ _. applied-Closes svc upd)
          (λ _.
            written-Closes pulled w.save_image_ref (update_image_ref svc.id target)
              (applied svc upd) refl (applied-Closes svc upd)))

  replace-Closes :
      (svc : Service) (upd : Update) (old inspect target : Text)
      → Closes pulled (replace w svc upd old inspect target)
  unfolding replace next follow
  replace-Closes svc upd old inspect target =
      swap-Closes w old svc.name (emit health_gating ∷ []) (refl, tt) (fail_apply w svc upd)
        (fail_pulled-Closes svc upd) (close_apply w svc upd old target)
        (close_apply-Closes svc upd old target) inspect target

  pull_target-Closes :
      (svc : Service) (upd : Update) (old inspect target : Text)
      → Closes snapped (pull_target w svc upd old inspect target)
  unfolding pull_target next follow
  pull_target-Closes svc upd old inspect target = elim (Answer-cases (w.image_pull target)) [
    | inl (_, e) ↦ rw (pull_target, e) (replace-Closes svc upd old inspect target)
    | inr (x, e) ↦
        rw (pull_target, e)
          (fail_apply-Closes broken svc upd (pull_failed x) (λ i k x y. refl) (λ i. refl) refl)
  ]

  take_snapshot-Closes :
      (svc : Service) (upd : Update) (old inspect target : Text)
      → Closes fresh (take_snapshot w svc upd old inspect target)
  unfolding take_snapshot next follow
  take_snapshot-Closes svc upd old inspect target = elim (Answer-cases w.save_snapshot) [
    | inl (_, e) ↦ rw (take_snapshot, e) (pull_target-Closes svc upd old inspect target)
    | inr (x, e) ↦ rw (take_snapshot, e) (fail-Closes fresh (snapshot_failed x) refl)
  ]

  inspected-Closes :
      (svc : Service) (upd : Update) (old target : Text) (a : Answer Text)
      → Closes fresh (inspected w svc upd old target a)
  unfolding inspected
  inspected-Closes svc upd old target (bad e) = fail-Closes fresh (inspect_current e) refl
  inspected-Closes svc upd old target (good []) = fail-Closes fresh empty_inspect refl
  inspected-Closes svc upd old target (good (c ∷ json)) =
      take_snapshot-Closes svc upd old (c ∷ json) target

  precheck-Closes :
      (svc : Service) (upd : Update) (old target : Text) (remote : Remote)
      → Closes fresh (precheck w svc upd old target remote)
  unfolding precheck next follow
  precheck-Closes svc upd old target remote = elim (Bool-cases (has_moved remote upd)) [
    | inl e ↦
        rw (precheck, e)
          (event-Closes fresh svc.id Effects.failed svc.current_digest upd.to_digest
            (fail target_moved) refl (fail-Closes fresh target_moved refl))
    | inr e ↦ rw (precheck, e) (inspected-Closes svc upd old target (w.inspect_json old))
  ]

  apply_container-Closes :
      (svc : Service) (upd : Update) (ids : List Text)
      → Closes fresh (apply_container w svc upd ids)
  unfolding apply_container next follow
  apply_container-Closes svc upd [] = fail-Closes fresh no_container refl
  apply_container-Closes svc upd (old ∷ ids) =
      elim (Answer-cases (w.resolve (target_ref svc upd))) [
        | inl (remote, e) ↦
            rw (apply_container, e) (precheck-Closes svc upd old (target_ref svc upd) remote)
        | inr (x, e) ↦ rw (apply_container, e) (fail-Closes fresh (re_resolve x) refl)
      ]

  apply_loaded-Closes : (svc : Service) → Closes fresh (apply_loaded w svc)
  unfolding apply_loaded
  apply_loaded-Closes svc = elim (Answer-cases (w.latest_open svc.id)) [
    | inl (upd, e) ↦ rw (apply_loaded, e) (apply_container-Closes svc upd svc.container_ids)
    | inr (x, e) ↦ rw (apply_loaded, e) (fail-Closes fresh (no_open_update x) refl)
  ]

  apply-Closes : (target : Option ℕ) → Closes fresh (run_apply w target)
  unfolding run_apply
  apply-Closes none = fail-Closes fresh no_service refl
  apply-Closes (some id) = elim (Answer-cases (w.get_service id)) [
    | inl (svc, e) ↦ rw (run_apply, e) (apply_loaded-Closes svc)
    | inr (x, e) ↦ rw (run_apply, e) (fail-Closes fresh (load_service x) refl)
  ]

  close_rollback-Closes :
      (svc : Service) (snap : Snapshot) (old new : Text)
      → Closes pulled (close_rollback w svc snap old new)
  unfolding close_rollback next follow succeed
  close_rollback-Closes svc snap old new =
      written-Closes pulled w.save_runtime (update_runtime svc.id (new ∷ []) snap.prev_digest) _
        refl
        (written-Closes pulled w.save_rolled_back (mark_rolled_back svc.id svc.current_digest) _
          refl
          (event-Closes pulled svc.id Effects.rolled_back svc.current_digest snap.prev_digest
            (emit Standalone.rolled_back ∷ succeed) refl refl))

  rollback_container-Closes :
      (svc : Service) (snap : Snapshot) (ids : List Text)
      → Closes snapped (rollback_container w svc snap ids)
  unfolding rollback_container next follow
  rollback_container-Closes svc snap [] = fail-Closes snapped no_container refl
  rollback_container-Closes svc snap (old ∷ ids) =
      elim (Answer-cases (w.image_pull (pinned_ref snap))) [
        | inl (_, e) ↦
            rw (rollback_container, e)
              (swap-Closes w old svc.name [] tt fail (λ r. fail-Closes pulled r refl)
                (close_rollback w svc snap old) (close_rollback-Closes svc snap old)
                snap.prev_container_inspect (pinned_ref snap))
        | inr (x, e) ↦ rw (rollback_container, e) (fail-Closes broken (pull_failed x) refl)
      ]

  rollback_loaded-Closes : (svc : Service) → Closes snapped (rollback_loaded w svc)
  unfolding rollback_loaded
  rollback_loaded-Closes svc = elim (Answer-cases (w.latest_snapshot svc.id)) [
    | inl (snap, e) ↦ elim (Bool-cases (lacks_state snap)) [
      | inl k ↦ rw (rollback_loaded, e, k) (fail-Closes snapped no_previous_state refl)
      | inr k ↦ rw (rollback_loaded, e, k) (rollback_container-Closes svc snap svc.container_ids)
    ]
    | inr (x, e) ↦ rw (rollback_loaded, e) (fail-Closes snapped (no_snapshot x) refl)
  ]

  rollback-Closes : (target : Option ℕ) → Closes snapped (run_rollback w target)
  unfolding run_rollback
  rollback-Closes none = fail-Closes snapped no_service refl
  rollback-Closes (some id) = elim (Answer-cases (w.get_service id)) [
    | inl (svc, e) ↦ rw (run_rollback, e) (rollback_loaded-Closes svc)
    | inr (x, e) ↦ rw (run_rollback, e) (fail-Closes snapped (load_service x) refl)
  ]

-- Where the automaton starts: a rollback has the snapshot that it returns to.
abbrev pub start : JobType → Stage
start rollback = snapped
start _ = fresh

-- Every job of a standalone service keeps to the order and ends with the one terminal result of the
-- job, whatever the answers: no container is stopped, started, renamed, created or removed before the
-- image is pulled, and none by an apply before the snapshot is saved; the job succeeds only behind
-- the pull.
pub handle-Closes :
    (w : World) (type : JobType) (target : Option ℕ) → Closes (start type) (handle w type target)
unfolding handle
handle-Closes w check target = fail-Closes fresh unknown_type refl
handle-Closes w apply target = apply-Closes w target
handle-Closes w rollback target = rollback-Closes w target
handle-Closes w sync target = fail-Closes fresh unknown_type refl
handle-Closes w JobDefs.start target = fail-Closes fresh unknown_type refl
handle-Closes w stop target = fail-Closes fresh unknown_type refl
handle-Closes w restart target = fail-Closes fresh unknown_type refl
handle-Closes w remove target = fail-Closes fresh unknown_type refl
handle-Closes w self_update target = fail-Closes fresh unknown_type refl
handle-Closes w (other t) target = fail-Closes fresh unknown_type refl
