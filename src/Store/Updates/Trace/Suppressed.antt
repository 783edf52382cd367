-- ===== src/Store/Updates/Trace/Suppressed.antt =====
-- Rolled-back rows and the calls that a scan without the manual gesture makes (internal/store/updates.go,
-- internal/scan/scan.go). The calls left out are `ReopenRolledBack`, which is the gesture, and `SetStatus`
-- and `MarkApplied`, which address a row by its id and are called for open rows.
use mathlib.Core.Option
use mathlib.Core.Path.{subst, subst₂}
use dockbrr.Common.{
  ℕ, ◌≡◌, refl, ap, Bool, true, false, ◌&&◌, not, Option, none, some, List, [], ◌∷◌, Text, text_eq,
  text_eq_iff, ◌==◌, find, filter, find-edit, find-filter, All, by_cases, Option-cases, inl, inr,
  arith, if◌then◌else◌,
}
use dockbrr.Store.Sql.{Fault, exec}
use dockbrr.Store.Updates.Defs.{
  Update, Table, superseded, rolled_back, is_current, at_key, new_row, insert, prior_open,
  with_status, update_where,
}
use dockbrr.Store.Updates.Writes
use dockbrr.Store.Updates.Writes.{upsert_row, refresh_row}
use dockbrr.Store.Updates.Drift.{DriftFaults, record_drift, write_drift, drifted_row}
use dockbrr.Store.Updates.Drift.Outcome.{first_fault, drift_outcome, record_drift_lem}
use dockbrr.Store.Updates.Keys.{
  KeepsKey, at_key-kept, with_status-KeepsKey, refresh_row-KeepsKey, drifted_row-KeepsKey,
}
use dockbrr.Store.Updates.Trace.{
  Call, call, run, upsert, supersede_prior_open, supersede_all_open, record_drift as drift_call,
  mark_rolled_back, reopen_rolled_back, set_changelog, set_changelog_status, set_status,
  mark_applied, delete_stale_current, wait,
}

-- The row of the key is there, and rolled back.
abbrev pub IsRolledBack : ℕ → Text → Table → Type 0
IsRolledBack s d t = Option.map (λ r. r.status) (find (at_key s d) t.rows) ≡ some rolled_back

-- The calls of a scan without the manual gesture.
abbrev pub scanning : Call → Bool
scanning (reopen_rolled_back _ _) = false
scanning (set_status _ _ _) = false
scanning (mark_applied _ _) = false
scanning _ = true

abbrev pub Scanning : List Call → Type 0
Scanning cs = All (λ c. scanning c ≡ true) cs

-- An edit that a rolled-back row comes through.
abbrev Harmless : (Update → Bool) → (Update → Update) → Type 0
Harmless p f = (r : Update) → r.status ≡ rolled_back → (if p r then f r else r).status ≡ rolled_back

update_where-IsRolledBack :
    (p : Update → Bool) (f : Update → Update) (s : ℕ) (d : Text) (t : Table)
    → KeepsKey f
    → Harmless p f
    → IsRolledBack s d t
    → IsRolledBack s d (update_where p f t)
update_where-IsRolledBack p f s d t k harmless h =
    rw (find-edit (at_key s d) p f (at_key-kept p f k s d) t.rows)
      (edited (find (at_key s d) t.rows) h)
  where
    edited :
        (o : Option Update)
        → Option.map (λ r. r.status) o ≡ some rolled_back
        → Option.map (λ r. r.status) (Option.map (λ r. if p r then f r else r) o) ≡ some rolled_back
    edited none e = e
    edited (some r) e = ap some (harmless r (cc e))

insert-IsRolledBack :
    (up : Update) (s : ℕ) (d : Text) (t : Table)
    → find (at_key up.service_id up.to_digest) t.rows ≡ none
    → IsRolledBack s d t
    → IsRolledBack s d (insert t up)
insert-IsRolledBack up s d t e h =
    by_cases
      (λ b.
        Option.map (λ r. r.status) (if b then some (new_row t up) else find (at_key s d) t.rows)
        ≡ some rolled_back)
      (at_key s d up) (λ k. absurd (taken k)) (λ _. h)
  where
    taken : at_key s d up ≡ true → ⊥
    taken k =
        let same_s : up.service_id ≡ s = ground arith in
        let same_d : up.to_digest ≡ d = ground (arith, text_eq_iff up.to_digest d) in
        let free = subst₂ (λ x y. find (at_key x y) t.rows ≡ none) same_s same_d e in
        cc (subst (λ o. Option.map (λ r. r.status) o ≡ some rolled_back) free h)

upsert-IsRolledBack :
    (f : Fault) (up : Update) (s : ℕ) (d : Text) (t : Table)
    → IsRolledBack s d t
    → IsRolledBack s d (Writes.upsert f up t).1
unfolding Writes.upsert upsert_row
upsert-IsRolledBack (some e) up s d t h = h
upsert-IsRolledBack none up s d t h =
    elim (Option-cases (find (at_key up.service_id up.to_digest) t.rows)) [
      | inl e ↦ rw (upsert_row, e) (insert-IsRolledBack up s d t e h)
      | inr (r, e) ↦
          rw (upsert_row, e)
            (update_where-IsRolledBack (at_key up.service_id up.to_digest) (refresh_row up) s d t
              (refresh_row-KeepsKey up) (λ r k. ground arith) h)
    ]

write_drift-IsRolledBack :
    (up : Update) (s : ℕ) (d : Text) (t : Table)
    → IsRolledBack s d t
    → IsRolledBack s d (write_drift up t).2
unfolding write_drift drifted_row
write_drift-IsRolledBack up s d t h =
    elim (Option-cases (find (at_key up.service_id up.to_digest) t.rows)) [
      | inl e ↦ rw (write_drift, e) (insert-IsRolledBack up s d t e h)
      | inr (r, e) ↦
          rw (write_drift, e)
            (update_where-IsRolledBack (λ x. x.id == r.id) (drifted_row up) s d t
              (drifted_row-KeepsKey up) (λ x k. ground arith) h)
    ]

drift_outcome-IsRolledBack :
    (o : Fault) (up : Update) (s : ℕ) (d : Text) (t : Table)
    → IsRolledBack s d t
    → IsRolledBack s d (drift_outcome o up t).1
drift_outcome-IsRolledBack (some e) up s d t h = h
drift_outcome-IsRolledBack none up s d t h =
    update_where-IsRolledBack (prior_open up.service_id up.to_digest) (with_status superseded) s d
      (write_drift up t).2 (with_status-KeepsKey superseded) (λ r k. ground arith)
      (write_drift-IsRolledBack up s d t h)

record_drift-IsRolledBack :
    (f : DriftFaults) (up : Update) (s : ℕ) (d : Text) (t : Table)
    → IsRolledBack s d t
    → IsRolledBack s d (record_drift f up t).1
record_drift-IsRolledBack f up s d t h =
    rw (record_drift_lem f up t) (drift_outcome-IsRolledBack (first_fault f) up s d t h)

exec_edit-IsRolledBack :
    {A : Type 0} (fault : Fault) (g : Table → A) (p : Update → Bool) (f : Update → Update) (s : ℕ)
    (d : Text) (t : Table)
    → KeepsKey f
    → Harmless p f
    → IsRolledBack s d t
    → IsRolledBack s d (exec fault (λ x. (g x, update_where p f x)) t).1
exec_edit-IsRolledBack none g p f s d t k harmless h =
    update_where-IsRolledBack p f s d t k harmless h
exec_edit-IsRolledBack (some e) g p f s d t k harmless h = h

delete_stale_current-IsRolledBack :
    (f : Fault) (service : ℕ) (keep : Text) (s : ℕ) (d : Text) (t : Table)
    → IsRolledBack s d t
    → IsRolledBack s d (Writes.delete_stale_current f service keep t).1
unfolding Writes.delete_stale_current
delete_stale_current-IsRolledBack (some e) service keep s d t h = h
delete_stale_current-IsRolledBack none service keep s d t h = kept (find (at_key s d) t.rows) refl h
  where
    fresh : Update → Bool
    fresh r =
        not ((r.service_id == service) && is_current r.status && not (text_eq r.to_digest keep))

    kept :
        (o : Option Update)
        → find (at_key s d) t.rows ≡ o
        → Option.map (λ r. r.status) o ≡ some rolled_back
        → Option.map (λ r. r.status) (find (at_key s d) (filter fresh t.rows)) ≡ some rolled_back
    kept none e k = cc
    kept (some r) e k = rw (find-filter (at_key s d) fresh t.rows r e (ground arith)) k

call-IsRolledBack :
    (c : Call) (s : ℕ) (d : Text) (t : Table)
    → scanning c ≡ true
    → IsRolledBack s d t
    → IsRolledBack s d (call c t)
unfolding call Writes.supersede_prior_open Writes.supersede_all_open Writes.mark_rolled_back
    Writes.set_changelog Writes.set_changelog_status
call-IsRolledBack (upsert f up) s d t k h = upsert-IsRolledBack f up s d t h
call-IsRolledBack (supersede_prior_open f x y) s d t k h =
    exec_edit-IsRolledBack f _ _ _ s d t (with_status-KeepsKey superseded) (λ r e. ground arith) h
call-IsRolledBack (supersede_all_open f x) s d t k h =
    exec_edit-IsRolledBack f _ _ _ s d t (with_status-KeepsKey superseded) (λ r e. ground arith) h
call-IsRolledBack (drift_call f up) s d t k h = record_drift-IsRolledBack f up s d t h
call-IsRolledBack (mark_rolled_back f x y) s d t k h =
    exec_edit-IsRolledBack f _ _ _ s d t (with_status-KeepsKey rolled_back) (λ r e. ground arith) h
call-IsRolledBack (reopen_rolled_back f x) s d t k h = cc
call-IsRolledBack (set_changelog f id url text) s d t k h =
    exec_edit-IsRolledBack f _ _ _ s d t
      (record { id_kept = λ r. refl; service_kept = λ r. refl; digest_kept = λ r. refl })
      (λ r e. ground arith) h
call-IsRolledBack (set_changelog_status f id x) s d t k h =
    exec_edit-IsRolledBack f _ _ _ s d t
      (record { id_kept = λ r. refl; service_kept = λ r. refl; digest_kept = λ r. refl })
      (λ r e. ground arith) h
call-IsRolledBack (set_status f id x) s d t k h = cc
call-IsRolledBack (mark_applied f id) s d t k h = cc
call-IsRolledBack (delete_stale_current f x y) s d t k h =
    delete_stale_current-IsRolledBack f x y s d t h
call-IsRolledBack (wait n) s d t k h = h

-- A row that is rolled back is still rolled back after any calls of scans without the manual
-- gesture, failing or not: a re-detection of the same target does not open it again.
pub run-IsRolledBack :
    (cs : List Call) (s : ℕ) (d : Text) (t : Table)
    → Scanning cs
    → IsRolledBack s d t
    → IsRolledBack s d (run cs t)
unfolding run
run-IsRolledBack [] s d t k h = h
run-IsRolledBack (c ∷ cs) s d t k h =
    run-IsRolledBack cs s d (call c t) k.1 (call-IsRolledBack c s d t k.0 h)
