-- ===== src/Store/Updates/Drift/Outcome.antt =====
-- The results of `RecordDrift` of internal/store/updates.go, by where its driver fails.
use dockbrr.Common.{ℕ, ◌≡◌, refl, Bool, none, some, arith}
use dockbrr.Store.Sql.{Result, Fault, ok, err, driver}
use dockbrr.Store.Transaction.{
  Db, idle, begin_tx, exec_tx, on_copy, commit_tx, commit_copy, rollback_tx,
}
use dockbrr.Store.Updates.Defs.{Update, Table, superseded, prior_open, with_status, update_where}
use dockbrr.Store.Updates.Drift.{
  DriftFaults, Recorded, write_drift, commit_drift, after_supersede, after_write, after_select,
  deferred, after_begin, run_drift, record_drift, seen,
}

abbrev pub or_else : Fault → Fault → Fault
or_else none g = g
or_else (some e) g = some e

-- The first stage at which the driver fails.
abbrev pub first_fault : DriftFaults → Fault
first_fault f = or_else f.begin (or_else f.select (or_else f.write (or_else f.supersede f.commit)))

-- The table after a commit.
abbrev pub committed : Update → Table → Table
committed up t =
    update_where (prior_open up.service_id up.to_digest) (with_status superseded)
      (write_drift up t).2

abbrev pub drift_outcome : Fault → Update → Table → Result (ℕ × Bool) × Table
drift_outcome none up t = (ok ((write_drift up t).0, (write_drift up t).1), committed up t)
drift_outcome (some e) up t = (err (driver e), t)

-- What a call says and leaves: the error of the first fault with the table that was there, or the row's
-- id with the committed table; no transaction is open behind it.
unfoldable pub Settled : Fault → Update → Table → Recorded × Db Table → Type 0
Settled none up t (r, db) =
    (r ≡ record { id = (write_drift up t).0; is_new = (write_drift up t).1; error = none })
    × (db ≡ idle (committed up t))
Settled (some e) up t (r, db) = (r.error ≡ some (driver e)) × (db ≡ idle t)

pub run_drift-Settled :
    (f : DriftFaults) (up : Update) (t : Table)
    → Settled (first_fault f) up t (run_drift f up (idle t))
unfolding run_drift Settled write_drift after_begin begin_tx exec_tx on_copy after_select
    after_write after_supersede commit_drift commit_tx commit_copy rollback_tx deferred
run_drift-Settled f up t = ground arith

-- The same of what the callers see.
pub record_drift_lem :
    (f : DriftFaults) (up : Update) (t : Table)
    → record_drift f up t ≡ drift_outcome (first_fault f) up t
unfolding record_drift Settled
record_drift_lem f up t =
    by_fault (first_fault f) (run_drift f up (idle t)) (run_drift-Settled f up t)
  where
    by_fault :
        (o : Fault) (x : Recorded × Db Table)
        → Settled o up t x
        → (seen x.0, x.1.saved) ≡ drift_outcome o up t
    by_fault none (r, db) h = rw (h.0, h.1) refl
    by_fault (some e) (r, db) h = rw (h.0, h.1) refl
