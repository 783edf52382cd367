-- ===== src/Store/Updates/Drift.antt =====
-- `RecordDrift` of internal/store/updates.go: one transaction of three statements.
pub mod Atomic
pub mod Outcome
pub mod Repeat
pub mod Rows
use mathlib.Core.Option
use dockbrr.Common.{ℕ, Bool, true, false, ◌&&◌, Option, none, some, Text, ◌==◌, find, if◌then◌else◌}
use dockbrr.Detect.Semver.{Severity}
use dockbrr.Store.Sql.{Error, Result, Fault, ok, err, driver}
use dockbrr.Store.Transaction.{Db, idle, begin_tx, exec_tx, commit_tx, rollback_tx}
use dockbrr.Store.Updates.Defs.{
  Status, Update, Table, available, failed, superseded, applied, is_step, is_digest_only,
  severity_or_default, or_old, at_key, prior_open, with_status, insert, update_where,
}

-- Where the driver fails: at `Begin`, at the `SELECT`, at the `UPDATE` or `INSERT` of the row, at
-- the closing `UPDATE`, at `Commit`.
pub record DriftFaults : Type 0 where
  pub begin : Fault
  pub select : Fault
  pub write : Fault
  pub supersede : Fault
  pub commit : Fault

-- `CASE WHEN status IN ('failed','superseded','applied') THEN 'available' ELSE status END`.
unfoldable pub reopened : Status → Status
reopened failed = available
reopened superseded = available
reopened applied = available
reopened s = s

-- `CASE WHEN ?='digest-only' AND severity IN ('major','minor','patch') THEN severity ELSE ? END`.
unfoldable pub kept_severity : Severity → Severity → Severity
kept_severity new old = if is_digest_only new && is_step old then old else new

-- The refresh of a row that is there already.
unfoldable pub drifted_row : Update → Update → Update
unfolding reopened kept_severity
drifted_row up r = record r {
  from_digest = up.from_digest;
  from_version = or_old up.from_version r.from_version;
  to_version = or_old up.to_version r.to_version;
  tag = up.tag;
  severity = kept_severity (severity_or_default up.severity) r.severity;
  status = reopened r.status;
}

-- What `RecordDrift` returns: the id, whether the row is new, and the error.
pub record Recorded : Type 0 where
  pub id : ℕ
  pub is_new : Bool
  pub error : Option Error

abbrev failure : Error → Recorded
failure e = record { id = 0; is_new = false; error = some e }

abbrev pub error_of : Fault → Option Error
error_of none = none
error_of (some e) = some (driver e)

-- `SELECT id … WHERE service_id=? AND to_digest=?`; `none` for `sql.ErrNoRows`.
abbrev pub id_at : ℕ → Text → Table → Option ℕ
id_at service dig t = Option.map (λ r. r.id) (find (at_key service dig) t.rows)

-- The `UPDATE` of the row that was found, or the `INSERT`.
unfoldable pub write_existing : Update → Option ℕ → Table → (ℕ × Bool) × Table
unfolding drifted_row
write_existing up (some id) t = ((id, false), update_where (λ x. x.id == id) (drifted_row up) t)
write_existing up none t = ((t.next_id, true), insert t up)

-- The `SELECT` with the write behind it: the id, whether the row is new, and the table.
unfoldable pub write_drift : Update → Table → ℕ × Bool × Table
unfolding write_existing
write_drift up t =
    let x = write_existing up (id_at up.service_id up.to_digest t) t in (x.0.0, x.0.1, x.1)

-- `err = tx.Commit(); return id, isNew, err`.
unfoldable pub commit_drift : DriftFaults → ℕ × Bool → Db Table → Recorded × Db Table
commit_drift f (id, is_new) db =
    let done = commit_tx f.commit db in
    (record { id = id; is_new = is_new; error = error_of done.0 }, done.1)

-- The stages in their order, each behind the answer of the one before: an error returns at once.
unfoldable pub after_supersede :
    DriftFaults → ℕ × Bool → Result (Unit {0}) × Db Table → Recorded × Db Table
after_supersede f row (err e, db) = (failure e, db)
after_supersede f row (ok _, db) = commit_drift f row db

unfoldable pub after_write :
    DriftFaults → Update → Result (ℕ × Bool) × Db Table → Recorded × Db Table
after_write f up (err e, db) = (failure e, db)
after_write f up (ok row, db) = after_supersede f row (
    exec_tx f.supersede
      (λ t. (tt, update_where (prior_open up.service_id up.to_digest) (with_status superseded) t))
      db)

unfoldable pub after_select :
    DriftFaults → Update → Result (Option ℕ) × Db Table → Recorded × Db Table
after_select f up (err e, db) = (failure e, db)
after_select f up (ok existing, db) =
    after_write f up (exec_tx f.write (write_existing up existing) db)

-- The deferred function.
unfoldable pub deferred : Recorded × Db Table → Recorded × Db Table
deferred (r, db) = elim r.error [ none ↦ (r, db) | some e ↦ (r, rollback_tx db) ]

unfoldable pub after_begin : DriftFaults → Update → Fault × Db Table → Recorded × Db Table
after_begin f up (some e, db) = (failure (driver e), db)
after_begin f up (none, db) =
    deferred
      (after_select f up (exec_tx f.select (λ t. (id_at up.service_id up.to_digest t, t)) db))

-- `RecordDrift` on the database.
unfoldable pub run_drift : DriftFaults → Update → Db Table → Recorded × Db Table
run_drift f up db = after_begin f up (begin_tx f.begin db)

-- What the callers make of the answer: they look at the error first.
abbrev pub seen : Recorded → Result (ℕ × Bool)
seen r = elim r.error [ none ↦ ok (r.id, r.is_new) | some e ↦ err e ]

-- `RecordDrift` where no transaction is open: its answer, and the table that others see.
unfoldable pub record_drift : DriftFaults → Update → Table → Result (ℕ × Bool) × Table
record_drift f up t = let x = run_drift f up (idle t) in (seen x.0, x.1.saved)
