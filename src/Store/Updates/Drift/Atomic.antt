-- ===== src/Store/Updates/Drift/Atomic.antt =====
-- `RecordDrift` of internal/store/updates.go is done as a whole or not at all.
use dockbrr.Common.{
  ◌≡◌, refl, sym, ap, ◌⊎◌, inl, inr, Bool, true, false, Option, none, some, Text, All, Option-cases,
  find,
}
use dockbrr.Store.Sql.{Fault, driver}
use dockbrr.Store.Transaction.{Db, idle}
use dockbrr.Store.Updates.Defs.{Update, Table, available, at_key}
use dockbrr.Store.Updates.Drift.{DriftFaults, Recorded, write_drift, run_drift}
use dockbrr.Store.Updates.Drift.Outcome.{first_fault, committed, Settled, run_drift-Settled}
use dockbrr.Store.Updates.Drift.Rows.{row_at, row_at-committed_self, written, committed_one_open}
use dockbrr.Store.Updates.Drift.Repeat.{write_drift-id}

abbrev pub is_absent : Option Update → Bool
is_absent none = true
is_absent (some r) = false

-- The call has succeeded: its answer is the id of the one row of the key, and says whether that row was
-- there before; of the service's other rows none is open; and no transaction is left open.
abbrev pub Done : Update → Table → Recorded × Db Table → Type 0
Done up t (r, db) =
    (r.error ≡ none)
    × (r.is_new ≡ is_absent (row_at up.service_id up.to_digest t))
    × ((x : Update) × (row_at up.service_id up.to_digest db.saved ≡ some x) × (x.id ≡ r.id))
    × All (λ x. x.service_id ≡ up.service_id → x.status ≡ available → x.to_digest ≡ up.to_digest)
        db.saved.rows
    × (db.open_copy ≡ none)

-- The call has failed with the error: the saved table is the one that was there, and no transaction is
-- left open.
abbrev pub Undone : Text → Table → Recorded × Db Table → Type 0
Undone e t (r, db) = (r.error ≡ some (driver e)) × (db.saved ≡ t) × (db.open_copy ≡ none)

write_drift-is_new :
    (up : Update) (t : Table)
    → (write_drift up t).1 ≡ is_absent (row_at up.service_id up.to_digest t)
unfolding write_drift
write_drift-is_new up t = elim (Option-cases (find (at_key up.service_id up.to_digest) t.rows)) [
  | inl e ↦ rw (write_drift, e) refl
  | inr (r, e) ↦ rw (write_drift, e) refl
]

committed-Done :
    (up : Update) (t : Table)
    → Done up t (
      record { id = (write_drift up t).0; is_new = (write_drift up t).1; error = none },
      idle (committed up t),
    )
committed-Done up t = (
  refl,
  write_drift-is_new up t,
  (
    written up t (row_at up.service_id up.to_digest t),
    row_at-committed_self up t,
    sym (write_drift-id up t),
  ),
  committed_one_open up t,
  refl,
)

Settled-Atomic :
    (o : Fault) (up : Update) (t : Table) (x : Recorded × Db Table)
    → Settled o up t x
    → ((o ≡ none) × Done up t x) ⊎ ((e : Text) × (o ≡ some e) × Undone e t x)
unfolding Settled
Settled-Atomic none up t (r, db) h = inl (refl, rw (h.0, h.1) (committed-Done up t))
Settled-Atomic (some e) up t (r, db) h =
    inr (e, refl, (h.0, ap (λ d. d.saved) h.1, ap (λ d. d.open_copy) h.1))

-- Where no transaction is open, a call either succeeds, as no stage of it fails: the row of the service
-- and the digest is there under the id that is returned, it is new exactly if there was none, no other
-- row of the service is open, and the transaction has ended; or it fails with the error of the first
-- stage that fails, from `Begin` to `Commit`: then the transaction has ended too, and the table is as it
-- was before the call, whatever the statements before that stage have written.
pub run_drift_lem :
    (f : DriftFaults) (up : Update) (t : Table)
    → ((first_fault f ≡ none) × Done up t (run_drift f up (idle t)))
      ⊎ ((e : Text) × (first_fault f ≡ some e) × Undone e t (run_drift f up (idle t)))
run_drift_lem f up t =
    Settled-Atomic (first_fault f) up t (run_drift f up (idle t)) (run_drift-Settled f up t)
