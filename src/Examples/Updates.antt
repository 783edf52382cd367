-- ===== src/Examples/Updates.antt =====
-- A table of updates, and the calls on it.
use dockbrr.Common.{
  ◌≡◌, refl, ◌⊎◌, ℕ, false, none, some, List, [], ◌∷◌, Text, bytes, text_eq, arith,
}
use dockbrr.Detect.Semver.{digest_only}
use dockbrr.Store.Updates.Defs.{Status, Update, Table, available, superseded, rolled_back, current}
use dockbrr.Store.Updates.Drift.{DriftFaults, write_drift, run_drift}
use dockbrr.Store.Updates.Drift.Outcome.{committed, first_fault}
use dockbrr.Store.Updates.Drift.Atomic.{Done, Undone, run_drift_lem}
use dockbrr.Store.Transaction.{idle}
use dockbrr.Store.Updates.Drift.Rows.{row_at, row_at-committed}
use dockbrr.Store.Updates.Drift.Repeat.{committed_twice}
use dockbrr.Store.Updates.Writes.{upsert_row}
use dockbrr.Store.Updates.Upserts.{upsert_row_lem}
use dockbrr.Store.Updates.Keys.{WellFormed}
use dockbrr.Store.Updates.Trace.{
  Call, run, supersede_all_open, delete_stale_current, run-WellFormed,
}
use dockbrr.Store.Updates.Trace as Trace
use dockbrr.Store.Updates.Trace.Suppressed.{IsRolledBack, run-IsRolledBack}

abbrev row : ℕ → Text → Status → Update
row id dig status = record {
  id = id;
  service_id = 1;
  from_digest = bytes "d0";
  to_digest = dig;
  from_version = bytes "1.0";
  to_version = [];
  tag = bytes "1";
  severity = digest_only;
  changelog_url = [];
  changelog_text = [];
  changelog_status = [];
  status = status;
  detected_at = id;
  applied_at = none;
}

-- The open update d3, the rolled-back d2, and d1 that it superseded.
abbrev shop : Table
shop = record {
  rows =
      row 3 (bytes "d3") available
      ∷ row 2 (bytes "d2") rolled_back
      ∷ row 1 (bytes "d1") superseded
      ∷ [];
  next_id = 4;
  now = 50;
}

-- The target d1 is detected again.
abbrev drift : Update
drift = row 0 (bytes "d1") available

abbrev no_faults : DriftFaults
no_faults = record { begin = none; select = none; write = none; supersede = none; commit = none }

shop-WellFormed : WellFormed shop
unfolding text_eq
shop-WellFormed = record {
  ids = (omega arith, (omega arith, (omega arith, tt)));
  keys = ((refl, (refl, tt)), ((refl, tt), (tt, tt)));
}

row_at-committed_example :
    row_at 1 (bytes "d3") (committed drift shop) ≡ some (row 3 (bytes "d3") superseded)
unfolding text_eq
row_at-committed_example = row_at-committed drift shop 1 (bytes "d3") shop-WellFormed

-- The baseline of the running digest d1, over the superseded row of d1.
upsert_row_lem_example :
    (row_at 1 (bytes "d1") (upsert_row (row 0 (bytes "d1") current) shop).1
      ≡ some (row 1 (bytes "d1") superseded))
    × ((upsert_row (row 0 (bytes "d1") current) shop).0 ≡ 1)
unfolding text_eq
upsert_row_lem_example = upsert_row_lem (row 0 (bytes "d1") current) shop 1 (bytes "d1")

-- The row is written, and the closing statement fails.
abbrev disk_full : DriftFaults
disk_full = record no_faults { supersede = some (bytes "disk full") }

run_drift_lem_example :
    ((first_fault disk_full ≡ none) × Done drift shop (run_drift disk_full drift (idle shop)))
    ⊎ ((e : Text) × (first_fault disk_full ≡ some e)
        × Undone e shop (run_drift disk_full drift (idle shop)))
run_drift_lem_example = run_drift_lem disk_full drift shop

committed_twice_example :
    ((write_drift drift (committed drift shop)).0 ≡ (write_drift drift shop).0)
    × ((write_drift drift (committed drift shop)).1 ≡ false)
    × ((s : ℕ) (d : Text)
        → row_at s d (committed drift (committed drift shop)) ≡ row_at s d (committed drift shop))
committed_twice_example = committed_twice drift shop shop-WellFormed refl

-- A scan that finds d2 again, and its supersedes.
abbrev scan : List Call
scan =
    Trace.record_drift no_faults (row 0 (bytes "d2") available)
    ∷ supersede_all_open none 1
    ∷ delete_stale_current none 1 (bytes "d2")
    ∷ []

run-WellFormed_example : WellFormed (run scan shop)
run-WellFormed_example = run-WellFormed scan shop shop-WellFormed

run-IsRolledBack_example : IsRolledBack 1 (bytes "d2") (run scan shop)
unfolding text_eq
run-IsRolledBack_example = run-IsRolledBack scan 1 (bytes "d2") shop (refl, (refl, (refl, tt))) refl
