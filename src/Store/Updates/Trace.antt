-- ===== src/Store/Updates/Trace.antt =====
-- Sequences of calls on the table `updates`, each with what its driver does, and the passing of
-- time between them.
pub mod Suppressed
use dockbrr.Common.{ℕ, ◌+◌, refl, Bool, none, some, List, [], ◌∷◌, Text, ◌==◌}
use dockbrr.Store.Sql.{Fault, exec}
use dockbrr.Store.Updates.Defs.{
  Status, Update, Table, available, applied, superseded, rolled_back, update_where,
}
use dockbrr.Store.Updates.Writes
use dockbrr.Store.Updates.Drift
use dockbrr.Store.Updates.Drift.{DriftFaults}
use dockbrr.Store.Updates.Keys.{
  KeepsKey, WellFormed, with_status-KeepsKey, update_where-WellFormed, filter-WellFormed,
  upsert_row-WellFormed, record_drift-WellFormed,
}

pub data Call : Type 0 where
  upsert : Fault → Update → Call
  supersede_prior_open : Fault → ℕ → Text → Call
  supersede_all_open : Fault → ℕ → Call
  record_drift : DriftFaults → Update → Call
  mark_rolled_back : Fault → ℕ → Text → Call
  reopen_rolled_back : Fault → ℕ → Call
  set_changelog : Fault → ℕ → Text → Text → Call
  set_changelog_status : Fault → ℕ → Text → Call
  set_status : Fault → ℕ → Status → Call
  mark_applied : Fault → ℕ → Call
  delete_stale_current : Fault → ℕ → Text → Call
  wait : ℕ → Call

-- The table after a call.
unfoldable pub call : Call → Table → Table
call (upsert f up) t = (Writes.upsert f up t).1
call (supersede_prior_open f s d) t = (Writes.supersede_prior_open f s d t).1
call (supersede_all_open f s) t = (Writes.supersede_all_open f s t).1
call (record_drift f up) t = (Drift.record_drift f up t).1
call (mark_rolled_back f s d) t = (Writes.mark_rolled_back f s d t).1
call (reopen_rolled_back f s) t = (Writes.reopen_rolled_back f s t).1
call (set_changelog f id url text) t = (Writes.set_changelog f id url text t).1
call (set_changelog_status f id s) t = (Writes.set_changelog_status f id s t).1
call (set_status f id s) t = (Writes.set_status f id s t).1
call (mark_applied f id) t = (Writes.mark_applied f id t).1
call (delete_stale_current f s d) t = (Writes.delete_stale_current f s d t).1
call (wait n) t = record t { now = t.now + n }

unfoldable pub run : List Call → Table → Table
run [] t = t
run (c ∷ cs) t = run cs (call c t)

-- A statement that edits rows, whatever it returns.
exec_edit-WellFormed :
    {A : Type 0} (fault : Fault) (g : Table → A) (p : Update → Bool) (f : Update → Update)
    (t : Table)
    → KeepsKey f
    → WellFormed t
    → WellFormed (exec fault (λ s. (g s, update_where p f s)) t).1
exec_edit-WellFormed none g p f t k w = update_where-WellFormed p f k t w
exec_edit-WellFormed (some e) g p f t k w = w

upsert-WellFormed :
    (f : Fault) (up : Update) (t : Table) → WellFormed t → WellFormed (Writes.upsert f up t).1
unfolding Writes.upsert
upsert-WellFormed none up t w = upsert_row-WellFormed up t w
upsert-WellFormed (some e) up t w = w

mark_applied-WellFormed :
    (f : Fault) (id : ℕ) (t : Table) → WellFormed t → WellFormed (Writes.mark_applied f id t).1
unfolding Writes.mark_applied
mark_applied-WellFormed none id t w =
    update_where-WellFormed (λ r. r.id == id)
      (λ r. record r { status = applied; applied_at = some t.now })
      (record { id_kept = λ r. refl; service_kept = λ r. refl; digest_kept = λ r. refl }) t w
mark_applied-WellFormed (some e) id t w = w

delete_stale_current-WellFormed :
    (f : Fault) (service : ℕ) (keep : Text) (t : Table)
    → WellFormed t
    → WellFormed (Writes.delete_stale_current f service keep t).1
unfolding Writes.delete_stale_current
delete_stale_current-WellFormed none service keep t w = filter-WellFormed _ t w
delete_stale_current-WellFormed (some e) service keep t w = w

-- Every call, failing or not, keeps the invariant of the table.
pub call-WellFormed : (c : Call) (t : Table) → WellFormed t → WellFormed (call c t)
unfolding call Writes.supersede_prior_open Writes.supersede_all_open Writes.mark_rolled_back
    Writes.reopen_rolled_back Writes.set_changelog Writes.set_changelog_status Writes.set_status
call-WellFormed (upsert f up) t w = upsert-WellFormed f up t w
call-WellFormed (supersede_prior_open f s d) t w =
    exec_edit-WellFormed f _ _ _ t (with_status-KeepsKey superseded) w
call-WellFormed (supersede_all_open f s) t w =
    exec_edit-WellFormed f _ _ _ t (with_status-KeepsKey superseded) w
call-WellFormed (record_drift f up) t w = record_drift-WellFormed f up t w
call-WellFormed (mark_rolled_back f s d) t w =
    exec_edit-WellFormed f _ _ _ t (with_status-KeepsKey rolled_back) w
call-WellFormed (reopen_rolled_back f s) t w =
    exec_edit-WellFormed f _ _ _ t (with_status-KeepsKey available) w
call-WellFormed (set_changelog f id url text) t w =
    exec_edit-WellFormed f _ _ _ t
      (record { id_kept = λ r. refl; service_kept = λ r. refl; digest_kept = λ r. refl }) w
call-WellFormed (set_changelog_status f id s) t w =
    exec_edit-WellFormed f _ _ _ t
      (record { id_kept = λ r. refl; service_kept = λ r. refl; digest_kept = λ r. refl }) w
call-WellFormed (set_status f id s) t w = exec_edit-WellFormed f _ _ _ t (with_status-KeepsKey s) w
call-WellFormed (mark_applied f id) t w = mark_applied-WellFormed f id t w
call-WellFormed (delete_stale_current f s d) t w = delete_stale_current-WellFormed f s d t w
call-WellFormed (wait n) t w = record { ids = w.ids; keys = w.keys }

-- From a table where ids fall and no two rows have the same service and target digest, every
-- sequence of calls, failing or not, leads to such a table.
pub run-WellFormed : (cs : List Call) (t : Table) → WellFormed t → WellFormed (run cs t)
unfolding run
run-WellFormed [] t w = w
run-WellFormed (c ∷ cs) t w = run-WellFormed cs (call c t) (call-WellFormed c t w)
