-- ===== src/Store/Updates/Writes.antt =====
-- The methods of internal/store/updates.go that write with one statement.
use dockbrr.Common.{ℕ, Bool, ◌&&◌, not, none, some, [], Text, text_eq, ◌==◌, find, filter, count_if}
use dockbrr.Store.Sql.{Result, Fault, exec}
use dockbrr.Store.Updates.Defs.{
  Status, Update, Table, available, applied, superseded, rolled_back, is_available, is_applied,
  is_rolled_back, is_current, severity_or_default, at_key, prior_open, with_status, insert,
  update_where,
}

-- What `Upsert` refreshes on conflict: all but the id, the changelog, the status and the times.
abbrev pub refresh_row : Update → Update → Update
refresh_row up r = record r {
  from_digest = up.from_digest;
  from_version = up.from_version;
  to_version = up.to_version;
  tag = up.tag;
  severity = severity_or_default up.severity;
}

-- The statement of `Upsert`: an insert, or on `(service_id, to_digest)` conflict a refresh; the id
-- of the row.
unfoldable pub upsert_row : Update → Table → ℕ × Table
upsert_row up t = elim (find (at_key up.service_id up.to_digest) t.rows) [
  | none ↦ (t.next_id, insert t up)
  | some r ↦ (r.id, update_where (at_key up.service_id up.to_digest) (refresh_row up) t)
]

-- `Upsert`.
unfoldable pub upsert : Fault → Update → Table → Result ℕ × Table
upsert fault up = exec fault (upsert_row up)

-- An `UPDATE` whose result is the number of rows that it reached.
abbrev pub update_counting : Fault → (Update → Bool) → (Update → Update) → Table → Result ℕ × Table
update_counting fault p f = exec fault (λ t. (count_if p t.rows, update_where p f t))

-- An `UPDATE` whose result is dropped.
abbrev pub update_only :
    Fault → (Update → Bool) → (Update → Update) → Table → Result (Unit {0}) × Table
update_only fault p f = exec fault (λ t. (tt, update_where p f t))

-- `SupersedePriorOpen`.
unfoldable pub supersede_prior_open : Fault → ℕ → Text → Table → Result ℕ × Table
supersede_prior_open fault service keep =
    update_counting fault (prior_open service keep) (with_status superseded)

-- `SupersedeAllOpen`.
unfoldable pub supersede_all_open : Fault → ℕ → Table → Result ℕ × Table
supersede_all_open fault service =
    update_counting fault (λ r. (r.service_id == service) && is_available r.status)
      (with_status superseded)

-- `MarkRolledBack`.
unfoldable pub mark_rolled_back : Fault → ℕ → Text → Table → Result (Unit {0}) × Table
mark_rolled_back fault service dig =
    update_only fault (λ r. at_key service dig r && is_applied r.status) (with_status rolled_back)

-- `ReopenRolledBack`.
unfoldable pub reopen_rolled_back : Fault → ℕ → Table → Result ℕ × Table
reopen_rolled_back fault service =
    update_counting fault (λ r. (r.service_id == service) && is_rolled_back r.status)
      (with_status available)

-- `SetChangelog`.
unfoldable pub set_changelog : Fault → ℕ → Text → Text → Table → Result (Unit {0}) × Table
set_changelog fault id url text =
    update_only fault (λ r. r.id == id)
      (λ r. record r { changelog_url = url; changelog_text = text; changelog_status = [] })

-- `SetChangelogStatus`.
unfoldable pub set_changelog_status : Fault → ℕ → Text → Table → Result (Unit {0}) × Table
set_changelog_status fault id status =
    update_only fault (λ r. r.id == id) (λ r. record r { changelog_status = status })

-- `SetStatus`.
unfoldable pub set_status : Fault → ℕ → Status → Table → Result (Unit {0}) × Table
set_status fault id s = update_only fault (λ r. r.id == id) (with_status s)

-- `MarkApplied`: the status and the time, in one statement.
unfoldable pub mark_applied : Fault → ℕ → Table → Result (Unit {0}) × Table
mark_applied fault id = exec fault λ t. (
  tt,
  update_where (λ r. r.id == id) (λ r. record r { status = applied; applied_at = some t.now }) t,
)

-- `DeleteStaleCurrent`.
unfoldable pub delete_stale_current : Fault → ℕ → Text → Table → Result ℕ × Table
delete_stale_current fault service keep = exec fault λ t.
    let stale : Update → Bool =
      λ r. (r.service_id == service) && is_current r.status && not (text_eq r.to_digest keep) in
    (count_if stale t.rows, record t { rows = filter (λ r. not (stale r)) t.rows })
