-- ===== src/Store/Transaction.antt =====
-- A transaction of database/sql, as its documentation has it: a statement inside sees and changes the
-- working copy, `Commit` makes that the table that others see, `Rollback` gives it up, and both end the
-- transaction, a `Commit` that fails too. `Rollback` behind the end is an error that changes nothing.
use dockbrr.Common.{Option, none, some, Text, bytes}
use dockbrr.Store.Sql.{Result, Fault, err, driver, exec}

-- The table that others see, and the working copy of the open transaction.
pub record Db {ℓ} (S : Type ℓ) : Type ℓ where
  pub saved : S
  pub open_copy : Option S

-- No transaction is open.
abbrev pub idle {ℓ} : {S : Type ℓ} → S → Db S
idle t = record { saved = t; open_copy = none }

-- `sql.ErrTxDone`.
abbrev pub tx_done : Text
tx_done = bytes "sql: transaction has already been committed or rolled back"

unfoldable pub begin_tx {ℓ} : {S : Type ℓ} → Fault → Db S → Fault × Db S
begin_tx none db = (none, record db { open_copy = some db.saved })
begin_tx (some e) db = (some e, db)

-- A statement on the working copy.
unfoldable pub on_copy {ℓ} : {S A : Type ℓ} → Fault → (S → A × S) → S → Option S → Result A × Db S
on_copy fault f saved none = (err (driver tx_done), record { saved = saved; open_copy = none })
on_copy fault f saved (some t) =
    ((exec fault f t).0, record { saved = saved; open_copy = some (exec fault f t).1 })

unfoldable pub exec_tx {ℓ} : {S A : Type ℓ} → Fault → (S → A × S) → Db S → Result A × Db S
exec_tx fault f db = on_copy fault f db.saved db.open_copy

unfoldable pub commit_copy {ℓ} : {S : Type ℓ} → Fault → S → Option S → Fault × Db S
commit_copy fault saved none = (some tx_done, idle saved)
commit_copy none saved (some t) = (none, idle t)
commit_copy (some e) saved (some t) = (some e, idle saved)

unfoldable pub commit_tx {ℓ} : {S : Type ℓ} → Fault → Db S → Fault × Db S
commit_tx fault db = commit_copy fault db.saved db.open_copy

unfoldable pub rollback_tx {ℓ} : {S : Type ℓ} → Db S → Db S
rollback_tx db = idle db.saved
