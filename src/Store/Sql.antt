-- ===== src/Store/Sql.antt =====
-- What the repositories of internal/store share: results, and one SQL statement. SQLite and its
-- driver are no part of the program: that the driver fails is an argument of each call, the text of
-- its error, and a statement that fails changes nothing, as SQLite documents.
use dockbrr.Common.{Option, none, some, Text}

-- The errors of the repositories: the driver's own, and the sentinel values of the package.
pub data Error : Type 0 where
  driver : Text → Error
  no_open_update update_not_found job_not_found setting_not_found session_not_found : Error
  snapshot_not_found : Error

pub data Result {ℓ} (A : Type ℓ) : Type ℓ where
  ok : A → Result A
  err : Error → Result A

-- Whether the driver fails, and with what text.
abbrev pub Fault : Type 0
Fault = Option Text

-- A statement that writes: the new table and the result.
abbrev pub exec {ℓ} : {S A : Type ℓ} → Fault → (S → A × S) → S → Result A × S
exec none f s = (ok (f s).0, (f s).1)
exec (some e) f s = (err (driver e), s)

-- A statement that reads.
abbrev pub query {ℓ} : {S A : Type ℓ} → Fault → (S → Result A) → S → Result A
query none f s = f s
query (some e) f s = err (driver e)
