-- ===== src/Store/Updates/Reads/Latest.antt =====
-- `GetLatestOpenByService` of internal/store/updates.go.
use dockbrr.Common.{ℕ, ◌≡◌, true, false, List, All, In}
use dockbrr.Store.Sql.{Result, ok, err, no_open_update}
use dockbrr.Store.Updates.Defs.{Update, available, detected_later}
use dockbrr.Store.Updates.Reads.{open_of}

-- A row that is the answer for a service: it stands in the table, it is open and of the service, and
-- no open row of the service was detected later (or at the same time, under a higher id).
pub record IsLatestOpen (service : ℕ) (rows : List Update) (r : Update) : Type 0 where
  pub listed : In r rows
  pub owner : r.service_id ≡ service
  pub is_open : r.status ≡ available
  pub latest : All (λ x. open_of service x ≡ true → detected_later x r ≡ false) rows

-- What a query for the latest open row may answer: such a row, or that there is no open row.
abbrev pub LatestAnswer : ℕ → List Update → Result Update → Type 0
LatestAnswer service rows (ok r) = IsLatestOpen service rows r
LatestAnswer service rows (err e) =
    (e ≡ no_open_update) × All (λ x. open_of service x ≡ true → ⊥) rows
