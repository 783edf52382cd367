-- ===== src/Store/Jobs/Defs.antt =====
-- The rows of the tables `jobs` and `job_logs` (internal/store/jobs.go).
use dockbrr.Common.{ℕ, Bool, true, false, Option, List, Text, bytes, text_eq}

-- The texts of the column `type`.
pub data JobType : Type 0 where
  check apply rollback sync start stop restart remove self_update : JobType
  other : Text → JobType

-- The texts of the column `status`; `unset` is the empty text.
pub data Status : Type 0 where
  unset queued running success failed canceled : Status

-- The texts of the column `scope`.
pub data Scope : Type 0 where
  unset service project : Scope

-- The texts of the column `requested_by`.
pub data Requester : Type 0 where
  unset user scheduler : Requester

-- `Job`: a row. Times are numbers.
pub record Job : Type 0 where
  pub id : ℕ
  pub kind : JobType
  pub project_id : Option ℕ
  pub service_id : Option ℕ
  pub status : Status
  pub scope : Scope
  pub requested_by : Requester
  pub created_at : ℕ
  pub started_at : Option ℕ
  pub finished_at : Option ℕ
  pub exit_code : Option ℕ
  pub error : Text

-- `JobLog`.
pub record JobLog : Type 0 where
  pub id : ℕ
  pub job_id : ℕ
  pub stream : Text
  pub line : Text
  pub ts : ℕ

-- Both tables: `AUTOINCREMENT` gives `next_id` and `next_log`, `CURRENT_TIMESTAMP` is `now`.
pub record Tables : Type 0 where
  pub rows : List Job
  pub next_id : ℕ
  pub logs : List JobLog
  pub next_log : ℕ
  pub now : ℕ

abbrev pub is_queued : Status → Bool
is_queued queued = true
is_queued _ = false

abbrev pub is_running : Status → Bool
is_running running = true
is_running _ = false

-- `status IN ('queued','running')`.
abbrev pub is_active : Status → Bool
is_active queued = true
is_active running = true
is_active _ = false

-- `finishedStatuses`.
abbrev pub is_finished : Status → Bool
is_finished success = true
is_finished failed = true
is_finished canceled = true
is_finished _ = false

-- The defaults of `Enqueue`.
abbrev pub status_or_default : Status → Status
status_or_default Status.unset = queued
status_or_default s = s

abbrev pub scope_or_default : Scope → Scope
scope_or_default Scope.unset = service
scope_or_default s = s

abbrev pub requester_or_default : Requester → Requester
requester_or_default Requester.unset = user
requester_or_default r = r

unfoldable pub type_name : JobType → Text
type_name check = bytes "check"
type_name apply = bytes "apply"
type_name rollback = bytes "rollback"
type_name sync = bytes "sync"
type_name start = bytes "start"
type_name stop = bytes "stop"
type_name restart = bytes "restart"
type_name remove = bytes "remove"
type_name self_update = bytes "self_update"
type_name (other t) = t

unfoldable pub same_type : JobType → JobType → Bool
unfolding type_name
same_type a b = text_eq (type_name a) (type_name b)
