-- ===== src/Store/Jobs.antt =====
-- internal/store/jobs.go: the tables `jobs` and `job_logs`. The newest row stands first.
pub mod Defs
pub mod Claims
pub mod Once
pub mod Purge
use dockbrr.Common.{
  ℕ, suc, Bool, ◌&&◌, ◌||◌, not, Option, none, some, List, [], ◌∷◌, map, Text, bytes, text_eq, ◌==◌,
  ltb, edit, find, filter, count_if, any, take, if◌then◌else◌,
}
use dockbrr.Common.Sort.{sort_by}
use dockbrr.Store.Sql.{Result, Fault, exec, query, ok, err, job_not_found}
use dockbrr.Store.Jobs.Defs.{
  Job, JobType, JobLog, Tables, queued, running, is_queued, is_running, is_active, is_finished,
  status_or_default, scope_or_default, requester_or_default, same_type,
}

-- The row that `Enqueue` adds.
abbrev pub new_job : Tables → Job → Job
new_job t job = record {
  id = t.next_id;
  kind = job.kind;
  project_id = job.project_id;
  service_id = job.service_id;
  status = status_or_default job.status;
  scope = scope_or_default job.scope;
  requested_by = requester_or_default job.requested_by;
  created_at = t.now;
  started_at = none;
  finished_at = none;
  exit_code = none;
  error = [];
}

-- `Jobs.Enqueue`.
unfoldable pub enqueue : Fault → Job → Tables → Result ℕ × Tables
enqueue fault job =
    exec fault
      (λ t. (t.next_id, record t { rows = new_job t job ∷ t.rows; next_id = suc t.next_id }))

-- `SELECT … WHERE status='queued' ORDER BY id LIMIT 1`.
unfoldable pub oldest_queued : List Job → Option Job
unfolding sort_by
oldest_queued rows = elim (sort_by (λ a b. ltb a.id b.id) (filter (λ j. is_queued j.status) rows)) [
  | [] ↦ none
  | j ∷ js ↦ some j
]

abbrev pub started : ℕ → Job → Job
started now j = record j { status = running; started_at = some now }

-- The `UPDATE … RETURNING` of `ClaimNext` on the row that the subquery finds.
abbrev pub claim : Option Job → Tables → Option Job × Tables
claim none t = (none, t)
claim (some j) t =
    (some (started t.now j), record t { rows = edit (λ x. x.id == j.id) (started t.now) t.rows })

-- `Jobs.ClaimNext`; no row is the answer `none`.
unfoldable pub claim_next : Fault → Tables → Result (Option Job) × Tables
claim_next fault = exec fault (λ t. claim (oldest_queued t.rows) t)

abbrev pub finished_job : ℕ → Defs.Status → Option ℕ → Text → Job → Job
finished_job now status exit_code error j = record j {
  status = status;
  finished_at = some now;
  exit_code = exit_code;
  error = error;
}

-- `Jobs.Finish`.
unfoldable pub finish :
    Fault → ℕ → Defs.Status → Option ℕ → Text → Tables → Result (Unit {0}) × Tables
finish fault id status exit_code error = exec fault λ t. (
  tt,
  record t { rows = edit (λ j. j.id == id) (finished_job t.now status exit_code error) t.rows },
)

abbrev pub requeued : Job → Job
requeued j = record j { status = queued; started_at = none }

-- `Jobs.ResumeRunning`.
unfoldable pub resume_running : Fault → Tables → Result ℕ × Tables
resume_running fault = exec fault λ t. (
  count_if (λ j. is_running j.status) t.rows,
  record t { rows = edit (λ j. is_running j.status) requeued t.rows },
)

-- `Jobs.Get`.
unfoldable pub get : Fault → ℕ → Tables → Result Job
get fault id =
    query fault
      (λ t. elim (find (λ j. j.id == id) t.rows) [ none ↦ err job_not_found | some j ↦ ok j ])

-- `Jobs.ActiveByType`: the newest, since the rows stand newest first.
unfoldable pub active_by_type : Fault → JobType → Tables → Result (Option Job)
unfolding same_type sort_by
active_by_type fault kind = query fault λ t.
    ok
      (elim (sort_by (λ a b. ltb b.id a.id)
        (filter (λ j. same_type j.kind kind && is_active j.status) t.rows)) [
          | [] ↦ none
          | j ∷ js ↦ some j
        ])

-- The clamp of `Jobs.List`; a negative limit goes like 0.
unfoldable pub clamp_limit : ℕ → ℕ
clamp_limit limit = if (limit == 0) || ltb 500 limit then 50 else limit

-- `COALESCE(name, '')` of a `LEFT JOIN`; the name of what is gone is empty.
abbrev pub joined_name : (ℕ → Option Text) → Option ℕ → Text
joined_name names none = []
joined_name names (some id) = elim (names id) [ none ↦ [] | some n ↦ n ]

-- `Jobs.List`: the newest jobs with the names of their project and service. The tables of projects
-- and services are arguments.
unfoldable pub list :
    (ℕ → Option Text) → (ℕ → Option Text) → Fault → ℕ → Tables → Result (List (Job × Text × Text))
unfolding sort_by clamp_limit
list projects services fault limit = query fault λ t. ok (
    map (λ j. (j, joined_name projects j.project_id, joined_name services j.service_id))
      (take (clamp_limit limit) (sort_by (λ a b. ltb b.id a.id) t.rows)))

-- A delete of jobs, with the logs that `ON DELETE CASCADE` takes along.
abbrev pub delete_where : (Job → Bool) → Tables → ℕ × Tables
delete_where p t = (
  count_if p t.rows,
  record t {
    rows = filter (λ j. not (p j)) t.rows;
    logs = filter (λ l. not (any (λ j. (j.id == l.job_id) && p j) t.rows)) t.logs;
  },
)

-- `Jobs.DeleteFinished`.
unfoldable pub delete_finished : Fault → Tables → Result ℕ × Tables
delete_finished fault = exec fault (delete_where (λ j. is_finished j.status))

-- `Jobs.DeleteFinishedBefore`.
unfoldable pub delete_finished_before : Fault → ℕ → Tables → Result ℕ × Tables
delete_finished_before fault before =
    exec fault (delete_where (λ j. is_finished j.status && ltb j.created_at before))

-- `JobLogs.Append`.
unfoldable pub append_log : Fault → ℕ → Text → Text → Tables → Result (Unit {0}) × Tables
append_log fault job stream line = exec fault λ t. (
  tt,
  record t {
    logs =
        record {
          id = t.next_log;
          job_id = job;
          stream = if text_eq stream [] then bytes "stdout" else stream;
          line = line;
          ts = t.now;
        }
        ∷ t.logs;
    next_log = suc t.next_log;
  },
)

-- `JobLogs.ListByJob`: oldest first.
unfoldable pub list_by_job : Fault → ℕ → Tables → Result (List JobLog)
unfolding sort_by
list_by_job fault job =
    query fault (λ t. ok (sort_by (λ a b. ltb a.id b.id) (filter (λ l. l.job_id == job) t.logs)))
