-- ===== src/Examples/Jobs.antt =====
-- A queue of jobs.
use dockbrr.Common.{
  ◌≡◌, ◌≢◌, refl, ℕ, ◌+◌, true, false, none, some, List, [], ◌∷◌, All, In, count_if, arith,
}
use dockbrr.Store.Sql.{ok}
use dockbrr.Store.Jobs.Defs.{
  Job, Tables, Status, queued, running, success, apply, service, user, is_running, is_active,
  is_queued,
}
use dockbrr.Store.Jobs
use dockbrr.Store.Jobs.{claim_next, started, resume_running, oldest_queued}
use dockbrr.Store.Jobs.Claims.{ClaimAnswer, claim_next_oldest}
use dockbrr.Store.Jobs.Once.{Call, run, enqueue, finish, wait, claimed_once}
use dockbrr.Store.Jobs.Once as Once
use dockbrr.Store.Jobs.Purge.{purge, purged_by, resume_running_lem, purge_keeps_active}

abbrev job : ℕ → Status → Job
job id status = record {
  id = id;
  kind = apply;
  project_id = some 1;
  service_id = some 1;
  status = status;
  scope = service;
  requested_by = user;
  created_at = id;
  started_at = none;
  finished_at = none;
  exit_code = none;
  error = [];
}

-- A queue with a finished, a queued and a running job, and one more queued.
abbrev queue : Tables
queue = record {
  rows = job 4 queued ∷ job 3 running ∷ job 2 queued ∷ job 1 success ∷ [];
  next_id = 5;
  logs = [];
  next_log = 1;
  now = 60;
}

abbrev between : List Call
between = finish none 2 success (some 0) [] ∷ enqueue none (job 0 queued) ∷ wait 5 ∷ []

first_claim : (claim_next none queue).0 ≡ ok (some (started 60 (job 2 queued)))
unfolding claim_next oldest_queued
first_claim = refl

second_claim :
    (claim_next none (run between (claim_next none queue).1)).0
    ≡ ok (some (started 65 (job 4 queued)))
unfolding claim_next oldest_queued run Once.call Jobs.finish Jobs.enqueue
second_claim = refl

claimed_once_example : (started 65 (job 4 queued)).id ≢ (started 60 (job 2 queued)).id
claimed_once_example =
    claimed_once none none queue between (started 60 (job 2 queued)) (started 65 (job 4 queued))
      (omega arith, (omega arith, (omega arith, (omega arith, tt)))) (refl, (refl, (refl, tt)))
      first_claim second_claim

claim_next_oldest_example : ClaimAnswer queue (claim_next none queue).0
claim_next_oldest_example = claim_next_oldest queue

resume_running_lem_example :
    ((resume_running none queue).0 ≡ ok 1)
    × All (λ j. is_running j.status ≡ false) (resume_running none queue).1.rows
    × (count_if (λ j. is_queued j.status) (resume_running none queue).1.rows ≡ 2 + 1)
resume_running_lem_example = resume_running_lem queue

purge_keeps_active_example :
    ((j : Job) → is_active j.status ≡ true → In j queue.rows → In j (purge (some 3) queue).1.rows)
    × All (λ j. purged_by (some 3) j ≡ false) (purge (some 3) queue).1.rows
purge_keeps_active_example = purge_keeps_active (some 3) queue
