-- ===== src/Examples/Pooling.antt =====
-- Two workers, two jobs of one project, and a client.
use dockbrr.Common.{◌≡◌, refl, ◌≤◌, true, some, List, [], ◌∷◌, get_elem?}
use dockbrr.Job.Engine.{
  Task, running, waiting, Engine, Event, step, subscribe, happen, claim, enter, acquire, release,
  close, act, run,
}
use dockbrr.Job.Engine.Counts.{holders}
use dockbrr.Job.Engine.Exclusive.{fresh, one_per_project, free_lock_taken}

abbrev first : Task
first = record { id = 1; key = 5 }

abbrev second : Task
second = record { id = 2; key = 5 }

-- Both workers claim a job of project 5; the second one is blocked until the first one is done.
abbrev contended : List Event
contended =
    step 0 (claim first)
    ∷ step 1 (claim second)
    ∷ step 0 enter
    ∷ step 1 enter
    ∷ subscribe 1
    ∷ step 0 acquire
    ∷ step 1 acquire
    ∷ step 0 release
    ∷ step 0 close
    ∷ subscribe 1
    ∷ []

one_per_project_example :
    (holders 5 (run contended (fresh 2)).workers ≤ 1)
    × ((run contended (fresh 2)).finished 1 ≡ true → (run contended (fresh 2)).subs 1 ≡ 0)
one_per_project_example = one_per_project 2 contended 5 1

second_waits : get_elem? (run contended (fresh 2)).workers 1 ≡ some (waiting second)
unfolding run happen
second_waits = refl

none_runs : holders 5 (run contended (fresh 2)).workers ≡ 0
unfolding run happen
none_runs = refl

free_lock_taken_example :
    (e : Engine) × (act 1 acquire (run contended (fresh 2)) ≡ some e)
    × (get_elem? e.workers 1 ≡ some (running second))
free_lock_taken_example = free_lock_taken 2 contended 1 second second_waits none_runs
