-- ===== src/Store/Jobs/Once.antt =====
-- Sequences of calls on the tables of internal/store/jobs.go, and the ids that claims take.
use mathlib.Core.Path.{subst}
use dockbrr.Common.{
  ℕ, ◌+◌, ◌<◌, ◌≡◌, ◌≢◌, refl, Bool, true, false, not, Option, none, some, List, [], ◌∷◌, Text,
  ◌==◌, ap, ◌∙◌, In, All, All-edit, All-filter, edit-All, All-In, arith,
}
use dockbrr.Store.Sql.{Result, Fault, ok, err, exec}
use dockbrr.Store.Jobs.Defs.{Job, Tables, Status, is_queued}
use dockbrr.Store.Jobs.{oldest_queued, started, claim, finished_job, delete_where}
use dockbrr.Store.Jobs
use dockbrr.Store.Jobs.Claims.{oldest_queued_lem, OldestAnswer}

pub data Call : Type 0 where
  enqueue : Fault → Job → Call
  claim_next : Fault → Call
  finish : Fault → ℕ → Status → Option ℕ → Text → Call
  delete_finished : Fault → Call
  delete_finished_before : Fault → ℕ → Call
  append_log : Fault → ℕ → Text → Text → Call
  resume_running : Fault → Call
  wait : ℕ → Call

unfoldable pub call : Call → Tables → Tables
call (enqueue f job) t = (Jobs.enqueue f job t).1
call (claim_next f) t = (Jobs.claim_next f t).1
call (finish f id s code e) t = (Jobs.finish f id s code e t).1
call (delete_finished f) t = (Jobs.delete_finished f t).1
call (delete_finished_before f n) t = (Jobs.delete_finished_before f n t).1
call (append_log f job s l) t = (Jobs.append_log f job s l t).1
call (resume_running f) t = (Jobs.resume_running f t).1
call (wait n) t = record t { now = t.now + n }

unfoldable pub run : List Call → Tables → Tables
run [] t = t
run (c ∷ cs) t = run cs (call c t)

-- The calls that put no job back into the queue: all but `ResumeRunning`, and `Finish` with a status
-- other than "queued" (the program passes "success" and "failed").
abbrev pub no_requeue : Call → Bool
no_requeue (resume_running f) = false
no_requeue (finish f id s code e) = not (is_queued s)
no_requeue _ = true

-- The ids in use are below the next one.
abbrev pub Below : Tables → Type 0
Below t = All (λ j. j.id < t.next_id) t.rows

-- The id was given out, and no queued job has it.
pub record Taken (id : ℕ) (t : Tables) : Type 0 where
  pub given : id < t.next_id
  pub gone : All (λ j. j.id ≡ id → is_queued j.status ≡ false) t.rows

exec-Taken :
    {A : Type 0} (id : ℕ) (fault : Fault) (f : Tables → A × Tables) (t : Tables)
    → (Taken id t → Taken id (f t).1)
    → Taken id t
    → Taken id (exec fault f t).1
exec-Taken id none f t h k = h k
exec-Taken id (some e) f t h k = k

claim-Taken : (id : ℕ) (o : Option Job) (t : Tables) → Taken id t → Taken id (claim o t).1
claim-Taken id none t k = k
claim-Taken id (some j) t k = record {
  given = k.given;
  gone =
      All-edit (λ x. x.id ≡ id → is_queued x.status ≡ false) (λ x. x.id == j.id) (started t.now)
        t.rows (λ x h e. refl) k.gone;
}

delete_where-Taken :
    (id : ℕ) (p : Job → Bool) (t : Tables) → Taken id t → Taken id (delete_where p t).1
delete_where-Taken id p t k = record {
  given = k.given;
  gone = All-filter (λ x. x.id ≡ id → is_queued x.status ≡ false) (λ j. not (p j)) t.rows k.gone;
}

call-Taken :
    (id : ℕ) (c : Call) (t : Tables) → no_requeue c ≡ true → Taken id t → Taken id (call c t)
unfolding call Jobs.enqueue Jobs.claim_next Jobs.finish Jobs.delete_finished
    Jobs.delete_finished_before Jobs.append_log
call-Taken id (enqueue f job) t q k =
    exec-Taken id f _ t
      (λ h. record {
        given = ground (arith, h.given);
        gone = ((λ e. absurd (omega (arith, h.given))), h.gone);
      })
      k
call-Taken id (claim_next f) t q k =
    exec-Taken id f _ t (λ h. claim-Taken id (oldest_queued t.rows) t h) k
call-Taken id (finish f x s code e) t q k =
    exec-Taken id f _ t
      (λ h. record {
        given = h.given;
        gone =
            All-edit (λ j. j.id ≡ id → is_queued j.status ≡ false) (λ j. j.id == x)
              (finished_job t.now s code e) t.rows (λ j _ _. ground arith) h.gone;
      })
      k
call-Taken id (delete_finished f) t q k = exec-Taken id f _ t (λ h. delete_where-Taken id _ t h) k
call-Taken id (delete_finished_before f n) t q k =
    exec-Taken id f _ t (λ h. delete_where-Taken id _ t h) k
call-Taken id (append_log f job s l) t q k =
    exec-Taken id f _ t (λ h. record { given = h.given; gone = h.gone }) k
call-Taken id (resume_running f) t q k = cc
call-Taken id (wait n) t q k = record { given = k.given; gone = k.gone }

run-Taken :
    (id : ℕ) (cs : List Call) (t : Tables)
    → All (λ c. no_requeue c ≡ true) cs
    → Taken id t
    → Taken id (run cs t)
unfolding run
run-Taken id [] t q k = k
run-Taken id (c ∷ cs) t q k = run-Taken id cs (call c t) q.1 (call-Taken id c t q.0 k)

abbrev claimed_id : Result (Option Job) → ℕ
claimed_id (ok (some x)) = x.id
claimed_id (ok none) = 0
claimed_id (err x) = 0

-- The job that the subquery finds is taken by its claim.
claim-some-Taken : (q : Job) (t : Tables) → Below t → In q t.rows → Taken q.id (claim (some q) t).1
claim-some-Taken q t b m = record {
  given = All-In (λ x. x.id < t.next_id) b m;
  gone =
      edit-All (λ x. x.id ≡ q.id → is_queued x.status ≡ false) (λ x. x.id == q.id) (started t.now)
        t.rows (λ x. ground arith);
}

Taken-by_claim :
    (t : Tables) (j : Job) (o : Option Job)
    → Below t
    → OldestAnswer t.rows o
    → ok (claim o t).0 ≡ ok (some j)
    → Taken j.id (claim o t).1
Taken-by_claim t j none b a e = cc
Taken-by_claim t j (some q) b a e =
    subst (λ i. Taken i (claim (some q) t).1) (ap claimed_id e) (claim-some-Taken q t b a.0)

-- A claim takes the id of the job that it returns.
claim_next-Taken :
    (fault : Fault) (t : Tables) (j : Job)
    → Below t
    → (Jobs.claim_next fault t).0 ≡ ok (some j)
    → Taken j.id (Jobs.claim_next fault t).1
unfolding Jobs.claim_next
claim_next-Taken (some e) t j b h = cc
claim_next-Taken none t j b h =
    Taken-by_claim t j (oldest_queued t.rows) b (oldest_queued_lem t.rows) h

queued_before :
    (t : Tables) (k : Job) (id : ℕ) (o : Option Job)
    → OldestAnswer t.rows o
    → ok (claim o t).0 ≡ ok (some k)
    → Taken id t
    → k.id ≢ id
queued_before t k id none a e taken same = cc
queued_before t k id (some q) a e taken same = cc (
  a.1,
  All-In (λ j. j.id ≡ id → is_queued j.status ≡ false) taken.gone a.0 (ap claimed_id e ∙ same),
)

claim_next-ne :
    (fault : Fault) (t : Tables) (k : Job) (id : ℕ)
    → (Jobs.claim_next fault t).0 ≡ ok (some k)
    → Taken id t
    → k.id ≢ id
unfolding Jobs.claim_next
claim_next-ne (some e) t k id h taken same = cc
claim_next-ne none t k id h taken same =
    queued_before t k id (oldest_queued t.rows) (oldest_queued_lem t.rows) h taken same

-- Two claims never return the same job, whatever calls stand between them, failing or not, as long
-- as none of them puts a job back into the queue, and where the ids in use are below the next one.
pub claimed_once :
    (f f' : Fault) (t : Tables) (cs : List Call) (j k : Job)
    → Below t
    → All (λ c. no_requeue c ≡ true) cs
    → (Jobs.claim_next f t).0 ≡ ok (some j)
    → (Jobs.claim_next f' (run cs (Jobs.claim_next f t).1)).0 ≡ ok (some k)
    → k.id ≢ j.id
claimed_once f f' t cs j k b q h h' =
    claim_next-ne f' (run cs (Jobs.claim_next f t).1) k j.id h'
      (run-Taken j.id cs (Jobs.claim_next f t).1 q (claim_next-Taken f t j b h))
