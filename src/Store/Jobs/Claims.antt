-- ===== src/Store/Jobs/Claims.antt =====
-- `ClaimNext` of internal/store/jobs.go.
use dockbrr.Common.{
  ◌≤◌, ◌≡◌, refl, Bool, true, false, Option, none, some, List, [], ◌∷◌, ltb, filter, All, In,
  All-filter, filter-holds, All-map, All-self, All-unfilter, arith,
}
use dockbrr.Common.Sort.{sort_by, Sorted, sort_by-Sorted, All-sort_by, All-of_sort_by}
use dockbrr.Store.Sql.{Result, ok, err}
use dockbrr.Store.Jobs.Defs.{Job, Tables, is_queued}
use dockbrr.Store.Jobs.{oldest_queued, started, claim, claim_next}

abbrev by_id : Job → Job → Bool
by_id a b = ltb a.id b.id

-- What the subquery of `ClaimNext` may answer.
abbrev pub OldestAnswer : List Job → Option Job → Type 0
OldestAnswer rows none = All (λ j. is_queued j.status ≡ false) rows
OldestAnswer rows (some j) =
    In j rows
    × (is_queued j.status ≡ true)
    × All (λ x. is_queued x.status ≡ true → j.id ≤ x.id) rows

oldest_of_Sorted :
    (rows sorted : List Job)
    → Sorted by_id sorted
    → All (λ x. In x rows) sorted
    → All (λ x. is_queued x.status ≡ true) sorted
    → ((P : Job → Type 0) → All P sorted → All P (filter (λ j. is_queued j.status) rows))
    → OldestAnswer rows (elim sorted [ [] ↦ none | j ∷ js ↦ some j ])
oldest_of_Sorted rows [] so li q back =
    All-map (λ x. is_queued x.status ≡ true → ⊥) (λ x. is_queued x.status ≡ false) rows
      (λ x h. ground arith)
      (All-unfilter (λ _. ⊥) (λ j. is_queued j.status) rows (back (λ _. ⊥) tt))
oldest_of_Sorted rows (x ∷ xs) so li q back = (
  li.0,
  q.0,
  All-unfilter (λ y. x.id ≤ y.id) (λ j. is_queued j.status) rows
      (back (λ y. x.id ≤ y.id)
        (
          omega arith,
          All-map (λ y. by_id y x ≡ false) (λ y. x.id ≤ y.id) xs (λ y h. ground arith) so.0,
        )),
)

pub oldest_queued_lem : (rows : List Job) → OldestAnswer rows (oldest_queued rows)
unfolding oldest_queued
oldest_queued_lem rows =
    let q = filter (λ j. is_queued j.status) rows in
    oldest_of_Sorted rows (sort_by by_id q)
      (sort_by-Sorted by_id (λ x y h. ground arith) (λ x y z h k. ground arith) q)
      (All-sort_by by_id (λ x. In x rows) q
        (All-filter (λ x. In x rows) (λ j. is_queued j.status) rows (All-self rows)))
      (All-sort_by by_id (λ x. is_queued x.status ≡ true) q
        (filter-holds (λ j. is_queued j.status) rows))
      (λ P. All-of_sort_by by_id P q)

-- What `ClaimNext` may answer over the rows before the call.
abbrev pub ClaimAnswer : Tables → Result (Option Job) → Type 0
ClaimAnswer t (err e) = ⊥
ClaimAnswer t (ok none) = All (λ j. is_queued j.status ≡ false) t.rows
ClaimAnswer t (ok (some j)) = (q : Job) × OldestAnswer t.rows (some q) × (j ≡ started t.now q)

-- With a driver that works, `ClaimNext` answers that there is no job exactly if none is queued, and
-- else returns a queued job, now running, than which no queued job has a lower id.
pub claim_next_oldest : (t : Tables) → ClaimAnswer t (claim_next none t).0
unfolding claim_next
claim_next_oldest t = answer (oldest_queued t.rows) (oldest_queued_lem t.rows)
  where
    answer : (o : Option Job) → OldestAnswer t.rows o → ClaimAnswer t (ok (claim o t).0)
    answer none h = h
    answer (some q) h = (q, h, refl)
