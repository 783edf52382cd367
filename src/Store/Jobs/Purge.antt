-- ===== src/Store/Jobs/Purge.antt =====
-- Deletes and crash recovery (`DeleteFinished`, `DeleteFinishedBefore` and `ResumeRunning` of
-- internal/store/jobs.go).
use dockbrr.Common.{
  ℕ, ◌≡◌, refl, Bool, true, false, ◌&&◌, not, Option, none, some, List, [], ◌∷◌, ltb, edit, filter,
  count_if, All, edit-All, All-map, filter-holds, arith, ◌+◌, In, In-filter,
}
use dockbrr.Store.Sql.{Result, ok}
use dockbrr.Store.Jobs.Defs.{Job, Tables, is_queued, is_running, is_active, is_finished}
use dockbrr.Store.Jobs.{
  delete_where, delete_finished, delete_finished_before, resume_running, requeued,
}

abbrev queued_count : List Job → ℕ
queued_count = count_if (λ j. is_queued j.status)

abbrev running_count : List Job → ℕ
running_count = count_if (λ j. is_running j.status)

queued_count-edit :
    (rows : List Job)
    → queued_count (edit (λ j. is_running j.status) requeued rows)
      ≡ queued_count rows + running_count rows
queued_count-edit [] = omega arith
queued_count-edit (j ∷ js) = ground (arith, queued_count-edit js)

-- With a driver that works, `ResumeRunning` leaves no job running, the queue has grown by just the
-- jobs that ran, and their number is the result.
pub resume_running_lem :
    (t : Tables)
    → ((resume_running none t).0 ≡ ok (running_count t.rows))
      × All (λ j. is_running j.status ≡ false) (resume_running none t).1.rows
      × (queued_count (resume_running none t).1.rows ≡ queued_count t.rows + running_count t.rows)
unfolding resume_running
resume_running_lem t = (
  refl,
  edit-All (λ j. is_running j.status ≡ false) (λ j. is_running j.status) requeued t.rows
      (λ j. ground arith),
  queued_count-edit t.rows,
)

-- Both deletes, each with the test of its `WHERE`.
abbrev pub purged_by : Option ℕ → Job → Bool
purged_by none j = is_finished j.status
purged_by (some before) j = is_finished j.status && ltb j.created_at before

abbrev pub purge : Option ℕ → Tables → Result ℕ × Tables
purge none t = delete_finished none t
purge (some before) t = delete_finished_before none before t

purge_lem :
    (o : Option ℕ) (t : Tables)
    → purge o t ≡ (ok (delete_where (purged_by o) t).0, (delete_where (purged_by o) t).1)
unfolding delete_finished delete_finished_before
purge_lem none t = refl
purge_lem (some before) t = refl

active_not_purged : (o : Option ℕ) (j : Job) → is_active j.status ≡ true → purged_by o j ≡ false
active_not_purged none j h = ground arith
active_not_purged (some before) j h = ground arith

-- `DeleteFinished` and `DeleteFinishedBefore`, where the driver works, leave every queued and every
-- running job in the table, and leave no job that their test finds.
pub purge_keeps_active :
    (o : Option ℕ) (t : Tables)
    → ((j : Job) → is_active j.status ≡ true → In j t.rows → In j (purge o t).1.rows)
      × All (λ j. purged_by o j ≡ false) (purge o t).1.rows
purge_keeps_active o t = rw (purge_lem o t) (
  (λ j a m. In-filter (λ x. not (purged_by o x)) j t.rows (rw (active_not_purged o j a)) m),
  All-map (λ j. not (purged_by o j) ≡ true) (λ j. purged_by o j ≡ false)
      (filter (λ j. not (purged_by o j)) t.rows) (λ j h. ground arith)
      (filter-holds (λ j. not (purged_by o j)) t.rows),
)
