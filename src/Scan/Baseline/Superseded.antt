-- ===== src/Scan/Baseline/Superseded.antt =====
-- `ensureCurrentChangelog` of internal/scan/scan.go where the running digest has a superseded row.
use mathlib.Core.Option
use dockbrr.Common.{
  ◌≡◌, refl, ◌∙◌, ℕ, Bool, true, false, ◌&&◌, ◌||◌, not, Option, none, some, [], Text, text_eq,
  ◌==◌, find, find-edit, find-filter, by_cases, filter, arith, Bool-cases, inl, inr, if◌then◌else◌,
}
use dockbrr.Store.Sql.{Result, Fault, ok, err, exec}
use dockbrr.Store.Updates.Defs.{Update, Table, superseded, is_current, at_key, update_where}
use dockbrr.Store.Updates.Reads.{has_surfaced_by_service, has_resolved_current_at_digest}
use dockbrr.Store.Updates.Writes.{upsert, set_changelog, set_changelog_status, delete_stale_current}
use dockbrr.Store.Updates.Keys.{KeepsKey, at_key-kept}
use dockbrr.Store.Updates.Drift.Rows.{row_at}
use dockbrr.Store.Updates.Upserts.{row_at-upsert_row, upserted}
use dockbrr.Scan.Baseline.{
  Service, Image, Resolved, limited, unresolved, notes, Faults, baseline_row, keep_changelog,
  baseline_written, write_baseline, unless_resolved, unless_surfaced, stale_deleted,
  ensure_current_changelog,
}

-- The row of the key is there, and superseded.
abbrev pub IsSuperseded : ℕ → Text → Table → Type 0
IsSuperseded s d t = Option.map (λ r. r.status) (row_at s d t) ≡ some superseded

-- A change of a row that leaves its status.
status_kept :
    (p : Update → Bool) (g : Update → Update)
    → ((r : Update) → (g r).status ≡ r.status)
    → (o : Option Update)
    → Option.map (λ r. r.status) (Option.map (λ r. if p r then g r else r) o)
      ≡ Option.map (λ r. r.status) o
status_kept p g h none = refl
status_kept p g h (some r) = ground (arith, h r)

edit-IsSuperseded :
    {A : Type 0} (fault : Fault) (a : Table → A) (p : Update → Bool) (g : Update → Update) (s : ℕ)
    (d : Text) (t : Table)
    → KeepsKey g
    → ((r : Update) → (g r).status ≡ r.status)
    → IsSuperseded s d t
    → IsSuperseded s d (exec fault (λ x. (a x, update_where p g x)) t).1
edit-IsSuperseded (some e) a p g s d t k h i = i
edit-IsSuperseded none a p g s d t k h i =
    rw (find-edit (at_key s d) p g (at_key-kept p g k s d) t.rows)
      (status_kept p g h (row_at s d t) ∙ i)

delete-IsSuperseded :
    (fault : Fault) (s : ℕ) (keep d : Text) (t : Table)
    → IsSuperseded s d t
    → IsSuperseded s d (delete_stale_current fault s keep t).1
unfolding delete_stale_current
delete-IsSuperseded (some e) s keep d t i = i
delete-IsSuperseded none s keep d t i = kept (row_at s d t) refl i
  where
    fresh : Update → Bool
    fresh r = not ((r.service_id == s) && is_current r.status && not (text_eq r.to_digest keep))

    kept :
        (o : Option Update)
        → row_at s d t ≡ o
        → Option.map (λ r. r.status) o ≡ some superseded
        → Option.map (λ r. r.status) (find (at_key s d) (filter fresh t.rows)) ≡ some superseded
    kept none e k = cc
    kept (some r) e k = rw (find-filter (at_key s d) fresh t.rows r e (ground arith)) k

upserted-status :
    (up : Update) (t : Table) (o : Option Update)
    → Option.map (λ r. r.status) o ≡ some superseded
    → Option.map (λ r. r.status) (some (upserted up t o)) ≡ some superseded
upserted-status up t none h = cc
upserted-status up t (some r) h = h

upsert-IsSuperseded :
    (fault : Fault) (up : Update) (s : ℕ) (d : Text) (t : Table)
    → IsSuperseded s d t
    → IsSuperseded s d (upsert fault up t).1
unfolding upsert
upsert-IsSuperseded (some e) up s d t i = i
upsert-IsSuperseded none up s d t i = rw (row_at-upsert_row up t s d) (
    by_cases
      (λ b.
        Option.map (λ r. r.status) (if b then some (upserted up t (row_at s d t)) else row_at s d t)
        ≡ some superseded)
      (at_key s d up) (λ e. upserted-status up t (row_at s d t) i) (λ e. i))

module _ (f : Faults) (s : ℕ) (d : Text) where
  keep_changelog-IsSuperseded :
      (id : ℕ) (r : Resolved) (t : Table)
      → IsSuperseded s d t
      → IsSuperseded s d (keep_changelog f id r t).1
  unfolding keep_changelog set_changelog set_changelog_status
  keep_changelog-IsSuperseded id limited t i =
      edit-IsSuperseded f.mark _ _ _ s d t
        (record { id_kept = λ r. refl; service_kept = λ r. refl; digest_kept = λ r. refl })
        (λ r. refl) i
  keep_changelog-IsSuperseded id (unresolved e) t i = i
  keep_changelog-IsSuperseded id (notes text url) t i =
      by_cases (λ b. IsSuperseded s d (if b then (set_changelog f.save id url text t).1 else t))
        (not (text_eq text []) || not (text_eq url []))
        (λ e.
          edit-IsSuperseded f.save _ _ _ s d t
            (record { id_kept = λ r. refl; service_kept = λ r. refl; digest_kept = λ r. refl })
            (λ r. refl) i)
        (λ e. i)

  module _ (source : Update → Text → Text → Resolved) (svc : Service) (img : Option Image) where
    baseline_written-IsSuperseded :
        (r : Result ℕ) (t : Table)
        → IsSuperseded s d t
        → IsSuperseded s d (baseline_written f source svc img r t).1
    unfolding baseline_written
    baseline_written-IsSuperseded (err e) t i = i
    baseline_written-IsSuperseded (ok id) t i = keep_changelog-IsSuperseded id _ t i

    unless_resolved-IsSuperseded :
        (r : Result Bool) (t : Table)
        → IsSuperseded s d t
        → IsSuperseded s d (unless_resolved f source svc img r t).1
    unfolding unless_resolved write_baseline
    unless_resolved-IsSuperseded (err e) t i = i
    unless_resolved-IsSuperseded (ok true) t i = i
    unless_resolved-IsSuperseded (ok false) t i =
        let r = upsert f.upsert (baseline_row svc img) t in
        baseline_written-IsSuperseded r.0 r.1
          (upsert-IsSuperseded f.upsert (baseline_row svc img) s d t i)

    unless_surfaced-IsSuperseded :
        (r : Result Bool) (t : Table)
        → IsSuperseded s d t
        → IsSuperseded s d (unless_surfaced f source svc img r t).1
    unfolding unless_surfaced
    unless_surfaced-IsSuperseded (err e) t i = i
    unless_surfaced-IsSuperseded (ok true) t i = i
    unless_surfaced-IsSuperseded (ok false) t i =
        unless_resolved-IsSuperseded
          (has_resolved_current_at_digest f.resolved svc.id svc.current_digest t) t i

    stale_deleted-IsSuperseded :
        (r : Result ℕ) (t : Table)
        → IsSuperseded s d t
        → IsSuperseded s d (stale_deleted f source svc img r t).1
    unfolding stale_deleted
    stale_deleted-IsSuperseded (err e) t i = i
    stale_deleted-IsSuperseded (ok n) t i =
        unless_surfaced-IsSuperseded (has_surfaced_by_service f.surfaced svc.id t) t i

-- A superseded row of the service stays superseded through `ensureCurrentChangelog`, whatever the driver
-- and the changelog source do, the row of the running digest included.
pub ensure_current_changelog-IsSuperseded :
    (f : Faults) (source : Update → Text → Text → Resolved) (svc : Service) (img : Option Image)
    (d : Text) (t : Table)
    → IsSuperseded svc.id d t
    → IsSuperseded svc.id d (ensure_current_changelog f source svc img t).1
unfolding ensure_current_changelog
ensure_current_changelog-IsSuperseded f source svc img d t i =
    let r = delete_stale_current f.delete svc.id svc.current_digest t in
    elim (Bool-cases (text_eq svc.current_digest [])) [
      | inl e ↦ rw e i
      | inr e ↦ rw e (
          stale_deleted-IsSuperseded f svc.id d source svc img r.0 r.1
            (delete-IsSuperseded f.delete svc.id svc.current_digest d t i))
    ]
