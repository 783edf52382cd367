-- ===== src/Store/Updates/Keys.antt =====
-- Ids and keys of the rows of the table `updates` (internal/store/updates.go).
use Prim.Native.Nat.{◌<◌, ◌≤◌}
use dockbrr.Common.{
  ℕ, ◌≡◌, refl, Bool, false, Option, none, some, List, [], ◌∷◌, Text, ◌==◌, edit, find, filter, All,
  All-edit, All-filter, by_cases, Option-cases, inl, inr, arith, if◌then◌else◌,
}
use dockbrr.Store.Updates.Defs.{
  Status, Update, Table, at_key, superseded, prior_open, insert, update_where, with_status,
}
use dockbrr.Store.Updates.Writes.{upsert_row, refresh_row}
use dockbrr.Store.Updates.Drift.{DriftFaults, record_drift, write_drift, drifted_row}
use dockbrr.Store.Updates.Drift.Outcome.{first_fault, drift_outcome, record_drift_lem}

abbrev pub Descending : ℕ → List Update → Type 0
Descending n [] = Unit
Descending n (r ∷ rs) = (r.id < n) × Descending r.id rs

abbrev pub NoKey : ℕ → Text → List Update → Type 0
NoKey service dig rows = All (λ r. at_key service dig r ≡ false) rows

abbrev pub DistinctKeys : List Update → Type 0
DistinctKeys [] = Unit
DistinctKeys (r ∷ rs) = NoKey r.service_id r.to_digest rs × DistinctKeys rs

pub record WellFormed (t : Table) : Type 0 where
  pub ids : Descending t.next_id t.rows
  pub keys : DistinctKeys t.rows

-- An edit of a row that leaves the id and the key.
pub record KeepsKey (f : Update → Update) : Type 0 where
  pub id_kept : (r : Update) → (f r).id ≡ r.id
  pub service_kept : (r : Update) → (f r).service_id ≡ r.service_id
  pub digest_kept : (r : Update) → (f r).to_digest ≡ r.to_digest

-- A weaker bound on the ids.
Descending-mono : (m n : ℕ) (rows : List Update) → m ≤ n → Descending m rows → Descending n rows
Descending-mono m n [] h d = tt
Descending-mono m n (r ∷ rs) h d = (omega arith, d.1)

module _ (p : Update → Bool) (f : Update → Update) (k : KeepsKey f) where
  edited-id : (r : Update) → (if p r then f r else r).id ≡ r.id
  edited-id r =
      by_cases (λ b. (if b then f r else r).id ≡ r.id) (p r) (λ _. k.id_kept r) (λ _. refl)

  edited-service : (r : Update) → (if p r then f r else r).service_id ≡ r.service_id
  edited-service r =
      by_cases (λ b. (if b then f r else r).service_id ≡ r.service_id) (p r) (λ _. k.service_kept r)
        (λ _. refl)

  edited-digest : (r : Update) → (if p r then f r else r).to_digest ≡ r.to_digest
  edited-digest r =
      by_cases (λ b. (if b then f r else r).to_digest ≡ r.to_digest) (p r) (λ _. k.digest_kept r)
        (λ _. refl)

  edit-Descending : (n : ℕ) (rows : List Update) → Descending n rows → Descending n (edit p f rows)
  edit-Descending n [] d = tt
  edit-Descending n (r ∷ rs) d = rw edited-id (d.0, edit-Descending r.id rs d.1)

  pub at_key-kept :
      (service : ℕ) (dig : Text) (r : Update) → at_key service dig (f r) ≡ at_key service dig r
  at_key-kept service dig r = rw (k.service_kept, k.digest_kept)

  edit-NoKey :
      (service : ℕ) (dig : Text) (rows : List Update)
      → NoKey service dig rows
      → NoKey service dig (edit p f rows)
  edit-NoKey service dig rows =
      All-edit (λ r. at_key service dig r ≡ false) p f rows (λ r h. rw at_key-kept h)

  edit-DistinctKeys : (rows : List Update) → DistinctKeys rows → DistinctKeys (edit p f rows)
  edit-DistinctKeys [] d = tt
  edit-DistinctKeys (r ∷ rs) d = (
    rw (edited-service, edited-digest) (edit-NoKey r.service_id r.to_digest rs d.0),
    edit-DistinctKeys rs d.1,
  )

  pub update_where-WellFormed : (t : Table) → WellFormed t → WellFormed (update_where p f t)
  update_where-WellFormed t w = record {
    ids = edit-Descending t.next_id t.rows w.ids;
    keys = edit-DistinctKeys t.rows w.keys;
  }

filter-Descending :
    (p : Update → Bool) (n : ℕ) (rows : List Update)
    → Descending n rows
    → Descending n (filter p rows)
filter-Descending p n [] d = tt
filter-Descending p n (r ∷ rs) d =
    let rest = filter-Descending p r.id rs d.1 in
    by_cases (λ b. Descending n (if b then r ∷ filter p rs else filter p rs)) (p r)
      (λ _. (d.0, rest)) (λ _. Descending-mono r.id n (filter p rs) (omega arith) rest)

filter-DistinctKeys :
    (p : Update → Bool) (rows : List Update) → DistinctKeys rows → DistinctKeys (filter p rows)
filter-DistinctKeys p [] d = tt
filter-DistinctKeys p (r ∷ rs) d =
    let rest = filter-DistinctKeys p rs d.1 in
    by_cases (λ b. DistinctKeys (if b then r ∷ filter p rs else filter p rs)) (p r)
      (λ _. (All-filter (λ x. at_key r.service_id r.to_digest x ≡ false) p rs d.0, rest))
      (λ _. rest)

-- A search that finds nothing passes over every row.
pub find-none :
    (p : Update → Bool) (rows : List Update) → find p rows ≡ none → All (λ r. p r ≡ false) rows
find-none p [] h = tt
find-none p (r ∷ rs) h = ground (arith, find-none p rs)

insert-WellFormed :
    (up : Update) (t : Table)
    → find (at_key up.service_id up.to_digest) t.rows ≡ none
    → WellFormed t
    → WellFormed (insert t up)
insert-WellFormed up t h w = record {
  ids = (omega arith, w.ids);
  keys = (find-none (at_key up.service_id up.to_digest) t.rows h, w.keys);
}

-- The edits of the methods leave the id and the key.
pub with_status-KeepsKey : (s : Status) → KeepsKey (with_status s)
with_status-KeepsKey s = record {
  id_kept = λ r. refl;
  service_kept = λ r. refl;
  digest_kept = λ r. refl;
}

pub refresh_row-KeepsKey : (up : Update) → KeepsKey (refresh_row up)
refresh_row-KeepsKey up = record {
  id_kept = λ r. refl;
  service_kept = λ r. refl;
  digest_kept = λ r. refl;
}

pub drifted_row-KeepsKey : (up : Update) → KeepsKey (drifted_row up)
unfolding drifted_row
drifted_row-KeepsKey up = record {
  id_kept = λ r. refl;
  service_kept = λ r. refl;
  digest_kept = λ r. refl;
}

pub filter-WellFormed :
    (p : Update → Bool) (t : Table)
    → WellFormed t
    → WellFormed (record t { rows = filter p t.rows })
filter-WellFormed p t w = record {
  ids = filter-Descending p t.next_id t.rows w.ids;
  keys = filter-DistinctKeys p t.rows w.keys;
}

pub upsert_row-WellFormed :
    (up : Update) (t : Table) → WellFormed t → WellFormed (upsert_row up t).1
unfolding upsert_row
upsert_row-WellFormed up t w =
    elim (Option-cases (find (at_key up.service_id up.to_digest) t.rows)) [
      | inl e ↦ rw (upsert_row, e) (insert-WellFormed up t e w)
      | inr (r, e) ↦
          rw (upsert_row, e)
            (update_where-WellFormed (at_key up.service_id up.to_digest) (refresh_row up)
              (refresh_row-KeepsKey up) t w)
    ]

pub write_drift-WellFormed :
    (up : Update) (t : Table) → WellFormed t → WellFormed (write_drift up t).2
unfolding write_drift
write_drift-WellFormed up t w =
    elim (Option-cases (find (at_key up.service_id up.to_digest) t.rows)) [
      | inl e ↦ rw (write_drift, e) (insert-WellFormed up t e w)
      | inr (r, e) ↦
          rw (write_drift, e)
            (update_where-WellFormed (λ x. x.id == r.id) (drifted_row up) (drifted_row-KeepsKey up)
              t w)
    ]

pub record_drift-WellFormed :
    (f : DriftFaults) (up : Update) (t : Table) → WellFormed t → WellFormed (record_drift f up t).1
record_drift-WellFormed f up t w =
    rw (record_drift_lem f up t) (drift_outcome-WellFormed (first_fault f))
  where
    drift_outcome-WellFormed : (o : Option Text) → WellFormed (drift_outcome o up t).1
    drift_outcome-WellFormed (some e) = w
    drift_outcome-WellFormed none =
        update_where-WellFormed (prior_open up.service_id up.to_digest) (with_status superseded)
          (with_status-KeepsKey superseded) (write_drift up t).2 (write_drift-WellFormed up t w)
