-- ===== src/Store/Updates/Drift/Repeat.antt =====
-- `RecordDrift` of internal/store/updates.go, called twice.
use mathlib.Core.Option
use dockbrr.Common.{
  ℕ, ◌≡◌, refl, sym, ap, ◌∙◌, Bool, true, false, Option, none, some, [], ◌∷◌, Text, arith,
  if◌then◌else◌, text_eq_refl,
}
use dockbrr.Store.Updates.Defs.{
  Update, Table, available, superseded, at_key, or_old, prior_open, with_status,
}
use dockbrr.Store.Updates.Drift.{write_drift, drifted_row}
use dockbrr.Store.Updates.Drift.Outcome.{committed}
use dockbrr.Store.Updates.Drift.Rows.{row_at, written, closed_by, row_at-committed}
use dockbrr.Store.Updates.Keys.{
  WellFormed, update_where-WellFormed, with_status-KeepsKey, write_drift-WellFormed,
}

pub committed-WellFormed : (up : Update) (t : Table) → WellFormed t → WellFormed (committed up t)
committed-WellFormed up t w =
    update_where-WellFormed (prior_open up.service_id up.to_digest) (with_status superseded)
      (with_status-KeepsKey superseded) (write_drift up t).2 (write_drift-WellFormed up t w)

or_old_twice : (new old : Text) → or_old new (or_old new old) ≡ or_old new old
or_old_twice [] old = refl
or_old_twice (c ∷ s) old = refl

or_old_self : (new : Text) → or_old new new ≡ new
or_old_self [] = refl
or_old_self (c ∷ s) = refl

drifted_row-written :
    (up : Update) (t : Table) (o : Option Update)
    → up.status ≡ available
    → drifted_row up (written up t o) ≡ written up t o
unfolding drifted_row
drifted_row-written up t none h =
    ground (arith, or_old_self up.from_version, or_old_self up.to_version)
drifted_row-written up t (some r) h =
    ground
      (arith, or_old_twice up.from_version r.from_version, or_old_twice up.to_version r.to_version)

row_at_self :
    (up : Update) (t : Table)
    → WellFormed t
    → row_at up.service_id up.to_digest (committed up t)
      ≡ some (written up t (row_at up.service_id up.to_digest t))
row_at_self up t w =
    row_at-committed up t up.service_id up.to_digest w ∙ ground (arith, text_eq_refl up.to_digest)

pub write_drift-id :
    (up : Update) (t : Table)
    → (write_drift up t).0 ≡ (written up t (row_at up.service_id up.to_digest t)).id
unfolding write_drift drifted_row
write_drift-id up t = ground arith

closed_twice :
    (up : Update) (o : Option Update)
    → Option.map (closed_by up) (Option.map (closed_by up) o) ≡ Option.map (closed_by up) o
closed_twice up none = refl
closed_twice up (some r) = ground arith

write_drift-found :
    (up r : Update) (t : Table)
    → row_at up.service_id up.to_digest t ≡ some r
    → ((write_drift up t).0 ≡ r.id) × ((write_drift up t).1 ≡ false)
unfolding write_drift
write_drift-found up r t e = (rw (write_drift, e), rw (write_drift, e))

-- The row of a key after two calls, from its rows before them and after one.
same_row :
    (up : Update) (t t' : Table)
    → up.status ≡ available
    → (b : Bool) (o o₁ o₂ : Option Update)
    → o₁ ≡ (if b then some (written up t o) else Option.map (closed_by up) o)
    → o₂ ≡ (if b then some (written up t' o₁) else Option.map (closed_by up) o₁)
    → o₂ ≡ o₁
same_row up t t' h true o o₁ o₂ e k =
    k ∙ ap (λ x. some (written up t' x)) e ∙ ap some (drifted_row-written up t o h) ∙ sym e
same_row up t t' h false o o₁ o₂ e k =
    k ∙ ap (Option.map (closed_by up)) e ∙ closed_twice up o ∙ sym e

-- A call for an available update that commits right after another one of the same update reports
-- the same row, as not new, and leaves every row as the first call left it.
pub committed_twice :
    (up : Update) (t : Table)
    → WellFormed t
    → up.status ≡ available
    → ((write_drift up (committed up t)).0 ≡ (write_drift up t).0)
      × ((write_drift up (committed up t)).1 ≡ false)
      × ((s : ℕ) (d : Text)
          → row_at s d (committed up (committed up t)) ≡ row_at s d (committed up t))
committed_twice up t w h =
    let again =
      write_drift-found up (written up t (row_at up.service_id up.to_digest t)) (committed up t)
        (row_at_self up t w) in
    (
      again.0 ∙ cc (write_drift-id up t),
      again.1,
      λ s d.
          same_row up t (committed up t) h (at_key s d up) (row_at s d t)
            (row_at s d (committed up t)) (row_at s d (committed up (committed up t)))
            (row_at-committed up t s d w)
            (row_at-committed up (committed up t) s d (committed-WellFormed up t w)),
    )
