-- ===== src/Store/Updates/Drift/Rows.antt =====
-- What `RecordDrift` of internal/store/updates.go does to the row of each key.
use Prim.Native.Nat.{◌<◌}
use mathlib.Core.Option
use mathlib.Core.Path.{subst, subst₂}
use dockbrr.Common.{
  ℕ, ◌≡◌, refl, ap, ◌∙◌, true, false, Option, none, some, List, [], ◌∷◌, Text, text_eq_iff,
  text_eq_refl, ◌==◌, ==_iff, find, All, In, here, there, edit-All, find-edit, find-some, by_cases,
  Option-cases, inl, inr, arith, if◌then◌else◌,
}
use dockbrr.Store.Updates.Defs.{
  Update, Table, available, superseded, at_key, prior_open, with_status, new_row, update_where,
}
use dockbrr.Store.Updates.Drift.{write_drift, drifted_row}
use dockbrr.Store.Updates.Drift.Outcome.{committed}
use dockbrr.Store.Updates.Keys.{Descending, WellFormed, KeepsKey, drifted_row-KeepsKey, at_key-kept}

-- The table as a map: the row of a service and a target digest.
abbrev pub row_at : ℕ → Text → Table → Option Update
row_at service dig t = find (at_key service dig) t.rows

-- The row of the key of `up` after the call.
abbrev pub written : Update → Table → Option Update → Update
written up t none = new_row t up
written up t (some r) = drifted_row up r

-- Another row after the call: an open one of the same service is superseded.
abbrev pub closed_by : Update → Update → Update
closed_by up r = if prior_open up.service_id up.to_digest r then with_status superseded r else r

row_at-close :
    (up : Update) (t : Table) (service : ℕ) (dig : Text)
    → row_at service dig
        (update_where (prior_open up.service_id up.to_digest) (with_status superseded) t)
      ≡ Option.map (closed_by up) (row_at service dig t)
row_at-close up t service dig =
    find-edit (at_key service dig) (prior_open up.service_id up.to_digest) (with_status superseded)
      (λ r. refl) t.rows

Descending-lt : (n : ℕ) (rows : List Update) (r : Update) → Descending n rows → In r rows → r.id < n
Descending-lt n [] r d m = elim m [ ]
Descending-lt n (r ∷ rs) x d here = d.0
Descending-lt n (r ∷ rs) x d (there m) = omega (arith, Descending-lt r.id rs x d.1 m)

-- An id names one row.
Descending-unique :
    (n : ℕ) (rows : List Update) (a b : Update)
    → Descending n rows
    → In a rows
    → In b rows
    → a.id ≡ b.id
    → a ≡ b
Descending-unique n [] a b d m k e = elim m [ ]
Descending-unique n (r ∷ rs) a b d here here e = refl
Descending-unique n (r ∷ rs) a b d here (there k) e =
    absurd (omega (arith, Descending-lt r.id rs b d.1 k))
Descending-unique n (r ∷ rs) a b d (there m) here e =
    absurd (omega (arith, Descending-lt r.id rs a d.1 m))
Descending-unique n (r ∷ rs) a b d (there m) (there k) e = Descending-unique r.id rs a b d.1 m k e

-- An edit of the row with one id leaves the row of another key.
row_at-edit_other :
    (t : Table) (f : Update → Update) (service s : ℕ) (dig d : Text) (r : Update)
    → WellFormed t
    → KeepsKey f
    → row_at service dig t ≡ some r
    → at_key service dig r ≡ true
    → at_key s d r ≡ false
    → row_at s d (update_where (λ x. x.id == r.id) f t) ≡ row_at s d t
row_at-edit_other t f service s dig d r w k e own other =
    find-edit (at_key s d) (λ x. x.id == r.id) f (at_key-kept (λ x. x.id == r.id) f k s d) t.rows
    ∙ unchanged (row_at s d t) refl
  where
    unchanged :
        (o : Option Update)
        → row_at s d t ≡ o
        → Option.map (λ x. if x.id == r.id then f x else x) o ≡ o
    unchanged none q = refl
    unchanged (some x) q =
        by_cases (λ b. some (if b then f x else x) ≡ some x) (x.id == r.id)
          (λ h.
            let same : x ≡ r =
              Descending-unique t.next_id t.rows x r w.ids (find-some (at_key s d) t.rows x q).0
                (find-some (at_key service dig) t.rows r e).0 ((==_iff x.id r.id).0 h) in
            let hit : at_key s d r ≡ true =
              subst (λ y. at_key s d y ≡ true) same (find-some (at_key s d) t.rows x q).1 in
            cc)
          (λ _. refl)

row_at-write_self :
    (up : Update) (t : Table)
    → row_at up.service_id up.to_digest (write_drift up t).2
      ≡ some (written up t (row_at up.service_id up.to_digest t))
unfolding write_drift
row_at-write_self up t = elim (Option-cases (row_at up.service_id up.to_digest t)) [
  | inl e ↦ rw (write_drift, e) (ground (arith, text_eq_refl up.to_digest))
  | inr (r, e) ↦
      rw (write_drift, e)
        (find-edit (at_key up.service_id up.to_digest) (λ x. x.id == r.id) (drifted_row up)
            (at_key-kept (λ x. x.id == r.id) (drifted_row up) (drifted_row-KeepsKey up)
              up.service_id up.to_digest)
            t.rows
          ∙ rw e (ground arith))
]

-- The rows of a key agree with it.
at_key_same :
    (up r : Update) (s : ℕ) (d : Text)
    → at_key up.service_id up.to_digest r ≡ true
    → at_key s d r ≡ at_key s d up
at_key_same up r s d h = ground (arith, text_eq_iff r.to_digest up.to_digest)

row_at-write_other :
    (up : Update) (t : Table) (s : ℕ) (d : Text)
    → WellFormed t
    → at_key s d up ≡ false
    → row_at s d (write_drift up t).2 ≡ row_at s d t
unfolding write_drift
row_at-write_other up t s d w h = elim (Option-cases (row_at up.service_id up.to_digest t)) [
  | inl e ↦ rw (write_drift, e) (rw h)
  | inr (r, e) ↦
      let own = (find-some (at_key up.service_id up.to_digest) t.rows r e).1 in
      rw (write_drift, e)
        (row_at-edit_other t (drifted_row up) up.service_id s up.to_digest d r w
          (drifted_row-KeepsKey up) e own (at_key_same up r s d own ∙ h))
]

-- The closing statement leaves the row that was written.
closed-written :
    (up : Update) (t : Table) (o : Option Update)
    → row_at up.service_id up.to_digest t ≡ o
    → closed_by up (written up t o) ≡ written up t o
unfolding drifted_row
closed-written up t none e = ground (arith, text_eq_refl up.to_digest)
closed-written up t (some r) e =
    let own = (find-some (at_key up.service_id up.to_digest) t.rows r e).1 in ground arith

-- The row of the key after a commit, in any table.
pub row_at-committed_self :
    (up : Update) (t : Table)
    → row_at up.service_id up.to_digest (committed up t)
      ≡ some (written up t (row_at up.service_id up.to_digest t))
row_at-committed_self up t =
    row_at-close up (write_drift up t).2 up.service_id up.to_digest
    ∙ ap (Option.map (closed_by up)) (row_at-write_self up t)
    ∙ ap some (closed-written up t (row_at up.service_id up.to_digest t) refl)

-- A call that commits maps the table so: the row of the key is written, and of the other rows those
-- that are open and of the same service become superseded, and nothing else changes.
pub row_at-committed :
    (up : Update) (t : Table) (s : ℕ) (d : Text)
    → WellFormed t
    → row_at s d (committed up t) ≡ (
        if at_key s d up
        then some (written up t (row_at s d t))
        else Option.map (closed_by up) (row_at s d t))
row_at-committed up t s d w =
    row_at-close up (write_drift up t).2 s d
    ∙ by_cases
        (λ b. Option.map (closed_by up) (row_at s d (write_drift up t).2) ≡ (
          if b
          then some (written up t (row_at s d t))
          else Option.map (closed_by up) (row_at s d t)))
        (at_key s d up) own (λ h. ap (Option.map (closed_by up)) (row_at-write_other up t s d w h))
  where
    own :
        at_key s d up ≡ true
        → Option.map (closed_by up) (row_at s d (write_drift up t).2)
          ≡ some (written up t (row_at s d t))
    own h =
        let same_s : up.service_id ≡ s = ground arith in
        let same_d : up.to_digest ≡ d = ground (arith, text_eq_iff up.to_digest d) in
        subst₂
          (λ x y.
            Option.map (closed_by up) (row_at x y (write_drift up t).2)
            ≡ some (written up t (row_at x y t)))
          same_s same_d
          (ap (Option.map (closed_by up)) (row_at-write_self up t)
            ∙ ap some (closed-written up t (row_at up.service_id up.to_digest t) refl))

pub committed_one_open :
    (up : Update) (t : Table)
    → All
        (λ r. r.service_id ≡ up.service_id → r.status ≡ available → r.to_digest ≡ up.to_digest)
        (committed up t).rows
committed_one_open up t =
    edit-All (λ r. r.service_id ≡ up.service_id → r.status ≡ available → r.to_digest ≡ up.to_digest)
      (prior_open up.service_id up.to_digest) (with_status superseded) (write_drift up t).2.rows
      (λ r. ground (arith, text_eq_iff r.to_digest up.to_digest))
