-- ===== src/Store/Updates/Upserts.antt =====
-- What `Upsert` of internal/store/updates.go does to the row of each key.
use mathlib.Core.Option
use dockbrr.Common.{
  ◌≡◌, refl, ap, ◌∙◌, ℕ, Bool, true, false, Option, none, some, [], Text, text_eq_iff, find,
  find-edit, find-some, Bool-cases, Option-cases, inl, inr, arith, if◌then◌else◌,
}
use dockbrr.Detect.Semver.{Severity, digest_only, major_step, minor_step, patch_step, baseline}
use dockbrr.Store.Updates.Defs.{
  Status, Update, Table, at_key, new_row, available, dismissed, applied, failed, superseded,
  rolled_back, current, severity_or_default, status_or_default,
}
use dockbrr.Store.Updates.Writes.{refresh_row, upsert_row}
use dockbrr.Store.Updates.Keys.{at_key-kept, refresh_row-KeepsKey}
use dockbrr.Store.Updates.Drift.Rows.{row_at}

-- A severity and a status, or what stands for none.
abbrev pub said_severity : Severity → Severity
said_severity Severity.unset = digest_only
said_severity digest_only = digest_only
said_severity major_step = major_step
said_severity minor_step = minor_step
said_severity patch_step = patch_step
said_severity baseline = baseline

abbrev pub said_status : Status → Status
said_status Status.unset = available
said_status available = available
said_status dismissed = dismissed
said_status applied = applied
said_status failed = failed
said_status superseded = superseded
said_status rolled_back = rolled_back
said_status current = current

-- The row of the key of `up` after the call, column by column: for a key without a row, and for one
-- with the row `r`.
abbrev pub upserted : Update → Table → Option Update → Update
upserted up t none = record {
  id = t.next_id;
  service_id = up.service_id;
  from_digest = up.from_digest;
  to_digest = up.to_digest;
  from_version = up.from_version;
  to_version = up.to_version;
  tag = up.tag;
  severity = said_severity up.severity;
  changelog_url = up.changelog_url;
  changelog_text = up.changelog_text;
  changelog_status = [];
  status = said_status up.status;
  detected_at = t.now;
  applied_at = none;
}
upserted up t (some r) = record {
  id = r.id;
  service_id = r.service_id;
  from_digest = up.from_digest;
  to_digest = r.to_digest;
  from_version = up.from_version;
  to_version = up.to_version;
  tag = up.tag;
  severity = said_severity up.severity;
  changelog_url = r.changelog_url;
  changelog_text = r.changelog_text;
  changelog_status = r.changelog_status;
  status = r.status;
  detected_at = r.detected_at;
  applied_at = r.applied_at;
}

severity_same : (s : Severity) → severity_or_default s ≡ said_severity s
severity_same Severity.unset = refl
severity_same digest_only = refl
severity_same major_step = refl
severity_same minor_step = refl
severity_same patch_step = refl
severity_same baseline = refl

status_same : (s : Status) → status_or_default s ≡ said_status s
status_same Status.unset = refl
status_same available = refl
status_same dismissed = refl
status_same applied = refl
status_same failed = refl
status_same superseded = refl
status_same rolled_back = refl
status_same current = refl

new_row-upserted : (up : Update) (t : Table) → new_row t up ≡ upserted up t none
new_row-upserted up t = cc (severity_same up.severity, status_same up.status)

refresh_row-upserted : (up r : Update) (t : Table) → refresh_row up r ≡ upserted up t (some r)
refresh_row-upserted up r t = cc (severity_same up.severity)

-- Two rows that agree on a key agree on every key.
at_key_same :
    (a b : Update) (s : ℕ) (d : Text)
    → at_key a.service_id a.to_digest b ≡ true
    → at_key s d b ≡ at_key s d a
at_key_same a b s d h = ground (arith, text_eq_iff b.to_digest a.to_digest)

-- The key of `up` is the key that is asked for.
same_key :
    (up : Update) (t : Table) (s : ℕ) (d : Text)
    → at_key s d up ≡ true
    → row_at s d t ≡ row_at up.service_id up.to_digest t
same_key up t s d h =
    let same_s : s ≡ up.service_id = ground arith in
    let same_d : d ≡ up.to_digest = ground (arith, text_eq_iff up.to_digest d) in
    rw (same_s, same_d) refl

-- The row `r` of the key of `up`; `o` is the row of another key, or of the same.
refreshed :
    (up r : Update) (t : Table) (s : ℕ) (d : Text) (o : Option Update)
    → row_at up.service_id up.to_digest t ≡ some r
    → row_at s d t ≡ o
    → (b : Bool) → at_key s d up ≡ b
    → Option.map (λ x. if at_key up.service_id up.to_digest x then refresh_row up x else x) o
      ≡ (if b then some (upserted up t o) else o)
refreshed up r t s d none e k false h = refl
refreshed up r t s d none e k true h = let same = same_key up t s d h in cc
refreshed up r t s d (some x) e k b h =
    let hit : at_key s d x ≡ true = (find-some (at_key s d) t.rows x k).1 in
    elim (Bool-cases (at_key up.service_id up.to_digest x)) [
      | inl q ↦
          let yes : b ≡ true = cc (h, hit, at_key_same up x s d q) in
          rw (q, yes) (ap some (refresh_row-upserted up x t))
      | inr q ↦ let no : b ≡ false = not_hit b h hit q in rw (q, no) refl
    ]
  where
    not_hit :
        (b : Bool)
        → at_key s d up ≡ b
        → at_key s d x ≡ true
        → at_key up.service_id up.to_digest x ≡ false
        → b ≡ false
    not_hit b h hit q = ground (
      arith,
      text_eq_iff up.to_digest d,
      text_eq_iff x.to_digest d,
      text_eq_iff x.to_digest up.to_digest,
    )

inserted :
    (up : Update) (t : Table) (s : ℕ) (d : Text)
    → row_at up.service_id up.to_digest t ≡ none
    → (b : Bool) → at_key s d up ≡ b
    → (if b then some (new_row t up) else row_at s d t)
      ≡ (if b then some (upserted up t (row_at s d t)) else row_at s d t)
inserted up t s d e false h = refl
inserted up t s d e true h = rw (same_key up t s d h, e) (ap some (new_row-upserted up t))

pub row_at-upsert_row :
    (up : Update) (t : Table) (s : ℕ) (d : Text)
    → row_at s d (upsert_row up t).1
      ≡ (if at_key s d up then some (upserted up t (row_at s d t)) else row_at s d t)
unfolding upsert_row
row_at-upsert_row up t s d = elim (Option-cases (find (at_key up.service_id up.to_digest) t.rows)) [
  | inl e ↦ rw (upsert_row, e) (inserted up t s d e (at_key s d up) refl)
  | inr (r, e) ↦
      rw (upsert_row, e)
        (find-edit (at_key s d) (at_key up.service_id up.to_digest) (refresh_row up)
            (at_key-kept (at_key up.service_id up.to_digest) (refresh_row up)
              (refresh_row-KeepsKey up) s d)
            t.rows
          ∙ refreshed up r t s d (find (at_key s d) t.rows) e refl (at_key s d up) refl)
]

-- A call that the driver does not fail maps the table so, column by column: the row of its key is
-- inserted with the next id, the time, no changelog status and the status and the severity given, or
-- `available` and `digest-only` for none; or, if it is there, it takes the digest, the versions, the tag
-- and the severity given and keeps its id, its changelog, its status and its times. No other key's row
-- changes, and the id that is returned is that of the row.
pub upsert_row_lem :
    (up : Update) (t : Table) (s : ℕ) (d : Text)
    → (row_at s d (upsert_row up t).1
        ≡ (if at_key s d up then some (upserted up t (row_at s d t)) else row_at s d t))
      × ((upsert_row up t).0 ≡ (upserted up t (row_at up.service_id up.to_digest t)).id)
unfolding upsert_row
upsert_row_lem up t s d = (row_at-upsert_row up t s d, ids)
  where
    ids : (upsert_row up t).0 ≡ (upserted up t (row_at up.service_id up.to_digest t)).id
    ids = elim (Option-cases (find (at_key up.service_id up.to_digest) t.rows)) [
      | inl e ↦ rw (upsert_row, e) refl
      | inr (r, e) ↦ rw (upsert_row, e) refl
    ]
