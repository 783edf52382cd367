-- ===== src/Store/Updates/Defs.antt =====
-- The rows of the table `updates` and the SQL fragments that the methods share.
use dockbrr.Common.{
  ℕ, suc, Bool, true, false, ◌&&◌, ◌||◌, not, Option, none, List, [], ◌∷◌, Text, text_eq, ◌==◌, ltb,
  edit,
}
use dockbrr.Detect.Semver.{Severity, digest_only, major_step, minor_step, patch_step}

-- The texts of the column `status`; `unset` is the empty text.
pub data Status : Type 0 where
  unset available dismissed applied failed superseded rolled_back current : Status

-- `Update`: a row. Times are numbers.
pub record Update : Type 0 where
  pub id : ℕ
  pub service_id : ℕ
  pub from_digest : Text
  pub to_digest : Text
  pub from_version : Text
  pub to_version : Text
  pub tag : Text
  pub severity : Severity
  pub changelog_url : Text
  pub changelog_text : Text
  pub changelog_status : Text
  pub status : Status
  pub detected_at : ℕ
  pub applied_at : Option ℕ

-- The table: `AUTOINCREMENT` gives `next_id`, and `CURRENT_TIMESTAMP` is `now`.
pub record Table : Type 0 where
  pub rows : List Update
  pub next_id : ℕ
  pub now : ℕ

abbrev pub is_available : Status → Bool
is_available available = true
is_available _ = false

abbrev pub is_applied : Status → Bool
is_applied applied = true
is_applied _ = false

abbrev pub is_rolled_back : Status → Bool
is_rolled_back rolled_back = true
is_rolled_back _ = false

abbrev pub is_current : Status → Bool
is_current current = true
is_current _ = false

-- `status IN ('available','dismissed','rolled_back')`.
abbrev pub is_visible : Status → Bool
is_visible available = true
is_visible dismissed = true
is_visible rolled_back = true
is_visible _ = false

-- `status IN ('available','dismissed','rolled_back','applied')`.
abbrev pub is_surfaced : Status → Bool
is_surfaced available = true
is_surfaced dismissed = true
is_surfaced rolled_back = true
is_surfaced applied = true
is_surfaced _ = false

-- `severity IN ('major','minor','patch')`.
abbrev pub is_step : Severity → Bool
is_step major_step = true
is_step minor_step = true
is_step patch_step = true
is_step _ = false

abbrev pub is_digest_only : Severity → Bool
is_digest_only digest_only = true
is_digest_only _ = false

-- `if severity == "" { severity = "digest-only" }`.
abbrev pub severity_or_default : Severity → Severity
severity_or_default Severity.unset = digest_only
severity_or_default s = s

-- `if status == "" { status = "available" }`.
abbrev pub status_or_default : Status → Status
status_or_default Status.unset = available
status_or_default s = s

-- `CASE WHEN ?='' THEN old ELSE ? END`.
abbrev pub or_old : Text → Text → Text
or_old [] old = old
or_old (c ∷ s) old = c ∷ s

-- `service_id=? AND to_digest=?`.
abbrev pub at_key : ℕ → Text → Update → Bool
at_key service dig r = (r.service_id == service) && text_eq r.to_digest dig

-- `service_id=? AND status='available' AND to_digest<>?`.
abbrev pub prior_open : ℕ → Text → Update → Bool
prior_open service keep r =
    (r.service_id == service) && is_available r.status && not (text_eq r.to_digest keep)

abbrev pub with_status : Status → Update → Update
with_status s r = record r { status = s }

-- The row that an `INSERT` of `Upsert` or `RecordDrift` adds.
abbrev pub new_row : Table → Update → Update
new_row t up = record {
  id = t.next_id;
  service_id = up.service_id;
  from_digest = up.from_digest;
  to_digest = up.to_digest;
  from_version = up.from_version;
  to_version = up.to_version;
  tag = up.tag;
  severity = severity_or_default up.severity;
  changelog_url = up.changelog_url;
  changelog_text = up.changelog_text;
  changelog_status = [];
  status = status_or_default up.status;
  detected_at = t.now;
  applied_at = none;
}

abbrev pub insert : Table → Update → Table
insert t up = record t { rows = new_row t up ∷ t.rows; next_id = suc t.next_id }

-- `UPDATE updates SET … WHERE p`.
abbrev pub update_where : (Update → Bool) → (Update → Update) → Table → Table
update_where p f t = record t { rows = edit p f t.rows }

-- `ORDER BY detected_at DESC, id DESC`.
abbrev pub detected_later : Update → Update → Bool
detected_later a b =
    ltb b.detected_at a.detected_at || ((a.detected_at == b.detected_at) && ltb b.id a.id)
