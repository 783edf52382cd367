-- ===== src/Store/Projects.antt =====
-- The repository of internal/store/projects.go, where the driver does not fail, and the gate of the
-- auto-apply.
use dockbrr.Common.{
  ℕ, ◌+◌, ◌==◌, Bool, true, false, not, ◌&&◌, ◌||◌, Option, none, some, List, [], ◌∷◌, Text, bytes,
  text_eq, find, filter, edit, if◌then◌else◌,
}
use dockbrr.Common.Sort.{sort_by}
use dockbrr.Compose.Dependents.{text_lt}
use dockbrr.Store.Services

pub record Project : Type 0 where
  pub id : ℕ
  pub host_id : ℕ
  pub kind : Text
  pub name : Text
  pub working_dir : Text
  pub config_files : List Text
  pub source : Text
  pub auto_update_enabled : Bool
  pub update_policy : Text
  pub unmanaged : Bool
  pub auto_named : Bool
  pub last_synced_at : Option ℕ
  pub created_at : ℕ

-- The rows, and the id of the next one.
pub record Table : Type 0 where
  pub rows : List Project
  pub next : ℕ

abbrev pub has_id : ℕ → Project → Bool
has_id id r = r.id == id

abbrev pub same_key : Project → Project → Bool
same_key p r = (r.host_id == p.host_id) && text_eq r.name p.name

abbrev pub discovered : Text
discovered = bytes "discovered"

abbrev pub or_discovered : Text → Text
or_discovered s = if text_eq s [] then discovered else s

-- `ON CONFLICT(host_id, name) DO UPDATE SET …`.
unfoldable pub merged : Project → Project → Project
merged p r = record r {
  kind = p.kind;
  working_dir = p.working_dir;
  config_files = p.config_files;
  last_synced_at = p.last_synced_at;
}

-- The row that `INSERT` writes, with the defaults of the columns that it does not name.
unfoldable pub inserted : ℕ → ℕ → Project → Project
inserted id now p = record p {
  id = id;
  source = or_discovered p.source;
  update_policy = bytes "{}";
  unmanaged = false;
  auto_named = false;
  created_at = now;
}

-- The statement for the row that conflicts, if there is one.
unfoldable pub upserted : ℕ → Project → Table → Option Project → ℕ × Table
upserted now p t none =
    (t.next, record { rows = inserted t.next now p ∷ t.rows; next = t.next + 1 })
upserted now p t (some r) = (r.id, record t { rows = edit (same_key p) (merged p) t.rows })

-- `Upsert`: the id of the row, and the table.
unfoldable pub upsert : ℕ → Project → Table → ℕ × Table
upsert now p t = upserted now p t (find (same_key p) t.rows)

abbrev pub by_name : Project → Project → Bool
by_name p q = text_lt p.name q.name

unfoldable pub list : Table → List Project
list t = sort_by by_name t.rows

-- `none` for `ErrProjectNotFound`.
unfoldable pub get : ℕ → Table → Option Project
get id t = find (has_id id) t.rows

-- `UPDATE projects SET … WHERE id=?`.
abbrev pub update : ℕ → (Project → Project) → Table → Table
update id f t = record t { rows = edit (has_id id) f t.rows }

unfoldable pub set_auto_update : ℕ → Bool → Table → Table
set_auto_update id b t = update id (λ r. record r { auto_update_enabled = b }) t

unfoldable pub set_unmanaged : ℕ → Bool → Table → Table
set_unmanaged id b t = update id (λ r. record r { unmanaged = b }) t

unfoldable pub set_auto_named : ℕ → Bool → Table → Table
set_auto_named id b t = update id (λ r. record r { auto_named = b }) t

abbrev pub other_id : ℕ → Project → Bool
other_id id r = not (has_id id r)

-- `Delete`, on the projects table.
unfoldable pub delete : ℕ → Table → Table
delete id t = record t { rows = filter (other_id id) t.rows }

abbrev pub allows : Option Bool → Bool
allows none = true
allows (some b) = b

-- `EffectiveAutoUpdate`.
unfoldable pub effective_auto_update : Project → Services.Service → Bool
effective_auto_update p s =
    if not p.auto_update_enabled || (s.pinned && not s.drifted)
    then false
    else allows s.auto_update_enabled
