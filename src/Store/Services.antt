-- ===== src/Store/Services.antt =====
-- The repository of internal/store/services.go, where the driver does not fail. The columns that are
-- stored as JSON are their lists; `now` is the time of the database.
use dockbrr.Common.{
  ℕ, ◌+◌, ◌==◌, ltb, Bool, not, ◌&&◌, Option, none, some, List, ◌∷◌, Text, bytes, text_eq, find,
  filter, edit,
}
use dockbrr.Common.Sort.{sort_by}
use dockbrr.Compose.Dependents.{text_lt}

pub record Service : Type 0 where
  pub id : ℕ
  pub project_id : ℕ
  pub name : Text
  pub container_ids : List Text
  pub image_ref : Text
  pub current_digest : Text
  pub current_image_id : Text
  pub image_version : Text
  pub pinned : Bool
  pub drifted : Bool
  pub state : Text
  pub gone_since : Option ℕ
  pub healthcheck : Bool
  pub image_local : Bool
  pub auto_update_enabled : Option Bool
  pub updated_at : ℕ

-- The rows, and the id of the next one.
pub record Table : Type 0 where
  pub rows : List Service
  pub next : ℕ

abbrev pub has_id : ℕ → Service → Bool
has_id id r = r.id == id

abbrev pub of_project : ℕ → Service → Bool
of_project pid r = r.project_id == pid

abbrev pub same_key : Service → Service → Bool
same_key sv r = of_project sv.project_id r && text_eq r.name sv.name

-- `ON CONFLICT(project_id, name) DO UPDATE SET …`.
unfoldable pub merged : ℕ → Service → Service → Service
merged now sv r = record r {
  container_ids = sv.container_ids;
  image_ref = sv.image_ref;
  current_digest = sv.current_digest;
  current_image_id = sv.current_image_id;
  image_version = sv.image_version;
  pinned = sv.pinned;
  drifted = sv.drifted;
  state = sv.state;
  gone_since = none;
  healthcheck = sv.healthcheck;
  image_local = sv.image_local;
  updated_at = now;
}

-- The row that `INSERT` writes.
unfoldable pub inserted : ℕ → ℕ → Service → Service
inserted id now sv = record sv { id = id; gone_since = none; updated_at = now }

-- The statement for the row that conflicts, if there is one.
unfoldable pub upserted : ℕ → Service → Table → Option Service → ℕ × Table
upserted now sv t none =
    (t.next, record { rows = inserted t.next now sv ∷ t.rows; next = t.next + 1 })
upserted now sv t (some r) = (r.id, record t { rows = edit (same_key sv) (merged now sv) t.rows })

-- `Upsert`: the id of the row, and the table.
unfoldable pub upsert : ℕ → Service → Table → ℕ × Table
upsert now sv t = upserted now sv t (find (same_key sv) t.rows)

abbrev pub by_name : Service → Service → Bool
by_name r s = text_lt r.name s.name

abbrev pub by_id : Service → Service → Bool
by_id r s = ltb r.id s.id

unfoldable pub list_by_project : ℕ → Table → List Service
list_by_project pid t = sort_by by_name (filter (of_project pid) t.rows)

unfoldable pub list : Table → List Service
list t = sort_by by_id t.rows

-- `none` for `ErrServiceNotFound`.
unfoldable pub get : ℕ → Table → Option Service
get id t = find (has_id id) t.rows

-- `UPDATE services SET … WHERE id=?`.
abbrev pub update : ℕ → (Service → Service) → Table → Table
update id f t = record t { rows = edit (has_id id) f t.rows }

abbrev pub gone_state : Text
gone_state = bytes "gone"

-- `COALESCE(gone_since, CURRENT_TIMESTAMP)`.
abbrev pub coalesce : ℕ → Option ℕ → Option ℕ
coalesce now none = some now
coalesce now (some since) = some since

unfoldable pub gone_row : ℕ → Service → Service
gone_row now r = record r {
  state = gone_state;
  gone_since = coalesce now r.gone_since;
  updated_at = now;
}

unfoldable pub mark_gone : ℕ → ℕ → Table → Table
mark_gone now id t = update id (gone_row now) t

unfoldable pub set_auto_update : ℕ → ℕ → Option Bool → Table → Table
set_auto_update now id b t =
    update id (λ r. record r { auto_update_enabled = b; updated_at = now }) t

unfoldable pub update_runtime : ℕ → ℕ → List Text → Text → Table → Table
update_runtime now id ids digest t =
    update id (λ r. record r { container_ids = ids; current_digest = digest; updated_at = now }) t

unfoldable pub update_state : ℕ → ℕ → Text → Table → Table
update_state now id state t = update id (λ r. record r { state = state; updated_at = now }) t

unfoldable pub update_image_ref : ℕ → ℕ → Text → Table → Table
update_image_ref now id ref t = update id (λ r. record r { image_ref = ref; updated_at = now }) t

abbrev pub other_id : ℕ → Service → Bool
other_id id r = not (has_id id r)

-- `Delete`, on the services table.
unfoldable pub delete : ℕ → Table → Table
delete id t = record t { rows = filter (other_id id) t.rows }
