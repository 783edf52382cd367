-- ===== src/Store/Updates/Reads.antt =====
-- The queries of internal/store/updates.go.
pub mod Latest
use dockbrr.Common.{
  ℕ, Bool, false, ◌&&◌, ◌||◌, not, Option, none, some, List, [], ◌∷◌, Text, text_eq, ◌==◌, ltb,
  find, filter, any, if◌then◌else◌,
}
use dockbrr.Common.Sort.{sort_by}
use dockbrr.Store.Sql.{Error, Result, Fault, query, ok, err, no_open_update, update_not_found}
use dockbrr.Store.Updates.Defs.{
  Update, Table, is_available, is_visible, is_surfaced, is_current, is_applied, at_key,
  detected_later,
}

-- The first row, or the error for none.
abbrev pub first_or : Error → List Update → Result Update
first_or e [] = err e
first_or e (r ∷ rs) = ok r

-- `ListOpen`.
unfoldable pub list_open : Fault → Table → Result (List Update)
unfolding sort_by
list_open fault =
    query fault (λ t. ok (sort_by detected_later (filter (λ r. is_available r.status) t.rows)))

-- `ListVisible`.
unfoldable pub list_visible : Fault → Table → Result (List Update)
unfolding sort_by
list_visible fault =
    query fault (λ t. ok (sort_by detected_later (filter (λ r. is_visible r.status) t.rows)))

abbrev pub open_of : ℕ → Update → Bool
open_of service r = (r.service_id == service) && is_available r.status

-- `GetLatestOpenByService`.
unfoldable pub get_latest_open_by_service : Fault → ℕ → Table → Result Update
unfolding sort_by
get_latest_open_by_service fault service =
    query fault
      (λ t. first_or no_open_update (sort_by detected_later (filter (open_of service) t.rows)))

-- `HasAnyByService`.
unfoldable pub has_any_by_service : Fault → ℕ → Table → Result Bool
has_any_by_service fault service = query fault (λ t. ok (any (λ r. r.service_id == service) t.rows))

-- `HasSurfacedByService`.
unfoldable pub has_surfaced_by_service : Fault → ℕ → Table → Result Bool
has_surfaced_by_service fault service =
    query fault (λ t. ok (any (λ r. (r.service_id == service) && is_surfaced r.status) t.rows))

-- `changelog_text<>'' OR changelog_url<>''`.
abbrev pub has_changelog : Update → Bool
has_changelog r = not (text_eq r.changelog_text []) || not (text_eq r.changelog_url [])

-- `HasResolvedCurrentAtDigest`.
unfoldable pub has_resolved_current_at_digest : Fault → ℕ → Text → Table → Result Bool
has_resolved_current_at_digest fault service dig =
    query fault
      (λ t. ok (any (λ r. at_key service dig r && is_current r.status && has_changelog r) t.rows))

-- `status IN ('applied','current')`.
abbrev pub is_last : Update → Bool
is_last r = is_applied r.status || is_current r.status

-- `COALESCE(applied_at, detected_at)`.
abbrev pub applied_time : Update → ℕ
applied_time r = elim r.applied_at [ none ↦ r.detected_at | some t ↦ t ]

-- `COALESCE(applied_at, detected_at) DESC, id DESC`.
abbrev pub applied_later : Update → Update → Bool
applied_later a b =
    ltb (applied_time b) (applied_time a) || ((applied_time a == applied_time b) && ltb b.id a.id)

-- `ORDER BY (status='current')` first: 0 before 1.
abbrev pub applied_first : Update → Update → Bool
applied_first a b =
    if is_current a.status
    then is_current b.status && applied_later a b
    else is_current b.status || applied_later a b

-- The subquery: the row that is shown for a service.
unfoldable pub last_of : ℕ → List Update → Option Update
unfolding sort_by
last_of service rows =
    elim (sort_by applied_first (filter (λ r. (r.service_id == service) && is_last r) rows)) [
      | [] ↦ none
      | r ∷ rs ↦ some r
    ]

abbrev pub is_last_of : List Update → Update → Bool
is_last_of rows r =
    is_last r && elim (last_of r.service_id rows) [ none ↦ false | some u ↦ r.id == u.id ]

-- `ListLastAppliedByService`. Ties of `ORDER BY service_id` do not arise: one row for a service.
unfoldable pub list_last_applied_by_service : Fault → Table → Result (List Update)
unfolding sort_by last_of
list_last_applied_by_service fault =
    query fault
      (λ t. ok (sort_by (λ a b. ltb a.service_id b.service_id) (filter (is_last_of t.rows) t.rows)))

-- `Get`.
unfoldable pub get : Fault → ℕ → Table → Result Update
get fault id =
    query fault
      (λ t. elim (find (λ r. r.id == id) t.rows) [ none ↦ err update_not_found | some r ↦ ok r ])
