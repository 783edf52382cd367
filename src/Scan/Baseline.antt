-- ===== src/Scan/Baseline.antt =====
-- `ensureCurrentChangelog` of internal/scan/scan.go: the baseline row of a service with no updates.
-- The registry's labels and the changelog source are arguments.
pub mod Superseded
use dockbrr.Common.{
  ℕ, Bool, true, false, ◌||◌, not, Option, none, some, [], Text, bytes, text_eq, if◌then◌else◌,
}
use dockbrr.Detect.Ref.{split_ref}
use dockbrr.Detect.Semver.{baseline}
use dockbrr.Store.Sql.{Error, Result, Fault, ok, err}
use dockbrr.Store.Updates.Defs.{Update, Table, current}
use dockbrr.Store.Updates.Reads.{has_surfaced_by_service, has_resolved_current_at_digest}
use dockbrr.Store.Updates.Writes.{upsert, set_changelog, set_changelog_status, delete_stale_current}

-- The fields of `store.Service` that are read.
pub record Service : Type 0 where
  pub id : ℕ
  pub image_ref : Text
  pub image_version : Text
  pub current_digest : Text

-- The fields of `store.Image` that are read.
pub record Image : Type 0 where
  pub resolved_version : Text
  pub labels : Text

-- What the changelog source answers: `ErrRateLimited`, another error, or a text and a link.
pub data Resolved : Type 0 where
  limited : Resolved
  unresolved : Text → Resolved
  notes : Text → Text → Resolved

-- Where the driver fails.
pub record Faults : Type 0 where
  pub delete : Fault
  pub surfaced : Fault
  pub resolved : Fault
  pub upsert : Fault
  pub mark : Fault
  pub save : Fault

-- The results: whether the source was rate limited, or the error that is returned.
pub data Outcome : Type 0 where
  done : Bool → Outcome
  broken : Error → Outcome
  not_resolved : Text → Outcome

-- The version that the row names: of the image row, else of the service, else the tag.
unfoldable pub own_version : Service → Text
own_version svc =
    if text_eq svc.image_version [] then (split_ref svc.image_ref).1 else svc.image_version

unfoldable pub shown_version : Service → Option Image → Text
shown_version svc none = own_version svc
shown_version svc (some img) =
    if text_eq img.resolved_version [] then own_version svc else img.resolved_version

abbrev pub labels_of : Option Image → Text
labels_of none = []
labels_of (some img) = img.labels

-- The row of the baseline.
unfoldable pub baseline_row : Service → Option Image → Update
baseline_row svc img = record {
  id = 0;
  service_id = svc.id;
  from_digest = svc.current_digest;
  to_digest = svc.current_digest;
  from_version = shown_version svc img;
  to_version = shown_version svc img;
  tag = (split_ref svc.image_ref).1;
  severity = baseline;
  changelog_url = [];
  changelog_text = [];
  changelog_status = [];
  status = current;
  detected_at = 0;
  applied_at = none;
}

-- The cases on what the changelog source answered. An error of these two writes is only logged.
unfoldable pub keep_changelog : Faults → ℕ → Resolved → Table → Outcome × Table
keep_changelog f id limited t =
    (done true, (set_changelog_status f.mark id (bytes "rate_limited") t).1)
keep_changelog f id (unresolved e) t = (not_resolved e, t)
keep_changelog f id (notes text url) t = (
  done false,
  if not (text_eq text []) || not (text_eq url [])
      then (set_changelog f.save id url text t).1
      else t,
)

-- Behind the `Upsert`.
unfoldable pub baseline_written :
    Faults
    → (Update → Text → Text → Resolved)
    → Service
    → Option Image
    → Result ℕ
    → Table
    → Outcome × Table
baseline_written f source svc img (err e) t = (broken e, t)
baseline_written f source svc img (ok id) t =
    keep_changelog f id
      (source (record (baseline_row svc img) { id = id }) svc.image_ref (labels_of img)) t

unfoldable pub write_baseline :
    Faults → (Update → Text → Text → Resolved) → Service → Option Image → Table → Outcome × Table
write_baseline f source svc img t =
    let r = upsert f.upsert (baseline_row svc img) t in baseline_written f source svc img r.0 r.1

-- The test for a baseline that is resolved already.
unfoldable pub unless_resolved :
    Faults
    → (Update → Text → Text → Resolved)
    → Service
    → Option Image
    → Result Bool
    → Table
    → Outcome × Table
unless_resolved f source svc img (err e) t = (broken e, t)
unless_resolved f source svc img (ok true) t = (done false, t)
unless_resolved f source svc img (ok false) t = write_baseline f source svc img t

-- The test for a row that is shown.
unfoldable pub unless_surfaced :
    Faults
    → (Update → Text → Text → Resolved)
    → Service
    → Option Image
    → Result Bool
    → Table
    → Outcome × Table
unless_surfaced f source svc img (err e) t = (broken e, t)
unless_surfaced f source svc img (ok true) t = (done false, t)
unless_surfaced f source svc img (ok false) t =
    unless_resolved f source svc img
      (has_resolved_current_at_digest f.resolved svc.id svc.current_digest t) t

-- Behind the delete of stale baselines.
unfoldable pub stale_deleted :
    Faults
    → (Update → Text → Text → Resolved)
    → Service
    → Option Image
    → Result ℕ
    → Table
    → Outcome × Table
stale_deleted f source svc img (err e) t = (broken e, t)
stale_deleted f source svc img (ok n) t =
    unless_surfaced f source svc img (has_surfaced_by_service f.surfaced svc.id t) t

-- `ensureCurrentChangelog`, with the image row of the running digest, if there is one.
unfoldable pub ensure_current_changelog :
    Faults → (Update → Text → Text → Resolved) → Service → Option Image → Table → Outcome × Table
ensure_current_changelog f source svc img t =
    if text_eq svc.current_digest []
    then (done false, t)
    else let r = delete_stale_current f.delete svc.id svc.current_digest t in
      stale_deleted f source svc img r.0 r.1
