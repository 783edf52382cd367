-- ===== src/Examples/Dispatching.antt =====
-- A job on dockbrr's own container, and what the probes of its id read.
use dockbrr.Common.{◌≡◌, ◌↔◌, refl, true, none, some, [], ◌∷◌, Text, bytes, text_eq}
use dockbrr.Detect.Semver.{digest_only}
use dockbrr.Store.Jobs.Defs.{apply}
use dockbrr.Store.Updates.Defs.{Update, Table, superseded}
use dockbrr.Job.Effects.{good, bad}
use dockbrr.Job.Dispatch.{
  Target, Wiring, Stored, route, refused, guarded, id_from_mountinfo, id_from_cgroup,
  id_from_hostname,
}
use dockbrr.Job.Dispatch.Guard.{TargetsSelf, route_lem}
use dockbrr.Job.Dispatch.Ids.{MountinfoAnswer, IdOrNone, container_ids_lem}
use dockbrr.Scan.Baseline.{Service, Faults, Resolved, notes, ensure_current_changelog}
use dockbrr.Scan.Baseline.Superseded.{IsSuperseded, ensure_current_changelog-IsSuperseded}

abbrev wiring : Wiring
wiring = record {
  self_id = bytes "abc123";
  services = true;
  jobs = true;
  projects = true;
  updater = true;
}

abbrev stored : Stored
stored = record {
  get_service = λ i. good (bytes "abc123ff" ∷ []);
  list_project = λ p. bad (bytes "none");
  project_kind = λ p. good (bytes "compose");
}

abbrev own_job : Target
own_job = record { kind = apply; project_id = some 1; service_id = some 1 }

route_lem_example :
    (route wiring stored own_job ≡ refused)
    ↔ ((guarded wiring apply ≡ true) × TargetsSelf (bytes "abc123") stored (some 1) (some 1))
route_lem_example = route_lem wiring stored own_job

abbrev mounts : Text
mounts =
    bytes
      "1 2 /var/lib/docker/containers/0123456789abcdef0123456789abcdef0123456789abcdef0123456789abcdef/hosts /etc/hosts"

container_ids_lem_example :
    MountinfoAnswer mounts (id_from_mountinfo mounts)
    × IdOrNone 64 (id_from_cgroup (bytes "0::/"))
    × IdOrNone 12 (id_from_hostname (bytes "0123456789ab"))
container_ids_lem_example = container_ids_lem mounts (bytes "0::/") (bytes "0123456789ab")

-- A service whose only row is the one that its own self-update left, at the running digest.
abbrev after_self_update : Table
after_self_update = record {
  rows =
      record {
        id = 1;
        service_id = 1;
        from_digest = bytes "d0";
        to_digest = bytes "d1";
        from_version = [];
        to_version = [];
        tag = [];
        severity = digest_only;
        changelog_url = [];
        changelog_text = [];
        changelog_status = [];
        status = superseded;
        detected_at = 1;
        applied_at = none;
      }
      ∷ [];
  next_id = 2;
  now = 9;
}

abbrev dockbrr_service : Service
dockbrr_service = record {
  id = 1;
  image_ref = bytes "yorah/dockbrr:latest";
  image_version = [];
  current_digest = bytes "d1";
}

abbrev working : Faults
working = record {
  delete = none;
  surfaced = none;
  resolved = none;
  upsert = none;
  mark = none;
  save = none;
}

abbrev source : Update → Text → Text → Resolved
source up ref labels = notes (bytes "fixes") (bytes "link")

ensure_current_changelog-IsSuperseded_example :
    IsSuperseded 1
      (bytes "d1")
      (ensure_current_changelog working source dockbrr_service none after_self_update).1
unfolding text_eq
ensure_current_changelog-IsSuperseded_example =
    ensure_current_changelog-IsSuperseded working source dockbrr_service none (bytes "d1")
      after_self_update refl
