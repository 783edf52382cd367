-- ===== src/Job/Standalone.antt =====
-- The applier of internal/job/standalone.go: what it asks, and the list of its effects. `Recreator` and
-- the repositories are answers here; a Docker call is an effect with a flag that says whether it
-- worked.
pub mod Protocol
pub mod Swap
pub mod Handlers
use dockbrr.Common.{ℕ, Bool, true, false, Option, none, some, List, [], ◌∷◌, ◌++◌, Text, bytes}
use dockbrr.Store.Updates.Defs.{Update, Status as UpdateStatus}
use dockbrr.Store.Updates.Defs as UpdateDefs
use dockbrr.Store.Jobs.Defs as JobDefs
use dockbrr.Store.Jobs.Defs.{Status as JobStatus}
use dockbrr.Job.Health.{ContainerStatus, Verdict}
use dockbrr.Job.Effects.{Answer, good, bad, Service, Remote, EventKind, failed}

-- The fields of `store.Snapshot` that are written and read here.
pub record Snapshot : Type 0 where
  pub prev_repo : Text
  pub prev_digest : Text
  pub prev_image_id : Text
  pub prev_container_inspect : Text

-- What a container is stopped, started or removed for.
pub data Use : Type 0 where
  leftover recreating restoring : Use

pub record World : Type 0 where
  pub get_service : ℕ → Answer Service
  pub latest_open : ℕ → Answer Update
  pub latest_snapshot : ℕ → Answer Snapshot
  pub resolve : Text → Answer Remote
  pub inspect_json : Text → Answer Text
  pub save_snapshot : Answer (Unit {0})
  pub image_pull : Text → Answer (Unit {0})
  pub id_by_name : Text → Answer (Option Text)
  pub container_stop : Use → Text → Answer (Unit {0})
  pub container_start : Use → Text → Answer (Unit {0})
  pub container_remove : Use → Text → Answer (Unit {0})
  pub container_rename : Text → Text → Answer (Unit {0})
  pub create_from_inspect : Text → Text → Text → Answer Text
  pub inspect : ℕ → Text → Option ContainerStatus
  pub polls : ℕ
  pub save_runtime : Answer (Unit {0})
  pub save_image_ref : Answer (Unit {0})
  pub save_rolled_back : Answer (Unit {0})
  pub save_event : Answer (Unit {0})

-- The errors of `recreate`.
pub data Stuck : Type 0 where
  stop_old rename_old create_new start_new : Text → Stuck

-- The messages of a failed job.
pub data Reason : Type 0 where
  unknown_type no_service no_container target_moved empty_inspect no_previous_state : Reason
  load_service no_open_update re_resolve inspect_current snapshot_failed pull_failed : Text → Reason
  no_snapshot : Text → Reason
  recreate_failed : Stuck → Reason
  health_gate : Verdict → Reason

-- The lines of the live log.
pub data Note : Type 0 where
  resolving snapshot_taken recreating health_gating apply_succeeded : Note
  rolling_back rolled_back : Note
  pulling : Text → Note
  reason : Reason → Note

-- The calls that change state. Of those that write to the store only the successful ones are listed.
pub data Effect : Type 0 where
  emit : Note → Effect
  event : ℕ → EventKind → Text → Text → Effect
  insert_snapshot : ℕ → Snapshot → Effect
  pull : Text → Bool → Effect
  stop start remove : Text → Bool → Effect
  rename : Text → Text → Bool → Effect
  create : Text → Text → Text → Option Text → Effect
  set_status : ℕ → UpdateStatus → Effect
  mark_applied : ℕ → Effect
  mark_rolled_back : ℕ → Text → Effect
  update_runtime : ℕ → List Text → Text → Effect
  update_image_ref : ℕ → Text → Effect
  finish : JobStatus → Option ℕ → Option Reason → Effect

-- `err == nil`.
abbrev pub worked {ℓ} : {A : Type ℓ} → Answer A → Bool
worked (good a) = true
worked (bad e) = false

-- The effect of a write to the store, if it works.
abbrev pub written {ℓ} : {A : Type ℓ} → Answer A → Effect → List Effect
written (good a) e = e ∷ []
written (bad _) e = []

-- `name + oldSuffix`.
abbrev pub aside : Text → Text
aside name = name ++ bytes "-dockbrr-old"

-- `fail`.
unfoldable pub fail : Reason → List Effect
fail r = emit (reason r) ∷ finish JobDefs.failed none (some r) ∷ []

-- `succeed`.
unfoldable pub succeed : List Effect
succeed = finish JobDefs.success (some 0) none ∷ []

module _ (w : World) where
  -- `event`.
  unfoldable pub record_event : ℕ → EventKind → Text → Text → List Effect
  record_event service kind from to = written w.save_event (event service kind from to)

  -- `failApply`.
  unfoldable pub fail_apply : Service → Update → Reason → List Effect
  fail_apply svc upd r =
      set_status upd.id UpdateDefs.failed
      ∷ (record_event svc.id failed svc.current_digest upd.to_digest ++ fail r)
