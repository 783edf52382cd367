-- ===== src/Job/Effects.antt =====
-- What the handlers of internal/job ask of the world, and what they do to it. A handler is a function
-- from the answers of the world to the list of its effects, in order. The answers are those of the
-- repositories, the registry, the Docker daemon, the file system and the `docker compose` program.
pub mod Protocol
pub mod Writes
use dockbrr.Common.{◌≡◌, refl, ◌⊎◌, inl, inr, ℕ, zero, suc, Bool, true, false, Option, List, Text}
use dockbrr.Compose.Runner.{RunSpec}
use dockbrr.Compose.Dependents.{Service as ComposeService}
use dockbrr.Compose.Rewrite.{LocatedImage}
use dockbrr.Store.Updates.Defs.{Update, Status as UpdateStatus}
use dockbrr.Store.Jobs.Defs.{Status as JobStatus}
use dockbrr.Job.Health.{ContainerStatus}

-- An answer, or the text of an error.
pub data Answer {ℓ} (A : Type ℓ) : Type ℓ where
  good : A → Answer A
  bad : Text → Answer A

-- The fields of `store.Service` and `store.Project` that the handlers read.
pub record Service : Type 0 where
  pub id : ℕ
  pub project_id : ℕ
  pub name : Text
  pub container_ids : List Text
  pub image_ref : Text
  pub current_digest : Text
  pub current_image_id : Text

pub record Project : Type 0 where
  pub name : Text
  pub working_dir : Text
  pub config_files : List Text

-- The fields of `registry.RemoteImage` that the precheck reads.
pub record Remote : Type 0 where
  pub digest : Text
  pub platform_digest : Text

-- The pre-edit compose file that a snapshot carries (`compose_blob`).
pub record Blob : Type 0 where
  pub path : Text
  pub content : Text

-- The fields of `store.Snapshot` that a rollback reads.
pub record Snapshot : Type 0 where
  pub prev_repo : Text
  pub prev_digest : Text
  pub blob : Option Blob

-- What a repeated question is asked for.
pub data Purpose : Type 0 where
  primary dependent sibling : Purpose

-- The answers. A question that a handler asks more than once carries its purpose, and is answered
-- the same way each time for that purpose. Of `compose` the answer is the exit code.
pub record World : Type 0 where
  pub get_service : ℕ → Answer Service
  pub get_project : ℕ → Answer Project
  pub list_services : Purpose → ℕ → Answer (List Service)
  pub latest_open : ℕ → Answer Update
  pub latest_snapshot : ℕ → Answer Snapshot
  pub parse : Text → List Text → Answer (List ComposeService)
  pub resolve : Text → Answer Remote
  pub write_back : Bool
  pub locate_image : List Text → Text → Answer LocatedImage
  pub read_file : Text → Answer Text
  pub hash_files : List Text → Answer Text
  pub save_snapshot : Answer (Unit {0})
  pub write_file : Text → Text → Answer (Unit {0})
  pub create_override : Text → Text → Answer Text
  pub compose : RunSpec → Answer ℕ
  pub locate : Purpose → Text → Text → Answer (List Text × Text)
  pub save_runtime : ℕ → Answer (Unit {0})
  pub save_event : Answer (Unit {0})
  pub save_rolled_back : Answer (Unit {0})
  pub inspect_json : Text → Answer Text
  pub inspect : ℕ → Text → Option ContainerStatus
  pub polls : ℕ

-- Why a job failed: one constructor for each message of the handlers.
pub data Reason : Type 0 where
  no_service unknown_type target_moved no_previous_digest timed_out : Reason
  load_service load_project no_open_update unparseable re_resolve snapshot_failed : Text → Reason
  write_compose write_override no_snapshot restore_compose : Text → Reason
  pull_failed up_failed : Answer ℕ → Reason
  unhealthy : Text → ContainerStatus → Reason

-- The lines that a handler adds to the job's log, beside those of compose.
pub data Note : Type 0 where
  reason : Reason → Note
  event_lost relocation_failed runtime_lost siblings_lost sibling_lost dependents_lost : Text → Note
  dependent_lost detection_skipped mark_lost : Text → Note
  recreate_failed : List Text → Answer ℕ → Note
  apply_succeeded rollback_succeeded : Note

pub data EventKind : Type 0 where
  apply_started succeeded failed rolled_back : EventKind

-- The calls of a handler that change state. Of those that save a snapshot, write a file or create an
-- override only the successful ones are listed: a failed one changes nothing. Of compose the flag
-- says whether it exited with 0.
pub data Effect : Type 0 where
  emit : Note → Effect
  event : ℕ → EventKind → Text → Text → Effect
  insert_snapshot : ℕ → Snapshot → Text → Text → Effect
  write_file : Text → Text → Effect
  create_override : Text → Text → Effect
  remove_override : Text → Effect
  compose : RunSpec → Bool → Effect
  set_status : ℕ → UpdateStatus → Effect
  mark_applied : ℕ → Effect
  mark_rolled_back : ℕ → Text → Effect
  update_runtime : ℕ → List Text → Text → Effect
  finish : JobStatus → Option ℕ → Option Reason → Effect

-- `err == nil && code == 0`.
abbrev pub exited_zero : Answer ℕ → Bool
exited_zero (good zero) = true
exited_zero (good (suc n)) = false
exited_zero (bad e) = false

pub Answer-cases {ℓ} :
    {A : Type ℓ} (a : Answer A) → ((x : A) × (a ≡ good x)) ⊎ ((e : Text) × (a ≡ bad e))
Answer-cases (good x) = inl (x, refl)
Answer-cases (bad e) = inr (e, refl)
