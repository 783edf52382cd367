-- ===== src/Job/Lifecycle.antt =====
-- The jobs start, stop, restart and remove: internal/job/lifecycle.go, and `IsStoppedState` of
-- internal/store/services.go. A handler is a function from the answers of the world to the list of its
-- effects; a Docker call is an effect with a flag that says whether it worked.
pub mod Order
pub mod Guard
use dockbrr.Common.{
  ℕ, Bool, true, false, not, ◌&&◌, ◌||◌, Option, none, some, List, [], ◌∷◌, ◌++◌, any, Text, bytes,
  text_eq, if◌then◌else◌,
}
use dockbrr.Compose.Dependents.{namespace_dependents}
use dockbrr.Compose.Dependents.{Service as ComposeService}
use dockbrr.Store.Jobs.Defs as JobDefs
use dockbrr.Store.Jobs.Defs.{JobType, Status as JobStatus}
use dockbrr.Job.Effects.{Answer, good, bad}
use dockbrr.Job.Steps.{digest_or}

-- The fields of `store.Service` and `store.Project` that are read here.
pub record Service : Type 0 where
  pub id : ℕ
  pub project_id : ℕ
  pub name : Text
  pub container_ids : List Text
  pub current_digest : Text
  pub state : Text

pub record Project : Type 0 where
  pub id : ℕ
  pub kind : Text
  pub name : Text
  pub working_dir : Text
  pub config_files : List Text

-- The verbs of `runOrderedWithDeps`.
pub data Verb : Type 0 where
  stopping starting : Verb

-- The answers. `live_state` is the state of an inspection before a removal, `new_state` that behind a
-- job; `locate` is `none` where there is no rediscoverer.
pub record World : Type 0 where
  pub get_service : ℕ → Answer Service
  pub get_project : ℕ → Answer Project
  pub parse : Text → List Text → Answer (List ComposeService)
  pub list_by_project : ℕ → Answer (List Service)
  pub container_move : Verb → Text → Answer (Unit {0})
  pub container_remove : Text → Answer (Unit {0})
  pub live_state : Text → Answer Text
  pub new_state : Text → Answer Text
  pub locate : Option (Text → Text → Answer (List Text × Text))
  pub save_runtime : Answer (Unit {0})
  pub save_state : Answer (Unit {0})
  pub save_event : Answer (Unit {0})

-- The messages of a failed job.
pub data Reason : Type 0 where
  no_service unknown_type not_standalone : Reason
  not_stopped is_running : Text → Reason
  load_service load_project : Text → Reason
  move_failed : Verb → Text → Text → Reason
  remove_failed : Text → Text → Reason

-- The kinds of the events.
pub data EventKind : Type 0 where
  started stopped restarted removed : EventKind
  other_kind : JobType → EventKind

pub data Note : Type 0 where
  begun completed : JobType → Note
  failed : JobType → Reason → Note

pub data Effect : Type 0 where
  emit : Note → Effect
  move : Verb → Text → Bool → Effect
  remove : Text → Bool → Effect
  update_runtime : ℕ → List Text → Text → Effect
  update_state : ℕ → Text → Effect
  finish : JobStatus → Option ℕ → Option Reason → Effect
  event : ℕ → EventKind → Effect

-- `IsStoppedState`.
unfoldable pub is_stopped_state : Text → Bool
is_stopped_state s =
    text_eq s (bytes "exited") || (text_eq s (bytes "dead") || text_eq s (bytes "created"))

-- `st.State == "running" || st.State == "restarting"`.
unfoldable pub is_live : Text → Bool
is_live s = text_eq s (bytes "running") || text_eq s (bytes "restarting")

-- One inspection of `runRemove`: the state of a container that is live. A container that cannot be
-- inspected is passed over.
unfoldable pub live_or : Answer Text → Option Text → Option Text
live_or (bad e) rest = rest
live_or (good s) rest = if is_live s then some s else rest

-- `eventKind`.
unfoldable pub event_kind : JobType → EventKind
event_kind JobDefs.start = started
event_kind JobDefs.stop = stopped
event_kind JobDefs.restart = restarted
event_kind JobDefs.remove = removed
event_kind t = other_kind t

-- `fail` and `succeed`.
unfoldable pub fail : Reason → List Effect
fail r = finish JobDefs.failed none (some r) ∷ []

unfoldable pub succeed : List Effect
succeed = finish JobDefs.success (some 0) none ∷ []

-- The ids of the services with one of the names, in the order of the services.
unfoldable pub ids_of : List Text → List Service → List Text
ids_of names [] = []
ids_of names (s ∷ ss) =
    let rest = ids_of names ss in
    if any (text_eq s.name) names then s.container_ids ++ rest else rest

-- The `order` of `runOrderedWithDeps`.
unfoldable pub order_of : Verb → List Text → List Text → List Text
order_of stopping targets deps = deps ++ targets
order_of starting targets deps = targets ++ deps

module _ (w : World) where
  -- The ids of the tracked services with the names.
  unfoldable pub tracked_ids : Project → List Text → List Text
  tracked_ids proj [] = []
  tracked_ids proj (n ∷ names) = elim (w.list_by_project proj.id) [
    | bad e ↦ []
    | good svcs ↦ ids_of (n ∷ names) svcs
  ]

  -- `dependentContainerIDs` of a compose project.
  unfoldable pub compose_dependents : Service → Project → List Text → List Text
  compose_dependents svc proj [] = []
  compose_dependents svc proj (f ∷ fs) = elim (w.parse proj.working_dir (f ∷ fs)) [
    | bad e ↦ []
    | good services ↦ tracked_ids proj (namespace_dependents services svc.name)
  ]

  -- `dependentContainerIDs`.
  unfoldable pub dependent_container_ids : Service → Project → List Text
  dependent_container_ids svc proj =
      if text_eq proj.kind (bytes "compose")
      then compose_dependents svc proj proj.config_files
      else []

  -- The loop of `runOrderedWithDeps`, which stops at the first error.
  unfoldable pub move_all : Verb → List Text → List Effect × Option Reason
  move_all verb [] = ([], none)
  move_all verb (id ∷ ids) = elim (w.container_move verb id) [
    | bad e ↦ (move verb id false ∷ [], some (move_failed verb id e))
    | good _ ↦ let rest = move_all verb ids in (move verb id true ∷ rest.0, rest.1)
  ]

  -- `runOrderedWithDeps`.
  abbrev pub run_ordered : Verb → Service → List Text → List Effect × Option Reason
  run_ordered verb svc deps = move_all verb (order_of verb svc.container_ids deps)

  -- The start of a restart, once the stop is done.
  unfoldable pub then_start :
      Service → List Text → List Effect × Option Reason → List Effect × Option Reason
  then_start svc deps (es, some r) = (es, some r)
  then_start svc deps (es, none) =
      let rest = run_ordered starting svc deps in (es ++ rest.0, rest.1)

  -- The inspections of `runRemove`: the state of the first container that is live.
  unfoldable pub first_live : List Text → Option Text
  first_live [] = none
  first_live (id ∷ ids) = live_or (w.live_state id) (first_live ids)

  -- The removals of `runRemove`.
  unfoldable pub remove_all : List Text → List Effect × Option Reason
  remove_all [] = ([], none)
  remove_all (id ∷ ids) = elim (w.container_remove id) [
    | bad e ↦ (remove id false ∷ [], some (remove_failed id e))
    | good _ ↦ let rest = remove_all ids in (remove id true ∷ rest.0, rest.1)
  ]

  -- `runRemove` once the inspections are done.
  unfoldable pub unless_live : Service → Option Text → List Effect × Option Reason
  unless_live svc (some s) = ([], some (is_running s))
  unless_live svc none = remove_all svc.container_ids

  -- `runRemove`.
  unfoldable pub run_remove : Service → Project → List Effect × Option Reason
  run_remove svc proj =
      if not (text_eq proj.kind (bytes "standalone"))
      then ([], some not_standalone)
      else if not (is_stopped_state svc.state)
      then ([], some (not_stopped svc.state))
      else unless_live svc (first_live svc.container_ids)

  -- The state behind the job.
  unfoldable pub stamp_state : Service → Answer Text → List Effect
  stamp_state svc (bad e) = []
  stamp_state svc (good []) = []
  stamp_state svc (good (c ∷ s)) = elim w.save_state [
    | bad e ↦ []
    | good _ ↦ update_state svc.id (c ∷ s) ∷ []
  ]

  unfoldable pub relocated : Service → Answer (List Text × Text) → List Effect
  relocated svc (bad e) = []
  relocated svc (good ([], dig)) = []
  relocated svc (good (id ∷ ids, dig)) =
      let state = stamp_state svc (w.new_state id) in
      elim w.save_runtime [
        | bad e ↦ state
        | good _ ↦ update_runtime svc.id (id ∷ ids) (digest_or dig svc.current_digest) ∷ state
      ]

  -- `rediscover`.
  unfoldable pub rediscover : Service → Project → List Effect
  rediscover svc proj = elim w.locate [ none ↦ [] | some f ↦ relocated svc (f proj.name svc.name) ]

  -- `event`.
  unfoldable pub record_event : ℕ → EventKind → List Effect
  record_event id k = elim w.save_event [ bad e ↦ [] | good _ ↦ event id k ∷ [] ]

  -- The `switch`: `none` for an unknown type.
  unfoldable pub perform : JobType → Service → Project → Option (List Effect × Option Reason)
  perform JobDefs.start svc proj =
      some (run_ordered starting svc (dependent_container_ids svc proj))
  perform JobDefs.stop svc proj = some (run_ordered stopping svc (dependent_container_ids svc proj))
  perform JobDefs.restart svc proj =
      let deps = dependent_container_ids svc proj in
      some (then_start svc deps (run_ordered stopping svc deps))
  perform JobDefs.remove svc proj = some (run_remove svc proj)
  perform t svc proj = none

  -- What is re-discovered: nothing behind a removal.
  unfoldable pub refreshed : JobType → Service → Project → List Effect
  refreshed JobDefs.remove svc proj = []
  refreshed t svc proj = rediscover svc proj

  -- Behind the `switch`.
  unfoldable pub conclude :
      JobType → Service → Project → Option (List Effect × Option Reason) → List Effect
  conclude t svc proj none = fail unknown_type
  conclude t svc proj (some (es, some r)) = es ++ (emit (failed t r) ∷ fail r)
  conclude t svc proj (some (es, none)) =
      es
      ++ (refreshed t svc proj
          ++ (emit (completed t) ∷ (succeed ++ record_event svc.id (event_kind t))))

  unfoldable pub handle_loaded : JobType → Service → List Effect
  handle_loaded t svc = elim (w.get_project svc.project_id) [
    | bad e ↦ fail (load_project e)
    | good proj ↦ emit (begun t) ∷ conclude t svc proj (perform t svc proj)
  ]

  -- `Handle`.
  unfoldable pub handle : JobType → Option ℕ → List Effect
  handle t none = fail no_service
  handle t (some id) = elim (w.get_service id) [
    | bad e ↦ fail (load_service e)
    | good svc ↦ handle_loaded t svc
  ]
