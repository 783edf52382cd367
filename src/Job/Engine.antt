-- ===== src/Job/Engine.antt =====
-- The worker pool of internal/job/queue.go and the keyed mutex of internal/job/lock.go. The workers
-- run at the same time: an event is one step of one of them, or a call of `Stream`, and events come in
-- any order. The Go runtime gives a `sync.Mutex` to one worker at a time.
pub mod Counts
pub mod Locked
pub mod Exclusive
use dockbrr.Common.{
  ℕ, suc, ◌+◌, Bool, true, false, Option, none, some, List, [], ◌∷◌, ◌==◌, get_elem?, set,
  if◌then◌else◌,
}

-- A claimed job: its id, and its project or 0, the key of its lock.
pub record Task : Type 0 where
  pub id : ℕ
  pub key : ℕ

-- Where a worker is: in its claim loop, at the entry of `Lock`, at the lock of the mutex, in the handler,
-- or behind `Unlock`.
pub data Phase : Type 0 where
  idle : Phase
  claimed waiting running released : Task → Phase

-- `locks` maps a key to its mutex, if there is one, and whether that is locked. `subs` counts the open
-- channels of a job, and `finished` is the set of closed jobs.
pub record Engine : Type 0 where
  pub workers : List Phase
  pub locks : ℕ → Option Bool
  pub subs : ℕ → ℕ
  pub finished : ℕ → Bool

pub data Action : Type 0 where
  claim : Task → Action
  enter acquire release close : Action

abbrev pub put : {A : Type 0} → ℕ → A → (ℕ → A) → ℕ → A
put k v f x = if x == k then v else f x

abbrev pub or_new : Option Bool → Option Bool
or_new none = some false
or_new (some b) = some b

abbrev pub unlocked : Option Bool → Option Bool
unlocked none = none
unlocked (some b) = some false

abbrev pub worker_at : ℕ → Phase → Engine → Engine
worker_at i p e = record e { workers = set e.workers i p }

-- `m.Lock()`: it blocks while the mutex is locked.
unfoldable pub lock_mutex : ℕ → Task → Option Bool → Engine → Option Engine
lock_mutex i t (some false) e =
    some (record (worker_at i (running t) e) { locks = put t.key (some true) e.locks })
lock_mutex i t _ e = none

-- `closeStreams`.
unfoldable pub close_streams : ℕ → Engine → Engine
close_streams id e = record e { subs = put id 0 e.subs; finished = put id true e.finished }

-- One step of a worker, from its phase: `worker` up to the claim, then `dispatch`: the entry of `Lock`
-- (which makes the mutex of a new key), its lock, the handler up to the deferred `Unlock`, and the
-- closing of the streams.
unfoldable pub turn : ℕ → Action → Phase → Engine → Option Engine
unfolding lock_mutex close_streams
turn i (claim t) idle e = some (worker_at i (claimed t) e)
turn i enter (claimed t) e =
    some (record (worker_at i (waiting t) e) { locks = put t.key (or_new (e.locks t.key)) e.locks })
turn i acquire (waiting t) e = lock_mutex i t (e.locks t.key) e
turn i release (running t) e =
    some
      (record (worker_at i (released t) e) { locks = put t.key (unlocked (e.locks t.key)) e.locks })
turn i close (released t) e = some (close_streams t.id (worker_at i idle e))
turn i _ _ e = none

unfoldable pub act : ℕ → Action → Engine → Option Engine
unfolding turn
act i a e = elim (get_elem? e.workers i) [ none ↦ none | some p ↦ turn i a p e ]

-- `Stream` for a job that is known: whether the channel is open, and the engine.
unfoldable pub stream : ℕ → Engine → Bool × Engine
stream id e =
    if e.finished id
    then (false, e)
    else (true, record e { subs = put id (suc (e.subs id)) e.subs })

pub data Event : Type 0 where
  step : ℕ → Action → Event
  subscribe : ℕ → Event

abbrev pub or_same : Engine → Option Engine → Engine
or_same e none = e
or_same e (some f) = f

-- A step that cannot be taken, because the worker is elsewhere or blocked, is not taken.
unfoldable pub happen : Event → Engine → Engine
unfolding act stream
happen (step i a) e = or_same e (act i a e)
happen (subscribe id) e = (stream id e).1

unfoldable pub run : List Event → Engine → Engine
unfolding happen
run [] e = e
run (v ∷ vs) e = run vs (happen v e)
