-- ===== src/Job/Standalone/Protocol.antt =====
-- The order in which the applier of internal/job/standalone.go may act, as an automaton over its
-- effects.
use dockbrr.Common.{
  ◌≡◌, refl, Bool, true, false, Option, none, some, List, [], ◌∷◌, All, if◌then◌else◌,
}
use dockbrr.Common.Automaton.{Leads, Leads-cons, Leads-nil}
use dockbrr.Store.Updates.Defs.{Status as UpdateStatus}
use dockbrr.Store.Updates.Defs as UpdateDefs
use dockbrr.Store.Jobs.Defs as JobDefs
use dockbrr.Store.Jobs.Defs.{Status as JobStatus}
use dockbrr.Job.Standalone.{
  Effect, emit, event, insert_snapshot, pull, stop, start, remove, rename, create, set_status,
  mark_applied, mark_rolled_back, update_runtime, update_image_ref, finish,
}

-- `fresh`: nothing is done. `snapped`: there is a snapshot to return to. `pulled`: the image is there.
-- `broken`: the pull failed. `closed`: the job has its terminal result.
pub data Stage : Type 0 where
  fresh snapped pulled broken closed : Stage

abbrev pub is_open : Stage → Bool
is_open closed = false
is_open _ = true

abbrev pub stay : Stage → Option Stage
stay closed = none
stay s = some s

-- What is allowed only once the image is pulled.
abbrev pub at_pulled : Stage → Option Stage
at_pulled pulled = some pulled
at_pulled _ = none

abbrev pub snapshot_step : Stage → Option Stage
snapshot_step fresh = some snapped
snapshot_step _ = none

abbrev pub pull_step : Bool → Stage → Option Stage
pull_step ok snapped = some (if ok then pulled else broken)
pull_step ok _ = none

abbrev pub status_step : UpdateStatus → Stage → Option Stage
status_step UpdateDefs.failed s = stay s
status_step UpdateDefs.superseded fresh = some fresh
status_step _ s = none

-- Success only behind the pull; failure at any time; one result.
abbrev pub finish_step : JobStatus → Stage → Option Stage
finish_step JobDefs.success pulled = some closed
finish_step JobDefs.failed closed = none
finish_step JobDefs.failed s = some closed
finish_step _ s = none

unfoldable pub next : Effect → Stage → Option Stage
next (emit n) s = stay s
next (event i k x y) s = stay s
next (insert_snapshot i sn) s = snapshot_step s
next (pull ref ok) s = pull_step ok s
next (stop i ok) s = at_pulled s
next (start i ok) s = at_pulled s
next (remove i ok) s = at_pulled s
next (rename i n ok) s = at_pulled s
next (create j i n o) s = at_pulled s
next (set_status i st) s = status_step st s
next (mark_applied i) s = at_pulled s
next (mark_rolled_back i d) s = at_pulled s
next (update_runtime i ids d) s = at_pulled s
next (update_image_ref i r) s = at_pulled s
next (finish st code r) s = finish_step st s

-- From the stage on, the effects are in order and end with the one terminal result of the job.
abbrev pub Closes : Stage → List Effect → Type 0
Closes s es = Leads next s closed es

-- The calls of the Docker daemon behind a pull, and the lines of the log.
abbrev pub is_docker : Effect → Bool
is_docker (emit n) = true
is_docker (stop i ok) = true
is_docker (start i ok) = true
is_docker (remove i ok) = true
is_docker (rename i n ok) = true
is_docker (create j i n o) = true
is_docker _ = false

abbrev pub Docker : List Effect → Type 0
Docker es = All (λ e. is_docker e ≡ true) es

next-docker : (e : Effect) → is_docker e ≡ true → next e pulled ≡ some pulled
unfolding next
next-docker (emit n) h = refl
next-docker (stop i ok) h = refl
next-docker (start i ok) h = refl
next-docker (remove i ok) h = refl
next-docker (rename i n ok) h = refl
next-docker (create j i n o) h = refl
next-docker (event i k x y) h = cc
next-docker (insert_snapshot i sn) h = cc
next-docker (pull ref ok) h = cc
next-docker (set_status i st) h = cc
next-docker (mark_applied i) h = cc
next-docker (mark_rolled_back i d) h = cc
next-docker (update_runtime i ids d) h = cc
next-docker (update_image_ref i r) h = cc
next-docker (finish st code r) h = cc

pub Docker-stays : (es : List Effect) → Docker es → Leads next pulled pulled es
Docker-stays [] h = Leads-nil next pulled
Docker-stays (e ∷ es) h =
    Leads-cons next pulled pulled pulled e es (next-docker e h.0) (Docker-stays es h.1)
