-- ===== src/Job/Effects/Protocol.antt =====
-- The order in which a handler of internal/job may act, as an automaton over its effects.
use dockbrr.Common.{
  ◌≡◌, refl, sym, Bool, true, false, Option, none, some, List, [], ◌∷◌, ◌++◌, ◌∙◌, ap, Text,
  if◌then◌else◌,
}
use dockbrr.Compose.Runner.{Verb, pull, up}
use dockbrr.Store.Updates.Defs.{Status as UpdateStatus}
use dockbrr.Store.Updates.Defs as UpdateDefs
use dockbrr.Store.Jobs.Defs as JobDefs
use dockbrr.Store.Jobs.Defs.{Status as JobStatus}
use dockbrr.Job.Effects.{
  Effect, EventKind, apply_started, succeeded, failed, rolled_back, emit, event, insert_snapshot,
  write_file, create_override, remove_override, compose, set_status, mark_applied, mark_rolled_back,
  update_runtime, finish,
}

-- `fresh`: nothing is done. `snapped`: there is a snapshot to return to. `pulled` and `upped`: the
-- images are pulled, the containers are up. `broken`: compose failed. `closed`: the job has its
-- terminal result.
pub data Stage : Type 0 where
  fresh snapped pulled upped broken closed : Stage

abbrev pub is_open : Stage → Bool
is_open closed = false
is_open _ = true

abbrev pub stay : Stage → Option Stage
stay closed = none
stay s = some s

abbrev pub at_upped : Stage → Option Stage
at_upped upped = some upped
at_upped _ = none

-- A file or an override is written only when there is a snapshot and nothing is pulled yet.
abbrev pub at_snapped : Stage → Option Stage
at_snapped snapped = some snapped
at_snapped _ = none

abbrev pub event_step : EventKind → Stage → Option Stage
event_step apply_started s = at_snapped s
event_step failed s = stay s
event_step succeeded s = at_upped s
event_step rolled_back s = at_upped s

-- A pull wants a snapshot; the first `up` wants a pull that exited with 0; a further `up` recreates
-- dependents and may fail.
abbrev pub compose_step : Verb → Bool → Stage → Option Stage
compose_step pull ok snapped = some (if ok then pulled else broken)
compose_step up ok pulled = some (if ok then upped else broken)
compose_step up ok upped = some upped
compose_step _ ok s = none

abbrev pub status_step : UpdateStatus → Stage → Option Stage
status_step UpdateDefs.failed s = stay s
status_step UpdateDefs.superseded fresh = some fresh
status_step _ s = none

abbrev pub snapshot_step : Stage → Option Stage
snapshot_step fresh = some snapped
snapshot_step _ = none

-- Success only with the containers up; failure at any time; one result.
abbrev pub finish_step : JobStatus → Stage → Option Stage
finish_step JobDefs.success upped = some closed
finish_step JobDefs.failed closed = none
finish_step JobDefs.failed s = some closed
finish_step _ s = none

unfoldable pub next : Effect → Stage → Option Stage
next (emit n) s = stay s
next (event i k from to) s = event_step k s
next (insert_snapshot i sn h j) s = snapshot_step s
next (write_file f c) s = at_snapped s
next (create_override d c) s = at_snapped s
next (remove_override p) s = some s
next (compose spec ok) s = compose_step spec.verb ok s
next (set_status i st) s = status_step st s
next (mark_applied i) s = at_upped s
next (mark_rolled_back i d) s = at_upped s
next (update_runtime i ids d) s = at_upped s
next (finish st code r) s = finish_step st s

-- The stage behind a list of effects, `none` if one of them is out of order.
unfoldable pub protocol : List Effect → Option Stage → Option Stage
unfolding next
protocol [] o = o
protocol (e ∷ es) none = none
protocol (e ∷ es) (some s) = protocol es (next e s)

protocol-none : (es : List Effect) → protocol es none ≡ none
unfolding protocol
protocol-none [] = refl
protocol-none (e ∷ es) = refl

pub protocol-append :
    (es fs : List Effect) (o : Option Stage) → protocol (es ++ fs) o ≡ protocol fs (protocol es o)
unfolding protocol
protocol-append [] fs o = refl
protocol-append (e ∷ es) fs none = sym (protocol-none fs)
protocol-append (e ∷ es) fs (some s) = protocol-append es fs (next e s)

-- From the stage on, the effects are in order and end with the one terminal result of the job.
abbrev pub Closes : Stage → List Effect → Type 0
Closes s es = protocol es (some s) ≡ some closed

-- The effects are in order and leave the stage.
abbrev pub Stays : Stage → List Effect → Type 0
Stays s es = protocol es (some s) ≡ some s

pub Closes-append :
    (s : Stage) (es fs : List Effect) → Stays s es → Closes s fs → Closes s (es ++ fs)
Closes-append s es fs h k = protocol-append es fs (some s) ∙ ap (protocol fs) h ∙ k

pub Stays-append : (s : Stage) (es fs : List Effect) → Stays s es → Stays s fs → Stays s (es ++ fs)
Stays-append s es fs h k = protocol-append es fs (some s) ∙ ap (protocol fs) h ∙ k

pub Closes-cons :
    (s s' : Stage) (e : Effect) (es : List Effect)
    → next e s ≡ some s'
    → Closes s' es
    → Closes s (e ∷ es)
unfolding protocol
Closes-cons s s' e es h k = ap (protocol es) h ∙ k

pub Stays-cons :
    (s : Stage) (e : Effect) (es : List Effect) → next e s ≡ some s → Stays s es → Stays s (e ∷ es)
unfolding protocol
Stays-cons s e es h k = ap (protocol es) h ∙ k

pub Stays-nil : (s : Stage) → Stays s []
unfolding protocol
Stays-nil s = refl

-- The override is removed when the handler returns.
pub removed-Closes :
    (s : Stage) (p : Text) (es : List Effect)
    → Closes s es
    → Closes s (es ++ (remove_override p ∷ []))
unfolding protocol next
removed-Closes s p es h =
    protocol-append es (remove_override p ∷ []) (some s) ∙ ap (protocol (remove_override p ∷ [])) h
