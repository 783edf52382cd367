-- ===== src/Job/Health.antt =====
-- The health gate of internal/job/worker.go.
pub mod Gate
use dockbrr.Common.{
  ℕ, zero, suc, Bool, true, false, ◌&&◌, ◌||◌, Option, none, some, List, [], ◌∷◌, Text, bytes,
  text_eq, if◌then◌else◌,
}

-- The fields of `docker.ContainerStatus` that are read.
pub record ContainerStatus : Type 0 where
  pub state : Text
  pub health : Text
  pub raw_json : Text

-- One pass over the containers: all ready, not yet, or one that is down.
pub data Round : Type 0 where
  ready waiting : Round
  broken : Text → ContainerStatus → Round

-- `st.State == "exited" || st.Health == "unhealthy"`.
unfoldable pub is_down : ContainerStatus → Bool
is_down st = text_eq st.state (bytes "exited") || text_eq st.health (bytes "unhealthy")

-- `st.State == "running" && (st.Health == "" || st.Health == "healthy")`.
unfoldable pub is_ready : ContainerStatus → Bool
is_ready st =
    text_eq st.state (bytes "running")
    && (text_eq st.health [] || text_eq st.health (bytes "healthy"))

-- The `for _, id := range ids` loop, with `allReady`. A container that cannot be inspected ends the
-- pass; one that is down ends the gate.
unfoldable pub pass : (Text → Option ContainerStatus) → Bool → List Text → Round
unfolding is_down is_ready
pass inspect all_ready [] = if all_ready then ready else waiting
pass inspect all_ready (id ∷ ids) = elim (inspect id) [
  | none ↦ waiting
  | some st ↦ elim (is_down st) [
    | true ↦ broken id st
    | false ↦ pass inspect (all_ready && is_ready st) ids
  ]
]

pub data Verdict : Type 0 where
  healthy timed_out : Verdict
  down : Text → ContainerStatus → Verdict

-- The outer loop: `polls` is how many times the poll timer fires before the timeout, and `inspect`
-- gives the answers of each round.
unfoldable pub rounds : (ℕ → Text → Option ContainerStatus) → List Text → ℕ → ℕ → Verdict
unfolding pass
rounds inspect ids zero n = elim (pass (inspect n) true ids) [
  | ready ↦ healthy
  | broken id st ↦ down id st
  | waiting ↦ timed_out
]
rounds inspect ids (suc polls) n = elim (pass (inspect n) true ids) [
  | ready ↦ healthy
  | broken id st ↦ down id st
  | waiting ↦ rounds inspect ids polls (suc n)
]

-- `healthGate`: with no containers there is nothing to poll.
unfoldable pub health_gate : (ℕ → Text → Option ContainerStatus) → ℕ → List Text → Verdict
unfolding rounds
health_gate inspect polls [] = healthy
health_gate inspect polls (id ∷ ids) = rounds inspect (id ∷ ids) polls 0
