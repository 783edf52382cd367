-- ===== src/Job/Standalone/Swap/Gate.antt =====
-- The gate of internal/job/standalone.go beside that of internal/job/worker.go.
use dockbrr.Common.{◌≡◌, ℕ, zero, suc, Option, [], ◌∷◌, Text, arith}
use dockbrr.Job.Health.{ContainerStatus, pass, rounds, health_gate}
use dockbrr.Job.Standalone.Swap.{single_gate}

single_gate-rounds :
    (inspect : ℕ → Text → Option ContainerStatus) (id : Text) (polls n : ℕ)
    → single_gate inspect id polls n ≡ rounds inspect (id ∷ []) polls n
unfolding single_gate rounds pass
single_gate-rounds inspect id zero n = ground arith
single_gate-rounds inspect id (suc polls) n =
    ground (arith, single_gate-rounds inspect id polls (suc n))

-- The gate of the standalone applier gives the verdict of the compose applier's gate over the one
-- container, whatever the inspections answer and however many polls there are.
pub single_gate-health_gate :
    (inspect : ℕ → Text → Option ContainerStatus) (polls : ℕ) (id : Text)
    → single_gate inspect id polls 0 ≡ health_gate inspect polls (id ∷ [])
unfolding health_gate
single_gate-health_gate inspect polls id = single_gate-rounds inspect id polls 0
