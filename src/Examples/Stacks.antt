-- ===== src/Examples/Stacks.antt =====
-- A compose file, its services, and its containers.
use dockbrr.Common.{refl, ℕ, zero, suc, Option, some, List, [], ◌∷◌, Text, bytes, All, In}
use dockbrr.Common.Strings.{has_char}
use dockbrr.Compose.Dependents.{Service, namespace_dependents}
use dockbrr.Compose.Dependents.Exact.{Borrows, IsBorrower, namespace_dependents_lem}
use dockbrr.Compose.Rewrite.{replace_image_line}
use dockbrr.Compose.Rewrite.Replace.{EditAnswer, replace_image_line_lem}
use dockbrr.Job.Health.{ContainerStatus, health_gate}
use dockbrr.Job.Health.Gate.{GateAnswer, health_gate_lem}

abbrev stack : List Service
stack =
    record { name = bytes "vpn"; network_mode = []; ipc = []; pid = [] }
    ∷ record { name = bytes "torrent"; network_mode = bytes "service:vpn"; ipc = []; pid = [] }
    ∷ []

namespace_dependents_lem_example :
    All (IsBorrower (bytes "vpn") stack) (namespace_dependents stack (bytes "vpn"))
    × ((s : Service)
        → In s stack
        → Borrows (bytes "vpn") s
        → In s.name (namespace_dependents stack (bytes "vpn")))
namespace_dependents_lem_example = namespace_dependents_lem stack (bytes "vpn")

abbrev content : Text
content = bytes "services:\n  web:\n    image: nginx:1.2\n"

replace_image_line_lem_example :
    EditAnswer content
      (bytes "nginx:1.2")
      (bytes "nginx:1.3")
      3
      (replace_image_line content (bytes "nginx:1.2") (bytes "nginx:1.3") 3)
unfolding has_char
replace_image_line_lem_example =
    replace_image_line_lem content (bytes "nginx:1.2") (bytes "nginx:1.3") 3 refl

-- The container starts and is healthy from the second round on.
abbrev inspected : ℕ → Text → Option ContainerStatus
inspected zero id =
    some (record { state = bytes "running"; health = bytes "starting"; raw_json = [] })
inspected (suc n) id =
    some (record { state = bytes "running"; health = bytes "healthy"; raw_json = [] })

health_gate_lem_example :
    GateAnswer inspected 0 5 (bytes "c1" ∷ []) (health_gate inspected 5 (bytes "c1" ∷ []))
health_gate_lem_example = health_gate_lem inspected 5 (bytes "c1" ∷ [])
