-- ===== src/Examples/Recreating.antt =====
-- A standalone container whose replacement exits.
use dockbrr.Common.{◌≡◌, refl, ℕ, zero, suc, some, Option, Text, none, [], ◌∷◌, bytes, arith}
use dockbrr.Store.Jobs.Defs.{apply}
use dockbrr.Job.Effects.{good}
use dockbrr.Job.Health.{ContainerStatus, health_gate}
use dockbrr.Job.Standalone.{World}
use dockbrr.Job.Standalone.Protocol.{fresh, Closes}
use dockbrr.Job.Standalone.Swap.{single_gate}
use dockbrr.Job.Standalone.Swap.Gate.{single_gate-health_gate}
use dockbrr.Job.Standalone.Swap.Outcome.{Fresh, Safe}
use dockbrr.Job.Standalone.Handlers.{handle}
use dockbrr.Job.Standalone.Handlers.Finishes.{handle-Closes}
use dockbrr.Job.Standalone.Handlers.Restores.{handle-Safe}
use dockbrr.Examples.Applying.{web, update}

-- The replacement is unseen at first, then exited.
abbrev inspect : ℕ → Text → Option ContainerStatus
inspect zero id = none
inspect (suc n) id = some (record { state = bytes "exited"; health = []; raw_json = [] })

abbrev world : World
world = record {
  get_service = λ i. good web;
  latest_open = λ i. good update;
  latest_snapshot = λ i. good (record {
    prev_repo = bytes "nginx";
    prev_digest = bytes "d0";
    prev_image_id = bytes "i0";
    prev_container_inspect = bytes "[]";
  });
  resolve = λ r. good (record { digest = bytes "d2"; platform_digest = [] });
  inspect_json = λ c. good (bytes "[]");
  save_snapshot = good tt;
  image_pull = λ r. good tt;
  id_by_name = λ n. good none;
  container_stop = λ u i. good tt;
  container_start = λ u i. good tt;
  container_remove = λ u i. good tt;
  container_rename = λ i n. good tt;
  create_from_inspect = λ j i n. good (bytes "c2");
  inspect = inspect;
  polls = 3;
  save_runtime = good tt;
  save_image_ref = good tt;
  save_rolled_back = good tt;
  save_event = good tt;
}

new_id : Fresh world (bytes "c1") (bytes "web")
new_id i j new h k = grind arith

handle-Safe_example : Safe (bytes "c1") (bytes "web") (handle world apply (some 7))
handle-Safe_example = handle-Safe world apply 7 web (bytes "c1") [] refl refl refl refl new_id

handle-Closes_example : Closes fresh (handle world apply (some 7))
handle-Closes_example = handle-Closes world apply (some 7)

single_gate-health_gate_example :
    single_gate inspect (bytes "c2") 3 0 ≡ health_gate inspect 3 (bytes "c2" ∷ [])
single_gate-health_gate_example = single_gate-health_gate inspect 3 (bytes "c2")
