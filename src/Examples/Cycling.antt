-- ===== src/Examples/Cycling.antt =====
-- A project with a sidecar, and a release of dockbrr.
use dockbrr.Common.{◌≡◌, refl, some, none, [], ◌∷◌, ◌++◌, bytes, true, text_eq}
use dockbrr.Detect.Semver.{parse_core, core_less}
use dockbrr.Common.Sort.{sort_by, insert_by}
use dockbrr.Compose.Dependents.{namespace_dependents, collect, is_dependent, borrows}
use dockbrr.Store.Jobs.Defs as JobDefs
use dockbrr.Job.Effects.{good}
use dockbrr.Job.Lifecycle.{
  World, Service, Project, stopping, starting, handle, dependent_container_ids, compose_dependents,
  tracked_ids, ids_of, handle_loaded, conclude, perform, run_remove, is_stopped_state, unless_live,
  first_live, live_or, is_live, remove_all,
}
use dockbrr.Job.Lifecycle.Order.{Settles, each, handle-plan}
use dockbrr.Job.Lifecycle.Guard.{removes, Removable, removes-Removable}
use dockbrr.Job.SelfUpdater as SelfUpdater
use dockbrr.Job.SelfUpdater.Swap.{Accepted, spawns, spawns-Accepted}

abbrev web : Service
web = record {
  id = 7;
  project_id = 2;
  name = bytes "web";
  container_ids = bytes "c1" ∷ [];
  current_digest = bytes "d1";
  state = bytes "exited";
}

abbrev shop : Project
shop = record {
  id = 2;
  kind = bytes "standalone";
  name = bytes "web";
  working_dir = [];
  config_files = [];
}

abbrev world : World
world = record {
  get_service = λ i. good web;
  get_project = λ i. good shop;
  parse = λ d fs. good [];
  list_by_project = λ i. good (web ∷ []);
  container_move = λ v i. good tt;
  container_remove = λ i. good tt;
  live_state = λ i. good (bytes "exited");
  new_state = λ i. good (bytes "running");
  locate = none;
  save_runtime = good tt;
  save_state = good tt;
  save_event = good tt;
}

abbrev release : SelfUpdater.World
release = record {
  self_id = bytes "c9";
  check = good (record { latest = bytes "v1.2.0"; update_available = true });
  image_ref = good (bytes "dockbrr:latest");
  image_pull = λ r. good tt;
  image_version = λ r. good (bytes "1.2.0");
  spawn_updater = λ r i. good tt;
}

-- A sidecar shares the network of the service.
abbrev sidecar : Service
sidecar = record {
  id = 8;
  project_id = 2;
  name = bytes "vpn";
  container_ids = bytes "c2" ∷ [];
  current_digest = bytes "d2";
  state = bytes "running";
}

abbrev stack : Project
stack = record shop { kind = bytes "compose"; config_files = bytes "/srv/compose.yml" ∷ [] }

abbrev sharing : World
sharing = record world {
  get_project = λ i. good stack;
  parse = λ d fs.
      good (
        record { name = bytes "vpn"; network_mode = bytes "service:web"; ipc = []; pid = [] } ∷ []);
  list_by_project = λ i. good (web ∷ sidecar ∷ []);
}

handle-plan_example :
    Settles sharing
      (each stopping (bytes "c2" ∷ bytes "c1" ∷ []) ++ each starting (bytes "c1" ∷ bytes "c2" ∷ []))
      (handle sharing JobDefs.restart (some 7))
unfolding dependent_container_ids compose_dependents tracked_ids ids_of text_eq namespace_dependents
    collect is_dependent borrows sort_by insert_by
handle-plan_example = handle-plan sharing 7 JobDefs.restart web stack _ refl refl refl

it_removes : removes (handle world JobDefs.remove (some 7)) ≡ true
unfolding handle text_eq handle_loaded conclude perform run_remove is_stopped_state unless_live
    first_live live_or is_live remove_all
it_removes = refl

removes-Removable_example : (JobDefs.remove ≡ JobDefs.remove) × Removable world web shop
removes-Removable_example = removes-Removable world 7 JobDefs.remove web shop refl refl it_removes

it_spawns : spawns (SelfUpdater.handle release) ≡ true
unfolding SelfUpdater.handle text_eq parse_core core_less SelfUpdater.checked SelfUpdater.update_to
    SelfUpdater.from_ref SelfUpdater.pull_image SelfUpdater.after_pull
    SelfUpdater.unless_unpublished SelfUpdater.verify_pulled SelfUpdater.is_published
    SelfUpdater.spawn_helper
it_spawns = refl

spawns-Accepted_example : Accepted release
spawns-Accepted_example = spawns-Accepted release it_spawns
