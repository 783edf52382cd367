-- ===== src/Examples/Reconciling.antt =====
-- A service that has been gone for long, beside one that runs.
use dockbrr.Common.{
  true, text_eq, refl, ◌↔◌, false, none, some, List, [], ◌∷◌, bytes, In, here, there,
}
use dockbrr.Store.Services.{Service, gone_state}
use dockbrr.Store.Projects.{Project}
use dockbrr.Store.Projects
use dockbrr.Discovery.Reconcile.{Cycle, prune}
use dockbrr.Discovery.Group.{DiscoveredProject, Kind}
use dockbrr.Discovery.Reconcile.Refresh.{World, manual, refresh_all}
use dockbrr.Discovery.Reconcile.Refresh.Owned.{Keeps, refresh_all-owned}
use dockbrr.Discovery.Reconcile.Prunes.{Doomed, prune-In, UniqueIds}

abbrev gone : Service
gone = record {
  id = 1;
  project_id = 5;
  name = bytes "db";
  container_ids = [];
  image_ref = bytes "postgres:16";
  current_digest = bytes "d1";
  current_image_id = bytes "i1";
  image_version = [];
  pinned = false;
  drifted = false;
  state = gone_state;
  gone_since = some 10;
  healthcheck = false;
  image_local = false;
  auto_update_enabled = none;
  updated_at = 10;
}

abbrev running : Service
running = record gone { id = 2; name = bytes "web"; state = bytes "running"; gone_since = none }

abbrev stack : Project
stack = record {
  id = 5;
  host_id = 1;
  kind = bytes "compose";
  name = bytes "stack";
  working_dir = bytes "/srv";
  config_files = [];
  source = Projects.discovered;
  auto_update_enabled = false;
  update_policy = bytes "{}";
  unmanaged = false;
  auto_named = false;
  last_synced_at = none;
  created_at = 0;
}

abbrev cycle : Cycle
cycle = record {
  projects = record { rows = stack ∷ []; next = 6 };
  services = record { rows = gone ∷ running ∷ []; next = 3 };
  changed = false;
}

cycle-UniqueIds : UniqueIds cycle.services.rows
cycle-UniqueIds r s here here h = refl
cycle-UniqueIds r s here (there here) h = cc h
cycle-UniqueIds r s (there here) here h = cc h
cycle-UniqueIds r s (there here) (there here) h = refl
cycle-UniqueIds r s here (there (there m)) h = elim m [ ]
cycle-UniqueIds r s (there (there m)) k h = elim m [ ]
cycle-UniqueIds r s (there here) (there (there m)) h = elim m [ ]

prune-In_example :
    In gone (prune 20 cycle).services.rows ↔ ((Doomed 20 cycle.projects.rows gone) → ⊥)
prune-In_example = prune-In 20 cycle gone cycle-UniqueIds here

-- The stack of which only the web service is found.
abbrev found : List DiscoveredProject
found =
    record {
      name = bytes "stack";
      kind = Kind.compose;
      working_dir = bytes "/srv";
      config_files = [];
      services =
          record {
            name = bytes "web";
            container_ids = bytes "c1" ∷ [];
            image_ref = bytes "nginx:1";
            current_digest = bytes "d1";
            current_image_id = bytes "i1";
            image_version = [];
            state = bytes "running";
            pinned = false;
            healthcheck = false;
          }
          ∷ [];
    }
    ∷ []

abbrev world : World
world = record {
  host_id = 1;
  auto_update_default = true;
  now = 30;
  is_readable = λ f. false;
  parse = λ dir fs. none;
  adjective = λ a. true;
  surname = λ a. true;
}

-- The stack as one that the user registered.
abbrev registered : Project
registered = record stack { source = manual }

abbrev registered_cycle : Cycle
registered_cycle = record cycle { projects = record { rows = registered ∷ []; next = 6 } }

refresh_all-owned_example :
    Keeps registered
      (refresh_all world
        (Projects.list registered_cycle.projects)
        found
        registered_cycle).projects.rows
unfolding text_eq
refresh_all-owned_example = refresh_all-owned world found registered_cycle registered here refl
