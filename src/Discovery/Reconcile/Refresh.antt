-- ===== src/Discovery/Reconcile/Refresh.antt =====
-- The pass of `Reconcile` of internal/discovery/discovery.go that writes the discovered projects and
-- services.
pub mod Owned
use dockbrr.Common.{
  ℕ, Bool, true, false, not, ◌&&◌, Option, none, some, List, [], ◌∷◌, Text, bytes, text_eq, any,
  if◌then◌else◌,
}
use dockbrr.Store.Services
use dockbrr.Store.Projects.{Project, set_unmanaged, set_auto_named}
use dockbrr.Store.Projects
use dockbrr.Discovery.Group.{Container, DiscoveredProject, DiscoveredService, Kind, group}
use dockbrr.Discovery.DockerName.{is_docker_assigned}
use dockbrr.Discovery.Reconcile.{Cycle, declared_differs, mark_pass, prune}

-- A service of a parsed compose file, as far as it is read.
pub record Declared : Type 0 where
  pub name : Text
  pub image : Text
  pub build : Bool

-- The reconciler's host, the setting for new projects, the clock, the file system, the compose parser,
-- and the word lists.
pub record World : Type 0 where
  pub host_id : ℕ
  pub auto_update_default : Bool
  pub now : ℕ
  pub is_readable : Text → Bool
  pub parse : Text → List Text → Option (List Declared)
  pub adjective : Text → Bool
  pub surname : Text → Bool

abbrev pub manual : Text
manual = bytes "manual"

abbrev later_id : Option ℕ → ℕ → Option ℕ
later_id none id = some id
later_id (some k) id = some k

-- `manualIDs[name]`: the last of the manual projects of the name.
unfoldable pub manual_id : Text → List Project → Option ℕ
manual_id n [] = none
manual_id n (p ∷ ps) =
    let rest = manual_id n ps in
    if text_eq p.source manual && text_eq p.name n then later_id rest p.id else rest

abbrev pub kind_name : Kind → Text
kind_name Kind.compose = bytes "compose"
kind_name Kind.standalone = bytes "standalone"

-- The argument of `Projects.Upsert`; the fields that it does not name have no part in the statement.
unfoldable pub discovered_row : World → DiscoveredProject → Project
discovered_row w g = record {
  id = 0;
  host_id = w.host_id;
  kind = kind_name g.kind;
  name = g.name;
  working_dir = g.working_dir;
  config_files = g.config_files;
  source = Projects.discovered;
  auto_update_enabled = w.auto_update_default;
  update_policy = [];
  unmanaged = false;
  auto_named = false;
  last_synced_at = some w.now;
  created_at = 0;
}

-- The id of the group's project, which is written unless it is a manual one.
unfoldable pub ensured : World → DiscoveredProject → Projects.Table → Option ℕ → ℕ × Projects.Table
ensured w g t (some id) = (id, t)
ensured w g t none = Projects.upsert w.now (discovered_row w g) t

unfoldable pub ensure_project :
    World → List Project → DiscoveredProject → Projects.Table → ℕ × Projects.Table
ensure_project w stored g t = ensured w g t (manual_id g.name stored)

abbrev pub is_compose : Kind → Bool
is_compose Kind.compose = true
is_compose Kind.standalone = false

abbrev some_file : List Text → Bool
some_file [] = false
some_file (f ∷ fs) = true

-- `g.Kind == "compose" && len(g.ConfigFiles) > 0`.
abbrev pub has_files : DiscoveredProject → Bool
has_files g = is_compose g.kind && some_file g.config_files

unfoldable pub flag_unmanaged : World → DiscoveredProject → ℕ → Projects.Table → Projects.Table
flag_unmanaged w g pid t =
    if has_files g then set_unmanaged pid (any (λ f. not (w.is_readable f)) g.config_files) t else t

unfoldable pub flag_auto_named : World → DiscoveredProject → ℕ → Projects.Table → Projects.Table
flag_auto_named w g pid t =
    set_auto_named pid (not (is_compose g.kind) && is_docker_assigned w.adjective w.surname g.name)
      t

abbrev or_nothing : Option (List Declared) → List Declared
or_nothing none = []
or_nothing (some ds) = ds

-- `declared` and `buildLocal`, as the services that they are read from.
unfoldable pub declared_services : World → DiscoveredProject → List Declared
declared_services w g =
    if has_files g then or_nothing (w.parse g.working_dir g.config_files) else []

-- The entry of a name, the last one where there are several.
unfoldable pub entry : Text → List Declared → Option Declared
entry n [] = none
entry n (d ∷ ds) = elim (entry n ds) [
  | some e ↦ some e
  | none ↦ if text_eq d.name n then some d else none
]

abbrev image_of : Option Declared → Text
image_of none = []
image_of (some d) = d.image

abbrev build_of : Option Declared → Bool
build_of none = false
build_of (some d) = d.build

-- The argument of `Services.Upsert`.
unfoldable pub service_row : ℕ → List Declared → DiscoveredService → Services.Service
service_row pid ds s = record {
  id = 0;
  project_id = pid;
  name = s.name;
  container_ids = s.container_ids;
  image_ref = s.image_ref;
  current_digest = s.current_digest;
  current_image_id = s.current_image_id;
  image_version = s.image_version;
  pinned = s.pinned;
  drifted = declared_differs (image_of (entry s.name ds)) s.image_ref;
  state = s.state;
  gone_since = none;
  healthcheck = s.healthcheck;
  image_local = build_of (entry s.name ds);
  auto_update_enabled = none;
  updated_at = 0;
}

unfoldable pub refresh_services :
    ℕ → ℕ → List Declared → List DiscoveredService → Services.Table → Services.Table
refresh_services now pid ds [] t = t
refresh_services now pid ds (s ∷ ss) t =
    refresh_services now pid ds ss (Services.upsert now (service_row pid ds s) t).1

-- The writes for a group whose project is there.
unfoldable pub refresh_project : World → DiscoveredProject → ℕ → Cycle → Cycle
refresh_project w g pid c = record {
  projects = flag_auto_named w g pid (flag_unmanaged w g pid c.projects);
  services = refresh_services w.now pid (declared_services w g) g.services c.services;
  changed = c.changed;
}

-- One round of the loop over the groups.
unfoldable pub refresh_group : World → List Project → DiscoveredProject → Cycle → Cycle
refresh_group w stored g c =
    let at = ensure_project w stored g c.projects in
    refresh_project w g at.0 (record c { projects = at.1 })

unfoldable pub refresh_all : World → List Project → List DiscoveredProject → Cycle → Cycle
refresh_all w stored [] c = c
refresh_all w stored (g ∷ gs) c = refresh_all w stored gs (refresh_group w stored g c)

abbrev prune_if : Option ℕ → Cycle → Cycle
prune_if none c = c
prune_if (some cutoff) c = prune cutoff c

-- `Reconcile`, less its comparison of signatures; the cutoff is `none` where nothing is to be pruned.
unfoldable pub reconcile : World → Option ℕ → List Container → Cycle → Cycle
reconcile w cutoff cs c =
    let gs = group cs in
    let stored = Projects.list c.projects in
    let refreshed = refresh_all w stored gs c in
    prune_if cutoff (record refreshed { services = mark_pass w.now gs stored refreshed.services })
