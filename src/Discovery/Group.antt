-- ===== src/Discovery/Group.antt =====
-- `Group` of internal/discovery/discovery.go. The map of projects, and that of the services of each, is
-- the list of its values, keyed by their names.
pub mod Gathers
pub mod Names
use dockbrr.Common.{
  ℕ, Bool, true, false, not, ◌&&◌, Option, none, some, List, [], ◌∷◌, ◌++◌, Text, text_eq, any,
  find, edit, map, if◌then◌else◌,
}
use dockbrr.Common.Sort.{sort_by}
use dockbrr.Compose.Dependents.{text_lt}

-- The fields of `docker.Container` that are read.
pub record Container : Type 0 where
  pub id : Text
  pub name : Text
  pub project : Text
  pub service : Text
  pub working_dir : Text
  pub config_files : List Text
  pub image_ref : Text
  pub repo_digest : Text
  pub image_id : Text
  pub version : Text
  pub state : Text
  pub pinned : Bool
  pub healthcheck : Bool
  pub self_update : Bool

pub record DiscoveredService : Type 0 where
  pub name : Text
  pub container_ids : List Text
  pub image_ref : Text
  pub current_digest : Text
  pub current_image_id : Text
  pub image_version : Text
  pub state : Text
  pub pinned : Bool
  pub healthcheck : Bool

pub data Kind : Type 0 where
  compose standalone : Kind

pub record DiscoveredProject : Type 0 where
  pub name : Text
  pub kind : Kind
  pub working_dir : Text
  pub config_files : List Text
  pub services : List DiscoveredService

abbrev pub Index : Type 0
Index = List DiscoveredProject

abbrev pub named : Text → DiscoveredProject → Bool
named n p = text_eq p.name n

abbrev pub called : Text → DiscoveredService → Bool
called n s = text_eq s.name n

-- `&DiscoveredService{…}`.
abbrev pub service_of : Container → Text → List Text → DiscoveredService
service_of c name ids = record {
  name = name;
  container_ids = ids;
  image_ref = c.image_ref;
  current_digest = c.repo_digest;
  current_image_id = c.image_id;
  image_version = c.version;
  state = c.state;
  pinned = c.pinned;
  healthcheck = c.healthcheck;
}

-- `svc.ContainerIDs = append(svc.ContainerIDs, c.ID)`.
abbrev pub replica : Container → DiscoveredService → DiscoveredService
replica c s = record s { container_ids = s.container_ids ++ (c.id ∷ []) }

-- The service of the container among those of its project: merged, or new.
unfoldable pub with_service : Container → List DiscoveredService → List DiscoveredService
with_service c ss =
    if text_eq c.service []
    then ss
    else if any (called c.service) ss
    then edit (called c.service) (replica c) ss
    else ss ++ (replica c (service_of c c.service []) ∷ [])

abbrev pub or_config : List Text → List Text → List Text
or_config [] fs = fs
or_config (f ∷ fs) _ = f ∷ fs

-- A container of a compose project, once the project is in the index.
unfoldable pub join : Container → DiscoveredProject → DiscoveredProject
join c p = record {
  name = p.name;
  kind = p.kind;
  working_dir =
      if text_eq p.working_dir [] && not (text_eq c.working_dir [])
      then c.working_dir
      else p.working_dir;
  config_files = or_config p.config_files c.config_files;
  services = with_service c p.services;
}

-- The project of the container, if it is not in the index yet.
unfoldable pub ensure : Container → Index → Index
ensure c index =
    if any (named c.project) index
    then index
    else index
      ++ (record {
        name = c.project;
        kind = compose;
        working_dir = c.working_dir;
        config_files = c.config_files;
        services = [];
      }
          ∷ [])

unfoldable pub add_compose : Container → Index → Index
add_compose c index = edit (named c.project) (join c) (ensure c index)

-- A container without a project: the first of its name is a project of its own.
unfoldable pub add_standalone : Container → Index → Index
add_standalone c index =
    if any (named c.name) index
    then index
    else index
      ++ (record {
        name = c.name;
        kind = standalone;
        working_dir = [];
        config_files = [];
        services = service_of c c.name (c.id ∷ []) ∷ [];
      }
          ∷ [])

-- One round of the loop; the helper of a self-update is passed over.
unfoldable pub add : Container → Index → Index
add c index =
    if c.self_update
    then index
    else if not (text_eq c.project [])
    then add_compose c index
    else add_standalone c index

unfoldable pub add_all : List Container → Index → Index
add_all [] index = index
add_all (c ∷ cs) index = add_all cs (add c index)

abbrev pub service_before : DiscoveredService → DiscoveredService → Bool
service_before s t = text_lt s.name t.name

abbrev pub project_before : DiscoveredProject → DiscoveredProject → Bool
project_before p q = text_lt p.name q.name

abbrev pub sorted_services : DiscoveredProject → DiscoveredProject
sorted_services p = record p { services = sort_by service_before p.services }

-- `Group`.
unfoldable pub group : List Container → List DiscoveredProject
group cs = map sorted_services (sort_by project_before (add_all cs []))
