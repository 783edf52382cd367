-- ===== src/Discovery/Locator.antt =====
-- `LocateService` of internal/discovery/locator.go, over the containers of the daemon.
pub mod Exact
use dockbrr.Common.{Option, none, some, List, [], ◌∷◌, Text, text_eq, find, if◌then◌else◌}
use dockbrr.Discovery.Group.{Container, DiscoveredService, DiscoveredProject, named, called, group}

-- The service of the first project of the name that has it.
unfoldable pub search_services : Text → List DiscoveredService → Option DiscoveredService
search_services s ss = find (called s) ss

-- The two loops: a project of another name, or one without the service, is passed over.
unfoldable pub search_groups : Text → Text → List DiscoveredProject → List Text × Text
search_groups p s [] = ([], [])
search_groups p s (g ∷ gs) =
    let rest = search_groups p s gs in
    if named p g
    then elim (search_services s g.services) [
      | none ↦ rest
      | some svc ↦ (svc.container_ids, svc.current_digest)
    ]
    else rest

-- `LocateService`, once the containers are collected.
unfoldable pub locate_service : Text → Text → List Container → List Text × Text
locate_service p s cs = search_groups p s (group cs)
