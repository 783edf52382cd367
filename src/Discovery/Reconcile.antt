-- ===== src/Discovery/Reconcile.antt =====
-- The passes of `Reconcile` of internal/discovery/discovery.go over the stored services: those that are
-- absent are marked gone, and those that have been gone for long are deleted.
pub mod Deletes
pub mod Prunes
pub mod Marks
pub mod Absent
pub mod Refresh
use dockbrr.Common.{
  ℕ, ltb, Bool, true, false, not, ◌&&◌, Option, none, some, List, [], ◌∷◌, Text, text_eq, any, find,
  filter, if◌then◌else◌,
}
use dockbrr.Store.Services.{Service, list_by_project, mark_gone, delete, of_project, gone_state}
use dockbrr.Store.Services
use dockbrr.Store.Projects.{Project}
use dockbrr.Store.Projects
use dockbrr.Discovery.Group.{DiscoveredProject, DiscoveredService, called, named}

-- The two tables, and the result `changed`.
pub record Cycle : Type 0 where
  pub projects : Projects.Table
  pub services : Services.Table
  pub changed : Bool

-- `declaredDiffers`.
unfoldable pub declared_differs : Text → Text → Bool
declared_differs declared running =
    if text_eq declared [] then false else not (text_eq declared running)

-- `present[p.Name]`: the services of the group of the name, of which there is one at most.
unfoldable pub present : Text → List DiscoveredProject → List DiscoveredService
present n gs = elim (find (named n) gs) [ none ↦ [] | some g ↦ g.services ]

-- `goneServiceIDs`.
unfoldable pub gone_service_ids : List Service → List DiscoveredService → List ℕ
gone_service_ids [] ss = []
gone_service_ids (s ∷ stored) ss =
    let rest = gone_service_ids stored ss in if any (called s.name) ss then rest else s.id ∷ rest

unfoldable pub mark_all : ℕ → List ℕ → Services.Table → Services.Table
mark_all now [] t = t
mark_all now (id ∷ ids) t = mark_all now ids (mark_gone now id t)

abbrev pub is_discovered : Project → Bool
is_discovered p = text_eq p.source Projects.discovered

unfoldable pub mark_project : ℕ → List DiscoveredProject → Project → Services.Table → Services.Table
mark_project now gs p t =
    if is_discovered p
    then mark_all now (gone_service_ids (list_by_project p.id t) (present p.name gs)) t
    else t

-- The pass that marks: over the projects that were stored before the cycle.
unfoldable pub mark_pass :
    ℕ → List DiscoveredProject → List Project → Services.Table → Services.Table
mark_pass now gs [] t = t
mark_pass now gs (p ∷ ps) t = mark_pass now gs ps (mark_project now gs p t)

abbrev pub before_cutoff : ℕ → Option ℕ → Bool
before_cutoff cutoff none = false
before_cutoff cutoff (some since) = ltb since cutoff

-- `sv.State == "gone" && sv.GoneSince != nil && sv.GoneSince.Before(cutoff)`.
unfoldable pub is_stale : ℕ → Service → Bool
is_stale cutoff sv = text_eq sv.state gone_state && before_cutoff cutoff sv.gone_since

unfoldable pub delete_if_stale : ℕ → Service → Cycle → Cycle
delete_if_stale cutoff sv c =
    if is_stale cutoff sv
    then record c { services = delete sv.id c.services; changed = true }
    else c

unfoldable pub delete_stale : ℕ → List Service → Cycle → Cycle
delete_stale cutoff [] c = c
delete_stale cutoff (sv ∷ svs) c = delete_stale cutoff svs (delete_if_stale cutoff sv c)

abbrev pub outside : ℕ → Service → Bool
outside pid r = not (of_project pid r)

-- `Projects.Delete`, with the services that `ON DELETE CASCADE` takes along.
unfoldable pub delete_project : ℕ → Cycle → Cycle
delete_project pid c = record {
  projects = Projects.delete pid c.projects;
  services = record c.services { rows = filter (outside pid) c.services.rows };
  changed = true;
}

abbrev pub is_empty : List Service → Bool
is_empty [] = true
is_empty (s ∷ ss) = false

unfoldable pub delete_if_empty : ℕ → Cycle → Cycle
delete_if_empty pid c =
    if is_empty (list_by_project pid c.services) then delete_project pid c else c

-- One round of the loop that prunes.
unfoldable pub prune_project : ℕ → Project → Cycle → Cycle
prune_project cutoff p c =
    if is_discovered p
    then delete_if_empty p.id (delete_stale cutoff (list_by_project p.id c.services) c)
    else c

unfoldable pub prune_all : ℕ → List Project → Cycle → Cycle
prune_all cutoff [] c = c
prune_all cutoff (p ∷ ps) c = prune_all cutoff ps (prune_project cutoff p c)

-- The pass that prunes, once the cutoff is known.
unfoldable pub prune : ℕ → Cycle → Cycle
prune cutoff c = prune_all cutoff (Projects.list c.projects) c
