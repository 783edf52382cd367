-- ===== src/Discovery/Reconcile/Absent.antt =====
-- The pass that marks against a description of it row by row (internal/discovery/discovery.go).
use dockbrr.Common.{◌≡◌, refl, ℕ, Bool, true, not, ◌&&◌, List, ◌∷◌, any, by_cases, if◌then◌else◌}
use dockbrr.Store.Services.{Service, gone_row, of_project}
use dockbrr.Store.Services
use dockbrr.Store.Projects.{Project}
use dockbrr.Discovery.Group.{DiscoveredProject, called}
use dockbrr.Discovery.Reconcile.{is_discovered, present}
use dockbrr.Discovery.Reconcile.Marks.{gone_twice, mark_if}

-- The row is of the discovered project, and the group of the project's name has no such service.
abbrev pub absent : List DiscoveredProject → Service → Project → Bool
absent gs r p =
    is_discovered p && (of_project p.id r && not (any (called r.name) (present p.name gs)))

module _ (now : ℕ) (gs : List DiscoveredProject) where
  abbrev round : Project → Service → Service
  round p r = mark_if now (absent gs r p) r

  -- The marks of the rounds one after the other are one mark.
  rounds :
      (p : Project) (ps : List Project) (r : Service)
      → mark_if now (any (absent gs (round p r)) ps) (round p r)
        ≡ mark_if now (any (absent gs r) (p ∷ ps)) r
  unfolding gone_row
  rounds p ps r =
      by_cases
        (λ b.
          mark_if now (any (absent gs (mark_if now b r)) ps) (mark_if now b r)
          ≡ mark_if now (if b then true else any (absent gs r) ps) r)
        (absent gs r p)
        (λ _.
          by_cases (λ c. mark_if now c (gone_row now r) ≡ gone_row now r)
            (any (absent gs (gone_row now r)) ps) (λ _. gone_twice now r) (λ _. refl))
        (λ _. refl)
