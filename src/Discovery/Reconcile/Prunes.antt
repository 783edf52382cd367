-- ===== src/Discovery/Reconcile/Prunes.antt =====
-- What the pass that prunes deletes (internal/discovery/discovery.go).
use dockbrr.Common.{
  ◌≡◌, refl, sym, subst, ◌↔◌, ℕ, ==_iff, true, false, not, List, [], ◌∷◌, In, here, there, All,
  All-In, All-intro, All-self, All-map, In-filter, by_cases, if◌then◌else◌, arith,
}
use dockbrr.Common.Sort.{sort_by}
use dockbrr.Store.Services.{Service, list_by_project, delete, of_project, has_id, other_id, by_name}
use dockbrr.Store.Services
use dockbrr.Store.Projects.{Project}
use dockbrr.Store.Projects
use dockbrr.Discovery.Reconcile.{
  Cycle, is_discovered, is_stale, delete_stale, outside, delete_project, is_empty, delete_if_empty,
  prune_project, prune_all, prune,
}
use dockbrr.Discovery.Reconcile.Deletes.{
  rows_of, In-sort_by, In-of_sort_by, In-list_by_project, list_by_project-In, delete_stale-All,
  delete_if_empty-All, prune_project-All, prune_all-All, delete_stale-gone, delete_stale-In,
}

no_In : (rs : List Service) (r : Service) → is_empty rs ≡ true → In r rs → ⊥
no_In [] r e m = elim m [ ]
no_In (s ∷ rs) r e m = cc

In-one : (x p : Project) (ps : List Project) → In x (p ∷ []) → In x (p ∷ ps)
In-one x p ps here = here
In-one x p ps (there m) = elim m [ ]

module _ (cutoff : ℕ) where
  -- An empty list of rows of a project: no row is outside of what stays.
  In-outside :
      (pid : ℕ) (r : Service) (t : Services.Table)
      → is_empty (list_by_project pid t) ≡ true
      → In r t.rows
      → outside pid r ≡ true
  In-outside pid r t e m =
      by_cases (λ b. of_project pid r ≡ b → not b ≡ true) (of_project pid r)
        (λ h _. elim (no_In (list_by_project pid t) r e (In-list_by_project pid t r m h)) [ ])
        (λ _ _. refl) refl

  delete_if_empty-In :
      (r : Service) (pid : ℕ) (c : Cycle)
      → In r (rows_of c)
      → In r (rows_of (delete_if_empty pid c))
  unfolding delete_if_empty delete_project
  delete_if_empty-In r pid c m =
      by_cases (λ b. In r (rows_of (if b then delete_project pid c else c)))
        (is_empty (list_by_project pid c.services))
        (λ e. In-filter (outside pid) r (rows_of c) (In-outside pid r c.services e m) m) (λ _. m)

  -- A row whose project is discovered and that has been gone since before the cutoff.
  abbrev pub Doomed : List Project → Service → Type 0
  Doomed ps sv =
      (p : Project) × (In p ps
        × ((is_discovered p ≡ true) × ((of_project p.id sv ≡ true) × (is_stale cutoff sv ≡ true))))

  -- A row whose id no doomed row has.
  abbrev Safe : List Project → Service → List Service → Type 0
  Safe ps r rows = All (λ sv. Doomed ps sv → has_id sv.id r ≡ false) rows

  prune_project-In :
      (r : Service) (p : Project) (c : Cycle)
      → Safe (p ∷ []) r (rows_of c)
      → In r (rows_of c)
      → In r (rows_of (prune_project cutoff p c))
  unfolding prune_project
  prune_project-In r p c h m =
      by_cases
        (λ b. In r (
          rows_of (
            if b
            then delete_if_empty p.id (delete_stale cutoff (list_by_project p.id c.services) c)
            else c)))
        (is_discovered p)
        (λ d. delete_if_empty-In r p.id (delete_stale cutoff (list_by_project p.id c.services) c) (
          delete_stale-In cutoff r (list_by_project p.id c.services) c
            (All-intro (λ sv. is_stale cutoff sv ≡ true → has_id sv.id r ≡ false)
              (list_by_project p.id c.services)
              (λ sv k stale.
                let at = list_by_project-In p.id c.services sv k in
                All-In (λ s. Doomed (p ∷ []) s → has_id s.id r ≡ false) h at.0
                  (p, (here, (d, (at.1, stale))))))
            m))
        (λ _. m)

  prune_all-In :
      (r : Service) (ps : List Project) (c : Cycle)
      → Safe ps r (rows_of c)
      → In r (rows_of c)
      → In r (rows_of (prune_all cutoff ps c))
  unfolding prune_all
  prune_all-In r [] c h m = m
  prune_all-In r (p ∷ ps) c h m =
      prune_all-In r ps (prune_project cutoff p c)
        (prune_project-All cutoff (λ sv. Doomed ps sv → has_id sv.id r ≡ false) p c
          (All-map (λ sv. Doomed (p ∷ ps) sv → has_id sv.id r ≡ false)
            (λ sv. Doomed ps sv → has_id sv.id r ≡ false) (rows_of c)
            (λ sv k d. k (d.0, (there d.1.0, d.1.1))) h))
        (prune_project-In r p c
          (All-map (λ sv. Doomed (p ∷ ps) sv → has_id sv.id r ≡ false)
            (λ sv. Doomed (p ∷ []) sv → has_id sv.id r ≡ false) (rows_of c)
            (λ sv k d. k (d.0, (In-one d.0 p ps d.1.0, d.1.1))) h)
          m)

  -- No stale row of the project is left.
  abbrev Clean : Project → List Service → Type 0
  Clean p rows = All (λ r. of_project p.id r ≡ true → is_stale cutoff r ≡ false) rows

  swept-Clean :
      (p : Project) (c : Cycle)
      → Clean p (rows_of (delete_stale cutoff (list_by_project p.id c.services) c))
  swept-Clean p c =
      let after = delete_stale cutoff (list_by_project p.id c.services) c in
      All-intro (λ r. of_project p.id r ≡ true → is_stale cutoff r ≡ false) (rows_of after)
        (λ r m own.
          let before =
            All-In (λ x. In x (rows_of c))
              (delete_stale-All cutoff (λ x. In x (rows_of c)) (list_by_project p.id c.services) c
                (All-self (rows_of c)))
              m in
          by_cases (λ b. is_stale cutoff r ≡ b → b ≡ false) (is_stale cutoff r)
            (λ h _.
              let gone =
                All-In (λ x. has_id r.id x ≡ false)
                  (delete_stale-gone cutoff (list_by_project p.id c.services) c r
                    (In-list_by_project p.id c.services r before own) h)
                  m in
              ground arith)
            (λ _ _. refl) refl)

  prune_project-Clean :
      (p : Project) (c : Cycle)
      → is_discovered p ≡ true
      → Clean p (rows_of (prune_project cutoff p c))
  unfolding prune_project
  prune_project-Clean p c h = rw h (
      delete_if_empty-All cutoff (λ r. of_project p.id r ≡ true → is_stale cutoff r ≡ false) p.id
        (delete_stale cutoff (list_by_project p.id c.services) c) (swept-Clean p c))

  prune_all-Clean :
      (p : Project) (ps : List Project) (c : Cycle)
      → In p ps
      → is_discovered p ≡ true
      → Clean p (rows_of (prune_all cutoff ps c))
  unfolding prune_all
  prune_all-Clean p [] c m h = elim m [ ]
  prune_all-Clean p (q ∷ ps) c here h =
      prune_all-All cutoff (λ r. of_project p.id r ≡ true → is_stale cutoff r ≡ false) ps
        (prune_project cutoff p c) (prune_project-Clean p c h)
  prune_all-Clean p (q ∷ ps) c (there m) h = prune_all-Clean p ps (prune_project cutoff q c) m h

-- An id is that of one row.
abbrev pub UniqueIds : List Service → Type 0
UniqueIds rows = (r s : Service) → In r rows → In s rows → r.id ≡ s.id → r ≡ s

-- Where no two services share their id, a stored service is there after the pass that prunes, whatever
-- the tables hold, exactly if it is not one that belongs to a stored project of source `discovered`, is
-- in the state `gone`, and went there before the cutoff.
pub prune-In :
    (cutoff : ℕ) (c : Cycle) (r : Service)
    → UniqueIds c.services.rows
    → In r c.services.rows
    → In r (prune cutoff c).services.rows ↔ ((Doomed cutoff c.projects.rows r) → ⊥)
unfolding prune Projects.list
prune-In cutoff c r unique m =
    let ps = sort_by Projects.by_name c.projects.rows in
    (
      (λ kept d.
          let found = In-sort_by Projects.by_name c.projects.rows d.0 d.1.0 in
          let clean =
            All-In (λ x. of_project d.0.id x ≡ true → is_stale cutoff x ≡ false)
              (prune_all-Clean cutoff d.0 ps c found d.1.1.0) kept d.1.1.1.0 in
          cc (clean, d.1.1.1.1)),
      (λ spared.
          prune_all-In cutoff r ps c
            (All-intro (λ sv. Doomed cutoff ps sv → has_id sv.id r ≡ false) (rows_of c)
              (λ sv k d.
                by_cases (λ b. has_id sv.id r ≡ b → b ≡ false) (has_id sv.id r)
                  (λ h _.
                    let same : r ≡ sv = unique r sv m k ((==_iff r.id sv.id).0 h) in
                    elim (spared (
                      subst (λ x. Doomed cutoff c.projects.rows x) (sym same)
                        (
                          d.0,
                          (In-of_sort_by Projects.by_name c.projects.rows d.0 d.1.0, d.1.1),
                        ))) [ ])
                  (λ _ _. refl) refl))
            m),
    )
