-- ===== src/Discovery/Reconcile/Deletes.antt =====
-- The steps of the pass that prunes (internal/discovery/discovery.go): what they keep, what they delete.
use dockbrr.Common.{
  ◌≡◌, refl, ℕ, Bool, true, false, List, [], ◌∷◌, In, here, there, All, All-In, All-intro, All-self,
  All-filter, filter-holds, In-filter, filter, by_cases, if◌then◌else◌, arith,
}
use dockbrr.Common.Sort.{sort_by, All-sort_by, All-of_sort_by}
use dockbrr.Store.Services.{Service, list_by_project, delete, of_project, has_id, other_id, by_name}
use dockbrr.Store.Services
use dockbrr.Store.Projects.{Project}
use dockbrr.Discovery.Reconcile.{
  Cycle, is_discovered, is_stale, delete_if_stale, delete_stale, outside, delete_project, is_empty,
  delete_if_empty, prune_project, prune_all,
}

abbrev pub rows_of : Cycle → List Service
rows_of c = c.services.rows

pub In-sort_by :
    {A : Type 0} (before : A → A → Bool) (xs : List A) (x : A) → In x xs → In x (sort_by before xs)
In-sort_by before xs x m =
    All-In (λ y. In y (sort_by before xs))
      (All-of_sort_by before (λ y. In y (sort_by before xs)) xs (All-self (sort_by before xs))) m

pub In-of_sort_by :
    {A : Type 0} (before : A → A → Bool) (xs : List A) (x : A) → In x (sort_by before xs) → In x xs
In-of_sort_by before xs x m =
    All-In (λ y. In y xs) (All-sort_by before (λ y. In y xs) xs (All-self xs)) m

-- The rows of a project are those that are listed.
pub In-list_by_project :
    (pid : ℕ) (t : Services.Table) (r : Service)
    → In r t.rows
    → of_project pid r ≡ true
    → In r (list_by_project pid t)
unfolding list_by_project
In-list_by_project pid t r m h =
    In-sort_by by_name (filter (of_project pid) t.rows) r (In-filter (of_project pid) r t.rows h m)

pub list_by_project-In :
    (pid : ℕ) (t : Services.Table) (r : Service)
    → In r (list_by_project pid t)
    → In r t.rows × (of_project pid r ≡ true)
unfolding list_by_project
list_by_project-In pid t r m =
    let k = In-of_sort_by by_name (filter (of_project pid) t.rows) r m in
    (
      All-In (λ x. In x t.rows)
          (All-filter (λ x. In x t.rows) (of_project pid) t.rows (All-self t.rows)) k,
      All-In (λ x. of_project pid x ≡ true) (filter-holds (of_project pid) t.rows) k,
    )

module _ (cutoff : ℕ) where
  -- Nothing is added.
  pub delete_if_stale-All {κ} :
      (P : Service → Type κ) (sv : Service) (c : Cycle)
      → All P (rows_of c)
      → All P (rows_of (delete_if_stale cutoff sv c))
  unfolding delete_if_stale delete
  delete_if_stale-All P sv c a =
      by_cases
        (λ b. All P (
          rows_of
            (if b then record c { services = delete sv.id c.services; changed = true } else c)))
        (is_stale cutoff sv) (λ _. All-filter P (other_id sv.id) (rows_of c) a) (λ _. a)

  pub delete_stale-All {κ} :
      (P : Service → Type κ) (svs : List Service) (c : Cycle)
      → All P (rows_of c)
      → All P (rows_of (delete_stale cutoff svs c))
  unfolding delete_stale
  delete_stale-All P [] c a = a
  delete_stale-All P (sv ∷ svs) c a =
      delete_stale-All P svs (delete_if_stale cutoff sv c) (delete_if_stale-All P sv c a)

  pub delete_if_empty-All {κ} :
      (P : Service → Type κ) (pid : ℕ) (c : Cycle)
      → All P (rows_of c)
      → All P (rows_of (delete_if_empty pid c))
  unfolding delete_if_empty delete_project
  delete_if_empty-All P pid c a =
      by_cases (λ b. All P (rows_of (if b then delete_project pid c else c)))
        (is_empty (list_by_project pid c.services)) (λ _. All-filter P (outside pid) (rows_of c) a)
        (λ _. a)

  pub prune_project-All {κ} :
      (P : Service → Type κ) (p : Project) (c : Cycle)
      → All P (rows_of c)
      → All P (rows_of (prune_project cutoff p c))
  unfolding prune_project
  prune_project-All P p c a =
      by_cases
        (λ b. All P (
          rows_of (
            if b
            then delete_if_empty p.id (delete_stale cutoff (list_by_project p.id c.services) c)
            else c)))
        (is_discovered p)
        (λ _.
          delete_if_empty-All P p.id (delete_stale cutoff (list_by_project p.id c.services) c)
            (delete_stale-All P (list_by_project p.id c.services) c a))
        (λ _. a)

  pub prune_all-All {κ} :
      (P : Service → Type κ) (ps : List Project) (c : Cycle)
      → All P (rows_of c)
      → All P (rows_of (prune_all cutoff ps c))
  unfolding prune_all
  prune_all-All P [] c a = a
  prune_all-All P (p ∷ ps) c a =
      prune_all-All P ps (prune_project cutoff p c) (prune_project-All P p c a)

  -- The id of a stale row that is visited is not there any more.
  pub delete_if_stale-gone :
      (sv : Service) (c : Cycle)
      → is_stale cutoff sv ≡ true
      → All (λ r. has_id sv.id r ≡ false) (rows_of (delete_if_stale cutoff sv c))
  unfolding delete_if_stale delete
  delete_if_stale-gone sv c h = rw h (
      All-intro (λ r. has_id sv.id r ≡ false) (filter (other_id sv.id) (rows_of c))
        (λ r m.
          let k =
            All-In (λ x. other_id sv.id x ≡ true) (filter-holds (other_id sv.id) (rows_of c)) m in
          ground arith))

  pub delete_stale-gone :
      (svs : List Service) (c : Cycle) (sv : Service)
      → In sv svs
      → is_stale cutoff sv ≡ true
      → All (λ r. has_id sv.id r ≡ false) (rows_of (delete_stale cutoff svs c))
  unfolding delete_stale
  delete_stale-gone [] c sv m h = elim m [ ]
  delete_stale-gone (x ∷ svs) c sv here h =
      delete_stale-All (λ r. has_id sv.id r ≡ false) svs (delete_if_stale cutoff sv c)
        (delete_if_stale-gone sv c h)
  delete_stale-gone (x ∷ svs) c sv (there m) h =
      delete_stale-gone svs (delete_if_stale cutoff x c) sv m h

  -- A row whose id no stale row has stays.
  abbrev pub Spares : Service → List Service → Type 0
  Spares r svs = All (λ sv. is_stale cutoff sv ≡ true → has_id sv.id r ≡ false) svs

  pub delete_if_stale-In :
      (r sv : Service) (c : Cycle)
      → (is_stale cutoff sv ≡ true → has_id sv.id r ≡ false)
      → In r (rows_of c)
      → In r (rows_of (delete_if_stale cutoff sv c))
  unfolding delete_if_stale delete
  delete_if_stale-In r sv c h m =
      by_cases
        (λ b.
          (b ≡ true → has_id sv.id r ≡ false)
          → In r (
              rows_of
                (if b then record c { services = delete sv.id c.services; changed = true } else c)))
        (is_stale cutoff sv)
        (λ _ k. let e = k refl in In-filter (other_id sv.id) r (rows_of c) (ground arith) m)
        (λ _ _. m) h

  pub delete_stale-In :
      (r : Service) (svs : List Service) (c : Cycle)
      → Spares r svs
      → In r (rows_of c)
      → In r (rows_of (delete_stale cutoff svs c))
  unfolding delete_stale
  delete_stale-In r [] c h m = m
  delete_stale-In r (sv ∷ svs) c h m =
      delete_stale-In r svs (delete_if_stale cutoff sv c) h.1 (delete_if_stale-In r sv c h.0 m)
