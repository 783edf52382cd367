-- ===== src/Discovery/Reconcile/Refresh/Owned.antt =====
-- The rows of the manual projects belong to the user (internal/discovery/discovery.go).
use dockbrr.Common.{
  ◌≡◌, refl, ap, subst, ◌∙◌, ◌≢◌, ℕ, Bool, true, false, not, ◌&&◌, Option, none, some, List, [],
  ◌∷◌, Text, text_eq, In, here, there, any, find, edit, by_cases, if◌then◌else◌, arith,
}
use dockbrr.Store.Projects.{Project, same_key, merged, set_unmanaged, set_auto_named, has_id}
use dockbrr.Store.Projects
use dockbrr.Discovery.DockerName.{is_docker_assigned}
use dockbrr.Discovery.Group.{DiscoveredProject}
use dockbrr.Discovery.Reconcile.{Cycle}
use dockbrr.Discovery.Reconcile.Deletes.{In-sort_by}
use dockbrr.Discovery.Reconcile.Refresh.{
  World, manual, manual_id, later_id, discovered_row, ensured, ensure_project, flag_unmanaged,
  flag_auto_named, has_files, is_compose, refresh_project, refresh_group, refresh_all,
}

-- The columns of a row but the two flags that every cycle computes again.
abbrev pub owned : Project → Project
owned p = record p { unmanaged = false; auto_named = false }

abbrev pub Keeps : Project → List Project → Type 0
Keeps p rows = (q : Project) × (In q rows × (owned q ≡ owned p))

In-edit :
    (test : Project → Bool) (f : Project → Project) (rows : List Project) (q : Project)
    → In q rows
    → In (if test q then f q else q) (edit test f rows)
In-edit test f [] q m = elim m [ ]
In-edit test f (x ∷ rows) q here = here
In-edit test f (x ∷ rows) q (there m) = there (In-edit test f rows q m)

edit-Keeps :
    (p : Project) (test : Project → Bool) (f : Project → Project) (rows : List Project)
    → ((q : Project) → owned q ≡ owned p → owned (if test q then f q else q) ≡ owned p)
    → Keeps p rows
    → Keeps p (edit test f rows)
edit-Keeps p test f rows h k =
    (if test k.0 then f k.0 else k.0, (In-edit test f rows k.0 k.1.0, h k.0 k.1.1))

-- An edit of the flags.
flags-Keeps :
    (p : Project) (test : Project → Bool) (f : Project → Project) (rows : List Project)
    → ((q : Project) → owned (f q) ≡ owned q)
    → Keeps p rows
    → Keeps p (edit test f rows)
flags-Keeps p test f rows h =
    edit-Keeps p test f rows (λ q e.
      by_cases (λ b. owned (if b then f q else q) ≡ owned p) (test q) (λ _. h q ∙ e) (λ _. e))

flag_unmanaged-Keeps :
    (w : World) (g : DiscoveredProject) (pid : ℕ) (t : Projects.Table) (p : Project)
    → Keeps p t.rows
    → Keeps p (flag_unmanaged w g pid t).rows
unfolding flag_unmanaged set_unmanaged
flag_unmanaged-Keeps w g pid t p k =
    let b = any (λ f. not (w.is_readable f)) g.config_files in
    by_cases (λ c. Keeps p (if c then set_unmanaged pid b t else t).rows) (has_files g)
      (λ _. flags-Keeps p (has_id pid) (λ r. record r { unmanaged = b }) t.rows (λ q. refl) k)
      (λ _. k)

flag_auto_named-Keeps :
    (w : World) (g : DiscoveredProject) (pid : ℕ) (t : Projects.Table) (p : Project)
    → Keeps p t.rows
    → Keeps p (flag_auto_named w g pid t).rows
unfolding flag_auto_named set_auto_named
flag_auto_named-Keeps w g pid t p k =
    flags-Keeps p (has_id pid)
      (λ r. record r {
        auto_named = not (is_compose g.kind) && is_docker_assigned w.adjective w.surname g.name;
      })
      t.rows (λ q. refl) k

-- The write of a project of another name.
upserted-Keeps :
    (now : ℕ) (x : Project) (t : Projects.Table) (p : Project) (o : Option Project)
    → text_eq p.name x.name ≡ false
    → Keeps p t.rows
    → Keeps p (Projects.upserted now x t o).1.rows
unfolding Projects.upserted
upserted-Keeps now x t p none h k = (k.0, (there k.1.0, k.1.1))
upserted-Keeps now x t p (some r) h k =
    edit-Keeps p (same_key x) (merged x) t.rows
      (λ q e.
        let n : text_eq q.name x.name ≡ false = ap (λ r. text_eq r.name x.name) e ∙ h in
        let other : same_key x q ≡ false = ground arith in rw other e)
      k

later_id-some : (o : Option ℕ) (id : ℕ) → later_id o id ≢ none
later_id-some none id e = cc
later_id-some (some k) id e = cc

-- A name that no manual project has.
manual_id-none :
    (n : Text) (stored : List Project) (p : Project)
    → In p stored
    → text_eq p.source manual ≡ true
    → manual_id n stored ≡ none
    → text_eq p.name n ≡ false
unfolding manual_id
manual_id-none n [] p m h e = elim m [ ]
manual_id-none n (x ∷ stored) p here h e =
    by_cases
      (λ b.
        (if text_eq x.source manual && b
            then later_id (manual_id n stored) x.id
            else manual_id n stored)
          ≡ none
        → b ≡ false)
      (text_eq x.name n)
      (λ _ k.
        elim (later_id-some (manual_id n stored) x.id (
          subst
            (λ c.
              (if c && true then later_id (manual_id n stored) x.id else manual_id n stored) ≡ none)
            h k)) [ ])
      (λ _ _. refl) e
manual_id-none n (x ∷ stored) p (there m) h e = manual_id-none n stored p m h (
    by_cases
      (λ b.
        (if b then later_id (manual_id n stored) x.id else manual_id n stored) ≡ none
        → manual_id n stored ≡ none)
      (text_eq x.source manual && text_eq x.name n)
      (λ _ k. elim (later_id-some (manual_id n stored) x.id k) [ ]) (λ _ k. k) e)

module _ (w : World) (stored : List Project) (p : Project) (m : In p stored)
    (is_manual : text_eq p.source manual ≡ true) where
  ensured-Keeps :
      (g : DiscoveredProject) (t : Projects.Table) (o : Option ℕ)
      → manual_id g.name stored ≡ o
      → Keeps p t.rows
      → Keeps p (ensured w g t o).1.rows
  unfolding ensured Projects.upsert discovered_row
  ensured-Keeps g t (some id) e k = k
  ensured-Keeps g t none e k =
      let x = discovered_row w g in
      upserted-Keeps w.now x t p (find (same_key x) t.rows)
        (manual_id-none g.name stored p m is_manual e) k

  refresh_group-Keeps :
      (g : DiscoveredProject) (c : Cycle)
      → Keeps p c.projects.rows
      → Keeps p (refresh_group w stored g c).projects.rows
  unfolding refresh_group refresh_project ensure_project
  refresh_group-Keeps g c k =
      let at = ensure_project w stored g c.projects in
      flag_auto_named-Keeps w g at.0 (flag_unmanaged w g at.0 at.1) p (
        flag_unmanaged-Keeps w g at.0 at.1 p
          (ensured-Keeps g c.projects (manual_id g.name stored) refl k))

  refresh_all-Keeps :
      (gs : List DiscoveredProject) (c : Cycle)
      → Keeps p c.projects.rows
      → Keeps p (refresh_all w stored gs c).projects.rows
  unfolding refresh_all
  refresh_all-Keeps [] c k = k
  refresh_all-Keeps (g ∷ gs) c k =
      refresh_all-Keeps gs (refresh_group w stored g c) (refresh_group-Keeps g c k)

-- Whatever groups are found, the pass that writes the discovered projects leaves each stored row of
-- source `manual` as it is, in all its columns but the two flags `unmanaged` and `auto_named`.
pub refresh_all-owned :
    (w : World) (gs : List DiscoveredProject) (c : Cycle) (p : Project)
    → In p c.projects.rows
    → text_eq p.source manual ≡ true
    → Keeps p (refresh_all w (Projects.list c.projects) gs c).projects.rows
unfolding Projects.list
refresh_all-owned w gs c p m h =
    refresh_all-Keeps w (Projects.list c.projects) p
      (In-sort_by Projects.by_name c.projects.rows p m) h gs c (p, (m, refl))
