-- ===== src/Job/Rollback/Restores.antt =====
-- `runRollback` of internal/job/worker.go: what is restored before compose runs.
use dockbrr.Common.{
  ◌≡◌, refl, sym, subst, ℕ, Option, none, some, List, [], ◌∷◌, ◌++◌, Text, bytes, text_eq,
  text_eq_iff, Bool-cases, inl, inr,
}
use dockbrr.Store.Jobs.Defs.{Scope}
use dockbrr.Job.Effects.{
  good, Service, Project, Blob, Snapshot, World, Effect, Reason, emit, event, finish,
  insert_snapshot, remove_override, set_status, mark_applied, mark_rolled_back, update_runtime,
  create_override, write_file, compose, Answer-cases, no_service, load_service, load_project,
  no_snapshot, no_previous_digest, restore_compose, write_override,
}
use dockbrr.Job.Effects.Protocol.{snapped, Closes}
use dockbrr.Job.Steps.{fail, override_content}
use dockbrr.Job.Rollback.{repin, restore, revert, rollback_from, rollback_loaded, run_rollback}
use dockbrr.Job.Rollback.Finishes.{run_rollback-Closes}

-- The job is for the service, and the snapshot is its latest.
abbrev pub Latest : World → Option ℕ → Service → Snapshot → Type 0
Latest w target svc snap =
    ((id : ℕ) × (target ≡ some id) × (w.get_service id ≡ good svc))
    × (w.latest_snapshot svc.id ≡ good snap)

-- The compose file that the latest snapshot carries.
abbrev pub Carried : World → Option ℕ → Text → Text → Type 0
Carried w target path content =
    (svc : Service) × (snap : Snapshot) × Latest w target svc snap
    × (snap.blob ≡ some (record { path = path; content = content }))

abbrev pub Blobless : Option Blob → Type 0
Blobless none = Unit
Blobless (some b) = b.path ≡ []

-- An override that pins the service to the digest of the latest snapshot, which carries no file.
abbrev pub Pinned : World → Option ℕ → Text → Type 0
Pinned w target content =
    (svc : Service) × (snap : Snapshot) × Latest w target svc snap
    × Blobless snap.blob
    × (content
        ≡ bytes "services:\n  "
          ++ (svc.name
              ++ (bytes ":\n    image: "
                  ++ ((snap.prev_repo ++ (b'@' ∷ snap.prev_digest)) ++ bytes "\n"))))

-- Before any run of compose the file of the snapshot is written, or the override is; no other file is
-- written first.
abbrev pub Restored : World → Option ℕ → List Effect → Type 0
Restored w target [] = Unit
Restored w target (write_file path content ∷ es) = Carried w target path content
Restored w target (create_override path content ∷ es) = Pinned w target content
Restored w target (compose spec ok ∷ es) = ⊥
Restored w target (emit n ∷ es) = Restored w target es
Restored w target (event i k from to ∷ es) = Restored w target es
Restored w target (insert_snapshot i s h j ∷ es) = Restored w target es
Restored w target (remove_override p ∷ es) = Restored w target es
Restored w target (set_status i s ∷ es) = Restored w target es
Restored w target (mark_applied i ∷ es) = Restored w target es
Restored w target (mark_rolled_back i d ∷ es) = Restored w target es
Restored w target (update_runtime i ids d ∷ es) = Restored w target es
Restored w target (finish st code r ∷ es) = Restored w target es

fail-Restored : (w : World) (target : Option ℕ) (r : Reason) → Restored w target (fail r)
unfolding fail
fail-Restored w target r = tt

module _ (w : World) (target : Option ℕ) (svc : Service) (proj : Project) (scope : Scope)
    (snap : Snapshot) (latest : Latest w target svc snap) where
  repin-Restored : Blobless snap.blob → Restored w target (repin w svc proj scope snap)
  unfolding repin override_content text_eq
  repin-Restored none_there =
      let content = override_content svc.name snap.prev_repo [] snap.prev_digest in
      elim (Answer-cases (w.create_override proj.working_dir content)) [
        | inl (path, e) ↦ rw (repin, Restored, e) (svc, snap, latest, none_there, refl)
        | inr (x, e) ↦ rw (repin, Restored, e) (fail-Restored w target (write_override x))
      ]

  restore-Restored :
      (b : Blob) → snap.blob ≡ some b → Restored w target (restore w svc proj scope snap b)
  unfolding restore
  restore-Restored b h = elim (Answer-cases (w.write_file b.path b.content)) [
    | inl (x, e) ↦ rw (restore, Restored, e) (svc, snap, latest, h)
    | inr (x, e) ↦ rw (restore, Restored, e) (fail-Restored w target (restore_compose x))
  ]

  revert-Restored :
      (o : Option Blob) → snap.blob ≡ o → Restored w target (revert w svc proj scope snap o)
  unfolding revert
  revert-Restored none h = repin-Restored (subst Blobless (sym h) tt)
  revert-Restored (some b) h = elim (Bool-cases (text_eq b.path [])) [
    | inl e ↦ rw (revert, e) (repin-Restored (subst Blobless (sym h) ((text_eq_iff b.path []).0 e)))
    | inr e ↦ rw (revert, e) (restore-Restored b h)
  ]

  rollback_from-Restored : Restored w target (rollback_from w svc proj scope snap)
  unfolding rollback_from
  rollback_from-Restored = elim (Bool-cases (text_eq snap.prev_digest [])) [
    | inl e ↦ rw (rollback_from, e) (fail-Restored w target no_previous_digest)
    | inr e ↦ rw (rollback_from, e) (revert-Restored snap.blob refl)
  ]

rollback_loaded-Restored :
    (w : World) (id : ℕ) (svc : Service) (scope : Scope)
    → w.get_service id ≡ good svc
    → Restored w (some id) (rollback_loaded w svc scope)
unfolding rollback_loaded
rollback_loaded-Restored w id svc scope h = elim (Answer-cases (w.get_project svc.project_id)) [
  | inr (x, e) ↦ rw (rollback_loaded, e) (fail-Restored w (some id) (load_project x))
  | inl (proj, e) ↦ elim (Answer-cases (w.latest_snapshot svc.id)) [
    | inr (x, k) ↦ rw (rollback_loaded, e, k) (fail-Restored w (some id) (no_snapshot x))
    | inl (snap, k) ↦
        rw (rollback_loaded, e, k)
          (rollback_from-Restored w (some id) svc proj scope snap ((id, refl, h), k))
  ]
]

run_rollback-Restored :
    (w : World) (target : Option ℕ) (scope : Scope)
    → Restored w target (run_rollback w target scope)
unfolding run_rollback
run_rollback-Restored w none scope = fail-Restored w none no_service
run_rollback-Restored w (some id) scope = elim (Answer-cases (w.get_service id)) [
  | inr (x, e) ↦ rw (run_rollback, e) (fail-Restored w (some id) (load_service x))
  | inl (svc, e) ↦ rw (run_rollback, e) (rollback_loaded-Restored w id svc scope e)
]

-- Whatever the world answers, the effects of a rollback are in the order of the protocol: a pull with
-- exit code 0 precedes the `up`, no file is written behind the pull, the update is marked rolled back
-- only with the containers up, and the job gets exactly one terminal result. And before any run of
-- compose either the compose file that the service's latest snapshot carries is written, with the
-- content that the snapshot has, or, if it carries none with a path, an override that pins the service to
-- the snapshot's digest.
pub run_rollback_lem :
    (w : World) (target : Option ℕ) (scope : Scope)
    → Closes snapped (run_rollback w target scope) × Restored w target (run_rollback w target scope)
run_rollback_lem w target scope =
    (run_rollback-Closes w target scope, run_rollback-Restored w target scope)
