-- ===== src/Job/Standalone/Swap.antt =====
-- `clearNameConflict`, `recreate`, `restoreOld` and `healthGate` of internal/job/standalone.go, and
-- what `runApply` and `runRollback` do with them.
pub mod Gate
pub mod Tracked
pub mod Outcome
pub mod Closes
use dockbrr.Common.{
  ℕ, zero, suc, Bool, true, false, Option, none, some, List, [], ◌∷◌, ◌++◌, Text, text_eq,
  if◌then◌else◌,
}
use dockbrr.Job.Health.{ContainerStatus, is_down, is_ready, Verdict, healthy, down, timed_out}
use dockbrr.Job.Effects.{Answer, good, bad}
use dockbrr.Job.Standalone.{
  World, Use, leftover, recreating, restoring, Stuck, stop_old, rename_old, create_new, start_new,
  Reason, recreate_failed, health_gate, Effect, emit, health_gating, stop, start, remove, rename,
  create, worked, aside,
}

-- What `recreate` returns: the new id, or its error with the new id, "" if there is none.
pub data Recreated : Type 0 where
  recreated : Text → Recreated
  not_recreated : Text → Stuck → Recreated

-- `healthGate`: `polls` is how many times the poll timer fires before the timeout. A container that
-- cannot be inspected is asked again.
unfoldable pub single_gate : (ℕ → Text → Option ContainerStatus) → Text → ℕ → ℕ → Verdict
unfolding is_down is_ready
single_gate inspect id zero n = elim (inspect n id) [
  | none ↦ timed_out
  | some st ↦ if is_down st then down id st else if is_ready st then healthy else timed_out
]
single_gate inspect id (suc polls) n =
    let later = single_gate inspect id polls (suc n) in
    elim (inspect n id) [
      | none ↦ later
      | some st ↦ if is_down st then down id st else if is_ready st then healthy else later
    ]

module _ (w : World) where
  abbrev pub stops : Use → Text → Effect
  stops why id = stop id (worked (w.container_stop why id))

  abbrev pub starts : Use → Text → Effect
  starts why id = start id (worked (w.container_start why id))

  abbrev pub removes : Use → Text → Effect
  removes why id = remove id (worked (w.container_remove why id))

  abbrev pub renames : Text → Text → Effect
  renames id name = rename id name (worked (w.container_rename id name))

  -- `clearNameConflict`, once the name is looked up.
  unfoldable pub clear_holder : Text → Answer (Option Text) → List Effect
  clear_holder keep (bad e) = []
  clear_holder keep (good none) = []
  clear_holder keep (good (some id)) =
      if text_eq id keep then [] else stops leftover id ∷ removes leftover id ∷ []

  unfoldable pub clear_name_conflict : Text → Text → List Effect
  clear_name_conflict want keep = clear_holder keep (w.id_by_name want)

  -- `recreate` behind the creation.
  unfoldable pub start_created : Text → List Effect × Recreated
  start_created new = elim (w.container_start recreating new) [
    | bad e ↦ (start new false ∷ [], not_recreated new (start_new e))
    | good _ ↦ (start new true ∷ [], recreated new)
  ]

  -- `recreate` behind the rename.
  unfoldable pub create_renamed : Text → Text → Text → List Effect × Recreated
  create_renamed inspect image name = elim (w.create_from_inspect inspect image name) [
    | bad e ↦ (create inspect image name none ∷ [], not_recreated [] (create_new e))
    | good new ↦
        let rest = start_created new in (create inspect image name (some new) ∷ rest.0, rest.1)
  ]

  -- `recreate` behind the stop.
  unfoldable pub rename_stopped : Text → Text → Text → Text → List Effect × Recreated
  rename_stopped old inspect image name = elim (w.container_rename old (aside name)) [
    | bad e ↦ (rename old (aside name) false ∷ [], not_recreated [] (rename_old e))
    | good _ ↦
        let rest = create_renamed inspect image name in
        (rename old (aside name) true ∷ rest.0, rest.1)
  ]

  -- `recreate` behind the two calls of `clearNameConflict`.
  unfoldable pub stop_cleared : Text → Text → Text → Text → List Effect × Recreated
  stop_cleared old inspect image name = elim (w.container_stop recreating old) [
    | bad e ↦ (stop old false ∷ [], not_recreated [] (stop_old e))
    | good _ ↦ let rest = rename_stopped old inspect image name in (stop old true ∷ rest.0, rest.1)
  ]

  -- `recreate`.
  unfoldable pub recreate : Text → Text → Text → Text → List Effect × Recreated
  recreate old inspect image name =
      let rest = stop_cleared old inspect image name in
      (clear_name_conflict (aside name) old ++ (clear_name_conflict name old ++ rest.0), rest.1)

  -- The new container goes, if there is one.
  unfoldable pub drop_new : Text → List Effect
  drop_new [] = []
  drop_new (c ∷ new) = stops restoring (c ∷ new) ∷ removes restoring (c ∷ new) ∷ []

  -- `restoreOld`.
  unfoldable pub restore_old : Text → Text → Text → List Effect
  restore_old old name new = drop_new new ++ (renames old name ∷ starts restoring old ∷ [])

  -- The gate and what follows it; a failure puts the old container back first.
  unfoldable pub gate_new :
      Text → Text → (Reason → List Effect) → (Text → List Effect) → Text → List Effect
  unfolding single_gate
  gate_new old name failing closing new = elim (single_gate w.inspect new w.polls 0) [
    | healthy ↦ closing new
    | timed_out ↦ restore_old old name new ++ failing (health_gate timed_out)
    | down id st ↦ restore_old old name new ++ failing (health_gate (down id st))
  ]

  unfoldable pub after_recreate :
      Text
      → Text
      → List Effect
      → (Reason → List Effect)
      → (Text → List Effect)
      → Recreated
      → List Effect
  after_recreate old name gating failing closing (not_recreated new e) =
      restore_old old name new ++ failing (recreate_failed e)
  after_recreate old name gating failing closing (recreated new) =
      gating ++ gate_new old name failing closing new

  -- From `recreate` on: `gating` is what is told before the gate, `failing` and `closing` are how the
  -- handler ends.
  unfoldable pub swap :
      Text
      → Text
      → Text
      → Text
      → List Effect
      → (Reason → List Effect)
      → (Text → List Effect)
      → List Effect
  swap old inspect image name gating failing closing =
      let r = recreate old inspect image name in
      r.0 ++ after_recreate old name gating failing closing r.1
