-- ===== src/Job/Standalone/Swap/Outcome.antt =====
-- What the swap of internal/job/standalone.go comes to for the container that it replaces.
use dockbrr.Common.{
  ◌≡◌, refl, ap, ◌∙◌, ◌≢◌, ◌⊎◌, inl, inr, Bool, true, false, List, [], ◌∷◌, ◌++◌, any, Text,
  text_eq, text_eq_iff, Bool-cases, arith,
}
use dockbrr.Store.Jobs.Defs as JobDefs
use dockbrr.Job.Health.{Verdict, healthy, down, timed_out}
use dockbrr.Job.Effects.{good, Answer-cases}
use dockbrr.Job.Standalone.{
  World, recreating, restoring, Reason, health_gate, recreate_failed, Effect, finish, aside,
}
use dockbrr.Job.Standalone.Swap.{
  Recreated, recreated, not_recreated, start_created, create_renamed, rename_stopped, stop_cleared,
  recreate, drop_new, restore_old, single_gate, gate_new, after_recreate, swap,
}
use dockbrr.Job.Standalone.Swap.Tracked.{
  placed, track, track-append, Untouched, recreate-Kept, drop_new-Untouched, restore_old-Home,
}

-- The recorded success of the job.
abbrev pub is_success : Effect → Bool
is_success (finish JobDefs.success code r) = true
is_success _ = false

abbrev pub has_success : List Effect → Bool
has_success = any is_success

-- Either the job succeeds, or the container runs under its name at the end as it did at the start.
abbrev pub Safe : Text → Text → List Effect → Type 0
Safe id name es = (has_success es ≡ true) ⊎ (track id es (placed name true) ≡ placed name true)

pub any-append {ℓ} :
    {A : Type ℓ} (p : A → Bool) (xs ys : List A) → any p ys ≡ true → any p (xs ++ ys) ≡ true
any-append p [] ys h = h
any-append p (x ∷ xs) ys h = ground (arith, any-append p xs ys h)

-- Effects that leave the container alone may come first.
pub Safe-append :
    (id name : Text) (es fs : List Effect)
    → Untouched id es
    → Safe id name fs
    → Safe id name (es ++ fs)
Safe-append id name es fs h (inl k) = inl (any-append is_success es fs k)
Safe-append id name es fs h (inr k) =
    inr (track-append id es fs (placed name true) ∙ ap (track id fs) (h (placed name true)) ∙ k)

pub Untouched-Safe : (id name : Text) (es : List Effect) → Untouched id es → Safe id name es
Untouched-Safe id name es h = inr (h (placed name true))

module _ (w : World) (id name : Text) where
  -- The daemon gives a new container an id of its own.
  abbrev pub Fresh : Type 0
  Fresh =
      (inspect image : Text) (new : Text)
      → w.create_from_inspect inspect image name ≡ good new
      → new ≢ id

  -- The new container of an outcome is another one.
  abbrev Other : Recreated → Type 0
  Other (recreated new) = Untouched id (drop_new w new)
  Other (not_recreated new e) = Untouched id (drop_new w new)

  differs : (new : Text) → new ≢ id → text_eq new id ≡ false
  differs new h = elim (Bool-cases (text_eq new id)) [
    | inl e ↦ absurd (h ((text_eq_iff new id).0 e))
    | inr e ↦ e
  ]

  no_new-Other : Untouched id (drop_new w [])
  unfolding drop_new track
  no_new-Other p = refl

  start_created-Other : (new : Text) → new ≢ id → Other (start_created w new).1
  unfolding start_created
  start_created-Other new h =
      let other = drop_new-Untouched w id new (differs new h) in
      elim (Answer-cases (w.container_start recreating new)) [
        | inl (_, e) ↦ rw (start_created, e) other
        | inr (_, e) ↦ rw (start_created, e) other
      ]

  create_renamed-Other :
      Fresh → (inspect image : Text) → Other (create_renamed w inspect image name).1
  unfolding create_renamed
  create_renamed-Other fresh inspect image =
      elim (Answer-cases (w.create_from_inspect inspect image name)) [
        | inl (new, e) ↦
            rw (create_renamed, e) (start_created-Other new (fresh inspect image new e))
        | inr (_, e) ↦ rw (create_renamed, e) no_new-Other
      ]

  rename_stopped-Other :
      Fresh → (inspect image : Text) → Other (rename_stopped w id inspect image name).1
  unfolding rename_stopped
  rename_stopped-Other fresh inspect image =
      elim (Answer-cases (w.container_rename id (aside name))) [
        | inl (_, e) ↦ rw (rename_stopped, e) (create_renamed-Other fresh inspect image)
        | inr (_, e) ↦ rw (rename_stopped, e) no_new-Other
      ]

  stop_cleared-Other :
      Fresh → (inspect image : Text) → Other (stop_cleared w id inspect image name).1
  unfolding stop_cleared
  stop_cleared-Other fresh inspect image = elim (Answer-cases (w.container_stop recreating id)) [
    | inl (_, e) ↦ rw (stop_cleared, e) (rename_stopped-Other fresh inspect image)
    | inr (_, e) ↦ rw (stop_cleared, e) no_new-Other
  ]

  recreate-Other : Fresh → (inspect image : Text) → Other (recreate w id inspect image name).1
  unfolding recreate
  recreate-Other fresh inspect image = stop_cleared-Other fresh inspect image

  module _ (renamed : w.container_rename id name ≡ good tt)
      (started : w.container_start restoring id ≡ good tt) (gating : List Effect)
      (quiet : Untouched id gating) (failing : Reason → List Effect)
      (apart : (r : Reason) → Untouched id (failing r)) (closing : Text → List Effect)
      (closes : (new : Text) → has_success (closing new) ≡ true) where
    -- From a place on, the job succeeds or the container ends under its name.
    abbrev Ends : List Effect → Type 0
    Ends es =
        (n : Text) (b : Bool)
        → (has_success es ≡ true) ⊎ (track id es (placed n b) ≡ placed name true)

    restore-Ends :
        (new : Text) (r : Reason)
        → Untouched id (drop_new w new)
        → Ends (restore_old w id name new ++ failing r)
    restore-Ends new r other n b = inr (
        track-append id (restore_old w id name new) (failing r) (placed n b)
        ∙ ap (track id (failing r)) (restore_old-Home w id name new n b other renamed started)
        ∙ apart r (placed name true))

    gate_new-Ends :
        (new : Text) → Untouched id (drop_new w new) → Ends (gate_new w id name failing closing new)
    unfolding gate_new
    gate_new-Ends new other n b = go (single_gate w.inspect new w.polls 0) refl
      where
        go :
            (v : Verdict)
            → single_gate w.inspect new w.polls 0 ≡ v
            → (has_success (gate_new w id name failing closing new) ≡ true)
              ⊎ (track id (gate_new w id name failing closing new) (placed n b) ≡ placed name true)
        go healthy e = inl (rw (gate_new, e) (closes new))
        go timed_out e = rw (gate_new, e) (restore-Ends new (health_gate timed_out) other n b)
        go (down i st) e = rw (gate_new, e) (restore-Ends new (health_gate (down i st)) other n b)

    after_recreate-Ends :
        (r : Recreated) → Other r → Ends (after_recreate w id name gating failing closing r)
    unfolding after_recreate
    after_recreate-Ends (not_recreated new e) other n b =
        restore-Ends new (recreate_failed e) other n b
    after_recreate-Ends (recreated new) other n b = elim (gate_new-Ends new other n b) [
      | inl k ↦ inl (any-append is_success gating _ k)
      | inr k ↦ inr (
          track-append id gating _ (placed n b)
          ∙ ap (track id (gate_new w id name failing closing new)) (quiet (placed n b))
          ∙ k)
    ]

    -- The swap succeeds, or it ends with the container running under its name.
    pub swap-Safe :
        Fresh
        → (inspect image : Text)
        → Safe id name (swap w id inspect image name gating failing closing)
    unfolding swap
    swap-Safe fresh inspect image =
        let r = recreate w id inspect image name in
        let at = recreate-Kept w id inspect image name name true in
        elim (after_recreate-Ends r.1 (recreate-Other fresh inspect image) at.0 at.1) [
          | inl k ↦ inl (any-append is_success r.0 _ k)
          | inr k ↦ inr (
              track-append id r.0 _ (placed name true)
              ∙ ap (track id (after_recreate w id name gating failing closing r.1)) at.2
              ∙ k)
        ]
