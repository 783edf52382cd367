-- ===== src/Job/Standalone/Swap/Closes.antt =====
-- The order of the calls in the swap of internal/job/standalone.go.
use dockbrr.Common.{
  ◌≡◌, refl, true, Option, none, some, List, [], ◌∷◌, ◌++◌, inl, inr, All-append, Text, text_eq,
  if◌then◌else◌, by_cases,
}
use dockbrr.Common.Automaton.{Leads-append}
use dockbrr.Job.Health.{Verdict, healthy, down, timed_out}
use dockbrr.Job.Effects.{Answer, good, bad, Answer-cases}
use dockbrr.Job.Standalone.{
  World, leftover, recreating, Reason, health_gate, recreate_failed, Effect, stop, remove, aside,
  worked,
}
use dockbrr.Job.Standalone.Protocol.{pulled, closed, next, Closes, is_docker, Docker, Docker-stays}
use dockbrr.Job.Standalone.Swap.{
  Recreated, recreated, not_recreated, clear_holder, clear_name_conflict, start_created,
  create_renamed, rename_stopped, stop_cleared, recreate, drop_new, restore_old, single_gate,
  gate_new, after_recreate, swap,
}

module _ (w : World) where
  clear_holder-Docker : (keep : Text) (a : Answer (Option Text)) → Docker (clear_holder w keep a)
  unfolding clear_holder
  clear_holder-Docker keep (bad e) = tt
  clear_holder-Docker keep (good none) = tt
  clear_holder-Docker keep (good (some i)) =
      by_cases
        (λ b. Docker (
          if b
          then []
          else stop i (worked (w.container_stop leftover i))
            ∷ remove i (worked (w.container_remove leftover i))
            ∷ []))
        (text_eq i keep) (λ _. tt) (λ _. (refl, (refl, tt)))

  start_created-Docker : (new : Text) → Docker (start_created w new).0
  unfolding start_created
  start_created-Docker new = elim (Answer-cases (w.container_start recreating new)) [
    | inl (_, e) ↦ rw (start_created, e) (refl, tt)
    | inr (_, e) ↦ rw (start_created, e) (refl, tt)
  ]

  create_renamed-Docker :
      (inspect image name : Text) → Docker (create_renamed w inspect image name).0
  unfolding create_renamed
  create_renamed-Docker inspect image name =
      elim (Answer-cases (w.create_from_inspect inspect image name)) [
        | inl (new, e) ↦ rw (create_renamed, e) (refl, start_created-Docker new)
        | inr (_, e) ↦ rw (create_renamed, e) (refl, tt)
      ]

  rename_stopped-Docker :
      (old inspect image name : Text) → Docker (rename_stopped w old inspect image name).0
  unfolding rename_stopped
  rename_stopped-Docker old inspect image name =
      elim (Answer-cases (w.container_rename old (aside name))) [
        | inl (_, e) ↦ rw (rename_stopped, e) (refl, create_renamed-Docker inspect image name)
        | inr (_, e) ↦ rw (rename_stopped, e) (refl, tt)
      ]

  stop_cleared-Docker :
      (old inspect image name : Text) → Docker (stop_cleared w old inspect image name).0
  unfolding stop_cleared
  stop_cleared-Docker old inspect image name =
      elim (Answer-cases (w.container_stop recreating old)) [
        | inl (_, e) ↦ rw (stop_cleared, e) (refl, rename_stopped-Docker old inspect image name)
        | inr (_, e) ↦ rw (stop_cleared, e) (refl, tt)
      ]

  recreate-Docker : (old inspect image name : Text) → Docker (recreate w old inspect image name).0
  unfolding recreate clear_name_conflict
  recreate-Docker old inspect image name =
      All-append (λ e. is_docker e ≡ true) (clear_name_conflict w (aside name) old) _
        (clear_holder-Docker old (w.id_by_name (aside name)))
        (All-append (λ e. is_docker e ≡ true) (clear_name_conflict w name old) _
          (clear_holder-Docker old (w.id_by_name name))
          (stop_cleared-Docker old inspect image name))

  drop_new-Docker : (new : Text) → Docker (drop_new w new)
  unfolding drop_new
  drop_new-Docker [] = tt
  drop_new-Docker (c ∷ new) = (refl, (refl, tt))

  restore_old-Docker : (old name new : Text) → Docker (restore_old w old name new)
  unfolding restore_old
  restore_old-Docker old name new =
      All-append (λ e. is_docker e ≡ true) (drop_new w new) _ (drop_new-Docker new)
        (refl, (refl, tt))

  -- Behind calls of the daemon.
  pub Docker-Closes :
      (es fs : List Effect) → Docker es → Closes pulled fs → Closes pulled (es ++ fs)
  Docker-Closes es fs h k = Leads-append next pulled pulled closed es fs (Docker-stays es h) k

  module _ (old name : Text) (gating : List Effect) (quiet : Docker gating)
      (failing : Reason → List Effect) (fails : (r : Reason) → Closes pulled (failing r))
      (closing : Text → List Effect) (closes : (new : Text) → Closes pulled (closing new)) where
    gate_new-Closes : (new : Text) → Closes pulled (gate_new w old name failing closing new)
    unfolding gate_new
    gate_new-Closes new = go (single_gate w.inspect new w.polls 0) refl
      where
        go :
            (v : Verdict)
            → single_gate w.inspect new w.polls 0 ≡ v
            → Closes pulled (gate_new w old name failing closing new)
        go healthy e = rw (gate_new, e) (closes new)
        go timed_out e =
            rw (gate_new, e)
              (Docker-Closes (restore_old w old name new) _ (restore_old-Docker old name new)
                (fails (health_gate timed_out)))
        go (down i st) e =
            rw (gate_new, e)
              (Docker-Closes (restore_old w old name new) _ (restore_old-Docker old name new)
                (fails (health_gate (down i st))))

    after_recreate-Closes :
        (r : Recreated) → Closes pulled (after_recreate w old name gating failing closing r)
    unfolding after_recreate
    after_recreate-Closes (not_recreated new e) =
        Docker-Closes (restore_old w old name new) _ (restore_old-Docker old name new)
          (fails (recreate_failed e))
    after_recreate-Closes (recreated new) = Docker-Closes gating _ quiet (gate_new-Closes new)

    -- The swap keeps to the order, if what follows it does.
    pub swap-Closes :
        (inspect image : Text)
        → Closes pulled (swap w old inspect image name gating failing closing)
    unfolding swap
    swap-Closes inspect image =
        let r = recreate w old inspect image name in
        Docker-Closes r.0 _ (recreate-Docker old inspect image name) (after_recreate-Closes r.1)
