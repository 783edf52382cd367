-- ===== src/Job/Lifecycle/Guard.antt =====
-- What guards a removal in internal/job/lifecycle.go.
use dockbrr.Common.{
  ◌≡◌, ◌⊎◌, refl, sym, ◌∙◌, subst, ℕ, Bool, true, false, not, Option, none, some, List, [], ◌∷◌,
  ◌++◌, All, any, Text, bytes, text_eq, text_eq_iff, if◌then◌else◌, arith, inl, inr, by_cases,
}
use dockbrr.Store.Jobs.Defs as JobDefs
use dockbrr.Store.Jobs.Defs.{JobType}
use dockbrr.Job.Effects.{Answer, good, bad}
use dockbrr.Job.Lifecycle.{
  World, Service, Project, Verb, stopping, starting, Reason, Effect, remove, EventKind, event_kind,
  is_stopped_state, is_live, move_all, run_ordered, then_start, dependent_container_ids, live_or,
  order_of, first_live, unless_live, run_remove, stamp_state, relocated, rediscover, record_event,
  perform, refreshed, conclude, handle_loaded, handle, fail, succeed, not_standalone, not_stopped,
  is_running,
}

abbrev pub is_removal : Effect → Bool
is_removal (remove id ok) = true
is_removal _ = false

-- Some container is removed, or the removal is tried.
abbrev pub removes : List Effect → Bool
removes = any is_removal

removes-append :
    (es fs : List Effect) → removes es ≡ false → removes fs ≡ false → removes (es ++ fs) ≡ false
removes-append [] fs h k = k
removes-append (e ∷ es) fs h k = ground (arith, removes-append es fs)

-- The container, where it can be inspected, is neither running nor restarting.
abbrev pub IsDown : World → Text → Type 0
IsDown w id = (s : Text) → w.live_state id ≡ good s → is_live s ≡ false

live_or-none :
    (a : Answer Text) (rest : Option Text)
    → live_or a rest ≡ none
    → ((s : Text) → a ≡ good s → is_live s ≡ false) × (rest ≡ none)
unfolding live_or
live_or-none (bad e) rest h = ((λ s k. cc), h)
live_or-none (good s) rest h =
    by_cases
      (λ b.
        (if b then some s else rest) ≡ none
        → is_live s ≡ b
        → ((s' : Text) → good s ≡ good s' → is_live s' ≡ false) × (rest ≡ none))
      (is_live s) (λ _ k e. cc) (λ _ k e. ((λ s' g. cc), k)) h refl

module _ (w : World) where
  -- What lets a removal pass.
  abbrev pub Removable : Service → Project → Type 0
  Removable svc proj =
      (proj.kind ≡ bytes "standalone")
      × (is_stopped_state svc.state ≡ true)
      × All (IsDown w) svc.container_ids

  first_live-none : (ids : List Text) → first_live w ids ≡ none → All (IsDown w) ids
  unfolding first_live
  first_live-none [] h = tt
  first_live-none (id ∷ ids) h =
      let k = live_or-none (w.live_state id) (first_live w ids) h in (k.0, first_live-none ids k.1)

  move_all-keeps : (v : Verb) (ids : List Text) → removes (move_all w v ids).0 ≡ false
  unfolding move_all
  move_all-keeps v [] = refl
  move_all-keeps v (id ∷ ids) = ground (arith, move_all-keeps v ids)

  then_start-keeps :
      (svc : Service) (deps : List Text) (r : List Effect × Option Reason)
      → removes r.0 ≡ false
      → removes (then_start w svc deps r).0 ≡ false
  unfolding then_start
  then_start-keeps svc deps (es, some x) h = h
  then_start-keeps svc deps (es, none) h = removes-append es _ h (move_all-keeps starting _)

  rediscover-keeps : (svc : Service) (proj : Project) → removes (rediscover w svc proj) ≡ false
  unfolding rediscover relocated stamp_state
  rediscover-keeps svc proj = ground arith

  record_event-keeps : (id : ℕ) (k : EventKind) → removes (record_event w id k) ≡ false
  unfolding record_event
  record_event-keeps id k = ground arith

  conclude-keeps :
      (t : JobType) (svc : Service) (proj : Project) (r : List Effect × Option Reason)
      → refreshed w t svc proj ≡ rediscover w svc proj
      → removes r.0 ≡ false
      → removes (conclude w t svc proj (some r)) ≡ false
  unfolding conclude fail succeed
  conclude-keeps t svc proj (es, some x) e h = removes-append es _ h refl
  conclude-keeps t svc proj (es, none) e h = removes-append es _ h (
      removes-append (refreshed w t svc proj) _ (rw e (rediscover-keeps svc proj))
        (record_event-keeps svc.id (event_kind t)))

  -- Only a removal removes.
  perform-keeps :
      (t : JobType) (svc : Service) (proj : Project)
      → (t ≡ JobDefs.remove) ⊎ (removes (conclude w t svc proj (perform w t svc proj)) ≡ false)
  unfolding perform refreshed conclude fail
  perform-keeps JobDefs.remove svc proj = inl refl
  perform-keeps JobDefs.start svc proj =
      let deps = dependent_container_ids w svc proj in
      inr (
        conclude-keeps JobDefs.start svc proj (run_ordered w starting svc deps) refl
          (move_all-keeps starting (order_of starting svc.container_ids deps)))
  perform-keeps JobDefs.stop svc proj =
      let deps = dependent_container_ids w svc proj in
      inr (
        conclude-keeps JobDefs.stop svc proj (run_ordered w stopping svc deps) refl
          (move_all-keeps stopping (order_of stopping svc.container_ids deps)))
  perform-keeps JobDefs.restart svc proj =
      let deps = dependent_container_ids w svc proj in
      let stopped = run_ordered w stopping svc deps in
      inr (
        conclude-keeps JobDefs.restart svc proj (then_start w svc deps stopped) refl (
          then_start-keeps svc deps stopped
            (move_all-keeps stopping (order_of stopping svc.container_ids deps))))
  perform-keeps JobDefs.check svc proj = inr refl
  perform-keeps JobDefs.apply svc proj = inr refl
  perform-keeps JobDefs.rollback svc proj = inr refl
  perform-keeps JobDefs.sync svc proj = inr refl
  perform-keeps JobDefs.self_update svc proj = inr refl
  perform-keeps (JobDefs.other x) svc proj = inr refl

  -- A refusal removes nothing.
  refused-keeps :
      (svc : Service) (proj : Project) (x : Reason)
      → removes (conclude w JobDefs.remove svc proj (some ([], some x))) ≡ false
  unfolding conclude fail
  refused-keeps svc proj x = refl

  unless_live-guard :
      (svc : Service) (proj : Project) (o : Option Text)
      → first_live w svc.container_ids ≡ o
      → removes (conclude w JobDefs.remove svc proj (some (unless_live w svc o))) ≡ true
      → All (IsDown w) svc.container_ids
  unfolding unless_live
  unless_live-guard svc proj (some s) e h = absurd (cc (refused-keeps svc proj (is_running s), h))
  unless_live-guard svc proj none e h = first_live-none svc.container_ids e

  run_remove-guard :
      (svc : Service) (proj : Project)
      → removes (conclude w JobDefs.remove svc proj (some (run_remove w svc proj))) ≡ true
      → Removable svc proj
  unfolding run_remove
  run_remove-guard svc proj =
      by_cases
        (λ a.
          removes (
              conclude w JobDefs.remove svc proj (
                some (
                  if not a
                  then ([], some not_standalone)
                  else if not (is_stopped_state svc.state)
                  then ([], some (not_stopped svc.state))
                  else unless_live w svc (first_live w svc.container_ids))))
            ≡ true
          → Removable svc proj)
        (text_eq proj.kind (bytes "standalone"))
        (λ standalone.
          by_cases
            (λ b.
              removes (
                  conclude w JobDefs.remove svc proj (
                    some (
                      if not b
                      then ([], some (not_stopped svc.state))
                      else unless_live w svc (first_live w svc.container_ids))))
                ≡ true
              → Removable svc proj)
            (is_stopped_state svc.state)
            (λ stopped h. (
              (text_eq_iff proj.kind (bytes "standalone")).0 standalone,
              stopped,
              unless_live-guard svc proj (first_live w svc.container_ids) refl h,
            ))
            (λ _ h. absurd (cc (refused-keeps svc proj (not_stopped svc.state), h))))
        (λ _ h. absurd (cc (refused-keeps svc proj not_standalone, h)))

  loaded :
      (id : ℕ) (t : JobType) (svc : Service) (proj : Project)
      → w.get_service id ≡ good svc
      → w.get_project svc.project_id ≡ good proj
      → removes (handle w t (some id)) ≡ removes (conclude w t svc proj (perform w t svc proj))
  unfolding handle handle_loaded
  loaded id t svc proj e k = rw (handle, e) (rw (handle_loaded, k) refl)

  -- A handler that removes a container, or tries to, has the job of a removal, and the service may be
  -- removed: its project is standalone, its stored state is a stopped one, and none of its containers
  -- that the daemon can inspect is running or restarting.
  pub removes-Removable :
      (id : ℕ) (t : JobType) (svc : Service) (proj : Project)
      → w.get_service id ≡ good svc
      → w.get_project svc.project_id ≡ good proj
      → removes (handle w t (some id)) ≡ true
      → (t ≡ JobDefs.remove) × Removable svc proj
  unfolding perform
  removes-Removable id t svc proj e k h =
      let h' : removes (conclude w t svc proj (perform w t svc proj)) ≡ true =
        sym (loaded id t svc proj e k) ∙ h in
      elim (perform-keeps t svc proj) [
        | inr x ↦ absurd (cc (x, h'))
        | inl x ↦ (
          x,
          run_remove-guard svc proj
              (subst (λ u. removes (conclude w u svc proj (perform w u svc proj)) ≡ true) x h'),
        )
      ]
