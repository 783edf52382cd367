-- ===== src/Job/Lifecycle/Order.antt =====
-- The order of the Docker calls of internal/job/lifecycle.go, and what the job comes to.
use dockbrr.Common.{
  ◌≡◌, refl, sym, ap, subst, ◌∙◌, ℕ, Bool, true, false, Option, none, some, List, [], ◌∷◌, ◌++◌,
  filter, Text, if◌then◌else◌, arith, inl, inr, Option-cases,
}
use mathlib.Core.List
use mathlib.Core.Option
use dockbrr.Store.Jobs.Defs as JobDefs
use dockbrr.Store.Jobs.Defs.{JobType}
use dockbrr.Job.Effects.{Answer, good, bad, Answer-cases}
use dockbrr.Job.Lifecycle.{
  World, Service, Project, Verb, stopping, starting, Reason, Effect, emit, move, remove,
  update_runtime, update_state, finish, event, dependent_container_ids, order_of, move_all,
  run_ordered, then_start, stamp_state, relocated, rediscover, record_event, perform, refreshed,
  conclude, handle_loaded, handle, fail, succeed, event_kind, completed, failed,
}

abbrev pub is_call : Effect → Bool
is_call (move v id ok) = true
is_call (remove id ok) = true
is_call _ = false

-- The results recorded for the job: whether each is a success.
abbrev pub results : List Effect → List Bool
results [] = []
results (finish JobDefs.success code r ∷ es) = true ∷ results es
results (finish _ code r ∷ es) = false ∷ results es
results (_ ∷ es) = results es

-- What a job is to do: the stops and starts, in order.
abbrev pub each : Verb → List Text → List (Verb × Text)
each v [] = []
each v (id ∷ ids) = (v, id) ∷ each v ids

-- Those that share the namespace of the target are stopped before it and started after it; `none` for
-- the other jobs.
abbrev pub plan : JobType → List Text → List Text → Option (List (Verb × Text))
plan JobDefs.start targets deps = some (each starting (targets ++ deps))
plan JobDefs.stop targets deps = some (each stopping (deps ++ targets))
plan JobDefs.restart targets deps =
    some (each stopping (deps ++ targets) ++ each starting (targets ++ deps))
plan t targets deps = none

filter-append {ℓ} :
    {A : Type ℓ} (p : A → Bool) (xs ys : List A) → filter p (xs ++ ys) ≡ filter p xs ++ filter p ys
filter-append p [] ys = refl
filter-append p (x ∷ xs) ys = ground (arith, filter-append p xs ys)

results-append : (es fs : List Effect) → results (es ++ fs) ≡ results es ++ results fs
results-append [] fs = refl
results-append (emit n ∷ es) fs = results-append es fs
results-append (move v i ok ∷ es) fs = results-append es fs
results-append (remove i ok ∷ es) fs = results-append es fs
results-append (update_runtime i ids d ∷ es) fs = results-append es fs
results-append (update_state i s ∷ es) fs = results-append es fs
results-append (event i k ∷ es) fs = results-append es fs
results-append (finish JobDefs.success c r ∷ es) fs = ap (λ l. true ∷ l) (results-append es fs)
results-append (finish JobDefs.failed c r ∷ es) fs = ap (λ l. false ∷ l) (results-append es fs)
results-append (finish JobDefs.unset c r ∷ es) fs = ap (λ l. false ∷ l) (results-append es fs)
results-append (finish JobDefs.queued c r ∷ es) fs = ap (λ l. false ∷ l) (results-append es fs)
results-append (finish JobDefs.running c r ∷ es) fs = ap (λ l. false ∷ l) (results-append es fs)
results-append (finish JobDefs.canceled c r ∷ es) fs = ap (λ l. false ∷ l) (results-append es fs)

-- Neither a call nor a result.
abbrev Silent : List Effect → Type 0
Silent es = (filter is_call es ≡ []) × (results es ≡ [])

Silent-append :
    (es fs : List Effect)
    → Silent es
    → (filter is_call (es ++ fs) ≡ filter is_call fs) × (results (es ++ fs) ≡ results fs)
Silent-append es fs h = (
  filter-append is_call es fs ∙ ap (λ l. l ++ filter is_call fs) h.0,
  results-append es fs ∙ ap (λ l. l ++ results fs) h.1,
)

-- No error.
abbrev pub is_fine : Option Reason → Bool
is_fine none = true
is_fine (some r) = false

module _ (w : World) where
  -- The plan as the daemon carries it out: up to the first call that fails, that one included.
  pub carry : List (Verb × Text) → List Effect
  carry [] = []
  carry ((v, id) ∷ p) = elim (w.container_move v id) [
    | bad e ↦ move v id false ∷ []
    | good _ ↦ move v id true ∷ carry p
  ]

  -- Whether every call of the plan works.
  pub all_work : List (Verb × Text) → Bool
  all_work [] = true
  all_work ((v, id) ∷ p) = elim (w.container_move v id) [ bad e ↦ false | good _ ↦ all_work p ]

  carry-append :
      (p q : List (Verb × Text))
      → carry (p ++ q) ≡ (if all_work p then carry p ++ carry q else carry p)
  unfolding carry all_work
  carry-append [] q = refl
  carry-append ((v, id) ∷ p) q = ground (arith, carry-append p q)

  all_work-append :
      (p q : List (Verb × Text)) → all_work (p ++ q) ≡ (if all_work p then all_work q else false)
  unfolding all_work
  all_work-append [] q = refl
  all_work-append ((v, id) ∷ p) q = ground (arith, all_work-append p q)

  carry-calls :
      (p : List (Verb × Text)) → (filter is_call (carry p) ≡ carry p) × (results (carry p) ≡ [])
  unfolding carry
  carry-calls [] = (refl, refl)
  carry-calls ((v, id) ∷ p) = ground (arith, carry-calls p)

  -- What a job did, against a plan.
  abbrev Carries : List (Verb × Text) → List Effect × Option Reason → Type 0
  Carries p r = (r.0 ≡ carry p) × (is_fine r.1 ≡ all_work p)

  move_all-Carries : (v : Verb) (ids : List Text) → Carries (each v ids) (move_all w v ids)
  unfolding move_all carry all_work
  move_all-Carries v [] = (refl, refl)
  move_all-Carries v (id ∷ ids) = elim (Answer-cases (w.container_move v id)) [
    | inl (_, e) ↦
        rw (move_all, carry, all_work, e)
          (ap (λ l. move v id true ∷ l) (move_all-Carries v ids).0, (move_all-Carries v ids).1)
    | inr (_, e) ↦ rw (move_all, carry, all_work, e) (refl, refl)
  ]

  then_start-Carries :
      (svc : Service) (deps : List Text) (p : List (Verb × Text)) (r : List Effect × Option Reason)
      → Carries p r
      → Carries
          (p ++ each starting (order_of starting svc.container_ids deps))
          (then_start w svc deps r)
  unfolding then_start
  then_start-Carries svc deps p (es, some x) h =
      let q = each starting (order_of starting svc.container_ids deps) in
      (
        h.0
            ∙ sym
                (carry-append p q ∙ ap (λ b. if b then carry p ++ carry q else carry p) (sym h.1)),
        sym (all_work-append p q ∙ ap (λ b. if b then all_work q else false) (sym h.1)),
      )
  then_start-Carries svc deps p (es, none) h =
      let q = each starting (order_of starting svc.container_ids deps) in
      let k = move_all-Carries starting (order_of starting svc.container_ids deps) in
      (
        ap (λ l. l ++ (run_ordered w starting svc deps).0) h.0
            ∙ ap (λ l. carry p ++ l) k.0
            ∙ sym
                (carry-append p q ∙ ap (λ b. if b then carry p ++ carry q else carry p) (sym h.1)),
        k.1 ∙ sym (all_work-append p q ∙ ap (λ b. if b then all_work q else false) (sym h.1)),
      )

  stamp_state-Silent : (svc : Service) (a : Answer Text) → Silent (stamp_state w svc a)
  unfolding stamp_state
  stamp_state-Silent svc (bad e) = (refl, refl)
  stamp_state-Silent svc (good []) = (refl, refl)
  stamp_state-Silent svc (good (c ∷ s)) = elim (Answer-cases w.save_state) [
    | inl (_, e) ↦ rw (stamp_state, e) (refl, refl)
    | inr (_, e) ↦ rw (stamp_state, e) (refl, refl)
  ]

  relocated-Silent : (svc : Service) (a : Answer (List Text × Text)) → Silent (relocated w svc a)
  unfolding relocated
  relocated-Silent svc (bad e) = (refl, refl)
  relocated-Silent svc (good ([], dig)) = (refl, refl)
  relocated-Silent svc (good (id ∷ ids, dig)) = elim (Answer-cases w.save_runtime) [
    | inl (_, e) ↦ rw (relocated, e) (stamp_state-Silent svc (w.new_state id))
    | inr (_, e) ↦ rw (relocated, e) (stamp_state-Silent svc (w.new_state id))
  ]

  rediscover-Silent : (svc : Service) (proj : Project) → Silent (rediscover w svc proj)
  unfolding rediscover
  rediscover-Silent svc proj = elim (Option-cases w.locate) [
    | inl e ↦ rw (rediscover, e) (refl, refl)
    | inr (f, e) ↦ rw (rediscover, e) (relocated-Silent svc (f proj.name svc.name))
  ]

  record_event-Silent : (id : ℕ) (t : JobType) → Silent (record_event w id (event_kind t))
  unfolding record_event
  record_event-Silent id t = elim (Answer-cases w.save_event) [
    | inl (_, e) ↦ rw (record_event, e) (refl, refl)
    | inr (_, e) ↦ rw (record_event, e) (refl, refl)
  ]

  -- What the job does, and its results, against a plan.
  abbrev pub Settles : List (Verb × Text) → List Effect → Type 0
  Settles p es = (filter is_call es ≡ carry p) × (results es ≡ all_work p ∷ [])

  done : JobType → Service → List Effect
  done t svc = emit (completed t) ∷ (succeed ++ record_event w svc.id (event_kind t))

  done-succeeds :
      (t : JobType) (svc : Service)
      → (filter is_call (done t svc) ≡ []) × (results (done t svc) ≡ true ∷ [])
  unfolding done succeed
  done-succeeds t svc = let k = record_event-Silent svc.id t in (k.0, ap (λ l. true ∷ l) k.1)

  -- Behind effects that carry out the plan.
  append-Settles :
      (p : List (Verb × Text)) (es fs : List Effect) (b : Bool)
      → es ≡ carry p
      → (filter is_call fs ≡ []) × (results fs ≡ b ∷ [])
      → b ≡ all_work p
      → Settles p (es ++ fs)
  append-Settles p es fs b h k e =
      let c = carry-calls p in
      (
        filter-append is_call es fs
            ∙ ap (λ l. filter is_call es ++ l) k.0
            ∙ List.append-nil (filter is_call es)
            ∙ ap (filter is_call) h
            ∙ c.0,
        results-append es fs
            ∙ ap (λ l. results es ++ l) k.1
            ∙ ap (λ l. results l ++ (b ∷ [])) h
            ∙ ap (λ l. l ++ (b ∷ [])) c.1
            ∙ ap (λ x. x ∷ []) e,
      )

  conclude-Settles :
      (t : JobType) (svc : Service) (proj : Project) (p : List (Verb × Text))
      (r : List Effect × Option Reason)
      → refreshed w t svc proj ≡ rediscover w svc proj
      → Carries p r
      → Settles p (conclude w t svc proj (some r))
  unfolding conclude done fail
  conclude-Settles t svc proj p (es, some x) refreshes h =
      append-Settles p es (emit (failed t x) ∷ fail x) false h.0 (refl, refl) h.1
  conclude-Settles t svc proj p (es, none) refreshes h =
      let quiet = Silent-append (rediscover w svc proj) (done t svc) (rediscover-Silent svc proj) in
      let ends = done-succeeds t svc in
      append-Settles p es (refreshed w t svc proj ++ done t svc) true h.0
        (rw refreshes (quiet.0 ∙ ends.0, quiet.1 ∙ ends.1)) h.1

  handle_loaded-Settles :
      (t : JobType) (svc : Service) (proj : Project) (p : List (Verb × Text))
      (r : List Effect × Option Reason)
      → w.get_project svc.project_id ≡ good proj
      → perform w t svc proj ≡ some r
      → refreshed w t svc proj ≡ rediscover w svc proj
      → Carries p r
      → Settles p (handle_loaded w t svc)
  unfolding handle_loaded
  handle_loaded-Settles t svc proj p r k e refreshes h =
      rw (handle_loaded, k, e) (conclude-Settles t svc proj p r refreshes h)

  planned-Settles :
      (t : JobType) (svc : Service) (proj : Project) (p : List (Verb × Text))
      → w.get_project svc.project_id ≡ good proj
      → plan t svc.container_ids (dependent_container_ids w svc proj) ≡ some p
      → Settles p (handle_loaded w t svc)
  unfolding perform refreshed order_of
  planned-Settles JobDefs.start svc proj p k h =
      let deps = dependent_container_ids w svc proj in
      subst (λ q. Settles q (handle_loaded w JobDefs.start svc)) (Option.some_inj.0 h)
        (handle_loaded-Settles JobDefs.start svc proj _ (run_ordered w starting svc deps) k refl
          refl (move_all-Carries starting (svc.container_ids ++ deps)))
  planned-Settles JobDefs.stop svc proj p k h =
      let deps = dependent_container_ids w svc proj in
      subst (λ q. Settles q (handle_loaded w JobDefs.stop svc)) (Option.some_inj.0 h)
        (handle_loaded-Settles JobDefs.stop svc proj _ (run_ordered w stopping svc deps) k refl refl
          (move_all-Carries stopping (deps ++ svc.container_ids)))
  planned-Settles JobDefs.restart svc proj p k h =
      let deps = dependent_container_ids w svc proj in
      subst (λ q. Settles q (handle_loaded w JobDefs.restart svc)) (Option.some_inj.0 h)
        (handle_loaded-Settles JobDefs.restart svc proj _
          (then_start w svc deps (run_ordered w stopping svc deps)) k refl refl
          (then_start-Carries svc deps _ _ (move_all-Carries stopping (deps ++ svc.container_ids))))
  planned-Settles JobDefs.check svc proj p k h = cc
  planned-Settles JobDefs.apply svc proj p k h = cc
  planned-Settles JobDefs.rollback svc proj p k h = cc
  planned-Settles JobDefs.sync svc proj p k h = cc
  planned-Settles JobDefs.remove svc proj p k h = cc
  planned-Settles JobDefs.self_update svc proj p k h = cc
  planned-Settles (JobDefs.other x) svc proj p k h = cc

  -- A start, stop or restart of a service whose row and project load calls the daemon exactly as
  -- planned, up to the first call that fails: the containers that share the namespace of the target are
  -- stopped before it and started after it, and a restart starts nothing unless every stop works. The
  -- job has one result, which is a success exactly if every planned call works.
  pub handle-plan :
      (id : ℕ) (t : JobType) (svc : Service) (proj : Project) (p : List (Verb × Text))
      → w.get_service id ≡ good svc
      → w.get_project svc.project_id ≡ good proj
      → plan t svc.container_ids (dependent_container_ids w svc proj) ≡ some p
      → Settles p (handle w t (some id))
  unfolding handle
  handle-plan id t svc proj p e k h = rw (handle, e) (planned-Settles t svc proj p k h)
