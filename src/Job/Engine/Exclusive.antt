-- ===== src/Job/Engine/Exclusive.antt =====
-- Sequences of events of the worker pool (internal/job/queue.go, lock.go).
use dockbrr.Common.{
  ◌≡◌, refl, sym, ap, ◌∙◌, ℕ, zero, suc, ◌≤◌, Bool, true, false, Option, none, some, List, [], ◌∷◌,
  ◌==◌, ==_iff, get_elem?, set, All, Bool-cases, Option-cases, by_cases, inl, inr, arith,
  if◌then◌else◌,
}
use dockbrr.Job.Engine.{
  Task, Phase, idle, waiting, running, Engine, Action, acquire, put, lock_mutex, turn, act, stream,
  Event, step, subscribe, or_same, happen, run,
}
use dockbrr.Job.Engine.Counts.{holders, locked_one, HasEntry, entry-at, locked_one-le}
use dockbrr.Job.Engine.Locked.{WellLocked, turn-WellLocked}

act-WellLocked :
    (i : ℕ) (a : Action) (e : Engine) → WellLocked e → WellLocked (or_same e (act i a e))
unfolding act
act-WellLocked i a e w = elim (Option-cases (get_elem? e.workers i)) [
  | inl h ↦ rw (act, h) w
  | inr (p, h) ↦ rw (act, h) (turn-WellLocked i a p e h w)
]

open_only :
    (e : Engine)
    → WellLocked e
    → (id : ℕ) → e.finished id ≡ false
    → (x : ℕ) → e.finished x ≡ true
    → put id (suc (e.subs id)) e.subs x ≡ 0
open_only e w id h x q =
    by_cases (λ b. (x == id) ≡ b → (if b then suc (e.subs id) else e.subs x) ≡ 0) (x == id)
      (λ _ k. absurd (closed-ne (ap e.finished ((==_iff x id).0 k)) q h)) (λ _ _. w.closed x q) refl
  where
    closed-ne : {b c : Bool} → b ≡ c → b ≡ true → c ≡ false → ⊥
    closed-ne m y n = cc

stream-WellLocked : (id : ℕ) (e : Engine) → WellLocked e → WellLocked (stream id e).1
unfolding stream
stream-WellLocked id e w = elim (Bool-cases (e.finished id)) [
  | inl h ↦ rw h w
  | inr h ↦
      rw h (record { counted = w.counted; entries = w.entries; closed = λ x. open_only e w id h x })
]

happen-WellLocked : (v : Event) (e : Engine) → WellLocked e → WellLocked (happen v e)
unfolding happen
happen-WellLocked (step i a) e w = act-WellLocked i a e w
happen-WellLocked (subscribe id) e w = stream-WellLocked id e w

run-WellLocked : (vs : List Event) (e : Engine) → WellLocked e → WellLocked (run vs e)
unfolding run
run-WellLocked [] e w = w
run-WellLocked (v ∷ vs) e w = run-WellLocked vs (happen v e) (happen-WellLocked v e w)

abbrev pub idle_workers : ℕ → List Phase
idle_workers zero = []
idle_workers (suc n) = idle ∷ idle_workers n

-- The engine before its start: so many workers in their claim loop, no mutex, no channel.
abbrev pub fresh : ℕ → Engine
fresh n = record {
  workers = idle_workers n;
  locks = λ k. none;
  subs = λ id. 0;
  finished = λ id. false;
}

no_holders : (k n : ℕ) → holders k (idle_workers n) ≡ 0
no_holders k zero = refl
no_holders k (suc n) = no_holders k n

no_waiting : (n : ℕ) → All (HasEntry (λ k. none)) (idle_workers n)
no_waiting zero = tt
no_waiting (suc n) = (tt, no_waiting n)

fresh-WellLocked : (n : ℕ) → WellLocked (fresh n)
fresh-WellLocked n = record {
  counted = λ k. no_holders k n;
  entries = no_waiting n;
  closed = λ id h. refl;
}

set-get_elem? :
    (ws : List Phase) (i : ℕ) (p q : Phase)
    → get_elem? ws i ≡ some p
    → get_elem? (set ws i q) i ≡ some q
set-get_elem? [] i p q h = cc
set-get_elem? (w ∷ ws) zero p q h = refl
set-get_elem? (w ∷ ws) (suc i) p q h = set-get_elem? ws i p q h

locked-ne : {n : ℕ} → n ≡ 1 → n ≡ 0 → ⊥
locked-ne h k = omega (arith, h, k)

free : (b : Bool) (o : Option Bool) → o ≡ some b → locked_one o ≡ 0 → o ≡ some false
free true o e h = absurd (locked-ne (ap locked_one e) h)
free false o e h = e

taken :
    (e : Engine) (i : ℕ) (t : Task)
    → get_elem? e.workers i ≡ some (waiting t)
    → holders t.key e.workers ≡ 0
    → WellLocked e
    → (f : Engine) × (act i acquire e ≡ some f) × (get_elem? f.workers i ≡ some (running t))
unfolding act turn lock_mutex
taken e i t h z w =
    let (b, k) = entry-at e.locks e.workers i (waiting t) w.entries h in
    let open_now : e.locks t.key ≡ some false =
      free b (e.locks t.key) k (sym (w.counted t.key) ∙ z) in
    (
      record e { workers = set e.workers i (running t); locks = put t.key (some true) e.locks },
      rw (act, h, lock_mutex, open_now) refl,
      set-get_elem? e.workers i (waiting t) (running t) h,
    )

-- Whatever the workers do, in any order, and whenever clients subscribe: at most one worker is in the
-- handler of a job of any one project, and no job whose streams were closed has an open channel.
pub one_per_project :
    (n : ℕ) (vs : List Event) (k id : ℕ)
    → (holders k (run vs (fresh n)).workers ≤ 1)
      × ((run vs (fresh n)).finished id ≡ true → (run vs (fresh n)).subs id ≡ 0)
one_per_project n vs k id =
    let w = run-WellLocked vs (fresh n) (fresh-WellLocked n) in
    (omega (arith, w.counted k, locked_one-le ((run vs (fresh n)).locks k)), w.closed id)

-- After any events, a worker that waits for the mutex of a project gets it if no worker is in the
-- handler of a job of that project.
pub free_lock_taken :
    (n : ℕ) (vs : List Event) (i : ℕ) (t : Task)
    → get_elem? (run vs (fresh n)).workers i ≡ some (waiting t)
    → holders t.key (run vs (fresh n)).workers ≡ 0
    → (e : Engine) × (act i acquire (run vs (fresh n)) ≡ some e)
      × (get_elem? e.workers i ≡ some (running t))
free_lock_taken n vs i t h z =
    taken (run vs (fresh n)) i t h z (run-WellLocked vs (fresh n) (fresh-WellLocked n))
