-- ===== src/Job/Engine/Locked.antt =====
-- The steps of a worker, and the locks (internal/job/queue.go, lock.go).
use dockbrr.Common.{
  ◌≡◌, refl, ◌∙◌, ℕ, Bool, true, false, Option, none, some, ◌==◌, get_elem?, set, All, by_cases,
  arith, if◌then◌else◌,
}
use dockbrr.Job.Engine.{
  Task, Phase, idle, claimed, waiting, running, released, Engine, Action, claim, enter, acquire,
  release, close, put, or_new, unlocked, lock_mutex, close_streams, turn, or_same,
}
use dockbrr.Job.Engine.Counts.{
  holders, locked_one, holders-set, HasEntry, Grows-put, or_new-some, unlocked-some, entries-set,
  Grows-self, counted-put, locked_one-or_new, or_new-entry, unlocked-zero, locked_one-le, one_self,
  one-other, put_self,
}

-- A mutex is locked exactly if a worker is in the handler of a job of its key, and then it is one; a
-- worker at a mutex finds it; a finished job has no open channel.
pub record WellLocked (e : Engine) : Type 0 where
  pub counted : (k : ℕ) → holders k e.workers ≡ locked_one (e.locks k)
  pub entries : All (HasEntry e.locks) e.workers
  pub closed : (id : ℕ) → e.finished id ≡ true → e.subs id ≡ 0

module _ (i : ℕ) (e : Engine) (w : WellLocked e) where
  claim-WellLocked :
      (t : Task)
      → get_elem? e.workers i ≡ some idle
      → WellLocked (record e { workers = set e.workers i (claimed t) })
  claim-WellLocked t h = record {
    counted =
        λ k. (let s = holders-set k e.workers i idle (claimed t) h in omega (arith, w.counted k));
    entries = entries-set e.locks e.locks (Grows-self e.locks) e.workers i (claimed t) tt w.entries;
    closed = w.closed;
  }

  waiting_entry : (t : Task) → HasEntry (put t.key (or_new (e.locks t.key)) e.locks) (waiting t)
  waiting_entry t =
      let r = or_new-entry (e.locks t.key) in
      (r.0, put_self t.key (or_new (e.locks t.key)) e.locks ∙ r.1)

  enter-WellLocked :
      (t : Task)
      → get_elem? e.workers i ≡ some (claimed t)
      → WellLocked (record e {
        workers = set e.workers i (waiting t);
        locks = put t.key (or_new (e.locks t.key)) e.locks;
      })
  enter-WellLocked t h = record {
    counted =
        counted-put (λ k. holders k (set e.workers i (waiting t))) t.key (or_new (e.locks t.key))
          e.locks
          (let s = holders-set t.key e.workers i (claimed t) (waiting t) h in
            omega (arith, w.counted t.key, locked_one-or_new (e.locks t.key)))
          (λ k n.
            let s = holders-set k e.workers i (claimed t) (waiting t) h in
            omega (arith, w.counted k));
    entries =
        entries-set e.locks (put t.key (or_new (e.locks t.key)) e.locks)
          (Grows-put t.key (or_new (e.locks t.key)) e.locks (or_new-some (e.locks t.key))) e.workers
          i (waiting t) (waiting_entry t) w.entries;
    closed = w.closed;
  }

  acquire-WellLocked :
      (t : Task)
      → get_elem? e.workers i ≡ some (waiting t)
      → e.locks t.key ≡ some false
      → WellLocked (record e {
        workers = set e.workers i (running t);
        locks = put t.key (some true) e.locks;
      })
  acquire-WellLocked t h f = record {
    counted =
        counted-put (λ k. holders k (set e.workers i (running t))) t.key (some true) e.locks
          (let s = holders-set t.key e.workers i (waiting t) (running t) h in
            let zero_now : locked_one (e.locks t.key) ≡ 0 = rw f refl in
            omega (arith, w.counted t.key, one_self t.key))
          (λ k n.
            let s = holders-set k e.workers i (waiting t) (running t) h in
            omega (arith, w.counted k, one-other k t.key n));
    entries =
        entries-set e.locks (put t.key (some true) e.locks)
          (Grows-put t.key (some true) e.locks (λ b _. (true, refl))) e.workers i (running t) tt
          w.entries;
    closed = w.closed;
  }

  release-WellLocked :
      (t : Task)
      → get_elem? e.workers i ≡ some (running t)
      → WellLocked (record e {
        workers = set e.workers i (released t);
        locks = put t.key (unlocked (e.locks t.key)) e.locks;
      })
  release-WellLocked t h = record {
    counted =
        counted-put (λ k. holders k (set e.workers i (released t))) t.key (unlocked (e.locks t.key))
          e.locks
          (let s = holders-set t.key e.workers i (running t) (released t) h in
            omega (
              arith,
              w.counted t.key,
              one_self t.key,
              unlocked-zero (e.locks t.key),
              locked_one-le (e.locks t.key),
            ))
          (λ k n.
            let s = holders-set k e.workers i (running t) (released t) h in
            omega (arith, w.counted k, one-other k t.key n));
    entries =
        entries-set e.locks (put t.key (unlocked (e.locks t.key)) e.locks)
          (Grows-put t.key (unlocked (e.locks t.key)) e.locks (unlocked-some (e.locks t.key)))
          e.workers i (released t) tt w.entries;
    closed = w.closed;
  }

  close-WellLocked :
      (t : Task)
      → get_elem? e.workers i ≡ some (released t)
      → WellLocked (record e {
        workers = set e.workers i idle;
        subs = put t.id 0 e.subs;
        finished = put t.id true e.finished;
      })
  close-WellLocked t h = record {
    counted =
        λ k. (let s = holders-set k e.workers i (released t) idle h in omega (arith, w.counted k));
    entries = entries-set e.locks e.locks (Grows-self e.locks) e.workers i idle tt w.entries;
    closed = λ x.
        by_cases (λ b. (if b then true else e.finished x) ≡ true → (if b then 0 else e.subs x) ≡ 0)
          (x == t.id) (λ _ _. refl) (λ _ q. w.closed x q);
  }

pub turn-WellLocked :
    (i : ℕ) (a : Action) (p : Phase) (e : Engine)
    → get_elem? e.workers i ≡ some p
    → WellLocked e
    → WellLocked (or_same e (turn i a p e))
unfolding turn close_streams lock_mutex
turn-WellLocked i (claim t) idle e h w = claim-WellLocked i e w t h
turn-WellLocked i enter (claimed t) e h w = enter-WellLocked i e w t h
turn-WellLocked i acquire (waiting t) e h w = locking (e.locks t.key) refl
  where
    locking : (o : Option Bool) → e.locks t.key ≡ o → WellLocked (or_same e (lock_mutex i t o e))
    locking none k = w
    locking (some true) k = w
    locking (some false) k = acquire-WellLocked i e w t h k
turn-WellLocked i release (running t) e h w = release-WellLocked i e w t h
turn-WellLocked i close (released t) e h w = close-WellLocked i e w t h
turn-WellLocked i a p e h w = w
