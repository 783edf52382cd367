-- ===== src/Http/RateLimit/Bounds.antt =====
-- The size of the map of internal/httpapi/ratelimit.go.
use dockbrr.Common.{
  ◌≡◌, refl, subst, ◌⊎◌, sym, ap, ℕ, suc, ◌≤◌, ◌<◌, Bool, false, not, ◌&&◌, ◌||◌, Option, none,
  some, List, [], ◌∷◌, All, All-filter, All-edit, length, length-filter, filter, edit, Text,
  text_eq, text_eq_refl, ltb, leb, if◌then◌else◌, arith, Bool-cases, Option-cases, by_cases, inl,
  inr,
}
use dockbrr.Http.RateLimit.{
  Entry, Entries, holds, lacks, entry_of, delete, is_current, blocked_entry, blocked, oldest_key,
  drop_oldest, evict_locked, put, new_entry, count_up, fail_entry, fail, success, max_tracked_ips,
  fail_limit, Call, blocked_at, fail_at, success_at, step, history,
}

-- An address that is not "".
abbrev pub IsNamed : Text → Type 0
IsNamed ip = text_eq ip [] ≡ false

abbrev Named : Entries → Type 0
Named m = All (λ e. IsNamed e.ip) m

abbrev Bounded : Entries → Type 0
Bounded m = (length m ≤ max_tracked_ips) × Named m

-- Some entry has the key.
abbrev Present : Text → Entries → Type 0
Present key m = length (delete key m) < length m

Present-there : (key : Text) (e : Entry) (m : Entries) → Present key m → Present key (e ∷ m)
unfolding delete
Present-there key e m h = ground arith

Present-here : (e : Entry) (m : Entries) → Present e.ip (e ∷ m)
unfolding delete
Present-here e m = rw (text_eq_refl e.ip) (let h = length-filter (lacks e.ip) m in omega arith)

-- The loop keeps the key it has, or finds one of an entry.
oldest_key-Present :
    (m : Entries) (key : Text) (oldest : ℕ)
    → Named m
    → (oldest_key m key oldest ≡ key)
      ⊎ (Present (oldest_key m key oldest) m × IsNamed (oldest_key m key oldest))
unfolding oldest_key
oldest_key-Present [] key oldest h = inl refl
oldest_key-Present (e ∷ m) key oldest h =
    by_cases
      (λ b.
        ((if b then oldest_key m e.ip e.first else oldest_key m key oldest) ≡ key)
        ⊎ (Present (if b then oldest_key m e.ip e.first else oldest_key m key oldest) (e ∷ m)
            × IsNamed (if b then oldest_key m e.ip e.first else oldest_key m key oldest)))
      (text_eq key [] || ltb e.first oldest)
      (λ _. elim (oldest_key-Present m e.ip e.first h.1) [
        | inl k ↦
            inr
              (subst (λ x. Present x (e ∷ m)) (sym k) (Present-here e m), subst IsNamed (sym k) h.0)
        | inr k ↦ inr (Present-there (oldest_key m e.ip e.first) e m k.0, k.1)
      ])
      (λ _. elim (oldest_key-Present m key oldest h.1) [
        | inl k ↦ inl k
        | inr k ↦ inr (Present-there (oldest_key m key oldest) e m k.0, k.1)
      ])

-- A map with an entry has an oldest one.
oldest-Present :
    (m : Entries)
    → Named m
    → 0 < length m
    → Present (oldest_key m [] 0) m × IsNamed (oldest_key m [] 0)
unfolding oldest_key text_eq
oldest-Present [] h k = elim k [ ]
oldest-Present (e ∷ m) h k = elim (oldest_key-Present m e.ip e.first h.1) [
  | inl x ↦ (subst (λ y. Present y (e ∷ m)) (sym x) (Present-here e m), subst IsNamed (sym x) h.0)
  | inr x ↦ (Present-there (oldest_key m e.ip e.first) e m x.0, x.1)
]

-- There is room behind an eviction.
evict_locked-room :
    (now : ℕ) (m : Entries) → Bounded m → length (evict_locked now m) < max_tracked_ips
unfolding evict_locked drop_oldest
evict_locked-room now m h =
    let left = filter (is_current now) m in
    let short = length-filter (is_current now) m in
    let named = All-filter (λ e. IsNamed e.ip) (is_current now) m h.1 in
    let oldest = oldest-Present left named in ground (arith, oldest)

evict_locked-Named : (now : ℕ) (m : Entries) → Named m → Named (evict_locked now m)
unfolding evict_locked drop_oldest delete
evict_locked-Named now m h =
    let left = filter (is_current now) m in
    let key = oldest_key left [] 0 in
    let named = All-filter (λ e. IsNamed e.ip) (is_current now) m h in
    by_cases (λ b. Named (if b then filter (lacks key) left else left))
      (leb max_tracked_ips (length left) && not (text_eq key []))
      (λ _. All-filter (λ e. IsNamed e.ip) (lacks key) left named) (λ _. named)

delete-Bounded : (ip : Text) (m : Entries) → Bounded m → Bounded (delete ip m)
unfolding delete
delete-Bounded ip m h = (
  (let k = length-filter (lacks ip) m in omega arith),
  All-filter (λ e. IsNamed e.ip) (lacks ip) m h.1,
)

put-Bounded :
    (e : Entry) (m : Entries)
    → IsNamed e.ip
    → length m < max_tracked_ips
    → Named m
    → Bounded (put e m)
unfolding put delete
put-Bounded e m k h named = (
  (let s = length-filter (lacks e.ip) m in omega arith),
  (k, All-filter (λ x. IsNamed x.ip) (lacks e.ip) m named),
)

new_entry-Bounded :
    (now : ℕ) (ip : Text) (m : Entries) → IsNamed ip → Bounded m → Bounded (new_entry now ip m)
unfolding new_entry
new_entry-Bounded now ip m k h =
    let e : Entry = record { ip = ip; count = 1; first = now } in
    by_cases
      (λ b.
        leb max_tracked_ips (length m) ≡ b → Bounded (put e (if b then evict_locked now m else m)))
      (leb max_tracked_ips (length m))
      (λ _ _.
        put-Bounded e (evict_locked now m) k (evict_locked-room now m h)
          (evict_locked-Named now m h.1))
      (λ _ c. put-Bounded e m k (ground arith) h.1) refl

length-edit : (p : Entry → Bool) (f : Entry → Entry) (m : Entries) → length (edit p f m) ≡ length m
length-edit p f [] = refl
length-edit p f (e ∷ m) = ap suc (length-edit p f m)

count_up-Bounded : (ip : Text) (m : Entries) → Bounded m → Bounded (count_up ip m)
unfolding count_up
count_up-Bounded ip m h = (
  subst (λ n. n ≤ max_tracked_ips) (sym (length-edit (holds ip) _ m)) h.0,
  All-edit (λ e. IsNamed e.ip) (holds ip) _ m (λ x a. a) h.1,
)

fail-Bounded :
    (now : ℕ) (ip : Text) (m : Entries) → IsNamed ip → Bounded m → Bounded (fail now ip m)
unfolding fail fail_entry
fail-Bounded now ip m k h = go (entry_of ip m)
  where
    go : (o : Option Entry) → Bounded (fail_entry now ip m o)
    go none = new_entry-Bounded now ip m k h
    go (some e) =
        by_cases (λ b. Bounded (if b then count_up ip m else new_entry now ip m)) (is_current now e)
          (λ _. count_up-Bounded ip m h) (λ _. new_entry-Bounded now ip m k h)

blocked_entry-Bounded :
    (now : ℕ) (ip : Text) (m : Entries) (e : Entry)
    → Bounded m
    → Bounded (blocked_entry now ip m e).1
unfolding blocked_entry
blocked_entry-Bounded now ip m e h = elim (Bool-cases (is_current now e)) [
  | inr c ↦ rw (blocked_entry, c) (delete-Bounded ip m h)
  | inl c ↦ elim (Bool-cases (ltb e.count fail_limit)) [
    | inl l ↦ rw (blocked_entry, c, l) h
    | inr l ↦ rw (blocked_entry, c, l) h
  ]
]

blocked-Bounded : (now : ℕ) (ip : Text) (m : Entries) → Bounded m → Bounded (blocked now ip m).1
unfolding blocked
blocked-Bounded now ip m h = elim (Option-cases (entry_of ip m)) [
  | inl c ↦ rw (blocked, c) h
  | inr (e, c) ↦ rw (blocked, c) (blocked_entry-Bounded now ip m e h)
]

-- The address of a call.
abbrev pub address : Call → Text
address (blocked_at now ip) = ip
address (fail_at now ip) = ip
address (success_at now ip) = ip

step-Bounded : (c : Call) (m : Entries) → IsNamed (address c) → Bounded m → Bounded (step c m)
unfolding step success
step-Bounded (blocked_at now ip) m k h = blocked-Bounded now ip m h
step-Bounded (fail_at now ip) m k h = fail-Bounded now ip m k h
step-Bounded (success_at now ip) m k h = delete-Bounded ip m h

history-Bounded :
    (cs : List Call) (m : Entries)
    → All (λ c. IsNamed (address c)) cs
    → Bounded m
    → Bounded (history cs m)
unfolding history
history-Bounded [] m a h = h
history-Bounded (c ∷ cs) m a h = history-Bounded cs (step c m) a.1 (step-Bounded c m a.0 h)

-- Whatever calls are made of the three methods, at whatever times and for however many addresses that
-- are not "", the map never holds more than 4096 entries.
pub history_bound :
    (cs : List Call) → All (λ c. IsNamed (address c)) cs → length (history cs []) ≤ 4096
history_bound cs a = (history-Bounded cs [] a (omega arith, tt)).0
