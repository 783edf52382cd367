-- ===== src/Job/Engine/Counts.antt =====
-- How many workers hold the lock of a project (internal/job/queue.go, lock.go): counting workers, and
-- maps with one key changed.
use dockbrr.Common.{
  ◌≡◌, refl, sym, subst, ℕ, zero, suc, ◌+◌, ◌≤◌, Bool, true, false, Option, none, some, List, [],
  ◌∷◌, ◌==◌, ==_iff, get_elem?, set, count_if, All, All-map, Bool-cases, by_cases, inl, inr, arith,
  if◌then◌else◌,
}
use dockbrr.Job.Engine.{Phase, idle, claimed, waiting, running, released, put, or_new, unlocked}

-- The worker is in the handler of a job of the key.
abbrev pub runs_on : ℕ → Phase → Bool
runs_on k (running t) = t.key == k
runs_on k _ = false

-- How many workers are in the handler of a job of the key.
abbrev pub holders : ℕ → List Phase → ℕ
holders k ws = count_if (runs_on k) ws

abbrev pub one : Bool → ℕ
one true = 1
one false = 0

abbrev pub locked_one : Option Bool → ℕ
locked_one (some true) = 1
locked_one _ = 0

pub holders-set :
    (k : ℕ) (ws : List Phase) (i : ℕ) (p q : Phase)
    → get_elem? ws i ≡ some p
    → holders k (set ws i q) + one (runs_on k p) ≡ holders k ws + one (runs_on k q)
holders-set k [] i p q h = cc
holders-set k (w ∷ ws) zero p q h =
    let e : w ≡ p = cc h in
    subst (λ x. holders k (q ∷ ws) + one (runs_on k x) ≡ holders k (w ∷ ws) + one (runs_on k q)) e
      (ground arith)
holders-set k (w ∷ ws) (suc i) p q h = ground (arith, holders-set k ws i p q h)

-- A worker that waits for the mutex of a key has made it.
abbrev pub HasEntry : (ℕ → Option Bool) → Phase → Type 0
HasEntry locks (waiting t) = (b : Bool) × (locks t.key ≡ some b)
HasEntry locks _ = Unit

-- Every mutex of the first map is in the second.
abbrev Grows : (ℕ → Option Bool) → (ℕ → Option Bool) → Type 0
Grows f g = (k : ℕ) (b : Bool) → f k ≡ some b → (c : Bool) × (g k ≡ some c)

pub Grows-put :
    (k : ℕ) (v : Option Bool) (f : ℕ → Option Bool)
    → ((b : Bool) → f k ≡ some b → (c : Bool) × (v ≡ some c))
    → Grows f (put k v f)
Grows-put k v f h x b e = elim (Bool-cases (x == k)) [
  | inr n ↦ (b, rw n e)
  | inl y ↦
      let same : x ≡ k = (==_iff x k).0 y in
      let r = h b (subst (λ z. f z ≡ some b) same e) in (r.0, rw y r.1)
]

pub or_new-some : (o : Option Bool) (b : Bool) → o ≡ some b → (c : Bool) × (or_new o ≡ some c)
or_new-some none b h = cc
or_new-some (some x) b h = (x, refl)

pub unlocked-some : (o : Option Bool) (b : Bool) → o ≡ some b → (c : Bool) × (unlocked o ≡ some c)
unlocked-some none b h = cc
unlocked-some (some x) b h = (false, refl)

HasEntry-grow : (f g : ℕ → Option Bool) → Grows f g → (p : Phase) → HasEntry f p → HasEntry g p
HasEntry-grow f g h idle e = tt
HasEntry-grow f g h (claimed t) e = tt
HasEntry-grow f g h (waiting t) (b, e) = h t.key b e
HasEntry-grow f g h (running t) e = tt
HasEntry-grow f g h (released t) e = tt

pub entries-set :
    (f g : ℕ → Option Bool)
    → Grows f g
    → (ws : List Phase) (i : ℕ) (q : Phase) → HasEntry g q
    → All (HasEntry f) ws
    → All (HasEntry g) (set ws i q)
entries-set f g h [] i q e a = tt
entries-set f g h (w ∷ ws) zero q e a =
    (e, All-map (HasEntry f) (HasEntry g) ws (HasEntry-grow f g h) a.1)
entries-set f g h (w ∷ ws) (suc i) q e a =
    (HasEntry-grow f g h w a.0, entries-set f g h ws i q e a.1)

pub Grows-self : (f : ℕ → Option Bool) → Grows f f
Grows-self f k b e = (b, e)

pub entry-at :
    (f : ℕ → Option Bool) (ws : List Phase) (i : ℕ) (p : Phase)
    → All (HasEntry f) ws
    → get_elem? ws i ≡ some p
    → HasEntry f p
entry-at f [] i p a h = cc
entry-at f (w ∷ ws) zero p a h = let e : w ≡ p = cc h in subst (HasEntry f) e a.0
entry-at f (w ∷ ws) (suc i) p a h = entry-at f ws i p a.1 h

-- A count per key that agrees with the map after a `put`.
pub counted-put :
    (n : ℕ → ℕ) (key : ℕ) (v : Option Bool) (f : ℕ → Option Bool)
    → n key ≡ locked_one v
    → ((k : ℕ) → (k == key) ≡ false → n k ≡ locked_one (f k))
    → (k : ℕ) → n k ≡ locked_one (put key v f k)
counted-put n key v f h g k =
    by_cases (λ b. n k ≡ locked_one (if b then v else f k)) (k == key)
      (λ e. subst (λ x. n x ≡ locked_one v) (sym ((==_iff k key).0 e)) h) (λ e. g k e)

pub locked_one-or_new : (o : Option Bool) → locked_one (or_new o) ≡ locked_one o
locked_one-or_new none = refl
locked_one-or_new (some b) = refl

pub or_new-entry : (o : Option Bool) → (b : Bool) × (or_new o ≡ some b)
or_new-entry none = (false, refl)
or_new-entry (some b) = (b, refl)

pub unlocked-zero : (o : Option Bool) → locked_one (unlocked o) ≡ 0
unlocked-zero none = refl
unlocked-zero (some b) = refl

pub locked_one-le : (o : Option Bool) → locked_one o ≤ 1
locked_one-le none = omega arith
locked_one-le (some true) = omega arith
locked_one-le (some false) = omega arith

pub one_self : (k : ℕ) → one (k == k) ≡ 1
one_self k = ground arith

pub one-other : (k key : ℕ) → (k == key) ≡ false → one (key == k) ≡ 0
one-other k key h = ground arith

pub put_self : {A : Type 0} (k : ℕ) (v : A) (f : ℕ → A) → put k v f k ≡ v
put_self k v f =
    by_cases (λ b. b ≡ true → (if b then v else f k) ≡ v) (k == k) (λ _ _. refl) (λ _ h. cc)
      ((==_iff k k).1 refl)
