-- ===== src/Job/Health/Gate.antt =====
-- What the verdict of the health gate of internal/job/worker.go says of the containers.
use dockbrr.Common.{
  ◌≡◌, refl, subst, ◌⊎◌, inl, inr, ℕ, zero, suc, ◌+◌, ◌≤◌, Bool, true, false, ◌&&◌, Option, some,
  List, [], ◌∷◌, Text, All, In, here, there, Bool-cases, Option-cases, arith,
}
use dockbrr.Job.Health.{
  ContainerStatus, Round, ready, waiting, broken, is_down, is_ready, pass, Verdict, healthy,
  timed_out, down, rounds, health_gate,
}

-- The container was inspected, is not down, and is ready.
pub record IsUp (inspect : Text → Option ContainerStatus) (id : Text) : Type 0 where
  pub status : ContainerStatus
  pub inspected : inspect id ≡ some status
  pub not_down : is_down status ≡ false
  pub is_up : is_ready status ≡ true

-- One of the containers was inspected, with this status, and is down.
pub record IsBroken (inspect : Text → Option ContainerStatus) (ids : List Text) (id : Text)
    (st : ContainerStatus) : Type 0 where
  pub listed : In id ids
  pub inspected : inspect id ≡ some st
  pub is_broken : is_down st ≡ true

abbrev pub RoundAnswer : (Text → Option ContainerStatus) → Bool → List Text → Round → Type 0
RoundAnswer inspect b ids ready = (b ≡ true) × All (IsUp inspect) ids
RoundAnswer inspect b ids waiting = b ≡ true → All (IsUp inspect) ids → ⊥
RoundAnswer inspect b ids (broken id st) = IsBroken inspect ids id st

module _ (inspect : Text → Option ContainerStatus) where
  status_unique :
      (id : Text) (st : ContainerStatus)
      → inspect id ≡ some st
      → (u : IsUp inspect id) → is_ready st ≡ true
  status_unique id st e u =
      let k : u.status ≡ st = cc (e, u.inspected) in subst (λ x. is_ready x ≡ true) k u.is_up

  down_not_up :
      (id : Text) (st : ContainerStatus)
      → inspect id ≡ some st
      → is_down st ≡ true
      → IsUp inspect id
      → ⊥
  down_not_up id st e d u =
      let k : u.status ≡ st = cc (e, u.inspected) in
      let n : is_down st ≡ false = subst (λ x. is_down x ≡ false) k u.not_down in cc (d, n)

  pass-ready : (b c : Bool) → (b && c) ≡ true → (b ≡ true) × (c ≡ true)
  pass-ready b c h = ground arith

  answer-cons :
      (b : Bool) (id : Text) (ids : List Text) (st : ContainerStatus)
      → inspect id ≡ some st
      → is_down st ≡ false
      → (r : Round) → RoundAnswer inspect (b && is_ready st) ids r
      → RoundAnswer inspect b (id ∷ ids) r
  answer-cons b id ids st e d ready h =
      let k = pass-ready b (is_ready st) h.0 in
      (k.0, (record { status = st; inspected = e; not_down = d; is_up = k.1 }, h.1))
  answer-cons b id ids st e d waiting h = λ hb a. h (rw (hb, status_unique id st e a.0) refl) a.1
  answer-cons b id ids st e d (broken i s) h = record {
    listed = there h.listed;
    inspected = h.inspected;
    is_broken = h.is_broken;
  }

  pass_lem : (b : Bool) (ids : List Text) → RoundAnswer inspect b ids (pass inspect b ids)
  unfolding pass
  pass_lem true [] = (refl, tt)
  pass_lem false [] = λ h a. cc
  pass_lem b (id ∷ ids) = elim (Option-cases (inspect id)) [
    | inl e ↦ rw (pass, e) (λ h a. let u = a.0.inspected in cc)
    | inr (st, e) ↦ elim (Bool-cases (is_down st)) [
      | inl d ↦ rw (pass, e, d) (record { listed = here; inspected = e; is_broken = d })
      | inr d ↦
          rw (pass, e, d)
            (answer-cons b id ids st e d (pass inspect (b && is_ready st) ids)
              (pass_lem (b && is_ready st) ids))
    ]
  ]

-- What the gate says of the rounds from `first` to `last`: in one of them all containers were up; in
-- none; or one of them was down.
abbrev pub GateAnswer : (ℕ → Text → Option ContainerStatus) → ℕ → ℕ → List Text → Verdict → Type 0
GateAnswer inspect first last ids healthy =
    (n : ℕ) × (first ≤ n) × (n ≤ last) × All (IsUp (inspect n)) ids
GateAnswer inspect first last ids timed_out =
    (n : ℕ) → first ≤ n → n ≤ last → All (IsUp (inspect n)) ids → ⊥
GateAnswer inspect first last ids (down id st) =
    (n : ℕ) × (first ≤ n) × (n ≤ last) × IsBroken (inspect n) ids id st

module _ (inspect : ℕ → Text → Option ContainerStatus) (ids : List Text) where
  waiting-first :
      (n : ℕ)
      → (All (IsUp (inspect n)) ids → ⊥)
      → (m : ℕ) → n ≤ m
      → m ≤ n
      → All (IsUp (inspect m)) ids
      → ⊥
  waiting-first n h m a b k =
      let e : m ≡ n = omega arith in h (subst (λ x. All (IsUp (inspect x)) ids) e k)

  last_round :
      (n : ℕ) (r : Round)
      → pass (inspect n) true ids ≡ r
      → RoundAnswer (inspect n) true ids r
      → GateAnswer inspect n n ids (rounds inspect ids 0 n)
  unfolding rounds
  last_round n ready e h = rw (rounds, e) (n, omega arith, omega arith, h.1)
  last_round n waiting e h = rw (rounds, e) (waiting-first n (h refl))
  last_round n (broken id st) e h = rw (rounds, e) (n, omega arith, omega arith, h)

  later_answer :
      (n last : ℕ)
      → (All (IsUp (inspect n)) ids → ⊥)
      → (v : Verdict) → GateAnswer inspect (suc n) last ids v
      → GateAnswer inspect n last ids v
  later_answer n last w healthy (m, a, b, h) = (m, omega (arith, a), b, h)
  later_answer n last w timed_out h = λ m a b k. elim (split m a) [
    | inl e ↦ w (subst (λ x. All (IsUp (inspect x)) ids) e k)
    | inr l ↦ h m l b k
  ]
    where
      split : (m : ℕ) → n ≤ m → (m ≡ n) ⊎ (suc n ≤ m)
      split m a = omega arith
  later_answer n last w (down id st) (m, a, b, h) = (m, omega (arith, a), b, h)

  next_round :
      (polls n last : ℕ) (r : Round)
      → suc n ≤ last
      → pass (inspect n) true ids ≡ r
      → RoundAnswer (inspect n) true ids r
      → GateAnswer inspect (suc n) last ids (rounds inspect ids polls (suc n))
      → GateAnswer inspect n last ids (rounds inspect ids (suc polls) n)
  unfolding rounds
  next_round polls n last ready l e h k = rw (rounds, e) (n, omega arith, omega arith, h.1)
  next_round polls n last waiting l e h k =
      rw (rounds, e) (later_answer n last (h refl) (rounds inspect ids polls (suc n)) k)
  next_round polls n last (broken id st) l e h k = rw (rounds, e) (n, omega arith, omega arith, h)

  rounds_lem : (polls n : ℕ) → GateAnswer inspect n (n + polls) ids (rounds inspect ids polls n)
  rounds_lem zero n =
      rw (plus_zero n)
        (last_round n (pass (inspect n) true ids) refl (pass_lem (inspect n) true ids))
    where
      plus_zero : (n : ℕ) → n + 0 ≡ n
      plus_zero n = omega arith
  rounds_lem (suc polls) n =
      next_round polls n (n + suc polls) (pass (inspect n) true ids) (omega arith) refl
        (pass_lem (inspect n) true ids)
        (subst (λ k. GateAnswer inspect (suc n) k ids (rounds inspect ids polls (suc n)))
          (omega arith) (rounds_lem polls (suc n)))

-- The verdict of the health gate, over the polls before the timeout. Healthy: in one round every
-- container was inspected, was not down and was ready (with no container, trivially). Down: in one
-- round that container was inspected and was exited or unhealthy. Timed out: in no round all were up.
pub health_gate_lem :
    (inspect : ℕ → Text → Option ContainerStatus) (polls : ℕ) (ids : List Text)
    → GateAnswer inspect 0 polls ids (health_gate inspect polls ids)
unfolding health_gate
health_gate_lem inspect polls [] = (0, omega arith, omega arith, tt)
health_gate_lem inspect polls (id ∷ ids) =
    subst (λ k. GateAnswer inspect 0 k (id ∷ ids) (rounds inspect (id ∷ ids) polls 0)) (omega arith)
      (rounds_lem inspect (id ∷ ids) polls 0)
