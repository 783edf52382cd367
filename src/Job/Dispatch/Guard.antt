-- ===== src/Job/Dispatch/Guard.antt =====
-- Which jobs the guard of internal/job/dispatch.go refuses.
use dockbrr.Common.{
  ◌≡◌, ◌↔◌, refl, subst, ℕ, Bool, true, false, Option, none, some, List, [], ◌∷◌, Text, any, In,
  here, there, arith, Bool-cases, inl, inr, if◌then◌else◌,
}
use dockbrr.Store.Jobs.Defs.{JobType}
use dockbrr.Job.Effects.{Answer, good, bad}
use dockbrr.Job.Dispatch
use dockbrr.Job.Dispatch.{
  Target, Wiring, Stored, refused, same_container, holds_self, targets_self, is_mutating, guarded,
  refuse_self_target, by_kind, is_standalone, route_guarded, route, is_self_update,
}

-- One of the services has a container id that names the own container, in full or cut short.
pub record HoldsSelf (self : Text) (svcs : List (List Text)) : Type 0 where
  pub ids : List Text
  pub cid : Text
  pub service_listed : In ids svcs
  pub listed : In cid ids
  pub same : same_container self cid ≡ true

-- The job's service, or else a service of its project, could be loaded and has the own container.
abbrev pub TargetsSelf : Text → Stored → Option ℕ → Option ℕ → Type 0
TargetsSelf self st (some i) p =
    (ids : List Text) × (st.get_service i ≡ good ids) × HoldsSelf self (ids ∷ [])
TargetsSelf self st none (some p) =
    (svcs : List (List Text)) × (st.list_project p ≡ good svcs) × HoldsSelf self svcs
TargetsSelf self st none none = ⊥

any-In :
    (self : Text) (ids : List Text)
    → any (same_container self) ids ≡ true
    → (cid : Text) × In cid ids × (same_container self cid ≡ true)
any-In self [] h = cc
any-In self (c ∷ ids) h = elim (Bool-cases (same_container self c)) [
  | inl e ↦ (c, here, e)
  | inr e ↦ let (cid, m, s) = any-In self ids (ground arith) in (cid, there m, s)
]

In-any :
    (self cid : Text) (ids : List Text)
    → In cid ids
    → same_container self cid ≡ true
    → any (same_container self) ids ≡ true
In-any self cid [] m h = elim m [ ]
In-any self cid (_ ∷ ids) here h = ground arith
In-any self cid (c ∷ ids) (there m) h = ground (arith, In-any self cid ids m h)

holds_self-HoldsSelf :
    (self : Text) (svcs : List (List Text)) → holds_self self svcs ≡ true → HoldsSelf self svcs
unfolding holds_self
holds_self-HoldsSelf self [] h = cc
holds_self-HoldsSelf self (ids ∷ svcs) h = elim (Bool-cases (any (same_container self) ids)) [
  | inl e ↦
      let (cid, m, s) = any-In self ids e in
      record { ids = ids; cid = cid; service_listed = here; listed = m; same = s }
  | inr e ↦
      let r = holds_self-HoldsSelf self svcs (ground arith) in
      record {
        ids = r.ids;
        cid = r.cid;
        service_listed = there r.service_listed;
        listed = r.listed;
        same = r.same;
      }
]

In-holds_self :
    (self cid : Text) (ids : List Text) (svcs : List (List Text))
    → In ids svcs
    → In cid ids
    → same_container self cid ≡ true
    → holds_self self svcs ≡ true
unfolding holds_self
In-holds_self self cid ids [] m k h = elim m [ ]
In-holds_self self cid ids (_ ∷ svcs) here k h = ground (arith, In-any self cid ids k h)
In-holds_self self cid ids (x ∷ svcs) (there m) k h =
    ground (arith, In-holds_self self cid ids svcs m k h)

service_TargetsSelf :
    (self : Text) (a : Answer (List Text))
    → (Dispatch.service_holds self a ≡ true)
      ↔ ((ids : List Text) × (a ≡ good ids) × HoldsSelf self (ids ∷ []))
service_TargetsSelf self (bad e) = ((λ h. cc), λ h. let k = h.1 in cc)
service_TargetsSelf self (good ids) = (
  (λ h. (ids, refl, holds_self-HoldsSelf self (ids ∷ []) h)),
  λ (xs, e, r).
      let same : xs ≡ ids = cc e in
      subst (λ x. holds_self self (x ∷ []) ≡ true) same
        (In-holds_self self r.cid r.ids (xs ∷ []) r.service_listed r.listed r.same),
)

project_TargetsSelf :
    (self : Text) (a : Answer (List (List Text)))
    → (Dispatch.project_holds self a ≡ true)
      ↔ ((svcs : List (List Text)) × (a ≡ good svcs) × HoldsSelf self svcs)
project_TargetsSelf self (bad e) = ((λ h. cc), λ h. let k = h.1 in cc)
project_TargetsSelf self (good svcs) = (
  (λ h. (svcs, refl, holds_self-HoldsSelf self svcs h)),
  λ (xs, e, r).
      let same : xs ≡ svcs = cc e in
      subst (λ x. holds_self self x ≡ true) same
        (In-holds_self self r.cid r.ids xs r.service_listed r.listed r.same),
)

targets_self-TargetsSelf :
    (self : Text) (st : Stored) (svc p : Option ℕ)
    → (targets_self self st svc p ≡ true) ↔ TargetsSelf self st svc p
unfolding targets_self
targets_self-TargetsSelf self st (some i) p = service_TargetsSelf self (st.get_service i)
targets_self-TargetsSelf self st none (some p) = project_TargetsSelf self (st.list_project p)
targets_self-TargetsSelf self st none none = ((λ h. cc), λ h. absurd h)

by_kind-ne-refused : (k : JobType) (b : Bool) → by_kind k b ≡ refused → ⊥
unfolding by_kind
by_kind-ne-refused k b h = ground arith

self_not_mutating : (k : JobType) → is_self_update k ≡ true → is_mutating k ≡ false
unfolding is_mutating
self_not_mutating k h = ground arith

updater-ne-refused :
    (b : Bool) → (if b then Dispatch.to_updater else Dispatch.unavailable) ≡ refused → ⊥
updater-ne-refused true h = cc
updater-ne-refused false h = cc

unguarded :
    (w : Wiring) (st : Stored) (job : Target)
    → is_mutating job.kind ≡ false
    → refuse_self_target w st job ≡ true
    → ⊥
unfolding refuse_self_target guarded
unguarded w st job q h = ground arith

route-refused :
    (w : Wiring) (st : Stored) (job : Target)
    → (route w st job ≡ refused) ↔ (refuse_self_target w st job ≡ true)
unfolding route route_guarded
route-refused w st job = elim (Bool-cases (is_self_update job.kind)) [
  | inl e ↦
      let q = self_not_mutating job.kind e in
      rw e ((λ h. absurd (updater-ne-refused w.updater h)), λ h. absurd (unguarded w st job q h))
  | inr e ↦ elim (Bool-cases (refuse_self_target w st job)) [
    | inl k ↦ rw (e, k) ((λ h. refl), λ h. refl)
    | inr k ↦
        rw (e, k)
          (
            (λ h. absurd (by_kind-ne-refused job.kind (is_standalone w st job.project_id) h)),
            λ h. cc,
          )
  ]
]

-- A job is refused exactly if the guard is armed, the job mutates containers, and its service (or, with
-- no service, a service of its project) could be loaded and has a container id that names dockbrr's own
-- container, one being a prefix of the other.
pub route_lem :
    (w : Wiring) (st : Stored) (job : Target)
    → (route w st job ≡ refused)
      ↔ ((guarded w job.kind ≡ true) × TargetsSelf w.self_id st job.service_id job.project_id)
unfolding refuse_self_target
route_lem w st job =
    let r = route-refused w st job in
    let t = targets_self-TargetsSelf w.self_id st job.service_id job.project_id in
    (
      (λ h.
          let k = r.0 h in
          let a : guarded w job.kind ≡ true = ground arith in
          let b : targets_self w.self_id st job.service_id job.project_id ≡ true = ground arith in
          (a, t.0 b)),
      λ h. r.1 (let a = h.0 in let b = t.1 h.1 in ground arith),
    )
