-- ===== src/Job/SelfUpdater/Swap.antt =====
-- When internal/job/selfupdate.go hands the swap to its helper.
use dockbrr.Common.{
  ◌≡◌, inl, inr, refl, Bool, true, false, Option, none, some, List, [], ◌∷◌, any, Text, text_eq,
  if◌then◌else◌, arith, by_cases, Bool-cases,
}
use dockbrr.Detect.Semver.{Core, parse_core, core_less}
use dockbrr.Store.Jobs.Defs as JobDefs
use dockbrr.Job.Effects.{Answer, good, bad}
use dockbrr.Job.SelfUpdater.{
  World, Result, Reason, Effect, emit, spawn, finish, target_self_image, is_published,
  verify_pulled, fail, unless_unpublished, after_pull, pull_image, from_ref, update_to, checked,
  handle, no_container, check_failed, ref_failed, pull_failed, up_to_date,
}

-- The helper is called.
abbrev is_spawn : Effect → Bool
is_spawn (spawn ref image ok) = true
is_spawn _ = false

abbrev pub spawns : List Effect → Bool
spawns = any is_spawn

-- The pulled image carries a version, and it is no older than the release.
abbrev pub Published : World → Text → Text → Type 0
Published w image latest =
    (version : Text) × (got : Core) × (want : Core) × (w.image_version image ≡ good version)
    × (parse_core version ≡ some got)
    × (parse_core latest ≡ some want)
    × (core_less got want ≡ false)

-- dockbrr runs in a container, a newer release is available, and its image is pulled and published.
abbrev pub Accepted : World → Type 0
Accepted w =
    (res : Result) × (ref : Text) × (text_eq w.self_id [] ≡ false)
    × (w.check ≡ good res)
    × (res.update_available ≡ true)
    × (w.image_ref ≡ good ref)
    × (w.image_pull (target_self_image ref res.latest) ≡ good tt)
    × Published w (target_self_image ref res.latest) res.latest

is_published-cores :
    (a b : Option Core)
    → is_published a b ≡ true
    → (got : Core) × (want : Core) × (a ≡ some got) × (b ≡ some want) × (core_less got want ≡ false)
unfolding is_published
is_published-cores (some got) (some want) h = (got, want, refl, refl, ground arith)
is_published-cores (some got) none h = cc
is_published-cores none want h = cc

verify_pulled-none :
    (a : Answer Text) (latest : Text)
    → verify_pulled a latest ≡ none
    → (version : Text) × (got : Core) × (want : Core) × (a ≡ good version)
      × (parse_core version ≡ some got)
      × (parse_core latest ≡ some want)
      × (core_less got want ≡ false)
unfolding verify_pulled
verify_pulled-none (bad e) latest h = cc
verify_pulled-none (good v) latest h =
    elim (Bool-cases (is_published (parse_core v) (parse_core latest))) [
      | inl e ↦
          let c = is_published-cores (parse_core v) (parse_core latest) e in
          (v, c.0, c.1, refl, c.2, c.3, c.4)
      | inr e ↦ absurd (ground arith)
    ]

module _ (w : World) where
  fail-spawns : (r : Reason) → spawns (fail r) ≡ false
  unfolding fail
  fail-spawns r = refl

  unless_unpublished-none :
      (ref image : Text) (o : Option Reason)
      → spawns (unless_unpublished w ref image o) ≡ true
      → o ≡ none
  unfolding unless_unpublished
  unless_unpublished-none ref image none h = refl
  unless_unpublished-none ref image (some r) h = absurd (cc (fail-spawns r, h))

  after_pull-spawns :
      (ref image latest : Text) (a : Answer (Unit {0}))
      → spawns (after_pull w ref image latest a) ≡ true
      → (a ≡ good tt) × Published w image latest
  unfolding after_pull
  after_pull-spawns ref image latest (bad e) h = absurd (cc (fail-spawns (pull_failed image e), h))
  after_pull-spawns ref image latest (good tt) h = (
    refl,
    verify_pulled-none (w.image_version image) latest (unless_unpublished-none ref image _ h),
  )

  from_ref-spawns :
      (latest : Text) (a : Answer Text)
      → spawns (from_ref w latest a) ≡ true
      → (ref : Text) × (a ≡ good ref)
        × (w.image_pull (target_self_image ref latest) ≡ good tt)
        × Published w (target_self_image ref latest) latest
  unfolding from_ref pull_image
  from_ref-spawns latest (bad e) h = absurd (cc (fail-spawns (ref_failed e), h))
  from_ref-spawns latest (good ref) h =
      let image = target_self_image ref latest in
      let r = after_pull-spawns ref image latest (w.image_pull image) h in (ref, refl, r.0, r.1)

  checked-spawns :
      (a : Answer Result)
      → spawns (checked w a) ≡ true
      → (res : Result) × (ref : Text) × (a ≡ good res)
        × (res.update_available ≡ true)
        × (w.image_ref ≡ good ref)
        × (w.image_pull (target_self_image ref res.latest) ≡ good tt)
        × Published w (target_self_image ref res.latest) res.latest
  unfolding checked update_to
  checked-spawns (bad e) h = absurd (cc (fail-spawns (check_failed e), h))
  checked-spawns (good res) h =
      by_cases
        (λ b.
          spawns (
              if b
              then update_to w res.latest
              else emit up_to_date ∷ finish JobDefs.success none ∷ [])
            ≡ true
          → res.update_available ≡ b
          → (res' : Result) × (ref : Text) × (good res ≡ good res')
            × (res'.update_available ≡ true)
            × (w.image_ref ≡ good ref)
            × (w.image_pull (target_self_image ref res'.latest) ≡ good tt)
            × Published w (target_self_image ref res'.latest) res'.latest)
        res.update_available
        (λ _ k e.
          let r = from_ref-spawns res.latest w.image_ref k in (res, r.0, refl, e, r.1, r.2, r.3))
        (λ _ h e. absurd (cc h)) h refl

  -- dockbrr hands its own swap to the helper only if it runs in a container, a newer release is
  -- available, its image is pulled, and the pulled image carries a version that parses and is no older
  -- than the release: an image that is not published yet is never swapped in.
  pub spawns-Accepted : spawns (handle w) ≡ true → Accepted w
  unfolding handle
  spawns-Accepted h = elim (Bool-cases (text_eq w.self_id [])) [
    | inl e ↦ absurd (ground (arith, fail-spawns no_container))
    | inr e ↦
        let r = checked-spawns w.check (ground arith) in (r.0, r.1, e, r.2, r.3, r.4, r.5, r.6)
  ]
