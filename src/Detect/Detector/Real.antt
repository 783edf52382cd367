-- ===== src/Detect/Detector/Real.antt =====
-- When `Detect` of internal/detect/detect.go records an update.
use dockbrr.Common.{
  ◌≡◌, ◌⊎◌, refl, subst, ℕ, Bool, true, false, not, ◌&&◌, ◌||◌, Option, none, some, List, [], ◌∷◌,
  All, All-append, Text, text_eq, if◌then◌else◌, Bool-cases, by_cases, inl, inr,
}
use mathlib.Core.Option
use dockbrr.Detect.Semver.{newer_semver_tag}
use dockbrr.Detect.Ref.{split_ref, classify_tag, semver_or_empty, semver_tag_pref}
use dockbrr.Detect.Reverse.{Cache, Scan, match_version}
use dockbrr.Detect.Detector.{
  Answer, good, bad, Service, Remote, Resolved, resolved, limited, absent, broken, Drift, World,
  Effect, upsert_state, record_image, supersede_all_open, set_resolved_version, drift, detected,
  ref_of, is_exact, is_current, close_stale, unchanged, head_shortcut, moved_target, target,
  set_version, resolve_current_version, versions, announce, record_update, drift_of, compare_target,
  detect_resolved, detect_split, detect, ok, kept_labels, if_named, newer_target, scanned_target,
  unless_named, announced, is_floating, or_else, local, nothing, unless_short,
}

-- The tag is the tracked one, or a newer release than an exact tracked one among the repository's tags.
abbrev pub IsTarget : World → Service → Text → Remote → Type 0
IsTarget w svc tag r =
    let parts = split_ref svc.image_ref in
    ((tag ≡ parts.1) × (w.resolve svc.image_ref ≡ resolved r))
    ⊎ ((tags : List Text) × (is_exact (classify_tag (ref_of parts.0 parts.1)) ≡ true)
        × (w.registry.list_tags parts.0 ≡ some tags)
        × (newer_semver_tag parts.1 tags ≡ some tag)
        × (w.resolve (ref_of parts.0 tag) ≡ resolved r))

-- An update that is recorded is one of the service from its running digest, to the image that the
-- registry serves for a target tag, which is not the running image by either of its digests.
abbrev pub IsReal : World → Service → Effect → Type 0
IsReal w svc (drift d) =
    (d.service_id ≡ svc.id)
    × (d.from_digest ≡ svc.current_digest)
    × ((r : Remote) × IsTarget w svc d.tag r
        × (d.to_digest ≡ r.digest)
        × (is_current svc r ≡ false))
IsReal w svc (upsert_state a b c d e) = Unit
IsReal w svc (record_image a b c) = Unit
IsReal w svc (supersede_all_open a) = Unit
IsReal w svc (set_resolved_version a b c) = Unit
IsReal w svc (detected a b c) = Unit

module _ (w : World) (svc : Service) where
  abbrev AllReal : List Effect → Type 0
  AllReal es = All (IsReal w svc) es

  close_stale-Real : AllReal (close_stale w svc)
  unfolding close_stale
  close_stale-Real =
      by_cases (λ b. AllReal (if b then supersede_all_open svc.id ∷ [] else [])) w.has_updates
        (λ _. (tt, tt)) (λ _. tt)

  unchanged-Real :
      (repo tag : Text) (a : Answer Text) (es : List Effect)
      → unchanged w svc repo tag a ≡ some es
      → AllReal es
  unfolding unchanged
  unchanged-Real repo tag (bad e) es = λ h. cc
  unchanged-Real repo tag (good served) es =
      by_cases
        (λ b.
          (if b
              then some (
                  upsert_state repo tag ok served (kept_labels (w.stored_labels repo tag))
                  ∷ close_stale w svc)
              else none)
            ≡ some es
          → AllReal es)
        (text_eq served svc.current_digest)
        (λ _ h. subst AllReal (Option.some_inj.0 h) (tt, close_stale-Real)) (λ _ h. cc)

  if_named-Real :
      (repo tag : Text) (o : Option Bool) (es : List Effect)
      → if_named w svc repo tag o ≡ some es
      → AllReal es
  unfolding if_named
  if_named-Real repo tag none es h = cc
  if_named-Real repo tag (some false) es h = cc
  if_named-Real repo tag (some true) es h = unchanged-Real repo tag (w.head svc.image_ref) es h

  head_shortcut-Real :
      (repo tag : Text) (es : List Effect) → head_shortcut w svc repo tag ≡ some es → AllReal es
  unfolding head_shortcut
  head_shortcut-Real repo tag es =
      by_cases
        (λ b.
          (if b then none else if_named w svc repo tag (w.named_before repo svc.current_digest))
            ≡ some es
          → AllReal es)
        (not w.has_images || not (is_floating (classify_tag (ref_of repo tag)))) (λ _ h. cc)
        (λ _ h. if_named-Real repo tag (w.named_before repo svc.current_digest) es h)

  set_version-Real :
      (repo digest label : Text) (s : Scan) → AllReal (set_version w repo digest label s).0
  unfolding set_version
  set_version-Real repo digest label s = elim (Bool-cases (text_eq s.name [] && not s.conclusive)) [
    | inl e ↦ rw (set_version, e) tt
    | inr e ↦ rw (set_version, e) (tt, tt)
  ]

  unless_named-Real :
      (cache : Cache) (named : List Effect × Cache) (o : Option Bool)
      → AllReal named.0
      → AllReal (unless_named w cache named o).0
  unfolding unless_named
  unless_named-Real cache named none h = h
  unless_named-Real cache named (some false) h = h
  unless_named-Real cache named (some true) h = tt

  resolve_current_version-Real :
      (cache : Cache) (repo tag : Text) (remote : Remote)
      → AllReal (resolve_current_version w cache svc repo tag remote).0
  unfolding resolve_current_version
  resolve_current_version-Real cache repo tag remote =
      let scan =
        match_version w.registry cache repo (or_else svc.current_image_id remote.config_digest)
          (semver_tag_pref remote.version) in
      let named = set_version w repo svc.current_digest remote.version scan in
      by_cases
        (λ b.
          AllReal
            (if b
              then ([], cache)
              else unless_named w cache named (w.named_after repo svc.current_digest)).0)
        ((not w.has_images || text_eq svc.current_digest [])
          || (not (text_eq (semver_or_empty tag) [])
              || not (is_floating (classify_tag (ref_of repo tag)))))
        (λ _. tt)
        (λ _.
          unless_named-Real cache named (w.named_after repo svc.current_digest)
            (set_version-Real repo svc.current_digest remote.version scan))

  announced-Real :
      (d : Drift) (id : ℕ) (a : Answer (Unit {0}))
      → IsReal w svc (drift d)
      → AllReal (announced w svc d id a).0
  unfolding announced
  announced-Real d id (bad e) h = (h, tt)
  announced-Real d id (good _) h = (h, (tt, tt))

  announce-Real :
      (d : Drift) (id : ℕ) (b : Bool) → IsReal w svc (drift d) → AllReal (announce w svc d id b).0
  unfolding announce
  announce-Real d id false h = (h, tt)
  announce-Real d id true h = announced-Real d id w.save_event h

  record_update-Real :
      (d : Drift) (a : Answer (ℕ × Bool))
      → IsReal w svc (drift d)
      → AllReal (record_update w svc d a).0
  unfolding record_update
  record_update-Real d (bad e) h = tt
  record_update-Real d (good (id, b)) h = announce-Real d id b h

  compare_target-Real :
      (cache : Cache) (repo tag : Text) (remote : Remote) (t : Text × Remote)
      → IsTarget w svc t.0 t.1
      → AllReal (compare_target w cache svc repo tag remote t).effects
  unfolding compare_target
  compare_target-Real cache repo tag remote t h = elim (Bool-cases (is_current svc t.1)) [
    | inl e ↦
        rw (compare_target, e)
          (All-append (IsReal w svc) (close_stale w svc) _ close_stale-Real
            (resolve_current_version-Real cache repo tag remote))
    | inr e ↦
        let d = drift_of svc t (versions w cache svc repo tag t) in
        rw (compare_target, e)
          (record_update-Real d (w.record_drift d) (refl, refl, (t.1, h, refl, e)))
  ]

  -- The tracked tag, where the scan finds no other.
  stays-IsTarget :
      (remote : Remote)
      → w.resolve svc.image_ref ≡ resolved remote
      → IsTarget w svc (split_ref svc.image_ref).1 remote
  stays-IsTarget remote h = inl (refl, h)

  moved-IsTarget :
      (remote : Remote) (tags : List Text) (newer : Text) (a : Resolved)
      → w.resolve svc.image_ref ≡ resolved remote
      → is_exact (classify_tag (ref_of (split_ref svc.image_ref).0 (split_ref svc.image_ref).1))
        ≡ true
      → w.registry.list_tags (split_ref svc.image_ref).0 ≡ some tags
      → newer_semver_tag (split_ref svc.image_ref).1 tags ≡ some newer
      → w.resolve (ref_of (split_ref svc.image_ref).0 newer) ≡ a
      → let t = moved_target w (split_ref svc.image_ref).1 remote newer a in IsTarget w svc t.0 t.1
  unfolding moved_target
  moved-IsTarget remote tags newer (resolved r) h x l n e = inr (tags, x, l, n, e)
  moved-IsTarget remote tags newer limited h x l n e = stays-IsTarget remote h
  moved-IsTarget remote tags newer absent h x l n e = stays-IsTarget remote h
  moved-IsTarget remote tags newer broken h x l n e = stays-IsTarget remote h

  newer-IsTarget :
      (remote : Remote) (tags : List Text) (o : Option Text)
      → w.resolve svc.image_ref ≡ resolved remote
      → is_exact (classify_tag (ref_of (split_ref svc.image_ref).0 (split_ref svc.image_ref).1))
        ≡ true
      → w.registry.list_tags (split_ref svc.image_ref).0 ≡ some tags
      → newer_semver_tag (split_ref svc.image_ref).1 tags ≡ o
      → let t = newer_target w (split_ref svc.image_ref).0 (split_ref svc.image_ref).1 remote o in
        IsTarget w svc t.0 t.1
  unfolding newer_target
  newer-IsTarget remote tags none h x l n = stays-IsTarget remote h
  newer-IsTarget remote tags (some newer) h x l n =
      moved-IsTarget remote tags newer (w.resolve (ref_of (split_ref svc.image_ref).0 newer)) h x l
        n refl

  scanned-IsTarget :
      (remote : Remote) (o : Option (List Text))
      → w.resolve svc.image_ref ≡ resolved remote
      → is_exact (classify_tag (ref_of (split_ref svc.image_ref).0 (split_ref svc.image_ref).1))
        ≡ true
      → w.registry.list_tags (split_ref svc.image_ref).0 ≡ o
      → let t = scanned_target w (split_ref svc.image_ref).0 (split_ref svc.image_ref).1 remote o in
        IsTarget w svc t.0 t.1
  unfolding scanned_target
  scanned-IsTarget remote none h x l = stays-IsTarget remote h
  scanned-IsTarget remote (some tags) h x l =
      newer-IsTarget remote tags (newer_semver_tag (split_ref svc.image_ref).1 tags) h x l refl

  target-IsTarget :
      (remote : Remote)
      → w.resolve svc.image_ref ≡ resolved remote
      → let t = target w (split_ref svc.image_ref).0 (split_ref svc.image_ref).1 remote in
        IsTarget w svc t.0 t.1
  unfolding target
  target-IsTarget remote h =
      let repo = (split_ref svc.image_ref).0 in
      let tag = (split_ref svc.image_ref).1 in
      by_cases
        (λ b.
          is_exact (classify_tag (ref_of repo tag)) ≡ b
          → let t : Text × Remote =
              if b
              then scanned_target w repo tag remote (w.registry.list_tags repo)
              else (tag, remote) in
            IsTarget w svc t.0 t.1)
        (is_exact (classify_tag (ref_of repo tag)))
        (λ _ x. scanned-IsTarget remote (w.registry.list_tags repo) h x refl)
        (λ _ _. stays-IsTarget remote h) refl

  detect_resolved-Real :
      (cache : Cache) (a : Resolved)
      → w.resolve svc.image_ref ≡ a
      → AllReal
          (detect_resolved w cache svc
            (split_ref svc.image_ref).0
            (split_ref svc.image_ref).1
            a).effects
  unfolding detect_resolved
  detect_resolved-Real cache (resolved remote) h =
      let repo = (split_ref svc.image_ref).0 in
      let tag = (split_ref svc.image_ref).1 in
      let t = target w repo tag remote in
      (
        tt,
        (
          tt,
          All-append (IsReal w svc) (if text_eq t.0 tag then [] else record_image repo t.0 t.1 ∷ [])
              _
              (by_cases (λ b. AllReal (if b then [] else record_image repo t.0 t.1 ∷ []))
                (text_eq t.0 tag) (λ _. tt) (λ _. (tt, tt)))
              (compare_target-Real cache repo tag remote t (target-IsTarget remote h)),
        ),
      )
  detect_resolved-Real cache limited h = (tt, tt)
  detect_resolved-Real cache absent h = (tt, tt)
  detect_resolved-Real cache broken h = (tt, tt)

  unless_short-Real :
      (cache : Cache) (o : Option (List Effect))
      → head_shortcut w svc (split_ref svc.image_ref).0 (split_ref svc.image_ref).1 ≡ o
      → AllReal
          (unless_short w cache svc
            (split_ref svc.image_ref).0
            (split_ref svc.image_ref).1
            o).effects
  unfolding unless_short
  unless_short-Real cache none h = detect_resolved-Real cache (w.resolve svc.image_ref) refl
  unless_short-Real cache (some es) h =
      head_shortcut-Real (split_ref svc.image_ref).0 (split_ref svc.image_ref).1 es h

  detect_split-Real :
      (cache : Cache)
      → AllReal
          (detect_split w cache svc (split_ref svc.image_ref).0 (split_ref svc.image_ref).1).effects
  unfolding detect_split
  detect_split-Real cache =
      let repo = (split_ref svc.image_ref).0 in
      let tag = (split_ref svc.image_ref).1 in
      let short = head_shortcut w svc repo tag in
      by_cases
        (λ b.
          AllReal
            (if b
              then record {
                effects = upsert_state repo tag local [] [] ∷ [];
                cache = cache;
                outcome = nothing;
              }
              else unless_short w cache svc repo tag short).effects)
        svc.image_local (λ _. (tt, tt)) (λ _. unless_short-Real cache short refl)

-- A detection cycle records only updates that are real: of the service itself, from its running digest
-- to the digest that the registry serves for the tracked tag, or for a newer release where the tracked
-- tag is exact; and neither digest of that image is the running one.
pub detect-Real :
    (w : World) (cache : Cache) (svc : Service) → All (IsReal w svc) (detect w cache svc).effects
unfolding detect
detect-Real w cache svc =
    elim (Bool-cases (text_eq svc.image_ref [] || text_eq svc.current_digest [])) [
      | inl e ↦ rw (detect, e) tt
      | inr e ↦ rw (detect, e) (detect_split-Real w svc cache)
    ]
