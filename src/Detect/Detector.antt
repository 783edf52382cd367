-- ===== src/Detect/Detector.antt =====
-- `Detect` of internal/detect/detect.go, with `headShortcut`, `closeStaleUpdates`,
-- `resolveCurrentVersion` and `record`. The registry and the repositories are answers; the effects are
-- the writes. A write whose error is only logged stands among them without a flag.
pub mod Real
use dockbrr.Common.{
  ℕ, Bool, true, false, not, ◌&&◌, ◌||◌, Option, none, some, List, [], ◌∷◌, ◌++◌, Text, bytes,
  text_eq, if◌then◌else◌,
}
use dockbrr.Detect.Semver.{Severity, severity, newer_semver_tag}
use dockbrr.Detect.Ref.{
  TagClass, floating, exact, split_ref, classify_tag, semver_or_empty, semver_tag_pref,
  prefer_digest_tag,
}
use dockbrr.Detect.Reverse.{Registry, Cache, Scan, match_version}

-- An answer, or the text of an error.
pub data Answer {ℓ} (A : Type ℓ) : Type ℓ where
  good : A → Answer A
  bad : Text → Answer A

-- The fields of `store.Service` that are read.
pub record Service : Type 0 where
  pub id : ℕ
  pub image_ref : Text
  pub current_digest : Text
  pub current_image_id : Text
  pub image_version : Text
  pub image_local : Bool

-- The fields of `registry.RemoteImage` that are read; `version` is the label
-- "org.opencontainers.image.version".
pub record Remote : Type 0 where
  pub digest : Text
  pub platform_digest : Text
  pub config_digest : Text
  pub version : Text
  pub labels : Text

-- What `Resolve` answers: an image, "too many requests", 401 or 404, or another error.
pub data Resolved : Type 0 where
  resolved : Remote → Resolved
  limited absent broken : Resolved

-- The column `status` of a remote state.
pub data StateStatus : Type 0 where
  local ok error rate_limited not_found : StateStatus

-- The fields of the update that `record` writes.
pub record Drift : Type 0 where
  pub service_id : ℕ
  pub from_digest : Text
  pub to_digest : Text
  pub from_version : Text
  pub to_version : Text
  pub tag : Text
  pub severity : Severity

-- The answers. `named_before` and `named_after` are the flag `VersionResolved` of the image row, before
-- and behind the resolution, `none` where the row cannot be read; `has_images` and `has_updates` say
-- whether the repositories are there.
pub record World : Type 0 where
  pub registry : Registry
  pub resolve : Text → Resolved
  pub head : Text → Answer Text
  pub has_images : Bool
  pub has_updates : Bool
  pub named_before : Text → Text → Option Bool
  pub named_after : Text → Text → Option Bool
  pub stored_labels : Text → Text → Option Text
  pub record_drift : Drift → Answer (ℕ × Bool)
  pub save_event : Answer (Unit {0})

pub data Effect : Type 0 where
  upsert_state : Text → Text → StateStatus → Text → Text → Effect
  record_image : Text → Text → Remote → Effect
  supersede_all_open : ℕ → Effect
  set_resolved_version : Text → Text → Text → Effect
  drift : Drift → Effect
  detected : ℕ → Text → Text → Effect

-- What `Detect` returns.
pub data Outcome : Type 0 where
  nothing : Outcome
  found : ℕ → Drift → Outcome
  failure : Text → Outcome

-- What a cycle does, and the cache of tag digests behind it.
pub record Cycle : Type 0 where
  pub effects : List Effect
  pub cache : Cache
  pub outcome : Outcome

abbrev pub or_else : Text → Text → Text
or_else [] t = t
or_else (c ∷ s) t = c ∷ s

abbrev pub ref_of : Text → Text → Text
ref_of repo tag = repo ++ (b':' ∷ tag)

abbrev pub is_floating : TagClass → Bool
is_floating floating = true
is_floating _ = false

abbrev pub is_exact : TagClass → Bool
is_exact exact = true
is_exact _ = false

-- The status of a resolution that failed.
abbrev pub failed_status : Resolved → StateStatus
failed_status limited = rate_limited
failed_status absent = not_found
failed_status _ = error

-- `targetRemote.Digest == svc.CurrentDigest || targetRemote.PlatformDigest == svc.CurrentDigest`.
unfoldable pub is_current : Service → Remote → Bool
is_current svc r =
    text_eq r.digest svc.current_digest || text_eq r.platform_digest svc.current_digest

-- The labels that a refresh keeps.
abbrev pub kept_labels : Option Text → Text
kept_labels none = bytes "{}"
kept_labels (some l) = if text_eq l [] then bytes "{}" else l

-- The name of the image by its digest, where it replaces what is there.
unfoldable pub replaced : Text → Text → Text
replaced name current =
    if not (text_eq name []) && prefer_digest_tag name current then name else current

-- The update of a target, with the versions of the two ends.
abbrev pub drift_of : Service → Text × Remote → Text × Text × Cache → Drift
drift_of svc t v = record {
  service_id = svc.id;
  from_digest = svc.current_digest;
  to_digest = t.1.digest;
  from_version = v.0;
  to_version = v.1;
  tag = t.0;
  severity = severity v.0 v.1;
}

abbrev pub behind : List Effect → Cycle → Cycle
behind es c = record c { effects = es ++ c.effects }

module _ (w : World) where
  -- `closeStaleUpdates`.
  unfoldable pub close_stale : Service → List Effect
  close_stale svc = if w.has_updates then supersede_all_open svc.id ∷ [] else []

  -- `headShortcut` once the tag is served.
  unfoldable pub unchanged : Service → Text → Text → Answer Text → Option (List Effect)
  unchanged svc repo tag (bad e) = none
  unchanged svc repo tag (good served) =
      if text_eq served svc.current_digest
      then some (
          upsert_state repo tag ok served (kept_labels (w.stored_labels repo tag))
          ∷ close_stale svc)
      else none

  -- `headShortcut` once the image row is read.
  unfoldable pub if_named : Service → Text → Text → Option Bool → Option (List Effect)
  if_named svc repo tag none = none
  if_named svc repo tag (some false) = none
  if_named svc repo tag (some true) = unchanged svc repo tag (w.head svc.image_ref)

  -- `headShortcut`: what it does, or `none` where it declines.
  unfoldable pub head_shortcut : Service → Text → Text → Option (List Effect)
  head_shortcut svc repo tag =
      if not w.has_images || not (is_floating (classify_tag (ref_of repo tag)))
      then none
      else if_named svc repo tag (w.named_before repo svc.current_digest)

  -- The newer tag, once it is resolved.
  unfoldable pub moved_target : Text → Remote → Text → Resolved → Text × Remote
  moved_target tag remote newer (resolved r) = (newer, r)
  moved_target tag remote newer _ = (tag, remote)

  -- The newest of the tags, if one is newer.
  unfoldable pub newer_target : Text → Text → Remote → Option Text → Text × Remote
  newer_target repo tag remote none = (tag, remote)
  newer_target repo tag remote (some newer) =
      moved_target tag remote newer (w.resolve (ref_of repo newer))

  -- Behind `ListTags`.
  unfoldable pub scanned_target : Text → Text → Remote → Option (List Text) → Text × Remote
  scanned_target repo tag remote none = (tag, remote)
  scanned_target repo tag remote (some tags) =
      newer_target repo tag remote (newer_semver_tag tag tags)

  -- The semver scan: the target tag, and its image.
  unfoldable pub target : Text → Text → Remote → Text × Remote
  target repo tag remote =
      if is_exact (classify_tag (ref_of repo tag))
      then scanned_target repo tag remote (w.registry.list_tags repo)
      else (tag, remote)

  -- The version that a conclusive scan, or a match, gives to the row.
  unfoldable pub set_version : Text → Text → Text → Scan → List Effect × Cache
  set_version repo dig label s = if text_eq s.name [] && not s.conclusive then ([], s.cache) else (
    set_resolved_version repo dig
          (if text_eq s.name [] || not (prefer_digest_tag s.name label) then label else s.name)
        ∷ [],
    s.cache,
  )

  -- An image that was named, or tried, is left alone.
  unfoldable pub unless_named : Cache → List Effect × Cache → Option Bool → List Effect × Cache
  unless_named cache named none = named
  unless_named cache named (some false) = named
  unless_named cache named (some true) = ([], cache)

  -- `resolveCurrentVersion`.
  unfoldable pub resolve_current_version :
      Cache → Service → Text → Text → Remote → List Effect × Cache
  resolve_current_version cache svc repo tag remote =
      if (not w.has_images || text_eq svc.current_digest [])
        || (not (text_eq (semver_or_empty tag) [])
            || not (is_floating (classify_tag (ref_of repo tag))))
      then ([], cache)
      else let scan =
          match_version w.registry cache repo (or_else svc.current_image_id remote.config_digest)
            (semver_tag_pref remote.version) in
        let named = set_version repo svc.current_digest remote.version scan in
        unless_named cache named (w.named_after repo svc.current_digest)

  -- The versions of the two ends, and the cache behind.
  unfoldable pub versions : Cache → Service → Text → Text → Text × Remote → Text × Text × Cache
  versions cache svc repo tag (target_tag, r) =
      let from = or_else (semver_or_empty tag) svc.image_version in
      let to =
        or_else (if text_eq target_tag tag then [] else semver_or_empty target_tag) r.version in
      let a =
        match_version w.registry cache repo svc.current_image_id
          (semver_tag_pref svc.image_version) in
      let b = match_version w.registry a.cache repo r.config_digest (semver_tag_pref r.version) in
      if text_eq (semver_or_empty tag) [] && is_floating (classify_tag (ref_of repo tag))
      then (replaced a.name from, or_else (replaced b.name to) (replaced a.name from), b.cache)
      else (from, or_else to from, cache)

  -- The event of a new row, once it is written or not.
  unfoldable pub announced : Service → Drift → ℕ → Answer (Unit {0}) → List Effect × Outcome
  announced svc d id (bad e) = (drift d ∷ [], failure e)
  announced svc d id (good _) =
      (drift d ∷ detected svc.id svc.current_digest d.to_digest ∷ [], found id d)

  unfoldable pub announce : Service → Drift → ℕ → Bool → List Effect × Outcome
  announce svc d id false = (drift d ∷ [], found id d)
  announce svc d id true = announced svc d id w.save_event

  -- `record`.
  unfoldable pub record_update : Service → Drift → Answer (ℕ × Bool) → List Effect × Outcome
  record_update svc d (bad e) = ([], failure e)
  record_update svc d (good (id, is_new)) = announce svc d id is_new

  -- Steps 3 and 4.
  unfoldable pub compare_target : Cache → Service → Text → Text → Remote → Text × Remote → Cycle
  compare_target cache svc repo tag remote t =
      let named = resolve_current_version cache svc repo tag remote in
      let v = versions cache svc repo tag t in
      let d = drift_of svc t v in
      let written = record_update svc d (w.record_drift d) in
      if is_current svc t.1
      then record { effects = close_stale svc ++ named.0; cache = named.1; outcome = nothing }
      else record { effects = written.0; cache = v.2; outcome = written.1 }

  -- Behind the resolution.
  unfoldable pub detect_resolved : Cache → Service → Text → Text → Resolved → Cycle
  detect_resolved cache svc repo tag (resolved remote) =
      let t = target repo tag remote in
      behind
        (upsert_state repo tag ok remote.digest remote.labels
          ∷ record_image repo tag remote
          ∷ (if text_eq t.0 tag then [] else record_image repo t.0 t.1 ∷ []))
        (compare_target cache svc repo tag remote t)
  detect_resolved cache svc repo tag r = record {
    effects = upsert_state repo tag (failed_status r) [] [] ∷ [];
    cache = cache;
    outcome = nothing;
  }

  -- Behind the shortcut.
  unfoldable pub unless_short : Cache → Service → Text → Text → Option (List Effect) → Cycle
  unless_short cache svc repo tag none =
      detect_resolved cache svc repo tag (w.resolve svc.image_ref)
  unless_short cache svc repo tag (some es) = record {
    effects = es;
    cache = cache;
    outcome = nothing;
  }

  -- `Detect`, for a reference that is split.
  unfoldable pub detect_split : Cache → Service → Text → Text → Cycle
  detect_split cache svc repo tag =
      if svc.image_local
      then record {
        effects = upsert_state repo tag local [] [] ∷ [];
        cache = cache;
        outcome = nothing;
      }
      else unless_short cache svc repo tag (head_shortcut svc repo tag)

  -- `Detect`.
  unfoldable pub detect : Cache → Service → Cycle
  detect cache svc =
      if text_eq svc.image_ref [] || text_eq svc.current_digest []
      then record { effects = []; cache = cache; outcome = nothing }
      else detect_split cache svc (split_ref svc.image_ref).0 (split_ref svc.image_ref).1
