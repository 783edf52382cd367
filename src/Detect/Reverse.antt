-- ===== src/Detect/Reverse.antt =====
-- The search for the release tag of an image in internal/detect: `semverTagsDesc` of semver.go,
-- `candidateConfigDigest` and `matchVersionByDigest` of detect.go. The registry is a parameter; a tag
-- is answered the same way each time.
pub mod Capped
pub mod Named
pub mod Newest
pub mod Wanted
use dockbrr.Common.{
  ℕ, Bool, true, false, not, ◌&&◌, ◌||◌, Option, none, some, List, [], ◌∷◌, ◌++◌, take, map, Text,
  text_eq, if◌then◌else◌,
}
use dockbrr.Common.Strings.{has_char}
use dockbrr.Common.Sort.{sort_by}
use dockbrr.Detect.Semver.{Core, parse_core, core_less}
use dockbrr.Detect.Ref.{exact_semver}
use dockbrr.Store.TagDigests as TagDigests
use dockbrr.Store.TagDigests.{Table}

-- What a registry answers for a tag: a digest, "too many requests", or another error.
pub data Lookup : Type 0 where
  at : Text → Lookup
  rate_limited failed : Lookup

pub record Registry : Type 0 where
  pub list_tags : Text → Option (List Text)
  pub config_digest : Text → Text → Lookup

-- `tagCache`: whether there is one, whether its reads and its writes work, and its rows.
pub record Cache : Type 0 where
  pub is_set : Bool
  pub reads : Bool
  pub writes : Bool
  pub rows : Table

-- A tag with its core.
abbrev pub Release : Type 0
Release = Text × Core

-- The test and the core of a tag in the loop of `semverTagsDesc`.
unfoldable pub release_of : Text → Option Core
release_of t =
    if not (exact_semver t) || (has_char b'-' t || has_char b'+' t) then none else parse_core t

unfoldable pub releases : List Text → List Release
releases [] = []
releases (t ∷ ts) =
    let rest = releases ts in elim (release_of t) [ none ↦ rest | some c ↦ (t, c) ∷ rest ]

abbrev pub newer_first : Release → Release → Bool
newer_first a b = core_less b.1 a.1

-- `semverTagsDesc`. `sort.Slice` leaves open how tags of one core stand; here the later comes first.
unfoldable pub semver_tags_desc : List Text → List Text
semver_tags_desc tags = map (λ (r : Release). r.0) (sort_by newer_first (releases tags))

-- What a scan found, whether it is conclusive, the cache behind it, and the tags that the registry
-- was asked for.
pub record Scan : Type 0 where
  pub name : Text
  pub conclusive : Bool
  pub cache : Cache
  pub asked : List Text

-- The digest that the cache has.
unfoldable pub cached : Cache → Text → Text → Option Text
cached c repo tag = if c.is_set && c.reads then TagDigests.get repo tag c.rows else none

unfoldable pub remember : Cache → Text → Text → Text → Cache
remember c repo tag digest =
    if c.is_set && c.writes then record c { rows = TagDigests.put repo tag digest c.rows } else c

-- The answer of the registry, kept in the cache.
unfoldable pub looked_up : Cache → Text → Text → Lookup → Lookup × Cache × List Text
looked_up c repo tag (at d) = (at d, remember c repo tag d, tag ∷ [])
looked_up c repo tag l = (l, c, tag ∷ [])

abbrev pub reverse_scan_cap : ℕ
reverse_scan_cap = 50

abbrev pub also_asked : List Text → Scan → Scan
also_asked tags s = record s { asked = tags ++ s.asked }

module _ (r : Registry) where
  -- `candidateConfigDigest`: the answer, the cache behind it, and what the registry was asked.
  unfoldable pub candidate : Cache → Text → Text → Lookup × Cache × List Text
  candidate c repo tag = elim (cached c repo tag) [
    | some d ↦ (at d, c, [])
    | none ↦ looked_up c repo tag (r.config_digest repo tag)
  ]

  -- A tag of the loop, with the rest of the scan.
  unfoldable pub compared : Text → Text → Lookup × Cache × List Text → Scan → Scan
  compared digest t (at d, c, tags) rest =
      if text_eq d digest
      then record { name = t; conclusive = true; cache = c; asked = tags }
      else also_asked tags rest
  compared digest t (rate_limited, c, tags) rest = record {
    name = [];
    conclusive = false;
    cache = c;
    asked = tags;
  }
  compared digest t (failed, c, tags) rest = also_asked tags rest

  -- The loop over the candidates.
  unfoldable pub walk : Cache → Text → Text → List Text → Scan
  walk c repo digest [] = record { name = []; conclusive = true; cache = c; asked = [] }
  walk c repo digest (t ∷ ts) =
      let x = candidate c repo t in compared digest t x (walk x.1 repo digest ts)

  -- Behind `ListTags`.
  unfoldable pub listed : Cache → Text → Text → Scan
  listed c repo digest = elim (r.list_tags repo) [
    | none ↦ record { name = []; conclusive = false; cache = c; asked = [] }
    | some tags ↦ walk c repo digest (take reverse_scan_cap (semver_tags_desc tags))
  ]

  -- The fast path, with what follows where it does not match.
  unfoldable pub preferred : Text → Text → Lookup × Cache × List Text → Scan → Scan
  preferred digest t (at d, c, tags) rest =
      if text_eq d digest
      then record { name = t; conclusive = true; cache = c; asked = tags }
      else also_asked tags rest
  preferred digest t (_, c, tags) rest = also_asked tags rest

  -- `matchVersionByDigest`.
  unfoldable pub match_version : Cache → Text → Text → Text → Scan
  match_version c repo digest prefer =
      if text_eq digest []
      then record { name = []; conclusive = true; cache = c; asked = [] }
      else if text_eq prefer []
      then listed c repo digest
      else let x = candidate c repo prefer in preferred digest prefer x (listed x.1 repo digest)
