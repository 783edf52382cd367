-- ===== src/Detect/Reverse/Wanted.antt =====
-- Which tags internal/detect asks the registry for.
use dockbrr.Common.{
  ◌≡◌, refl, ◌⊎◌, some, All, All-map, All-append, true, List, [], ◌∷◌, take, Text, text_eq,
  if◌then◌else◌, Bool-cases, Option-cases, by_cases, inl, inr,
}
use dockbrr.Detect.Reverse.Newest.{AmongNewest, semver_tags_desc-AmongNewest}
use dockbrr.Detect.Reverse.{
  Lookup, at, rate_limited, failed, Registry, Cache, Scan, cached, looked_up, candidate, compared,
  walk, listed, preferred, match_version, also_asked, semver_tags_desc,
}

-- What holds of every tag that is asked for.
module _ (r : Registry) (P : Text → Type 0) where
  looked_up-All :
      (c : Cache) (repo tag : Text) (l : Lookup) → P tag → All P (looked_up c repo tag l).2
  unfolding looked_up
  looked_up-All c repo tag (at d) h = (h, tt)
  looked_up-All c repo tag rate_limited h = (h, tt)
  looked_up-All c repo tag failed h = (h, tt)

  candidate-All : (c : Cache) (repo tag : Text) → P tag → All P (candidate r c repo tag).2
  unfolding candidate
  candidate-All c repo tag h = elim (Option-cases (cached c repo tag)) [
    | inl e ↦ rw (candidate, e) (looked_up-All c repo tag (r.config_digest repo tag) h)
    | inr (d, e) ↦ rw (candidate, e) tt
  ]

  hit-All :
      (digest t d : Text) (c : Cache) (tags : List Text) (rest : Scan)
      → All P tags
      → All P rest.asked
      → All P
          (if text_eq d digest
            then record { name = t; conclusive = true; cache = c; asked = tags }
            else also_asked tags rest).asked
  hit-All digest t d c tags rest h k =
      by_cases
        (λ b.
          All P
            (if b
              then record { name = t; conclusive = true; cache = c; asked = tags }
              else also_asked tags rest).asked)
        (text_eq d digest) (λ _. h) (λ _. All-append P tags rest.asked h k)

  compared-All :
      (digest t : Text) (x : Lookup × Cache × List Text) (rest : Scan)
      → All P x.2
      → All P rest.asked
      → All P (compared r digest t x rest).asked
  unfolding compared
  compared-All digest t (at d, c, tags) rest h k = hit-All digest t d c tags rest h k
  compared-All digest t (rate_limited, c, tags) rest h k = h
  compared-All digest t (failed, c, tags) rest h k = All-append P tags rest.asked h k

  preferred-All :
      (digest t : Text) (x : Lookup × Cache × List Text) (rest : Scan)
      → All P x.2
      → All P rest.asked
      → All P (preferred r digest t x rest).asked
  unfolding preferred
  preferred-All digest t (at d, c, tags) rest h k = hit-All digest t d c tags rest h k
  preferred-All digest t (rate_limited, c, tags) rest h k = All-append P tags rest.asked h k
  preferred-All digest t (failed, c, tags) rest h k = All-append P tags rest.asked h k

  walk-All :
      (c : Cache) (repo digest : Text) (ts : List Text)
      → All P ts
      → All P (walk r c repo digest ts).asked
  unfolding walk
  walk-All c repo digest [] h = tt
  walk-All c repo digest (t ∷ ts) h =
      let x = candidate r c repo t in
      compared-All digest t x (walk r x.1 repo digest ts) (candidate-All c repo t h.0)
        (walk-All x.1 repo digest ts h.1)

-- A tag that the search may ask for: the one that the label names, or one of the fifty newest.
abbrev pub Wanted : Registry → Text → Text → Text → Type 0
Wanted r repo prefer t =
    (t ≡ prefer) ⊎ ((tags : List Text) × (r.list_tags repo ≡ some tags) × AmongNewest 50 tags t)

listed-Wanted :
    (r : Registry) (c : Cache) (repo digest prefer : Text)
    → All (Wanted r repo prefer) (listed r c repo digest).asked
unfolding listed
listed-Wanted r c repo digest prefer = elim (Option-cases (r.list_tags repo)) [
  | inl e ↦ rw (listed, e) tt
  | inr (tags, e) ↦
      let newest =
        All-map (AmongNewest 50 tags) (Wanted r repo prefer) (take 50 (semver_tags_desc tags))
          (λ t h. inr (tags, e, h)) (semver_tags_desc-AmongNewest 50 tags) in
      let asked =
        walk-All r (Wanted r repo prefer) c repo digest (take 50 (semver_tags_desc tags)) newest in
      rw (listed, e) asked
]

pub match_version-Wanted :
    (r : Registry) (c : Cache) (repo digest prefer : Text)
    → All (Wanted r repo prefer) (match_version r c repo digest prefer).asked
unfolding match_version
match_version-Wanted r c repo digest prefer = elim (Bool-cases (text_eq digest [])) [
  | inl e ↦ rw (match_version, e) tt
  | inr e ↦ elim (Bool-cases (text_eq prefer [])) [
    | inl k ↦ rw (match_version, e, k) (listed-Wanted r c repo digest prefer)
    | inr k ↦
        let x = candidate r c repo prefer in
        rw (match_version, e, k)
          (preferred-All r (Wanted r repo prefer) digest prefer x (listed r x.1 repo digest)
            (candidate-All r (Wanted r repo prefer) c repo prefer (inl refl))
            (listed-Wanted r x.1 repo digest prefer))
  ]
]
