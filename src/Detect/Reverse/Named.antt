-- ===== src/Detect/Reverse/Named.antt =====
-- What the search for the release of an image in internal/detect finds.
use dockbrr.Common.{
  ◌≡◌, ◌⊎◌, refl, ap, subst, ◌∙◌, true, ◌&&◌, none, some, List, [], ◌∷◌, take, Text, text_eq,
  text_eq_iff, if◌then◌else◌, Bool-cases, Option-cases, by_cases, inl, inr,
}
use dockbrr.Store.TagDigests as TagDigests
use dockbrr.Store.TagDigests.Latest.{get-put_cases}
use dockbrr.Detect.Reverse.{
  Lookup, at, rate_limited, failed, Registry, Cache, Scan, cached, remember, looked_up, candidate,
  compared, walk, listed, preferred, match_version, reverse_scan_cap, also_asked, semver_tags_desc,
}

module _ (r : Registry) where
  -- Every row of the cache is what the registry answers: the tag of a release does not move.
  abbrev pub IsTrue : Cache → Type 0
  IsTrue c =
      (repo tag d : Text)
      → TagDigests.get repo tag c.rows ≡ some d
      → r.config_digest repo tag ≡ at d

  -- A scan names nothing, or a tag that serves the digest, and its cache is true.
  abbrev pub Names : Text → Text → Scan → Type 0
  Names repo digest s = ((s.name ≡ []) ⊎ (r.config_digest repo s.name ≡ at digest)) × IsTrue s.cache

  cached-IsTrue :
      (c : Cache) (repo tag d : Text)
      → IsTrue c
      → cached c repo tag ≡ some d
      → r.config_digest repo tag ≡ at d
  unfolding cached
  cached-IsTrue c repo tag d h =
      by_cases
        (λ b.
          (if b then TagDigests.get repo tag c.rows else none) ≡ some d
          → r.config_digest repo tag ≡ at d)
        (c.is_set && c.reads) (λ _ e. h repo tag d e) (λ _ e. cc)

  put-IsTrue :
      (c : Cache) (repo tag d : Text)
      → IsTrue c
      → r.config_digest repo tag ≡ at d
      → IsTrue (record c { rows = TagDigests.put repo tag d c.rows })
  put-IsTrue c repo tag d h k repo' tag' d' e =
      elim (get-put_cases repo tag d repo' tag' d' c.rows e) [
        | inr there ↦ h repo' tag' d' there
        | inl (a, b, same) ↦
            subst (λ x. r.config_digest x tag' ≡ at d') a
              (subst (λ y. r.config_digest repo y ≡ at d') b (k ∙ ap at same))
      ]

  remember-IsTrue :
      (c : Cache) (repo tag d : Text)
      → IsTrue c
      → r.config_digest repo tag ≡ at d
      → IsTrue (remember c repo tag d)
  unfolding remember
  remember-IsTrue c repo tag d h k =
      by_cases (λ b. IsTrue (if b then record c { rows = TagDigests.put repo tag d c.rows } else c))
        (c.is_set && c.writes) (λ _. put-IsTrue c repo tag d h k) (λ _. h)

  -- A candidate answers as the registry does, and leaves the cache true.
  abbrev Answers : Text → Text → Lookup × Cache × List Text → Type 0
  Answers repo tag x = (r.config_digest repo tag ≡ x.0) × IsTrue x.1

  looked_up-Answers :
      (c : Cache) (repo tag : Text) (l : Lookup)
      → IsTrue c
      → r.config_digest repo tag ≡ l
      → Answers repo tag (looked_up c repo tag l)
  unfolding looked_up
  looked_up-Answers c repo tag (at d) h e = (e, remember-IsTrue c repo tag d h e)
  looked_up-Answers c repo tag rate_limited h e = (e, h)
  looked_up-Answers c repo tag failed h e = (e, h)

  candidate-Answers :
      (c : Cache) (repo tag : Text) → IsTrue c → Answers repo tag (candidate r c repo tag)
  unfolding candidate
  candidate-Answers c repo tag h = elim (Option-cases (cached c repo tag)) [
    | inl e ↦ rw (candidate, e) (looked_up-Answers c repo tag (r.config_digest repo tag) h refl)
    | inr (d, e) ↦ rw (candidate, e) (cached-IsTrue c repo tag d h e, h)
  ]

  hit-Names :
      (repo digest t d : Text) (c : Cache) (tags : List Text) (rest : Scan)
      → r.config_digest repo t ≡ at d
      → IsTrue c
      → Names repo digest rest
      → Names repo digest (
          if text_eq d digest
          then record { name = t; conclusive = true; cache = c; asked = tags }
          else also_asked tags rest)
  hit-Names repo digest t d c tags rest e h k =
      by_cases
        (λ b.
          text_eq d digest ≡ b
          → Names repo digest (
              if b
              then record { name = t; conclusive = true; cache = c; asked = tags }
              else also_asked tags rest))
        (text_eq d digest) (λ _ same. (inr (e ∙ ap at ((text_eq_iff d digest).0 same)), h))
        (λ _ _. k) refl

  compared-Names :
      (repo digest t : Text) (x : Lookup × Cache × List Text) (rest : Scan)
      → Answers repo t x
      → Names repo digest rest
      → Names repo digest (compared r digest t x rest)
  unfolding compared
  compared-Names repo digest t (at d, c, tags) rest h k =
      hit-Names repo digest t d c tags rest h.0 h.1 k
  compared-Names repo digest t (rate_limited, c, tags) rest h k = (inl refl, h.1)
  compared-Names repo digest t (failed, c, tags) rest h k = k

  walk-Names :
      (c : Cache) (repo digest : Text) (ts : List Text)
      → IsTrue c
      → Names repo digest (walk r c repo digest ts)
  unfolding walk
  walk-Names c repo digest [] h = (inl refl, h)
  walk-Names c repo digest (t ∷ ts) h =
      let x = candidate r c repo t in
      let a = candidate-Answers c repo t h in
      compared-Names repo digest t x (walk r x.1 repo digest ts) a
        (walk-Names x.1 repo digest ts a.1)

  listed-Names :
      (c : Cache) (repo digest : Text) → IsTrue c → Names repo digest (listed r c repo digest)
  unfolding listed
  listed-Names c repo digest h = elim (Option-cases (r.list_tags repo)) [
    | inl e ↦ rw (listed, e) (inl refl, h)
    | inr (tags, e) ↦
        rw (listed, e) (walk-Names c repo digest (take reverse_scan_cap (semver_tags_desc tags)) h)
  ]

  preferred-Names :
      (repo digest t : Text) (x : Lookup × Cache × List Text) (rest : Scan)
      → Answers repo t x
      → Names repo digest rest
      → Names repo digest (preferred r digest t x rest)
  unfolding preferred
  preferred-Names repo digest t (at d, c, tags) rest h k =
      hit-Names repo digest t d c tags rest h.0 h.1 k
  preferred-Names repo digest t (rate_limited, c, tags) rest h k = k
  preferred-Names repo digest t (failed, c, tags) rest h k = k

-- The search for the release of an image names nothing, or a tag for which the registry serves the
-- config digest of the image; and it leaves a cache in which every row is what the registry serves, if
-- it starts with one.
pub match_version-Names :
    (r : Registry) (c : Cache) (repo digest prefer : Text)
    → IsTrue r c
    → Names r repo digest (match_version r c repo digest prefer)
unfolding match_version
match_version-Names r c repo digest prefer h = elim (Bool-cases (text_eq digest [])) [
  | inl e ↦ rw (match_version, e) (inl refl, h)
  | inr e ↦ elim (Bool-cases (text_eq prefer [])) [
    | inl k ↦ rw (match_version, e, k) (listed-Names r c repo digest h)
    | inr k ↦
        let x = candidate r c repo prefer in
        let a = candidate-Answers r c repo prefer h in
        rw (match_version, e, k)
          (preferred-Names r repo digest prefer x (listed r x.1 repo digest) a
            (listed-Names r x.1 repo digest a.1))
  ]
]
