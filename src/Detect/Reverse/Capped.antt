-- ===== src/Detect/Reverse/Capped.antt =====
-- How often internal/detect asks the registry for the name of an image.
use dockbrr.Common.{
  All, ℕ, zero, suc, ◌≤◌, true, List, [], ◌∷◌, take, length, length-append, Text, text_eq,
  if◌then◌else◌, arith, Bool-cases, Option-cases, by_cases, inl, inr,
}
use dockbrr.Detect.Reverse.{
  Lookup, at, rate_limited, failed, Registry, Cache, Scan, cached, looked_up, candidate, compared,
  walk, listed, preferred, match_version, reverse_scan_cap, also_asked, semver_tags_desc,
}
use dockbrr.Detect.Reverse.Wanted.{Wanted, match_version-Wanted}

looked_up-asks : (c : Cache) (repo tag : Text) (l : Lookup) → length (looked_up c repo tag l).2 ≤ 1
unfolding looked_up
looked_up-asks c repo tag (at d) = omega arith
looked_up-asks c repo tag rate_limited = omega arith
looked_up-asks c repo tag failed = omega arith

module _ (r : Registry) where
  candidate-asks : (c : Cache) (repo tag : Text) → length (candidate r c repo tag).2 ≤ 1
  unfolding candidate
  candidate-asks c repo tag = elim (Option-cases (cached c repo tag)) [
    | inl e ↦ rw (candidate, e) (looked_up-asks c repo tag (r.config_digest repo tag))
    | inr (d, e) ↦ rw (candidate, e) (omega arith)
  ]

  also-asks :
      (tags : List Text) (s : Scan) (n : ℕ)
      → length tags ≤ 1
      → length s.asked ≤ n
      → length (also_asked tags s).asked ≤ suc n
  also-asks tags s n h k = let e = length-append tags s.asked in omega arith

  compared-asks :
      (digest t : Text) (x : Lookup × Cache × List Text) (rest : Scan) (n : ℕ)
      → length x.2 ≤ 1
      → length rest.asked ≤ n
      → length (compared r digest t x rest).asked ≤ suc n
  unfolding compared
  compared-asks digest t (at d, c, tags) rest n h k =
      by_cases
        (λ b.
          length
            (if b
              then record { name = t; conclusive = true; cache = c; asked = tags }
              else also_asked tags rest).asked
          ≤ suc n)
        (text_eq d digest) (λ _. omega arith) (λ _. also-asks tags rest n h k)
  compared-asks digest t (rate_limited, c, tags) rest n h k = omega arith
  compared-asks digest t (failed, c, tags) rest n h k = also-asks tags rest n h k

  walk-asks :
      (c : Cache) (repo digest : Text) (ts : List Text)
      → length (walk r c repo digest ts).asked ≤ length ts
  unfolding walk
  walk-asks c repo digest [] = omega arith
  walk-asks c repo digest (t ∷ ts) =
      let x = candidate r c repo t in
      compared-asks digest t x (walk r x.1 repo digest ts) (length ts) (candidate-asks c repo t)
        (walk-asks x.1 repo digest ts)

  length-take : {A : Type 0} (n : ℕ) (xs : List A) → length (take n xs) ≤ n
  length-take zero xs = omega arith
  length-take (suc n) [] = omega arith
  length-take (suc n) (x ∷ xs) = let h = length-take n xs in omega arith

  listed-asks :
      (c : Cache) (repo digest : Text) → length (listed r c repo digest).asked ≤ reverse_scan_cap
  unfolding listed
  listed-asks c repo digest = elim (Option-cases (r.list_tags repo)) [
    | inl e ↦ rw (listed, e) (omega arith)
    | inr (tags, e) ↦
        let short = take reverse_scan_cap (semver_tags_desc tags) in
        let h = walk-asks c repo digest short in
        let k = length-take reverse_scan_cap (semver_tags_desc tags) in rw (listed, e) (omega arith)
  ]

  preferred-asks :
      (digest t : Text) (x : Lookup × Cache × List Text) (rest : Scan) (n : ℕ)
      → length x.2 ≤ 1
      → length rest.asked ≤ n
      → length (preferred r digest t x rest).asked ≤ suc n
  unfolding preferred
  preferred-asks digest t (at d, c, tags) rest n h k =
      by_cases
        (λ b.
          length
            (if b
              then record { name = t; conclusive = true; cache = c; asked = tags }
              else also_asked tags rest).asked
          ≤ suc n)
        (text_eq d digest) (λ _. omega arith) (λ _. also-asks tags rest n h k)
  preferred-asks digest t (rate_limited, c, tags) rest n h k = also-asks tags rest n h k
  preferred-asks digest t (failed, c, tags) rest n h k = also-asks tags rest n h k

match_version-asks :
    (r : Registry) (c : Cache) (repo digest prefer : Text)
    → length (match_version r c repo digest prefer).asked ≤ 51
unfolding match_version
match_version-asks r c repo digest prefer = elim (Bool-cases (text_eq digest [])) [
  | inl e ↦ rw (match_version, e) (omega arith)
  | inr e ↦ elim (Bool-cases (text_eq prefer [])) [
    | inl k ↦ rw (match_version, e, k) (let h = listed-asks r c repo digest in omega arith)
    | inr k ↦
        let x = candidate r c repo prefer in
        rw (match_version, e, k)
          (preferred-asks r digest prefer x (listed r x.1 repo digest) reverse_scan_cap
            (candidate-asks r c repo prefer) (listed-asks r x.1 repo digest))
  ]
]

-- However many tags the repository has and whatever the registry answers, the search for the release of
-- an image asks the registry for 51 tags at the most, and each of them is the one that the label names
-- or an exact release tag of the repository's list, without a prerelease, to which fewer than fifty tags
-- of the list are newer.
pub match_version_bound :
    (r : Registry) (c : Cache) (repo digest prefer : Text)
    → (length (match_version r c repo digest prefer).asked ≤ 51)
      × All (Wanted r repo prefer) (match_version r c repo digest prefer).asked
match_version_bound r c repo digest prefer =
    (match_version-asks r c repo digest prefer, match_version-Wanted r c repo digest prefer)
