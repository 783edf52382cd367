-- ===== src/Detect/Reverse/Newest.antt =====
-- The tags that the search for a release in internal/detect takes from the list: the newest ones.
use dockbrr.Common.{
  ℕ, zero, suc, ◌<◌, ◌≡◌, refl, sym, ap, ◌∙◌, Bool, true, false, not, ◌&&◌, ◌||◌, Option, none,
  some, List, [], ◌∷◌, take, map, count_if, In, here, there, All, All-map, Text, arith,
  if◌then◌else◌, Option-cases, inl, inr, subst,
}
use dockbrr.Common.Sort.{sort_by, All-sort_by, Sorted, sort_by-Sorted, count_if-sort_by}
use dockbrr.Common.Strings.{has_char}
use dockbrr.Detect.Ref.{exact_semver}
use dockbrr.Detect.Semver.{Core, core_less, parse_core}
use dockbrr.Detect.Semver.Order.{core_less_asymm, core_le_trans, core_less_irrefl}
use dockbrr.Detect.Reverse.{Release, release_of, releases, newer_first, semver_tags_desc}

-- The core of a tag of the form of a release, without a prerelease and without build metadata.
unfoldable pub core_of : Text → Option Core
core_of t =
    if exact_semver t && (not (has_char b'-' t) && not (has_char b'+' t))
    then parse_core t
    else none

core_of-release : (t : Text) → core_of t ≡ release_of t
unfolding core_of release_of
core_of-release t = by_tests (exact_semver t) (has_char b'-' t) (has_char b'+' t) (parse_core t)
  where
    by_tests :
        (a b c : Bool) (o : Option Core)
        → (if a && (not b && not c) then o else none) ≡ (if not a || (b || c) then none else o)
    by_tests true true c o = refl
    by_tests true false true o = refl
    by_tests true false false o = refl
    by_tests false b c o = refl

-- A tag of a release that is newer than the core.
abbrev pub is_newer : Core → Text → Bool
is_newer c s = elim (core_of s) [ none ↦ false | some d ↦ core_less c d ]

-- The tag is that of a release in the list, and fewer than `n` tags of the list are of a newer one.
abbrev pub AmongNewest : ℕ → List Text → Text → Type 0
AmongNewest n tags t =
    In t tags × ((c : Core) × (core_of t ≡ some c) × (count_if (is_newer c) tags < n))

abbrev newer_than : Core → Release → Bool
newer_than c x = core_less c x.1

count_if-releases :
    (c : Core) (tags : List Text)
    → count_if (newer_than c) (releases tags) ≡ count_if (is_newer c) tags
unfolding releases
count_if-releases c [] = refl
count_if-releases c (t ∷ ts) =
    let rest = count_if-releases c ts in
    elim (Option-cases (release_of t)) [
      | inl e ↦ let k = core_of-release t ∙ e in rw (releases, count_if, is_newer, e, k) rest
      | inr (d, e) ↦
          let k = core_of-release t ∙ e in
          rw (releases, count_if, is_newer, e, k)
            (ap (λ k. if core_less c d then suc k else k) rest)
    ]

releases-In : (tags : List Text) → All (λ x. In x.0 tags × (core_of x.0 ≡ some x.1)) (releases tags)
unfolding releases
releases-In [] = tt
releases-In (t ∷ ts) =
    let rest =
      All-map (λ x. In x.0 ts × (core_of x.0 ≡ some x.1))
        (λ x. In x.0 (t ∷ ts) × (core_of x.0 ≡ some x.1)) (releases ts) (λ x h. (there h.0, h.1))
        (releases-In ts) in
    elim (Option-cases (release_of t)) [
      | inl e ↦ rw (releases, All, e) rest
      | inr (d, e) ↦ rw (releases, All, e) ((here, core_of-release t ∙ e), rest)
    ]

none_newer :
    (c : Core) (xs : List Release)
    → All (λ y. core_less c y.1 ≡ false) xs
    → count_if (newer_than c) xs ≡ 0
none_newer c [] h = refl
none_newer c (x ∷ xs) h = rw h.0 (none_newer c xs h.1)

-- Of a list from the newest on, fewer entries than the length of a prefix are newer than one of it.
take-newest :
    (n : ℕ) (xs : List Release)
    → Sorted newer_first xs
    → All (λ x. count_if (newer_than x.1) xs < n) (take n xs)
take-newest zero xs s = tt
take-newest (suc n) [] s = tt
take-newest (suc n) (x ∷ xs) s =
    let none_there = none_newer x.1 xs s.0 in
    (
      ground (arith, core_less_irrefl x.1),
      All-map (λ y. count_if (newer_than y.1) xs < n)
          (λ y. count_if (newer_than y.1) (x ∷ xs) < suc n) (take n xs) (λ y h. ground arith)
          (take-newest n xs s.1),
    )

All-take : {A : Type 0} (P : A → Type 0) (n : ℕ) (xs : List A) → All P xs → All P (take n xs)
All-take P zero xs h = tt
All-take P (suc n) [] h = tt
All-take P (suc n) (x ∷ xs) h = (h.0, All-take P n xs h.1)

All-both :
    {A : Type 0} (P Q : A → Type 0) (xs : List A) → All P xs → All Q xs → All (λ x. P x × Q x) xs
All-both P Q [] h k = tt
All-both P Q (x ∷ xs) h k = ((h.0, k.0), All-both P Q xs h.1 k.1)

take-map : {A B : Type 0} (f : A → B) (n : ℕ) (xs : List A) → take n (map f xs) ≡ map f (take n xs)
take-map f zero xs = refl
take-map f (suc n) [] = refl
take-map f (suc n) (x ∷ xs) = ap (λ ys. f x ∷ ys) (take-map f n xs)

All-map_of :
    {A B : Type 0} (P : B → Type 0) (f : A → B) (xs : List A)
    → All (λ x. P (f x)) xs
    → All P (map f xs)
All-map_of P f [] h = tt
All-map_of P f (x ∷ xs) h = (h.0, All-map_of P f xs h.1)

-- The first tags of `semverTagsDesc` are among the newest.
pub semver_tags_desc-AmongNewest :
    (n : ℕ) (tags : List Text) → All (AmongNewest n tags) (take n (semver_tags_desc tags))
unfolding semver_tags_desc
semver_tags_desc-AmongNewest n tags =
    let sorted = sort_by newer_first (releases tags) in
    let in_order =
      sort_by-Sorted newer_first (λ x y. core_less_asymm y.1 x.1)
        (λ x y z h k. core_le_trans z.1 y.1 x.1 k h) (releases tags) in
    let real =
      All-sort_by newer_first (λ x. In x.0 tags × (core_of x.0 ≡ some x.1)) (releases tags)
        (releases-In tags) in
    subst (All (AmongNewest n tags)) (sym (take-map (λ (r : Release). r.0) n sorted)) (
      All-map_of (AmongNewest n tags) (λ (r : Release). r.0) (take n sorted)
        (All-map
          (λ x. (In x.0 tags × (core_of x.0 ≡ some x.1)) × (count_if (newer_than x.1) sorted < n))
          (λ x. AmongNewest n tags x.0) (take n sorted)
          (λ x h. (
            h.0.0,
            (
              x.1,
              h.0.1,
              subst (λ k. k < n)
                  (count_if-sort_by newer_first (newer_than x.1) (releases tags)
                    ∙ count_if-releases x.1 tags)
                  h.1,
            ),
          ))
          (All-both (λ x. In x.0 tags × (core_of x.0 ≡ some x.1))
            (λ x. count_if (newer_than x.1) sorted < n) (take n sorted)
            (All-take (λ x. In x.0 tags × (core_of x.0 ≡ some x.1)) n sorted real)
            (take-newest n sorted in_order))))
