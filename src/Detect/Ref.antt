-- ===== src/Detect/Ref.antt =====
-- internal/detect: image references (`SplitRef` of detect.go), tag classes (tagclass.go), and the
-- helpers that name versions (`StripNamePrefix` of semver.go, `preferDigestTag` of detect.go).
pub mod Split
use dockbrr.Common.{
  ℕ, Bool, true, false, not, ◌&&◌, ◌||◌, Option, none, some, [], ◌∷◌, Text, bytes, leb, ◌==◌,
  if◌then◌else◌,
}
use dockbrr.Common.Strings.{trim_space, is_digit, cut_at, cut_last, contains, has_char}
use dockbrr.Detect.Semver.{◌>>=◌, Core, parse_core, strip_v, some_digits, dot_digits, one_line}

pub data TagClass : Type 0 where
  floating exact digest : TagClass

-- A tag is the part behind the last ":" if it has no "/"; with none the tag is "latest".
unfoldable pub split_tag : Text → Text × Text
unfolding cut_last has_char
split_tag ref = elim (cut_last b':' ref) [
  | none ↦ (ref, bytes "latest")
  | some (repo, tag) ↦ if has_char b'/' tag then (ref, bytes "latest") else (repo, tag)
]

-- `SplitRef`: any "@digest" is dropped first.
unfoldable pub split_ref : Text → Text × Text
unfolding cut_at split_tag
split_ref ref = split_tag (cut_at b'@' ref).0

-- `(?:[-+].*)?$`.
unfoldable pub suffix_ok : Text → Bool
unfolding one_line
suffix_ok [] = true
suffix_ok (c ∷ s) = ((c == b'-') || (c == b'+')) && one_line s

-- `exactSemverRe`.
unfoldable pub exact_semver : Text → Bool
unfolding strip_v some_digits dot_digits suffix_ok
exact_semver tag = elim (some_digits (strip_v tag).1) [
  | none ↦ false
  | some (a, s) ↦ elim (dot_digits s) [
    | none ↦ false
    | some (b, t) ↦ elim (dot_digits t) [ none ↦ false | some (c, rest) ↦ suffix_ok rest ]
  ]
]

-- `ClassifyTag`.
unfoldable pub classify_tag : Text → TagClass
unfolding contains exact_semver split_ref
classify_tag ref =
    if contains ref (bytes "@sha256:")
    then digest
    else if exact_semver (split_ref ref).1
    then exact
    else floating

unfoldable pub is_letter : ℕ → Bool
is_letter c = (leb b'A' c && leb c b'Z') || (leb b'a' c && leb c b'z')

-- `[A-Za-z0-9]*-`, greedy: what stands behind the dash.
unfoldable pub after_word : Text → Option Text
unfolding is_letter is_digit
after_word [] = none
after_word (c ∷ s) =
    let rest = after_word s in
    if c == b'-' then some s else if is_letter c || is_digit c then rest else none

-- `v?\d.*$`.
unfoldable pub version_like : Text → Bool
unfolding strip_v is_digit one_line
version_like s = elim ((strip_v s).1) [ [] ↦ false | c ∷ t ↦ is_digit c && one_line t ]

-- `namePrefixRe` on a trimmed text.
unfoldable pub name_prefix_rest : Text → Option Text
unfolding is_letter after_word version_like
name_prefix_rest [] = none
name_prefix_rest (c ∷ s) =
    if is_letter c then (do t ← after_word s; if version_like t then some t else none) else none

-- `StripNamePrefix`.
unfoldable pub strip_name_prefix : Text → Text
unfolding name_prefix_rest trim_space
strip_name_prefix s = elim (name_prefix_rest (trim_space s)) [ none ↦ s | some t ↦ t ]

-- `semverOrEmpty`.
unfoldable pub semver_or_empty : Text → Text
semver_or_empty v = elim (parse_core v) [ none ↦ [] | some c ↦ v ]

-- `semverTagPref`.
unfoldable pub semver_tag_pref : Text → Text
semver_tag_pref label = if exact_semver label then label else []

unfoldable pub core_eq : Core → Core → Bool
core_eq a b = (a.major == b.major) && (a.minor == b.minor) && (a.patch == b.patch)

-- A text that is no version has the zero core, as `parseCore` returns it.
unfoldable pub core_or_zero : Option Core → Core
core_or_zero none = record { major = 0; minor = 0; patch = 0 }
core_or_zero (some c) = c

-- `preferDigestTag`.
unfoldable pub prefer_digest_tag : Text → Text → Bool
unfolding core_eq core_or_zero
prefer_digest_tag digest_tag label = elim (parse_core (strip_name_prefix label)) [
  | none ↦ true
  | some c ↦ not (core_eq c (core_or_zero (parse_core digest_tag)))
]
