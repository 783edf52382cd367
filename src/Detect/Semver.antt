-- ===== src/Detect/Semver.antt =====
-- internal/detect/semver.go: version cores and their order, version streams, and the scan for the
-- newest tag of a stream. Texts are lists of code points; the regular expressions are written out
-- as matchers. `.` matches no line break, and `$` only the end of the text.
pub mod Order
pub mod Newer
use dockbrr.Common.{
  ℕ, zero, suc, ◌+◌, ◌-◌, ◌*◌, Bool, false, not, ◌&&◌, Option, none, some, List, [], ◌∷◌, ◌++◌,
  Text, text_eq, ltb, leb, ◌==◌, any, get_elem?, if◌then◌else◌,
}
use dockbrr.Common.Strings.{trim_space, is_digit, cut_at, split_on}

-- `[3]int`: major, minor, patch.
pub record Core : Type 0 where
  pub major : ℕ
  pub minor : ℕ
  pub patch : ℕ

-- The texts of the column `severity`; `unset` is the empty text, `baseline` the text "current".
pub data Severity : Type 0 where
  unset major_step minor_step patch_step digest_only baseline : Severity

-- `coreLess`: the loop over the three components, unrolled.
unfoldable pub core_less : Core → Core → Bool
core_less a b =
    if not (a.major == b.major)
    then ltb a.major b.major
    else if not (a.minor == b.minor)
    then ltb a.minor b.minor
    else if not (a.patch == b.patch)
    then ltb a.patch b.patch
    else false

abbrev pub max_int : ℕ
max_int = 9223372036854775807

unfoldable pub digits_value : ℕ → Text → Option ℕ
unfolding is_digit
digits_value acc [] = some acc
digits_value acc (c ∷ s) =
    let rest = digits_value (acc * 10 + (c - b'0')) s in if is_digit c then rest else none

-- `strconv.Atoi` on a text with no sign: `parse_core` has cut the text at `+` and `-` before.
-- A value above the 64-bit maximum is the range error.
unfoldable pub atoi : Text → Option ℕ
unfolding digits_value
atoi [] = none
atoi (c ∷ s) = elim (digits_value 0 (c ∷ s)) [
  | none ↦ none
  | some n ↦ if leb n max_int then some n else none
]

-- One pass of the loop over the components: a missing one is 0.
unfoldable pub component : List Text → ℕ → Option ℕ
unfolding atoi
component parts i = elim (get_elem? parts i) [ none ↦ some 0 | some p ↦ atoi p ]

infixl 5 ◌>>=◌
abbrev pub ◌>>=◌ {ℓ κ} : {A : Type ℓ} {B : Type κ} → Option A → (A → Option B) → Option B
none >>= f = none
some a >>= f = f a

-- The leading "v", if there is one, and the rest.
unfoldable pub strip_v : Text → Text × Text
strip_v [] = ([], [])
strip_v (c ∷ s) = if c == b'v' then (c ∷ [], s) else ([], c ∷ s)

unfoldable pub parts_core : List Text → Option Core
unfolding component
parts_core parts = do
  a ← component parts 0
  b ← component parts 1
  c ← component parts 2
  some (record { major = a; minor = b; patch = c })

-- The core without pre-release and build suffix, of a text that is trimmed and has no "v".
unfoldable pub bare_core : Text → Option Core
unfolding parts_core cut_at split_on
bare_core [] = none
bare_core (c ∷ s) = parts_core (split_on b'.' (cut_at b'-' (cut_at b'+' (c ∷ s)).0).0)

-- `parseCore`, and `ParseCore`.
unfoldable pub parse_core : Text → Option Core
unfolding trim_space strip_v bare_core
parse_core v = bare_core (strip_v (trim_space v)).1

-- `Severity`.
unfoldable pub core_severity : Core → Core → Severity
core_severity f t =
    if not (f.major == t.major)
    then major_step
    else if not (f.minor == t.minor)
    then minor_step
    else if not (f.patch == t.patch)
    then patch_step
    else digest_only

unfoldable pub severity : Text → Text → Severity
unfolding core_severity
severity from to = elim (parse_core from) [
  | none ↦ digest_only
  | some f ↦ elim (parse_core to) [ none ↦ digest_only | some t ↦ core_severity f t ]
]

-- `\d*`, greedy: the digits and the rest.
unfoldable pub span_digits : Text → Text × Text
unfolding is_digit
span_digits [] = ([], [])
span_digits (c ∷ s) =
    let (ds, rest) = span_digits s in if is_digit c then (c ∷ ds, rest) else ([], c ∷ s)

-- `\d+`.
unfoldable pub some_digits : Text → Option (Text × Text)
unfolding span_digits
some_digits s = elim ((span_digits s).0) [ [] ↦ none | c ∷ ds ↦ some (span_digits s) ]

-- `\.\d+`.
unfoldable pub dot_digits : Text → Option (Text × Text)
unfolding some_digits
dot_digits [] = none
dot_digits (c ∷ s) = if c == b'.' then (do m ← some_digits s; some (c ∷ m.0, m.1)) else none

-- `(?:\.\d+){0,n}`, greedy.
unfoldable pub dotted : ℕ → Text → Text × Text
unfolding dot_digits
dotted zero s = ([], s)
dotted (suc n) s = elim (dot_digits s) [
  | none ↦ ([], s)
  | some (part, rest) ↦ (part ++ (dotted n rest).0, (dotted n rest).1)
]

-- `.*$`.
unfoldable pub one_line : Text → Bool
one_line s = not (any (λ c. c == 10) s)

-- `streamRe`: the "v", the numeric core and the suffix.
unfoldable pub stream_parts : Text → Option (Text × Text × Text)
unfolding strip_v some_digits dotted one_line
stream_parts s = do
  let v = strip_v s
  first ← some_digits v.1
  let more = dotted 2 first.1
  if one_line more.1 then some (v.0, first.0 ++ more.0, more.1) else none

-- `tagStream`: the core and the flavor.
unfoldable pub tag_stream : Text → Option (Core × Text)
unfolding stream_parts parse_core trim_space
tag_stream tag = do m ← stream_parts (trim_space tag); c ← parse_core m.1; some (c, m.0 ++ m.2)

-- The body of the loop of `NewerSemverTag`, over `best` and `bestCore`.
unfoldable pub choose : Text → Text × Core → Text → Option (Core × Text) → Text × Core
choose flavor b t none = b
choose flavor b t (some (c, fl)) = if text_eq fl flavor && core_less b.1 c then (t, c) else b

unfoldable pub better : Text → Text × Core → Text → Text × Core
unfolding choose
better flavor b t = choose flavor b t (tag_stream t)

unfoldable pub best_of : Text → Text × Core → List Text → Text × Core
best_of flavor b [] = b
best_of flavor b (t ∷ ts) = best_of flavor (better flavor b t) ts

-- `return best, best != ""`.
unfoldable pub found : Text → Option Text
found [] = none
found (c ∷ s) = some (c ∷ s)

-- `NewerSemverTag`.
unfoldable pub newer_semver_tag : Text → List Text → Option Text
unfolding better best_of found
newer_semver_tag cur tags = do s ← tag_stream cur; found (best_of s.1 ([], s.0) tags).0
