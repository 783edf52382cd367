-- ===== src/Compose/Rewrite/Replace.antt =====
-- `ReplaceImageLine` of internal/compose/rewrite.go: texts with a part replaced, and lines.
use dockbrr.Common.{
  ◌≡◌, refl, sym, ap, subst, ◌≢◌, inl, inr, ℕ, zero, suc, true, false, Option, none, some, List, [],
  ◌∷◌, ◌++◌, Text, All, get_elem?, set, Bool-cases, arith,
}
use dockbrr.Common.Strings.{contains, has_prefix, split_on, has_char}
use dockbrr.Common.Strings.Cuts.{has_char-append}
use dockbrr.Common.Strings.Lines.{split-join, split_on-NoChar, NoChar}
use dockbrr.Compose.Rewrite.{
  drop_prefix, replace_first, RewriteError, Rewritten, rewritten, refused, replace_in,
  replace_image_line,
}

append_nil : (s : Text) → s ++ [] ≡ s
append_nil [] = refl
append_nil (c ∷ s) = ap (λ t. c ∷ t) (append_nil s)

pub has_prefix-split : (s p : Text) → has_prefix s p ≡ true → s ≡ p ++ drop_prefix s p
unfolding has_prefix drop_prefix
has_prefix-split s [] h = refl
has_prefix-split [] (p ∷ ps) h = ground arith
has_prefix-split (c ∷ s) (p ∷ ps) h = ground (arith, has_prefix-split s ps)

has_prefix-append : (p s : Text) → has_prefix (p ++ s) p ≡ true
unfolding has_prefix
has_prefix-append [] s = refl
has_prefix-append (c ∷ p) s = ground (arith, has_prefix-append p s)

contains-here : (p s : Text) → contains (p ++ s) p ≡ true
unfolding contains
contains-here [] [] = has_prefix-append [] []
contains-here [] (c ∷ s) = unfold has_prefix in refl
contains-here (c ∷ p) s = rw (has_prefix-append (c ∷ p) s) refl

contains-append : (pre sub post : Text) → contains (pre ++ (sub ++ post)) sub ≡ true
unfolding contains
contains-append [] sub post = contains-here sub post
contains-append (c ∷ pre) sub post = ground (arith, contains-append pre sub post)

-- One occurrence of the old text stands replaced.
pub record IsReplacedOnce (line old new result : Text) : Type 0 where
  pub pre : Text
  pub post : Text
  pub before_lem : line ≡ pre ++ (old ++ post)
  pub after_lem : result ≡ pre ++ (new ++ post)

replace_first_lem :
    (line old new : Text)
    → contains line old ≡ true
    → IsReplacedOnce line old new (replace_first line old new)
unfolding contains replace_first
replace_first_lem [] [] new h = record {
  pre = [];
  post = [];
  before_lem = refl;
  after_lem = unfold has_prefix in sym (append_nil new);
}
replace_first_lem [] (o ∷ old) new h = unfold has_prefix in cc
replace_first_lem (c ∷ s) old new h = elim (Bool-cases (has_prefix (c ∷ s) old)) [
  | inl e ↦ record {
    pre = [];
    post = drop_prefix (c ∷ s) old;
    before_lem = has_prefix-split (c ∷ s) old e;
    after_lem = rw e refl;
  }
  | inr e ↦
      let r = replace_first_lem s old new (ground arith) in
      record {
        pre = c ∷ r.pre;
        post = r.post;
        before_lem = ap (λ t. c ∷ t) r.before_lem;
        after_lem = rw e (ap (λ t. c ∷ t) r.after_lem);
      }
]

has_char-append-left : (c : ℕ) (s t : Text) → has_char c (s ++ t) ≡ false → has_char c s ≡ false
unfolding has_char
has_char-append-left c [] t h = refl
has_char-append-left c (d ∷ s) t h = ground (arith, has_char-append-left c s t)

has_char-append-right : (c : ℕ) (s t : Text) → has_char c (s ++ t) ≡ false → has_char c t ≡ false
unfolding has_char
has_char-append-right c [] t h = h
has_char-append-right c (d ∷ s) t h = ground (arith, has_char-append-right c s t)

replaced-NoChar :
    (c : ℕ) (line old new result : Text)
    → NoChar c line
    → NoChar c new
    → IsReplacedOnce line old new result
    → NoChar c result
replaced-NoChar c line old new result h k r =
    let parts : has_char c (r.pre ++ (old ++ r.post)) ≡ false = rw (sym r.before_lem) h in
    let tail : has_char c (old ++ r.post) ≡ false =
      has_char-append-right c r.pre (old ++ r.post) parts in
    rw r.after_lem (
      has_char-append c r.pre (new ++ r.post) (has_char-append-left c r.pre (old ++ r.post) parts)
        (has_char-append c new r.post k (has_char-append-right c old r.post tail)))

All-set :
    (P : Text → Type 0) (ps : List Text) (i : ℕ) (v : Text) → All P ps → P v → All P (set ps i v)
All-set P [] i v a h = tt
All-set P (p ∷ ps) zero v a h = (h, a.1)
All-set P (p ∷ ps) (suc i) v a h = (a.0, All-set P ps i v a.1 h)

All-get_elem? :
    (P : Text → Type 0) (ps : List Text) (i : ℕ) (l : Text)
    → All P ps
    → get_elem? ps i ≡ some l
    → P l
All-get_elem? P [] i l a e = cc
All-get_elem? P (p ∷ ps) zero l a e = let same : p ≡ l = cc e in subst P same a.0
All-get_elem? P (p ∷ ps) (suc i) l a e = All-get_elem? P ps i l a.1 e

set-ne-nil : (ps : List Text) (i : ℕ) (v l : Text) → get_elem? ps i ≡ some l → set ps i v ≢ []
set-ne-nil [] i v l e k = cc
set-ne-nil (p ∷ ps) zero v l e k = cc
set-ne-nil (p ∷ ps) (suc i) v l e k = cc

-- The lines of the result are those of the content but for one, in which one occurrence is replaced.
pub record IsEdited (content old new : Text) (line : ℕ) (result : Text) : Type 0 where
  pub index : ℕ
  pub line_before : Text
  pub line_after : Text
  pub counts_from_one : line ≡ suc index
  pub stood_there : get_elem? (split_on 10 content) index ≡ some line_before
  pub once : IsReplacedOnce line_before old new line_after
  pub lines_after : split_on 10 result ≡ set (split_on 10 content) index line_after

-- What the answer of `ReplaceImageLine` says.
abbrev pub EditAnswer : Text → Text → Text → ℕ → Rewritten → Type 0
EditAnswer content old new line (rewritten result) = IsEdited content old new line result
EditAnswer content old new line (refused RewriteError.out_of_range) =
    (i : ℕ) → line ≡ suc i → get_elem? (split_on 10 content) i ≡ none
EditAnswer content old new line (refused RewriteError.not_contained) =
    (i : ℕ) (l pre post : Text)
    → line ≡ suc i
    → get_elem? (split_on 10 content) i ≡ some l
    → l ≢ pre ++ (old ++ post)

not_there :
    (content old l m pre post : Text) (j : ℕ)
    → contains l old ≡ false
    → get_elem? (split_on 10 content) j ≡ some l
    → get_elem? (split_on 10 content) j ≡ some m
    → m ≡ pre ++ (old ++ post)
    → ⊥
not_there content old l m pre post j c e g q =
    let same : l ≡ m = cc (e, g) in
    let whole : contains m old ≡ false = rw (sym same) c in
    let yes : contains m old ≡ true = rw q (contains-append pre old post) in cc (whole, yes)

replace_in_lem :
    (content old new : Text) (i : ℕ)
    → NoChar 10 new
    → (o : Option Text) → get_elem? (split_on 10 content) i ≡ o
    → EditAnswer content old new (suc i) (replace_in (split_on 10 content) i old new o)
unfolding replace_in
replace_in_lem content old new i h none e =
    λ j k. let same : i ≡ j = omega (arith, k) in rw (sym same) e
replace_in_lem content old new i h (some l) e =
    let lines = split_on 10 content in
    let clean = split_on-NoChar 10 content in
    elim (Bool-cases (contains l old)) [
      | inr c ↦ rw c (λ j m pre post k g q.
          let same : i ≡ j = omega (arith, k) in
          not_there content old l m pre post j c (rw (sym same) e) g q)
      | inl c ↦ rw c (
          let once = replace_first_lem l old new c in
          let after = replace_first l old new in
          record {
            index = i;
            line_before = l;
            line_after = after;
            counts_from_one = refl;
            stood_there = e;
            once = once;
            lines_after = split-join 10 (set lines i after) (set-ne-nil lines i after l e) (
                All-set (NoChar 10) lines i after clean (
                  replaced-NoChar 10 l old new after (All-get_elem? (NoChar 10) lines i l clean e) h
                    once));
          })
    ]

-- With a new reference that holds no line break: an answer of `ReplaceImageLine` has the lines of the
-- content but for the given one, counted from 1, in which one occurrence of the old reference became
-- the new one. It is refused as out of range only if there is no such line, and as not contained only
-- if the old reference occurs nowhere on it.
pub replace_image_line_lem :
    (content old new : Text) (line : ℕ)
    → NoChar 10 new
    → EditAnswer content old new line (replace_image_line content old new line)
unfolding replace_image_line
replace_image_line_lem content old new zero h = λ i k. absurd (zero-ne-suc i k)
  where
    zero-ne-suc : (i : ℕ) → zero ≡ suc i → ⊥
    zero-ne-suc i k = omega (arith, k)
replace_image_line_lem content old new (suc i) h =
    replace_in_lem content old new i h (get_elem? (split_on 10 content) i) refl
