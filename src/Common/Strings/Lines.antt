-- ===== src/Common/Strings/Lines.antt =====
-- Splitting a text at a character and joining the parts.
use dockbrr.Common.Tests.{◌==◌, Bool-cases}
use dockbrr.Common.Lists.{All}
use dockbrr.Common.Strings.{Text, split_on, extend, join_with, has_char}
use Prim.Native.Nat.{ℕ}
use mathlib.Core.Path.{◌≡◌, refl, ap}
use mathlib.Core.Logic.{◌≢◌, inl, inr}
use mathlib.Core.Bool.{false}
use mathlib.Core.List.{List, [], ◌∷◌, ◌++◌}
use native.Mathlib.Omega.{arith}

extend-ne-nil : (d : ℕ) (ps : List Text) → extend d ps ≢ []
unfolding extend
extend-ne-nil d [] e = cc
extend-ne-nil d (p ∷ ps) e = cc

split_on-ne-nil : (c : ℕ) (s : Text) → split_on c s ≢ []
unfolding split_on
split_on-ne-nil c [] e = cc
split_on-ne-nil c (d ∷ s) e = ground (arith, extend-ne-nil d (split_on c s))

join-extend : (c d : ℕ) (ps : List Text) → ps ≢ [] → join_with c (extend d ps) ≡ d ∷ join_with c ps
unfolding extend join_with
join-extend c d [] h = absurd (h refl)
join-extend c d (p ∷ []) h = refl
join-extend c d (p ∷ q ∷ ps) h = refl

join-nil-cons : (c : ℕ) (ps : List Text) → ps ≢ [] → join_with c ([] ∷ ps) ≡ c ∷ join_with c ps
unfolding join_with
join-nil-cons c [] h = absurd (h refl)
join-nil-cons c (p ∷ ps) h = refl

-- Joining the parts gives the text back.
pub join-split : (c : ℕ) (s : Text) → join_with c (split_on c s) ≡ s
unfolding split_on
join-split c [] = unfold join_with in refl
join-split c (d ∷ s) = elim (Bool-cases (d == c)) [
  | inl e ↦
      rw e
        (rw (join-nil-cons c (split_on c s) (split_on-ne-nil c s)) (ground (arith, join-split c s)))
  | inr e ↦
      rw e (
        rw (join-extend c d (split_on c s) (split_on-ne-nil c s))
          (ap (λ t. d ∷ t) (join-split c s)))
]

abbrev pub NoChar : ℕ → Text → Type 0
NoChar c s = has_char c s ≡ false

split_on_single : (c : ℕ) (s : Text) → NoChar c s → split_on c s ≡ s ∷ []
unfolding split_on has_char
split_on_single c [] h = refl
split_on_single c (d ∷ s) h = ground (arith, split_on_single c s)

split_on-append : (c : ℕ) (s t : Text) → NoChar c s → split_on c (s ++ (c ∷ t)) ≡ s ∷ split_on c t
unfolding split_on has_char
split_on-append c [] t h = ground arith
split_on-append c (d ∷ s) t h = ground (arith, split_on-append c s t)

-- Splitting the joined parts gives the parts back, where none of them has the character.
pub split-join :
    (c : ℕ) (ps : List Text) → ps ≢ [] → All (NoChar c) ps → split_on c (join_with c ps) ≡ ps
unfolding join_with
split-join c [] h a = absurd (h refl)
split-join c (p ∷ []) h a = split_on_single c p a.0
split-join c (p ∷ q ∷ ps) h a =
    rw (split_on-append c p (join_with c (q ∷ ps)) a.0)
      (ap (λ t. p ∷ t) (split-join c (q ∷ ps) (λ e. cc) a.1))

extend-NoChar :
    (c d : ℕ) (ps : List Text) → (d == c) ≡ false → All (NoChar c) ps → All (NoChar c) (extend d ps)
unfolding extend has_char
extend-NoChar c d [] h a = ground arith
extend-NoChar c d (p ∷ ps) h a = ground arith

pub split_on-NoChar : (c : ℕ) (s : Text) → All (NoChar c) (split_on c s)
unfolding split_on has_char
split_on-NoChar c [] = (refl, tt)
split_on-NoChar c (d ∷ s) = elim (Bool-cases (d == c)) [
  | inl e ↦ rw e (refl, split_on-NoChar c s)
  | inr e ↦ rw e (extend-NoChar c d (split_on c s) e (split_on-NoChar c s))
]
