-- ===== src/Common/Strings/Cuts.antt =====
-- Laws of cutting a text at a character.
use dockbrr.Common.Strings.{Text, cut_at, cut_last, has_char}
use Prim.Native.Nat.{ℕ}
use mathlib.Core.Path.{◌≡◌, refl}
use mathlib.Core.Bool.{false}
use mathlib.Core.List.{[], ◌∷◌, ◌++◌}
use mathlib.Core.Option.{none, some}
use native.Mathlib.Omega.{arith}

pub cut_at_absent : (c : ℕ) (s : Text) → has_char c s ≡ false → cut_at c s ≡ (s, none)
unfolding cut_at has_char
cut_at_absent c [] h = refl
cut_at_absent c (d ∷ s) h = ground (arith, cut_at_absent c s)

pub cut_last_absent : (c : ℕ) (s : Text) → has_char c s ≡ false → cut_last c s ≡ none
unfolding cut_last has_char
cut_last_absent c [] h = refl
cut_last_absent c (d ∷ s) h = ground (arith, cut_last_absent c s)

pub cut_last-append :
    (c : ℕ) (s t : Text) → has_char c t ≡ false → cut_last c (s ++ (c ∷ t)) ≡ some (s, t)
unfolding cut_last
cut_last-append c [] t h = rw (cut_last_absent c t h) (ground arith)
cut_last-append c (d ∷ s) t h = rw (cut_last-append c s t h)

pub has_char-append :
    (c : ℕ) (s t : Text) → has_char c s ≡ false → has_char c t ≡ false → has_char c (s ++ t) ≡ false
unfolding has_char
has_char-append c [] t h k = k
has_char-append c (d ∷ s) t h k = ground (arith, has_char-append c s t)
