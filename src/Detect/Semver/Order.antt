-- ===== src/Detect/Semver/Order.antt =====
-- The order of version cores, and how it goes with the severity of a step.
use dockbrr.Common.{◌≡◌, ◌↔◌, false, true, arith}
use dockbrr.Detect.Semver.{Core, core_less, core_severity, digest_only}

pub core_less_irrefl : (a : Core) → core_less a a ≡ false
unfolding core_less
core_less_irrefl a = ground arith

pub core_less_trans :
    (a b c : Core) → core_less a b ≡ true → core_less b c ≡ true → core_less a c ≡ true
unfolding core_less
core_less_trans a b c h k = ground arith

-- Two cores neither of which is below the other are equal.
pub core_less_total : (a b : Core) → core_less a b ≡ false → core_less b a ≡ false → a ≡ b
unfolding core_less
core_less_total a b h k = ground arith

-- What is not above `a` is not above anything from `a` on.
pub core_less-of_not_lt :
    (a b c : Core) → core_less a c ≡ false → core_less a b ≡ true → core_less b c ≡ false
unfolding core_less
core_less-of_not_lt a b c h k = ground arith

core_severity-order :
    (f t : Core)
    → (core_severity f t ≡ digest_only) ↔ ((core_less f t ≡ false) × (core_less t f ≡ false))
unfolding core_severity core_less
core_severity-order f t = ground arith

pub core_le_trans :
    (a b c : Core) → core_less b a ≡ false → core_less c b ≡ false → core_less c a ≡ false
unfolding core_less
core_le_trans a b c h k = ground arith

pub core_less_asymm : (a b : Core) → core_less a b ≡ true → core_less b a ≡ false
unfolding core_less
core_less_asymm a b h = ground arith
