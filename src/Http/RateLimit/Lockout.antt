-- ===== src/Http/RateLimit/Lockout.antt =====
-- When internal/httpapi/ratelimit.go locks an address out.
use mathlib.Core.Option
use dockbrr.Common.{ℕ, List, [], ◌∷◌, Text}
use dockbrr.Http.RateLimit.{Entries, fail}

-- Failed logins of one address, at the times.
pub fails : Text → List ℕ → Entries → Entries
fails ip [] m = m
fails ip (t ∷ ts) m = fails ip ts (fail t ip m)
