-- ===== src/Job/Effects/Writes.antt =====
-- Effects of a handler of internal/job that write a compose file or an override.
use dockbrr.Common.{◌≡◌, Bool, true, false, List, [], ◌∷◌, ◌++◌, All}
use dockbrr.Job.Effects.{Effect, write_file, create_override}

abbrev pub writes : Effect → Bool
writes (write_file f c) = true
writes (create_override f c) = true
writes _ = false

-- No effect of the list writes a compose file or an override.
abbrev pub Quiet : List Effect → Type 0
Quiet es = All (λ e. writes e ≡ false) es

pub Quiet-append : (es fs : List Effect) → Quiet es → Quiet fs → Quiet (es ++ fs)
Quiet-append [] fs h k = k
Quiet-append (e ∷ es) fs h k = (h.0, Quiet-append es fs h.1 k)
