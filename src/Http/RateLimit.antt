-- ===== src/Http/RateLimit.antt =====
-- The lockout of internal/httpapi/ratelimit.go: a counter of failed logins for each address, over the
-- map as an association list. Times are in nanoseconds.
pub mod Bounds
pub mod Lockout
use dockbrr.Common.{
  ℕ, zero, suc, ◌+◌, ◌-◌, ◌*◌, ◌/◌, Bool, true, false, not, ◌&&◌, ◌||◌, Option, none, some, List,
  [], ◌∷◌, Text, ltb, leb, ◌==◌, length, filter, find, edit, text_eq, if◌then◌else◌,
}

-- `failEntry`, with its key.
pub record Entry : Type 0 where
  pub ip : Text
  pub count : ℕ
  pub first : ℕ

abbrev pub fail_limit : ℕ
fail_limit = 5

-- `15 * time.Minute`.
abbrev pub fail_window : ℕ
fail_window = 900000000000

abbrev pub second : ℕ
second = 1000000000

abbrev pub max_tracked_ips : ℕ
max_tracked_ips = 4096

-- `l.m`.
abbrev pub Entries : Type 0
Entries = List Entry

abbrev pub holds : Text → Entry → Bool
holds ip e = text_eq e.ip ip

abbrev pub lacks : Text → Entry → Bool
lacks ip e = not (text_eq e.ip ip)

-- `l.m[ip]`.
unfoldable pub entry_of : Text → Entries → Option Entry
entry_of ip m = find (holds ip) m

-- `delete(l.m, ip)`.
unfoldable pub delete : Text → Entries → Entries
delete ip m = filter (lacks ip) m

-- `now.Sub(e.first) < failWindow`, where the clock may have been set back too.
abbrev pub is_current : ℕ → Entry → Bool
is_current now e = ltb now (e.first + fail_window)

-- The seconds that are left of a window, at least one.
unfoldable pub at_least_one : ℕ → ℕ
at_least_one secs = if ltb secs 1 then 1 else secs

-- `blocked` for an entry: `none` for "not blocked". `failWindow - l.now().Sub(e.first) <= 0` is that
-- the entry is not current.
unfoldable pub blocked_entry : ℕ → Text → Entries → Entry → Option ℕ × Entries
blocked_entry now ip m e =
    let remaining = e.first + fail_window - now in
    if not (is_current now e)
    then (none, delete ip m)
    else if ltb e.count fail_limit
    then (none, m)
    else (some (at_least_one (remaining / second)), m)

-- `blocked`.
unfoldable pub blocked : ℕ → Text → Entries → Option ℕ × Entries
blocked now ip m = elim (entry_of ip m) [ none ↦ (none, m) | some e ↦ blocked_entry now ip m e ]

-- The loop of `evictLocked` over the entries that stay: the key and the time of the oldest so far, ""
-- before the first.
unfoldable pub oldest_key : Entries → Text → ℕ → Text
oldest_key [] key oldest = key
oldest_key (e ∷ m) key oldest =
    if text_eq key [] || ltb e.first oldest
    then oldest_key m e.ip e.first
    else oldest_key m key oldest

-- The last step of `evictLocked`.
unfoldable pub drop_oldest : Entries → Text → Entries
drop_oldest m key =
    if leb max_tracked_ips (length m) && not (text_eq key []) then delete key m else m

-- `evictLocked`.
unfoldable pub evict_locked : ℕ → Entries → Entries
evict_locked now m = let left = filter (is_current now) m in drop_oldest left (oldest_key left [] 0)

-- `l.m[ip] = e`.
unfoldable pub put : Entry → Entries → Entries
put e m = e ∷ delete e.ip m

unfoldable pub new_entry : ℕ → Text → Entries → Entries
new_entry now ip m =
    put (record { ip = ip; count = 1; first = now })
      (if leb max_tracked_ips (length m) then evict_locked now m else m)

-- `e.count++`.
unfoldable pub count_up : Text → Entries → Entries
count_up ip m = edit (holds ip) (λ e. record e { count = e.count + 1 }) m

unfoldable pub fail_entry : ℕ → Text → Entries → Option Entry → Entries
fail_entry now ip m none = new_entry now ip m
fail_entry now ip m (some e) = if is_current now e then count_up ip m else new_entry now ip m

-- `fail`.
unfoldable pub fail : ℕ → Text → Entries → Entries
fail now ip m = fail_entry now ip m (entry_of ip m)

-- `success`.
unfoldable pub success : Text → Entries → Entries
success ip m = delete ip m

-- The calls of the three methods, with the time of the call.
pub data Call : Type 0 where
  blocked_at fail_at success_at : ℕ → Text → Call

unfoldable pub step : Call → Entries → Entries
step (blocked_at now ip) m = (blocked now ip m).1
step (fail_at now ip) m = fail now ip m
step (success_at now ip) m = success ip m

-- A history of calls, from the first on.
unfoldable pub history : List Call → Entries → Entries
history [] m = m
history (c ∷ cs) m = history cs (step c m)
