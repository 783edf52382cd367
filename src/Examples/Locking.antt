-- ===== src/Examples/Locking.antt =====
-- Failed logins of one address.
use dockbrr.Common.{refl, ◌≤◌, [], ◌∷◌, bytes, length, text_eq}
use dockbrr.Http.RateLimit.{fail_at, success_at, blocked_at, history}
use dockbrr.Http.RateLimit.Bounds.{history_bound}

history_bound_example :
    length (
      history
        (fail_at 5 (bytes "10.0.0.1")
          ∷ blocked_at 6 (bytes "10.0.0.2")
          ∷ success_at 9 (bytes "10.0.0.1")
          ∷ [])
        [])
    ≤ 4096
unfolding text_eq
history_bound_example =
    history_bound
      (fail_at 5 (bytes "10.0.0.1")
        ∷ blocked_at 6 (bytes "10.0.0.2")
        ∷ success_at 9 (bytes "10.0.0.1")
        ∷ [])
      (refl, (refl, (refl, tt)))
