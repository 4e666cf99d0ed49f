-- ===== src/RateLimit/Tests.antt =====
-- The limiter of server/internal/ratelimit/limiter.go at two requests a minute, and each theorem at
-- an input that meets its hypotheses.
use repo_mender.Prelude.{
  ◌+◌, ◌-◌, ◌*◌, ◌≤◌, ◌<◌, ◌≡◌, refl, true, false, some, List, [], ◌∷◌, text, text_eq, pos, arith,
  decimal,
}
use repo_mender.RateLimit.{
  Window, Limiter, rejected, new, lookup, is_over, retry_after, allow, allow_window, second,
  middleware, exempt, client_key,
}
use repo_mender.RateLimit.Quota.{Arrival, allowed, allowed-min, is_idle}
use repo_mender.RateLimit.Retry.{allow-rejected}

abbrev two_a_minute : Limiter
two_a_minute = new (pos 2)

abbrev arrivals : List Arrival
arrivals = (text "b", 1) ∷ (text "a", 2) ∷ (text "a", 3) ∷ []

allowed-min_example : allowed (text "a") ((text "a", 1) ∷ arrivals) two_a_minute ≡ 2
unfolding new is_idle lookup text text_eq allowed
allowed-min_example =
    allowed-min (text "a") 1 arrivals two_a_minute (omega arith) refl
      (λ h. omega arith, (λ h. omega arith, (λ h. omega arith, tt)))

abbrev full : Limiter
full = record two_a_minute {
  clients = record { key = text "a"; window = record { started = 1; count = 2 } } ∷ [];
}

full-rejects : allow (text "a") 2 full ≡ ((false, 60), full)
unfolding new allow allow_window lookup is_over retry_after text text_eq
full-rejects = refl

allow-rejected_example :
    (w : Window) × (lookup (text "a") full.clients ≡ some w)
    × (full ≡ full)
    × (1 ≤ 60)
    × (2 + (60 - 1) * second < w.started + full.window)
    × ((allow (text "a") 60000000002 full).0.0 ≡ true)
allow-rejected_example =
    allow-rejected (text "a") 2 60000000002 full full 60 full-rejects (omega arith)

-- A rejected request is counted and told when to come again.
rejection :
    middleware
      (λ r. some r)
      (text "/api/tasks")
      (text "a")
      2
      (record { limiter = some full; rejections = some 0 })
    ≡ (rejected (text "60"), record { limiter = some full; rejections = some 1 })
unfolding new middleware exempt client_key allow allow_window lookup is_over retry_after text
    text_eq decimal
rejection = refl
