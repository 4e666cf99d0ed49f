-- ===== src/RateLimit/Retry.antt =====
-- When a rejected client may come again (`allow` of server/internal/ratelimit/limiter.go).
use repo_mender.Prelude.{
  ℕ, ◌+◌, ◌-◌, ◌*◌, ◌/◌, ◌≤◌, ◌<◌, ◌≡◌, sym, ap, subst, true, false, inl, inr, some, Text, leb,
  Bool-cases, Option-cases, arith,
}
use repo_mender.RateLimit.Quota.{is_idle, allow-idle}
use repo_mender.RateLimit.{
  Time, Window, Limiter, lookup, is_over, retry_after, allow_window, allow, second,
}

ceiling :
    (remaining n : ℕ)
    → 0 < remaining
    → (remaining + second - 1) / second ≡ n
    → (1 ≤ n) × (remaining ≤ n * second) × ((n - 1) * second < remaining)
ceiling remaining n h e = (omega (arith, h, e), omega (arith, h, e), omega (arith, h, e))

rejected_window :
    (client : Text) (now : Time) (w : Window) (l after : Limiter) (s : ℕ)
    → lookup client l.clients ≡ some w
    → allow_window client now w l ≡ ((false, s), after)
    → (after ≡ l)
      × (1 ≤ s)
      × (w.started + l.window ≤ now + s * second)
      × (now + (s - 1) * second < w.started + l.window)
unfolding allow_window is_over retry_after
rejected_window client now w l after s k e = elim (Bool-cases (leb (w.started + l.window) now)) [
  | inl over ↦ cc (ap (λ p. p.0.0) (rw (over, allow_window, is_over) at e))
  | inr inside ↦ elim (Bool-cases (leb l.limit w.count)) [
    | inr free ↦ cc (ap (λ p. p.0.0) (rw (inside, free, allow_window, is_over) at e))
    | inl full ↦
        let q = rw (inside, full, allow_window, is_over) at e in
        let (some_time, enough, needed) =
          ceiling (w.started + l.window - now) s (ground (arith, inside)) (ap (λ p. p.0.1) q) in
        (
          sym (ap (λ p. p.1) q),
          some_time,
          ground (arith, enough, inside),
          ground (arith, needed, inside),
        )
  ]
]

idle_passes :
    (client : Text) (later : Time) (l after : Limiter)
    → after ≡ l
    → is_idle client later l ≡ true
    → (allow client later after).0.0 ≡ true
idle_passes client later l after same idle =
    subst (λ (v : Limiter). (allow client later v).0.0 ≡ true) (sym same)
      (ap (λ p. p.0.0) (allow-idle client later l idle))

-- A rejection changes nothing and names the least number of whole seconds, at least one, after which
-- the client's window is over; a request that the client sends then, or later, passes.
pub allow-rejected :
    (client : Text) (now later : Time) (l after : Limiter) (s : ℕ)
    → allow client now l ≡ ((false, s), after)
    → now + s * second ≤ later
    → (w : Window) × (lookup client l.clients ≡ some w)
      × (after ≡ l)
      × (1 ≤ s)
      × (now + (s - 1) * second < w.started + l.window)
      × ((allow client later after).0.0 ≡ true)
unfolding allow is_over is_idle
allow-rejected client now later l after s e wait = elim (Option-cases (lookup client l.clients)) [
  | inl new ↦ cc (ap (λ p. p.0.0) (rw (new, allow) at e))
  | inr (w, k) ↦
      let (same, some_time, enough, needed) =
        rejected_window client now w l after s k (rw (k, allow) at e) in
      let over : leb (w.started + l.window) later ≡ true = ground (arith, enough, wait) in
      (w, k, same, some_time, needed, idle_passes client later l after same (rw (k, is_idle) over))
]
