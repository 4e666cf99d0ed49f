-- ===== src/RateLimit/Quota.antt =====
-- How many requests one window lets pass (`allow` of server/internal/ratelimit/limiter.go).
use repo_mender.Prelude.{
  ℕ, ◌+◌, ◌-◌, ◌≤◌, ◌<◌, ◌≡◌, ◌∙◌, refl, subst, Bool, true, false, not, ◌&&◌, inl, inr, none, some,
  List, [], ◌∷◌, Text, text_eq, text_eq_iff, text_eq_refl, find, select, count_if, All, leb,
  Bool-cases, Option-cases, if◌then◌else◌, arith,
}
use repo_mender.RateLimit.{
  Time, Window, Client, Limiter, lookup, put, is_over, opened, allow_window, allow,
}

lookup-put_same : (key : Text) (w : Window) (cs : List Client) → lookup key (put key w cs) ≡ some w
unfolding lookup put
lookup-put_same key w cs = rw (text_eq_refl key, lookup) refl

find-select_other :
    (key other : Text) (cs : List Client)
    → text_eq other key ≡ false
    → find (λ c. text_eq c.key key) (select (λ c. not (text_eq c.key other)) cs)
      ≡ find (λ c. text_eq c.key key) cs
find-select_other key other [] d = refl
find-select_other key other (c ∷ cs) d =
    let rest = find-select_other key other cs d in
    elim (Bool-cases (text_eq c.key other)) [
      | inl gone ↦
          let away : text_eq c.key key ≡ false = rw (← (text_eq_iff c.key other).0 gone) at d in
          rw (gone, away) rest
      | inr here ↦ elim (Bool-cases (text_eq c.key key)) [
        | inl found ↦ rw (here, found) refl
        | inr other_key ↦ rw (here, other_key) rest
      ]
    ]

lookup-put_other :
    (key other : Text) (w : Window) (cs : List Client)
    → text_eq other key ≡ false
    → lookup key (put other w cs) ≡ lookup key cs
unfolding lookup put
lookup-put_other key other w cs d = rw (d, find-select_other key other cs d, lookup) refl

-- A request: whose it is, and when.
abbrev pub Arrival : Type 0
Arrival = Text × Time

-- How many of the requests of a client pass, among those of others.
unfoldable pub allowed : Text → List Arrival → Limiter → ℕ
allowed client [] l = 0
allowed client (a ∷ rest) l =
    let (verdict, after) = allow a.0 a.1 l in
    let others = allowed client rest after in
    if text_eq a.0 client && verdict.0 then others + 1 else others

abbrev pub is_of : Text → Arrival → Bool
is_of client a = text_eq a.0 client

-- The requests of the client come before the end of the window.
abbrev pub IsWithin : Text → Time → Arrival → Type 0
IsWithin client end a = text_eq a.0 client ≡ true → a.1 < end

abbrev pub min : ℕ → ℕ → ℕ
min a b = if leb a b then a else b

-- What one request does to the window of the client.
allow-other :
    (client other : Text) (now : Time) (l : Limiter)
    → text_eq other client ≡ false
    → (lookup client (allow other now l).1.clients ≡ lookup client l.clients)
      × ((allow other now l).1.window ≡ l.window)
      × ((allow other now l).1.limit ≡ l.limit)
unfolding allow allow_window
allow-other client other now l d = elim (Option-cases (lookup other l.clients)) [
  | inl new ↦ rw (new, allow) (lookup-put_other client other _ l.clients d, refl, refl)
  | inr (w, old) ↦ elim (Bool-cases (is_over now l.window w)) [
    | inl over ↦
        rw (old, over, allow, allow_window)
          (lookup-put_other client other _ l.clients d, refl, refl)
    | inr inside ↦ elim (Bool-cases (leb l.limit w.count)) [
      | inl full ↦ rw (old, inside, full, allow, allow_window) (refl, refl, refl)
      | inr free ↦
          rw (old, inside, free, allow, allow_window)
            (lookup-put_other client other _ l.clients d, refl, refl)
    ]
  ]
]

within_window : (now limit : ℕ) (w : Window) → now < w.started + limit → is_over now limit w ≡ false
unfolding is_over
within_window now limit w h = ground arith

-- A request of the client in its window.
allow-full :
    (client : Text) (now : Time) (l : Limiter) (w : Window)
    → lookup client l.clients ≡ some w
    → is_over now l.window w ≡ false
    → leb l.limit w.count ≡ true
    → ((allow client now l).0.0 ≡ false) × ((allow client now l).1 ≡ l)
unfolding allow allow_window
allow-full client now l w k inside full = rw (k, inside, full, allow, allow_window) (refl, refl)

allow-free :
    (client : Text) (now : Time) (l : Limiter) (w : Window)
    → lookup client l.clients ≡ some w
    → is_over now l.window w ≡ false
    → leb l.limit w.count ≡ false
    → ((allow client now l).0.0 ≡ true)
      × ((allow client now l).1.limit ≡ l.limit)
      × ((allow client now l).1.window ≡ l.window)
      × (lookup client (allow client now l).1.clients
          ≡ some (record { started = w.started; count = w.count + 1 }))
unfolding allow allow_window
allow-free client now l w k inside free =
    rw (k, inside, free, allow, allow_window) (refl, refl, refl, lookup-put_same client _ l.clients)

allowed_rest :
    (client : Text) (rs : List Arrival) (l : Limiter) (w : Window) (limit window : ℕ)
    → l.limit ≡ limit
    → l.window ≡ window
    → lookup client l.clients ≡ some w
    → w.count ≤ limit
    → All (IsWithin client (w.started + window)) rs
    → allowed client rs l ≡ min (limit - w.count) (count_if (is_of client) rs)
unfolding allowed
allowed_rest client [] l w limit window el ew k c h = ground arith
allowed_rest client (a ∷ rs) l w limit window el ew k c h = elim (Bool-cases (text_eq a.0 client)) [
  | inr other ↦
      let (same, ew2, el2) = allow-other client a.0 a.1 l other in
      let rest =
        allowed_rest client rs (allow a.0 a.1 l).1 w limit window (el2 ∙ el) (ew2 ∙ ew) (same ∙ k) c
          h.1 in
      rw other (ground (arith, rest))
  | inl mine ↦
      let name : a.0 ≡ client = (text_eq_iff a.0 client).0 mine in
      let found : lookup a.0 l.clients ≡ some w = rw name k in
      let inside : is_over a.1 l.window w ≡ false = rw ew (within_window a.1 window w (h.0 mine)) in
      elim (Bool-cases (leb l.limit w.count)) [
        | inl full ↦
            let (refused, same) = allow-full a.0 a.1 l w found inside full in
            let rest = allowed_rest client rs l w limit window el ew k c h.1 in
            rw (mine, refused, same) (ground (arith, rest, full, el))
        | inr free ↦
            let (granted, el2, ew2, next) = allow-free a.0 a.1 l w found inside free in
            let rest =
              allowed_rest client rs (allow a.0 a.1 l).1
                (record { started = w.started; count = w.count + 1 }) limit window (el2 ∙ el)
                (ew2 ∙ ew)
                (subst
                  (λ n.
                    lookup n (allow a.0 a.1 l).1.clients
                    ≡ some (record { started = w.started; count = w.count + 1 }))
                  name next)
                (ground (arith, free, el)) h.1 in
            rw (mine, granted) (ground (arith, rest, free, el))
      ]
]

-- A request that opens a window.
unfoldable pub is_idle : Text → Time → Limiter → Bool
is_idle client now l = elim (lookup client l.clients) [
  | none ↦ true
  | some w ↦ is_over now l.window w
]

pub allow-idle :
    (client : Text) (now : Time) (l : Limiter)
    → is_idle client now l ≡ true
    → allow client now l ≡ ((true, 0), opened client now l)
unfolding is_idle allow allow_window
allow-idle client now l h = elim (Option-cases (lookup client l.clients)) [
  | inl new ↦ rw (new, allow) refl
  | inr (w, old) ↦
      let over : is_over now l.window w ≡ true = rw (old, is_idle) at h in
      rw (old, over, allow, allow_window) refl
]

-- Of the requests of one client that come before the end of the window which the first of them
-- opens, exactly as many pass as the limit says, or all if they are fewer, whatever requests of
-- other clients come between. The limit is at least one.
pub allowed-min :
    (client : Text) (now : Time) (rs : List Arrival) (l : Limiter)
    → 1 ≤ l.limit
    → is_idle client now l ≡ true
    → All (IsWithin client (now + l.window)) rs
    → allowed client ((client, now) ∷ rs) l ≡ min l.limit (1 + count_if (is_of client) rs)
unfolding allowed
allowed-min client now rs l positive idle h =
    let rest =
      allowed_rest client rs (opened client now l) (record { started = now; count = 1 }) l.limit
        l.window refl refl (lookup-put_same client (record { started = now; count = 1 }) l.clients)
        positive h in
    rw (allow-idle client now l idle, text_eq_refl client) (ground (arith, rest))
