-- ===== src/RateLimit.antt =====
-- The fixed-window rate limiter: server/internal/ratelimit/limiter.go. Times and durations count
-- nanoseconds. The map is a list of its entries, each key in it once.
pub mod Quota
pub mod Retry
mod Tests
use repo_mender.Prelude.{
  ℕ, ◌+◌, ◌-◌, ◌/◌, Bool, true, false, ◌||◌, not, Option, none, some, List, [], ◌∷◌, Text, text,
  text_eq, is_empty, find, select, ℤ, pos, pos_part, leb_ℤ, decimal, leb, if◌then◌else◌,
}

abbrev pub Time : Type 0
Time = ℕ

pub record Window : Type 0 where
  pub started : Time
  pub count : ℕ

-- An entry of the map.
pub record Client : Type 0 where
  pub key : Text
  pub window : Window

pub record Limiter : Type 0 where
  pub limit : ℕ
  pub window : ℕ
  pub clients : List Client

abbrev pub second : ℕ
second = 1000000000

abbrev minute : ℕ
minute = 60000000000

-- `New`
unfoldable pub new : ℤ → Limiter
new per_minute = record {
  limit = if leb_ℤ per_minute (pos 0) then 120 else pos_part per_minute;
  window = minute;
  clients = [];
}

unfoldable pub lookup : Text → List Client → Option Window
lookup key clients = elim (find (λ c. text_eq c.key key) clients) [
  | none ↦ none
  | some c ↦ some c.window
]

unfoldable pub put : Text → Window → List Client → List Client
put key w clients = record { key = key; window = w } ∷ select (λ c. not (text_eq c.key key)) clients

-- `now.Sub(item.started) >= l.window`
unfoldable pub is_over : Time → ℕ → Window → Bool
is_over now window w = leb (w.started + window) now

abbrev opened : Text → Time → Limiter → Limiter
opened client now l = record l {
  clients = put client (record { started = now; count = 1 }) l.clients;
}

unfoldable pub retry_after : Time → ℕ → Window → ℕ
retry_after now window w = ((w.started + window - now) + second - 1) / second

unfoldable pub allow_window : Text → Time → Window → Limiter → (Bool × ℕ) × Limiter
allow_window client now w l =
    if is_over now l.window w
    then ((true, 0), opened client now l)
    else if leb l.limit w.count
    then ((false, retry_after now l.window w), l)
    else (
      (true, 0),
      record l {
        clients = put client (record { started = w.started; count = w.count + 1 }) l.clients;
      },
    )

unfoldable pub allow : Text → Time → Limiter → (Bool × ℕ) × Limiter
unfolding allow_window
allow client now l = elim (lookup client l.clients) [
  | none ↦ ((true, 0), opened client now l)
  | some w ↦ allow_window client now w l
]

unfoldable pub sweep : Time → Limiter → Limiter
sweep now l = record l { clients = select (λ c. not (is_over now l.window c.window)) l.clients }

unfoldable pub exempt : Text → Bool
exempt path =
    text_eq path (text "/health/live")
    || text_eq path (text "/health/ready")
    || text_eq path (text "/metrics")

-- `net.SplitHostPort`: the host, or nothing where it fails.
abbrev pub HostSplitter : Type 0
HostSplitter = Text → Option Text

peer : Text → Text
peer remote = if is_empty remote then text "unknown" else remote

unfoldable pub client_key : HostSplitter → Text → Text
unfolding peer
client_key split remote = elim (split remote) [
  | none ↦ peer remote
  | some host ↦ if is_empty host then peer remote else host
]

-- What the middleware does with a request: pass it on, or answer 429 with a `Retry-After`.
pub data Verdict : Type 0 where
  passed : Verdict
  rejected : Text → Verdict

-- The limiter, if there is one, and the count of rejections in its metrics registry, if that exists.
pub record Guard : Type 0 where
  pub limiter : Option Limiter
  pub rejections : Option ℕ

count_rejection : Option ℕ → Option ℕ
count_rejection none = none
count_rejection (some n) = some (n + 1)

judged : Guard → (Bool × ℕ) × Limiter → Verdict × Guard
unfolding count_rejection
judged g ((true, s), l) = (passed, record g { limiter = some l })
judged g ((false, s), l) = (
  rejected (decimal (pos s)),
  record { limiter = some l; rejections = count_rejection g.rejections },
)

guarded : HostSplitter → Text → Text → Time → Guard → Option Limiter → Verdict × Guard
unfolding judged
guarded split path remote now g none = (passed, g)
guarded split path remote now g (some l) =
    if exempt path then (passed, g) else judged g (allow (client_key split remote) now l)

-- `Middleware`
unfoldable pub middleware : HostSplitter → Text → Text → Time → Guard → Verdict × Guard
unfolding guarded
middleware split path remote now g = guarded split path remote now g g.limiter
