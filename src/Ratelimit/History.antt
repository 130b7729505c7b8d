-- ===== src/Ratelimit/History.antt =====
-- The windows against the history of admissions: the limiter decides by exactly the admissions of
-- the last 60 seconds.
mod Tracks
pub mod Exact
use honey_mind.Base.{ℕ, ◌≤◌, Bool, not, List, [], ◌∷◌, ◌++◌, if◌then◌else◌, unwrap_or, filter}
use honey_mind.Config.Address.{IpAddr, ip_eq, canonical_ip}
use honey_mind.Ratelimit.{
  RateLimiter, Buckets, Decision, allowed, get, is_stale, check_at, evict_at,
}

-- A call of the limiter, with the instant that its clock shows.
pub data Call : Type 0 where
  check : IpAddr → ℕ → Call
  evict : ℕ → Call

abbrev pub instant : Call → ℕ
instant (check ip now) = now
instant (evict now) = now

-- The clock is monotonic: no call is earlier than the one before it.
abbrev pub Monotonic : ℕ → List Call → Type 0
Monotonic last [] = Unit {0}
Monotonic last (c ∷ cs) = (last ≤ instant c) × Monotonic (instant c) cs

-- The admissions so far, the oldest first, under canonical addresses.
abbrev pub Log : Type 0
Log = List (IpAddr × ℕ)

abbrev pub admitted : IpAddr → ℕ → Decision → Log
admitted ip now allowed = (canonical_ip ip, now) ∷ []
admitted ip now _ = []

-- One call on a limiter and its log.
pub step : RateLimiter × Log → Call → RateLimiter × Log
step (r, log) (check ip now) = let (r', d) = check_at r ip now in (r', log ++ admitted ip now d)
step (r, log) (evict now) = (evict_at r now, log)

pub run : RateLimiter × Log → List Call → RateLimiter × Log
run s [] = s
run s (c ∷ cs) = run (step s c) cs

abbrev pub last_instant : ℕ → List Call → ℕ
last_instant last [] = last
last_instant last (c ∷ cs) = last_instant (instant c) cs

-- The instants at which an address was admitted.
pub times : IpAddr → Log → List ℕ
times ip [] = []
times ip ((k, t) ∷ log) = if ip_eq k ip then t ∷ times ip log else times ip log

abbrev pub is_fresh : ℕ → ℕ → Bool
is_fresh now t = not (is_stale now t)

-- Those less than 60 seconds old.
pub recent : IpAddr → ℕ → Log → List ℕ
recent ip now log = filter (is_fresh now) (times ip log)

abbrev pub bucket : IpAddr → Buckets → List ℕ
bucket ip m = unwrap_or (get ip m) []
