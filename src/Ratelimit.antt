-- ===== src/Ratelimit.antt =====
-- src/ratelimit.rs: the sliding window of each address, in nanoseconds of a monotonic clock.
mod Map
pub mod Bounds
pub mod History
mod Tests
use honey_mind.Base.{
  ℕ, ◌*◌, ◌-◌, ◌^◌, Bool, false, not, ◌&&◌, Option, none, some, List, [], ◌∷◌, ◌++◌, leb, ◌==◌,
  if◌then◌else◌, is_some, is_empty, length, unwrap_or,
}
use honey_mind.Config.Address.{IpAddr, ip_eq, canonical_ip}

-- `WINDOW`, 60 seconds
abbrev pub window_ns : ℕ
window_ns = 60 * 10 ^ 9

pub data Decision : Type 0 where
  allowed rate_limit capacity unavailable : Decision

-- An entry of the map: an address and its window, the oldest instant first.
abbrev pub Buckets : Type 0
Buckets = List (IpAddr × List ℕ)

-- `poisoned` tells that a thread has panicked while it held the lock.
pub record RateLimiter : Type 0 where
  pub limit : ℕ
  pub max_ips : ℕ
  pub inner : Buckets
  pub poisoned : Bool

unfoldable pub new : ℕ → ℕ → RateLimiter
new limit max_ips = record { limit = limit; max_ips = max_ips; inner = []; poisoned = false }

-- `HashMap::get`
unfoldable pub get : IpAddr → Buckets → Option (List ℕ)
get ip [] = none
get ip ((k, w) ∷ m) = if ip_eq k ip then some w else get ip m

-- `HashMap::insert`; a new key goes to the end
pub insert : IpAddr → List ℕ → Buckets → Buckets
insert ip w [] = (ip, w) ∷ []
insert ip w ((k, v) ∷ m) = if ip_eq k ip then (k, w) ∷ m else (k, v) ∷ insert ip w m

-- `now.saturating_duration_since(time) >= WINDOW`
abbrev pub is_stale : ℕ → ℕ → Bool
is_stale now time = leb window_ns (now - time)

unfoldable pub expire : ℕ → List ℕ → List ℕ
expire now [] = []
expire now (t ∷ w) = if is_stale now t then expire now w else t ∷ w

-- The part of `check_at` behind the entry: the window that is left, and the decision.
unfoldable pub admit : ℕ → ℕ → List ℕ → List ℕ × Decision
admit limit now w = if leb limit (length w) then (w, rate_limit) else (w ++ now ∷ [], allowed)

abbrev store : RateLimiter → IpAddr → List ℕ × Decision → RateLimiter × Decision
store r ip (w, d) = (record r { inner = insert ip w r.inner }, d)

unfoldable pub check_at : RateLimiter → IpAddr → ℕ → RateLimiter × Decision
check_at r addr now =
    let ip = canonical_ip addr in
    if r.limit == 0
    then (r, allowed)
    else if r.poisoned
    then (r, unavailable)
    else if not (is_some (get ip r.inner)) && leb r.max_ips (length r.inner)
    then (r, capacity)
    else store r ip (admit r.limit now (expire now (unwrap_or (get ip r.inner) [])))

-- `retain` with the closure of `evict_at`
pub retain_fresh : ℕ → Buckets → Buckets
retain_fresh now [] = []
retain_fresh now ((k, w) ∷ m) =
    let kept = expire now w in
    if is_empty kept then retain_fresh now m else (k, kept) ∷ retain_fresh now m

pub evict_at : RateLimiter → ℕ → RateLimiter
evict_at r now = if r.poisoned then r else record r { inner = retain_fresh now r.inner }

pub tracked_ips : RateLimiter → ℕ
tracked_ips r = if r.poisoned then 0 else length r.inner
