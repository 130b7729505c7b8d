-- ===== src/Ratelimit/Bounds.antt =====
-- The memory of the limiter is bounded: the number of buckets, and the instants in each.
use honey_mind.Base.{
  ℕ, ◌+◌, ◌*◌, ◌≤◌, sym, List, [], ◌∷◌, arith, unwrap_or, length, length-append, All, subst, ◌≡◌,
}
use honey_mind.Config.Address.{IpAddr, canonical_ip}
use honey_mind.Config.Address.Canonical.{ip_eq_iff, IsCanonical, canonical_ip-IsCanonical}
use honey_mind.Ratelimit.Map.{
  Distinct, insert-Distinct, insert-All, length-insert, retain_fresh-Distinct,
  length-retain_fresh-le, length-expire-le,
}
use honey_mind.Ratelimit.{
  RateLimiter, Buckets, new, get, insert, expire, admit, check_at, retain_fresh, evict_at,
}

abbrev pub Fits : ℕ → IpAddr × List ℕ → Type 0
Fits limit (ip, w) = IsCanonical ip × (length w ≤ limit)

pub record Inv (r : RateLimiter) : Type 0 where
  pub tracked : length r.inner ≤ r.max_ips
  pub fits : All (Fits r.limit) r.inner
  pub distinct : Distinct r.inner

pub new-Inv : (limit max_ips : ℕ) → Inv (new limit max_ips)
unfolding new
new-Inv limit max_ips = record { tracked = omega arith; fits = tt; distinct = tt }

length-admit :
    (limit now : ℕ) (w : List ℕ) → length w ≤ limit → length (admit limit now w).0 ≤ limit
unfolding admit
length-admit limit now w h = ground (arith, length-append w (now ∷ []))

get-Fits :
    (limit : ℕ) (ip : IpAddr) (m : Buckets)
    → All (Fits limit) m
    → length (unwrap_or (get ip m) []) ≤ limit
unfolding get
get-Fits limit ip [] a = omega arith
get-Fits limit ip ((k, w) ∷ m) a = ground (arith, get-Fits limit ip m a.1)

insert-Fits :
    (limit : ℕ) (ip : IpAddr) (w : List ℕ) (m : Buckets)
    → IsCanonical ip
    → length w ≤ limit
    → All (Fits limit) m
    → All (Fits limit) (insert ip w m)
insert-Fits limit ip w m c h a =
    insert-All (Fits limit) ip w m (c, h)
      (λ i e. (subst IsCanonical (sym ((ip_eq_iff i ip).0 e)) c, h)) a

retain_fresh-Fits :
    (limit now : ℕ) (m : Buckets) → All (Fits limit) m → All (Fits limit) (retain_fresh now m)
unfolding retain_fresh
retain_fresh-Fits limit now [] a = tt
retain_fresh-Fits limit now ((k, w) ∷ m) a =
    ground (arith, retain_fresh-Fits limit now m a.1, length-expire-le now w)

-- Every check keeps the bounds, whatever it decides.
pub check_at-Inv : (r : RateLimiter) (ip : IpAddr) (now : ℕ) → Inv r → Inv (check_at r ip now).0
unfolding check_at
check_at-Inv r ip now v =
    let c = canonical_ip ip in
    let w = unwrap_or (get c r.inner) [] in
    let w' = (admit r.limit now (expire now w)).0 in
    let short : length w' ≤ r.limit =
      length-admit r.limit now (expire now w)
        (omega (arith, length-expire-le now w, get-Fits r.limit c r.inner v.fits)) in
    ground (
      arith,
      length-insert c w' r.inner,
      insert-Distinct c w' r.inner v.distinct,
      insert-Fits r.limit c w' r.inner (canonical_ip-IsCanonical ip) short v.fits,
    )

-- So does an eviction.
pub evict_at-Inv : (r : RateLimiter) (now : ℕ) → Inv r → Inv (evict_at r now)
unfolding evict_at
evict_at-Inv r now v = ground (
  arith,
  length-retain_fresh-le now r.inner,
  retain_fresh-Distinct now r.inner v.distinct,
  retain_fresh-Fits r.limit now r.inner v.fits,
)

-- The number of instants that the limiter stores.
pub history_size : Buckets → ℕ
history_size [] = 0
history_size ((k, w) ∷ m) = length w + history_size m

history_size-le : (limit : ℕ) (m : Buckets) → All (Fits limit) m → history_size m ≤ length m * limit
unfolding history_size
history_size-le limit [] a = omega arith
history_size-le limit ((k, w) ∷ m) a = grind (arith, history_size-le limit m a.1)

pub history_size_budget : (r : RateLimiter) → Inv r → history_size r.inner ≤ r.max_ips * r.limit
history_size_budget r v = grind (arith, history_size-le r.limit r.inner v.fits, v.tracked)

-- No operation changes the limits.
abbrev pub SameLimits : RateLimiter → RateLimiter → Type 0
SameLimits r r' = (r'.limit ≡ r.limit) × (r'.max_ips ≡ r.max_ips)

pub check_at-SameLimits :
    (r : RateLimiter) (ip : IpAddr) (now : ℕ) → SameLimits r (check_at r ip now).0
unfolding check_at
check_at-SameLimits r ip now = ground arith

pub evict_at-SameLimits : (r : RateLimiter) (now : ℕ) → SameLimits r (evict_at r now)
unfolding evict_at
evict_at-SameLimits r now = ground arith
