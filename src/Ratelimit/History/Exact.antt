-- ===== src/Ratelimit/History/Exact.antt =====
-- The limiter decides by exactly the admissions of the last 60 seconds.
use honey_mind.Config.Address.Canonical.{ip_eq_iff}
use honey_mind.Base.{
  ℕ, ◌≤◌, ◌≡◌, refl, false, List, [], leb, Bool-cases, length, inl, inr, ◌++◌, is_some, ◌<◌, sym,
  subst, Bool, not, ◌&&◌, ◌∷◌, append-nil, arith, if◌then◌else◌, filter, ◌∙◌,
}
use honey_mind.Config.Address.{IpAddr, ip_eq, canonical_ip}
use honey_mind.Ratelimit.Map.{
  Distinct, insert-Distinct, retain_fresh-Distinct, get-retain_fresh, get-insert,
}
use honey_mind.Ratelimit.{
  RateLimiter, new, get, insert, evict_at, admit, retain_fresh, expire, check_at, Decision,
  capacity, rate_limit, allowed,
}
use honey_mind.Ratelimit.History.{
  Log, times, bucket, admitted, Call, recent, run, step, Monotonic, instant, is_fresh, last_instant,
  check, evict,
}
use honey_mind.Ratelimit.History.Tracks.{
  Tracks, Tracks-later, Tracks-expire, times-append_self, Tracks-snoc, times-append_ne,
  expire-eq-filter,
}

record Inv (last : ℕ) (r : RateLimiter) (log : Log) : Type 0 where
  running : r.poisoned ≡ false
  distinct : Distinct r.inner
  tracks : (ip : IpAddr) → Tracks last (bucket ip r.inner) (times ip log)

new-Inv : (limit max_ips : ℕ) → Inv 0 (new limit max_ips) []
unfolding new get times
new-Inv limit max_ips = record {
  running = refl;
  distinct = tt;
  tracks = λ ip. record { ascending = tt; past = tt; same = λ now h. refl };
}

Inv-later :
    {last now : ℕ} {r : RateLimiter} {log : Log} → last ≤ now → Inv last r log → Inv now r log
Inv-later h v = record {
  running = v.running;
  distinct = v.distinct;
  tracks = λ ip. Tracks-later h (v.tracks ip);
}

retained-Inv :
    (r : RateLimiter) (now : ℕ) {last : ℕ} {log : Log}
    → last ≤ now
    → Inv last r log
    → Inv now (record r { inner = retain_fresh now r.inner }) log
retained-Inv r now h v = record {
  running = v.running;
  distinct = retain_fresh-Distinct now r.inner v.distinct;
  tracks =
      λ ip. rw (get-retain_fresh ip now r.inner v.distinct) (Tracks-expire now h (v.tracks ip));
}

evict_at-Inv :
    (r : RateLimiter) (now : ℕ) {last : ℕ} {log : Log}
    → last ≤ now
    → Inv last r log
    → Inv now (evict_at r now) log
unfolding evict_at
evict_at-Inv r now {log} h v =
    let evicted : evict_at r now ≡ record r { inner = retain_fresh now r.inner } = ground arith in
    subst (λ s. Inv now s log) (sym evicted) (retained-Inv r now h v)

-- Storing a window for `ip`, with the admissions `ts` added to the log for `ip` alone.
insert-Inv :
    (r : RateLimiter) (ip : IpAddr) (w : List ℕ) (now : ℕ) {log log' : Log}
    → Inv now r log
    → Tracks now w (times ip log')
    → ((j : IpAddr) → ip_eq ip j ≡ false → times j log' ≡ times j log)
    → Inv now (record r { inner = insert ip w r.inner }) log'
insert-Inv r ip w now {log} {log'} v t other = record {
  running = v.running;
  distinct = insert-Distinct ip w r.inner v.distinct;
  tracks = λ j. rw (get-insert ip j w r.inner) (elim (Bool-cases (ip_eq ip j)) [
    | inl e ↦ rw (e, ← (ip_eq_iff ip j).0 e) t
    | inr e ↦ rw (e, other j e) (v.tracks j)
  ]);
}

admit-Inv :
    (r : RateLimiter) (addr : IpAddr) (now : ℕ) {last : ℕ} {log : Log}
    → last ≤ now
    → Inv last r log
    → let ip = canonical_ip addr in
      let (w, d) = admit r.limit now (expire now (bucket ip r.inner)) in
      Inv now (record r { inner = insert ip w r.inner }) (log ++ admitted addr now d)
unfolding admit
admit-Inv r addr now {last} {log} h v =
    let ip = canonical_ip addr in
    let left = expire now (bucket ip r.inner) in
    let kept = Tracks-expire now h (v.tracks ip) in
    elim (Bool-cases (leb r.limit (length left))) [
      | inl e ↦ rw (e, append-nil) (insert-Inv r ip left now (Inv-later h v) kept (λ j _. refl))
      | inr e ↦ rw e (
          insert-Inv r ip (left ++ now ∷ []) now (Inv-later h v)
            (rw (times-append_self ip now log) (Tracks-snoc now kept))
            (λ j other. times-append_ne ip j now log other))
    ]

-- The untracked address meets a full table.
abbrev pub is_crowded : RateLimiter → IpAddr → Bool
is_crowded r ip = not (is_some (get ip r.inner)) && leb r.max_ips (length r.inner)

-- What a call on a live limiter does, apart from the window itself.
abbrev outcome : RateLimiter → IpAddr → ℕ → RateLimiter × Decision
outcome r addr now =
    let ip = canonical_ip addr in
    let (w, d) = admit r.limit now (expire now (bucket ip r.inner)) in
    if is_crowded r ip then (r, capacity) else (record r { inner = insert ip w r.inner }, d)

check_at-outcome :
    (r : RateLimiter) (addr : IpAddr) (now : ℕ)
    → 0 < r.limit
    → r.poisoned ≡ false
    → check_at r addr now ≡ outcome r addr now
unfolding check_at
check_at-outcome r addr now positive running = ground arith

check_at-Inv :
    (r : RateLimiter) (addr : IpAddr) (now : ℕ) {last : ℕ} {log : Log}
    → 0 < r.limit
    → last ≤ now
    → Inv last r log
    → let (r', d) = check_at r addr now in Inv now r' (log ++ admitted addr now d)
check_at-Inv r addr now {log} positive h v =
    rw (check_at-outcome r addr now positive v.running)
      (elim (Bool-cases (is_crowded r (canonical_ip addr))) [
        | inl e ↦ rw (e, append-nil) (Inv-later h v)
        | inr e ↦ rw e (admit-Inv r addr now h v)
      ])

step-Inv :
    (c : Call) (r : RateLimiter) (log : Log) {last : ℕ}
    → 0 < r.limit
    → last ≤ instant c
    → Inv last r log
    → let (r', log') = step (r, log) c in Inv (instant c) r' log'
unfolding step
step-Inv (check ip now) r log positive h v = check_at-Inv r ip now positive h v
step-Inv (evict now) r log positive h v = evict_at-Inv r now h v

step-limit : (c : Call) (r : RateLimiter) (log : Log) → (step (r, log) c).0.limit ≡ r.limit
unfolding step check_at evict_at
step-limit (check ip now) r log = ground arith
step-limit (evict now) r log = ground arith

run-Inv :
    (cs : List Call) (r : RateLimiter) (log : Log) (last : ℕ)
    → 0 < r.limit
    → Monotonic last cs
    → Inv last r log
    → let (r', log') = run (r, log) cs in Inv (last_instant last cs) r' log' × (r'.limit ≡ r.limit)
unfolding run
run-Inv [] r log last positive m v = (v, refl)
run-Inv (c ∷ cs) r log last positive m v =
    let (r', log') = step (r, log) c in
    let same : r'.limit ≡ r.limit = step-limit c r log in
    let rest = run-Inv cs r' log' (instant c) (omega arith) m.1 (step-Inv c r log positive m.0 v) in
    (rest.0, rest.1 ∙ same)

-- The decision by the log: `r` has been driven by `log`.
abbrev pub verdict : RateLimiter → Log → IpAddr → ℕ → Decision
verdict r log addr now =
    let ip = canonical_ip addr in
    if is_crowded r ip
    then capacity
    else if leb r.limit (length (recent ip now log))
    then rate_limit
    else allowed

check_at-verdict :
    (r : RateLimiter) (addr : IpAddr) (now : ℕ) {last : ℕ} {log : Log}
    → 0 < r.limit
    → last ≤ now
    → Inv last r log
    → (check_at r addr now).1 ≡ verdict r log addr now
unfolding recent admit
check_at-verdict r addr now {log} positive h v =
    let ip = canonical_ip addr in
    let k = v.tracks ip in
    let left : expire now (bucket ip r.inner) ≡ filter (is_fresh now) (times ip log) =
      expire-eq-filter now (bucket ip r.inner) k.ascending ∙ k.same now h in
    rw (check_at-outcome r addr now positive v.running, left) (ground arith)

-- With a positive limit, at the end of any calls with a monotonic clock on a fresh limiter, a check
-- at a later instant `now` is decided as follows. An address that has no bucket while the table is
-- full meets `capacity`. Any other is refused by `rate_limit` if at least `limit` admissions of its
-- canonical address are less than 60 seconds old, and is allowed if there are fewer.
pub check_at-exact :
    (limit max_ips : ℕ) (cs : List Call) (addr : IpAddr) (now : ℕ)
    → 0 < limit
    → Monotonic 0 cs
    → last_instant 0 cs ≤ now
    → let (r, log) = run (new limit max_ips, []) cs in
      (check_at r addr now).1 ≡ verdict r log addr now
unfolding new
check_at-exact limit max_ips cs addr now positive m h =
    let (r, log) = run (new limit max_ips, []) cs in
    let (v, same) = run-Inv cs (new limit max_ips) [] 0 positive m (new-Inv limit max_ips) in
    check_at-verdict r addr now (omega arith) h v
