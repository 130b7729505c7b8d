-- ===== src/Ratelimit/Tests.antt =====
-- The sliding window at a concrete history.
use honey_mind.Base.{◌≡◌, List, [], ◌∷◌, arith}
use honey_mind.Ratelimit.{check_at, new}
use honey_mind.Ratelimit.History.{Call, check, evict, run}
use honey_mind.Ratelimit.History.Exact
use honey_mind.Config.Address.{IpAddr, v4, v6, to_ipv6_mapped}

abbrev visitor : IpAddr
visitor = v4 0xc0a80001

-- The same visitor, in the IPv6 form of its address, and a second one.
abbrev calls : List Call
calls = check visitor 5 ∷ check (v6 (to_ipv6_mapped 0xc0a80001)) 7 ∷ evict 9 ∷ []

check_at-exact_example :
    (check_at (run (new 2 1, []) calls).0 visitor 1000).1
    ≡ Exact.verdict (run (new 2 1, []) calls).0 (run (new 2 1, []) calls).1 visitor 1000
check_at-exact_example =
    Exact.check_at-exact 2 1 calls visitor 1000 (omega arith)
      (omega arith, (omega arith, (omega arith, tt))) (omega arith)
