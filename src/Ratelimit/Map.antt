-- ===== src/Ratelimit/Map.antt =====
-- Laws of the map of buckets and of `expire`.
use honey_mind.Base.{
  ℕ, suc, ◌≤◌, ◌≡◌, refl, true, none, some, List, [], ◌∷◌, arith, if◌then◌else◌, unwrap_or, is_some,
  length, All, inl, inr, Bool-cases,
}
use honey_mind.Config.Address.{IpAddr, ip_eq}
use honey_mind.Config.Address.Canonical.{ip_eq_iff}
use honey_mind.Ratelimit.{Buckets, get, insert, expire, retain_fresh}

pub get-insert :
    (k j : IpAddr) (w : List ℕ) (m : Buckets)
    → get j (insert k w m) ≡ (if ip_eq k j then some w else get j m)
unfolding get insert
get-insert k j w [] = refl
get-insert k j w ((i, v) ∷ m) =
    ground (arith, ip_eq_iff k j, ip_eq_iff i k, ip_eq_iff i j, get-insert k j w m)

pub length-insert :
    (k : IpAddr) (w : List ℕ) (m : Buckets)
    → length (insert k w m) ≡ (if is_some (get k m) then length m else suc (length m))
unfolding get insert
length-insert k w [] = refl
length-insert k w ((i, v) ∷ m) = ground (arith, length-insert k w m)

-- No address has two buckets.
abbrev pub Distinct : Buckets → Type 0
Distinct [] = Unit {0}
Distinct ((k, w) ∷ m) = (get k m ≡ none) × Distinct m

pub insert-Distinct : (k : IpAddr) (w : List ℕ) (m : Buckets) → Distinct m → Distinct (insert k w m)
unfolding get insert
insert-Distinct k w [] d = (refl, tt)
insert-Distinct k w ((i, v) ∷ m) d =
    ground (arith, ip_eq_iff k i, ip_eq_iff i k, get-insert k i w m, insert-Distinct k w m d.1)

pub insert-All {κ} :
    (P : IpAddr × List ℕ → Type κ) (k : IpAddr) (w : List ℕ) (m : Buckets)
    → P (k, w)
    → ((i : IpAddr) → ip_eq i k ≡ true → P (i, w))
    → All P m
    → All P (insert k w m)
unfolding insert
insert-All P k w [] p q a = (p, tt)
insert-All P k w ((i, v) ∷ m) p q a = elim (Bool-cases (ip_eq i k)) [
  | inl same ↦ rw same (q i same, a.1)
  | inr other ↦ rw other (a.0, insert-All P k w m p q a.1)
]

pub get-retain_fresh-none :
    (ip : IpAddr) (now : ℕ) (m : Buckets) → get ip m ≡ none → get ip (retain_fresh now m) ≡ none
unfolding get retain_fresh
get-retain_fresh-none ip now [] e = refl
get-retain_fresh-none ip now ((k, w) ∷ m) e = ground (arith, get-retain_fresh-none ip now m)

-- What is left of a bucket after an eviction, an absent bucket being an empty one.
pub get-retain_fresh :
    (ip : IpAddr) (now : ℕ) (m : Buckets)
    → Distinct m
    → unwrap_or (get ip (retain_fresh now m)) [] ≡ expire now (unwrap_or (get ip m) [])
unfolding get retain_fresh expire
get-retain_fresh ip now [] d = refl
get-retain_fresh ip now ((k, w) ∷ m) d =
    ground (arith, ip_eq_iff k ip, get-retain_fresh-none ip now m, get-retain_fresh ip now m d.1)

pub retain_fresh-Distinct : (now : ℕ) (m : Buckets) → Distinct m → Distinct (retain_fresh now m)
unfolding retain_fresh
retain_fresh-Distinct now [] d = tt
retain_fresh-Distinct now ((k, w) ∷ m) d =
    ground (arith, retain_fresh-Distinct now m d.1, get-retain_fresh-none k now m d.0)

pub length-retain_fresh-le : (now : ℕ) (m : Buckets) → length (retain_fresh now m) ≤ length m
unfolding retain_fresh
length-retain_fresh-le now [] = omega arith
length-retain_fresh-le now ((k, w) ∷ m) = ground (arith, length-retain_fresh-le now m)

pub length-expire-le : (now : ℕ) (w : List ℕ) → length (expire now w) ≤ length w
unfolding expire
length-expire-le now [] = omega arith
length-expire-le now (t ∷ w) = ground (arith, length-expire-le now w)
