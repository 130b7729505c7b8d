-- ===== src/Base/Decimal.antt =====
-- A number printed in decimal, as `{}` does.
pub mod Digits
use Prim.Native.Nat.{ℕ, zero, suc, ◌+◌, ◌/◌, ◌%◌}
use mathlib.Core.List.{[], ◌∷◌, ◌++◌}
use honey_mind.Base.Lists.{Bytes}
use honey_mind.Base.Tests.{ltb, if◌then◌else◌}

-- at most `n` digits, the last one first in the recursion
digits : ℕ → ℕ → Bytes
digits zero n = []
digits (suc f) n =
    let rest = digits f (n / 10) in if ltb n 10 then (48 + n) ∷ [] else rest ++ ((48 + n % 10) ∷ [])

-- A number has no more digits than its value, plus one.
unfoldable pub decimal : ℕ → Bytes
unfolding digits
decimal n = digits (suc n) n
