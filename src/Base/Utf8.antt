-- ===== src/Base/Utf8.antt =====
-- `String::from_utf8_lossy`: each maximal invalid part becomes U+FFFD. Texts stay in UTF-8.
use Prim.Native.Nat.{ℕ, zero, suc}
use mathlib.Core.Bool.{true}
use mathlib.Core.List.{[], ◌∷◌, ◌++◌}
use mathlib.Core.Option.{Option, none, some}
use mathlib.Core.Path.{◌≡◌, refl}
use native.Mathlib.Omega.{arith}
use honey_mind.Base.Lists.{Bytes, all, bytes_eq, bytes_eq_iff}
use honey_mind.Base.Tests.{ltb, ◌==◌, within, if◌then◌else◌}

-- The bytes of a character that is not complete, the range of its next byte, and how many more
-- continuation bytes follow that one.
pub data Pending : Type 0 where
  idle : Pending
  part : Bytes → ℕ → ℕ → ℕ → Pending

abbrev pub replacement : Bytes
replacement = 0xef ∷ 0xbf ∷ 0xbd ∷ []

abbrev pub started : ℕ → ℕ → ℕ → ℕ → Bytes × Pending
started b lo hi more = ([], part (b ∷ []) lo hi more)

start : ℕ → Bytes × Pending
start b =
    if ltb b 0x80
    then (b ∷ [], idle)
    else if within 0xc2 0xdf b
    then started b 0x80 0xbf 0
    else if b == 0xe0
    then started b 0xa0 0xbf 1
    else if b == 0xed
    then started b 0x80 0x9f 1
    else if within 0xe1 0xef b
    then started b 0x80 0xbf 1
    else if b == 0xf0
    then started b 0x90 0xbf 2
    else if within 0xf1 0xf3 b
    then started b 0x80 0xbf 2
    else if b == 0xf4
    then started b 0x80 0x8f 2
    else (replacement, idle)

complete : Bytes → ℕ → Bytes × Pending
complete bytes zero = (bytes, idle)
complete bytes (suc more) = ([], part bytes 0x80 0xbf more)

restart : Bytes × Pending → Bytes × Pending
restart (out, p) = (replacement ++ out, p)

feed : Pending → ℕ → Bytes × Pending
unfolding start complete restart
feed idle b = start b
feed (part bytes lo hi more) b =
    if within lo hi b then complete (bytes ++ b ∷ []) more else restart (start b)

finish : Pending → Bytes
finish idle = []
finish (part bytes lo hi more) = replacement

decode_from : Pending → Bytes → Bytes
unfolding feed finish
decode_from p [] = finish p
decode_from p (b ∷ bytes) = let (out, q) = feed p b in out ++ decode_from q bytes

unfoldable pub from_utf8_lossy : Bytes → Bytes
unfolding decode_from
from_utf8_lossy = decode_from idle

-- `str::from_utf8`: a text is valid if the lossy decoding, which yields a valid one, leaves it as it is.
unfoldable pub from_utf8 : Bytes → Option Bytes
from_utf8 bytes = if bytes_eq (from_utf8_lossy bytes) bytes then some bytes else none

-- ASCII is kept as it is.
pub from_utf8_lossy_ascii :
    (bytes : Bytes) → all (λ b. ltb b 0x80) bytes ≡ true → from_utf8_lossy bytes ≡ bytes
unfolding from_utf8_lossy
from_utf8_lossy_ascii [] h = refl
from_utf8_lossy_ascii (b ∷ bytes) h = ground (arith, from_utf8_lossy_ascii bytes)

pub from_utf8_ascii :
    (bytes : Bytes) → all (λ b. ltb b 0x80) bytes ≡ true → from_utf8 bytes ≡ some bytes
unfolding from_utf8
from_utf8_ascii bytes h =
    let same = from_utf8_lossy_ascii bytes h in
    ground (arith, same, bytes_eq_iff (from_utf8_lossy bytes) bytes)
