-- ===== src/Base/Text.antt =====
-- The operations of `str` that the components use, on texts in UTF-8.
pub mod Pieces
use Prim.Native.Nat.{ℕ, zero, suc, ◌+◌, ◌-◌, ◌*◌}
use mathlib.Core.Bool.{Bool, true, false, ◌&&◌, ◌||◌}
use mathlib.Core.List.{List, [], ◌∷◌, map, reverse}
use mathlib.Core.Option.{Option, none, some}
use honey_mind.Base.Lists.{Bytes, bytes_eq, starts_with}
use honey_mind.Base.Tests.{◌==◌, within, if◌then◌else◌}

abbrev pub is_digit : ℕ → Bool
is_digit = within b'0' b'9'

-- `is_ascii_alphanumeric`
abbrev pub is_alphanumeric : ℕ → Bool
is_alphanumeric b = within b'a' b'z' b || within b'A' b'Z' b || is_digit b

abbrev pub to_lower : ℕ → ℕ
to_lower b = if within b'A' b'Z' b then b + 32 else b

-- `to_ascii_lowercase`
unfoldable pub lowercase : Bytes → Bytes
lowercase = map to_lower

-- `eq_ignore_ascii_case`
abbrev pub eq_ignore_case : Bytes → Bytes → Bool
eq_ignore_case a b = bytes_eq (map to_lower a) (map to_lower b)

-- A byte in front of the first piece.
abbrev pub onto_first : ℕ → List Bytes → List Bytes
onto_first b [] = (b ∷ []) ∷ []
onto_first b (l ∷ ls) = (b ∷ l) ∷ ls

-- `split` at a byte, and at CR LF
unfoldable pub split_at_byte : ℕ → Bytes → List Bytes
split_at_byte s [] = [] ∷ []
split_at_byte s (b ∷ bytes) =
    let rest = split_at_byte s bytes in if b == s then [] ∷ rest else onto_first b rest

unfoldable pub split_lines : Bytes → List Bytes
split_lines [] = [] ∷ []
split_lines (b ∷ []) = (b ∷ []) ∷ []
split_lines (b ∷ c ∷ bytes) = elim (b == b'\r' && c == b'\n') [
  | true ↦ [] ∷ split_lines bytes
  | false ↦ onto_first b (split_lines (c ∷ bytes))
]

abbrev pub onto_pair : ℕ → Option (Bytes × Bytes) → Option (Bytes × Bytes)
onto_pair b none = none
onto_pair b (some (x, y)) = some (b ∷ x, y)

-- `split_once` at a byte
unfoldable pub split_once : ℕ → Bytes → Option (Bytes × Bytes)
split_once s [] = none
split_once s (b ∷ bytes) =
    let rest = split_once s bytes in if b == s then some ([], bytes) else onto_pair b rest

unfoldable pub trim_start : (ℕ → Bool) → Bytes → Bytes
trim_start p [] = []
trim_start p (b ∷ bytes) = if p b then trim_start p bytes else b ∷ bytes

-- `trim_matches`
unfoldable pub trim : (ℕ → Bool) → Bytes → Bytes
unfolding trim_start
trim p bytes = reverse (trim_start p (reverse (trim_start p bytes)))

abbrev pub is_continuation : ℕ → Bool
is_continuation = within 0x80 0xbf

-- The first `n` characters: a character begins at each byte that continues none.
unfoldable pub take_chars : ℕ → Bytes → Bytes
take_chars n [] = []
take_chars n (b ∷ bytes) =
    if is_continuation b
    then b ∷ take_chars n bytes
    else (elim n [ zero ↦ [] | suc m ↦ b ∷ take_chars m bytes ])

-- The number that a text of digits spells.
unfoldable pub number_of : ℕ → Bytes → ℕ
number_of n [] = n
number_of n (b ∷ bytes) = number_of (n * 10 + (b - 48)) bytes

-- `lines().next()`; a text without a line has an empty one here.
unfoldable pub first_line : Bytes → Bytes
first_line [] = []
first_line (b ∷ bytes) =
    let rest = first_line bytes in
    if b == b'\n' then [] else if b == b'\r' && starts_with (b'\n' ∷ []) bytes then [] else b ∷ rest

-- The characters from U+2000 to U+205F, after their first byte.
abbrev pub is_space_e2 : Bytes → Bool
is_space_e2 (b ∷ c ∷ bytes) =
    b == 0x80 && (within 0x80 0x8a c || c == 0xa8 || c == 0xa9 || c == 0xaf)
    || b == 0x81 && c == 0x9f
is_space_e2 _ = false

-- How long the white space is that a text begins with, if any: the characters of `White_Space`.
unfoldable pub white_space : Bytes → ℕ
white_space [] = 0
white_space (b ∷ bytes) =
    if within 9 13 b || b == 32
    then 1
    else if b == 0xc2
    then (if starts_with (0x85 ∷ []) bytes || starts_with (0xa0 ∷ []) bytes then 2 else 0)
    else if b == 0xe1
    then (if starts_with (0x9a ∷ 0x80 ∷ []) bytes then 3 else 0)
    else if b == 0xe2
    then (if is_space_e2 bytes then 3 else 0)
    else if b == 0xe3
    then (if starts_with (0x80 ∷ 0x80 ∷ []) bytes then 3 else 0)
    else 0

-- `split(char::is_whitespace)`; `skip` is what is left of a white space.
unfoldable pub split_spaces : ℕ → Bytes → List Bytes
split_spaces skip [] = [] ∷ []
split_spaces (suc skip) (b ∷ bytes) = split_spaces skip bytes
split_spaces zero (b ∷ bytes) = elim (white_space (b ∷ bytes)) [
  | zero ↦ onto_first b (split_spaces zero bytes)
  | suc skip ↦ [] ∷ split_spaces skip bytes
]

abbrev pub nonempty : List Bytes → List Bytes
nonempty [] = []
nonempty ([] ∷ ws) = nonempty ws
nonempty ((b ∷ w) ∷ ws) = (b ∷ w) ∷ nonempty ws

unfoldable pub split_whitespace : Bytes → List Bytes
split_whitespace bytes = nonempty (split_spaces 0 bytes)
