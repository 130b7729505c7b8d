-- ===== src/Config/Path.antt =====
-- The operations of `std::path` that src/config.rs uses, for paths of Unix.
mod Tests
use honey_mind.Base.{
  ◌==◌, if◌then◌else◌, starts_with, Bytes, Bool, not, Option, none, some, [], ◌∷◌, ◌++◌, is_empty,
  bytes_eq, ◌&&◌, ◌||◌,
}
use mathlib.Core.List.{reverse}

abbrev slash : Bytes
slash = b'/' ∷ []

abbrev pub is_relative : Bytes → Bool
is_relative path = not (starts_with slash path)

-- A path from its end, without the separators and the components `.` that it ends in; the root and a
-- single `.` stay.
trim_back : Bytes → Bytes
trim_back [] = []
trim_back (b ∷ []) = b ∷ []
trim_back (b ∷ c ∷ rest) =
    let shorter = trim_back (c ∷ rest) in
    if b == b'/' || (b == b'.' && c == b'/') then shorter else b ∷ c ∷ rest

-- Without the bytes of the last component.
drop_name : Bytes → Bytes
drop_name [] = []
drop_name (b ∷ rest) = let shorter = drop_name rest in if b == b'/' then b ∷ rest else shorter

parent_back : Bytes → Option Bytes
unfolding trim_back drop_name
parent_back [] = none
parent_back (b ∷ rest) =
    if bytes_eq (b ∷ rest) slash then none else some (reverse (trim_back (drop_name (b ∷ rest))))

pub parent : Bytes → Option Bytes
parent path = parent_back (trim_back (reverse path))

ends_in_slash : Bytes → Bool
ends_in_slash path = starts_with slash (reverse path)

-- `join` of a relative path
pub join : Bytes → Bytes → Bytes
unfolding ends_in_slash
join path rest = if is_empty path || ends_in_slash path then path ++ rest else path ++ b'/' ∷ rest
