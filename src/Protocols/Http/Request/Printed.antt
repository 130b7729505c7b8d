-- ===== src/Protocols/Http/Request/Printed.antt =====
-- A request as a client writes it: its line, its headers and the empty line, and which of them
-- `parse_request` is to take.
use honey_mind.Base.Text.{lowercase, trim}
use honey_mind.Base.{
  Bytes, codes, bytes_eq, length, is_empty, all, any, ltb, if◌then◌else◌, Bool, ◌≡◌, true, false,
  Option, none, some, List, [], ◌∷◌, ◌++◌, ◌<◌, ◌≤◌, ◌⊎◌,
}
use honey_mind.Protocols.Http.Request.{crlf, token_byte, is_bad_value_byte, is_blank}

-- A header's name and its value.
abbrev pub Header : Type 0
Header = Bytes × Bytes

abbrev pub print_header : Header → Bytes
print_header (name, value) = name ++ b':' ∷ b' ' ∷ value

unfoldable pub print_headers : List Header → Bytes
print_headers [] = crlf
print_headers (h ∷ headers) = print_header h ++ b'\r' ∷ b'\n' ∷ print_headers headers

unfoldable pub print_line : Bytes → Bytes → Bytes → Bytes
print_line method path version = method ++ b' ' ∷ (path ++ b' ' ∷ version)

unfoldable pub print_request : Bytes → Bytes → Bytes → List Header → Bytes
unfolding print_line print_headers
print_request method path version headers =
    print_line method path version ++ b'\r' ∷ b'\n' ∷ print_headers headers

-- Whether a header has this name, in any case of its letters.
abbrev pub is_named : Bytes → Header → Bool
is_named key (name, value) = bytes_eq (lowercase name) key

-- The value of the first header with a name.
abbrev pub value_of : Bytes → List Header → Option Bytes
value_of key [] = none
value_of key (h ∷ headers) = if is_named key h then some h.1 else value_of key headers

-- A header of the general kind: a token, and a value in ASCII, without control bytes but the tab and
-- without blanks around it. It does not say how a body is framed.
pub record IsHeader (h : Header) : Type 0 where
  pub name_some : is_empty h.0 ≡ false
  pub name_token : all token_byte h.0 ≡ true
  pub value_ascii : all (λ b. ltb b 0x80) h.1 ≡ true
  pub value_clean : any is_bad_value_byte h.1 ≡ false
  pub value_trimmed : trim is_blank h.1 ≡ h.1
  pub no_length : is_named (codes "content-length") h ≡ false
  pub no_encoding : is_named (codes "transfer-encoding") h ≡ false

-- The one header that is checked further: a host has 1 to 2048 bytes, and no host follows it.
abbrev pub IsOnlyHost : Header → List Header → Type 0
IsOnlyHost h headers =
    (0 < length h.1) × (length h.1 ≤ 2048) × (value_of (codes "host") headers ≡ none)

abbrev pub HostOnce : List Header → Type 0
HostOnce [] = Unit {0}
HostOnce (h ∷ headers) =
    ((is_named (codes "host") h ≡ false) ⊎ IsOnlyHost h headers) × HostOnce headers
