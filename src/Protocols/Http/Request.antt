-- ===== src/Protocols/Http/Request.antt =====
-- src/protocols/http.rs: `parse_request`.
pub mod Loggable
pub mod Sound
pub mod Printed
pub mod OneHeader
pub mod OneLine
pub mod RoundTrip
pub mod Framing
pub mod Tests
use honey_mind.Base.Utf8.{from_utf8_lossy}
use honey_mind.Session.State.{SessionEvent, http_request, u64_max}
use honey_mind.Base.Text.{
  eq_ignore_case, is_alphanumeric, is_digit, lowercase, split_at_byte, split_once, take_chars,
  split_lines, trim, number_of,
}
use honey_mind.Base.{
  ◌>>=◌, ◌>>◌, ltb, leb, ◌==◌, within, if◌then◌else◌, is_some, length, is_empty, all, any, Bytes,
  codes, bytes_eq, starts_with, ends_with, ensure, Result, ok, err, ℕ, ◌+◌, String, Bool, true,
  false, not, ◌&&◌, ◌||◌, Option, none, some, List, [], ◌∷◌, ◌++◌,
}

abbrev pub max_header_count : ℕ
max_header_count = 64

abbrev pub crlf : Bytes
crlf = b'\r' ∷ b'\n' ∷ []

abbrev pub head_end : Bytes
head_end = crlf ++ crlf

abbrev pub is_member : ℕ → Bytes → Bool
is_member b = any (λ x. x == b)

unfoldable pub token_byte : ℕ → Bool
token_byte b = is_alphanumeric b || is_member b (codes "!#$%&'*+-.^_`|~")

-- What the loop over the headers keeps.
pub record Fields : Type 0 where
  pub host : Option Bytes
  pub user_agent : Option Bytes
  pub content_length : Option ℕ
  pub transfer_encoding : Bool

abbrev pub no_fields : Fields
no_fields = record {
  host = none;
  user_agent = none;
  content_length = none;
  transfer_encoding = false;
}

-- The arms of the `match` on a header's name.
unfoldable pub host_field : Fields → Bytes → Result Fields String
host_field f value =
    if is_some f.host || is_empty value || ltb 2048 (length value)
    then err "http_invalid_host"
    else ok (record f { host = some value })

unfoldable pub user_agent_field : Fields → Bytes → Result Fields String
user_agent_field f value =
    if is_some f.user_agent
    then ok f
    else ok (record f { user_agent = some (take_chars 1024 value) })

unfoldable pub content_length_field : Fields → Bytes → Result Fields String
content_length_field f value =
    if is_some f.content_length || is_empty value || not (all is_digit value)
    then err "http_invalid_content_length"
    else if ltb u64_max (number_of 0 value)
    then err "http_invalid_content_length"
    else ok (record f { content_length = some (number_of 0 value) })

unfoldable pub transfer_encoding_field : Fields → Bytes → Result Fields String
transfer_encoding_field f value =
    if f.transfer_encoding || not (eq_ignore_case value (codes "chunked"))
    then err "http_invalid_transfer_encoding"
    else ok (record f { transfer_encoding = true })

abbrev pub is_blank : ℕ → Bool
is_blank b = b == b' ' || b == b'\t'

abbrev pub is_bad_value_byte : ℕ → Bool
is_bad_value_byte b = ltb b 0x20 && not (b == b'\t') || b == 0x7f

unfoldable pub named_field : Fields → Bytes → Bytes → Result Fields String
unfolding host_field user_agent_field content_length_field transfer_encoding_field
named_field f name value =
    if bytes_eq name (codes "host")
    then host_field f value
    else if bytes_eq name (codes "user-agent")
    then user_agent_field f value
    else if bytes_eq name (codes "content-length")
    then content_length_field f value
    else if bytes_eq name (codes "transfer-encoding")
    then transfer_encoding_field f value
    else ok f

pub split_field : Fields → Option (Bytes × Bytes) → Result Fields String
split_field f none = err "http_invalid_header"
split_field f (some (name, value)) =
    if is_empty name || not (all token_byte name) || any is_bad_value_byte value
    then err "http_invalid_header"
    else named_field f (lowercase name) (trim is_blank value)

pub header_line : Fields → Bytes → Result Fields String
header_line f line = split_field f (split_once b':' line)

-- The loop; it ends at the first empty line.
pub header_loop : ℕ → List Bytes → Fields → Result Fields String
header_loop count [] f = ok f
header_loop count (line ∷ lines) f =
    if is_empty line
    then ok f
    else if leb max_header_count count
    then err "http_too_many_headers"
    else header_line f line >>= λ f'. header_loop (count + 1) lines f'

-- The parts of the request line: method, path, version, and whether there are more.
pub request_parts : List Bytes → Result (Bytes × Bytes × Bytes × Bool) String
request_parts [] = err "http_missing_method"
request_parts (method ∷ []) = err "http_missing_target"
request_parts (method ∷ path ∷ []) = err "http_missing_version"
request_parts (method ∷ path ∷ version ∷ more) = ok (method, path, version, not (is_empty more))

abbrev pub is_bad_line : Bool → Bytes → Bool
is_bad_line more method =
    more || is_empty method || ltb 32 (length method) || not (all token_byte method)

abbrev pub is_http_1_1 : Bytes → Bool
is_http_1_1 version = bytes_eq version (codes "HTTP/1.1")

abbrev pub is_known_version : Bytes → Bool
is_known_version version = bytes_eq version (codes "HTTP/1.0") || is_http_1_1 version

abbrev pub is_bad_target : Bytes → Bytes → Bool
is_bad_target method path =
    is_empty path
    || not (
        starts_with (codes "/") path
        || bytes_eq method (codes "OPTIONS") && bytes_eq path (codes "*"))
    || not (all (within 0x21 0x7e) path)

-- The checks on the request line.
pub check_line : Bytes × Bytes × Bytes × Bool → Result (Bytes × Bytes × Bytes) String
check_line (method, path, version, more) =
    ensure (not (is_bad_line more method)) "http_invalid_request_line"
    >> ensure (is_known_version version) "http_unsupported_version"
    >> ensure (not (is_bad_target method path)) "http_invalid_target"
    >> ok (method, path, version)

pub request_line : Bytes → Result (Bytes × Bytes × Bytes) String
request_line line = request_parts (split_at_byte b' ' line) >>= check_line

-- What follows the loop.
pub check_fields : Bytes → Fields → Result Fields String
check_fields version f =
    ensure (not (is_http_1_1 version && not (is_some f.host))) "http_missing_host"
    >> ensure (not (f.transfer_encoding && is_some f.content_length)) "http_ambiguous_framing"
    >> ok f

pub parse_lines : List Bytes → Result SessionEvent String
parse_lines [] = err "http_missing_request_line"
parse_lines (line ∷ lines) = do
  r ← request_line line
  f ← header_loop 0 lines no_fields
  g ← check_fields r.2 f
  ok (http_request r.0 r.1 r.2 g.host g.user_agent)

pub parse_request : Bytes → Result SessionEvent String
parse_request bytes =
    ensure (ends_with head_end bytes) "http_incomplete_headers"
    >> parse_lines (split_lines (from_utf8_lossy bytes))
