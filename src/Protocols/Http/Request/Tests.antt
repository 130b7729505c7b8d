-- ===== src/Protocols/Http/Request/Tests.antt =====
-- A request as a scanner sends it.
use honey_mind.Base.{Bytes, codes, some, ok, refl, ◌≡◌, inl, inr, [], ◌∷◌, arith}
use honey_mind.Base.Text.{
  split_at_byte, split_lines, split_once, trim, trim_start, take_chars, lowercase,
}
use honey_mind.Base.Utf8.{from_utf8_lossy}
use honey_mind.Session.State.{SessionEvent, http_request}
use honey_mind.Protocols.Http.Request.{
  parse_request, parse_lines, request_line, request_parts, check_line, header_loop, header_line,
  split_field, named_field, host_field, user_agent_field, check_fields, token_byte,
}
use honey_mind.Protocols.Http.Request.Printed.{Header, IsHeader, print_request}
use honey_mind.Protocols.Http.Request.Framing.{
  IsUnambiguous, headers_in, parse_request-IsUnambiguous,
}
use honey_mind.Protocols.Http.Request.RoundTrip.{parse_request-print_request}
use honey_mind.Protocols.Http.Request.Sound.{IsAccepted, parse_request-IsAccepted, IsRequestLine}

abbrev request : Bytes
request = codes "GET /a?q HTTP/1.1\r\nHost: x\r\nUser-Agent: y\r\n\r\n"

abbrev event : SessionEvent
event =
    http_request (codes "GET") (codes "/a?q") (codes "HTTP/1.1") (some (codes "x"))
      (some (codes "y"))

parse_request_get : parse_request request ≡ ok event
unfolding parse_request parse_lines request_line request_parts check_line header_loop header_line
    split_field named_field host_field user_agent_field check_fields split_at_byte split_lines
    split_once trim trim_start from_utf8_lossy token_byte take_chars lowercase
parse_request_get = refl

parse_request-IsAccepted_example : IsAccepted event
parse_request-IsAccepted_example = parse_request-IsAccepted request event parse_request_get

parse_request-IsUnambiguous_example :
    IsUnambiguous (headers_in (split_lines (from_utf8_lossy request)))
parse_request-IsUnambiguous_example = parse_request-IsUnambiguous request event parse_request_get

abbrev pub host_header : Header
host_header = (codes "hOST", codes "x.example")

abbrev pub agent_header : Header
agent_header = (codes "User-Agent", codes "y z")

pub host_header-IsHeader : IsHeader host_header
unfolding trim trim_start lowercase token_byte
host_header-IsHeader = record {
  name_some = refl;
  name_token = refl;
  value_ascii = refl;
  value_clean = refl;
  value_trimmed = refl;
  no_length = refl;
  no_encoding = refl;
}

pub agent_header-IsHeader : IsHeader agent_header
unfolding trim trim_start lowercase token_byte
agent_header-IsHeader = record {
  name_some = refl;
  name_token = refl;
  value_ascii = refl;
  value_clean = refl;
  value_trimmed = refl;
  no_length = refl;
  no_encoding = refl;
}

pub get_line : IsRequestLine (codes "GET") (codes "/a?q") (codes "HTTP/1.1")
unfolding token_byte
get_line = record {
  method_some = omega arith;
  method_short = omega arith;
  method_token = refl;
  version_known = inr refl;
  path_some = omega arith;
  path_visible = refl;
  path_origin = inl refl;
}

parse_request-print_request_example :
    parse_request (
      print_request
        (codes "GET")
        (codes "/a?q")
        (codes "HTTP/1.1")
        (host_header ∷ agent_header ∷ []))
    ≡ ok (
        http_request
          (codes "GET")
          (codes "/a?q")
          (codes "HTTP/1.1")
          (some (codes "x.example"))
          (some (codes "y z")))
unfolding take_chars lowercase
parse_request-print_request_example =
    parse_request-print_request (codes "GET") (codes "/a?q") (codes "HTTP/1.1")
      (host_header ∷ agent_header ∷ []) get_line (host_header-IsHeader, (agent_header-IsHeader, tt))
      (inr (omega arith, omega arith, refl), (inl refl, tt)) (omega arith) refl
