-- ===== src/Protocols/Http/Response.antt =====
-- src/protocols/http.rs: `response`.
use honey_mind.Base.{
  ◌==◌, if◌then◌else◌, unwrap_or, length, Bytes, codes, ℕ, Bool, not, ◌||◌, Option, [], ◌++◌,
}
use honey_mind.Base.Decimal.{decimal}

abbrev pub is_one_of : ℕ → ℕ → ℕ → ℕ → Bool
is_one_of s a b c = s == a || s == b || s == c

-- The reason phrases of the crate `hyper` are a parameter:
-- `StatusCode::from_u16(status).ok().and_then(|code| code.canonical_reason())`.
module _ (canonical_reason : ℕ → Option Bytes) where
  abbrev pub reason_of : ℕ → Bytes
  reason_of status = unwrap_or (canonical_reason status) (codes "Unknown")

  unfoldable pub body_of : ℕ → Bytes
  body_of status =
      if is_one_of status 204 205 304
      then []
      else decimal status ++ codes " " ++ reason_of status ++ codes "\n"

  abbrev pub content_length_line : ℕ → Bytes
  content_length_line status =
      if status == 204 || status == 304
      then []
      else codes "Content-Length: " ++ decimal (length (body_of status)) ++ codes "\r\n"

  abbrev pub authenticate_line : ℕ → Bytes
  authenticate_line status =
      if status == 401 then codes "WWW-Authenticate: Basic realm=\"Administration\"\r\n" else []

  -- The headers, their end included.
  unfoldable pub headers_of : ℕ → Bytes → Bytes
  headers_of status server =
      codes "HTTP/1.1 "
      ++ decimal status
      ++ codes " "
      ++ reason_of status
      ++ codes "\r\nServer: "
      ++ server
      ++ codes "\r\nContent-Type: text/plain; charset=utf-8\r\nConnection: close\r\n"
      ++ content_length_line status
      ++ authenticate_line status
      ++ codes "\r\n"

  unfoldable pub response : ℕ → Bool → Bytes → Bytes
  unfolding headers_of body_of
  response status head server =
      let headers = headers_of status server in
      if not head then headers ++ body_of status else headers
