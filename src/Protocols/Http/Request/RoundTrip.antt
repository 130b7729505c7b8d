-- ===== src/Protocols/Http/Request/RoundTrip.antt =====
-- Every request that a client writes by the rules is taken, with what it says.
use honey_mind.Base.Utf8.{from_utf8_lossy_ascii}
use honey_mind.Protocols.Http.Request.OneLine.{line_ascii, line_lacks_cr, request_line-print}
use honey_mind.Session.State.{http_request}
use honey_mind.Protocols.Http.Request.Sound.{IsRequestLine}
use honey_mind.Protocols.Http.Request.OneHeader.{
  HostLeft, after, token_byte_lem, named-Kept, is_empty-print_header, header_line-print,
}
use honey_mind.Protocols.Http.Request.{
  header_loop, Fields, is_bad_value_byte, header_line, token_byte, head_end, parse_request,
  parse_lines, check_fields, is_http_1_1, no_fields,
}
use honey_mind.Base.{
  length, All, ok, ℕ, ◌+◌, ◌≤◌, ◌≡◌, true, List, [], ◌∷◌, is_empty, any, Bytes, ◌<◌, refl, ap, ◌∙◌,
  false, arith, ltb, is_some, option_map, all, codes, ends_with, not, ◌||◌, inl, Bool, ◌&&◌, ◌++◌,
}
use honey_mind.Base.Text.{split_lines, take_chars}
use honey_mind.Base.Text.Pieces.{
  split_lines-append, lacks, all_of_all, all-append, ends_with-append,
}
use honey_mind.Protocols.Http.Request.Printed.{
  print_headers, print_header, HostOnce, Header, IsHeader, print_request, value_of, print_line,
}

clean-lacks : (v : Bytes) → any is_bad_value_byte v ≡ false → lacks b'\r' v ≡ true
clean-lacks [] h = refl
clean-lacks (x ∷ v) h = ground (arith, clean-lacks v)

pub lacks_cr : (h : Header) → IsHeader h → lacks b'\r' (print_header h) ≡ true
lacks_cr h k =
    let name = all_of_all token_byte _ h.0 (λ b t. (token_byte_lem b t).0) k.name_token in
    rw (all-append, name) (clean-lacks h.1 k.value_clean)

-- A turn of the loop.
loop_turn :
    (line : Bytes) (lines : List Bytes) (count : ℕ) (f g : Fields)
    → is_empty line ≡ false
    → count < 64
    → header_line f line ≡ ok g
    → header_loop count (line ∷ lines) f ≡ header_loop (count + 1) lines g
unfolding header_loop
loop_turn line lines count f g a b c = rw (a, c) (ground arith)

header_loop-print :
    (headers : List Header) (count : ℕ) (f : Fields)
    → All IsHeader headers
    → HostOnce headers
    → HostLeft f headers
    → count + length headers ≤ 64
    → header_loop count (split_lines (print_headers headers)) f ≡ ok (after f headers)
unfolding print_headers
header_loop-print [] count f a o l h = unfold split_lines header_loop in ground arith
header_loop-print (x ∷ headers) count f a o l h =
    let (g, taken, kept, left) = named-Kept f x headers a.0 o.0 l in
    rw (split_lines-append (print_header x) (print_headers headers) (lacks_cr x a.0)) (
      loop_turn _ _ count f g (is_empty-print_header x a.0) (omega arith)
        (header_line-print f x a.0 ∙ taken)
      ∙ header_loop-print headers (count + 1) g a.1 o.1 left (omega arith)
      ∙ ap ok kept)

headers_ascii :
    (headers : List Header)
    → All IsHeader headers
    → all (λ b. ltb b 0x80) (print_headers headers) ≡ true
unfolding print_headers
headers_ascii [] a = refl
headers_ascii (h ∷ headers) a =
    let name = all_of_all token_byte _ h.0 (λ b t. (token_byte_lem b t).3) a.0.name_token in
    let one : all (λ b. ltb b 0x80) (print_header h) ≡ true =
      all-append _ h.0 _ ∙ ground (arith, name, a.0.value_ascii) in
    all-append _ (print_header h) _ ∙ ground (arith, one, headers_ascii headers a.1)

headers_end :
    (headers : List Header) → ends_with head_end (b'\r' ∷ b'\n' ∷ print_headers headers) ≡ true
unfolding print_headers
headers_end [] = refl
headers_end (h ∷ headers) =
    ends_with-append head_end (b'\r' ∷ b'\n' ∷ print_header h) _ (headers_end headers)

host_tests : (a b : Bool) → (not a || b) ≡ true → not (a && not b) ≡ true
host_tests a b h = ground arith

-- A request that is written by the rules is accepted, and what is recorded of it is what it says: the
-- method, the path and the version, the value of its host header, and the first 1024 characters of its
-- first user agent, whatever the case of those names. By the rules: a method of 1 to 32
-- token bytes, version 1.0 or 1.1, a path of visible ASCII that starts with a slash or is the asterisk
-- of OPTIONS, at most 64 headers, each a token with a trimmed value in ASCII without control
-- bytes but the tab, none of them about the framing of a body, and at most one host, of 1 to 2048
-- bytes, which version 1.1 must have.
pub parse_request-print_request :
    (m p v : Bytes) (headers : List Header)
    → IsRequestLine m p v
    → All IsHeader headers
    → HostOnce headers
    → length headers ≤ 64
    → (not (is_http_1_1 v) || is_some (value_of (codes "host") headers)) ≡ true
    → parse_request (print_request m p v headers)
      ≡ ok (
          http_request m p v
            (value_of (codes "host") headers)
            (option_map (take_chars 1024) (value_of (codes "user-agent") headers)))
unfolding parse_request parse_lines print_request check_fields
parse_request-print_request m p v headers l a o n h =
    let rest : Bytes = b'\r' ∷ b'\n' ∷ print_headers headers in
    let ended = ends_with-append head_end (print_line m p v) rest (headers_end headers) in
    let ascii : all (λ b. ltb b 0x80) (print_line m p v ++ rest) ≡ true =
      all-append _ (print_line m p v) rest
      ∙ ground (arith, line_ascii m p v l, headers_ascii headers a) in
    rw
      (
        ended,
        from_utf8_lossy_ascii (print_line m p v ++ rest) ascii,
        split_lines-append (print_line m p v) (print_headers headers) (line_lacks_cr m p v l),
        request_line-print m p v l,
        header_loop-print headers 0 no_fields a o (inl refl) (omega arith),
        host_tests (is_http_1_1 v) (is_some (value_of (codes "host") headers)) h,
      )
      refl
