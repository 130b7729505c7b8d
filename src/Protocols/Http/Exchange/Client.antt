-- ===== src/Protocols/Http/Exchange/Client.antt =====
-- A client that writes a request by the rules, and the decoy that answers it.
use honey_mind.Protocols.Http.Response.{response}
use honey_mind.Session.State.{push_event, server_closed}
use honey_mind.Protocols.Io.{done}
use honey_mind.Base.Text.{take_chars}
use honey_mind.Protocols.Http.Exchange.Served.{IsReplied, handle-IsReplied}
use honey_mind.Protocols.Http.Request.{is_http_1_1, parse_request}
use honey_mind.Protocols.Io.Script.{conn, NoneEmpty, concat, script}
use honey_mind.Protocols.Http.Request.RoundTrip.{lacks_cr, parse_request-print_request}
use honey_mind.Session.State.{SessionState, remaining_input, http_request, SessionEvent}
use honey_mind.Protocols.Http.Request.OneLine.{line_lacks_cr}
use honey_mind.Protocols.Http.Request.OneHeader.{is_empty-print_header}
use honey_mind.Config.Schema.{EndpointConfig}
use honey_mind.Protocols.Http.Exchange.{find_end, max_header_bytes, handle}
use honey_mind.Protocols.Io.Triples.{Limits, Good}
use honey_mind.Protocols.Http.Request.Sound.{IsRequestLine}
use honey_mind.Base.{
  Bytes, ◌≡◌, refl, ap, List, [], ◌∷◌, ◌++◌, map, is_some, option_map, length, is_empty, take, All,
  take-append_length, codes, Result, ℕ, ◌+◌, ◌≤◌, ◌<◌, String, sym, subst, ◌∙◌, true, false, not,
  ◌||◌, Option, some, arith, unwrap_or, bytes_eq,
}
use honey_mind.Protocols.Http.Exchange.Joined.{
  join, IsLine, join-append, size, find_end-join, length-join,
}
use honey_mind.Protocols.Http.Request.Printed.{
  Header, print_request, print_headers, print_header, print_line, IsHeader, HostOnce, value_of,
}

join-headers : (headers : List Header) → print_headers headers ≡ join (map print_header headers) []
unfolding print_headers join
join-headers [] = refl
join-headers (h ∷ headers) = ap (λ r. print_header h ++ b'\r' ∷ b'\n' ∷ r) (join-headers headers)

print_request-join :
    (m p v : Bytes) (headers : List Header)
    → print_request m p v headers ≡ join (print_line m p v ∷ map print_header headers) []
unfolding print_request join
print_request-join m p v headers =
    ap (λ r. print_line m p v ++ b'\r' ∷ b'\n' ∷ r) (join-headers headers)

print_line-is_empty : (m p v : Bytes) → IsRequestLine m p v → is_empty (print_line m p v) ≡ false
unfolding print_line
print_line-is_empty [] p v l = absurd (omega (arith, l.method_some))
print_line-is_empty (x ∷ m) p v l = refl

headers-IsLine :
    (headers : List Header) → All IsHeader headers → All IsLine (map print_header headers)
headers-IsLine [] a = tt
headers-IsLine (h ∷ headers) a =
    ((is_empty-print_header h a.0, lacks_cr h a.0), headers-IsLine headers a.1)

module _ (m p v : Bytes) (headers : List Header) (l : IsRequestLine m p v)
    (a : All IsHeader headers) where
  print_line-IsLine : IsLine (print_line m p v)
  print_line-IsLine = (print_line-is_empty m p v l, line_lacks_cr m p v l)

  -- The end of a printed request is where it ends.
  request_end :
      (rest : Bytes)
      → (i : ℕ) × (find_end (print_request m p v headers ++ rest) ≡ some i)
        × (i + 4 ≡ length (print_request m p v headers))
  request_end rest =
      let lines = map print_header headers in
      let joined = print_request-join m p v headers in
      let whole : print_request m p v headers ++ rest ≡ join (print_line m p v ∷ lines) rest =
        ap (λ r. r ++ rest) joined ∙ sym (join-append (print_line m p v ∷ lines) rest) in
      (
        length (print_line m p v) + size lines,
        ap find_end whole
            ∙ find_end-join (print_line m p v) lines rest
                (print_line-IsLine, headers-IsLine headers a),
        omega (arith, ap length joined, length-join (print_line m p v ∷ lines) []),
      )

-- A client that sends a request by the rules, split in any way and with anything behind it, gets one
-- `response`: of the configured status, by default 404, with the configured server, by default nginx,
-- and in its form for HEAD exactly if the request is HEAD. The server then closes the session, on which the
-- request, with its method, target, version and Host as the client wrote them and the first 1024 characters
-- of its User-Agent, is the only event that was pushed: it is kept as `push_event` keeps it, redacted as the
-- session's privacy asks and as far as its log has room. By the rules: as for a request that is accepted,
-- within 8192 bytes and within what the session, which is good, may still read. There is fuel for 8192
-- bytes.
pub handle-print_request :
    (ls : Limits) (canonical_reason : ℕ → Option Bytes) (ep : EndpointConfig) (fuel : ℕ)
    (s : SessionState) (chunks : List Bytes) (out rest m p v : Bytes) (headers : List Header)
    → Good ls s
    → NoneEmpty chunks
    → concat chunks ≡ print_request m p v headers ++ rest
    → IsRequestLine m p v
    → All IsHeader headers
    → HostOnce headers
    → length headers ≤ 64
    → (not (is_http_1_1 v) || is_some (value_of (codes "host") headers)) ≡ true
    → length (print_request m p v headers) ≤ max_header_bytes
    → length (print_request m p v headers) ≤ remaining_input s
    → max_header_bytes < fuel
    → (s' : SessionState) × (left : List Bytes) × (handle canonical_reason script fuel ep
          (conn s chunks out)
        ≡ (
          done server_closed,
          conn
              (push_event s' (
                http_request m p v
                  (value_of (codes "host") headers)
                  (option_map (take_chars 1024) (value_of (codes "user-agent") headers))))
              left
              (out
                ++ response canonical_reason
                    (unwrap_or ep.http_status 404)
                    (bytes_eq m (codes "HEAD"))
                    (unwrap_or ep.server_header (codes "nginx"))),
        ))
      × (s'.events ≡ s.events)
      × Good ls s'
handle-print_request ls canonical_reason ep fuel s chunks out rest m p v headers g n sent l a o few
      host fits budget f =
    let (i, found, long) = request_end m p v headers l a rest in
    let head : take (i + 4) (concat chunks) ≡ print_request m p v headers =
      ap (take (i + 4)) sent
      ∙ ap (λ k. take k (print_request m p v headers ++ rest)) long
      ∙ take-append_length (print_request m p v headers) rest in
    subst
      (λ (parsed : Result SessionEvent String).
        IsReplied ls canonical_reason ep parsed s out
          (handle canonical_reason script fuel ep (conn s chunks out)))
      (ap parse_request head ∙ parse_request-print_request m p v headers l a o few host)
      (handle-IsReplied ls canonical_reason ep fuel i s chunks out g n (ap find_end sent ∙ found)
        (omega (arith, fits, long)) (omega (arith, budget, long)) f)
