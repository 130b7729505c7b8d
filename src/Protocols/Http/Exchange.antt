-- ===== src/Protocols/Http/Exchange.antt =====
-- src/protocols/http.rs: `handle`, which reads a request's headers and answers.
pub mod HeaderEnd
pub mod Total
pub mod Joined
pub mod Reply
pub mod Split
pub mod Served
pub mod Client
mod Tests
use honey_mind.Protocols.Http.Response.{response}
use honey_mind.Config.Schema.{EndpointConfig}
use honey_mind.Session.State.{
  CloseReason, SessionEvent, http_request, notice, client_closed, protocol_error, push_event,
  server_closed,
}
use honey_mind.Protocols.Http.Request.{head_end, parse_request}
use honey_mind.Base.{
  ◌==◌, if◌then◌else◌, unwrap_or, option_map, length, is_empty, take, drop, Bytes, codes, bytes_eq,
  starts_with, Result, ok, err, ℕ, zero, suc, ◌+◌, ◌-◌, min, String, Bool, false, not, Option, none,
  some, [], ◌∷◌, ◌++◌,
}
use honey_mind.Protocols.Io.{
  ◌>>=◌, ◌>>◌, Stream, M, return, ReadOutcome, io_write, modify, out_of_fuel, refuse, io_read,
}

abbrev pub max_header_bytes : ℕ
max_header_bytes = 8192

-- `windows(4).position(|v| v == b"\r\n\r\n")`
unfoldable pub find_end : Bytes → Option ℕ
find_end [] = none
find_end (b ∷ bytes) =
    let rest = find_end bytes in
    if starts_with head_end (b ∷ bytes) then some 0 else option_map suc rest

-- Where the scan of the bytes so far starts: a new chunk may complete what 3 of them begin.
abbrev pub scan_start : Bytes → ℕ
scan_start headers = length headers - 3

-- `method == "HEAD"`, on the event that was parsed
abbrev pub is_head : SessionEvent → Bool
is_head (http_request method path version host user_agent) = bytes_eq method (codes "HEAD")
is_head _ = false

module _ (canonical_reason : ℕ → Option Bytes) {W : Type 0} (stream : Stream W) where
  -- A response, and the reason that ends the session when it is written.
  abbrev pub answer : Bytes → CloseReason → M W CloseReason
  answer bytes reason = do
    o ← io_write stream bytes
    elim o [ ok _ ↦ return reason | err e ↦ return e ]

  module _ (ep : EndpointConfig) where
    abbrev pub server : Bytes
    server = unwrap_or ep.server_header (codes "nginx")

    -- `match parse_request(…)`, and what stands behind it
    abbrev pub answer_request : Result SessionEvent String → M W CloseReason
    answer_request (err message) =
        modify (λ s. notice s message)
        >> answer (response canonical_reason 400 false server) protocol_error
    answer_request (ok event) =
        modify (λ s. push_event s event)
        >> answer (response canonical_reason (unwrap_or ep.http_status 404) (is_head event) server)
            server_closed

    -- The bytes so far, and where their end was found behind `start`; `again` goes on reading.
    abbrev pub at_end : ℕ → Bytes → (Bytes → M W CloseReason) → Option ℕ → M W CloseReason
    at_end start headers again none = again headers
    at_end start headers again (some offset) =
        answer_request (parse_request (take (start + offset + 4) headers))

    abbrev pub after_chunk : Bytes → Bytes → (Bytes → M W CloseReason) → M W CloseReason
    after_chunk headers chunk again =
        let start = scan_start headers in
        let longer = headers ++ chunk in at_end start longer again (find_end (drop start longer))

    -- The `match` on a read.
    abbrev pub head_next : Bytes → (Bytes → M W CloseReason) → ReadOutcome → M W CloseReason
    head_next headers again (ok none) =
        if not (is_empty headers)
        then refuse "http_incomplete_headers" client_closed
        else return client_closed
    head_next headers again (ok (some chunk)) = after_chunk headers chunk again
    head_next headers again (err reason) = return reason

    pub head_loop : ℕ → Bytes → M W CloseReason
    head_loop zero headers = out_of_fuel
    head_loop (suc fuel) headers =
        let remaining = max_header_bytes - length headers in
        if remaining == 0
        then (modify (λ s. notice s "http_headers_too_large")
            >> answer (response canonical_reason 431 false server) protocol_error)
        else (io_read stream (min remaining 2048) >>= head_next headers (head_loop fuel))

  unfoldable pub handle : ℕ → EndpointConfig → M W CloseReason
  unfolding head_loop
  handle fuel ep = head_loop ep fuel []
