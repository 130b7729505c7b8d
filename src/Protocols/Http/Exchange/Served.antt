-- ===== src/Protocols/Http/Exchange/Served.antt =====
-- What a peer that takes turns with the HTTP decoy has from it: one answer, to the first request.
use honey_mind.Base.{
  take, Bytes, ℕ, ◌+◌, ◌≤◌, ◌<◌, ◌≡◌, ◌∙◌, Option, some, List, ◌++◌, arith, false, [], unwrap_or,
  Result, ok, err, String, refl,
}
use honey_mind.Protocols.Http.Exchange.{
  find_end, answer_request, max_header_bytes, handle, is_head, server,
}
use honey_mind.Protocols.Http.Request.{parse_request}
use honey_mind.Protocols.Io.{Conn, Run, done}
use honey_mind.Protocols.Io.Script.{conn, Script, script, concat, NoneEmpty, write_script}
use honey_mind.Protocols.Io.Triples.{Limits, Good}
use honey_mind.Session.State.{
  SessionState, CloseReason, remaining_input, SessionEvent, push_event, server_closed, notice,
  protocol_error,
}
use honey_mind.Config.Schema.{EndpointConfig}
use honey_mind.Protocols.Http.Response.{response}
use honey_mind.Protocols.Http.Exchange.Split.{loop-Answered}

-- What a session has noted of a request, and what it is answered with.
abbrev pub noted : Result SessionEvent String → SessionState → SessionState
noted (ok event) s = push_event s event
noted (err message) s = notice s message

abbrev pub reply_to : (ℕ → Option Bytes) → EndpointConfig → Result SessionEvent String → Bytes
reply_to canonical_reason ep (ok event) =
    response canonical_reason (unwrap_or ep.http_status 404) (is_head event)
      (server canonical_reason script ep)
reply_to canonical_reason ep (err message) =
    response canonical_reason 400 false (server canonical_reason script ep)

abbrev pub reason_of : Result SessionEvent String → CloseReason
reason_of (ok event) = server_closed
reason_of (err message) = protocol_error

answered :
    (canonical_reason : ℕ → Option Bytes) (ep : EndpointConfig) (r : Result SessionEvent String)
    (s : SessionState) (chunks : List Bytes) (out : Bytes)
    → answer_request canonical_reason script ep r (conn s chunks out)
      ≡ (done (reason_of r), conn (noted r s) chunks (out ++ reply_to canonical_reason ep r))
answered canonical_reason ep (ok event) s chunks out = rw write_script refl
answered canonical_reason ep (err message) s chunks out = rw write_script refl

-- The decoy has noted what it parsed, and nothing else, has answered it and is over.
abbrev pub IsReplied :
    Limits
    → (ℕ → Option Bytes)
    → EndpointConfig
    → Result SessionEvent String
    → SessionState
    → Bytes
    → Run CloseReason × Conn Script
    → Type 0
IsReplied ls canonical_reason ep parsed s out r =
    (s' : SessionState) × (left : List Bytes) × (r ≡ (
      done (reason_of parsed),
      conn (noted parsed s') left (out ++ reply_to canonical_reason ep parsed),
    ))
    × (s'.events ≡ s.events)
    × Good ls s'

-- However the network splits what a client sends, the request that the decoy notes and answers is all that stands up
-- to the first end of headers in it, that included. This needs an end within the first 8192 bytes and within what the session may
-- still read, and a peer that sends everything and takes the answer.
pub handle-IsReplied :
    (ls : Limits) (canonical_reason : ℕ → Option Bytes) (ep : EndpointConfig) (fuel i : ℕ)
    (s : SessionState) (chunks : List Bytes) (out : Bytes)
    → Good ls s
    → NoneEmpty chunks
    → find_end (concat chunks) ≡ some i
    → i + 4 ≤ max_header_bytes
    → i + 4 ≤ remaining_input s
    → max_header_bytes < fuel
    → IsReplied ls canonical_reason ep
        (parse_request (take (i + 4) (concat chunks)))
        s
        out
        (handle canonical_reason script fuel ep (conn s chunks out))
unfolding handle
handle-IsReplied ls canonical_reason ep fuel i s chunks out g a e fits budget f =
    let (s', left, r, events, good) =
      loop-Answered ls canonical_reason ep (concat chunks) out i e fits fuel [] s chunks
        (record {
          good = g;
          no_end = unfold find_end in refl;
          joined = refl;
          chunks_some = a;
          budget = omega (arith, budget);
        })
        (omega (arith, f)) in
    (
      s',
      left,
      r ∙ answered canonical_reason ep (parse_request (take (i + 4) (concat chunks))) s' left out,
      events,
      good,
    )
