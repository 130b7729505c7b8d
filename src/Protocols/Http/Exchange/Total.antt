-- ===== src/Protocols/Http/Exchange/Total.antt =====
-- The exchange ends by itself, over a good session, and never holds more than 8192 bytes.
use honey_mind.Protocols.Http.Exchange.{
  head_loop, handle, max_header_bytes, after_chunk, answer, answer_request, scan_start, head_next,
  at_end,
}
use honey_mind.Protocols.Io.Triples.{
  IsOwn, Ends, push_event-Good, write_then, Ended, push_event-remaining_input, AfterRead, read_then,
  Ensures, Limits,
}
use honey_mind.Config.Schema.{EndpointConfig}
use honey_mind.Session.State.{
  CloseReason, notice, SessionEvent, SessionState, protocol_error, remaining_input, server_closed,
}
use honey_mind.Base.{
  ◌==◌, Bool-cases, length, is_empty, length-append, Bytes, Result, ok, err, ℕ, zero, suc, ◌+◌, ◌-◌,
  ◌≤◌, ◌<◌, min, String, inl, inr, Option, none, some, [], ◌++◌, arith,
}
use honey_mind.Protocols.Io.{Stream, M, ReadOutcome, Conn}

module _ (ls : Limits) (canonical_reason : ℕ → Option Bytes) {W : Type 0} (stream : Stream W) where
  answer-Ends :
      (fuel : ℕ) (bytes : Bytes) (reason : CloseReason)
      → IsOwn reason
      → Ends ls fuel (answer canonical_reason stream bytes reason)
  answer-Ends fuel bytes reason own c g h =
      write_then ls stream (Ended ls) bytes c _ g
        (elim [ ok u ↦ λ c' p. (own, p.0) | err e ↦ λ c' p. (p.0, p.1) ])

  module _ (ep : EndpointConfig) where
    answer_request-Ends :
        (fuel : ℕ) (r : Result SessionEvent String)
        → Ends ls fuel (answer_request canonical_reason stream ep r)
    unfolding notice
    answer_request-Ends fuel (err message) c g h =
        answer-Ends fuel _ protocol_error tt _ (push_event-Good _ _ g)
          (rw push_event-remaining_input h)
    answer_request-Ends fuel (ok event) c g h =
        answer-Ends fuel _ server_closed tt _ (push_event-Good _ _ g)
          (rw push_event-remaining_input h)

    -- What the loop may be called with: a buffer within its bound.
    abbrev EndsBounded : ℕ → (Bytes → M W CloseReason) → Type 0
    EndsBounded fuel again = (b : Bytes) → length b ≤ max_header_bytes → Ends ls fuel (again b)

    at_end-Ends :
        (fuel start : ℕ) (headers : Bytes) (again : Bytes → M W CloseReason) (o : Option ℕ)
        → EndsBounded fuel again
        → length headers ≤ max_header_bytes
        → Ends ls fuel (at_end canonical_reason stream ep start headers again o)
    at_end-Ends fuel start headers again none k b c g h = k headers b c g h
    at_end-Ends fuel start headers again (some i) k b c g h = answer_request-Ends fuel _ c g h

    after_chunk-Ends :
        (fuel : ℕ) (again : Bytes → M W CloseReason) (headers chunk : Bytes)
        → EndsBounded fuel again
        → length headers + length chunk ≤ max_header_bytes
        → Ends ls fuel (after_chunk canonical_reason stream ep headers chunk again)
    after_chunk-Ends fuel again headers chunk k b =
        at_end-Ends fuel (scan_start headers) (headers ++ chunk) again _ k
          (omega (arith, length-append headers chunk))

    head_next-Ensures :
        (fuel : ℕ) (again : Bytes → M W CloseReason) (headers : Bytes) (r : ReadOutcome)
        (s : SessionState) (c : Conn W)
        → EndsBounded fuel again
        → length headers ≤ max_header_bytes
        → remaining_input s < suc fuel
        → AfterRead ls s (min (max_header_bytes - length headers) 2048) r c.session
        → Ensures ls (Ended ls) (head_next canonical_reason stream ep headers again r c)
    unfolding notice
    head_next-Ensures fuel again headers (ok none) s c k b h p =
        elim (Bool-cases (is_empty headers)) [
          | inl e ↦ rw e (tt, p.0)
          | inr e ↦ rw e (tt, push_event-Good _ _ p.0)
        ]
    head_next-Ensures fuel again headers (ok (some chunk)) s c k b h p =
        after_chunk-Ends fuel again headers chunk k (omega arith) c p.0 (omega arith)
    head_next-Ensures fuel again headers (err e) s c k b h p = (p.0, p.1)

    head_loop-Ends : (fuel : ℕ) → EndsBounded fuel (head_loop canonical_reason stream ep fuel)
    unfolding head_loop notice
    head_loop-Ends zero headers b c g h = absurd (omega arith)
    head_loop-Ends (suc fuel) headers b c g h =
        let left = max_header_bytes - length headers in
        elim (Bool-cases (left == 0)) [
          | inl e ↦ rw e (
              answer-Ends (suc fuel) _ protocol_error tt _ (push_event-Good _ _ g)
                (rw push_event-remaining_input h))
          | inr e ↦ rw e (
              read_then ls stream (Ended ls) (min left 2048) c _ g λ r c' p.
                head_next-Ensures fuel (head_loop canonical_reason stream ep fuel) headers r
                  c.session c' (head_loop-Ends fuel) b h p)
        ]

  pub handle-Ends :
      (fuel : ℕ) (ep : EndpointConfig) → Ends ls fuel (handle canonical_reason stream fuel ep)
  unfolding handle
  handle-Ends fuel ep = head_loop-Ends ep fuel [] (omega arith)
