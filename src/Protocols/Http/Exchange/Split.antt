-- ===== src/Protocols/Http/Exchange/Split.antt =====
-- The request that is answered does not depend on how the network splits it.
use honey_mind.Base.{
  length, take, Bytes, ℕ, ◌+◌, ◌≤◌, ◌<◌, ◌≡◌, ap, ◌∙◌, Option, none, some, List, ◌++◌, Option-cases,
  option_map, drop, take-append_le, sym, inl, inr, arith, ◌==◌, zero, suc, ◌-◌, min, false, [], ◌∷◌,
  length-append, subst, append-nil, append_assoc,
}
use honey_mind.Protocols.Http.Exchange.{
  find_end, head_loop, after_chunk, answer_request, max_header_bytes, scan_start, head_next,
}
use honey_mind.Protocols.Http.Exchange.HeaderEnd.{
  find_end-none, find_end-prefix, find_end-incremental,
}
use honey_mind.Protocols.Http.Request.{parse_request}
use honey_mind.Protocols.Io.{Conn, Run, after}
use honey_mind.Protocols.Io.Script.{conn, Script, script, concat, NoneEmpty, Yields, io_read-Yields}
use honey_mind.Protocols.Io.Triples.{Limits, Good, remaining_input-record_bytes, record_bytes-Good}
use honey_mind.Session.State.{SessionState, CloseReason, remaining_input, record_bytes}
use honey_mind.Config.Schema.{EndpointConfig}

record_bytes-events : (s : SessionState) (bytes : Bytes) → (record_bytes s bytes).events ≡ s.events
unfolding record_bytes
record_bytes-events s bytes = ground arith

module _ (ls : Limits) (canonical_reason : ℕ → Option Bytes) (ep : EndpointConfig)
    (whole out : Bytes) (i : ℕ) where
  -- The request up to its end is parsed and answered, over a session that has only recorded bytes, before
  -- anything is written.
  abbrev pub Answered : SessionState → Run CloseReason × Conn Script → Type 0
  Answered s r =
      (s' : SessionState) × (left : List Bytes) × (r
        ≡ answer_request canonical_reason script ep (parse_request (take (i + 4) whole))
            (conn s' left out))
      × (s'.events ≡ s.events)
      × Good ls s'

  pub record Waiting (headers : Bytes) (s : SessionState) (chunks : List Bytes) : Type 0 where
    pub good : Good ls s
    pub no_end : find_end headers ≡ none
    pub joined : headers ++ concat chunks ≡ whole
    pub chunks_some : NoneEmpty chunks
    pub budget : i + 4 ≤ length headers + remaining_input s

  module _ (found : find_end whole ≡ some i) (fits : i + 4 ≤ max_header_bytes) where
    headers_short :
        (headers : Bytes) (s : SessionState) (chunks : List Bytes)
        → Waiting headers s chunks
        → length headers < i + 4
    headers_short headers s chunks w =
        find_end-none headers (concat chunks) i w.no_end (ap find_end w.joined ∙ found)

    some_eq : {m n : ℕ} → some m ≡ some n → m ≡ n
    some_eq h = ground arith

    -- The end that a chunk completes is that of the whole.
    completed :
        (longer rest : Bytes) (k : ℕ)
        → find_end longer ≡ some k
        → longer ++ rest ≡ whole
        → take (k + 4) longer ≡ take (i + 4) whole
    completed longer rest k e j =
        let (again, long) = find_end-prefix longer rest k e in
        let same : k ≡ i = some_eq (sym again ∙ ap find_end j ∙ found) in
        sym (take-append_le (k + 4) longer rest long)
        ∙ ap (take (k + 4)) j
        ∙ ap (λ n. take (n + 4) whole) same

    -- A chunk completes the headers, or the loop goes on.
    chunk-Answered :
        (fuel : ℕ) (headers : Bytes) (s s' : SessionState) (piece : Bytes) (left : List Bytes)
        → Good ls s'
        → s'.events ≡ s.events
        → find_end headers ≡ none
        → (headers ++ piece) ++ concat left ≡ whole
        → (find_end (headers ++ piece) ≡ none
            → Answered s'
                (head_loop canonical_reason script ep fuel (headers ++ piece) (conn s' left out)))
        → Answered s (
            after_chunk canonical_reason script ep headers piece
              (head_loop canonical_reason script ep fuel)
              (conn s' left out))
    chunk-Answered fuel headers s s' piece left g same n j k =
        let start = scan_start headers in
        let longer = headers ++ piece in
        let agrees = find_end-incremental headers piece n in
        elim (Option-cases (find_end (drop start longer))) [
          | inl e ↦
              let (s2, left2, r, events, g2) = k (agrees ∙ ap (option_map (◌+◌ start)) e) in
              rw e (s2, left2, r, events ∙ same, g2)
          | inr (offset, e) ↦
              let done' =
                completed longer (concat left) (start + offset)
                  (agrees ∙ ap (option_map (◌+◌ start)) e) j in
              rw e (
                s',
                left,
                ap
                    (λ b.
                      answer_request canonical_reason script ep (parse_request b)
                        (conn s' left out))
                    done',
                same,
                g,
              )
        ]

    -- One turn of the loop: it reads a piece.
    turn :
        (fuel : ℕ) (headers : Bytes) (s : SessionState) (chunk : Bytes) (chunks : List Bytes)
        → Waiting headers s (chunk ∷ chunks)
        → (read : Yields (min (max_header_bytes - length headers) 2048) s (chunk ∷ chunks) out)
        → head_loop canonical_reason script ep (suc fuel) headers (conn s (chunk ∷ chunks) out)
          ≡ after_chunk canonical_reason script ep headers
              (read.first ∷ read.piece)
              (head_loop canonical_reason script ep fuel)
              (conn (record_bytes s (read.first ∷ read.piece)) read.left out)
    unfolding head_loop
    turn fuel headers s chunk chunks w read =
        let short = headers_short headers s (chunk ∷ chunks) w in
        let more : ((max_header_bytes - length headers) == 0) ≡ false = ground arith in
        rw more (
          ap
            (λ r. after r (
              head_next canonical_reason script ep headers
                (head_loop canonical_reason script ep fuel)))
            read.reads)

    pub loop-Answered :
        (fuel : ℕ) (headers : Bytes) (s : SessionState) (chunks : List Bytes)
        → Waiting headers s chunks
        → max_header_bytes < fuel + length headers
        → Answered s (head_loop canonical_reason script ep fuel headers (conn s chunks out))
    loop-Answered zero headers s chunks w f =
        absurd (omega (arith, headers_short headers s chunks w))
    loop-Answered (suc fuel) headers s [] w f =
        let same : find_end headers ≡ some i =
          ap find_end (sym (append-nil headers) ∙ w.joined) ∙ found in
        absurd (ground (arith, same, w.no_end))
    loop-Answered (suc fuel) headers s (chunk ∷ chunks) w f =
        let short = headers_short headers s (chunk ∷ chunks) w in
        let read =
          io_read-Yields (min (max_header_bytes - length headers) 2048) s chunk chunks out
            w.chunks_some (omega (arith, w.budget, short)) in
        let piece = read.first ∷ read.piece in
        let fits_budget : length piece ≤ remaining_input s = omega (arith, read.short) in
        let spent =
          remaining_input-record_bytes s piece w.good.small w.good.inv.received fits_budget in
        let rest : (headers ++ piece) ++ concat read.left ≡ whole =
          append_assoc headers piece (concat read.left)
          ∙ ap (λ r. headers ++ r) read.joined
          ∙ w.joined in
        subst (Answered s) (sym (turn fuel headers s chunk chunks w read)) (
          chunk-Answered fuel headers s (record_bytes s piece) piece read.left
            (record_bytes-Good s piece fits_budget w.good) (record_bytes-events s piece) w.no_end
            rest
            λ none_left.
              loop-Answered fuel (headers ++ piece) (record_bytes s piece) read.left
                (record {
                  good = record_bytes-Good s piece fits_budget w.good;
                  no_end = none_left;
                  joined = rest;
                  chunks_some = read.some_left;
                  budget = omega (arith, w.budget, spent, length-append headers piece);
                })
                (omega (arith, f, length-append headers piece)))
