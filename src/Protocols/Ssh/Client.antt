-- ===== src/Protocols/Ssh/Client.antt =====
-- What the decoy makes of a client that sends an identification, however the network splits it.
use honey_mind.Base.Text.{split_once}
use honey_mind.Config.Schema.{EndpointConfig}
use honey_mind.Protocols.Ssh.Identification.{resume, scan-append, scan_of, scan-split_once}
use honey_mind.Base.{
  Bytes, ℕ, zero, suc, ◌<◌, ◌≡◌, refl, sym, ap, subst, ◌∙◌, true, none, List, [], ◌∷◌, arith,
  Bool-cases, ok, inl, inr, false, unwrap_or, ◌++◌,
}
use honey_mind.Base.Utf8.{from_utf8_lossy}
use honey_mind.Protocols.Io.{after}
use honey_mind.Protocols.Io.Script.{
  push_event-CanRead, script, conn, CanRead, io_read-Yields, Yields-CanRead, read_end, concat,
  write_script,
}
use honey_mind.Protocols.Io.Triples.{Limits, Good, push_event-Good, push_event-remaining_input}
use honey_mind.Protocols.Ssh.{
  ident_loop, ident_next, Scan, line_found, too_long, incomplete, valid_identification, scan,
  after_scan, handle, default_banner,
}
use honey_mind.Session.State.{
  SessionState, client_closed, push_event, notice_event, record_bytes, remaining_input,
  ssh_client_banner, notice,
}
use honey_mind.Protocols.Ssh.Ending.{IsDone, event_of, reason_of, recorded-IsDone}

module _ (ls : Limits) (out : Bytes) where
  -- Behind its identification, the client is only read.
  identified-IsDone :
      (fuel : ℕ) (s : SessionState) (i : Bytes) (chunks : List Bytes)
      → CanRead ls s chunks
      → remaining_input s < fuel
      → IsDone ls client_closed none s out (ident_loop script fuel i true (conn s chunks out))
  unfolding ident_loop
  identified-IsDone zero s i chunks c f = absurd (omega arith)
  identified-IsDone (suc fuel) s i [] c f = (
    s,
    [],
    ap (λ r. after r (ident_next i true (ident_loop script fuel)))
        (read_end 4096 s out (omega (arith, c.budget))),
    refl,
    c.good,
  )
  identified-IsDone (suc fuel) s i (chunk ∷ chunks) c f =
      let y = io_read-Yields 4096 s chunk chunks out c.chunks_some (omega (arith, c.budget)) in
      let (c', less) = Yields-CanRead ls 4096 s (chunk ∷ chunks) out c y in
      subst (IsDone ls client_closed none s out)
        (sym (ap (λ r. after r (ident_next i true (ident_loop script fuel))) y.reads))
        (recorded-IsDone ls client_closed none s (y.first ∷ y.piece) out _ (
          identified-IsDone fuel (record_bytes s (y.first ∷ y.piece)) i y.left c'
            (omega (arith, less, f))))

  line-IsDone :
      (fuel : ℕ) (s : SessionState) (line : Bytes) (chunks : List Bytes)
      → CanRead ls s chunks
      → remaining_input s < fuel
      → IsDone ls
          (reason_of (line_found line))
          (event_of (line_found line))
          s
          out
          (after_scan (line_found line) (ident_loop script fuel) (conn s chunks out))
  unfolding notice
  line-IsDone fuel s line chunks c f = elim (Bool-cases (valid_identification line)) [
    | inl e ↦ rw e (
        identified-IsDone fuel (push_event s (ssh_client_banner (from_utf8_lossy line))) [] chunks
          (push_event-CanRead s chunks _ c) (rw push_event-remaining_input f))
    | inr e ↦ rw e (
      push_event s (notice_event "ssh_invalid_identification"),
      chunks,
      refl,
      refl,
      push_event-Good s _ c.good,
    )
  ]

  scanned-IsDone :
      (fuel : ℕ) (s : SessionState) (q : Scan) (chunks : List Bytes)
      → CanRead ls s chunks
      → remaining_input s < fuel
      → ((i : Bytes)
          → IsDone ls
              (reason_of (scan i (concat chunks)))
              (event_of (scan i (concat chunks)))
              s
              out
              (ident_loop script fuel i false (conn s chunks out)))
      → IsDone ls
          (reason_of (resume q (concat chunks)))
          (event_of (resume q (concat chunks)))
          s
          out
          (after_scan q (ident_loop script fuel) (conn s chunks out))
  unfolding notice
  scanned-IsDone fuel s (line_found line) chunks c f k = line-IsDone fuel s line chunks c f
  scanned-IsDone fuel s too_long chunks c f k = (
    push_event s (notice_event "ssh_identification_too_long"),
    chunks,
    refl,
    refl,
    push_event-Good s _ c.good,
  )
  scanned-IsDone fuel s (incomplete i) chunks c f k = k i

  ended-IsDone :
      (fuel : ℕ) (s : SessionState) (i : Bytes)
      → Good ls s
      → IsDone ls
          (reason_of (incomplete i))
          (event_of (incomplete i))
          s
          out
          (ident_next i false (ident_loop script fuel) (ok none) (conn s [] out))
  unfolding notice
  ended-IsDone fuel s [] g = (s, [], refl, refl, g)
  ended-IsDone fuel s (b ∷ i) g = (
    push_event s (notice_event "ssh_incomplete_identification"),
    [],
    refl,
    refl,
    push_event-Good s _ g,
  )

  loop-IsDone :
      (fuel : ℕ) (s : SessionState) (i : Bytes) (chunks : List Bytes)
      → CanRead ls s chunks
      → remaining_input s < fuel
      → IsDone ls
          (reason_of (scan i (concat chunks)))
          (event_of (scan i (concat chunks)))
          s
          out
          (ident_loop script fuel i false (conn s chunks out))
  unfolding ident_loop
  loop-IsDone zero s i chunks c f = absurd (omega arith)
  loop-IsDone (suc fuel) s i [] c f =
      subst (IsDone ls (reason_of (scan i [])) (event_of (scan i [])) s out)
        (sym (
          ap (λ r. after r (ident_next i false (ident_loop script fuel)))
            (read_end 4096 s out (omega (arith, c.budget)))))
        (unfold scan in ended-IsDone fuel s i c.good)
  loop-IsDone (suc fuel) s i (chunk ∷ chunks) c f =
      let y = io_read-Yields 4096 s chunk chunks out c.chunks_some (omega (arith, c.budget)) in
      let piece = y.first ∷ y.piece in
      let (c', less) = Yields-CanRead ls 4096 s (chunk ∷ chunks) out c y in
      let scanned : scan i (concat (chunk ∷ chunks)) ≡ resume (scan i piece) (concat y.left) =
        ap (scan i) (sym y.joined) ∙ scan-append i piece (concat y.left) in
      let rest =
        scanned-IsDone fuel (record_bytes s piece) (scan i piece) y.left c' (omega (arith, less, f))
          (λ i'. loop-IsDone fuel (record_bytes s piece) i' y.left c' (omega (arith, less, f))) in
      rw scanned (
        subst
          (IsDone ls (reason_of (resume (scan i piece) (concat y.left)))
            (event_of (resume (scan i piece) (concat y.left))) s out)
          (sym (ap (λ r. after r (ident_next i false (ident_loop script fuel))) y.reads))
          (recorded-IsDone ls _ _ s piece out _ rest))

-- The line that greets a client.
abbrev pub greeting : EndpointConfig → Bytes
greeting ep = unwrap_or ep.banner default_banner ++ (b'\r' ∷ b'\n' ∷ [])

-- However the network splits what a client sends, the decoy greets it once, and what it makes of it depends
-- on a split at the first newline only. A valid line of at most 254 bytes before it, without its last CR,
-- is the only new event, and the client closes the session, whatever else it sends; an invalid one
-- ends the session as a protocol error with a notice; so do 255 bytes without a newline; a shorter rest is
-- noticed as incomplete, and an empty one not at all. An event is kept as far as the log of the session
-- has room. The session is good, the client sends less than it may still read, and then closes; there is
-- more fuel than the session may read.
pub handle-IsDone :
    (ls : Limits) (ep : EndpointConfig) (fuel : ℕ) (s : SessionState) (chunks : List Bytes)
    (out : Bytes)
    → CanRead ls s chunks
    → remaining_input s < fuel
    → let read = scan_of (concat chunks) (split_once b'\n' (concat chunks)) in
      IsDone ls
        (reason_of read)
        (event_of read)
        s
        (out ++ greeting ep)
        (handle script fuel ep (conn s chunks out))
unfolding handle
handle-IsDone ls ep fuel s chunks out c f =
    let found = loop-IsDone ls (out ++ greeting ep) fuel s [] chunks c f in
    rw (write_script, ← scan-split_once (concat chunks)) found
