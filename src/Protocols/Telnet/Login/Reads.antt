-- ===== src/Protocols/Telnet/Login/Reads.antt =====
-- One line of a client, however the network splits it, through `read_line`.
use honey_mind.Base.{
  Bytes, ok, ◌≤◌, ◌<◌, ◌≡◌, refl, sym, ap, ◌∙◌, some, List, [], ◌++◌, arith, ℕ, zero, suc, subst,
  ◌∷◌,
}
use honey_mind.Protocols.Io.{Conn, Run, done, after}
use honey_mind.Protocols.Io.Script.{
  Script, conn, concat, CanRead, script, io_read-Yields, Yields-CanRead,
}
use honey_mind.Protocols.Io.Triples.{Limits}
use honey_mind.Protocols.Telnet.Line.{
  LineReader, drain, drain_from, line_read, new_reader, Drained, line_too_long, need_more,
}
use honey_mind.Protocols.Telnet.Line.Split.{
  drain_from-nil, resume, IsDry, drain_from-IsDry, drain_from-append,
}
use honey_mind.Protocols.Telnet.Login.{LineOutcome, read_line, after_drain, after_more}
use honey_mind.Session.State.{SessionState, record_bytes, remaining_input}

-- A reader that is between two lines.
abbrev pub between : Bytes → LineReader
between pending = record new_reader { pending = pending }

-- The line is read, `rest` is what is still to come, and the session has only recorded bytes.
abbrev pub Reads :
    Limits → SessionState → Bytes → Bytes → Bytes → Run LineOutcome × Conn Script → Type 0
Reads ls s out line rest r =
    (s' : SessionState) × (left : List Bytes) × (pending : Bytes) × (r
      ≡ (done (ok (some line), between pending), conn s' left out))
    × (pending ++ concat left ≡ rest)
    × (s'.events ≡ s.events)
    × CanRead ls s' left
    × (remaining_input s' ≤ remaining_input s)

recorded-Reads :
    (ls : Limits) (s : SessionState) (bytes out line rest : Bytes)
    (r : Run LineOutcome × Conn Script)
    → remaining_input (record_bytes s bytes) < remaining_input s
    → Reads ls (record_bytes s bytes) out line rest r
    → Reads ls s out line rest r
unfolding record_bytes
recorded-Reads ls s bytes out line rest r less (s', left, pending, e, joined, events, c, le) =
    (s', left, pending, e, joined, ground arith, c, omega arith)

-- A line that is already there.
line-Reads :
    (ls : Limits) (s : SessionState) (chunks : List Bytes) (out l line rest : Bytes)
    (r : LineReader)
    → CanRead ls s chunks
    → resume (line_read l r) (concat chunks) ≡ line_read line (between rest)
    → Reads ls s out line rest (done (ok (some l), r), conn s chunks out)
line-Reads ls s chunks out l line rest r c h =
    (s, chunks, r.pending, ground arith, ground arith, refl, c, omega arith)

refilled :
    (r : LineReader) (piece : Bytes)
    → r.pending ≡ []
    → drain (record r { pending = r.pending ++ piece }) ≡ drain_from piece r
refilled r piece h =
    ap (λ p. drain_from (p ++ piece) (record r { pending = [] })) h
    ∙ ap (λ p. drain_from piece (record r { pending = p })) (sym h)

module _ (ls : Limits) (out line rest : Bytes) where
  abbrev pub WillRead : Drained → List Bytes → Type 0
  WillRead q chunks = resume q (concat chunks) ≡ line_read line (between rest)

  drained-Reads :
      (fuel : ℕ) (s : SessionState) (chunks : List Bytes) (q : Drained)
      → CanRead ls s chunks
      → WillRead q chunks
      → IsDry q
      → ((r : LineReader) (s' : SessionState) (left : List Bytes)
          → CanRead ls s' left
          → remaining_input s' < remaining_input s
          → WillRead (drain r) left
          → Reads ls s' out line rest (read_line script fuel r (conn s' left out)))
      → Reads ls s out line rest (after_drain script q (read_line script fuel) (conn s chunks out))
  drained-Reads fuel s chunks (line_read l r) c h dry k =
      line-Reads ls s chunks out l line rest r c h
  drained-Reads fuel s chunks (line_too_long r) c h dry k = absurd (ground arith)
  drained-Reads fuel s [] (need_more r) c h dry k = absurd (ground (arith, drain_from-nil r))
  drained-Reads fuel s (chunk ∷ chunks) (need_more r) c h dry k =
      let y = io_read-Yields 256 s chunk chunks out c.chunks_some (omega (arith, c.budget)) in
      let piece = y.first ∷ y.piece in
      let (c', less) = Yields-CanRead ls 256 s (chunk ∷ chunks) out c y in
      let will : WillRead (drain (record r { pending = r.pending ++ piece })) y.left =
        ap (λ q. resume q (concat y.left)) (refilled r piece dry)
        ∙ sym (drain_from-append piece (concat y.left) r)
        ∙ ap (λ b. drain_from b r) y.joined
        ∙ h in
      subst (Reads ls s out line rest)
        (sym (ap (λ x. after x (after_more r (read_line script fuel))) y.reads))
        (recorded-Reads ls s piece out line rest _ less (
          k (record r { pending = r.pending ++ piece }) (record_bytes s piece) y.left c' less will))

  pub read_line-Reads :
      (fuel : ℕ) (s : SessionState) (chunks : List Bytes) (r : LineReader)
      → CanRead ls s chunks
      → remaining_input s < fuel
      → WillRead (drain r) chunks
      → Reads ls s out line rest (read_line script fuel r (conn s chunks out))
  unfolding read_line
  read_line-Reads zero s chunks r c f h = absurd (omega arith)
  read_line-Reads (suc fuel) s chunks r c f h =
      drained-Reads fuel s chunks (drain r) c h
        (drain_from-IsDry r.pending (record r { pending = [] }) refl)
        λ r' s' left c' less h'. read_line-Reads fuel s' left r' c' (omega (arith, less, f)) h'
