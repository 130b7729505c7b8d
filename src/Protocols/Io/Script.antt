-- ===== src/Protocols/Io/Script.antt =====
-- A peer that sends given chunks, one to a read or more, and takes whatever is written to it.
use honey_mind.Base.{
  length, is_empty, take, drop, All, length-take, Bytes, ok, ℕ, zero, suc, ◌≤◌, ◌<◌, min, ◌≡◌, refl,
  false, some, List, [], ◌∷◌, ◌++◌, arith, take-append-drop, sym, ap, ◌∙◌, append_assoc, ◌==◌, none,
  length-append,
}
use honey_mind.Protocols.Io.Triples.{
  Limits, Good, record_bytes-Good, remaining_input-record_bytes, push_event-Good,
  push_event-remaining_input,
}
use honey_mind.Protocols.Io.{Stream, ReadResult, received, written, io_read, done, io_write, Conn}
use honey_mind.Session.State.{SessionState, record_bytes, remaining_input, SessionEvent, push_event}

pub record Script : Type 0 where
  pub incoming : List Bytes
  pub outgoing : Bytes

-- What is left of a chunk goes first.
abbrev pub keep : Bytes → List Bytes → List Bytes
keep [] chunks = chunks
keep (b ∷ bytes) chunks = (b ∷ bytes) ∷ chunks

abbrev pub next_chunk : ℕ → List Bytes → ReadResult × List Bytes
next_chunk n [] = (received [], [])
next_chunk n (chunk ∷ chunks) = (received (take n chunk), keep (drop n chunk) chunks)

abbrev pub read_script : Script → ℕ → ReadResult × Script
read_script w n = ((next_chunk n w.incoming).0, record w { incoming = (next_chunk n w.incoming).1 })

pub next_chunk-le :
    (n : ℕ) (chunks : List Bytes) (bytes : Bytes)
    → (next_chunk n chunks).0 ≡ received bytes
    → length bytes ≤ n
next_chunk-le n [] bytes e = ground arith
next_chunk-le n (chunk ∷ chunks) bytes e = ground (arith, length-take n chunk)

abbrev pub script : Stream Script
script = record {
  read = read_script;
  write = λ w bytes. (written, record w { outgoing = w.outgoing ++ bytes });
  read_le = λ w n bytes e. next_chunk-le n w.incoming bytes e;
}

abbrev pub conn : SessionState → List Bytes → Bytes → Conn Script
conn s chunks out = record { session = s; world = record { incoming = chunks; outgoing = out } }

-- The bytes of all chunks.
abbrev pub concat : List Bytes → Bytes
concat [] = []
concat (chunk ∷ chunks) = chunk ++ concat chunks

abbrev pub NoneEmpty : List Bytes → Type 0
NoneEmpty = All (λ chunk. is_empty chunk ≡ false)

concat-keep :
    (bytes : Bytes) (chunks : List Bytes) → concat (keep bytes chunks) ≡ bytes ++ concat chunks
concat-keep [] chunks = refl
concat-keep (b ∷ bytes) chunks = refl

keep-NoneEmpty :
    (bytes : Bytes) (chunks : List Bytes) → NoneEmpty chunks → NoneEmpty (keep bytes chunks)
keep-NoneEmpty [] chunks h = h
keep-NoneEmpty (b ∷ bytes) chunks h = (refl, h)

-- A read within the budget yields the first bytes of what comes.
pub record Yields (n : ℕ) (s : SessionState) (chunks : List Bytes) (out : Bytes) : Type 0 where
  pub first : ℕ
  pub piece : Bytes
  pub left : List Bytes
  pub joined : first ∷ piece ++ concat left ≡ concat chunks
  pub short : suc (length piece) ≤ min (remaining_input s) n
  pub some_left : NoneEmpty left
  pub reads : io_read script n (conn s chunks out) ≡ (
    done (ok (some (first ∷ piece))),
    record {
      session = record_bytes s (first ∷ piece);
      world = record { incoming = left; outgoing = out };
    },
  )

not_zero : (k : ℕ) → (suc k == 0) ≡ false
not_zero k = ground arith

rejoined :
    (k : ℕ) (chunk : Bytes) (chunks : List Bytes)
    → take k chunk ++ concat (keep (drop k chunk) chunks) ≡ chunk ++ concat chunks
rejoined k chunk chunks =
    ap (λ r. take k chunk ++ r) (concat-keep (drop k chunk) chunks)
    ∙ sym (append_assoc (take k chunk) (drop k chunk) (concat chunks))
    ∙ ap (λ r. r ++ concat chunks) (take-append-drop k chunk)

pub io_read-Yields :
    (n : ℕ) (s : SessionState) (chunk : Bytes) (chunks : List Bytes) (out : Bytes)
    → NoneEmpty (chunk ∷ chunks)
    → 0 < min (remaining_input s) n
    → Yields n s (chunk ∷ chunks) out
unfolding io_read
io_read-Yields n s [] chunks out a h = cc
io_read-Yields n s (b ∷ chunk) chunks out a h = read_some (min (remaining_input s) n) refl
  where
    read_some : (k : ℕ) → min (remaining_input s) n ≡ k → Yields n s ((b ∷ chunk) ∷ chunks) out
    read_some zero e = absurd (omega arith)
    read_some (suc k) e = record {
      first = b;
      piece = take k chunk;
      left = keep (drop k chunk) chunks;
      joined = ap (◌∷◌ b) (rejoined k chunk chunks);
      short = omega (arith, length-take k chunk);
      some_left = keep-NoneEmpty (drop k chunk) chunks a.1;
      reads = rw e (rw (not_zero k) refl);
    }

pub write_script :
    (bytes : Bytes) (s : SessionState) (chunks : List Bytes) (out : Bytes)
    → io_write script bytes (conn s chunks out) ≡ (
      done (ok tt),
      record { session = s; world = record { incoming = chunks; outgoing = out ++ bytes } },
    )
unfolding io_write
write_script bytes s chunks out = refl

-- The end of what the peer sends.
pub read_end :
    (n : ℕ) (s : SessionState) (out : Bytes)
    → 0 < min (remaining_input s) n
    → io_read script n (conn s [] out)
      ≡ (done (ok none), record { session = s; world = record { incoming = []; outgoing = out } })
unfolding io_read
read_end n s out h = ground arith

-- A session that may read all that the peer sends.
pub record CanRead (ls : Limits) (s : SessionState) (chunks : List Bytes) : Type 0 where
  pub good : Good ls s
  pub chunks_some : NoneEmpty chunks
  pub budget : length (concat chunks) < remaining_input s

pub Yields-CanRead :
    (ls : Limits) (n : ℕ) (s : SessionState) (chunks : List Bytes) (out : Bytes)
    → CanRead ls s chunks
    → (y : Yields n s chunks out)
    → CanRead ls (record_bytes s (y.first ∷ y.piece)) y.left
      × (remaining_input (record_bytes s (y.first ∷ y.piece)) < remaining_input s)
Yields-CanRead ls n s chunks out c y =
    let piece = y.first ∷ y.piece in
    let fits : length piece ≤ remaining_input s = omega (arith, y.short) in
    let spent = remaining_input-record_bytes s piece c.good.small c.good.inv.received fits in
    let total = ap length y.joined in
    (
      record {
        good = record_bytes-Good s piece fits c.good;
        chunks_some = y.some_left;
        budget = omega (arith, c.budget, spent, total, length-append piece (concat y.left));
      },
      omega (arith, spent),
    )

pub push_event-CanRead :
    {ls : Limits} (s : SessionState) (chunks : List Bytes) (event : SessionEvent)
    → CanRead ls s chunks
    → CanRead ls (push_event s event) chunks
push_event-CanRead s chunks event c = record {
  good = push_event-Good s event c.good;
  chunks_some = c.chunks_some;
  budget = rw push_event-remaining_input c.budget;
}
