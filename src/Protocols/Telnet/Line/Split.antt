-- ===== src/Protocols/Telnet/Line/Split.antt =====
-- The reader of lines does not depend on how the network splits them.
use honey_mind.Base.{Bytes, ℕ, ◌≡◌, refl, [], ◌∷◌, ◌++◌, arith}
use honey_mind.Protocols.Telnet.Line.{
  LineReader, ByteStep, Drained, next, finished, overlong, on_byte, on_data, after_cr, on_plain,
  append, drain_from, need_more, line_read, line_too_long,
}

-- What follows stays behind a line, and is drained where there is none yet.
abbrev pub resume : Drained → Bytes → Drained
resume (need_more r) ys = drain_from ys r
resume (line_read line r) ys = line_read line (record r { pending = r.pending ++ ys })
resume (line_too_long r) ys = line_too_long (record r { pending = r.pending ++ ys })

step-append :
    (q : ByteStep) (xs ys : Bytes)
    → ((r : LineReader) → drain_from (xs ++ ys) r ≡ resume (drain_from xs r) ys)
    → (elim q as (λ _. Drained) [
      | next r' ↦ drain_from (xs ++ ys) r'
      | finished line r' ↦ line_read line (record r' { pending = xs ++ ys })
      | overlong r' ↦ line_too_long (record r' { pending = xs ++ ys })
    ])
      ≡ resume
          (elim q as (λ _. Drained) [
            | next r' ↦ drain_from xs r'
            | finished line r' ↦ line_read line (record r' { pending = xs })
            | overlong r' ↦ line_too_long (record r' { pending = xs })
          ])
          ys
step-append (next r) xs ys k = k r
step-append (finished line r) xs ys k = refl
step-append (overlong r) xs ys k = refl

pub drain_from-append :
    (xs ys : Bytes) (r : LineReader) → drain_from (xs ++ ys) r ≡ resume (drain_from xs r) ys
unfolding drain_from
drain_from-append [] ys r = refl
drain_from-append (x ∷ xs) ys r = step-append (on_byte r x) xs ys (drain_from-append xs ys)

pub drain_from-nil : (r : LineReader) → drain_from [] r ≡ need_more r
unfolding drain_from
drain_from-nil r = refl

-- A reader that has drained what it had has nothing pending.
abbrev Idle : ByteStep → Type 0
Idle (next r) = r.pending ≡ []
Idle _ = Unit {0}

on_byte-Idle : (r : LineReader) (byte : ℕ) → r.pending ≡ [] → Idle (on_byte r byte)
unfolding on_byte on_data after_cr on_plain append
on_byte-Idle r byte h = ground (arith, h)

abbrev pub IsDry : Drained → Type 0
IsDry (need_more r) = r.pending ≡ []
IsDry _ = Unit {0}

step-IsDry :
    (q : ByteStep) (xs : Bytes)
    → Idle q
    → ((r : LineReader) → r.pending ≡ [] → IsDry (drain_from xs r))
    → IsDry (elim q as (λ _. Drained) [
      | next r' ↦ drain_from xs r'
      | finished line r' ↦ line_read line (record r' { pending = xs })
      | overlong r' ↦ line_too_long (record r' { pending = xs })
    ])
step-IsDry (next r) xs h k = k r h
step-IsDry (finished line r) xs h k = tt
step-IsDry (overlong r) xs h k = tt

pub drain_from-IsDry : (xs : Bytes) (r : LineReader) → r.pending ≡ [] → IsDry (drain_from xs r)
unfolding drain_from
drain_from-IsDry [] r h = h
drain_from-IsDry (x ∷ xs) r h =
    step-IsDry (on_byte r x) xs (on_byte-Idle r x h) (drain_from-IsDry xs)
