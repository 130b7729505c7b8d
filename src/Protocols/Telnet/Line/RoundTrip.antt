-- ===== src/Protocols/Telnet/Line/RoundTrip.antt =====
-- Lines: what the reader makes of a line that a client sends as RFC 854 says, and its bounds.
use honey_mind.Protocols.Telnet.Decoder.{plain, feed}
use honey_mind.Base.{
  ◌==◌, if◌then◌else◌, length, all, Bytes, ℕ, ◌+◌, ◌≤◌, ◌<◌, ◌≡◌, refl, ◌∙◌, ◌≢◌, true, false, not,
  [], ◌∷◌, ◌++◌, arith, length-append, sym, ap, Bool, append-nil, append_assoc,
}
use native.Mathlib.Decide.{dec_lt}
use honey_mind.Protocols.Telnet.Line.{
  LineReader, drain_from, max_line, on_byte, line_read, on_data, after_cr, new_reader, on_plain,
  append, line_too_long, Drained, drain,
}

-- A line on the wire: a CR is followed by NUL, and a byte 255 is doubled.
unfoldable pub encode_line : Bytes → Bytes
encode_line [] = []
encode_line (b ∷ l) =
    if b == b'\r'
    then b'\r' ∷ 0 ∷ encode_line l
    else if b == 255
    then 255 ∷ 255 ∷ encode_line l
    else b ∷ encode_line l

-- A reader between two bytes of a line.
abbrev ready : Bytes → LineReader
ready line = record { pending = []; decoder = plain; line = line; pending_cr = false }

drain-byte :
    (b : ℕ) (l rest line : Bytes)
    → b ≢ b'\n'
    → length line < max_line
    → drain_from (encode_line (b ∷ l) ++ rest) (ready line)
      ≡ drain_from (encode_line l ++ rest) (ready (line ++ b ∷ []))
unfolding drain_from on_byte on_data after_cr on_plain append feed encode_line
drain-byte b l rest line n h = ground arith

abbrev pub is_overlong : Drained → Bool
is_overlong (line_too_long r) = true
is_overlong _ = false

drain-overlong :
    (b : ℕ) (l rest line : Bytes)
    → b ≢ b'\n'
    → max_line ≤ length line
    → is_overlong (drain_from (encode_line (b ∷ l) ++ rest) (ready line)) ≡ true
unfolding drain_from on_byte on_data after_cr on_plain append feed encode_line
drain-overlong b l rest line n h = ground arith

drain-end :
    (rest line : Bytes)
    → drain_from (b'\r' ∷ b'\n' ∷ rest) (ready line)
      ≡ line_read line (record new_reader { pending = rest })
unfolding drain_from on_byte on_data after_cr on_plain append feed
drain-end rest line = refl

abbrev pub has_no_newline : Bytes → Bool
has_no_newline = all (λ b. not (b == b'\n'))

drain-encode_line_from :
    (l rest line : Bytes)
    → has_no_newline l ≡ true
    → length line + length l ≤ max_line
    → drain_from (encode_line l ++ (b'\r' ∷ b'\n' ∷ rest)) (ready line)
      ≡ line_read (line ++ l) (record new_reader { pending = rest })
drain-encode_line_from [] rest line n h =
    unfold encode_line in
    drain-end rest line
    ∙ ap (λ t. line_read t (record new_reader { pending = rest })) (sym (append-nil line))
drain-encode_line_from (b ∷ l) rest line n h =
    let grown = length-append line (b ∷ []) in
    drain-byte b l (b'\r' ∷ b'\n' ∷ rest) line (ground arith) (omega arith)
    ∙ drain-encode_line_from l rest (line ++ b ∷ []) (ground arith) (omega arith)
    ∙ ap (λ t. line_read t (record new_reader { pending = rest })) (append_assoc line (b ∷ []) l)

drain-encode_line_overlong :
    (l rest line : Bytes)
    → has_no_newline l ≡ true
    → length line ≤ max_line
    → max_line < length line + length l
    → is_overlong (drain_from (encode_line l ++ rest) (ready line)) ≡ true
drain-encode_line_overlong [] rest line n k h = absurd (omega arith)
drain-encode_line_overlong (b ∷ l) rest line n k h = elim (dec_lt (length line) max_line) [
  | yes room ↦
      let grown = length-append line (b ∷ []) in
      rw (drain-byte b l rest line (ground arith) room) (
        drain-encode_line_overlong l rest (line ++ b ∷ []) (ground arith) (omega arith)
          (omega arith))
  | no full' ↦ drain-overlong b l rest line (ground arith) (omega arith)
]

-- A new reader gives back every line of at most 256 bytes with no newline in it, as RFC 854 sends
-- it: CR as CR NUL, 255 doubled, and CR LF at the end. What came behind the line stays pending.
pub drain-encode_line :
    (l rest : Bytes)
    → has_no_newline l ≡ true
    → length l ≤ max_line
    → drain (record new_reader { pending = encode_line l ++ (b'\r' ∷ b'\n' ∷ rest) })
      ≡ line_read l (record new_reader { pending = rest })
drain-encode_line l rest n h = drain-encode_line_from l rest [] n (omega arith)

-- A new reader refuses every line of more than 256 bytes with no newline in it, as RFC 854 sends it,
-- whatever follows.
pub drain-encode_line_too_long :
    (l rest : Bytes)
    → has_no_newline l ≡ true
    → max_line < length l
    → is_overlong (drain (record new_reader { pending = encode_line l ++ rest })) ≡ true
drain-encode_line_too_long l rest n h =
    drain-encode_line_overlong l rest [] n (omega arith) (omega arith)
