-- ===== src/Protocols/Telnet/Line.antt =====
-- src/protocols/telnet.rs: `LineReader`, on the bytes that it has; reading more is in Login.
pub mod RoundTrip
pub mod Split
use honey_mind.Protocols.Telnet.Decoder.{DecodeState, feed, plain}
use honey_mind.Base.{
  leb, ◌==◌, if◌then◌else◌, length, Bytes, ℕ, Bool, true, false, Option, none, some, [], ◌∷◌, ◌++◌,
}

abbrev pub max_line : ℕ
max_line = 256

pub record LineReader : Type 0 where
  pub pending : Bytes
  pub decoder : DecodeState
  pub line : Bytes
  pub pending_cr : Bool

abbrev pub new_reader : LineReader
new_reader = record { pending = []; decoder = plain; line = []; pending_cr = false }

-- `append`: `none` is the line that is too long.
pub append : LineReader → ℕ → Option LineReader
append r byte =
    if leb max_line (length r.line) then none else some (record r { line = r.line ++ byte ∷ [] })

-- What a byte leads to: the next byte, a line, or the failure of `append`.
pub data ByteStep : Type 0 where
  next : LineReader → ByteStep
  finished : Bytes → LineReader → ByteStep
  overlong : LineReader → ByteStep

-- `self.append(byte, state)?`, and what follows
abbrev pub appended : LineReader → ℕ → (LineReader → ByteStep) → ByteStep
appended r byte more = elim (append r byte) [ none ↦ overlong r | some r' ↦ more r' ]

-- `std::mem::take(&mut self.line)`
abbrev pub take_line : LineReader → ByteStep
take_line r = finished r.line (record r { line = [] })

-- the `match byte` at the end of the loop's body
pub on_plain : LineReader → ℕ → ByteStep
on_plain r byte =
    if byte == b'\r'
    then next (record r { pending_cr = true })
    else if byte == b'\n'
    then take_line r
    else appended r byte next

-- A byte of data after a CR: the end of a line, or a literal CR, which a NUL only completes.
pub after_cr : LineReader → ℕ → ByteStep
after_cr r byte =
    if byte == b'\n'
    then take_line r
    else appended r b'\r' (λ q. if byte == 0 then next q else on_plain q byte)

-- A byte of data.
pub on_data : LineReader → ℕ → ByteStep
on_data r byte =
    if r.pending_cr then after_cr (record r { pending_cr = false }) byte else on_plain r byte

-- A byte of the stream, through the decoder.
pub on_byte : LineReader → ℕ → ByteStep
on_byte r byte =
    let (s, o) = feed r.decoder byte in
    let r' = record r { decoder = s } in elim o [ none ↦ next r' | some d ↦ on_data r' d ]

-- What the bytes at hand come to: a line, with the bytes behind it still pending, a line that is
-- too long, or no line yet.
pub data Drained : Type 0 where
  line_read : Bytes → LineReader → Drained
  line_too_long : LineReader → Drained
  need_more : LineReader → Drained

pub drain_from : Bytes → LineReader → Drained
drain_from [] r = need_more r
drain_from (byte ∷ rest) r = elim (on_byte r byte) [
  | next r' ↦ drain_from rest r'
  | finished line r' ↦ line_read line (record r' { pending = rest })
  | overlong r' ↦ line_too_long (record r' { pending = rest })
]

-- `while let Some(byte) = self.pending.pop_front()`
abbrev pub drain : LineReader → Drained
drain r = drain_from r.pending (record r { pending = [] })
