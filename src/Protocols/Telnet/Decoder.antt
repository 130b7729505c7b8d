-- ===== src/Protocols/Telnet/Decoder.antt =====
-- src/protocols/telnet.rs: `TelnetDecoder`, and what it makes of a stream.
use honey_mind.Base.{
  ◌==◌, within, if◌then◌else◌, Bytes, ℕ, ◌≤◌, ◌<◌, ◌≡◌, refl, ◌∙◌, ◌≢◌, Option, none, some, [], ◌∷◌,
  ◌++◌, arith,
}

-- `DecodeState`; `option_code` is `Option`.
pub data DecodeState : Type 0 where
  plain iac option_code subnegotiation subnegotiation_iac : DecodeState

-- `TelnetDecoder::feed`: the next state, and the byte of data if there is one.
unfoldable pub feed : DecodeState → ℕ → DecodeState × Option ℕ
feed plain b = if b == 255 then (iac, none) else (plain, some b)
feed iac b =
    if b == 255
    then (plain, some 255)
    else if within 251 254 b
    then (option_code, none)
    else if b == 250
    then (subnegotiation, none)
    else (plain, none)
feed option_code b = (plain, none)
feed subnegotiation b = if b == 255 then (subnegotiation_iac, none) else (subnegotiation, none)
feed subnegotiation_iac b = if b == 240 then (plain, none) else (subnegotiation, none)

-- The data of a stream, and the state at its end.
pub decode : DecodeState → Bytes → Bytes × DecodeState
decode s [] = ([], s)
decode s (b ∷ bytes) =
    let (s', o) = feed s b in
    let (out, last) = decode s' bytes in (elim o [ none ↦ out | some d ↦ d ∷ out ], last)

-- The parameters of a subnegotiation: 255 is followed by any byte but 240.
pub data Parameters : Bytes → Type 0 where
  nil : Parameters []
  byte : {b : ℕ} {bytes : Bytes} → b ≢ 255 → Parameters bytes → Parameters (b ∷ bytes)
  pair : {b : ℕ} {bytes : Bytes} → b ≢ 240 → Parameters bytes → Parameters (255 ∷ b ∷ bytes)

-- RFC 854: `Encodes data stream` tells that the stream carries the data, with commands between.
pub data Encodes : Bytes → Bytes → Type 0 where
  nil : Encodes [] []
  literal :
      {b : ℕ} {payload stream : Bytes}
      → b ≢ 255
      → Encodes payload stream
      → Encodes (b ∷ payload) (b ∷ stream)
  -- a byte 255 of data is doubled
  escaped :
      {payload stream : Bytes}
      → Encodes payload stream
      → Encodes (255 ∷ payload) (255 ∷ 255 ∷ stream)
  -- a command of two bytes
  command :
      {b : ℕ} {payload stream : Bytes}
      → b < 250
      → Encodes payload stream
      → Encodes payload (255 ∷ b ∷ stream)
  -- WILL, WONT, DO or DONT, with an option
  negotiation :
      {verb option : ℕ} {payload stream : Bytes}
      → 251 ≤ verb
      → verb ≤ 254
      → Encodes payload stream
      → Encodes payload (255 ∷ verb ∷ option ∷ stream)
  -- IAC SB, the parameters, IAC SE
  parameters :
      {params payload stream : Bytes}
      → Parameters params
      → Encodes payload stream
      → Encodes payload (255 ∷ 250 ∷ (params ++ (255 ∷ 240 ∷ stream)))

decode-Parameters :
    {params : Bytes} (stream : Bytes)
    → Parameters params
    → decode subnegotiation (params ++ (255 ∷ 240 ∷ stream)) ≡ decode plain stream
unfolding decode feed
decode-Parameters stream nil = refl
decode-Parameters stream (byte {b} {bytes} h p) = ground (arith, decode-Parameters stream p)
decode-Parameters stream (pair {b} {bytes} h p) = ground (arith, decode-Parameters stream p)

-- The decoder gives back the data of every stream that is encoded as RFC 854 says, and is then
-- ready for the next byte: it strips commands, negotiations and subnegotiations, and nothing else.
pub decode-Encodes :
    {payload stream : Bytes} → Encodes payload stream → decode plain stream ≡ (payload, plain)
unfolding decode feed
decode-Encodes nil = refl
decode-Encodes (literal {b} {payload} {stream} h e) = ground (arith, decode-Encodes e)
decode-Encodes (escaped {payload} {stream} e) = ground (arith, decode-Encodes e)
decode-Encodes (command {b} {payload} {stream} h e) = ground (arith, decode-Encodes e)
decode-Encodes (negotiation {verb} {option} {payload} {stream} h k e) =
    ground (arith, decode-Encodes e)
decode-Encodes (parameters {params} {payload} {stream} p e) =
    decode-Parameters stream p ∙ decode-Encodes e
