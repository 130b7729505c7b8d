-- ===== src/Protocols/Ssh.antt =====
-- src/protocols/ssh.rs: the identification line of RFC 4253, and nothing behind it.
pub mod Identification
pub mod Total
pub mod Ending
pub mod Client
use honey_mind.Base.Utf8.{from_utf8_lossy}
use honey_mind.Protocols.Raw.{with_banner}
use honey_mind.Config.Schema.{EndpointConfig}
use honey_mind.Session.State.{
  CloseReason, client_closed, protocol_error, push_event, ssh_client_banner,
}
use honey_mind.Base.{
  leb, ◌==◌, within, if◌then◌else◌, unwrap_or, length, is_empty, all, Bytes, codes, ok, err, ℕ,
  zero, suc, Bool, true, false, not, ◌&&◌, Option, none, some, [], ◌∷◌, ◌++◌,
}
use honey_mind.Protocols.Io.{
  ◌>>=◌, ◌>>◌, Stream, M, return, ReadOutcome, out_of_fuel, refuse, io_read, modify,
}

abbrev pub default_banner : Bytes
default_banner = codes "SSH-2.0-OpenSSH_9.6"

abbrev pub max_identification_bytes : ℕ
max_identification_bytes = 255

-- `strip_suffix` of one byte
pub strip_last : ℕ → Bytes → Bytes
strip_last b [] = []
strip_last b (x ∷ []) = if x == b then [] else x ∷ []
strip_last b (x ∷ y ∷ xs) = x ∷ strip_last b (y ∷ xs)

-- `strip_prefix`
pub strip_prefix : Bytes → Bytes → Option Bytes
strip_prefix [] b = some b
strip_prefix (x ∷ p) [] = none
strip_prefix (x ∷ p) (y ∷ b) = if x == y then strip_prefix p b else none

abbrev or_else : Option Bytes → Option Bytes → Option Bytes
or_else none o = o
or_else (some a) o = some a

-- `!value.is_empty() && value[0] != b' '`
abbrev is_software : Option Bytes → Bool
is_software none = false
is_software (some []) = false
is_software (some (b ∷ value)) = not (b == b' ')

unfoldable pub valid_identification : Bytes → Bool
unfolding strip_prefix
valid_identification line =
    let software =
      or_else (strip_prefix (codes "SSH-2.0-") line) (strip_prefix (codes "SSH-1.99-") line) in
    is_software software && all (within 0x20 0x7e) line

-- What the loop over a chunk comes to: the line of the client without its end, too many bytes, or
-- the bytes so far.
pub data Scan : Type 0 where
  line_found : Bytes → Scan
  too_long : Scan
  incomplete : Bytes → Scan

pub scan : Bytes → Bytes → Scan
scan identification [] = incomplete identification
scan identification (b ∷ chunk) =
    let pushed = identification ++ b ∷ [] in
    let rest = scan pushed chunk in
    if b == b'\n'
    then line_found (strip_last b'\r' (strip_last b'\n' pushed))
    else if leb max_identification_bytes (length pushed)
    then too_long
    else rest

-- The event of a line, or the notice that refuses it.
abbrev pub after_line : {W : Type 0} → Bytes → M W CloseReason → M W CloseReason
after_line line more =
    if not (valid_identification line)
    then refuse "ssh_invalid_identification" protocol_error
    else (modify (λ s. push_event s (ssh_client_banner (from_utf8_lossy line))) >> more)

-- What a chunk that is read before the identification leads to; `again` goes on reading.
abbrev pub after_scan : {W : Type 0} → Scan → (Bytes → Bool → M W CloseReason) → M W CloseReason
after_scan (line_found line) again = after_line line (again [] true)
after_scan too_long again = refuse "ssh_identification_too_long" protocol_error
after_scan (incomplete identification) again = again identification false

-- The `match` on a read.
abbrev pub ident_next :
    {W : Type 0} → Bytes → Bool → (Bytes → Bool → M W CloseReason) → ReadOutcome → M W CloseReason
ident_next identification identified again (ok none) =
    if not identified && not (is_empty identification)
    then refuse "ssh_incomplete_identification" client_closed
    else return client_closed
ident_next identification identified again (ok (some chunk)) =
    if identified then again identification true else after_scan (scan identification chunk) again
ident_next identification identified again (err reason) = return reason

module _ {W : Type 0} (stream : Stream W) where
  pub ident_loop : ℕ → Bytes → Bool → M W CloseReason
  ident_loop zero identification identified = out_of_fuel
  ident_loop (suc fuel) identification identified = do
    r ← io_read stream 4096
    ident_next identification identified (ident_loop fuel) r

  -- The default banner of an endpoint that has none; the line ends in CR LF.
  unfoldable pub handle : ℕ → EndpointConfig → M W CloseReason
  unfolding ident_loop
  handle fuel ep =
      let banner = unwrap_or ep.banner default_banner ++ (b'\r' ∷ b'\n' ∷ []) in
      with_banner stream (some banner) (ident_loop fuel [] false)
