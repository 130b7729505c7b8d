-- ===== src/Protocols/Tests.antt =====
-- A decoy with a scripted peer, and the pieces of the protocols on concrete input.
use honey_mind.Protocols.Telnet.Login.Client.{handle-IsRefused}
use honey_mind.Base.Utf8.{from_utf8_lossy}
use honey_mind.Protocols.Telnet.Login.Typed.{Credentials, IsRefused, typed, IsAttempt, logins, told}
use honey_mind.Base.Text.{split_once}
use honey_mind.Base.{
  codes, length, take, length-take, Bytes, ℕ, ◌≤◌, ◌≡◌, refl, Option, none, List, [], ◌∷◌, ◌++◌,
  arith, All, zero, suc, true,
}
use honey_mind.Config.Address.{SocketAddr, v4}
use honey_mind.Config.Schema.{EndpointConfig, default_config, new_endpoint, telnet, ssh}
use honey_mind.Protocols.Dispatch
use honey_mind.Protocols.Io.{Stream, ReadResult, received, read_elapsed, written, Conn}
use honey_mind.Protocols.Io.Triples.{Ensures, Ended, Good, limits_of}
use honey_mind.Protocols.Ssh
use honey_mind.Protocols.Ssh.Client.{handle-IsDone, greeting}
use honey_mind.Protocols.Ssh.Ending.{IsDone, event_of, reason_of}
use honey_mind.Protocols.Ssh.Identification.{scan_of}
use honey_mind.Protocols.Io.Script.{CanRead, concat, conn, script}
use honey_mind.Protocols.Telnet.Decoder.{
  decode, plain, literal, escaped, negotiation, nil, decode-Encodes,
}
use honey_mind.Protocols.Telnet.Line.{new_reader, drain}
use honey_mind.Protocols.Telnet.Line
use honey_mind.Protocols.Telnet.Login
use honey_mind.Protocols.Telnet.Line.RoundTrip.{
  encode_line, drain-encode_line, is_overlong, drain-encode_line_too_long,
}
use honey_mind.Session.State.{SessionState, new_session, remaining_input}
use honey_mind.Session.Bounds.{new_session-Inv}

-- A peer that sends the chunks of a script, the part of each that the buffer holds, then nothing.
abbrev next_chunk : List Bytes → ℕ → ReadResult × List Bytes
next_chunk [] n = (read_elapsed, [])
next_chunk (c ∷ cs) n = (received (take n c), cs)

pub next_chunk-le :
    (w : List Bytes) (n : ℕ) (bytes : Bytes)
    → (next_chunk w n).0 ≡ received bytes
    → length bytes ≤ n
next_chunk-le [] n bytes e = ground arith
next_chunk-le (c ∷ cs) n bytes e = ground (arith, length-take n c)

abbrev pub scripted : Stream (List Bytes)
scripted = record { read = next_chunk; write = λ w bytes. (written, w); read_le = next_chunk-le }

abbrev pub address : SocketAddr
address = record { ip = v4 0x7f000001; port = 2323 }

abbrev pub decoy : EndpointConfig
decoy = new_endpoint address telnet

abbrev pub fresh_session : SessionState
fresh_session = new_session decoy address address default_config 1 10 20

abbrev pub no_reason : ℕ → Option Bytes
no_reason status = none

abbrev one_login : Conn (List Bytes)
one_login = record {
  session = fresh_session;
  world = codes "root\r\n" ∷ codes "12" ∷ codes "34\r\n" ∷ [];
}

pub fresh_session-Good : Good (limits_of fresh_session) fresh_session
unfolding new_session
fresh_session-Good = record {
  inv = new_session-Inv decoy address address default_config 1 10 20;
  kept = refl;
  small = omega arith;
}

handle-Ensures_example :
    Ensures
      (limits_of fresh_session)
      (Ended (limits_of fresh_session))
      (Dispatch.handle no_reason scripted 65537 decoy one_login)
unfolding new_session remaining_input
handle-Ensures_example =
    Dispatch.handle-Ensures no_reason scripted (limits_of fresh_session) 65537 decoy one_login
      fresh_session-Good (omega arith)

decode-Encodes_example :
    decode plain (1 ∷ 255 ∷ 255 ∷ 255 ∷ 251 ∷ 3 ∷ 2 ∷ []) ≡ (1 ∷ 255 ∷ 2 ∷ [], plain)
decode-Encodes_example = decode-Encodes (
    literal (omega arith)
      (escaped (negotiation (omega arith) (omega arith) (literal (omega arith) nil))))

drain-encode_line_example :
    drain (record new_reader {
      pending = encode_line (b'a' ∷ 255 ∷ b'\r' ∷ []) ++ (b'\r' ∷ b'\n' ∷ codes "next");
    })
    ≡ Line.line_read (b'a' ∷ 255 ∷ b'\r' ∷ []) (record new_reader { pending = codes "next" })
drain-encode_line_example =
    drain-encode_line (b'a' ∷ 255 ∷ b'\r' ∷ []) (codes "next") refl (omega arith)

abbrev repeated : ℕ → Bytes
repeated zero = []
repeated (suc n) = b'x' ∷ repeated n

drain-encode_line_too_long_example :
    is_overlong (drain (record new_reader { pending = encode_line (repeated 257) ++ [] })) ≡ true
drain-encode_line_too_long_example = drain-encode_line_too_long (repeated 257) [] refl (omega arith)

-- A client of the SSH decoy, which sends its line in two pieces, and more.
abbrev ssh_decoy : EndpointConfig
ssh_decoy = new_endpoint address ssh

abbrev ssh_pieces : List Bytes
ssh_pieces = codes "SSH-2." ∷ codes "0-x\r\nmore" ∷ []

ssh_pieces-CanRead : CanRead (limits_of fresh_session) fresh_session ssh_pieces
unfolding remaining_input new_session
ssh_pieces-CanRead = record {
  good = fresh_session-Good;
  chunks_some = (refl, (refl, tt));
  budget = omega arith;
}

handle-IsDone_example :
    let read = scan_of (concat ssh_pieces) (split_once b'\n' (concat ssh_pieces)) in
    IsDone
      (limits_of fresh_session)
      (reason_of read)
      (event_of read)
      fresh_session
      (greeting ssh_decoy)
      (Ssh.handle script 65537 ssh_decoy (conn fresh_session ssh_pieces []))
unfolding remaining_input new_session
handle-IsDone_example =
    handle-IsDone (limits_of fresh_session) ssh_decoy 65537 fresh_session ssh_pieces []
      ssh_pieces-CanRead (omega arith)

-- A client of the Telnet decoy, which tries three times, in three pieces.
abbrev three_tries : List Credentials
three_tries =
    record { username = codes "root"; password = codes "admin" }
    ∷ record { username = codes "root"; password = [] }
    ∷ record { username = codes "pi"; password = b'\r' ∷ 255 ∷ [] }
    ∷ []

abbrev telnet_pieces : List Bytes
telnet_pieces =
    codes "ro"
    ∷ codes "ot\r\nadmin\r\nroot\r"
    ∷ (codes "\n\r\npi\r\n\r" ++ 0 ∷ 255 ∷ 255 ∷ codes "\r\nls")
    ∷ []

telnet_pieces-CanRead : CanRead (limits_of fresh_session) fresh_session telnet_pieces
unfolding remaining_input new_session
telnet_pieces-CanRead = record {
  good = fresh_session-Good;
  chunks_some = (refl, (refl, (refl, tt)));
  budget = omega arith;
}

three_tries-IsAttempt : All IsAttempt three_tries
unfolding from_utf8_lossy
three_tries-IsAttempt = (
  record {
    typed_username = (refl, omega arith);
    typed_password = (refl, omega arith);
    named = refl;
  },
  (
    record {
      typed_username = (refl, omega arith);
      typed_password = (refl, omega arith);
      named = refl;
    },
    (
      record {
        typed_username = (refl, omega arith);
        typed_password = (refl, omega arith);
        named = refl;
      },
      tt,
    ),
  ),
)

telnet_pieces-typed : concat telnet_pieces ≡ typed three_tries (codes "ls")
unfolding encode_line
telnet_pieces-typed = refl

handle-IsRefused_example :
    IsRefused
      (limits_of fresh_session)
      (logins three_tries fresh_session)
      (told (codes "login: ") three_tries [])
      (Login.handle script 65537 decoy (conn fresh_session telnet_pieces []))
unfolding remaining_input new_session
handle-IsRefused_example =
    handle-IsRefused (limits_of fresh_session) decoy 65537 fresh_session telnet_pieces []
      (codes "ls") three_tries three_tries-IsAttempt refl telnet_pieces-CanRead (omega arith)
      telnet_pieces-typed
