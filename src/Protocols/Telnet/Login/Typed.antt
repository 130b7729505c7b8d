-- ===== src/Protocols/Telnet/Login/Typed.antt =====
-- A client that tries to log in: what it sends, and how the session with it ends.
use honey_mind.Protocols.Io.Script.{Script, conn}
use honey_mind.Protocols.Telnet.Line.{max_line}
use honey_mind.Protocols.Io.Triples.{Limits, Good}
use honey_mind.Session.State.{SessionState, push_event, CloseReason, server_closed}
use honey_mind.Base.Utf8.{from_utf8_lossy}
use honey_mind.Protocols.Telnet.Line.RoundTrip.{encode_line, has_no_newline}
use honey_mind.Base.{
  length, is_empty, Bytes, codes, ◌≤◌, ◌≡◌, sym, ap, ◌∙◌, true, false, Option, some, List, [], ◌∷◌,
  ◌++◌, arith,
}
use honey_mind.Protocols.Telnet.Login.{login}
use honey_mind.Protocols.Io.{Run, Conn, done}

-- What a client sends for one attempt.
pub record Credentials : Type 0 where
  pub username : Bytes
  pub password : Bytes

abbrev pub IsTyped : Bytes → Type 0
IsTyped line = (has_no_newline line ≡ true) × (length line ≤ max_line)

-- Two lines that the reader takes, of which the first is not empty.
pub record IsAttempt (a : Credentials) : Type 0 where
  pub typed_username : IsTyped a.username
  pub typed_password : IsTyped a.password
  pub named : is_empty (from_utf8_lossy a.username) ≡ false

abbrev pub end_with : Bytes → Bytes → Bytes
end_with line rest = encode_line line ++ (b'\r' ∷ b'\n' ∷ rest)

-- The attempts on the wire, and what follows them.
abbrev pub typed : List Credentials → Bytes → Bytes
typed [] rest = rest
typed (a ∷ tries) rest = end_with a.username (end_with a.password (typed tries rest))

-- The session with an event for each attempt.
abbrev pub logins : List Credentials → SessionState → SessionState
logins [] s = s
logins (a ∷ tries) s =
    logins tries (login (from_utf8_lossy a.username) (some (from_utf8_lossy a.password)) s)

-- What the client has got after the attempts, when it had got `out` before.
abbrev pub told : Bytes → List Credentials → Bytes → Bytes
told prompt [] out = out ++ codes "Too many attempts. Disconnecting.\r\n"
told prompt (a ∷ tries) out =
    told prompt tries (((out ++ prompt) ++ codes "Password: ") ++ codes "Login incorrect\r\n")

-- The server ends the session, over the events and with the output that are given.
abbrev pub IsRefused : Limits → SessionState → Bytes → Run CloseReason × Conn Script → Type 0
IsRefused ls t out r =
    (s' : SessionState) × (left : List Bytes) × (r ≡ (done server_closed, conn s' left out))
    × (s'.events ≡ t.events)
    × Good ls s'

-- Two sessions that log alike.
abbrev pub Alike : SessionState → SessionState → Type 0
Alike s t = (s.events ≡ t.events) × (s.privacy ≡ t.privacy)

pub login-Alike :
    (u : Bytes) (p : Option Bytes) (s t : SessionState)
    → Alike s t
    → Alike (login u p s) (login u p t)
unfolding push_event
login-Alike u p s t (e, q) = (ground (arith, e, q), ground (arith, q))

pub logins-Alike :
    (tries : List Credentials) (s t : SessionState)
    → Alike s t
    → Alike (logins tries s) (logins tries t)
logins-Alike [] s t h = h
logins-Alike (a ∷ tries) s t h = logins-Alike tries _ _ (login-Alike _ _ s t h)

pub Good-Alike :
    (ls : Limits) (s t : SessionState) → Good ls s → Good ls t → s.events ≡ t.events → Alike s t
Good-Alike ls s t g g' e = (e, ap (λ l. l.privacy) (g.kept ∙ sym g'.kept))
