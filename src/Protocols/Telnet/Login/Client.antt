-- ===== src/Protocols/Telnet/Login/Client.antt =====
-- What the decoy makes of a client that as to log in, however the network splits what it sends.
use honey_mind.Protocols.Telnet.Login.Typed.{
  Credentials, IsTyped, IsAttempt, end_with, logins, typed, IsRefused, login-Alike, Good-Alike,
  told, logins-Alike,
}
use honey_mind.Protocols.Raw.{with_banner}
use honey_mind.Config.Schema.{EndpointConfig}
use honey_mind.Protocols.Telnet.Line.Split.{drain_from-append}
use honey_mind.Protocols.Io.Script.{
  concat, Script, conn, CanRead, script, write_script, push_event-CanRead,
}
use honey_mind.Protocols.Telnet.Line.{LineReader, drain, new_reader, drain_from}
use honey_mind.Protocols.Io.Triples.{Limits, push_event-remaining_input, push_event-Good}
use honey_mind.Session.State.{SessionState, CloseReason, remaining_input}
use honey_mind.Protocols.Telnet.Line.RoundTrip.{drain-encode_line}
use honey_mind.Base.{
  length, Bytes, codes, ◌≤◌, ◌≡◌, sym, ap, ◌∙◌, Option, some, List, [], ◌∷◌, ◌++◌, arith, ok, ℕ,
  ◌<◌, refl, All, unwrap_or, option_map, none, append-nil, subst,
}
use honey_mind.Base.Utf8.{from_utf8_lossy}
use honey_mind.Protocols.Io.{Conn, Run, M, after}
use honey_mind.Protocols.Telnet.Login.{
  login, after_username, write_or_end, attempts, read_line, handle, end_line, max_attempts,
}
use honey_mind.Protocols.Telnet.Login.Reads.{between, WillRead, read_line-Reads}

typed-WillRead :
    (ls : Limits) (out line rest pending : Bytes) (chunks : List Bytes)
    → IsTyped line
    → pending ++ concat chunks ≡ end_with line rest
    → WillRead ls out line rest (drain (between pending)) chunks
typed-WillRead ls out line rest pending chunks t h =
    sym (drain_from-append pending (concat chunks) new_reader)
    ∙ ap (λ b. drain_from b new_reader) h
    ∙ drain-encode_line line rest t.0 t.1

-- The next round of the loop, after an attempt.
abbrev IsRetried :
    Limits
    → SessionState
    → SessionState
    → Bytes
    → Bytes
    → (LineReader → M Script CloseReason)
    → Run CloseReason × Conn Script
    → Type 0
IsRetried ls s t rest out again r =
    (s' : SessionState) × (left : List Bytes) × (pending : Bytes) × (r
      ≡ again (between pending) (conn s' left out))
    × (pending ++ concat left ≡ rest)
    × (s'.events ≡ t.events)
    × CanRead ls s' left
    × (remaining_input s' ≤ remaining_input s)

wrote :
    (bytes : Bytes) (more : M Script CloseReason) (s : SessionState) (chunks : List Bytes)
    (out : Bytes)
    → write_or_end script bytes more (conn s chunks out) ≡ more (conn s chunks (out ++ bytes))
wrote bytes more s chunks out = rw write_script refl

module _ (ls : Limits) (fuel : ℕ) (again : LineReader → M Script CloseReason) where
  -- From a username that has been read on.
  asked-IsRetried :
      (s : SessionState) (chunks : List Bytes) (pending out rest : Bytes) (a : Credentials)
      → IsAttempt a
      → CanRead ls s chunks
      → remaining_input s < fuel
      → pending ++ concat chunks ≡ end_with a.password rest
      → IsRetried ls s
          (logins (a ∷ []) s)
          rest
          ((out ++ codes "Password: ") ++ codes "Login incorrect\r\n")
          again
          (after_username script fuel again
            (ok (some a.username), between pending)
            (conn s chunks out))
  asked-IsRetried s chunks pending out rest a t c f h =
      let out' = out ++ codes "Password: " in
      let will = typed-WillRead ls out' a.password rest pending chunks t.typed_password h in
      let (s', left, pending', e, joined, events, c', le) =
        read_line-Reads ls out' a.password rest fuel s chunks (between pending) c f will in
      let events' =
        login-Alike (from_utf8_lossy a.username) (some (from_utf8_lossy a.password)) s' s
          (Good-Alike ls s' s c'.good c.good events) in
      (
        login (from_utf8_lossy a.username) (some (from_utf8_lossy a.password)) s',
        left,
        pending',
        rw (t.named, write_script, e, write_script) refl,
        joined,
        events'.0,
        push_event-CanRead s' left _ c',
        rw push_event-remaining_input le,
      )

  -- A round of the loop.
  attempt-IsRetried :
      (s : SessionState) (chunks : List Bytes) (pending prompt out rest : Bytes) (a : Credentials)
      → IsAttempt a
      → CanRead ls s chunks
      → remaining_input s < fuel
      → pending ++ concat chunks ≡ end_with a.username (end_with a.password rest)
      → IsRetried ls s
          (logins (a ∷ []) s)
          rest
          (((out ++ prompt) ++ codes "Password: ") ++ codes "Login incorrect\r\n")
          again
          (after
            (read_line script fuel (between pending) (conn s chunks (out ++ prompt)))
            (after_username script fuel again))
  attempt-IsRetried s chunks pending prompt out rest a t c f h =
      let more = end_with a.password rest in
      let will =
        typed-WillRead ls (out ++ prompt) a.username more pending chunks t.typed_username h in
      let (s1, left1, pending1, e1, joined1, events1, c1, le1) =
        read_line-Reads ls (out ++ prompt) a.username more fuel s chunks (between pending) c f
          will in
      let (s', left, pending', e, joined, events, c', le) =
        asked-IsRetried s1 left1 pending1 (out ++ prompt) rest a t c1 (omega arith) joined1 in
      let (same, q) =
        login-Alike (from_utf8_lossy a.username) (some (from_utf8_lossy a.password)) s1 s
          (Good-Alike ls s1 s c1.good c.good events1) in
      (s', left, pending', rw e1 e, joined, events ∙ same, c', omega (arith, le, le1))

module _ (ls : Limits) (fuel : ℕ) (prompt : Bytes) where
  attempts-IsRefused :
      (s : SessionState) (chunks : List Bytes) (pending out rest : Bytes) (tries : List Credentials)
      → All IsAttempt tries
      → CanRead ls s chunks
      → remaining_input s < fuel
      → pending ++ concat chunks ≡ typed tries rest
      → IsRefused ls
          (logins tries s)
          (told prompt tries out)
          (attempts script fuel (length tries) prompt (between pending) (conn s chunks out))
  unfolding attempts
  attempts-IsRefused s chunks pending out rest [] t c f h =
      (s, chunks, rw write_script refl, refl, c.good)
  attempts-IsRefused s chunks pending out rest (a ∷ tries) t c f h =
      let again = attempts script fuel (length tries) prompt in
      let (s', left, pending', e, joined, events, c', le) =
        attempt-IsRetried ls fuel again s chunks pending prompt out (typed tries rest) a t.0 c f
          h in
      let (s2, left2, e2, events2, g2) =
        attempts-IsRefused s' left pending'
          (((out ++ prompt) ++ codes "Password: ") ++ codes "Login incorrect\r\n") rest tries t.1 c'
          (omega arith) joined in
      let alike =
        Good-Alike ls s' (logins (a ∷ []) s) c'.good (push_event-Good s _ c.good) events in
      (
        s2,
        left2,
        rw (write_script, e) e2,
        events2 ∙ (logins-Alike tries s' (logins (a ∷ []) s) alike).0,
        g2,
      )

-- What the client gets before the first prompt.
abbrev pub telnet_banner : EndpointConfig → Bytes
telnet_banner ep = unwrap_or (option_map (end_line script) ep.banner) []

bannered :
    (banner : Option Bytes) (rest : M Script CloseReason) (s : SessionState) (chunks : List Bytes)
    (out : Bytes)
    → with_banner script banner rest (conn s chunks out)
      ≡ rest (conn s chunks (out ++ unwrap_or banner []))
bannered none rest s chunks out = ap (λ o. rest (conn s chunks o)) (sym (append-nil out))
bannered (some banner) rest s chunks out = rw write_script refl

-- However the network splits what a client sends, three attempts are refused: the server writes its banner,
-- ended by a newline, and for each attempt the prompt, the password prompt and `Login incorrect`; then it
-- says that there were too many and closes the session itself. The new events are the three logins, in
-- order, with the username and the password that were typed, as the session's privacy leaves them and as
-- far as its log has room. Both are lines of at most 256 bytes without a newline, as RFC 854 sends them, and
-- the username decodes to some text; the client may send anything behind them, and all of it is less
-- than the session, which is good, may still read. There is more fuel than the session may read.
pub handle-IsRefused :
    (ls : Limits) (ep : EndpointConfig) (fuel : ℕ) (s : SessionState) (chunks : List Bytes)
    (out rest : Bytes) (tries : List Credentials)
    → All IsAttempt tries
    → length tries ≡ max_attempts
    → CanRead ls s chunks
    → remaining_input s < fuel
    → concat chunks ≡ typed tries rest
    → IsRefused ls
        (logins tries s)
        (told (unwrap_or ep.login_prompt (codes "login: ")) tries (out ++ telnet_banner ep))
        (handle script fuel ep (conn s chunks out))
unfolding handle
handle-IsRefused ls ep fuel s chunks out rest tries t n c f h =
    let prompt = unwrap_or ep.login_prompt (codes "login: ") in
    let greeted = out ++ telnet_banner ep in
    rw bannered (
      subst
        (λ k.
          IsRefused ls (logins tries s) (told prompt tries greeted)
            (attempts script fuel k prompt new_reader (conn s chunks greeted)))
        n (attempts-IsRefused ls fuel prompt s chunks [] greeted rest tries t c f h))
