-- ===== src/Session/Privacy.antt =====
-- What the privacy configuration keeps out of a session's state: in metadata mode two sessions that
-- differ in secrets only leave the same record.
use honey_mind.Config.Schema.{metadata, PrivacyConfig}
use honey_mind.Base.{
  is_some, length, Bytes, ℕ, ◌≡◌, refl, ap, ◌∙◌, Bool, Option, List, [], ◌∷◌, arith,
}
use honey_mind.Session.State.{
  SessionState, CloseReason, SessionEvent, cut_query, push_event, record_bytes, redact, finalize,
  http_request, telnet_login,
}

-- What a protocol handler does to its session.
pub data Action : Type 0 where
  receives : Bytes → Action
  pushes : SessionEvent → Action

pub act : SessionState → Action → SessionState
act s (receives bytes) = record_bytes s bytes
act s (pushes event) = push_event s event

pub acts : SessionState → List Action → SessionState
acts s [] = s
acts s (a ∷ as') = acts (act s a) as'

-- Actions that differ in what is secret: the bytes themselves, the query of a path, the host, the
-- user agent, the user name and the password.
pub data Alike : Action → Action → Type 0 where
  same : {a : Action} → Alike a a
  payload : {a b : Bytes} → length a ≡ length b → Alike (receives a) (receives b)
  headers :
      {m v p q : Bytes} {h i u w : Option Bytes}
      → cut_query p ≡ cut_query q
      → Alike (pushes (http_request m p v h u)) (pushes (http_request m q v i w))
  credentials :
      {u v : Bytes} {p q : Option Bytes} {r t : Bool}
      → is_some p ≡ is_some q
      → Alike (pushes (telnet_login u p r)) (pushes (telnet_login v q t))

pub data AllAlike : List Action → List Action → Type 0 where
  nil : AllAlike [] []
  cons :
      {a b : Action} {as' bs : List Action}
      → Alike a b
      → AllAlike as' bs
      → AllAlike (a ∷ as') (b ∷ bs)

redact-headers :
    (c : PrivacyConfig) (m v p q : Bytes) (h i u w : Option Bytes)
    → c.mode ≡ metadata
    → cut_query p ≡ cut_query q
    → redact c (http_request m p v h u) ≡ redact c (http_request m q v i w)
unfolding redact
redact-headers c m v p q h i u w e k = ground arith

redact-credentials :
    (c : PrivacyConfig) (u v : Bytes) (p q : Option Bytes) (r t : Bool)
    → c.mode ≡ metadata
    → is_some p ≡ is_some q
    → redact c (telnet_login u p r) ≡ redact c (telnet_login v q t)
unfolding redact
redact-credentials c u v p q r t e k = ground arith

push_event-redact :
    (s : SessionState) (e f : SessionEvent)
    → redact s.privacy e ≡ redact s.privacy f
    → push_event s e ≡ push_event s f
unfolding push_event
push_event-redact s e f k = rw k

record_bytes-length :
    (s : SessionState) (a b : Bytes)
    → s.privacy.mode ≡ metadata
    → length a ≡ length b
    → record_bytes s a ≡ record_bytes s b
unfolding record_bytes
record_bytes-length s a b m k = ground arith

act-Alike :
    (s : SessionState) {a b : Action} → s.privacy.mode ≡ metadata → Alike a b → act s a ≡ act s b
unfolding act
act-Alike s m same = refl
act-Alike s m (payload {a} {b} k) = record_bytes-length s a b m k
act-Alike s m (headers {m = me} {v} {p} {q} {h} {i} {u} {w} k) =
    push_event-redact s _ _ (redact-headers s.privacy me v p q h i u w m k)
act-Alike s m (credentials {u} {v} {p} {q} {r} {t} k) =
    push_event-redact s _ _ (redact-credentials s.privacy u v p q r t m k)

pub act-privacy : (s : SessionState) (a : Action) → (act s a).privacy ≡ s.privacy
unfolding act record_bytes push_event
act-privacy s (receives bytes) = ground arith
act-privacy s (pushes event) = ground arith

acts-AllAlike :
    (s : SessionState) {as' bs : List Action}
    → s.privacy.mode ≡ metadata
    → AllAlike as' bs
    → acts s as' ≡ acts s bs
unfolding acts
acts-AllAlike s m nil = refl
acts-AllAlike s m (cons {a} {b} {as'} {bs} h t) =
    acts-AllAlike (act s a) (ap (λ p. p.mode) (act-privacy s a) ∙ m) t
    ∙ ap (λ r. acts r bs) (act-Alike s m h)

-- In metadata mode the record of a session does not depend on secrets. Two sequences of reads and
-- events leave the same record if they agree in the lengths of the chunks, in all events but HTTP
-- requests and logins, in the method, the version and the path before its query of each request, and
-- in whether each login has a password.
pub finalize-AllAlike :
    (hex_encode : Bytes → Bytes) (s : SessionState) (as' bs : List Action) (reason : CloseReason)
    (now : ℕ)
    → s.privacy.mode ≡ metadata
    → AllAlike as' bs
    → finalize hex_encode (acts s as') reason now ≡ finalize hex_encode (acts s bs) reason now
finalize-AllAlike hex_encode s as' bs reason now m h =
    ap (λ r. finalize hex_encode r reason now) (acts-AllAlike s m h)
