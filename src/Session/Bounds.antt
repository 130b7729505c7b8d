-- ===== src/Session/Bounds.antt =====
-- What one session can store: bounded, and redacted as the configuration asks.
use honey_mind.Config.Address.{SocketAddr}
use honey_mind.Config.Schema.{
  PrivacyConfig, metadata, PrivacyMode, EndpointConfig, full, Config, is_full,
}
use honey_mind.Base.{
  leb, ◌==◌, Bool-cases, length, take, any, All, length-append, length-take, Bytes, ℕ, ◌-◌, ◌≤◌,
  min, ◌≡◌, refl, ◌⊎◌, inl, inr, Bool, true, false, ◌||◌, none, some, [], ◌∷◌, arith, All-append,
  Option, ◌++◌,
}
use honey_mind.Session.State.{
  SessionState, cut_query, push_event, record_bytes, redact, SessionEvent, max_events,
  remaining_input, http_request, u64_max, redacted, telnet_login, ssh_client_banner, notice_event,
  new_session, sat_add, redact_password,
}

-- The byte starts a query or a fragment.
abbrev pub is_mark : ℕ → Bool
is_mark b = b == b'?' || b == b'#'

-- What holds unless a flag is set.
abbrev pub Unless : Bool → Type 0 → Type 0
Unless true P = Unit {0}
Unless false P = P

-- What may be kept of an event under a configuration.
abbrev pub IsRedacted : PrivacyConfig → SessionEvent → Type 0
IsRedacted p (http_request method path version host user_agent) =
    Unless (is_full p.mode) ((any is_mark path ≡ false) × (host ≡ none) × (user_agent ≡ none))
    × Unless p.capture_http_path (path ≡ redacted)
IsRedacted p (telnet_login username password credentials_redacted) = Unless (is_full p.mode) (
    (username ≡ redacted)
    × ((password ≡ none) ⊎ (password ≡ some redacted))
    × (credentials_redacted ≡ true))
IsRedacted p (ssh_client_banner banner) = Unit
IsRedacted p (notice_event msg) = Unit

pub record Inv (s : SessionState) : Type 0 where
  pub received : s.bytes_received ≤ s.input_limit
  pub previewed : length s.preview ≤ s.preview_limit
  pub hidden : Unless (is_full s.privacy.mode) (s.preview ≡ [])
  pub few : length s.events ≤ max_events
  pub redacted_events : All (IsRedacted s.privacy) s.events

cut_query-no_mark : (path : Bytes) → any is_mark (cut_query path) ≡ false
unfolding cut_query
cut_query-no_mark [] = refl
cut_query-no_mark (b ∷ path) = ground (arith, cut_query-no_mark path)

pub Unless_intro : (b : Bool) (P : Type 0) → (b ≡ false → P) → Unless b P
Unless_intro true P h = tt
Unless_intro false P h = h refl

PrivacyMode-cases : (m : PrivacyMode) → (m ≡ metadata) ⊎ (m ≡ full)
PrivacyMode-cases metadata = inl refl
PrivacyMode-cases full = inr refl

redact-IsRedacted : (p : PrivacyConfig) (e : SessionEvent) → IsRedacted p (redact p e)
unfolding redact
redact-IsRedacted p (http_request m path v h u) = (
  Unless_intro (is_full p.mode) _ λ k. ground (arith, cut_query-no_mark path),
  Unless_intro p.capture_http_path _ λ k. ground arith,
)
redact-IsRedacted p (telnet_login u w r) = elim (PrivacyMode-cases p.mode) [
  | inl e ↦ simp e (refl, Option-hidden w, refl)
  | inr e ↦ simp e tt
]
  where
    Option-hidden :
        (o : Option Bytes) → (redact_password o ≡ none) ⊎ (redact_password o ≡ some redacted)
    Option-hidden none = inl refl
    Option-hidden (some b) = inr refl
redact-IsRedacted p (ssh_client_banner b) = tt
redact-IsRedacted p (notice_event msg) = tt

received-le :
    (s : SessionState) (n : ℕ)
    → s.input_limit ≤ u64_max
    → n ≤ remaining_input s
    → s.bytes_received ≤ s.input_limit
    → sat_add s.bytes_received n ≤ s.input_limit
unfolding remaining_input
received-le s n small h r = omega arith

previewed-le :
    (s : SessionState) (bytes : Bytes)
    → length s.preview ≤ s.preview_limit
    → length (s.preview ++ take (min (s.preview_limit - length s.preview) (length bytes)) bytes)
      ≤ s.preview_limit
previewed-le s bytes h =
    let room = min (s.preview_limit - length s.preview) (length bytes) in
    omega (arith, length-append s.preview (take room bytes), length-take room bytes)

-- A read that fits the budget keeps the invariant.
pub record_bytes-Inv :
    (s : SessionState) (bytes : Bytes)
    → s.input_limit ≤ u64_max
    → length bytes ≤ remaining_input s
    → Inv s
    → Inv (record_bytes s bytes)
unfolding record_bytes
record_bytes-Inv s bytes small h v = elim (PrivacyMode-cases s.privacy.mode) [
  | inl e ↦ simp e (record {
    received = received-le s (length bytes) small h v.received;
    previewed = v.previewed;
    hidden = v.hidden;
    few = v.few;
    redacted_events = v.redacted_events;
  })
  | inr e ↦ simp e (record {
    received = received-le s (length bytes) small h v.received;
    previewed = previewed-le s bytes v.previewed;
    hidden = rw e tt;
    few = v.few;
    redacted_events = v.redacted_events;
  })
]

pub push_event-Inv : (s : SessionState) (e : SessionEvent) → Inv s → Inv (push_event s e)
unfolding push_event
push_event-Inv s e v = elim (Bool-cases (leb max_events (length s.events))) [
  | inl k ↦ rw k (record {
    received = v.received;
    previewed = v.previewed;
    hidden = v.hidden;
    few = v.few;
    redacted_events = v.redacted_events;
  })
  | inr k ↦ rw k (record {
    received = v.received;
    previewed = v.previewed;
    hidden = v.hidden;
    few = ground (arith, length-append s.events (redact s.privacy e ∷ []));
    redacted_events =
        All-append (IsRedacted s.privacy) s.events (redact s.privacy e ∷ []) v.redacted_events
          (redact-IsRedacted s.privacy e, tt);
  })
]

pub new_session-Inv :
    (ep : EndpointConfig) (src dst : SocketAddr) (cfg : Config) (id started_at ts : ℕ)
    → Inv (new_session ep src dst cfg id started_at ts)
unfolding new_session
new_session-Inv ep src dst cfg id started_at ts = record {
  received = omega arith;
  previewed = omega arith;
  hidden = Unless_intro (is_full cfg.privacy.mode) _ λ m. refl;
  few = omega arith;
  redacted_events = tt;
}
