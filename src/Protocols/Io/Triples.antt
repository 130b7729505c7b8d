-- ===== src/Protocols/Io/Triples.antt =====
-- Total correctness of handlers: what a run ensures of the session, on every path, with enough fuel.
use honey_mind.Config.Schema.{PrivacyConfig}
use honey_mind.Session.State.{
  SessionState, push_event, remaining_input, u64_max, SessionEvent, record_bytes, CloseReason,
  lifetime_limit, shut_down,
}
use honey_mind.Base.{
  ◌≤◌, ◌==◌, Bool-cases, length, Bytes, ok, err, ℕ, ◌+◌, ◌<◌, min, ◌≡◌, refl, inl, inr, none, some,
  [], ◌∷◌, arith, Result, ◌∙◌,
}
use honey_mind.Session.Bounds.{Inv, record_bytes-Inv, push_event-Inv}
use honey_mind.Protocols.Io.{
  Conn, Run, done, dropped, M, ReadOutcome, Stream, after, after_read, io_read, io_write,
  ReadResult, after_write, WriteResult, received, read_dropped, write_dropped, read_failed, starved,
  written, read_elapsed, write_failed, write_elapsed,
}

-- What a session is given, and no handler changes.
pub record Limits : Type 0 where
  pub input : ℕ
  pub preview : ℕ
  pub privacy : PrivacyConfig

abbrev pub limits_of : SessionState → Limits
limits_of s = record { input = s.input_limit; preview = s.preview_limit; privacy = s.privacy }

-- The invariant that every handler keeps. A limit is a `usize`.
pub record Good (ls : Limits) (s : SessionState) : Type 0 where
  pub inv : Inv s
  pub kept : limits_of s ≡ ls
  pub small : s.input_limit ≤ u64_max

-- A run that ends by itself has `Q` of its result; a dropped one leaves a good session; a run that
-- is out of fuel ensures nothing.
abbrev pub Ensures : {A W : Type 0} → Limits → (A → SessionState → Type 0) → Run A × Conn W → Type 0
Ensures ls Q (done a, c) = Q a c.session
Ensures ls Q (dropped i, c) = Good ls c.session
Ensures ls Q (starved, c) = ⊥

-- A run, and what goes on from its result.
pub after-Ensures :
    (ls : Limits) {A B W : Type 0} (Q : A → SessionState → Type 0) (R : B → SessionState → Type 0)
    (x : Run A × Conn W) (f : A → M W B)
    → Ensures ls Q x
    → ((a : A) (c : Conn W) → Q a c.session → Ensures ls R (f a c))
    → Ensures ls R (after x f)
after-Ensures ls Q R (done a, c) f h k = k a c h
after-Ensures ls Q R (dropped i, c) f h k = h
after-Ensures ls Q R (starved, c) f h k = absurd h

-- What is left of the budget: nothing when a read changes it but the bytes read.
pub remaining_input-record_bytes :
    (s : SessionState) (bytes : Bytes)
    → s.input_limit ≤ u64_max
    → s.bytes_received ≤ s.input_limit
    → length bytes ≤ remaining_input s
    → remaining_input (record_bytes s bytes) + length bytes ≡ remaining_input s
unfolding remaining_input record_bytes
remaining_input-record_bytes s bytes small r h = ground arith

pub push_event-remaining_input :
    (s : SessionState) (e : SessionEvent) → remaining_input (push_event s e) ≡ remaining_input s
unfolding remaining_input push_event
push_event-remaining_input s e = ground arith

limits_of-push_event :
    (s : SessionState) (e : SessionEvent) → limits_of (push_event s e) ≡ limits_of s
unfolding push_event
limits_of-push_event s e = ground arith

limits_of-record_bytes :
    (s : SessionState) (bytes : Bytes) → limits_of (record_bytes s bytes) ≡ limits_of s
unfolding record_bytes
limits_of-record_bytes s bytes = ground arith

pub push_event-Good :
    {ls : Limits} (s : SessionState) (e : SessionEvent) → Good ls s → Good ls (push_event s e)
unfolding push_event
push_event-Good s e g = record {
  kept = limits_of-push_event s e ∙ g.kept;
  inv = push_event-Inv s e g.inv;
  small = ground (arith, g.small);
}

pub record_bytes-Good :
    {ls : Limits} (s : SessionState) (bytes : Bytes)
    → length bytes ≤ remaining_input s
    → Good ls s
    → Good ls (record_bytes s bytes)
unfolding record_bytes
record_bytes-Good s bytes h g = record {
  kept = limits_of-record_bytes s bytes ∙ g.kept;
  inv = record_bytes-Inv s bytes g.small h g.inv;
  small = ground (arith, g.small);
}

-- The reasons that a handler gives; the others are the supervisor's.
abbrev pub IsOwn : CloseReason → Type 0
IsOwn lifetime_limit = ⊥
IsOwn shut_down = ⊥
IsOwn _ = Unit {0}

-- What a handler ends in.
abbrev pub Ended : Limits → CloseReason → SessionState → Type 0
Ended ls reason s = IsOwn reason × Good ls s

-- A read of some bytes takes them from the budget; any other leaves the budget as it was.
abbrev pub AfterRead : Limits → SessionState → ℕ → ReadOutcome → SessionState → Type 0
AfterRead ls s n (ok (some bytes)) s' =
    Good ls s' × (remaining_input s' < remaining_input s) × (length bytes ≤ n)
AfterRead ls s n (ok none) s' = Good ls s' × (remaining_input s' ≤ remaining_input s)
AfterRead ls s n (err e) s' = IsOwn e × Good ls s' × (remaining_input s' ≤ remaining_input s)

abbrev pub AfterWrite :
    Limits → SessionState → Result (Unit {0}) CloseReason → SessionState → Type 0
AfterWrite ls s (ok _) s' = Good ls s' × (remaining_input s' ≤ remaining_input s)
AfterWrite ls s (err e) s' = IsOwn e × Good ls s' × (remaining_input s' ≤ remaining_input s)

module _ (ls : Limits) {W : Type 0} (stream : Stream W) where
  after_read-Ensures :
      (r : ReadResult) (n : ℕ) (c : Conn W)
      → Good ls c.session
      → ((bytes : Bytes) → r ≡ received bytes → length bytes ≤ min (remaining_input c.session) n)
      → Ensures ls (AfterRead ls c.session n) (after_read stream r c)
  unfolding after_read
  after_read-Ensures (received []) n c g h = (g, omega arith)
  after_read-Ensures (received (b ∷ bytes)) n c g h =
      let fits = h (b ∷ bytes) refl in
      let spent =
        remaining_input-record_bytes c.session (b ∷ bytes) g.small g.inv.received (omega arith) in
      (record_bytes-Good c.session (b ∷ bytes) (omega arith) g, omega arith, omega arith)
  after_read-Ensures read_failed n c g h = (tt, g, omega arith)
  after_read-Ensures read_elapsed n c g h = (tt, g, omega arith)
  after_read-Ensures (read_dropped i) n c g h = g

  pub io_read-Ensures :
      (n : ℕ) (c : Conn W)
      → Good ls c.session
      → Ensures ls (AfterRead ls c.session n) (io_read stream n c)
  unfolding io_read
  io_read-Ensures n c g =
      let available = min (remaining_input c.session) n in
      let (r, w) = stream.read c.world available in
      elim (Bool-cases (available == 0)) [
        | inl e ↦ rw e (tt, g, omega arith)
        | inr e ↦
            rw e
              (after_read-Ensures r n (record c { world = w }) g (stream.read_le c.world available))
      ]

  pub io_write-Ensures :
      (bytes : Bytes) (c : Conn W)
      → Good ls c.session
      → Ensures ls (AfterWrite ls c.session) (io_write stream bytes c)
  unfolding io_write after_write
  io_write-Ensures bytes c g = let (r, w) = stream.write c.world bytes in go r w
    where
      go :
          (r : WriteResult) (w : W)
          → Ensures ls (AfterWrite ls c.session) (after_write stream r (record c { world = w }))
      go written w = (g, omega arith)
      go write_failed w = (tt, g, omega arith)
      go write_elapsed w = (tt, g, omega arith)
      go (write_dropped i) w = g

  -- The two rules of a handler's proof: a wait, and what goes on from each result.
  pub read_then :
      {B : Type 0} (R : B → SessionState → Type 0) (n : ℕ) (c : Conn W) (f : ReadOutcome → M W B)
      → Good ls c.session
      → ((r : ReadOutcome) (c' : Conn W)
          → AfterRead ls c.session n r c'.session
          → Ensures ls R (f r c'))
      → Ensures ls R (after (io_read stream n c) f)
  read_then R n c f g k =
      after-Ensures ls (AfterRead ls c.session n) R (io_read stream n c) f (io_read-Ensures n c g) k

  pub write_then :
      {B : Type 0} (R : B → SessionState → Type 0) (bytes : Bytes) (c : Conn W)
      (f : Result (Unit {0}) CloseReason → M W B)
      → Good ls c.session
      → ((r : Result (Unit {0}) CloseReason) (c' : Conn W)
          → AfterWrite ls c.session r c'.session
          → Ensures ls R (f r c'))
      → Ensures ls R (after (io_write stream bytes c) f)
  write_then R bytes c f g k =
      after-Ensures ls (AfterWrite ls c.session) R (io_write stream bytes c) f
        (io_write-Ensures bytes c g) k

-- A handler, or the rest of one, that ends by itself wherever less than `fuel` is left to read.
abbrev pub Ends : {W : Type 0} → Limits → ℕ → M W CloseReason → Type 0
Ends {W} ls fuel m =
    (c : Conn W)
    → Good ls c.session
    → remaining_input c.session < fuel
    → Ensures ls (Ended ls) (m c)
