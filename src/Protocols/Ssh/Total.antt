-- ===== src/Protocols/Ssh/Total.antt =====
-- The handler ends by itself, over a good session.
use honey_mind.Protocols.Raw.{with_banner-Ends}
use honey_mind.Config.Schema.{EndpointConfig}
use honey_mind.Protocols.Io.Triples.{
  read_then, Ended, Ends, push_event-Good, push_event-remaining_input, AfterRead, Ensures, Limits,
}
use honey_mind.Session.State.{CloseReason, notice, SessionState, remaining_input}
use honey_mind.Protocols.Ssh.{
  ident_loop, handle, Scan, after_line, after_scan, valid_identification, line_found, incomplete,
  ident_next, scan, too_long, default_banner,
}
use honey_mind.Base.{
  Bool-cases, is_empty, Bytes, ok, err, ℕ, zero, suc, ◌<◌, inl, inr, Bool, true, false, none, some,
  [], arith, unwrap_or, ◌∷◌, ◌++◌,
}
use honey_mind.Protocols.Io.{Stream, M, ReadOutcome, Conn}

abbrev EndsAll : {W : Type 0} → Limits → ℕ → (Bytes → Bool → M W CloseReason) → Type 0
EndsAll ls fuel again = (i : Bytes) (f : Bool) → Ends ls fuel (again i f)

module _ (ls : Limits) {W : Type 0} (fuel : ℕ) (again : Bytes → Bool → M W CloseReason)
    (k : EndsAll ls fuel again) where
  after_line-Ends : (line : Bytes) → Ends ls fuel (after_line line (again [] true))
  unfolding notice
  after_line-Ends line c g h = elim (Bool-cases (valid_identification line)) [
    | inl e ↦ rw e (k [] true _ (push_event-Good _ _ g) (rw push_event-remaining_input h))
    | inr e ↦ rw e (tt, push_event-Good _ _ g)
  ]

  after_scan-Ends : (r : Scan) → Ends ls fuel (after_scan r again)
  unfolding notice
  after_scan-Ends (line_found line) c g h = after_line-Ends line c g h
  after_scan-Ends too_long c g h = (tt, push_event-Good _ _ g)
  after_scan-Ends (incomplete i) c g h = k i false c g h

  ident_next-Ensures :
      (i : Bytes) (f : Bool) (r : ReadOutcome) (s : SessionState) (c : Conn W)
      → remaining_input s < suc fuel
      → AfterRead ls s 4096 r c.session
      → Ensures ls (Ended ls) (ident_next i f again r c)
  unfolding notice
  ident_next-Ensures i true (ok none) s c h p = (tt, p.0)
  ident_next-Ensures i false (ok none) s c h p = elim (Bool-cases (is_empty i)) [
    | inl e ↦ rw e (tt, p.0)
    | inr e ↦ rw e (tt, push_event-Good _ _ p.0)
  ]
  ident_next-Ensures i true (ok (some chunk)) s c h p = k i true c p.0 (omega arith)
  ident_next-Ensures i false (ok (some chunk)) s c h p =
      after_scan-Ends (scan i chunk) c p.0 (omega arith)
  ident_next-Ensures i f (err e) s c h p = (p.0, p.1)

module _ (ls : Limits) {W : Type 0} (stream : Stream W) where
  ident_loop-Ends : (fuel : ℕ) → EndsAll ls fuel (ident_loop stream fuel)
  unfolding ident_loop
  ident_loop-Ends zero i f c g h = absurd (omega arith)
  ident_loop-Ends (suc fuel) i f c g h = read_then ls stream (Ended ls) 4096 c _ g λ r c' p.
      ident_next-Ensures ls fuel (ident_loop stream fuel) (ident_loop-Ends fuel) i f r c.session c'
        h p

  pub handle-Ends : (fuel : ℕ) (ep : EndpointConfig) → Ends ls fuel (handle stream fuel ep)
  unfolding handle
  handle-Ends fuel ep =
      let line = unwrap_or ep.banner default_banner ++ (b'\r' ∷ b'\n' ∷ []) in
      with_banner-Ends stream ls fuel (some line) (ident_loop stream fuel [] false)
        (ident_loop-Ends fuel [] false)
