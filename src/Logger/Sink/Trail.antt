-- ===== src/Logger/Sink/Trail.antt =====
-- What the logs hold together.
use honey_mind.Session.State.{sat_add}
use honey_mind.Logger.Sink.Shift.{or_io_ok}
use honey_mind.Base.{
  bind-ok, Bytes, unwrap_or, ok, ℕ, zero, suc, ◌≡◌, ◌++◌, ap, ◌∙◌, [], arith, ◌+◌, ◌≤◌, sym,
  append-nil, append_assoc, ltb, leb, if◌then◌else◌, Bool-cases, length, ensure, inl, inr, subst,
}
use honey_mind.Logger.Sink.{
  FileSystem, FileSink, LogPath, active, rotated, rotate, write_line, or_io, write, record_too_long,
}
use honey_mind.Logger.Sink.Rotation.{name, rotate-content}

module _ {F : Type 0} (fs : FileSystem F) where
  -- The bytes of the log of an age, none if there is no such file.
  abbrev pub bytes_at : F → ℕ → Bytes
  bytes_at f age = unwrap_or (fs.content f (name age)) []

  -- The bytes of all logs up to an age, from the oldest to the active one.
  unfoldable pub trail : ℕ → F → Bytes
  trail zero f = bytes_at f 0
  trail (suc age) f = bytes_at f (suc age) ++ trail age f

  trail-shift :
      (age : ℕ) (f f' : F)
      → ((j : ℕ) → j ≤ age → bytes_at f' (suc j) ≡ bytes_at f j)
      → bytes_at f' 0 ≡ []
      → trail (suc age) f' ≡ trail age f
  unfolding trail
  trail-shift zero f f' up none_left =
      rw (up 0 (omega arith), none_left) (append-nil (bytes_at f 0))
  trail-shift (suc age) f f' up none_left = rw (up (suc age) (omega arith)) (
      ap (λ t. bytes_at f (suc age) ++ t)
        (trail-shift age f f' (λ j l. up j (omega arith)) none_left))

  trail-append :
      (age : ℕ) (f f' : F) (line : Bytes)
      → ((j : ℕ) → bytes_at f' (suc j) ≡ bytes_at f (suc j))
      → bytes_at f' 0 ≡ bytes_at f 0 ++ line
      → trail age f' ≡ trail age f ++ line
  unfolding trail
  trail-append zero f f' line same added = added
  trail-append (suc age) f f' line same added = rw (same age) (
      ap (λ t. bytes_at f (suc age) ++ t) (trail-append age f f' line same added)
      ∙ sym (append_assoc (bytes_at f (suc age)) (trail age f) line))

  write_line-trail :
      (age : ℕ) (line : Bytes) (s s' : FileSink) (f f' : F)
      → write_line fs line (f, s) ≡ ok (f', s')
      → (trail age f' ≡ trail age f ++ line) × (s'.max_files ≡ s.max_files)
  write_line-trail age line s s' f f' h =
      let (g, one, rest) = bind-ok (or_io (fs.append f active line)) _ (f', s') h in
      let added = λ (q : LogPath).
        fs.append_some f g active q line (or_io_ok (fs.append f active line) g one) in
      let same : g ≡ f' = ground (arith, rest) in
      (
        rw (← same) (
            trail-append age f g line (λ j. ap (λ o. unwrap_or o []) (added (rotated (j + 1))))
              (ap (λ o. unwrap_or o []) (added active))),
        ground (arith, rest),
      )

  -- A rotation drops the oldest log, and nothing else.
  rotate-trail :
      (s s' : FileSink) (f f' : F) (age : ℕ)
      → s.max_files ≡ suc age
      → rotate fs s f ≡ ok (f', s')
      → (trail (suc age) f ≡ bytes_at f (suc age) ++ trail (suc age) f')
        × (s'.max_files ≡ s.max_files)
  unfolding trail
  rotate-trail s s' f f' age m h =
      let content = λ (j : ℕ) (l : j ≤ age). rotate-content fs s s' f f' j h (omega (arith, m)) in
      (
        ap (λ t. bytes_at f (suc age) ++ t)
            (sym (
              trail-shift age f f' (λ j l. ap (λ o. unwrap_or o []) (content j l).0)
                (ap (λ o. unwrap_or o []) (content 0 (omega arith)).1))),
        ap (λ t. t.max_files) (content 0 (omega arith)).2,
      )

  -- A line is appended to what the logs hold together, of which the oldest log may be dropped.
  pub record Extends (max_files : ℕ) (line : Bytes) (f f' : F) : Type 0 where
    pub dropped : Bytes
    pub held : trail max_files f ++ line ≡ dropped ++ trail max_files f'

  pub Extends-refl : (max_files : ℕ) (f : F) → Extends max_files [] f f
  Extends-refl max_files f = record { dropped = []; held = append-nil (trail max_files f) }

  pub Extends-trans :
      (max_files : ℕ) (x y : Bytes) (f g h : F)
      → Extends max_files x f g
      → Extends max_files y g h
      → Extends max_files (x ++ y) f h
  Extends-trans max_files x y f g h a b = record {
    dropped = a.dropped ++ b.dropped;
    held =
        sym (append_assoc (trail max_files f) x y)
        ∙ ap (λ t. t ++ y) a.held
        ∙ append_assoc a.dropped (trail max_files g) y
        ∙ ap (λ t. a.dropped ++ t) b.held
        ∙ sym (append_assoc a.dropped b.dropped (trail max_files h));
  }

  room_made :
      (s : FileSink) (line : Bytes) (f : F) (o : F × FileSink) (age : ℕ)
      → s.max_files ≡ suc age
      → (if ltb s.max_bytes (sat_add s.size (length line)) then rotate fs s f else ok (f, s)) ≡ ok o
      → Extends (suc age) [] f o.0 × (o.1.max_files ≡ s.max_files)
  room_made s line f (g, t) age m h =
      elim (Bool-cases (ltb s.max_bytes (sat_add s.size (length line)))) [
        | inl e ↦
            let done' : rotate fs s f ≡ ok (g, t) = ground (arith, h) in
            let k = rotate-trail s t f g age m done' in
            (
              record {
                dropped = bytes_at f (suc age);
                held = append-nil (trail (suc age) f) ∙ k.0;
              },
              k.1,
            )
        | inr e ↦
            let same : f ≡ g = ground (arith, h) in
            (subst (Extends (suc age) [] f) same (Extends-refl (suc age) f), ground (arith, h))
      ]

  pub write-Extends :
      (s s' : FileSink) (line : Bytes) (f f' : F) (age : ℕ)
      → s.max_files ≡ suc age
      → write fs s line f ≡ ok (f', s')
      → Extends (suc age) line f f' × (s'.max_files ≡ s.max_files)
  unfolding write
  write-Extends s s' line f f' age m h =
      let (u, fits, h1) =
        bind-ok (ensure (leb (length line) s.max_bytes) record_too_long) _ (f', s') h in
      let (o, step, h2) =
        bind-ok
          (if ltb s.max_bytes (sat_add s.size (length line)) then rotate fs s f else ok (f, s))
          (write_line fs line) (f', s') h1 in
      let (made, kept) = room_made s line f o age m step in
      let (added, same) = write_line-trail (suc age) line o.1 s' o.0 f' h2 in
      (
        Extends-trans (suc age) [] line f o.0 f' made (record { dropped = []; held = sym added }),
        same ∙ kept,
      )
