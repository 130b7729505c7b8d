-- ===== src/Logger/Sink/Bounds.antt =====
-- How large the active log gets.
use honey_mind.Base.{
  bind-ok, ltb, leb, if◌then◌else◌, Bool-cases, unwrap_or, length, length-append, Bytes, ensure, ok,
  ◌+◌, ◌≤◌, ◌<◌, ◌≡◌, inl, inr, [], ◌++◌, arith,
}
use honey_mind.Session.State.{sat_add, u64_max}
use honey_mind.Logger.Sink.{
  FileSystem, FileSink, active, rotate, or_io, write, write_line, record_too_long,
}
use honey_mind.Logger.Sink.Shift.{or_io_ok}
use honey_mind.Logger.Sink.Rotation.{rotate-content}

module _ {F : Type 0} (fs : FileSystem F) where
  -- The bytes of the active log, none if there is no such file.
  abbrev pub active_bytes : F → Bytes
  active_bytes f = unwrap_or (fs.content f active) []

  write_line-active :
      (line : Bytes) (s s' : FileSink) (f f' : F)
      → write_line fs line (f, s) ≡ ok (f', s')
      → (active_bytes f' ≡ active_bytes f ++ line) × (s' ≡ record s { size = s.size + length line })
  write_line-active line s s' f f' h =
      let (g, one, rest) = bind-ok (or_io (fs.append f active line)) _ (f', s') h in
      let added =
        fs.append_some f g active active line (or_io_ok (fs.append f active line) g one) in
      (ground (arith, added, rest), ground (arith, rest))

  -- The sink knows the size of its file, and a rotation keeps that so.
  ready_for :
      (s : FileSink) (line : Bytes) (f : F) (o : F × FileSink)
      → (if ltb s.max_bytes (sat_add s.size (length line)) then rotate fs s f else ok (f, s)) ≡ ok o
      → 1 ≤ s.max_files
      → s.max_bytes < u64_max
      → length line ≤ s.max_bytes
      → s.size ≡ length (active_bytes f)
      → (o.1.size ≡ length (active_bytes o.0))
        × (o.1.size + length line ≤ s.max_bytes)
        × (o.1.max_bytes ≡ s.max_bytes)
  ready_for s line f (g, t) h files small fits known =
      elim (Bool-cases (ltb s.max_bytes (sat_add s.size (length line)))) [
        | inl e ↦
            let done' : rotate fs s f ≡ ok (g, t) = ground (arith, h) in
            let k = rotate-content fs s t f g 0 done' files in ground (arith, k.1, k.2)
        | inr e ↦ ground (arith, h)
      ]

  -- If the sink knows the size of its file, allows a rotated file and has a limit below `u64::MAX`,
  -- then after a write that succeeds the active log is within `max_bytes`, and the sink knows its size.
  pub write-fits :
      (s s' : FileSink) (line : Bytes) (f f' : F)
      → write fs s line f ≡ ok (f', s')
      → 1 ≤ s.max_files
      → s.max_bytes < u64_max
      → s.size ≡ length (active_bytes f)
      → (length (active_bytes f') ≤ s.max_bytes) × (s'.size ≡ length (active_bytes f'))
  unfolding write
  write-fits s s' line f f' h files small known =
      let (u, fits, h1) =
        bind-ok (ensure (leb (length line) s.max_bytes) record_too_long) _ (f', s') h in
      let (o, step, h2) =
        bind-ok
          (if ltb s.max_bytes (sat_add s.size (length line)) then rotate fs s f else ok (f, s))
          (write_line fs line) (f', s') h1 in
      let short : length line ≤ s.max_bytes = ground (arith, fits) in
      let k = ready_for s line f o step files small short known in
      let (added, grown) = write_line-active line o.1 s' o.0 f' h2 in
      let sizes = length-append (active_bytes o.0) line in
      (ground (arith, added, sizes, k), ground (arith, added, grown, sizes, k))
