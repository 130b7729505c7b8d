-- ===== src/Logger/Writer/Took.antt =====
-- What a write that succeeds does to the outputs.
use honey_mind.Logger.Writer.{
  Outputs, or_error, write_stdout, after_sink, write_file, write_record, cannot_serialize,
  WriteError, within_deadline,
}
use honey_mind.Logger.{Channel}
use honey_mind.Session.State.{SessionRecord}
use honey_mind.Base.{
  ok, ℕ, ◌≡◌, List, [], ◌∷◌, ◌++◌, Bytes, unwrap_or, suc, Result, err, sym, ap, ◌∙◌, Bool, true,
  false, Option, none, some, append-nil, append_assoc, arith, bind-ok, refl, subst,
}
use honey_mind.Logger.Sink as Sink
use honey_mind.Logger.Sink.{FileSystem, FileSink, SinkError}
use honey_mind.Logger.Sink.Trail.{Extends, write-Extends, Extends-trans}

module _ (to_vec : SessionRecord → Option Bytes) where
  -- A record as a line of JSON, and the lines of several.
  abbrev pub line_of : SessionRecord → Bytes
  line_of r = unwrap_or (to_vec r) [] ++ b'\n' ∷ []

  unfoldable pub lines_of : List SessionRecord → Bytes
  lines_of [] = []
  lines_of (r ∷ rs) = line_of r ++ lines_of rs

  pub lines_of-append :
      (rs : List SessionRecord) (r : SessionRecord)
      → lines_of (rs ++ r ∷ []) ≡ lines_of rs ++ line_of r
  unfolding lines_of
  lines_of-append [] r = append-nil (line_of r)
  lines_of-append (x ∷ rs) r =
      ap (λ t. line_of x ++ t) (lines_of-append rs r)
      ∙ sym (append_assoc (line_of x) (lines_of rs) (line_of r))

-- The standard output with more bytes, if it is enabled.
abbrev pub with_bytes : Option Bytes → Bytes → Option Bytes
with_bytes none bytes = none
with_bytes (some out) bytes = some (out ++ bytes)

pub with_bytes-append :
    (o : Option Bytes) (x y : Bytes) → with_bytes (with_bytes o x) y ≡ with_bytes o (x ++ y)
with_bytes-append none x y = refl
with_bytes-append (some out) x y = ap some (append_assoc out x y)

pub with_bytes-nil : (o : Option Bytes) → o ≡ with_bytes o []
with_bytes-nil none = refl
with_bytes-nil (some out) = ap some (sym (append-nil out))

module _ {Q F : Type 0} (channel : Channel Q) (fs : FileSystem F)
    (to_vec : SessionRecord → Option Bytes) where
  -- The outputs have taken some bytes, and the sink keeps `age` rotated logs before its oldest one.
  pub record Took (age : ℕ) (bytes : Bytes) (o o' : Outputs F) : Type 0 where
    pub sink : FileSink
    pub file : o'.file ≡ some sink
    pub kept : sink.max_files ≡ suc age
    pub stdout : o'.stdout ≡ with_bytes o.stdout bytes
    pub files : Extends fs (suc age) bytes o.files o'.files

  or_error-ok : {A E : Type 0} (e : E) (o : Option A) (a : A) → or_error e o ≡ ok a → o ≡ some a
  or_error-ok e none a h = absurd (ground arith)
  or_error-ok e (some b) a h = ground (arith, h)

  after_sink-ok :
      (o o' : Outputs F) (r : Result (F × FileSink) SinkError)
      → after_sink channel fs to_vec o r ≡ ok o'
      → (sink : FileSink) × (r ≡ ok (o'.files, sink))
        × (o'.file ≡ some sink)
        × (o'.stdout ≡ o.stdout)
  after_sink-ok o o' (ok (f, s)) h = (s, ground (arith, h), ground (arith, h), ground (arith, h))
  after_sink-ok o o' (err e) h = absurd (ground arith)

  pub write_stdout-ok :
      (takes : Bool) (line : Bytes) (o o' : Outputs F) (out : Option Bytes)
      → o.stdout ≡ out
      → write_stdout channel fs to_vec takes line o out ≡ ok o'
      → (o'.stdout ≡ with_bytes o.stdout line) × (o'.files ≡ o.files) × (o'.file ≡ o.file)
  write_stdout-ok takes line o o' none e h = ground (arith, h, e)
  write_stdout-ok true line o o' (some out) e h = ground (arith, h, e)
  write_stdout-ok false line o o' (some out) e h = absurd (ground arith)

  write_file-Took :
      (age : ℕ) (line : Bytes) (o o' : Outputs F) (file : Option FileSink) (sink : FileSink)
      → file ≡ some sink
      → sink.max_files ≡ suc age
      → write_file channel fs to_vec o line file ≡ ok o'
      → (sink' : FileSink) × (o'.file ≡ some sink')
        × (sink'.max_files ≡ suc age)
        × (o'.stdout ≡ o.stdout)
        × Extends fs (suc age) line o.files o'.files
  write_file-Took age line o o' none sink f m h = absurd (ground arith)
  write_file-Took age line o o' (some s) sink f m h =
      let many : s.max_files ≡ suc age = ground (arith, f, m) in
      let (sink', done', file, out) = after_sink-ok o o' (Sink.write fs s line o.files) h in
      let (held, kept) = write-Extends fs s sink' line o.files o'.files age many done' in
      (sink', file, kept ∙ many, out, held)

  pub write_record-Took :
      (age : ℕ) (takes : Bool) (r : SessionRecord) (o o' : Outputs F) (sink : FileSink)
      → o.file ≡ some sink
      → sink.max_files ≡ suc age
      → write_record channel fs to_vec takes r o ≡ ok o'
      → Took age (line_of to_vec r) o o'
  write_record-Took age takes r o o' sink f m h =
      let (bytes, serialised, h1) = bind-ok (or_error cannot_serialize (to_vec r)) _ o' h in
      let line = bytes ++ b'\n' ∷ [] in
      let (o1, filed, h2) = bind-ok (write_file channel fs to_vec o line o.file) _ o' h1 in
      let (sink', file, kept, out, held) = write_file-Took age line o o1 o.file sink f m filed in
      let (printed, same, same_file) = write_stdout-ok takes line o1 o' o1.stdout refl h2 in
      let spelled : line ≡ line_of to_vec r =
        ap (λ x. unwrap_or x [] ++ b'\n' ∷ [])
          (sym (or_error-ok cannot_serialize (to_vec r) bytes serialised)) in
      subst (λ l. Took age l o o') spelled
        (record {
          sink = sink';
          file = same_file ∙ file;
          kept = kept;
          stdout = printed ∙ ap (λ x. with_bytes x line) out;
          files = subst (Extends fs (suc age) line o.files) (sym same) held;
        })

  pub Took-trans :
      (age : ℕ) (x y : Bytes) (o o1 o2 : Outputs F)
      → Took age x o o1
      → Took age y o1 o2
      → Took age (x ++ y) o o2
  Took-trans age x y o o1 o2 a b = record {
    sink = b.sink;
    file = b.file;
    kept = b.kept;
    stdout = b.stdout ∙ ap (λ t. with_bytes t y) a.stdout ∙ with_bytes-append o.stdout x y;
    files = Extends-trans fs (suc age) x y o.files o1.files o2.files a.files b.files;
  }

  pub in_deadline :
      (in_time : Bool) (result : Result (Outputs F) WriteError) (o : Outputs F)
      → within_deadline channel fs to_vec in_time result ≡ ok o
      → result ≡ ok o
  in_deadline true result o h = h
  in_deadline false result o h = absurd (ground arith)
