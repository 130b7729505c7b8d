-- ===== src/Config/File/Loaded.antt =====
-- What a configuration that is read from a file is.
use honey_mind.Base.Utf8.{from_utf8_lossy}
use honey_mind.Config.Validate.Endpoints.{Separate, IsServable, validate-endpoints}
use honey_mind.Config.Path.{is_relative, parent}
use honey_mind.Config.Validate.Limits.{
  QueueLimits, ServerLimits, from_toml-validate, validate-limits,
}
use honey_mind.Config.Validate.{ConfigError, from_toml}
use honey_mind.Config.Schema.{Config, file_path}
use honey_mind.Base.{
  leb, Bytes, ensure, bind-ok, Result, ok, err, ◌≡◌, Option, none, some, arith, if◌then◌else◌,
  unwrap_or, All, codes, sym, subst, Bool, true, false, [],
}
use honey_mind.Config.File.{
  ConfigFiles, LoadError, from_path, or_load, or_refused, resolve_output, cannot_inspect,
  not_regular, too_large, cannot_open, cannot_read, read_text, join,
}

module _ (files : ConfigFiles) (toml_from_str : Bytes → Option Config) where
  -- The configuration of the text, and what resolving its output leaves.
  record Source (path : Bytes) (cfg : Config) : Type 0 where
    text : Bytes
    parsed : Config
    accepted : from_toml toml_from_str text ≡ ok parsed
    resolved : cfg ≡ resolve_output path parsed (file_path parsed.logging)

  or_load-ok : {A : Type 0} (e : LoadError) (o : Option A) (a : A) → or_load e o ≡ ok a → o ≡ some a
  or_load-ok e none a h = absurd (ground arith)
  or_load-ok e (some b) a h = ground (arith, h)

  or_refused-ok : {A : Type 0} (r : Result A ConfigError) (a : A) → or_refused r ≡ ok a → r ≡ ok a
  or_refused-ok (ok b) a h = ground (arith, h)
  or_refused-ok (err e) a h = absurd (ground arith)

  from_path-Source :
      (path : Bytes) (cfg : Config) → from_path files toml_from_str path ≡ ok cfg → Source path cfg
  unfolding from_path
  from_path-Source path cfg h =
      let (m, inspected, h1) = bind-ok (or_load cannot_inspect (files.metadata path)) _ cfg h in
      let (u, is_regular, h2) = bind-ok (ensure m.0 not_regular) _ cfg h1 in
      let (v, short, h3) = bind-ok (ensure (leb m.1 65536) too_large) _ cfg h2 in
      let (w, opened, h4) = bind-ok (ensure (files.opens path) cannot_open) _ cfg h3 in
      let (raw, read, h5) =
        bind-ok (or_load cannot_read (read_text files toml_from_str path)) _ cfg h4 in
      let (parsed, taken, h6) = bind-ok (or_refused (from_toml toml_from_str raw)) _ cfg h5 in
      record {
        text = raw;
        parsed = parsed;
        accepted = or_refused-ok (from_toml toml_from_str raw) parsed taken;
        resolved = ground (arith, h6);
      }

  -- What `validate` promises of a configuration, but for its paths.
  abbrev pub IsSound : Config → Type 0
  IsSound cfg =
      ServerLimits cfg.server
      × QueueLimits cfg.server cfg.logging
      × Separate cfg.metrics [] cfg.endpoints
      × All IsServable cfg.endpoints

  relocated-IsSound :
      (relative : Bool) (cfg : Config) (output : Bytes)
      → IsSound cfg
      → IsSound (
          if relative
          then record cfg { logging = record (cfg.logging) { output = output } }
          else cfg)
  relocated-IsSound true cfg output (limits, queue, separate, servable) = (
    limits,
    record {
      buffer = queue.buffer;
      file_bytes = queue.file_bytes;
      files = queue.files;
      write_timeout = queue.write_timeout;
      queue = queue.queue;
    },
    separate,
    servable,
  )
  relocated-IsSound false cfg output sound = sound

  resolve_output-IsSound :
      (path : Bytes) (cfg : Config) (output : Option Bytes)
      → IsSound cfg
      → IsSound (resolve_output path cfg output)
  resolve_output-IsSound path cfg none sound = sound
  resolve_output-IsSound path cfg (some output) sound =
      relocated-IsSound (is_relative output) cfg
        (from_utf8_lossy (join (unwrap_or (parent path) (codes ".")) output)) sound

  -- Whatever the file at a path holds and however a read of it fails, a configuration that `from_path`
  -- returns has every limit of the server and of the logger in its range, endpoints that bind apart
  -- from each other and from the management, and answers of the endpoints that are well formed.
  pub from_path-IsSound :
      (path : Bytes) (cfg : Config) → from_path files toml_from_str path ≡ ok cfg → IsSound cfg
  from_path-IsSound path cfg h =
      let source = from_path-Source path cfg h in
      let accepted = from_toml-validate toml_from_str source.text source.parsed source.accepted in
      let limits = validate-limits source.parsed accepted in
      let ends = validate-endpoints source.parsed accepted in
      subst IsSound (sym source.resolved) (
        resolve_output-IsSound path source.parsed (file_path source.parsed.logging)
          (limits.0, limits.1, ends.0, ends.1))
