-- ===== src/Config/File.antt =====
-- src/config.rs: `from_path`. The file system and the parser of the crate `toml` are parameters.
pub mod Loaded
pub mod Tests
use honey_mind.Base.{
  ensure, ◌>>=◌, leb, if◌then◌else◌, unwrap_or, take, Bytes, codes, Result, ok, err, ℕ, Bool,
  Option, none, some,
}
use honey_mind.Base.Utf8.{from_utf8, from_utf8_lossy}
use honey_mind.Config.Path.{is_relative, parent, join}
use honey_mind.Config.Schema.{Config, file_path}
use honey_mind.Config.Validate.{ConfigError, from_toml}

-- What is found at a path: whether it is a regular file, with its length; whether it can be opened; and
-- its bytes, if they can be read.
pub record ConfigFiles : Type 0 where
  pub metadata : Bytes → Option (Bool × ℕ)
  pub opens : Bytes → Bool
  pub bytes : Bytes → Option Bytes

pub data LoadError : Type 0 where
  cannot_inspect not_regular too_large cannot_open cannot_read : LoadError
  refused : ConfigError → LoadError

abbrev pub or_load : {A : Type 0} → LoadError → Option A → Result A LoadError
or_load e none = err e
or_load e (some a) = ok a

abbrev pub or_refused : {A : Type 0} → Result A ConfigError → Result A LoadError
or_refused (err e) = err (refused e)
or_refused (ok a) = ok a

-- A relative output stands beside the configuration.
abbrev pub resolve_output : Bytes → Config → Option Bytes → Config
resolve_output path cfg none = cfg
resolve_output path cfg (some output) =
    if is_relative output
    then record cfg {
      logging = record (cfg.logging) {
        output = from_utf8_lossy (join (unwrap_or (parent path) (codes ".")) output);
      };
    }
    else cfg

module _ (files : ConfigFiles) (toml_from_str : Bytes → Option Config) where
  -- `take(65537).read_to_string`
  abbrev pub read_text : Bytes → Option Bytes
  read_text path = elim (files.bytes path) [
    | none ↦ none
    | some bytes ↦ from_utf8 (take 65537 bytes)
  ]

  unfoldable pub from_path : Bytes → Result Config LoadError
  from_path path = or_load cannot_inspect (files.metadata path) >>= λ m.
      ensure m.0 not_regular >>= λ _. ensure (leb m.1 65536) too_large >>= λ _.
      ensure (files.opens path) cannot_open >>= λ _. or_load cannot_read (read_text path) >>= λ raw.
      or_refused (from_toml toml_from_str raw) >>= λ cfg.
      ok (resolve_output path cfg (file_path cfg.logging))
