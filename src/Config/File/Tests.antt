-- ===== src/Config/File/Tests.antt =====
-- A file that holds one configuration.
use honey_mind.Base.Utf8.{from_utf8_ascii}
use honey_mind.Config.Validate.{from_toml}
use honey_mind.Config.Schema.{Config}
use honey_mind.Base.{Bytes, codes, ok, some, true, ◌≡◌, Option, refl}
use honey_mind.Config.File.{ConfigFiles, from_path, resolve_output}
use honey_mind.Config.File.Loaded.{IsSound, from_path-IsSound}
use honey_mind.Config.Validate.Tests.{
  two_decoys, two_decoys-validate, sensor_config, sensor_config-validate,
}

abbrev pub one_file : ConfigFiles
one_file = record {
  metadata = λ p. some (true, 4);
  opens = λ p. true;
  bytes = λ p. some (codes "toml");
}

abbrev parsed : Bytes → Option Config
parsed text = some two_decoys

abbrev pub config_path : Bytes
config_path = codes "/etc/minotaur.toml"

abbrev loaded : Config
loaded = resolve_output config_path two_decoys (some (codes "honeypot.jsonl"))

loads : from_path one_file parsed config_path ≡ ok loaded
unfolding from_path from_toml
loads = rw (from_utf8_ascii (codes "toml") refl, two_decoys-validate) refl

from_path-IsSound_example : IsSound one_file parsed loaded
from_path-IsSound_example = from_path-IsSound one_file parsed config_path loaded loads

-- The text of a sensor whose log has an absolute path.
abbrev pub sensor_toml : Bytes → Option Config
sensor_toml text = some sensor_config

pub sensor_loads : from_path one_file sensor_toml config_path ≡ ok sensor_config
unfolding from_path from_toml
sensor_loads = rw (from_utf8_ascii (codes "toml") refl, sensor_config-validate) refl
