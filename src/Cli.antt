-- ===== src/Cli.antt =====
-- src/main.rs: `main` and `dispatch`. The files, the parser of TOML, serde_json, the standard output, `run` and the
-- texts of the two profiles are parameters.
pub mod Exit
mod Tests
use honey_mind.Base.{
  ◌>>=◌, length, ensure, if◌then◌else◌, Result, ok, err, Bytes, codes, Bool, Option, none, some,
  ◌++◌, [], ◌∷◌, unwrap_or,
}
use honey_mind.Base.Decimal.{decimal}
use honey_mind.Config.Address.{SocketAddr}
use honey_mind.Config.File.{ConfigFiles, LoadError, from_path}
use honey_mind.Config.Schema.{Config, PrivacyMode, metadata, full}
use honey_mind.Healthcheck.{Peer, HealthError, healthcheck}

pub data Profile : Type 0 where
  local_profile sensor_profile : Profile

-- The subcommands; the deadline of a probe is an argument of `dispatch`.
pub data Command : Type 0 where
  run_sensor : Command
  validate_config : Bool → Command
  print_config : Profile → Command
  check_health : Option SocketAddr → Command

pub data CliError (E : Type 0) : Type 0 where
  load_failed : LoadError → CliError E
  unhealthy : HealthError → CliError E
  run_failed : E → CliError E
  management_disabled cannot_serialize cannot_print : CliError E

-- `{:?}` of the privacy mode
abbrev pub debug_mode : PrivacyMode → Bytes
debug_mode metadata = codes "Metadata"
debug_mode full = codes "Full"

abbrev pub report : Config → Bytes
report cfg =
    codes "OK: "
    ++ decimal (length cfg.endpoints)
    ++ codes " endpoint(s); sensor="
    ++ cfg.sensor.id
    ++ codes "; privacy="
    ++ debug_mode cfg.privacy.mode

-- The program around `dispatch`: `prints` tells whether the standard output takes a text, and
-- `in_time` whether a probe ends within its deadline.
pub record Program (E : Type 0) : Type 0 where
  pub files : ConfigFiles
  pub toml_from_str : Bytes → Option Config
  pub json_report : Config → Option Bytes
  pub profile_text : Profile → Bytes
  pub prints : Bytes → Bool
  pub run : Bytes → Result (Unit {0}) E
  pub peer : Peer
  pub in_time : Bool

module _ {E : Type 0} (program : Program E) where
  abbrev pub load : Bytes → Result Config (CliError E)
  load path = elim (from_path program.files program.toml_from_str path) [
    | ok cfg ↦ ok cfg
    | err e ↦ err (load_failed e)
  ]

  abbrev pub or_serialize : Option Bytes → Result Bytes (CliError E)
  or_serialize none = err cannot_serialize
  or_serialize (some text) = ok text

  abbrev pub message_of : Bool → Config → Result Bytes (CliError E)
  message_of json cfg = if json then or_serialize (program.json_report cfg) else ok (report cfg)

  abbrev pub print : Bytes → Result (Unit {0}) (CliError E)
  print text = ensure (program.prints text) cannot_print

  abbrev pub address_of : Bytes → Option SocketAddr → Result SocketAddr (CliError E)
  address_of path (some address) = ok address
  address_of path none = load path >>= λ cfg.
      ensure cfg.metrics.enabled management_disabled >>= λ _. ok cfg.metrics.bind

  abbrev pub or_unhealthy : Result (Unit {0}) HealthError → Result (Unit {0}) (CliError E)
  or_unhealthy (ok u) = ok u
  or_unhealthy (err e) = err (unhealthy e)

  abbrev pub or_run : Result (Unit {0}) E → Result (Unit {0}) (CliError E)
  or_run (ok u) = ok u
  or_run (err e) = err (run_failed e)

  -- `dispatch`, for the path of the configuration and a command, `run_sensor` where none is given
  unfoldable pub dispatch : Bytes → Command → Result (Unit {0}) (CliError E)
  dispatch path run_sensor = or_run (program.run path)
  dispatch path (print_config profile) = print (program.profile_text profile)
  dispatch path (validate_config json) =
      load path >>= λ cfg. message_of json cfg >>= λ message. print (message ++ b'\n' ∷ [])
  dispatch path (check_health address) =
      address_of path address >>= λ a. or_unhealthy (healthcheck program.peer program.in_time a)

pub data ExitCode : Type 0 where
  success failure : ExitCode

module _ {E : Type 0} where
  abbrev pub exit_code : Result (Unit {0}) E → ExitCode
  exit_code (ok u) = success
  exit_code (err e) = failure

module _ {E : Type 0} (program : Program E) where
  -- `main`, on the arguments that `Cli::parse` yields; `runtime_made` tells whether the runtime could be built.
  pub main : Bool → Bytes → Option Command → ExitCode
  main runtime_made path command =
      if runtime_made
      then exit_code (dispatch program path (unwrap_or command run_sensor))
      else failure
