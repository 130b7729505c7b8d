-- ===== src/Config/Validate/Tests.antt =====
-- A configuration with two endpoints that `validate` accepts.
use honey_mind.Base.{All, codes, ok, ℕ, ◌≡◌, refl, true, some, [], ◌∷◌}
use honey_mind.Config.Address.{SocketAddr, v4, binds_conflict, canonical_ip}
use honey_mind.Config.Schema.{
  Config, default_config, new_endpoint, http, ssh, label, default_metrics, default_logging,
}
use honey_mind.Config.Validate.{
  validate, check_endpoints, check_endpoint, check_sensor, check_server, check_ignored,
  check_logging, check_metrics, check_name, check_previous, check_banner, check_ssh_banner,
  check_header, check_status, check_prompt, check_tags, range, identifier, safe_text, has_control,
}
use honey_mind.Config.Validate.Limits.{validate-limits, ServerLimits, QueueLimits, Unseen}
use honey_mind.Config.Validate.Endpoints.{validate-endpoints, Separate, IsServable}

abbrev pub any_bind : ℕ → SocketAddr
any_bind port = record { ip = v4 0; port = port }

abbrev pub two_decoys : Config
two_decoys = record default_config {
  endpoints =
      record (new_endpoint (any_bind 2222) ssh) { banner = some (codes "SSH-2.0-x") }
      ∷ record (new_endpoint (any_bind 8080) http) { http_status = some 404 }
      ∷ [];
}

pub two_decoys-validate : validate two_decoys ≡ ok tt
unfolding validate check_endpoints check_endpoint check_sensor check_server check_ignored
    check_logging check_metrics check_name check_previous check_banner check_ssh_banner check_header
    check_status check_prompt check_tags range identifier safe_text has_control label binds_conflict
    canonical_ip
two_decoys-validate = refl

abbrev pub managed_decoys : Config
managed_decoys = record two_decoys { metrics = record default_metrics { enabled = true } }

pub managed_decoys-validate : validate managed_decoys ≡ ok tt
unfolding validate check_endpoints check_endpoint check_sensor check_server check_ignored
    check_logging check_metrics check_name check_previous check_banner check_ssh_banner check_header
    check_status check_prompt check_tags range identifier safe_text has_control label binds_conflict
    canonical_ip
managed_decoys-validate = refl

validate-limits_example :
    ServerLimits two_decoys.server
    × QueueLimits two_decoys.server two_decoys.logging
    × Unseen [] []
    × (true ≡ true)
validate-limits_example = validate-limits two_decoys two_decoys-validate

validate-endpoints_example :
    Separate two_decoys.metrics [] two_decoys.endpoints × All IsServable two_decoys.endpoints
validate-endpoints_example = validate-endpoints two_decoys two_decoys-validate

-- A sensor whose log has an absolute path.
abbrev pub sensor_config : Config
sensor_config = record two_decoys {
  logging = record default_logging { output = codes "/var/log/h.jsonl" };
}

pub sensor_config-validate : validate sensor_config ≡ ok tt
unfolding validate check_endpoints check_endpoint check_sensor check_server check_ignored
    check_logging check_metrics check_name check_previous check_banner check_ssh_banner check_header
    check_status check_prompt check_tags range identifier safe_text has_control label binds_conflict
    canonical_ip
sensor_config-validate = refl
