-- ===== src/Tests/Settings.antt =====
-- Configurations at concrete inputs.
use enigma_relay.Base.{◌≡◌, refl, ◌↔◌}
use enigma_relay.Base.Text.{trim}
use enigma_relay.Error.{ok}
use enigma_relay.Config.{
  default_features, default_config, validate, validate_mode, validate_relay, validate_rate_limit,
  validate_storage,
}
use enigma_relay.Config.Valid.{IsValid, validate_iff}

default_valid : validate default_features default_config ≡ ok tt
unfolding validate validate_mode validate_relay validate_rate_limit validate_storage trim
default_valid = refl

validate_iff_example :
    (validate default_features default_config ≡ ok tt) ↔ IsValid default_features default_config
validate_iff_example = validate_iff default_features default_config
