-- ===== src/Config.antt =====
-- src/config.rs: the configuration, its defaults and its validation. Which cargo features are on
-- (`cfg(feature = …)`, Cargo.toml) is a value of the type `Features`.
pub mod Valid
use enigma_relay.Base.{
  ℕ, ◌*◌, Bool, true, false, ◌||◌, Option, none, some, String, eqb, if◌then◌else◌,
}
use enigma_relay.Base.Text.{Text, codes, trim, is_empty}
use enigma_relay.Error.{EnigmaRelayError, Result, ok, err, ◌>>=◌, ◌>>◌, reject, config, disabled}

pub record Features : Type 0 where
  pub http : Bool
  pub tls : Bool
  pub mtls : Bool
  pub persistence : Bool
  pub metrics : Bool

-- `default = ["http", "persistence"]`
abbrev pub default_features : Features
default_features = record {
  http = true;
  tls = false;
  mtls = false;
  persistence = true;
  metrics = false;
}

pub data RelayMode : Type 0 where
  http_mode tls_mode : RelayMode

pub data StorageKind : Type 0 where
  sled memory : StorageKind

pub record TlsConfig : Type 0 where
  pub cert_pem_path : String
  pub key_pem_path : String
  pub client_ca_pem_path : Option String

pub record StorageConfig : Type 0 where
  pub kind : StorageKind
  pub path : String

abbrev pub default_storage : StorageConfig
default_storage = record { kind = sled; path = "./relay_db" }

pub record RelayLimits : Type 0 where
  pub max_message_bytes : ℕ
  pub max_queue_bytes_per_user : ℕ
  pub max_messages_per_user : ℕ
  pub message_ttl_seconds : ℕ
  pub gc_interval_seconds : ℕ
  pub pull_batch_max : ℕ

abbrev pub default_limits : RelayLimits
default_limits = record {
  max_message_bytes = 8388608;
  max_queue_bytes_per_user = 1073741824;
  max_messages_per_user = 200000;
  message_ttl_seconds = 14 * 24 * 3600;
  gc_interval_seconds = 60;
  pull_batch_max = 256;
}

pub record EndpointRateLimit : Type 0 where
  pub push_rps : ℕ
  pub pull_rps : ℕ
  pub ack_rps : ℕ

abbrev pub default_endpoints : EndpointRateLimit
default_endpoints = record { push_rps = 10; pull_rps = 5; ack_rps = 10 }

pub record RateLimitConfig : Type 0 where
  pub enabled : Bool
  pub per_ip_rps : ℕ
  pub burst : ℕ
  pub ban_seconds : ℕ
  pub endpoints : EndpointRateLimit

abbrev pub default_rate_limit : RateLimitConfig
default_rate_limit = record {
  enabled = true;
  per_ip_rps = 20;
  burst = 40;
  ban_seconds = 300;
  endpoints = default_endpoints;
}

pub record RelayConfig : Type 0 where
  pub address : Text
  pub mode : RelayMode
  pub tls : Option TlsConfig
  pub storage : StorageConfig
  pub relay : RelayLimits
  pub rate_limit : RateLimitConfig

abbrev pub default_mode : RelayMode
default_mode = http_mode

abbrev pub default_config : RelayConfig
default_config = record {
  address = codes "127.0.0.1:0";
  mode = http_mode;
  tls = none;
  storage = default_storage;
  relay = default_limits;
  rate_limit = default_rate_limit;
}

-- The `match self.mode` of `validate`.
unfoldable pub validate_mode : Features → RelayMode → Option TlsConfig → Result (Unit {0})
validate_mode features http_mode tls = ok tt
validate_mode features tls_mode none = err (config "tls mode requires tls config")
validate_mode features tls_mode (some _) =
    if features.tls then ok tt else err (disabled "tls feature not enabled")

unfoldable pub validate_relay : RelayLimits → Result (Unit {0})
validate_relay relay = do
  reject (eqb relay.max_message_bytes 0) (config "max_message_bytes must be positive")
  reject (eqb relay.max_queue_bytes_per_user 0) (config "max_queue_bytes_per_user must be positive")
  reject (eqb relay.max_messages_per_user 0) (config "max_messages_per_user must be positive")
  reject (eqb relay.pull_batch_max 0) (config "pull_batch_max must be positive")
  reject (eqb relay.gc_interval_seconds 0) (config "gc_interval_seconds must be positive")

unfoldable pub validate_rate_limit : RateLimitConfig → Result (Unit {0})
validate_rate_limit r =
    if r.enabled
    then (do
      reject (eqb r.per_ip_rps 0) (config "rate_limit.per_ip_rps must be positive")
      reject (eqb r.burst 0) (config "rate_limit.burst must be positive")
      reject (eqb r.endpoints.push_rps 0 || eqb r.endpoints.pull_rps 0 || eqb r.endpoints.ack_rps 0)
          (config "endpoint rate limits must be positive"))
    else ok tt

-- The `match self.storage.kind` of `validate`.
unfoldable pub validate_storage : Features → StorageKind → Result (Unit {0})
validate_storage features sled =
    if features.persistence then ok tt else err (disabled "persistence feature not enabled")
validate_storage features memory = ok tt

unfoldable pub validate : Features → RelayConfig → Result (Unit {0})
validate features c = do
  reject (is_empty (trim c.address)) (config "address is required")
  validate_mode features c.mode c.tls
  validate_relay c.relay
  validate_rate_limit c.rate_limit
  validate_storage features c.storage.kind

-- `load`, with the file read (`std::fs`) and the TOML parsed (the toml crate) by the parameters.
unfoldable pub load :
    (String → Result String)
    → (String → Result RelayConfig)
    → Features
    → String
    → Result RelayConfig
unfolding validate
load read_to_string from_str features path = do
  raw ← read_to_string path
  cfg ← from_str raw
  validate features cfg
  ok cfg
