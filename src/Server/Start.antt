-- ===== src/Server/Start.antt =====
-- src/server.rs: the state that `start` and `initial_state` give the server.
use enigma_relay.Base.{ℕ, if◌then◌else◌}
use enigma_relay.Error.{Result, ok, err, ◌>>◌, disabled}
use enigma_relay.Config.{Features, RelayConfig, StorageKind, sled, memory, validate}
use enigma_relay.Metrics.{default_metrics}
use enigma_relay.Limiter
use enigma_relay.Limiter.{F64}
use enigma_relay.Store.{RelayStore}
use enigma_relay.Server.{AppState}

-- The state of a server over a store, started at the instant.
unfoldable pub initial_state :
    (f : F64) (relay_store : RelayStore) (features : Features)
    → ℕ
    → relay_store.State
    → RelayConfig
    → Result (AppState f relay_store features)
initial_state f relay_store features started store cfg = do
  validate features cfg
  ok (record {
    store = store;
    config = cfg;
    rate_limiter = Limiter.new f cfg.rate_limit.enabled cfg.rate_limit.ban_seconds;
    started = started;
    metrics = default_metrics;
  })

-- The store that `start` opens: `sled_new` and `mem_new` are the constructors of the two stores.
unfoldable pub open_store {ℓ} :
    {Store : Type ℓ} → Features → Result Store → Store → StorageKind → Result Store
open_store features sled_new mem_new memory = ok mem_new
open_store features sled_new mem_new sled =
    if features.persistence then sled_new else err (disabled "persistence feature not enabled")
