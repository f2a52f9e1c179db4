-- ===== src/Server/Listen/Started.antt =====
-- What a relay that src/server.rs has started is.
use enigma_relay.Base.{◌≡◌, true, none, some, [], ◌∷◌, ◌++◌, if◌then◌else◌, ℕ}
use enigma_relay.Base.Text.{Text, codes}
use enigma_relay.Error.{ok, Attempt, done}
use enigma_relay.Config.{Features, RelayConfig, RelayMode, http_mode, tls_mode, TlsConfig, validate}
use enigma_relay.Limiter.{F64}
use enigma_relay.Store.{DynRelayStore}
use enigma_relay.Server.{AppState}
use enigma_relay.Server.Tls.{Rustls, Secures}
use enigma_relay.Server.Listen.{
  Net, RunningRelay, get, post, to_push, to_pull, to_ack, to_health, to_stats,
}

-- What a server listens at, and with what.
module _ (r : Rustls) (net : Net r.ServerConfig) where
  -- The listener is bound to the address and does not block; `addr` is the one that it got.
  pub record Serves (address : Text) (listen : net.TcpListener → Attempt net.Server)
      (server : net.Server) (addr : Text) : Type 0 where
    pub bound : net.TcpListener
    pub listener : net.TcpListener
    pub at_address : net.bind address ≡ done bound
    pub nonblocking : net.set_nonblocking bound ≡ done listener
    pub got : net.local_addr listener ≡ done addr
    pub listens : listen listener ≡ done server

  -- The server has the builder, and the relay the address that the listener got, after the scheme of the
  -- mode. In the mode `tls` there is the feature, and the configuration of rustls is made as that of the
  -- relay says.
  abbrev pub ServesMode :
      Features → RelayConfig → RelayMode → net.Builder → net.Server → Text → Type 0
  ServesMode features cfg http_mode builder server url =
      (addr : Text) × Serves cfg.address (λ listener. net.listen listener builder) server addr
      × (url ≡ codes "http://" ++ addr)
  ServesMode features cfg tls_mode builder server url =
      (features.tls ≡ true)
      × ((addr : Text) × (tls_cfg : TlsConfig) × (c : r.ServerConfig) × (cfg.tls ≡ some tls_cfg)
          × Secures r features tls_cfg c
          × Serves cfg.address (λ listener. net.listen_rustls listener c builder) server addr
          × (url ≡ codes "https://" ++ addr))

  module _ (f : F64) (features : Features) where
    -- What a relay that runs is: `state` is what its handlers share.
    pub record Started (now : ℕ) (store : DynRelayStore) (cfg : RelayConfig)
        (relay : RunningRelay r net) : Type 1 where
      pub state : AppState f store.relay_store features
      pub valid : validate features cfg ≡ ok tt
      pub store_given : state.store ≡ store.state
      pub config_given : state.config ≡ cfg
      pub enabled : state.rate_limiter.enabled ≡ cfg.rate_limit.enabled
      pub bans : state.rate_limiter.ban_seconds ≡ cfg.rate_limit.ban_seconds
      pub no_buckets : state.rate_limiter.buckets ≡ []
      pub serves :
          ServesMode features cfg cfg.mode
            (net.http_server state (
              record { path = codes "/push"; method = post; handler = to_push }
              ∷ record { path = codes "/pull"; method = post; handler = to_pull }
              ∷ record { path = codes "/ack"; method = post; handler = to_ack }
              ∷ record { path = codes "/health"; method = get; handler = to_health }
              ∷ record { path = codes "/stats"; method = get; handler = to_stats }
              ∷ []))
            relay.handle.server
            relay.base_url
      pub collects : relay.handle.gc_task.store ≡ store
      pub collected_under : relay.handle.gc_task.limits ≡ cfg.relay
      pub counts :
          relay.handle.gc_task.metrics ≡ (if features.metrics then some state.metrics else none)
      pub stopped_by : relay.shutdown ≡ net.channel.0
      pub server_waits : relay.handle.shutdown ≡ net.channel.1
      pub gc_waits : relay.handle.gc_task.shutdown ≡ net.channel.1

    record Given (store : DynRelayStore) (cfg : RelayConfig)
        (state : AppState f store.relay_store features) : Type 0 where
      valid : validate features cfg ≡ ok tt
      store_given : state.store ≡ store.state
      config_given : state.config ≡ cfg
      enabled : state.rate_limiter.enabled ≡ cfg.rate_limit.enabled
      bans : state.rate_limiter.ban_seconds ≡ cfg.rate_limit.ban_seconds
      no_buckets : state.rate_limiter.buckets ≡ []
