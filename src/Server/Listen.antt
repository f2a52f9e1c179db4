-- ===== src/Server/Listen.antt =====
-- src/server.rs: `build_server`, `start_with_store` and `start`. The sockets and the server of
-- actix-web are an interface; a task that is spawned is the record of what it is given.
pub mod Started
use enigma_relay.Base.{
  ◌≡◌, ◌⊎◌, refl, ap, ◌∙◌, Option, none, some, List, [], ◌∷◌, ◌++◌, if◌then◌else◌, Bool-cases, inl,
  inr, ℕ,
}
use enigma_relay.Base.Text.{Text, codes}
use enigma_relay.Error.{
  EnigmaRelayError, Result, ok, err, ◌>>=◌, ◌>>◌, ok_or, config, disabled, from_io, Attempt, done,
  failed, then_ok, Result-cases,
}
use enigma_relay.Config.{Features, RelayConfig, RelayMode, RelayLimits, http_mode, tls_mode}
use enigma_relay.Limiter.{F64}
use enigma_relay.Store.{DynRelayStore, Base64, AckItem, QueueMessage}
use enigma_relay.StoreMem.{mem_store}
use enigma_relay.StoreSled.{sled_store}
use enigma_relay.StoreSled.Keys.{Hyphenated}
use enigma_relay.StoreSled.Db.{Sled, Json}
use enigma_relay.StoreSled.State.{QuotaValue, new}
use enigma_relay.Metrics.{RelayMetrics}
use enigma_relay.Server.Start.{initial_state, open_store}
use enigma_relay.Server.Tls.{Rustls, build_rustls_config}

-- The routes of the server, each with its handler.
pub data Method : Type 0 where
  get post : Method

pub data Handler : Type 0 where
  to_push to_pull to_ack to_health to_stats : Handler

pub record Route : Type 0 where
  pub path : Text
  pub method : Method
  pub handler : Handler

abbrev pub routes : List Route
routes =
    record { path = codes "/push"; method = post; handler = to_push }
    ∷ record { path = codes "/pull"; method = post; handler = to_pull }
    ∷ record { path = codes "/ack"; method = post; handler = to_ack }
    ∷ record { path = codes "/health"; method = get; handler = to_health }
    ∷ record { path = codes "/stats"; method = get; handler = to_stats }
    ∷ []

-- `std::net`, and the builder and the server of actix-web. A builder is made of the state that the
-- handlers share and of the routes, and compresses what they answer; an address is the text that it is displayed as. `channel` makes a
-- sender and the signal that it gives.
pub record Net (ServerConfig : Type 0) : Type 1 where
  pub TcpListener : Type 0
  pub Builder : Type 0
  pub Server : Type 0
  pub Sender : Type 0
  pub ShutdownSignal : Type 0
  pub http_server : {State : Type 0} → State → List Route → Builder
  pub bind : Text → Attempt TcpListener
  pub set_nonblocking : TcpListener → Attempt TcpListener
  pub local_addr : TcpListener → Attempt Text
  pub listen : TcpListener → Builder → Attempt Server
  pub listen_rustls : TcpListener → ServerConfig → Builder → Attempt Server
  pub channel : Sender × ShutdownSignal

-- `r.map_err(|e| Internal(e.to_string()))`
abbrev pub or_internal : {A : Type 0} → Attempt A → Result A
or_internal (done a) = ok a
or_internal (failed text) = err (from_io text)

module _ (r : Rustls) (net : Net r.ServerConfig) where
  -- The listener is bound, and a server made of it.
  unfoldable pub serve_at :
      Text → (net.TcpListener → Attempt net.Server) → Result (net.Server × Text)
  serve_at address listen = do
    bound ← or_internal (net.bind address)
    listener ← or_internal (net.set_nonblocking bound)
    addr ← or_internal (net.local_addr listener)
    server ← or_internal (listen listener)
    ok (server, addr)

  unfoldable pub serve_tls : Features → RelayConfig → net.Builder → Result (net.Server × Text)
  serve_tls features cfg builder = do
    tls_cfg ← ok_or cfg.tls (config "missing tls config")
    server_config ← build_rustls_config r features tls_cfg
    serve_at cfg.address (λ listener. net.listen_rustls listener server_config builder)

  -- The arms of the match on the mode.
  unfoldable pub serve_mode :
      Features → RelayConfig → RelayMode → net.Builder → Result (net.Server × Text)
  serve_mode features cfg http_mode builder =
      serve_at cfg.address (λ listener. net.listen listener builder)
  serve_mode features cfg tls_mode builder =
      let served = serve_tls features cfg builder in
      if features.tls then served else err (disabled "tls feature not enabled")

  unfoldable pub build_server :
      {State : Type 0} → Features → State → RelayConfig → Result (net.Server × Text)
  build_server features state cfg = serve_mode features cfg cfg.mode (net.http_server state routes)

  abbrev pub scheme : RelayMode → Text
  scheme http_mode = codes "http"
  scheme tls_mode = codes "https"

  -- The task of the collector: the arguments of its `run_gc`.
  pub record GcTask : Type 1 where
    pub store : DynRelayStore
    pub limits : RelayLimits
    pub shutdown : net.ShutdownSignal
    pub metrics : Option RelayMetrics

  -- The task that waits for the signal, then stops the server, and waits for the collector and for the
  -- server to end.
  pub record Joined : Type 1 where
    pub shutdown : net.ShutdownSignal
    pub server : net.Server
    pub gc_task : GcTask

  pub record RunningRelay : Type 1 where
    pub base_url : Text
    pub shutdown : net.Sender
    pub handle : Joined

  module _ (f : F64) (features : Features) where
    unfoldable pub start_with_store : ℕ → DynRelayStore → RelayConfig → Result RunningRelay
    start_with_store now store cfg = do
      state ← initial_state f store.relay_store features now store.state cfg
      let (shutdown_tx, shutdown_signal) = net.channel
      built ← build_server features state cfg
      ok (record {
        base_url = scheme cfg.mode ++ (codes "://" ++ built.1);
        shutdown = shutdown_tx;
        handle = record {
          shutdown = shutdown_signal;
          server = built.0;
          gc_task = record {
            store = store;
            limits = cfg.relay;
            shutdown = shutdown_signal;
            metrics = if features.metrics then some state.metrics else none;
          };
        };
      })

    module _ (sled : Sled) (items : Json QueueMessage) (quotas : Json QuotaValue)
        (hyphenated : Hyphenated) (standard : Base64) (order : List AckItem → List AckItem) where
      abbrev pub new_sled : Text → Result DynRelayStore
      new_sled path = new sled path >>= (λ state. ok (record {
        relay_store = sled_store sled items quotas hyphenated standard order;
        state = state;
      }))

      abbrev pub new_mem : DynRelayStore
      new_mem = record { relay_store = mem_store standard order; state = [] }

      unfoldable pub start : ℕ → RelayConfig → Result RunningRelay
      start now cfg = do
        store ← open_store features (new_sled (codes cfg.storage.path)) new_mem cfg.storage.kind
        start_with_store now store cfg
