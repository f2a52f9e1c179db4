-- ===== src/Server.antt =====
-- src/server.rs: the state of the application and the handlers. A handler answers with the response
-- record, or with an error, and leaves a state; it reads its store through `RelayStore`. The JSON of
-- a body and the HTTP around it are left to actix-web and serde.
pub mod Inbound
pub mod Handlers
pub mod Effects
pub mod Answers
pub mod Rates
pub mod Pages
pub mod Start
pub mod Tls
pub mod Listen
pub mod Run
use enigma_relay.Base.{
  ℕ, ◌+◌, ◌*◌, ◌/◌, ◌%◌, ◌^◌, Bool, true, false, not, ◌&&◌, Option, none, some, List, [],
  if◌then◌else◌,
}
use enigma_relay.Base.Text.{Text, codes}
use enigma_relay.Base.Eq.{◌==◌, list_eq, nat_eq}
use enigma_relay.Error.{EnigmaRelayError, Result, ok, err, rate_limited}
use enigma_relay.Error.Action.{Action, ◌>>=◌, ◌>>◌, lift}
use enigma_relay.Config.{Features, RelayConfig, RateLimitConfig}
use enigma_relay.Metrics.{RelayMetrics, fetch_add}
use enigma_relay.Limiter.{F64, IpAddr, v4, RateLimiter, allow}
use mathlib.Core.Option
use enigma_relay.Ttl.{run_tick}
use enigma_relay.Store.{RelayStore}

-- What a handler reads of the request and of the clocks: the address of the peer, the instants at
-- which the limiter is asked, and the time of day.
pub record Request : Type 0 where
  pub peer_addr : Option IpAddr
  pub global_at : ℕ
  pub endpoint_at : ℕ
  pub time : Option ℕ

abbrev localhost : IpAddr
localhost = v4 (127 * 2 ^ 24 + 1)

unfoldable pub peer_ip : Request → IpAddr
peer_ip req = elim req.peer_addr [ none ↦ localhost | some ip ↦ ip ]

-- The rate of an endpoint, by its label.
unfoldable pub endpoint_rps : RateLimitConfig → Text → ℕ
endpoint_rps cfg label =
    if label == codes "push"
    then cfg.endpoints.push_rps
    else if label == codes "pull"
    then cfg.endpoints.pull_rps
    else if label == codes "ack"
    then cfg.endpoints.ack_rps
    else cfg.per_ip_rps

module _ (f : F64) (relay_store : RelayStore) (features : Features) where
  pub record AppState : Type 0 where
    pub store : relay_store.State
    pub config : RelayConfig
    pub rate_limiter : RateLimiter f
    pub started : ℕ
    pub metrics : RelayMetrics

  -- An update of the counters, which are there with the feature `metrics` only.
  unfoldable pub count : (RelayMetrics → RelayMetrics) → Action AppState (Unit {0})
  count update state = (
    ok tt,
    record state { metrics = if features.metrics then update state.metrics else state.metrics },
  )

  -- A call of the store.
  unfoldable pub call {ℓ} :
      {A : Type ℓ} → (relay_store.State → Result A × relay_store.State) → Action AppState A
  call method state =
      let (result, store) = method state.store in (result, record state { store = store })

  -- A call of the limiter.
  unfoldable pub ask : ℕ → IpAddr → Text → ℕ → ℕ → Action AppState Bool
  ask now ip label rps burst state =
      let (allowed, limiter) =
        allow f now ip label (f.of_u64 rps) (f.of_u64 burst) state.rate_limiter in
      (ok allowed, record state { rate_limiter = limiter })

  abbrev refuse : Action AppState (Unit {0})
  refuse = do
    count (λ m. record m { rate_limited = fetch_add m.rate_limited 1 })
    lift (err rate_limited)

  -- `enforce_rate` of an enabled limiter: both buckets are asked, also if the first one refuses.
  unfoldable pub check_rate : Request → Text → RateLimitConfig → Action AppState (Unit {0})
  check_rate req label cfg = do
    let ip = peer_ip req
    global_ok ← ask req.global_at ip (codes "global") cfg.per_ip_rps cfg.burst
    endpoint_ok ← ask req.endpoint_at ip label (endpoint_rps cfg label) cfg.burst
    if global_ok && endpoint_ok then lift (ok tt) else refuse

  unfoldable pub enforce_rate : Request → Text → Action AppState (Unit {0})
  enforce_rate req label state =
      if state.rate_limiter.enabled
      then check_rate req label state.config.rate_limit state
      else (ok tt, state)

  -- A tick of the collector that the server starts, with its counters if it has them.
  unfoldable pub gc_tick : Option ℕ → AppState → AppState
  gc_tick time state =
      let metrics = if features.metrics then some state.metrics else none in
      let (store, metrics') = run_tick relay_store time (state.store, metrics) in
      record state { store = store; metrics = Option.get_or metrics' state.metrics }
