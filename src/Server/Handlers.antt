-- ===== src/Server/Handlers.antt =====
-- src/server.rs: the handlers of the routes, over any store.
use enigma_relay.Base.{
  ℕ, ◌/◌, ◌%◌, ◌^◌, ◌-◌, Bool, Option, none, some, map, eqb, min, if◌then◌else◌,
}
use enigma_relay.Base.Text.{Text, codes, trim, is_empty}
use enigma_relay.Error.{Result, ok, reject, invalid_input}
use enigma_relay.Config.{Features}
use enigma_relay.Model.{
  PushRequest, PushResponse, PullRequest, PullResponse, AckEntry, AckRequest, AckResponse,
}
use enigma_relay.Metrics.{RelayMetrics, MetricsSnapshot, fetch_add, snapshot}
use enigma_relay.Limiter.{F64}
use enigma_relay.Store.{RelayStore, Base64, AckItem}
use mathlib.Core.Option
use enigma_relay.Server.{Request, AppState, count, call, enforce_rate}
use enigma_relay.Error.Action.{Action, ◌>>=◌, ◌>>◌, lift}
use enigma_relay.Ttl.{now_millis}
use enigma_relay.Server.Inbound.{build_inbound_message, to_delivery}

-- The body of `/health`, and of `/stats`.
pub record HealthResponse : Type 0 where
  pub status : Text

pub record StatsResponse : Type 0 where
  pub status : Text
  pub uptime_ms : ℕ
  pub metrics : Option MetricsSnapshot

abbrev pub to_item : AckEntry → AckItem
to_item entry = record { message_id = entry.message_id; chunk_index = entry.chunk_index }

module _ (f : F64) (relay_store : RelayStore) (features : Features) (standard : Base64) where
  abbrev Step {ℓ} : Type ℓ → Type ℓ
  Step A = Action (AppState f relay_store features) A

  -- The configuration, which no handler changes.
  abbrev with_state {ℓ} : {A : Type ℓ} → (AppState f relay_store features → Step A) → Step A
  with_state k state = k state state

  abbrev counted : (RelayMetrics → RelayMetrics) → Step (Unit {0})
  counted = count f relay_store features

  abbrev called {ℓ} : {A : Type ℓ} → (relay_store.State → Result A × relay_store.State) → Step A
  called = call f relay_store features

  -- `if test { counter.fetch_add(1) }`
  abbrev counted_if : Bool → (RelayMetrics → RelayMetrics) → Step (Unit {0})
  counted_if test update = if test then counted update else lift (ok tt)

  unfoldable pub push : Request → PushRequest → Step PushResponse
  push req body = with_state λ state. do
    enforce_rate f relay_store features req (codes "push")
    counted (λ m. record m { push_total = fetch_add m.push_total 1 })
    msg ← lift (build_inbound_message standard (now_millis req.time) body state.config.relay)
    result ← called (relay_store.push msg state.config.relay)
    counted_if result.stored (λ m. record m { push_stored = fetch_add m.push_stored 1 })
    counted_if result.duplicate (λ m. record m { duplicates = fetch_add m.duplicates 1 })
    lift (
        ok (record {
          stored = result.stored;
          duplicate = result.duplicate;
          queue_len = some result.queue_len;
          queue_bytes = some result.queue_bytes;
        }))

  unfoldable pub pull : Request → PullRequest → Step PullResponse
  pull req body = with_state λ state. do
    enforce_rate f relay_store features req (codes "pull")
    counted (λ m. record m { pull_total = fetch_add m.pull_total 1 })
    lift (reject (is_empty (trim body.recipient)) (invalid_input "recipient required"))
    let max = Option.get_or body.max state.config.relay.pull_batch_max
    lift (reject (eqb max 0) (invalid_input "max must be positive"))
    let clamped = min max state.config.relay.pull_batch_max
    batch ← called (relay_store.pull body.recipient body.cursor clamped (now_millis req.time))
    lift (
        ok (record {
          items = map to_delivery batch.items;
          next_cursor = batch.next_cursor;
          remaining_estimate = batch.remaining_estimate;
        }))

  unfoldable pub ack : Request → AckRequest → Step AckResponse
  ack req body = do
    enforce_rate f relay_store features req (codes "ack")
    counted (λ m. record m { ack_total = fetch_add m.ack_total 1 })
    lift (reject (is_empty (trim body.recipient)) (invalid_input "recipient required"))
    let items = map to_item body.ack
    outcome ← called (relay_store.ack body.recipient items)
    counted (λ m. record m { ack_deleted = fetch_add m.ack_deleted outcome.deleted })
    lift (
        ok (record {
          deleted = outcome.deleted;
          missing = outcome.missing;
          remaining = outcome.remaining;
        }))

  unfoldable pub health : Step HealthResponse
  health = lift (ok (record { status = codes "ok" }))

  -- At the instant `now`, which the source reads from the clock.
  unfoldable pub stats : ℕ → Step StatsResponse
  stats now state =
      let uptime_ms = ((now - state.started) / 10 ^ 6) % 2 ^ 64 in
      (
        ok (record {
          status = codes "ok";
          uptime_ms = uptime_ms;
          metrics = if features.metrics then some (snapshot state.metrics) else none;
        }),
        state,
      )
