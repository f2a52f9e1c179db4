-- ===== src/Server/Effects.antt =====
-- What the handlers of src/server.rs do to the store.
use enigma_relay.Base.{ℕ, ◌≡◌, ◌⊎◌, inl, inr, arith, map, min}
use enigma_relay.Base.Text.{Text, codes}
use enigma_relay.Error.Action.{◌>>=◌}
use enigma_relay.Error.{EnigmaRelayError, ok, err, Result-cases}
use enigma_relay.Config.{Features}
use enigma_relay.Model.{PushRequest, PullRequest, AckRequest}
use enigma_relay.Limiter.{F64}
use enigma_relay.Store.{RelayStore, Base64, InboundMessage}
use mathlib.Core.Option
use enigma_relay.Ttl.{now_millis}
use enigma_relay.Server.{Request, AppState, count, call, ask, check_rate, enforce_rate}
use enigma_relay.Server.Inbound.{build_inbound_message}
use enigma_relay.Server.Handlers
use enigma_relay.Server.Handlers.{to_item}

module _ (f : F64) (relay_store : RelayStore) (features : Features) where
  -- A handler that starts in `s` leaves the store, and the configuration as it is.
  pub record Leaves (store : relay_store.State) (s s' : AppState f relay_store features)
      : Type 0 where
    pub stored : s'.store ≡ store
    pub config : s'.config ≡ s.config

  pub enforce_rate-Leaves :
      (req : Request) (label : Text) (s : AppState f relay_store features)
      → Leaves s.store s (enforce_rate f relay_store features req label s).1
  unfolding enforce_rate check_rate ask count ◌>>=◌
  enforce_rate-Leaves req label s = ground arith

  module _ (standard : Base64) (req : Request) (s : AppState f relay_store features) where
    push-invalid :
        (body : PushRequest) (e : EnigmaRelayError)
        → build_inbound_message standard (now_millis req.time) body s.config.relay ≡ err e
        → Leaves s.store s (Handlers.push f relay_store features standard req body s).1
    unfolding Handlers.push count call ◌>>=◌
    push-invalid body e invalid = ground (arith, enforce_rate-Leaves req (codes "push") s)

    push-built :
        (body : PushRequest) (msg : InboundMessage)
        → build_inbound_message standard (now_millis req.time) body s.config.relay ≡ ok msg
        → Leaves s.store s (Handlers.push f relay_store features standard req body s).1
          ⊎ Leaves
              (relay_store.push msg s.config.relay s.store).1
              s
              (Handlers.push f relay_store features standard req body s).1
    unfolding Handlers.push count call ◌>>=◌
    push-built body msg built = ground (arith, enforce_rate-Leaves req (codes "push") s)

    -- A push leaves the store as it is, or makes one push of the message that is built of its body.
    pub push-Leaves :
        (body : PushRequest)
        → Leaves s.store s (Handlers.push f relay_store features standard req body s).1
          ⊎ (msg : InboundMessage) × (build_inbound_message standard
                (now_millis req.time)
                body
                s.config.relay
              ≡ ok msg)
            × Leaves
                (relay_store.push msg s.config.relay s.store).1
                s
                (Handlers.push f relay_store features standard req body s).1
    push-Leaves body =
        elim (Result-cases
          (build_inbound_message standard (now_millis req.time) body s.config.relay)) [
            | inr (e, invalid) ↦ inl (push-invalid body e invalid)
            | inl (msg, built) ↦ elim (push-built body msg built) [
              | inl same ↦ inl same
              | inr pushed ↦ inr (msg, built, pushed)
            ]
          ]

    -- The number of messages that a pull asks the store for.
    abbrev pub clamped : PullRequest → ℕ
    clamped body =
        min (Option.get_or body.max s.config.relay.pull_batch_max) s.config.relay.pull_batch_max

    -- A pull leaves the store as it is, or makes one pull at the current time.
    pub pull-Leaves :
        (body : PullRequest)
        → Leaves s.store s (Handlers.pull f relay_store features standard req body s).1
          ⊎ Leaves
              (relay_store.pull body.recipient body.cursor
                (clamped body)
                (now_millis req.time)
                s.store).1
              s
              (Handlers.pull f relay_store features standard req body s).1
    unfolding Handlers.pull count call ◌>>=◌
    pull-Leaves body = ground (arith, enforce_rate-Leaves req (codes "pull") s)

    -- An acknowledgement leaves the store as it is, or makes one acknowledgement of its items.
    pub ack-Leaves :
        (body : AckRequest)
        → Leaves s.store s (Handlers.ack f relay_store features standard req body s).1
          ⊎ Leaves
              (relay_store.ack body.recipient (map to_item body.ack) s.store).1
              s
              (Handlers.ack f relay_store features standard req body s).1
    unfolding Handlers.ack count call ◌>>=◌
    ack-Leaves body = ground (arith, enforce_rate-Leaves req (codes "ack") s)
