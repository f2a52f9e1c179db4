-- ===== src/Server/Answers.antt =====
-- What the handlers of src/server.rs answer.
use enigma_relay.Base.{ℕ, ◌≡◌, ◌<◌, ◌≤◌, false, map, some, arith, inl, inr}
use enigma_relay.Base.Text.{codes, trim, is_empty}
use enigma_relay.Error.Action.{◌>>=◌}
use enigma_relay.Error.{ok, Result-cases}
use enigma_relay.Config.{Features}
use enigma_relay.Model.{
  PushRequest, PushResponse, PullRequest, PullResponse, AckEntry, AckRequest, AckResponse,
}
use enigma_relay.Limiter.{F64}
use enigma_relay.Store.{
  RelayStore, Base64, InboundMessage, QueueMessage, PushResult, PullBatch, AckOutcome,
}
use enigma_relay.Ttl.{now_millis}
use enigma_relay.Server.{Request, AppState, count, call}
use enigma_relay.Server.Inbound.{build_inbound_message, to_delivery}
use enigma_relay.Server.Handlers
use enigma_relay.Server.Handlers.{to_item}
use enigma_relay.Server.Effects.{enforce_rate-Leaves, clamped}

module _ (f : F64) (relay_store : RelayStore) (features : Features) where
  module _ (standard : Base64) (req : Request) (s : AppState f relay_store features) where
    -- A push that is answered has passed the checks of its body; the store was asked to push the
    -- message that is built of it, and the answer is what the store said.
    pub push-ok :
        (body : PushRequest) (r : PushResponse)
        → (Handlers.push f relay_store features standard req body s).0 ≡ ok r
        → (msg : InboundMessage) × (result : PushResult) × (build_inbound_message standard
              (now_millis req.time)
              body
              s.config.relay
            ≡ ok msg)
          × ((relay_store.push msg s.config.relay s.store).0 ≡ ok result)
          × ((Handlers.push f relay_store features standard req body s).1.store
              ≡ (relay_store.push msg s.config.relay s.store).1)
          × (r ≡ record {
            stored = result.stored;
            duplicate = result.duplicate;
            queue_len = some result.queue_len;
            queue_bytes = some result.queue_bytes;
          })
    unfolding Handlers.push count call ◌>>=◌
    push-ok body r e =
        let kept = enforce_rate-Leaves f relay_store features req (codes "push") s in
        elim (Result-cases
          (build_inbound_message standard (now_millis req.time) body s.config.relay)) [
            | inr (e', invalid) ↦ absurd (ground (arith, kept))
            | inl (msg, built) ↦
                elim (Result-cases (relay_store.push msg s.config.relay s.store).0) [
                  | inr (e', full) ↦ absurd (ground (arith, kept))
                  | inl (result, taken) ↦
                      (msg, result, built, taken, ground (arith, kept), ground (arith, kept))
                ]
          ]

    -- A pull that is answered names a recipient that is not blank; it asked
    -- the store for a positive number of messages, `pull_batch_max` at most, and the answer has the
    -- messages of the batch of the store in their order, each with its recipient, id, text, meta, arrival and
    -- deadline, and the cursor and the estimate of the batch, if `pull_batch_max` is positive.
    pub pull-ok :
        (body : PullRequest) (r : PullResponse)
        → 0 < s.config.relay.pull_batch_max
        → (Handlers.pull f relay_store features standard req body s).0 ≡ ok r
        → (limit : ℕ) × (batch : PullBatch) × (is_empty (trim body.recipient) ≡ false)
          × (0 < limit)
          × (limit ≤ s.config.relay.pull_batch_max)
          × ((relay_store.pull body.recipient body.cursor limit (now_millis req.time) s.store).0
              ≡ ok batch)
          × ((Handlers.pull f relay_store features standard req body s).1.store
              ≡ (relay_store.pull body.recipient body.cursor limit (now_millis req.time) s.store).1)
          × (r ≡ record {
            items =
                map
                  (λ (m : QueueMessage). record {
                    recipient = m.recipient;
                    message_id = m.message_id;
                    ciphertext_b64 = m.ciphertext_b64;
                    meta = m.meta;
                    arrival_ms = m.arrival_ms;
                    deadline_ms = m.deadline_ms;
                  })
                  batch.items;
            next_cursor = batch.next_cursor;
            remaining_estimate = batch.remaining_estimate;
          })
    unfolding Handlers.pull to_delivery count call ◌>>=◌
    pull-ok body r p e =
        let kept = enforce_rate-Leaves f relay_store features req (codes "pull") s in
        let limit = clamped f relay_store features standard req s body in
        elim (Result-cases
          (relay_store.pull body.recipient body.cursor limit (now_millis req.time) s.store).0) [
            | inr (e', failed) ↦ absurd (ground (arith, kept))
            | inl (batch, taken) ↦ (
              limit,
              batch,
              ground (arith, kept),
              ground (arith, kept),
              omega arith,
              taken,
              ground (arith, kept),
              ground (arith, kept),
            )
          ]

    -- An acknowledgement that is answered names a recipient that is not blank; the answer is the outcome
    -- of the store for the ids and the chunk indexes of the body, in their order.
    pub ack-ok :
        (body : AckRequest) (r : AckResponse)
        → (Handlers.ack f relay_store features standard req body s).0 ≡ ok r
        → (outcome : AckOutcome) × (is_empty (trim body.recipient) ≡ false)
          × ((relay_store.ack body.recipient
                (map
                  (λ (entry : AckEntry). record {
                    message_id = entry.message_id;
                    chunk_index = entry.chunk_index;
                  })
                  body.ack)
                s.store).0
              ≡ ok outcome)
          × ((Handlers.ack f relay_store features standard req body s).1.store
              ≡ (relay_store.ack body.recipient
                  (map
                    (λ (entry : AckEntry). record {
                      message_id = entry.message_id;
                      chunk_index = entry.chunk_index;
                    })
                    body.ack)
                  s.store).1)
          × (r ≡ record {
            deleted = outcome.deleted;
            missing = outcome.missing;
            remaining = outcome.remaining;
          })
    unfolding Handlers.ack count call ◌>>=◌
    ack-ok body r e =
        let kept = enforce_rate-Leaves f relay_store features req (codes "ack") s in
        elim (Result-cases
          (relay_store.ack body.recipient
            (map
              (λ (entry : AckEntry). record {
                message_id = entry.message_id;
                chunk_index = entry.chunk_index;
              })
              body.ack)
            s.store).0) [
              | inr (e', failed) ↦ absurd (ground (arith, kept))
              | inl (outcome, taken) ↦
                  (outcome, ground (arith, kept), taken, ground (arith, kept), ground (arith, kept))
            ]
