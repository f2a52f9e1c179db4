-- ===== src/Server/Inbound.antt =====
-- src/server.rs: `build_inbound_message` and `to_delivery`.
use enigma_relay.Base.{
  ℕ, ◌+◌, ◌*◌, ◌≤◌, ◌<◌, ◌≡◌, ◌↔◌, false, some, List, arith, eqb, leb, ltb, length, sat_add,
  sat_mul, u64_max, min, Option-cases, inl, inr,
}
use enigma_relay.Base.Text.{trim, is_empty}
use enigma_relay.Base.Utf8.{as_bytes}
use enigma_relay.Error.{Result, ok, ◌>>=◌, ◌>>◌, reject, ok_or, invalid_input}
use enigma_relay.Config.{RelayLimits}
use enigma_relay.Model.{PushRequest, DeliveryItem}
use enigma_relay.Store.{Base64, InboundMessage, QueueMessage}

unfoldable pub to_delivery : QueueMessage → DeliveryItem
to_delivery msg = record {
  recipient = msg.recipient;
  message_id = msg.message_id;
  ciphertext_b64 = msg.ciphertext_b64;
  meta = msg.meta;
  arrival_ms = msg.arrival_ms;
  deadline_ms = msg.deadline_ms;
}

module _ (standard : Base64) where
  -- At the time `arrival_ms`, which the source reads from the clock.
  unfoldable pub build_inbound_message : ℕ → PushRequest → RelayLimits → Result InboundMessage
  build_inbound_message arrival_ms body limits = do
    reject (is_empty (trim body.recipient)) (invalid_input "recipient required")
    reject (eqb body.meta.chunk_count 0) (invalid_input "chunk_count must be positive")
    reject (leb body.meta.chunk_count body.meta.chunk_index)
        (invalid_input "chunk_index out of range")
    reject (is_empty (trim body.meta.kind)) (invalid_input "kind required")
    decoded ←
        ok_or (standard.decode (as_bytes body.ciphertext_b64)) (invalid_input "invalid base64")
    let payload_bytes = length decoded
    reject (ltb limits.max_message_bytes payload_bytes) (invalid_input "message too large")
    let ttl_ms = sat_mul limits.message_ttl_seconds 1000
    let deadline_ms = sat_add arrival_ms ttl_ms
    ok (record {
      recipient = body.recipient;
      message_id = body.message_id;
      ciphertext_b64 = body.ciphertext_b64;
      meta = body.meta;
      payload_bytes = payload_bytes;
      arrival_ms = arrival_ms;
      deadline_ms = deadline_ms;
    })

  -- A body that the server accepts, and the message that it makes of it.
  pub record Accepts (arrival_ms : ℕ) (body : PushRequest) (limits : RelayLimits)
      (m : InboundMessage) : Type 0 where
    pub recipient_given : is_empty (trim body.recipient) ≡ false
    pub in_range : body.meta.chunk_index < body.meta.chunk_count
    pub kind_given : is_empty (trim body.meta.kind) ≡ false
    pub decodes :
        (decoded : List ℕ) × (standard.decode (as_bytes body.ciphertext_b64) ≡ some decoded)
        × (length decoded ≡ m.payload_bytes)
    pub small : m.payload_bytes ≤ limits.max_message_bytes
    pub same_recipient : m.recipient ≡ body.recipient
    pub same_id : m.message_id ≡ body.message_id
    pub same_text : m.ciphertext_b64 ≡ body.ciphertext_b64
    pub same_meta : m.meta ≡ body.meta
    pub arrives : m.arrival_ms ≡ arrival_ms
    pub expires :
        m.deadline_ms ≡ min (arrival_ms + min (limits.message_ttl_seconds * 1000) u64_max) u64_max

  module _ (arrival_ms : ℕ) (body : PushRequest) (limits : RelayLimits) (m : InboundMessage) where
    build-Accepts :
        build_inbound_message arrival_ms body limits ≡ ok m → Accepts arrival_ms body limits m
    unfolding build_inbound_message
    build-Accepts e = elim (Option-cases (standard.decode (as_bytes body.ciphertext_b64))) [
      | inl none_decoded ↦ ground arith
      | inr (decoded, d) ↦ ground arith
    ]

    Accepts-build :
        Accepts arrival_ms body limits m → build_inbound_message arrival_ms body limits ≡ ok m
    unfolding build_inbound_message
    Accepts-build a = let (decoded, d, n) = a.decodes in ground (arith, d, n)

    -- The server makes a message of a body exactly if the recipient and the kind are not blank, the
    -- chunk is one of the chunks, and the text decodes to a payload within the limit; the message
    -- carries the fields of the body, and expires when its time to live has passed, or at the last
    -- u64 value.
    pub build_inbound_message_iff :
        (build_inbound_message arrival_ms body limits ≡ ok m) ↔ Accepts arrival_ms body limits m
    build_inbound_message_iff = (build-Accepts, Accepts-build)

  pub build-recipient :
      (arrival_ms : ℕ) (body : PushRequest) (limits : RelayLimits) (m : InboundMessage)
      → build_inbound_message arrival_ms body limits ≡ ok m
      → m.recipient ≡ body.recipient
  build-recipient arrival_ms body limits m e =
      ((build_inbound_message_iff arrival_ms body limits m).0 e).same_recipient
