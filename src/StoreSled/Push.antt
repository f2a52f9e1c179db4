-- ===== src/StoreSled/Push.antt =====
-- src/store_sled.rs: `SledStore::push`. `push_tx` is the body of its transaction.
pub mod Written
pub mod Refines
use enigma_relay.Base.{ℕ, none, some, [], ◌∷◌, Bool, true, false, Option, ltb, sat_add}
use enigma_relay.Error.{Result, ok, quota_exceeded, reject}
use enigma_relay.Error.Action.{Action, ◌>>=◌, ◌>>◌, lift}
use enigma_relay.Config.{RelayLimits}
use enigma_relay.Store.{InboundMessage, QueueMessage, PushResult}
use enigma_relay.StoreMem.State.{to_stored}
use enigma_relay.StoreSled.Keys.{
  Hyphenated, message_key, index_key, quota_key, seq_key, encode_u64, decode_u64,
}
use enigma_relay.StoreSled.Db.{Bytes, Sled, Json}
use enigma_relay.StoreSled.State.{QuotaValue, SledStore}
use enigma_relay.StoreSled.Trees
use enigma_relay.StoreSled.Trees.{Column, decoded, read_quota_tx, transaction}

-- The next sequence number of a recipient, 0 if none is written.
abbrev pub decode_seq : Option Bytes → Result ℕ
decode_seq none = ok 0
decode_seq (some v) = decode_u64 v

module _ (sled : Sled) (items : Json QueueMessage) (quotas : Json QuotaValue)
    (hyphenated : Hyphenated) where
  -- The rest of the body, for a message that is not in the index.
  unfoldable pub store_new :
      InboundMessage → RelayLimits → Bytes → Action (SledStore sled) PushResult
  store_new msg limits idx_key = do
    quota_value ← read_quota_tx sled quotas (quota_key msg.recipient)
    let next_count = sat_add quota_value.count 1
    lift (reject (ltb limits.max_messages_per_user next_count) quota_exceeded)
    let next_bytes = sat_add quota_value.bytes msg.payload_bytes
    lift (reject (ltb limits.max_queue_bytes_per_user next_bytes) quota_exceeded)
    written ← Trees.get sled Column.seq (seq_key msg.recipient)
    arrival_seq ← lift (decode_seq written)
    let stored = to_stored msg arrival_seq
    let msg_key =
        message_key hyphenated msg.recipient arrival_seq msg.message_id msg.meta.chunk_index
    data_bytes ← decoded sled (items.to_vec stored)
    Trees.insert sled Column.messages msg_key data_bytes
    Trees.insert sled Column.index idx_key (encode_u64 arrival_seq)
    let quota_value' : QuotaValue = record { bytes = next_bytes; count = next_count }
    quota_data ← decoded sled (quotas.to_vec quota_value')
    Trees.insert sled Column.quota (quota_key msg.recipient) quota_data
    let next_seq = sat_add arrival_seq 1
    Trees.insert sled Column.seq (seq_key msg.recipient) (encode_u64 next_seq)
    lift (
        ok (record {
          stored = true;
          duplicate = false;
          queue_len = next_count;
          queue_bytes = next_bytes;
        }))

  unfoldable pub report_duplicate : InboundMessage → Action (SledStore sled) PushResult
  report_duplicate msg = do
    quota_value ← read_quota_tx sled quotas (quota_key msg.recipient)
    lift (
        ok (record {
          stored = false;
          duplicate = true;
          queue_len = quota_value.count;
          queue_bytes = quota_value.bytes;
        }))

  unfoldable pub push_tx : InboundMessage → RelayLimits → Action (SledStore sled) PushResult
  push_tx msg limits =
      let idx_key = index_key hyphenated msg.recipient msg.message_id msg.meta.chunk_index in
      Trees.get sled Column.index idx_key >>= λ found. elim found [
        | some _ ↦ report_duplicate msg
        | none ↦ store_new msg limits idx_key
      ]

  unfoldable pub push : InboundMessage → RelayLimits → Action (SledStore sled) PushResult
  push msg limits = do
    outcome ←
        transaction sled (Column.messages ∷ Column.index ∷ Column.quota ∷ Column.seq ∷ [])
          (push_tx msg limits)
    Trees.flush sled Column.messages
    Trees.flush sled Column.index
    Trees.flush sled Column.quota
    Trees.flush sled Column.seq
    lift (ok outcome)
