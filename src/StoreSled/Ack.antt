-- ===== src/StoreSled/Ack.antt =====
-- src/store_sled.rs: `SledStore::ack`. The loop over the distinct items carries the quota and the
-- outcome.
pub mod Erased
pub mod Loop
pub mod Refines
use enigma_relay.Base.{none, some, List, [], ◌∷◌, sat_add, sat_sub}
use enigma_relay.Base.Text.{Text}
use enigma_relay.Error.{ok}
use enigma_relay.Error.Action.{Action, ◌>>=◌, ◌>>◌, lift}
use enigma_relay.Store.{QueueMessage, AckItem, AckOutcome, default_outcome}
use enigma_relay.StoreMem.Ack.{to_set}
use enigma_relay.StoreSled.Keys.{Hyphenated, message_key, index_key, quota_key, decode_u64}
use enigma_relay.StoreSled.Db.{Bytes, Sled, Json}
use enigma_relay.StoreSled.State.{QuotaValue, SledStore}
use enigma_relay.StoreSled.Trees
use enigma_relay.StoreSled.Trees.{Column, decoded, read_quota_tx, transaction}

abbrev pub Progress : Type 0
Progress = QuotaValue × AckOutcome

abbrev pub one_missing : Progress → Progress
one_missing (quota_value, outcome) =
    (quota_value, record outcome { missing = sat_add outcome.missing 1 })

abbrev pub one_deleted : QueueMessage → Progress → Progress
one_deleted msg (quota_value, outcome) = (
  record {
    count = sat_sub quota_value.count 1;
    bytes = sat_sub quota_value.bytes msg.payload_bytes;
  },
  record outcome { deleted = sat_add outcome.deleted 1 },
)

module _ (sled : Sled) (items : Json QueueMessage) (hyphenated : Hyphenated)
    (recipient : Text) where
  -- An item whose index entry holds the bytes of a sequence number.
  unfoldable pub ack_indexed : AckItem → Bytes → Progress → Action (SledStore sled) Progress
  ack_indexed ack_item seq_bytes progress = do
    seq ← lift (decode_u64 seq_bytes)
    let idx_key = index_key hyphenated recipient ack_item.message_id ack_item.chunk_index
    let msg_key = message_key hyphenated recipient seq ack_item.message_id ack_item.chunk_index
    found ← Trees.get sled Column.messages msg_key
    elim found [
      | some val ↦ do
        msg ← decoded sled (items.from_slice val)
        Trees.remove sled Column.messages msg_key
        Trees.remove sled Column.index idx_key
        lift (ok (one_deleted msg progress))
      | none ↦ do Trees.remove sled Column.index idx_key; lift (ok (one_missing progress))
    ]

  unfoldable pub ack_one : AckItem → Progress → Action (SledStore sled) Progress
  ack_one ack_item progress =
      let idx_key = index_key hyphenated recipient ack_item.message_id ack_item.chunk_index in
      Trees.get sled Column.index idx_key >>= λ found. elim found [
        | some seq_bytes ↦ ack_indexed ack_item seq_bytes progress
        | none ↦ lift (ok (one_missing progress))
      ]

  unfoldable pub ack_loop : List AckItem → Progress → Action (SledStore sled) Progress
  ack_loop [] progress = lift (ok progress)
  ack_loop (ack_item ∷ idx_keys) progress =
      ack_one ack_item progress >>= λ progress'. ack_loop idx_keys progress'

module _ (sled : Sled) (items : Json QueueMessage) (quotas : Json QuotaValue)
    (hyphenated : Hyphenated) (recipient : Text) where
  unfoldable pub ack_tx : List AckItem → Action (SledStore sled) AckOutcome
  ack_tx idx_keys = do
    quota_value ← read_quota_tx sled quotas (quota_key recipient)
    progress ← ack_loop sled items hyphenated recipient idx_keys (quota_value, default_outcome)
    quota_data ← decoded sled (quotas.to_vec progress.0)
    Trees.insert sled Column.quota (quota_key recipient) quota_data
    lift (ok (record progress.1 { remaining = progress.0.count }))

  -- `order` arranges the distinct items as the `HashSet` is iterated.
  unfoldable pub ack :
      (List AckItem → List AckItem) → List AckItem → Action (SledStore sled) AckOutcome
  ack order ack_items = do
    outcome ←
        transaction sled (Column.messages ∷ Column.index ∷ Column.quota ∷ [])
          (ack_tx (order (to_set ack_items)))
    Trees.flush sled Column.messages
    Trees.flush sled Column.index
    Trees.flush sled Column.quota
    lift (ok outcome)
