-- ===== src/StoreSled/Purge.antt =====
-- src/store_sled.rs: `SledStore::purge_expired`. It runs outside a transaction: the loop carries the
-- number of messages removed and the quotas of the recipients it met, which it writes at its end.
pub mod Step
pub mod Awaits
pub mod Loop
pub mod Refines
use enigma_relay.Base.{ℕ, ◌+◌, none, some, List, [], ◌∷◌, leb, ltb, if◌then◌else◌, min, sat_sub}
use enigma_relay.Base.Text.{Text}
use enigma_relay.Base.Eq.{nat_eq, list_eq}
use enigma_relay.Base.Map
use enigma_relay.Error.{ok, err, from_sled}
use enigma_relay.Error.Action.{Action, ◌>>=◌, ◌>>◌, lift}
use enigma_relay.Store.{QueueMessage}
use enigma_relay.StoreSled.Keys.{Hyphenated, index_key, quota_key}
use enigma_relay.StoreSled.Db.{Bytes, Attempt, done, failed, Sled, Json}
use enigma_relay.StoreSled.State.{QuotaValue, SledStore}
use enigma_relay.StoreSled.Trees
use enigma_relay.StoreSled.Trees.{Column, decoded, read_quota_latest}

abbrev pub gc_batch_limit : ℕ
gc_batch_limit = 1024

abbrev pub Quotas : Type 0
Quotas = List (Text × QuotaValue)

abbrev pub less : QueueMessage → QuotaValue → QuotaValue
less msg quota_value = record {
  count = sat_sub quota_value.count 1;
  bytes = sat_sub quota_value.bytes msg.payload_bytes;
}

module _ (sled : Sled) (items : Json QueueMessage) (quotas : Json QuotaValue)
    (hyphenated : Hyphenated) where
  -- The quota of a recipient: that of the map, or else the one on disk.
  unfoldable pub quota_entry : Text → Quotas → Action (SledStore sled) QuotaValue
  quota_entry recipient known = elim (Map.lookup recipient known) [
    | some quota_value ↦ lift (ok quota_value)
    | none ↦ read_quota_latest sled quotas recipient
  ]

  -- The removal of an expired message under its key.
  unfoldable pub purge_one : Bytes → QueueMessage → Quotas → Action (SledStore sled) Quotas
  purge_one key msg known = do
    let idx_key = index_key hyphenated msg.recipient msg.message_id msg.meta.chunk_index
    Trees.remove sled Column.messages key
    Trees.remove sled Column.index idx_key
    quota_value ← quota_entry msg.recipient known
    lift (ok (Map.insert msg.recipient (less msg quota_value) known))

  -- The loop over what the iterator yields.
  unfoldable pub purge_loop :
      ℕ → ℕ → List (Attempt (Bytes × Bytes)) → ℕ → Quotas → Action (SledStore sled) (ℕ × Quotas)
  purge_loop now_ms target [] removed known = lift (ok (removed, known))
  purge_loop now_ms target (failed text ∷ attempts) removed known =
      if leb target removed then lift (ok (removed, known)) else lift (err (from_sled text))
  purge_loop now_ms target (done (key, value) ∷ attempts) removed known =
      if leb target removed
      then lift (ok (removed, known))
      else decoded sled (items.from_slice value) >>= λ msg.
          (if ltb now_ms msg.deadline_ms
            then purge_loop now_ms target attempts removed known
            else purge_one key msg known >>= λ known'.
                purge_loop now_ms target attempts (removed + 1) known')

  -- The loop that writes the quotas.
  unfoldable pub write_quotas : Quotas → Action (SledStore sled) (Unit {0})
  write_quotas [] = lift (ok tt)
  write_quotas ((recipient, quota_value) ∷ known) = do
    data_bytes ← decoded sled (quotas.to_vec quota_value)
    Trees.insert sled Column.quota (quota_key recipient) data_bytes
    write_quotas known

  abbrev iterated : Action (SledStore sled) (List (Attempt (Bytes × Bytes)))
  iterated store = (ok (sled.iter store.messages), store)

  unfoldable pub purge_expired : ℕ → ℕ → Action (SledStore sled) ℕ
  purge_expired now_ms max = do
    attempts ← iterated
    purged ← purge_loop now_ms (min max gc_batch_limit) attempts 0 []
    write_quotas purged.1
    Trees.flush sled Column.messages
    Trees.flush sled Column.index
    Trees.flush sled Column.quota
    lift (ok purged.0)
