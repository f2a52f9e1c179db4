-- ===== src/StoreSled/Pull.antt =====
-- src/store_sled.rs: `SledStore::pull`. It removes nothing.
pub mod Refines
use enigma_relay.Base.{ℕ, none, if◌then◌else◌, length, last, min, sat_sub, u32_max, Option, []}
use enigma_relay.Base.Text.{Text}
use enigma_relay.Error.{ok}
use enigma_relay.Error.Action.{Action, ◌>>=◌, lift}
use enigma_relay.Store.{QueueMessage, PullBatch, Base64, encode_cursor}
use mathlib.Core.Option
use enigma_relay.StoreSled.Keys.{message_prefix}
use enigma_relay.StoreSled.Db.{Attempt, Bytes, Sled, Json}
use enigma_relay.StoreSled.State.{QuotaValue, SledStore}
use enigma_relay.StoreSled.Trees.{read_quota_latest}
use enigma_relay.StoreSled.Scan.{start_seq, take_entries}
use enigma_relay.Base.{List}

module _ (sled : Sled) (items : Json QueueMessage) (quotas : Json QuotaValue)
    (standard : Base64) where
  abbrev scanned : Text → Action (SledStore sled) (List (Attempt (Bytes × Bytes)))
  scanned recipient store = (ok (sled.scan_prefix (message_prefix recipient) store.messages), store)

  unfoldable pub pull : Text → Option Text → ℕ → ℕ → Action (SledStore sled) PullBatch
  pull recipient cursor limit now_ms = do
    start ← lift (start_seq standard recipient cursor)
    attempts ← scanned recipient
    taken ← lift (take_entries items start (min limit u32_max) now_ms attempts [])
    let next =
        if taken.1
        then Option.map (λ (item : QueueMessage). encode_cursor standard recipient item.arrival_seq)
            (last taken.0)
        else none
    quota_value ← read_quota_latest sled quotas recipient
    lift (
        ok (record {
          items = taken.0;
          next_cursor = next;
          remaining_estimate = sat_sub quota_value.count (length taken.0);
        }))
