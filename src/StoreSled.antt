-- ===== src/StoreSled.antt =====
-- src/store_sled.rs: the store on disk, as an implementation of `RelayStore`.
pub mod Keys
pub mod Db
pub mod Entries
pub mod State
pub mod Trees
pub mod Logic
pub mod Represents
pub mod Push
pub mod Scan
pub mod Pull
pub mod Ack
pub mod Purge
pub mod Alike
use enigma_relay.Base.{List}
use enigma_relay.Store.{RelayStore, Base64, AckItem, QueueMessage}
use enigma_relay.StoreSled.Keys.{Hyphenated}
use enigma_relay.StoreSled.Db.{Sled, Json}
use enigma_relay.StoreSled.State.{QuotaValue, SledStore}
use enigma_relay.StoreSled.Push.{push}
use enigma_relay.StoreSled.Pull.{pull}
use enigma_relay.StoreSled.Ack.{ack}
use enigma_relay.StoreSled.Purge.{purge_expired}

module _ (sled : Sled) (messages : Json QueueMessage) (quotas : Json QuotaValue)
    (hyphenated : Hyphenated) (standard : Base64) (order : List AckItem → List AckItem) where
  abbrev pub sled_store : RelayStore
  sled_store = record {
    State = SledStore sled;
    push = push sled messages quotas hyphenated;
    pull = pull sled messages quotas standard;
    ack = λ recipient. ack sled messages quotas hyphenated recipient order;
    purge_expired = purge_expired sled messages quotas hyphenated;
  }
