-- ===== src/StoreMem.antt =====
-- src/store_mem.rs: the store in memory, as an implementation of `RelayStore`.
pub mod State
pub mod Push
pub mod Pull
pub mod Ack
pub mod Purge
pub mod Wf
pub mod Mailbox
pub mod Invariant
pub mod Run
pub mod Delivery
use enigma_relay.Base.{List}
use enigma_relay.Store.{RelayStore, Base64, AckItem}
use enigma_relay.StoreMem.State.{MemStore}
use enigma_relay.StoreMem.Push.{push}
use enigma_relay.StoreMem.Pull.{pull}
use enigma_relay.StoreMem.Ack.{ack}
use enigma_relay.StoreMem.Purge.{purge_expired}

abbrev pub mem_store : Base64 → (List AckItem → List AckItem) → RelayStore
mem_store standard order = record {
  State = MemStore;
  push = push;
  pull = pull standard;
  ack = ack order;
  purge_expired = purge_expired;
}
