-- ===== src/StoreMem/Run.antt =====
-- Runs of the store of src/store_mem.rs: any sequence of calls of its methods, by any clients and by
-- the collector. Each call holds the lock throughout, so calls that overlap are run in some order.
pub mod Queued
pub mod Kept
pub mod Quota
use enigma_relay.Base.{ℕ, ◌≤◌, ◌<◌, ◌≡◌, Option, List, length, u64_max}
use enigma_relay.Base.Text.{Text}
use enigma_relay.Config.{RelayLimits}
use enigma_relay.Store.{Base64, InboundMessage, AckItem}
use enigma_relay.StoreMem.State.{MemStore, new}
use enigma_relay.StoreMem.Push.{push, entry_or_default}
use enigma_relay.StoreMem.Pull.{pull}
use enigma_relay.StoreMem.Ack.{ack}
use enigma_relay.StoreMem.Ack.Refines.{Arranges}
use enigma_relay.StoreMem.Purge.{purge_expired}
use enigma_relay.StoreMem.Invariant.{
  IsValid, new-IsValid, push-IsValid, pull-IsValid, ack-IsValid, purge_expired-IsValid,
}

module _ (standard : Base64) where
  -- One call. A push assumes that the recipient has not used up the u64 sequence numbers, and that
  -- the limit on bytes is not the last u64 value; a list of items fits in memory.
  pub data Step (s : MemStore) : MemStore → Type 0 where
    push_step :
        (msg : InboundMessage) (limits : RelayLimits)
        → (entry_or_default msg.recipient s).seq < u64_max
        → limits.max_queue_bytes_per_user < u64_max
        → Step s (push msg limits s).1
    pull_step :
        (r : Text) (cursor : Option Text) (limit now_ms : ℕ)
        → Step s (pull standard r cursor limit now_ms s).1
    ack_step :
        (order : List AckItem → List AckItem) (r : Text) (items : List AckItem)
        → Arranges order
        → length items ≤ u64_max
        → Step s (ack order r items s).1
    purge_step : (now_ms max : ℕ) → Step s (purge_expired now_ms max s).1

  pub data Reach : MemStore → Type 0 where
    start : Reach new
    next : {s t : MemStore} → Reach s → Step s t → Reach t

  pub Step-IsValid : {s t : MemStore} → Step s t → IsValid s → IsValid t
  Step-IsValid {s = s} (push_step msg limits room bytes) v = push-IsValid msg limits s room bytes v
  Step-IsValid {s = s} (pull_step r cursor limit now_ms) v =
      pull-IsValid standard r cursor limit now_ms s v
  Step-IsValid {s = s} (ack_step order r items arranges l) v =
      ack-IsValid order r items s arranges l v
  Step-IsValid {s = s} (purge_step now_ms max) v = purge_expired-IsValid now_ms max s v

  -- Whatever calls are made of a new store, the state of each recipient is well formed: the queue is
  -- in order of arrival and free of duplicates, the index finds exactly its messages, and the counters
  -- are its length and its bytes. No push meets a recipient whose u64 sequence numbers are used up or
  -- the last u64 value for the limit on bytes; no acknowledgement has more items than a u64 counts.
  pub Reach-IsValid : {s : MemStore} → Reach s → IsValid s
  Reach-IsValid start = new-IsValid
  Reach-IsValid (next r st) = Step-IsValid st (Reach-IsValid r)
