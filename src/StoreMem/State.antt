-- ===== src/StoreMem/State.antt =====
-- src/store_mem.rs: the state of the store in memory. The mutex of the source is held through each
-- method, so a method is a function of this state.
use enigma_relay.Base.{ℕ, none, some, List, [], ◌∷◌, sat_sub}
use enigma_relay.Base.Text.{Text}
use enigma_relay.Base.Eq.{nat_eq, pair_eq, list_eq}
use enigma_relay.Base.Map.{lookup, remove}
use enigma_relay.Model.{Uuid}
use enigma_relay.Store.{InboundMessage, QueueMessage}

abbrev pub DedupKey : Type 0
DedupKey = Uuid × ℕ

abbrev pub Queue : Type 0
Queue = List (ℕ × QueueMessage)

pub record RecipientState : Type 0 where
  pub seq : ℕ
  pub queue : Queue
  pub idx : List (DedupKey × ℕ)
  pub quota_bytes : ℕ
  pub quota_count : ℕ

-- The derived `Default`.
abbrev pub default_state : RecipientState
default_state = record { seq = 0; queue = []; idx = []; quota_bytes = 0; quota_count = 0 }

abbrev pub MemStore : Type 0
MemStore = List (Text × RecipientState)

abbrev pub new : MemStore
new = []

abbrev pub key_of : QueueMessage → DedupKey
key_of m = (m.message_id, m.meta.chunk_index)

abbrev pub inbound_key : InboundMessage → DedupKey
inbound_key m = (m.message_id, m.meta.chunk_index)

-- The `QueueMessage` that `push` stores.
abbrev pub to_stored : InboundMessage → ℕ → QueueMessage
to_stored msg arrival_seq = record {
  recipient = msg.recipient;
  message_id = msg.message_id;
  ciphertext_b64 = msg.ciphertext_b64;
  meta = msg.meta;
  arrival_ms = msg.arrival_ms;
  deadline_ms = msg.deadline_ms;
  payload_bytes = msg.payload_bytes;
  arrival_seq = arrival_seq;
}

-- The body of the loops that remove expired entries: nothing if the key is not there.
unfoldable pub drop_seq : ℕ → RecipientState → RecipientState
drop_seq seq entry = elim (lookup seq entry.queue) [
  | none ↦ entry
  | some removed ↦ record entry {
    queue = remove seq entry.queue;
    quota_count = sat_sub entry.quota_count 1;
    quota_bytes = sat_sub entry.quota_bytes removed.payload_bytes;
    idx = remove (key_of removed) entry.idx;
  }
]

unfoldable pub drop_all : List ℕ → RecipientState → RecipientState
drop_all [] entry = entry
drop_all (seq ∷ expired) entry = drop_all expired (drop_seq seq entry)
