-- ===== src/StoreMem/Push.antt =====
-- src/store_mem.rs: `MemStore::push`. `push_entry` is what it does to the state of the recipient,
-- which is created on every path, the refusals included.
pub mod Refines
pub mod Again
use enigma_relay.Base.{true, false, ltb, if◌then◌else◌, sat_add}
use enigma_relay.Base.Text.{Text}
use enigma_relay.Base.Eq.{nat_eq, pair_eq, list_eq}
use enigma_relay.Base.Map.{lookup, insert, contains_key, insert_sorted}
use enigma_relay.Error.{Result, ok, err, quota_exceeded}
use enigma_relay.Config.{RelayLimits}
use enigma_relay.Store.{InboundMessage, PushResult}
use mathlib.Core.Option
use enigma_relay.StoreMem.State.{RecipientState, default_state, MemStore, inbound_key, to_stored}

unfoldable pub push_entry :
    InboundMessage → RelayLimits → RecipientState → Result PushResult × RecipientState
push_entry msg limits entry =
    let dedup_key = inbound_key msg in
    let next_count = sat_add entry.quota_count 1 in
    let next_bytes = sat_add entry.quota_bytes msg.payload_bytes in
    if contains_key dedup_key entry.idx
    then (
      ok (record {
        stored = false;
        duplicate = true;
        queue_len = entry.quota_count;
        queue_bytes = entry.quota_bytes;
      }),
      entry,
    )
    else if ltb limits.max_messages_per_user next_count
    then (err quota_exceeded, entry)
    else if ltb limits.max_queue_bytes_per_user next_bytes
    then (err quota_exceeded, entry)
    else (
      ok (record {
        stored = true;
        duplicate = false;
        queue_len = next_count;
        queue_bytes = next_bytes;
      }),
      record {
        seq = sat_add entry.seq 1;
        queue = insert_sorted entry.seq (to_stored msg entry.seq) entry.queue;
        idx = insert dedup_key entry.seq entry.idx;
        quota_bytes = next_bytes;
        quota_count = next_count;
      },
    )

-- `state.entry(recipient).or_default()`
abbrev pub entry_or_default : Text → MemStore → RecipientState
entry_or_default recipient state = Option.get_or (lookup recipient state) default_state

unfoldable pub push : InboundMessage → RelayLimits → MemStore → Result PushResult × MemStore
push msg limits state =
    let (result, entry) = push_entry msg limits (entry_or_default msg.recipient state) in
    (result, insert msg.recipient entry state)
