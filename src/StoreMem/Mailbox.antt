-- ===== src/StoreMem/Mailbox.antt =====
-- What a recipient's queue is to a client: the messages in order of arrival, with no index and no
-- counters. It is the specification that `RecipientState` of src/store_mem.rs implements.
use enigma_relay.Base.{
  ℕ, zero, suc, ◌+◌, ◌-◌, Bool, true, false, ◌&&◌, Option, none, some, List, [], ◌∷◌, ◌++◌, ltb,
  leb, if◌then◌else◌, length, take, last, min, u32_max, sat_sub,
}
use enigma_relay.Base.Text.{Text}
use enigma_relay.Error.{Result, ok, err, quota_exceeded}
use enigma_relay.Config.{RelayLimits}
use enigma_relay.Store.{
  InboundMessage, QueueMessage, PushResult, PullBatch, AckItem, AckOutcome, Base64, encode_cursor,
}
use enigma_relay.StoreMem.Ack.{member}
use mathlib.Core.Option
use enigma_relay.StoreMem.State.{DedupKey, Queue, RecipientState, inbound_key, to_stored}
use enigma_relay.StoreMem.Wf.{seq_of, total_bytes}

pub record Mailbox : Type 0 where
  pub next : ℕ
  pub messages : Queue

abbrev pub view : RecipientState → Mailbox
view s = record { next = s.seq; messages = s.queue }

abbrev pub holds : DedupKey → Queue → Bool
holds k q = elim (seq_of k q) [ none ↦ false | some _ ↦ true ]

abbrev pub appended : InboundMessage → Mailbox → Mailbox
appended msg b = record {
  next = b.next + 1;
  messages = b.messages ++ (b.next, to_stored msg b.next) ∷ [];
}

-- A message that is held is a duplicate; another is appended if one more message and its bytes
-- stay within the limits.
unfoldable pub push : InboundMessage → RelayLimits → Mailbox → Result PushResult × Mailbox
push msg limits b =
    let count = length b.messages in
    let bytes = total_bytes b.messages in
    if holds (inbound_key msg) b.messages
    then (
      ok (record { stored = false; duplicate = true; queue_len = count; queue_bytes = bytes }),
      b,
    )
    else if leb (count + 1) limits.max_messages_per_user
        && leb (bytes + msg.payload_bytes) limits.max_queue_bytes_per_user
    then (
      ok (record {
        stored = true;
        duplicate = false;
        queue_len = count + 1;
        queue_bytes = bytes + msg.payload_bytes;
      }),
      appended msg b,
    )
    else (err quota_exceeded, b)

-- The messages that have not expired.
unfoldable pub live : ℕ → Queue → List QueueMessage
live now_ms [] = []
live now_ms ((seq, m) ∷ q) =
    let rest = live now_ms q in if leb m.deadline_ms now_ms then rest else m ∷ rest

abbrev pub is_after : Option ℕ → ℕ → Bool
is_after none seq = true
is_after (some start) seq = ltb start seq

-- What a pull of `n` messages leaves: among the entries after the start, those that have expired are
-- dropped up to the first live message that no longer fits.
unfoldable pub sweep : Option ℕ → ℕ → ℕ → Queue → Queue
sweep start n now_ms [] = []
sweep start zero now_ms ((seq, m) ∷ q) =
    let dropped = sweep start zero now_ms q in
    if is_after start seq
    then (if leb m.deadline_ms now_ms then dropped else (seq, m) ∷ q)
    else (seq, m) ∷ dropped
sweep start (suc n) now_ms ((seq, m) ∷ q) =
    let dropped = sweep start (suc n) now_ms q in
    let taken = sweep start n now_ms q in
    if is_after start seq
    then (if leb m.deadline_ms now_ms then dropped else (seq, m) ∷ taken)
    else (seq, m) ∷ dropped

-- The messages after the start that have not expired.
unfoldable pub waiting : Option ℕ → ℕ → Queue → List QueueMessage
waiting start now_ms [] = []
waiting start now_ms ((seq, m) ∷ q) =
    let rest = waiting start now_ms q in
    if is_after start seq then (if leb m.deadline_ms now_ms then rest else m ∷ rest) else rest

module _ (standard : Base64) where
  abbrev pub cursor_of : QueueMessage → Text
  cursor_of item = encode_cursor standard item.recipient item.arrival_seq

  -- A pull delivers the first live messages after the start, and gives the cursor of the last one
  -- exactly when more are waiting.
  unfoldable pub pull : Option ℕ → ℕ → ℕ → Mailbox → PullBatch × Mailbox
  pull start limit now_ms b =
      let n = min limit u32_max in
      let found = waiting start now_ms b.messages in
      let items = take n found in
      let kept = sweep start n now_ms b.messages in
      (
        record {
          items = items;
          next_cursor = if ltb n (length found) then Option.map cursor_of (last items) else none;
          remaining_estimate = sat_sub (length kept) (length items);
        },
        record b { messages = kept },
      )

abbrev pub item_of : QueueMessage → AckItem
item_of m = record { message_id = m.message_id; chunk_index = m.meta.chunk_index }

-- The messages that the items do not name.
unfoldable pub unacked : List AckItem → Queue → Queue
unacked items [] = []
unacked items ((seq, m) ∷ q) =
    let rest = unacked items q in if member (item_of m) items then rest else (seq, m) ∷ rest

-- The number of different items.
unfoldable pub distinct : List AckItem → ℕ
distinct [] = 0
distinct (item ∷ items) = let rest = distinct items in if member item items then rest else suc rest

-- An acknowledgement takes out the messages that it names; of the distinct items, those that name no
-- message are missing.
unfoldable pub ack : List AckItem → Mailbox → AckOutcome × Mailbox
ack items b =
    let kept = unacked items b.messages in
    let deleted = length b.messages - length kept in
    (
      record { deleted = deleted; missing = distinct items - deleted; remaining = length kept },
      record b { messages = kept },
    )

-- A purge drops the messages at the front that have expired, `n` of them at most.
unfoldable pub purge_front : ℕ → ℕ → Queue → Queue
purge_front zero now_ms q = q
purge_front (suc n) now_ms [] = []
purge_front (suc n) now_ms ((seq, m) ∷ q) =
    let rest = purge_front n now_ms q in if leb m.deadline_ms now_ms then rest else (seq, m) ∷ q
