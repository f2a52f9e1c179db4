-- ===== src/StoreMem/Push/Refines.antt =====
-- `push_entry` of src/store_mem.rs keeps the invariant and implements the push of a mailbox.
use enigma_relay.Base.{
  ℕ, ◌+◌, ◌<◌, ◌≡◌, refl, ◌⊎◌, none, some, [], ◌∷◌, ◌++◌, arith, if◌then◌else◌, u64_max, All-append,
  length-append, inl, inr,
}
use native.Mathlib.Numerals.{add-one}
use enigma_relay.Base.Text.{Text}
use enigma_relay.Base.Eq.{nat_eq, pair_eq, pair_beq_iff, ◌==◌}
use enigma_relay.Base.Map.{
  lookup, contains_key, insert, lookup-insert, Ascends-snoc, insert_sorted_end, Ascends-length,
}
use enigma_relay.Config.{RelayLimits}
use enigma_relay.Store.{InboundMessage, QueueMessage}
use enigma_relay.StoreMem.State.{DedupKey, Queue, RecipientState, key_of, inbound_key, to_stored}
use enigma_relay.StoreMem.Push.{push_entry}
use enigma_relay.StoreMem.Wf.{IsWf, Filed, Distinct, seq_of, total_bytes}
use enigma_relay.StoreMem.Mailbox
use enigma_relay.StoreMem.Mailbox.{Mailbox, view, holds}

module _ (n : ℕ) (m : QueueMessage) where
  seq_of-snoc :
      (k : DedupKey) (q : Queue)
      → seq_of k (q ++ (n, m) ∷ [])
        ≡ elim (seq_of k q) [ none ↦ if key_of m == k then some n else none | some seq ↦ some seq ]
  unfolding seq_of
  seq_of-snoc k [] = refl
  seq_of-snoc k ((j, w) ∷ q) = ground (arith, seq_of-snoc k q)

  Distinct-snoc :
      (q : Queue) → Distinct q → seq_of (key_of m) q ≡ none → Distinct (q ++ (n, m) ∷ [])
  unfolding seq_of
  Distinct-snoc [] d h = (refl, tt)
  Distinct-snoc ((j, w) ∷ q) d h = (
    ground (
      arith,
      seq_of-snoc (key_of w) q,
      pair_beq_iff (key_of m) (key_of w),
      pair_beq_iff (key_of w) (key_of m),
    ),
    Distinct-snoc q d.1 (ground arith),
  )

  total_bytes-snoc : (q : Queue) → total_bytes (q ++ (n, m) ∷ []) ≡ total_bytes q + m.payload_bytes
  unfolding total_bytes
  total_bytes-snoc [] = omega arith
  total_bytes-snoc ((j, w) ∷ q) = omega (arith, total_bytes-snoc q)

contains_key-holds :
    (s : RecipientState) (k : DedupKey)
    → lookup k s.idx ≡ seq_of k s.queue
    → contains_key k s.idx ≡ holds k s.queue
unfolding contains_key
contains_key-holds s k h = rw (h, contains_key)

-- The state after an accepted push.
abbrev pub stored_state : InboundMessage → RecipientState → RecipientState
stored_state msg s = record {
  seq = s.seq + 1;
  queue = s.queue ++ (s.seq, to_stored msg s.seq) ∷ [];
  idx = insert (inbound_key msg) s.seq s.idx;
  quota_bytes = s.quota_bytes + msg.payload_bytes;
  quota_count = s.quota_count + 1;
}

module _ {recipient : Text} (msg : InboundMessage) (s : RecipientState) where
  stored_state-IsWf :
      IsWf recipient s
      → msg.recipient ≡ recipient
      → s.seq < u64_max
      → seq_of (inbound_key msg) s.queue ≡ none
      → IsWf recipient (stored_state msg s)
  stored_state-IsWf w r room fresh =
      let m = to_stored msg s.seq in
      record {
        ascends = rw add-one (Ascends-snoc 0 s.seq m s.queue w.ascends);
        in_range = omega arith;
        filed = All-append (Filed recipient) s.queue _ w.filed ((refl, r), tt);
        distinct = Distinct-snoc s.seq m s.queue w.distinct fresh;
        indexed = λ k. ground (
          arith,
          lookup-insert (inbound_key msg) k s.seq s.idx,
          seq_of-snoc s.seq m k s.queue,
          pair_beq_iff (inbound_key msg) k,
          w.indexed k,
        );
        counted = omega (arith, w.counted, length-append s.queue ((s.seq, m) ∷ []));
        weighed = omega (arith, w.weighed, total_bytes-snoc s.seq m s.queue);
      }

  -- A push of a well-formed state does what the push of its mailbox does, if the sequence numbers
  -- and the limit on bytes are not the last u64 value.
  pub push_entry-view :
      (limits : RelayLimits)
      → IsWf recipient s
      → s.seq < u64_max
      → limits.max_queue_bytes_per_user < u64_max
      → ((push_entry msg limits s).0 ≡ (Mailbox.push msg limits (view s)).0)
        × (view (push_entry msg limits s).1 ≡ (Mailbox.push msg limits (view s)).1)
  unfolding push_entry Mailbox.push
  push_entry-view limits w room bytes = ground (
    arith,
    contains_key-holds s (inbound_key msg) (w.indexed (inbound_key msg)),
    insert_sorted_end 0 s.seq (to_stored msg s.seq) s.queue w.ascends,
    Ascends-length 0 s.seq s.queue w.ascends,
    w.counted,
    w.weighed,
  )

  pub push_entry_state :
      (limits : RelayLimits)
      → IsWf recipient s
      → s.seq < u64_max
      → limits.max_queue_bytes_per_user < u64_max
      → ((push_entry msg limits s).1 ≡ s)
        ⊎ (seq_of (inbound_key msg) s.queue ≡ none)
          × ((push_entry msg limits s).1 ≡ stored_state msg s)
  unfolding push_entry
  push_entry_state limits w room bytes = ground (
    arith,
    contains_key-holds s (inbound_key msg) (w.indexed (inbound_key msg)),
    insert_sorted_end 0 s.seq (to_stored msg s.seq) s.queue w.ascends,
    Ascends-length 0 s.seq s.queue w.ascends,
    w.counted,
  )

  pub push_entry-IsWf :
      (limits : RelayLimits)
      → IsWf recipient s
      → msg.recipient ≡ recipient
      → s.seq < u64_max
      → limits.max_queue_bytes_per_user < u64_max
      → IsWf recipient (push_entry msg limits s).1
  push_entry-IsWf limits w r room bytes = elim (push_entry_state limits w room bytes) [
    | inl e ↦ rw e w
    | inr (fresh, e) ↦ rw e (stored_state-IsWf w r room fresh)
  ]
