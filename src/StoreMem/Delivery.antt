-- ===== src/StoreMem/Delivery.antt =====
-- From a push to the pulls of src/store_mem.rs: what is stored is delivered.
use enigma_relay.Base.{
  ℕ, ◌+◌, ◌≤◌, ◌<◌, ◌≡◌, refl, sym, ap, ◌∙◌, subst, true, none, some, [], ◌∷◌, ◌++◌, arith, length,
  length-append, u64_max, All,
}
use mathlib.Core.List.{Mem, mem-append_right, mem-cons_self}
use enigma_relay.Base.Text.{Text, Lacks}
use enigma_relay.Base.Utf8.{IsScalar}
use enigma_relay.Base.Eq.{list_eq, nat_eq, pair_eq}
use enigma_relay.Base.Map.{lookup, lookup-insert_self, insert_sorted_end, Ascends-length}
use enigma_relay.Error.{ok}
use enigma_relay.Config.{RelayLimits}
use enigma_relay.Store.{Base64, InboundMessage, QueueMessage, PushResult}
use enigma_relay.StoreMem.State.{Queue, RecipientState, MemStore, to_stored}
use enigma_relay.StoreMem.Push.{push, push_entry, entry_or_default}
use enigma_relay.StoreMem.Push.Refines.{push_entry-IsWf}
use enigma_relay.StoreMem.Pull.Paging.{follow, follow-live}
use enigma_relay.StoreMem.Wf.{IsWf}
use enigma_relay.StoreMem.Mailbox.{live}
use enigma_relay.StoreMem.Invariant.{IsValid, entry_or_default-IsWf}

live-append : (now_ms : ℕ) (q p : Queue) → live now_ms (q ++ p) ≡ live now_ms q ++ live now_ms p
unfolding live
live-append now_ms [] p = refl
live-append now_ms ((seq, m) ∷ q) p = ground (arith, live-append now_ms q p)

length-live-le : (now_ms : ℕ) (q : Queue) → length (live now_ms q) ≤ length q
unfolding live
length-live-le now_ms [] = omega arith
length-live-le now_ms ((seq, m) ∷ q) = ground (arith, length-live-le now_ms q)

Mem-live :
    (now_ms seq : ℕ) (m : QueueMessage) (q : Queue)
    → now_ms < m.deadline_ms
    → Mem m (live now_ms (q ++ (seq, m) ∷ []))
Mem-live now_ms seq m q l =
    let last_live : live now_ms ((seq, m) ∷ []) ≡ m ∷ [] = unfold live in ground arith in
    subst (Mem m) (sym (live-append now_ms q ((seq, m) ∷ []) ∙ ap (◌++◌ (live now_ms q)) last_live))
      (mem-append_right (live now_ms q) mem-cons_self)

module _ {recipient : Text} (msg : InboundMessage) (limits : RelayLimits) (s : RecipientState)
    (r : PushResult) where
  -- A push that says that it stored the message has appended it, within the limit.
  push_entry-stored :
      IsWf recipient s
      → s.seq < u64_max
      → (push_entry msg limits s).0 ≡ ok r
      → r.stored ≡ true
      → ((push_entry msg limits s).1.queue ≡ s.queue ++ (s.seq, to_stored msg s.seq) ∷ [])
        × (length s.queue + 1 ≤ limits.max_messages_per_user)
  unfolding push_entry
  push_entry-stored w room e stored = ground (
    arith,
    Ascends-length 0 s.seq s.queue w.ascends,
    insert_sorted_end 0 s.seq (to_stored msg s.seq) s.queue w.ascends,
    w.counted,
  )

-- When a valid store has stored a message, a client that then follows the cursors of pulls at a time
-- before its deadline gets it, if the recipient is text without a colon, the limit of the pulls is
-- positive, and it makes more pulls than a queue has room for messages; the recipient has not used up
-- the u64 sequence numbers, and the limit on bytes is not the last u64 value.
pub push-follow :
    (standard : Base64) (msg : InboundMessage) (limits : RelayLimits) (state : MemStore)
    (r : PushResult) (limit now_ms fuel : ℕ)
    → IsValid state
    → (entry_or_default msg.recipient state).seq < u64_max
    → limits.max_queue_bytes_per_user < u64_max
    → (push msg limits state).0 ≡ ok r
    → r.stored ≡ true
    → Lacks b':' msg.recipient
    → All IsScalar msg.recipient
    → now_ms < msg.deadline_ms
    → 0 < limit
    → limits.max_messages_per_user < fuel
    → (entry : RecipientState) × (lookup msg.recipient (push msg limits state).1 ≡ some entry)
      × Mem
          (to_stored msg (entry_or_default msg.recipient state).seq)
          (follow standard msg.recipient limit now_ms fuel none entry)
unfolding push
push-follow standard msg limits state r limit now_ms fuel v room bytes e stored lacks scalars l p
      enough =
    let s = entry_or_default msg.recipient state in
    let m = to_stored msg s.seq in
    let w = entry_or_default-IsWf msg.recipient state v in
    let entry = (push_entry msg limits s).1 in
    let (queue, within) = push_entry-stored msg limits s r w room e stored in
    let all : follow standard msg.recipient limit now_ms fuel none entry
        ≡ live now_ms (s.queue ++ (s.seq, m) ∷ []) =
      follow-live standard msg.recipient limit now_ms lacks scalars fuel entry
        (push_entry-IsWf msg s limits w refl room bytes) p
        (omega (
          arith,
          length-live-le now_ms entry.queue,
          ap length queue,
          length-append s.queue ((s.seq, m) ∷ []),
        ))
      ∙ ap (live now_ms) queue in
    (
      entry,
      lookup-insert_self msg.recipient entry state,
      subst (Mem m) (sym all) (Mem-live now_ms s.seq m s.queue l),
    )
