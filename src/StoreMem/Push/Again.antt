-- ===== src/StoreMem/Push/Again.antt =====
-- A push that src/store_mem.rs has accepted, made again.
use enigma_relay.Base.{ℕ, ◌≡◌, ◌∙◌, ap, true, false, arith}
use enigma_relay.Base.Eq.{pair_eq, list_eq}
use enigma_relay.Base.Map.{contains_key, insert, lookup-insert_self, insert-insert}
use enigma_relay.Error.{Result, ok}
use enigma_relay.Config.{RelayLimits}
use enigma_relay.Store.{InboundMessage, PushResult}
use enigma_relay.StoreMem.State.{RecipientState, MemStore, inbound_key, default_state}
use mathlib.Core.Option
use enigma_relay.StoreMem.Push.{push, push_entry, entry_or_default}

-- After a push that succeeds, its key is in the index, and the counters are those of the answer.
push_entry-ok :
    (msg : InboundMessage) (limits : RelayLimits) (s : RecipientState) (r : PushResult)
    → (push_entry msg limits s).0 ≡ ok r
    → (contains_key (inbound_key msg) (push_entry msg limits s).1.idx ≡ true)
      × ((push_entry msg limits s).1.quota_count ≡ r.queue_len)
      × ((push_entry msg limits s).1.quota_bytes ≡ r.queue_bytes)
unfolding push_entry contains_key
push_entry-ok msg limits s r e = ground (arith, lookup-insert_self (inbound_key msg) s.seq s.idx)

push_entry-duplicate :
    (msg : InboundMessage) (limits : RelayLimits) (s : RecipientState)
    → contains_key (inbound_key msg) s.idx ≡ true
    → push_entry msg limits s ≡ (
      ok (record {
        stored = false;
        duplicate = true;
        queue_len = s.quota_count;
        queue_bytes = s.quota_bytes;
      }),
      s,
    )
unfolding push_entry
push_entry-duplicate msg limits s h = rw h

abbrev duplicate_of : ℕ → ℕ → Result PushResult
duplicate_of n b = ok (record { stored = false; duplicate = true; queue_len = n; queue_bytes = b })

push-duplicate :
    (msg : InboundMessage) (limits : RelayLimits) (state : MemStore) (s : RecipientState)
    → entry_or_default msg.recipient state ≡ s
    → contains_key (inbound_key msg) s.idx ≡ true
    → push msg limits state
      ≡ (duplicate_of s.quota_count s.quota_bytes, insert msg.recipient s state)
unfolding push
push-duplicate msg limits state s e c =
    ap (λ (p : Result PushResult × RecipientState). (p.0, insert msg.recipient p.1 state))
      (ap (push_entry msg limits) e ∙ push_entry-duplicate msg limits s c)

-- After a push that succeeds, a push of the same message and chunk to the same recipient is answered
-- as a duplicate with the same counters, and leaves the store as it is, whatever else it carries.
pub push-push :
    (msg msg' : InboundMessage) (limits limits' : RelayLimits) (state : MemStore) (r : PushResult)
    → msg'.recipient ≡ msg.recipient
    → inbound_key msg' ≡ inbound_key msg
    → (push msg limits state).0 ≡ ok r
    → push msg' limits' (push msg limits state).1 ≡ (
      ok (record {
        stored = false;
        duplicate = true;
        queue_len = r.queue_len;
        queue_bytes = r.queue_bytes;
      }),
      (push msg limits state).1,
    )
unfolding push
push-push msg msg' limits limits' state r same key e =
    let s = entry_or_default msg.recipient state in
    let s1 = (push_entry msg limits s).1 in
    let (c, n, b) = push_entry-ok msg limits s r e in
    let state1 = insert msg.recipient s1 state in
    let found : entry_or_default msg'.recipient state1 ≡ s1 =
      ap (λ x. entry_or_default x state1) same
      ∙ ap (λ o. Option.get_or o default_state) (lookup-insert_self msg.recipient s1 state) in
    push-duplicate msg' limits' state1 s1 found (rw key c)
    ∙ cc (ap (λ x. insert x s1 state1) same, insert-insert msg.recipient s1 s1 state, n, b)
