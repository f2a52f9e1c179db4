-- ===== src/StoreMem/Run/Kept.antt =====
-- A message that src/store_mem.rs has stored stays until it is acknowledged or expires.
use enigma_relay.Base.{
  ℕ, ◌≤◌, ◌<◌, ◌≡◌, refl, ap, subst, false, Option, some, List, [], ◌∷◌, arith, leb, min, map,
  length, u64_max, Option-cases, Bool-cases, inl, inr,
}
use enigma_relay.Base.Text.{Text}
use enigma_relay.Base.Sort.{sort}
use enigma_relay.Base.Eq.{nat_eq, list_eq, ==_eq, ◌==◌}
use enigma_relay.Base.Map.{lookup, insert, lookup-insert}
use enigma_relay.Config.{RelayLimits}
use enigma_relay.Store.{Base64, InboundMessage, QueueMessage, AckItem}
use enigma_relay.StoreMem.State.{RecipientState, MemStore}
use enigma_relay.StoreMem.Push.{push, entry_or_default}
use enigma_relay.StoreMem.Pull.{pull}
use enigma_relay.StoreMem.Ack.{ack, member}
use enigma_relay.StoreMem.Ack.Refines.{Arranges}
use enigma_relay.StoreMem.Purge.{purge_recipient, purge_recipients, purge_expired, gc_batch_limit}
use enigma_relay.StoreMem.Mailbox.{item_of}
use enigma_relay.StoreMem.Run.Queued.{Queued-push, Queued-pull, Queued-ack, Queued-purge}
use enigma_relay.StoreMem.Run.{Step, push_step, pull_step, ack_step, purge_step, Step-IsValid}
use enigma_relay.StoreMem.Invariant.{IsValid, entry_or_default-IsWf, purge_recipient-IsValid}

-- The store holds the message in the queue of the recipient.
pub record Holds (r : Text) (m : QueueMessage) (state : MemStore) : Type 0 where
  pub entry : RecipientState
  pub seq : ℕ
  pub found : lookup r state ≡ some entry
  pub queued : lookup seq entry.queue ≡ some m

module _ {r : Text} {m : QueueMessage} where
  -- A write to a recipient keeps the message if it keeps it in the recipient's own queue.
  Holds-insert :
      (r' : Text) (s' : RecipientState) (state : MemStore) (h : Holds r m state)
      → (r' ≡ r → lookup h.seq s'.queue ≡ some m)
      → Holds r m (insert r' s' state)
  Holds-insert r' s' state h keeps = elim (Bool-cases (r' == r)) [
    | inl same ↦ record {
      entry = s';
      seq = h.seq;
      found = rw (lookup-insert, same) refl;
      queued = keeps (==_eq r' r same);
    }
    | inr other ↦ record {
      entry = h.entry;
      seq = h.seq;
      found = rw (lookup-insert, other) h.found;
      queued = h.queued;
    }
  ]

  -- The entry that a method finds for the recipient is the one that holds the message.
  same_entry :
      (r' : Text) (s' : RecipientState) (state : MemStore) (h : Holds r m state)
      → lookup r' state ≡ some s'
      → r' ≡ r
      → lookup h.seq s'.queue ≡ some m
  same_entry r' s' state h e same =
      let entry : h.entry ≡ s' = cc (h.found, e, ap (λ x. lookup x state) same) in
      subst (λ (s : RecipientState). lookup h.seq s.queue ≡ some m) entry h.queued

  module _ (state : MemStore) (v : IsValid state) (h : Holds r m state) where
    entry_queued : (r' : Text) → r' ≡ r → lookup h.seq (entry_or_default r' state).queue ≡ some m
    entry_queued r' same = elim (Option-cases (lookup r' state)) [
      | inl e ↦ cc (h.found, e, ap (λ x. lookup x state) same)
      | inr (s, e) ↦ rw e (same_entry r' s state h e same)
    ]

    Holds-push :
        (msg : InboundMessage) (limits : RelayLimits)
        → (entry_or_default msg.recipient state).seq < u64_max
        → limits.max_queue_bytes_per_user < u64_max
        → Holds r m (push msg limits state).1
    unfolding push
    Holds-push msg limits room bytes =
        let s = entry_or_default msg.recipient state in
        Holds-insert msg.recipient _ state h (λ same.
          Queued-push h.seq m s (entry_or_default-IsWf msg.recipient state v) msg limits room bytes
            (entry_queued msg.recipient same))

    Holds-pull :
        (standard : Base64) (r' : Text) (cursor : Option Text) (limit now_ms : ℕ)
        → now_ms < m.deadline_ms
        → Holds r m (pull standard r' cursor limit now_ms state).1
    unfolding pull
    Holds-pull standard r' cursor limit now_ms l = elim (Option-cases (lookup r' state)) [
      | inl e ↦ rw (e, pull) h
      | inr (s, e) ↦
          rw (e, pull)
            (Holds-insert r' _ state h (λ same.
              Queued-pull h.seq m s (v.at r' s e) standard cursor limit now_ms l
                (same_entry r' s state h e same)))
    ]

    Holds-ack :
        (order : List AckItem → List AckItem) (r' : Text) (items : List AckItem)
        → Arranges order
        → length items ≤ u64_max
        → (r' ≡ r → member (item_of m) items ≡ false)
        → Holds r m (ack order r' items state).1
    unfolding ack
    Holds-ack order r' items a l spared = elim (Option-cases (lookup r' state)) [
      | inl e ↦ rw (e, ack) h
      | inr (s, e) ↦
          rw (e, ack)
            (Holds-insert r' _ state h (λ same.
              Queued-ack h.seq m s (v.at r' s e) order items a l (spared same)
                (same_entry r' s state h e same)))
    ]

    Holds-purge_recipient :
        (now_ms target removed : ℕ) (r' : Text)
        → removed < target
        → now_ms < m.deadline_ms
        → Holds r m (purge_recipient now_ms target r' state removed).0
    unfolding purge_recipient
    Holds-purge_recipient now_ms target removed r' more l = elim (Option-cases (lookup r' state)) [
      | inl e ↦ rw (e, purge_recipient) h
      | inr (s, e) ↦
          rw (e, purge_recipient)
            (Holds-insert r' _ state h (λ same.
              Queued-purge h.seq m s (v.at r' s e) now_ms target removed more l
                (same_entry r' s state h e same)))
    ]

  Holds-purge_recipients :
      (now_ms target : ℕ) (rs : List Text) (state : MemStore) (removed : ℕ)
      → now_ms < m.deadline_ms
      → IsValid state
      → Holds r m state
      → Holds r m (purge_recipients now_ms target rs (state, removed)).0
  unfolding purge_recipients
  Holds-purge_recipients now_ms target [] state removed l v h = h
  Holds-purge_recipients now_ms target (r' ∷ rs) state removed l v h =
      elim (Bool-cases (leb target removed)) [
        | inl full ↦ rw full h
        | inr more ↦
            let lt : removed < target = ground arith in
            rw more (
              Holds-purge_recipients now_ms target rs
                (purge_recipient now_ms target r' state removed).0
                (purge_recipient now_ms target r' state removed).1 l
                (purge_recipient-IsValid now_ms target r' state removed lt v).0
                (Holds-purge_recipient state v h now_ms target removed r' lt l))
      ]

module _ (standard : Base64) (r : Text) (m : QueueMessage) where
  -- The call does not end the message's stay: it runs before the deadline, and acknowledges other
  -- messages only.
  abbrev pub Spares : {s t : MemStore} → Step standard s t → Type 0
  Spares (push_step msg limits room bytes) = Unit
  Spares (pull_step r' cursor limit now_ms) = now_ms < m.deadline_ms
  Spares (ack_step order r' items a l) = r' ≡ r → member (item_of m) items ≡ false
  Spares (purge_step now_ms max) = now_ms < m.deadline_ms

  -- Calls that all spare the message.
  pub data Spared (s : MemStore) : MemStore → Type 0 where
    here : Spared s s
    more : {t u : MemStore} → Spared s t → (st : Step standard t u) → Spares st → Spared s u

  Step-Holds :
      {s t : MemStore} (st : Step standard s t) → Spares st → IsValid s → Holds r m s → Holds r m t
  unfolding purge_expired
  Step-Holds {s = s} (push_step msg limits room bytes) l v h =
      Holds-push s v h msg limits room bytes
  Step-Holds {s = s} (pull_step r' cursor limit now_ms) l v h =
      Holds-pull s v h standard r' cursor limit now_ms l
  Step-Holds {s = s} (ack_step order r' items a n) l v h = Holds-ack s v h order r' items a n l
  Step-Holds {s = s} (purge_step now_ms max) l v h =
      Holds-purge_recipients now_ms (min max gc_batch_limit) (sort (map (λ e. e.0) s)) s 0 l v h

  Spared-IsValid : {s t : MemStore} → Spared s t → IsValid s → IsValid t
  Spared-IsValid here v = v
  Spared-IsValid (more p st l) v = Step-IsValid standard st (Spared-IsValid p v)

  -- A message that a valid store holds is held after any calls of which the pulls and purges run
  -- before its deadline and the acknowledgements to its recipient do not name it. The calls
  -- are those of `Step`, which leave the ends of the u64 values out.
  pub Spared-Holds : {s t : MemStore} → Spared s t → IsValid s → Holds r m s → Holds r m t
  Spared-Holds here v h = h
  Spared-Holds (more p st l) v h = Step-Holds st l (Spared-IsValid p v) (Spared-Holds p v h)
