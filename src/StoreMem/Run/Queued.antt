-- ===== src/StoreMem/Run/Queued.antt =====
-- A message of one queue of src/store_mem.rs, through each method.
use enigma_relay.Base.{
  ℕ, zero, suc, ◌-◌, ◌≤◌, ◌<◌, ◌≡◌, ap, false, Option, some, List, [], ◌∷◌, ◌++◌, arith, min,
  length, u64_max, inl, inr, u32_max,
}
use enigma_relay.Base.Text.{Text}
use enigma_relay.Base.Eq.{nat_eq, list_eq}
use enigma_relay.Base.Map.{lookup}
use enigma_relay.Error.{Result-cases}
use enigma_relay.Config.{RelayLimits}
use enigma_relay.Store.{Base64, InboundMessage, QueueMessage, AckItem}
use enigma_relay.StoreMem.State.{Queue, RecipientState, to_stored}
use enigma_relay.StoreMem.Push.{push_entry}
use enigma_relay.StoreMem.Push.Refines.{push_entry_state}
use enigma_relay.StoreMem.Pull.{pull_entry, start_seq}
use enigma_relay.StoreMem.Pull.Refines.{pull_from-view}
use enigma_relay.StoreMem.Ack.{ack_entry, member}
use enigma_relay.StoreMem.Ack.Refines.{Arranges, ack_entry-view}
use enigma_relay.StoreMem.Purge.{purge_entry}
use enigma_relay.StoreMem.Purge.Refines.{purge_entry_lem}
use enigma_relay.StoreMem.Wf.{IsWf}
use enigma_relay.StoreMem.Mailbox
use enigma_relay.StoreMem.Mailbox.{Mailbox, view, item_of, sweep, unacked, purge_front}

module _ (seq : ℕ) (m : QueueMessage) where
  abbrev pub Queued : Queue → Type 0
  Queued q = lookup seq q ≡ some m

  Queued-append : (q p : Queue) → Queued q → Queued (q ++ p)
  unfolding lookup
  Queued-append [] p h = cc
  Queued-append ((j, w) ∷ q) p h = ground (arith, Queued-append q p)

  Queued-sweep :
      (start : Option ℕ) (n now_ms : ℕ) (q : Queue)
      → now_ms < m.deadline_ms
      → Queued q
      → Queued (sweep start n now_ms q)
  unfolding lookup sweep
  Queued-sweep start n now_ms [] l h = cc
  Queued-sweep start zero now_ms ((j, w) ∷ q) l h =
      ground (arith, Queued-sweep start zero now_ms q l)
  Queued-sweep start (suc n) now_ms ((j, w) ∷ q) l h =
      ground (arith, Queued-sweep start (suc n) now_ms q l, Queued-sweep start n now_ms q l)

  Queued-unacked :
      (items : List AckItem) (q : Queue)
      → member (item_of m) items ≡ false
      → Queued q
      → Queued (unacked items q)
  unfolding lookup unacked
  Queued-unacked items [] l h = cc
  Queued-unacked items ((j, w) ∷ q) l h = ground (arith, Queued-unacked items q l)

  Queued-purge_front :
      (n now_ms : ℕ) (q : Queue)
      → now_ms < m.deadline_ms
      → Queued q
      → Queued (purge_front n now_ms q)
  unfolding lookup purge_front
  Queued-purge_front zero now_ms q l h = h
  Queued-purge_front (suc n) now_ms [] l h = cc
  Queued-purge_front (suc n) now_ms ((j, w) ∷ q) l h =
      ground (arith, Queued-purge_front n now_ms q l)

  module _ {r : Text} (s : RecipientState) (w : IsWf r s) where
    pub Queued-push :
        (msg : InboundMessage) (limits : RelayLimits)
        → s.seq < u64_max
        → limits.max_queue_bytes_per_user < u64_max
        → Queued s.queue
        → Queued (push_entry msg limits s).1.queue
    Queued-push msg limits room bytes h =
        let new = (s.seq, to_stored msg s.seq) ∷ [] in
        elim (push_entry_state msg s limits w room bytes) [
          | inl e ↦ rw e h
          | inr (_, e) ↦ rw e (Queued-append s.queue new h)
        ]

    pub Queued-pull :
        (standard : Base64) (cursor : Option Text) (limit now_ms : ℕ)
        → now_ms < m.deadline_ms
        → Queued s.queue
        → Queued (pull_entry standard r cursor limit now_ms s).1.queue
    unfolding pull_entry Mailbox.pull
    Queued-pull standard cursor limit now_ms l h =
        elim (Result-cases (start_seq standard r cursor)) [
          | inr (_, e) ↦ rw (e, pull_entry) h
          | inl (start, e) ↦
              let swept =
                ap (λ (b : Mailbox). b.messages)
                  (pull_from-view standard start limit now_ms s w).1 in
              rw (e, pull_entry, swept) (Queued-sweep start (min limit u32_max) now_ms s.queue l h)
        ]

    pub Queued-ack :
        (order : List AckItem → List AckItem) (items : List AckItem)
        → Arranges order
        → length items ≤ u64_max
        → member (item_of m) items ≡ false
        → Queued s.queue
        → Queued (ack_entry order items s).1.queue
    unfolding Mailbox.ack
    Queued-ack order items arranges l spared h =
        let kept = ap (λ (b : Mailbox). b.messages) (ack_entry-view order arranges items s w l).1 in
        rw kept (Queued-unacked items s.queue spared h)

    pub Queued-purge :
        (now_ms target removed : ℕ)
        → removed < target
        → now_ms < m.deadline_ms
        → Queued s.queue
        → Queued (purge_entry now_ms target (s, removed)).0.queue
    Queued-purge now_ms target removed more l h =
        rw (purge_entry_lem now_ms target removed s w more).front
          (Queued-purge_front (target - removed) now_ms s.queue l h)
