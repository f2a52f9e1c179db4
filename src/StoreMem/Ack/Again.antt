-- ===== src/StoreMem/Ack/Again.antt =====
-- An acknowledgement that src/store_mem.rs has carried out, made again.
use enigma_relay.Base.{◌≤◌, ◌≡◌, refl, sym, ap, ◌∙◌, some, List, [], ◌∷◌, arith, length, u64_max}
use enigma_relay.Base.Text.{Text}
use enigma_relay.Base.Eq.{list_eq}
use enigma_relay.Base.Map.{lookup, insert, lookup-insert_self}
use enigma_relay.Error.{Result, ok}
use enigma_relay.Store.{AckItem, AckOutcome}
use enigma_relay.StoreMem.State.{Queue, RecipientState, MemStore}
use enigma_relay.StoreMem.Ack.{ack, ack_entry}
use enigma_relay.StoreMem.Ack.Refines.{Arranges, ack_entry-view, ack_entry-IsWf}
use enigma_relay.StoreMem.Wf.{IsWf}
use enigma_relay.StoreMem.Mailbox
use enigma_relay.StoreMem.Mailbox.{Mailbox, view, item_of, unacked, distinct}
use enigma_relay.StoreMem.Invariant.{IsValid}

unacked_idem :
    (items : List AckItem) (q : Queue) → unacked items (unacked items q) ≡ unacked items q
unfolding unacked
unacked_idem items [] = refl
unacked_idem items ((seq, m) ∷ q) = ground (arith, unacked_idem items q)

module _ (order : List AckItem → List AckItem) (arranges : Arranges order) {r : Text}
    (items : List AckItem) (s : RecipientState) (w : IsWf r s) (l : length items ≤ u64_max) where
  abbrev once : RecipientState
  once = (ack_entry order items s).1

  abbrev again : AckOutcome × RecipientState
  again = ack_entry order items once

  queue-once : once.queue ≡ unacked items s.queue
  unfolding Mailbox.ack
  queue-once = ap (λ (b : Mailbox). b.messages) (ack_entry-view order arranges items s w l).1

  queue_again : unacked items once.queue ≡ once.queue
  queue_again = rw queue-once (unacked_idem items s.queue)

  ack_entry_again :
      (again.0 ≡ record {
        deleted = 0;
        missing = distinct items;
        remaining = (ack_entry order items s).0.remaining;
      })
      × (view again.1 ≡ view once)
  unfolding Mailbox.ack
  ack_entry_again =
      let first = ack_entry-view order arranges items s w l in
      let second =
        ack_entry-view order arranges items once (ack_entry-IsWf order arranges items s w l) l in
      ground (arith, first.0, first.1, second.0, second.1, queue-once, queue_again)

ack-found :
    (order : List AckItem → List AckItem) (r : Text) (items : List AckItem) (state : MemStore)
    (s : RecipientState)
    → lookup r state ≡ some s
    → ack order r items state
      ≡ (ok (ack_entry order items s).0, insert r (ack_entry order items s).1 state)
unfolding ack
ack-found order r items state s e = rw (e, ack)

-- After an acknowledgement in a valid store, to a recipient that is known, the same one again deletes
-- nothing, counts every distinct item as missing, and leaves the queue as it is, if
-- there are no more items than a u64 counts.
pub ack-ack :
    (order : List AckItem → List AckItem) (r : Text) (items : List AckItem) (state : MemStore)
    (s s1 s2 : RecipientState) (o : AckOutcome)
    → Arranges order
    → length items ≤ u64_max
    → IsValid state
    → lookup r state ≡ some s
    → (ack order r items state).0 ≡ ok o
    → lookup r (ack order r items state).1 ≡ some s1
    → lookup r (ack order r items (ack order r items state).1).1 ≡ some s2
    → ((ack order r items (ack order r items state).1).0
        ≡ ok (record { deleted = 0; missing = distinct items; remaining = o.remaining }))
      × (view s2 ≡ view s1)
ack-ack order r items state s s1 s2 o a l v e answer e1 e2 =
    let w = v.at r s e in
    let first = ack-found order r items state s e in
    let s1' = (ack_entry order items s).1 in
    let state1 = insert r s1' state in
    let found : lookup r state1 ≡ some s1' = lookup-insert_self r s1' state in
    let second = ack-found order r items state1 s1' found in
    let s2' = (ack_entry order items s1').1 in
    let known : lookup r (insert r s2' state1) ≡ some s2' = lookup-insert_self r s2' state1 in
    let (out, same) = ack_entry_again order a items s w l in
    let first1 = ap (λ (p : Result AckOutcome × MemStore). p.1) first in
    let second1 = ap (λ (p : Result AckOutcome × MemStore). p.1) second in
    let twice : ack order r items (ack order r items state).1
        ≡ (ok (ack_entry order items s1').0, insert r s2' state1) =
      ap (ack order r items) first1 ∙ second in
    let one : s1 ≡ s1' = cc (e1, ap (λ x. lookup r x) first1, found) in
    let two : s2 ≡ s2' =
      cc (e2, ap (λ (p : Result AckOutcome × MemStore). lookup r p.1) twice, known) in
    let o' : o ≡ (ack_entry order items s).0 = cc (answer, first) in
    (
      cc (
        ap (λ (p : Result AckOutcome × MemStore). p.0) twice,
        out,
        ap (λ (x : AckOutcome). x.remaining) o',
      ),
      ap view two ∙ same ∙ sym (ap view one),
    )
