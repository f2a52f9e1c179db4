-- ===== src/StoreMem/Ack/Refines.antt =====
-- `MemStore::ack` of src/store_mem.rs keeps the invariant and implements the acknowledgement of a
-- mailbox, whatever the order in which the set of items is visited.
use enigma_relay.Base.{
  ℕ, ◌+◌, ◌≤◌, ◌<◌, ◌≡◌, refl, sym, ap, subst, ◌∙◌, none, some, List, [], ◌∷◌, arith, length,
  u64_max, Option-cases, inl, inr,
}
use enigma_relay.Base.Text.{Text}
use enigma_relay.Base.Eq.{nat_eq, pair_eq}
use enigma_relay.Base.Map.{remove, Ascends-length, length-remove}
use enigma_relay.Store.{AckItem, AckOutcome, default_outcome, ack_eq, ack_beq_iff}
use enigma_relay.StoreMem.State.{Queue, RecipientState}
use enigma_relay.StoreMem.Ack.{ack_item, ack_items, member, to_set, ack_entry}
use enigma_relay.StoreMem.Wf.{IsWf, seq_of, without, without-IsWf}
use enigma_relay.StoreMem.Mailbox
use enigma_relay.StoreMem.Mailbox.{Mailbox, view, item_of, unacked, distinct}
use enigma_relay.StoreMem.Ack.Unacked.{
  key_of_item, lookup-seq_of, unacked_absent, unacked-remove, unacked-cons, unacked_nil,
}

-- What a run of the loop over some items leaves, counted from the outcome before it.
pub record Acked (recipient : Text) (items : List AckItem) (s s' : RecipientState)
    (o o' : AckOutcome) : Type 0 where
  pub wf : IsWf recipient s'
  kept : s'.queue ≡ unacked items s.queue
  same_seq : s'.seq ≡ s.seq
  deleted : o'.deleted + length s'.queue ≡ o.deleted + length s.queue
  counted : o'.deleted + o'.missing ≡ o.deleted + o.missing + length items

module _ {recipient : Text} where
  ack_item_missing :
      (item : AckItem) (s : RecipientState) (o : AckOutcome)
      → IsWf recipient s
      → o.missing < u64_max
      → seq_of (key_of_item item) s.queue ≡ none
      → Acked recipient (item ∷ []) s (ack_item item (s, o)).0 o (ack_item item (s, o)).1
  unfolding ack_item
  ack_item_missing item s o w room gone =
      rw (w.indexed (key_of_item item) ∙ gone, ack_item)
        (record {
          wf = w;
          kept = sym (unacked_absent item s.queue gone);
          same_seq = refl;
          deleted = refl;
          counted = omega arith;
        })

  ack_item_found :
      (item : AckItem) (s : RecipientState) (o : AckOutcome) (seq : ℕ)
      → IsWf recipient s
      → o.deleted + length s.queue ≤ u64_max
      → seq_of (key_of_item item) s.queue ≡ some seq
      → Acked recipient (item ∷ []) s (ack_item item (s, o)).0 o (ack_item item (s, o)).1
  unfolding ack_item
  ack_item_found item s o seq w room found =
      let (m, e, same) = lookup-seq_of 0 s.seq seq (key_of_item item) s.queue w.ascends found in
      let shorter = length-remove 0 s.seq seq m s.queue w.ascends e in
      rw (w.indexed (key_of_item item) ∙ found, e, ack_item)
        (record {
          wf =
              subst (λ k. IsWf recipient (record (without seq m s) { idx = remove k s.idx })) same
                (without-IsWf w seq m e);
          kept = unacked-remove 0 s.seq seq item s.queue w.ascends w.distinct found;
          same_seq = refl;
          deleted = omega (arith, shorter);
          counted = omega (arith, shorter);
        })

  pub ack_item_lem :
      (item : AckItem) (s : RecipientState) (o : AckOutcome)
      → IsWf recipient s
      → o.deleted + length s.queue ≤ u64_max
      → o.missing < u64_max
      → Acked recipient (item ∷ []) s (ack_item item (s, o)).0 o (ack_item item (s, o)).1
  ack_item_lem item s o w room room' = elim (Option-cases (seq_of (key_of_item item) s.queue)) [
    | inl gone ↦ ack_item_missing item s o w room' gone
    | inr (seq, found) ↦ ack_item_found item s o seq w room found
  ]

  -- The loop leaves what no item names, and counts each item as deleted or as missing.
  ack_items_lem :
      (items : List AckItem) (s : RecipientState) (o : AckOutcome)
      → IsWf recipient s
      → o.deleted + length s.queue ≤ u64_max
      → o.deleted + o.missing + length items ≤ u64_max
      → Acked recipient items s (ack_items items (s, o)).0 o (ack_items items (s, o)).1
  unfolding ack_items
  ack_items_lem [] s o w room room' = record {
    wf = w;
    kept = sym (unacked_nil s.queue);
    same_seq = refl;
    deleted = refl;
    counted = omega arith;
  }
  ack_items_lem (item ∷ items) s o w room room' =
      let (s1, o1) = ack_item item (s, o) in
      let one = ack_item_lem item s o w room (omega arith) in
      let rest =
        ack_items_lem items s1 o1 one.wf (omega (arith, one.deleted))
          (omega (arith, one.counted)) in
      record {
        wf = rest.wf;
        kept = rest.kept ∙ ap (unacked items) one.kept ∙ unacked-cons item items s.queue;
        same_seq = rest.same_seq ∙ one.same_seq;
        deleted = rest.deleted ∙ one.deleted;
        counted = omega (arith, rest.counted, one.counted);
      }

-- `order` arranges a set: it has the same members, and as many.
pub record Arranges (order : List AckItem → List AckItem) : Type 0 where
  pub same_members : (x : AckItem) (items : List AckItem) → member x (order items) ≡ member x items
  pub same_length : (items : List AckItem) → length (order items) ≡ length items

pub member-to_set : (x : AckItem) (items : List AckItem) → member x (to_set items) ≡ member x items
unfolding to_set
member-to_set x [] = refl
member-to_set x (item ∷ items) =
    ground (arith, member-to_set x items, member-to_set item items, ack_beq_iff item x)

pub length-to_set : (items : List AckItem) → length (to_set items) ≡ distinct items
unfolding to_set distinct
length-to_set [] = refl
length-to_set (item ∷ items) = ground (arith, member-to_set item items, length-to_set items)

length-to_set-le : (items : List AckItem) → length (to_set items) ≤ length items
unfolding to_set
length-to_set-le [] = omega arith
length-to_set-le (item ∷ items) = ground (arith, length-to_set-le items)

unacked-members :
    (xs ys : List AckItem) (q : Queue)
    → ((x : AckItem) → member x xs ≡ member x ys)
    → unacked xs q ≡ unacked ys q
unfolding unacked
unacked-members xs ys [] h = refl
unacked-members xs ys ((j, w) ∷ q) h = ground (arith, h (item_of w), unacked-members xs ys q h)

module _ (order : List AckItem → List AckItem) (arranges : Arranges order) {recipient : Text} where
  ack_entry-Acked :
      (items : List AckItem) (s : RecipientState)
      → IsWf recipient s
      → length items ≤ u64_max
      → Acked recipient
          (order (to_set items))
          s
          (ack_items (order (to_set items)) (s, default_outcome)).0
          default_outcome
          (ack_items (order (to_set items)) (s, default_outcome)).1
  ack_entry-Acked items s w l =
      ack_items_lem (order (to_set items)) s default_outcome w
        (omega (arith, w.in_range, Ascends-length 0 s.seq s.queue w.ascends))
        (omega (arith, arranges.same_length (to_set items), length-to_set-le items))

  -- An acknowledgement of a well-formed state keeps it well formed.
  pub ack_entry-IsWf :
      (items : List AckItem) (s : RecipientState)
      → IsWf recipient s
      → length items ≤ u64_max
      → IsWf recipient (ack_entry order items s).1
  unfolding ack_entry
  ack_entry-IsWf items s w l = (ack_entry-Acked items s w l).wf

  -- An acknowledgement of a well-formed state does what that of its mailbox does, in whatever order
  -- the set of items is visited, if there are no more items than a u64 counts.
  pub ack_entry-view :
      (items : List AckItem) (s : RecipientState)
      → IsWf recipient s
      → length items ≤ u64_max
      → ((ack_entry order items s).0 ≡ (Mailbox.ack items (view s)).0)
        × (view (ack_entry order items s).1 ≡ (Mailbox.ack items (view s)).1)
  unfolding ack_entry Mailbox.ack
  ack_entry-view items s w l =
      let done = ack_entry-Acked items s w l in
      let us = order (to_set items) in
      let kept : (ack_items us (s, default_outcome)).0.queue ≡ unacked items s.queue =
        done.kept
        ∙ unacked-members us items s.queue
            (λ x. arranges.same_members x (to_set items) ∙ member-to_set x items) in
      ground (
        arith,
        kept,
        done.same_seq,
        done.deleted,
        done.counted,
        done.wf.counted,
        arranges.same_length (to_set items),
        length-to_set items,
      )
