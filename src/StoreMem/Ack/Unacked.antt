-- ===== src/StoreMem/Ack/Unacked.antt =====
-- The messages of a queue of src/store_mem.rs that the items of an acknowledgement do not name, and
-- the message that one item names.
use enigma_relay.Base.{
  ℕ, suc, ◌≤◌, ◌≡◌, refl, ap, none, some, List, [], ◌∷◌, arith, inl, inr, Bool-cases,
}
use enigma_relay.Base.Eq.{nat_eq, pair_eq, pair_beq_iff, ◌==◌}
use enigma_relay.Base.Map.{lookup, remove, remove_absent, Ascends, lookup-below}
use enigma_relay.Store.{QueueMessage, AckItem, ack_eq}
use enigma_relay.StoreMem.State.{DedupKey, Queue, key_of}
use enigma_relay.StoreMem.Wf.{Distinct, seq_of}
use enigma_relay.StoreMem.Mailbox.{unacked}

abbrev pub key_of_item : AckItem → DedupKey
key_of_item item = (item.message_id, item.chunk_index)

-- A key that is found is the key of a message.
pub lookup-seq_of :
    (lo hi seq : ℕ) (k : DedupKey) (q : Queue)
    → Ascends lo hi q
    → seq_of k q ≡ some seq
    → (m : QueueMessage) × (lookup seq q ≡ some m) × (key_of m ≡ k)
unfolding seq_of lookup
lookup-seq_of lo hi seq k [] a e = cc
lookup-seq_of lo hi seq k ((j, w) ∷ q) a e = elim (Bool-cases (key_of w == k)) [
  | inl h ↦ (w, ground arith, (pair_beq_iff (key_of w) k).0 h)
  | inr h ↦
      let (m, found, same) = lookup-seq_of (suc j) hi seq k q a.1 (ground arith) in
      (m, ground (arith, lookup-below (suc j) hi seq q a.1), same)
]

pub seq_of-le :
    (lo hi seq : ℕ) (k : DedupKey) (q : Queue) → Ascends lo hi q → seq_of k q ≡ some seq → lo ≤ seq
unfolding seq_of
seq_of-le lo hi seq k [] a e = cc
seq_of-le lo hi seq k ((j, w) ∷ q) a e = ground (arith, seq_of-le (suc j) hi seq k q a.1)

-- What the items do not name stays, and an item that names no message takes nothing out.
pub unacked_absent :
    (item : AckItem) (q : Queue) → seq_of (key_of_item item) q ≡ none → unacked (item ∷ []) q ≡ q
unfolding unacked seq_of
unacked_absent item [] h = refl
unacked_absent item ((j, w) ∷ q) h = ground (arith, unacked_absent item q)

pub unacked-remove :
    (lo hi seq : ℕ) (item : AckItem) (q : Queue)
    → Ascends lo hi q
    → Distinct q
    → seq_of (key_of_item item) q ≡ some seq
    → remove seq q ≡ unacked (item ∷ []) q
unfolding unacked seq_of remove
unacked-remove lo hi seq item [] a d h = cc
unacked-remove lo hi seq item ((j, w) ∷ q) a d h =
    elim (Bool-cases (key_of w == key_of_item item)) [
      | inl e ↦
          let same : key_of w ≡ key_of_item item =
            (pair_beq_iff (key_of w) (key_of_item item)).0 e in
          let gone : seq_of (key_of_item item) q ≡ none = rw same at d.0 in
          ground (
            arith,
            remove_absent seq q,
            lookup-below (suc j) hi seq q a.1,
            unacked_absent item q gone,
          )
      | inr e ↦ ground (
        arith,
        seq_of-le (suc j) hi seq (key_of_item item) q a.1,
        unacked-remove (suc j) hi seq item q a.1 d.1,
      )
    ]

pub unacked-cons :
    (item : AckItem) (items : List AckItem) (q : Queue)
    → unacked items (unacked (item ∷ []) q) ≡ unacked (item ∷ items) q
unfolding unacked
unacked-cons item items [] = refl
unacked-cons item items ((j, w) ∷ q) = ground (arith, unacked-cons item items q)

pub unacked_nil : (q : Queue) → unacked [] q ≡ q
unfolding unacked
unacked_nil [] = refl
unacked_nil ((j, w) ∷ q) = ap (◌∷◌ (j, w)) (unacked_nil q)
