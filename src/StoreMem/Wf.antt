-- ===== src/StoreMem/Wf.antt =====
-- The invariant of a `RecipientState` of src/store_mem.rs, and that dropping an entry keeps it.
use enigma_relay.Base.{
  ℕ, suc, ◌+◌, ◌-◌, ◌≤◌, ◌≡◌, refl, Option, none, some, List, [], ◌∷◌, arith, eqb, if◌then◌else◌,
  length, u64_max, All, Bool-cases, Option-cases, inl, inr,
}
use enigma_relay.Base.Text.{Text}
use enigma_relay.Base.Eq.{nat_eq, pair_eq, pair_beq_iff, ◌==◌}
use enigma_relay.Base.Map.{
  lookup, remove, lookup-remove, remove_absent, Ascends, Ascends-remove, length-remove,
  lookup-below,
}
use enigma_relay.Store.{QueueMessage}
use enigma_relay.StoreMem.State.{
  DedupKey, Queue, RecipientState, default_state, key_of, drop_seq, drop_all,
}

-- The payload bytes of a queue.
unfoldable pub total_bytes : Queue → ℕ
total_bytes [] = 0
total_bytes ((seq, m) ∷ q) = m.payload_bytes + total_bytes q

-- The sequence number under which a queue holds a message with the key.
unfoldable pub seq_of : DedupKey → Queue → Option ℕ
seq_of k [] = none
seq_of k ((seq, m) ∷ q) = if key_of m == k then some seq else seq_of k q

-- No two messages of a queue have the same key.
abbrev pub Distinct : Queue → Type 0
Distinct [] = Unit
Distinct ((seq, m) ∷ q) = (seq_of (key_of m) q ≡ none) × Distinct q

-- An entry is filed under its own sequence number, in the queue of its recipient.
abbrev pub Filed : Text → ℕ × QueueMessage → Type 0
Filed recipient e = (e.1.arrival_seq ≡ e.0) × (e.1.recipient ≡ recipient)

pub record IsWf (recipient : Text) (s : RecipientState) : Type 0 where
  pub ascends : Ascends 0 s.seq s.queue
  pub in_range : s.seq ≤ u64_max
  pub filed : All (Filed recipient) s.queue
  pub distinct : Distinct s.queue
  pub indexed : (k : DedupKey) → lookup k s.idx ≡ seq_of k s.queue
  pub counted : s.quota_count ≡ length s.queue
  pub weighed : s.quota_bytes ≡ total_bytes s.queue

-- The state of a new recipient is well formed.
pub default_state-IsWf : (recipient : Text) → IsWf recipient default_state
unfolding seq_of lookup total_bytes
default_state-IsWf recipient = record {
  ascends = omega arith;
  in_range = omega arith;
  filed = tt;
  distinct = tt;
  indexed = λ k. refl;
  counted = refl;
  weighed = refl;
}

module _ (seq : ℕ) where
  All-remove {ℓ} : (P : ℕ × QueueMessage → Type ℓ) (q : Queue) → All P q → All P (remove seq q)
  unfolding remove
  All-remove P [] h = h
  All-remove P ((j, m) ∷ q) h = elim (Bool-cases (eqb j seq)) [
    | inl e ↦ rw e (All-remove P q h.1)
    | inr e ↦ rw e (h.0, All-remove P q h.1)
  ]

  total_bytes-remove :
      (lo hi : ℕ) (m : QueueMessage) (q : Queue)
      → Ascends lo hi q
      → lookup seq q ≡ some m
      → total_bytes q ≡ m.payload_bytes + total_bytes (remove seq q)
  unfolding total_bytes lookup remove
  total_bytes-remove lo hi m [] h e = cc
  total_bytes-remove lo hi m ((j, w) ∷ q) h e = ground (
    arith,
    total_bytes-remove (suc j) hi m q h.1,
    remove_absent seq q,
    lookup-below (suc j) hi seq q h.1,
  )

  -- A message that is in the queue is found by its key.
  pub seq_of-lookup :
      (m : QueueMessage) (q : Queue)
      → Distinct q
      → lookup seq q ≡ some m
      → seq_of (key_of m) q ≡ some seq
  unfolding seq_of lookup
  seq_of-lookup m [] d e = cc
  seq_of-lookup m ((j, w) ∷ q) d e =
      ground (arith, seq_of-lookup m q d.1, pair_beq_iff (key_of w) (key_of m))

  -- Without the message, its key is gone and the others are where they were.
  seq_of-remove :
      (lo hi : ℕ) (k : DedupKey) (m : QueueMessage) (q : Queue)
      → Ascends lo hi q
      → Distinct q
      → lookup seq q ≡ some m
      → seq_of k (remove seq q) ≡ (if key_of m == k then none else seq_of k q)
  unfolding seq_of lookup remove
  seq_of-remove lo hi k m [] h d e = cc
  seq_of-remove lo hi k m ((j, w) ∷ q) h d e = ground (
    arith,
    seq_of-remove (suc j) hi k m q h.1 d.1,
    seq_of-lookup m q d.1,
    remove_absent seq q,
    lookup-below (suc j) hi seq q h.1,
    pair_beq_iff (key_of w) k,
    pair_beq_iff (key_of m) k,
  )

  seq_of-remove-none :
      (k : DedupKey) (q : Queue) → seq_of k q ≡ none → seq_of k (remove seq q) ≡ none
  unfolding seq_of remove
  seq_of-remove-none k [] h = h
  seq_of-remove-none k ((j, w) ∷ q) h = ground (arith, seq_of-remove-none k q)

  Distinct-remove : (q : Queue) → Distinct q → Distinct (remove seq q)
  unfolding remove
  Distinct-remove [] d = d
  Distinct-remove ((j, w) ∷ q) d = elim (Bool-cases (eqb j seq)) [
    | inl e ↦ rw e (Distinct-remove q d.1)
    | inr e ↦ rw e (seq_of-remove-none (key_of w) q d.0, Distinct-remove q d.1)
  ]

-- The state without the message `m` that is filed under `seq`.
abbrev pub without : ℕ → QueueMessage → RecipientState → RecipientState
without seq m s = record s {
  queue = remove seq s.queue;
  idx = remove (key_of m) s.idx;
  quota_bytes = s.quota_bytes - m.payload_bytes;
  quota_count = s.quota_count - 1;
}

module _ {recipient : Text} {s : RecipientState} (w : IsWf recipient s) (seq : ℕ) where
  pub without-IsWf :
      (m : QueueMessage) → lookup seq s.queue ≡ some m → IsWf recipient (without seq m s)
  without-IsWf m e = record {
    ascends = Ascends-remove 0 s.seq seq s.queue w.ascends;
    in_range = w.in_range;
    filed = All-remove seq (Filed recipient) s.queue w.filed;
    distinct = Distinct-remove seq s.queue w.distinct;
    indexed = λ k. ground (
      arith,
      lookup-remove (key_of m) k s.idx,
      seq_of-remove seq 0 s.seq k m s.queue w.ascends w.distinct e,
      w.indexed k,
    );
    counted = omega (arith, w.counted, length-remove 0 s.seq seq m s.queue w.ascends e);
    weighed = omega (arith, w.weighed, total_bytes-remove seq 0 s.seq m s.queue w.ascends e);
  }

  pub drop_seq-without :
      (m : QueueMessage) → lookup seq s.queue ≡ some m → drop_seq seq s ≡ without seq m s
  unfolding drop_seq
  drop_seq-without m e = rw (e, drop_seq)

  pub drop_seq-IsWf : IsWf recipient (drop_seq seq s)
  unfolding drop_seq
  drop_seq-IsWf = elim (Option-cases (lookup seq s.queue)) [
    | inl e ↦ rw (e, drop_seq) w
    | inr (m, e) ↦ rw (e, drop_seq) (without-IsWf m e)
  ]

pub drop_seq-fields :
    (seq : ℕ) (s : RecipientState)
    → ((drop_seq seq s).queue ≡ remove seq s.queue) × ((drop_seq seq s).seq ≡ s.seq)
unfolding drop_seq
drop_seq-fields seq s = ground (arith, remove_absent seq s.queue)

pub drop_all-IsWf :
    {recipient : Text} (seqs : List ℕ) {s : RecipientState}
    → IsWf recipient s
    → IsWf recipient (drop_all seqs s)
unfolding drop_all
drop_all-IsWf [] w = w
drop_all-IsWf (seq ∷ seqs) w = drop_all-IsWf seqs (drop_seq-IsWf w seq)
