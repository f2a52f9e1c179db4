-- ===== src/StoreMem/Pull/Bounds.antt =====
-- How many messages `MemStore::pull` of src/store_mem.rs delivers.
use enigma_relay.Base.{
  ℕ, ◌≤◌, ◌≡◌, Option, List, [], ◌∷◌, ◌++◌, arith, length, length-append, min, u32_max,
  Option-cases, inl, inr,
}
use enigma_relay.Base.Text.{Text}
use enigma_relay.Base.Eq.{list_eq}
use enigma_relay.Base.Map.{lookup}
use enigma_relay.Error.{ok, Result-cases}
use enigma_relay.Store.{Base64, QueueMessage, PullBatch}
use enigma_relay.StoreMem.State.{Queue, RecipientState, MemStore}
use enigma_relay.StoreMem.Pull.{
  collect, entries_from, empty_batch, start_seq, pull_from, pull_entry, pull,
}

length-collect-le :
    (limit now_ms : ℕ) (q : Queue) (c : List QueueMessage) (e : List ℕ)
    → length c ≤ limit
    → length (collect limit now_ms q c e).collected ≤ limit
unfolding collect
length-collect-le limit now_ms [] c e l = l
length-collect-le limit now_ms ((seq, m) ∷ q) c e l = ground (
  arith,
  length-append c (m ∷ []),
  length-collect-le limit now_ms q c (e ++ seq ∷ []),
  length-collect-le limit now_ms q (c ++ m ∷ []) e,
)

module _ (standard : Base64) (r : Text) (cursor : Option Text) (limit now_ms : ℕ) where
  length-pull_from-le :
      (start : Option ℕ) (s : RecipientState)
      → length (pull_from standard start limit now_ms s).0.items ≤ limit
  unfolding pull_from
  length-pull_from-le start s = omega (
    arith,
    length-collect-le (min limit u32_max) now_ms (entries_from start s.queue) [] [] (omega arith),
  )

  length-pull_entry-le :
      (s : RecipientState) (batch : PullBatch)
      → (pull_entry standard r cursor limit now_ms s).0 ≡ ok batch
      → length batch.items ≤ limit
  unfolding pull_entry
  length-pull_entry-le s batch e = elim (Result-cases (start_seq standard r cursor)) [
    | inr (e', bad) ↦ absurd (cc (rw (bad, pull_entry) at e))
    | inl (start, at) ↦
        let same : (pull_from standard start limit now_ms s).0 ≡ batch =
          cc (rw (at, pull_entry) at e) in
        rw (← same) (length-pull_from-le start s)
  ]

  -- A pull delivers no more messages than its limit.
  pub length-pull-le :
      (state : MemStore) (batch : PullBatch)
      → (pull standard r cursor limit now_ms state).0 ≡ ok batch
      → length batch.items ≤ limit
  unfolding pull
  length-pull-le state batch e = elim (Option-cases (lookup r state)) [
    | inl unknown ↦
        let same : empty_batch ≡ batch = cc (rw (unknown, pull) at e) in rw (← same) (omega arith)
    | inr (s, known) ↦ length-pull_entry-le s batch (rw (known, pull) at e)
  ]
