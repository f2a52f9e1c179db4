-- ===== src/StoreMem/Pull/Collect.antt =====
-- The loops of `MemStore::pull` in src/store_mem.rs, without their accumulators.
use enigma_relay.Base.{
  take_nil, ℕ, zero, suc, ◌+◌, ◌≤◌, ◌≡◌, refl, ap, ◌∙◌, Option, none, some, List, [], ◌∷◌, ◌++◌,
  arith, ltb, leb, if◌then◌else◌, length, take, All, append-nil, append_assoc, length-append,
  Bool-cases, inl, inr,
}
use enigma_relay.Base.Eq.{nat_eq}
use enigma_relay.Base.Map.{remove, remove_absent, range_after, Ascends, Ascends-lower, lookup-below}
use enigma_relay.Store.{QueueMessage}
use enigma_relay.StoreMem.State.{Queue, RecipientState, drop_seq, drop_all}
use enigma_relay.StoreMem.Pull.{Collected, collect, entries_from}
use enigma_relay.StoreMem.Wf.{drop_seq-fields}
use enigma_relay.StoreMem.Mailbox.{live, sweep, is_after, waiting}

-- The sequence numbers of the expired entries that stand before the live message number `n`.
pub expired_before : ℕ → ℕ → Queue → List ℕ
expired_before n now_ms [] = []
expired_before zero now_ms ((seq, m) ∷ q) =
    let skipped = expired_before zero now_ms q in
    if leb m.deadline_ms now_ms then seq ∷ skipped else []
expired_before (suc n) now_ms ((seq, m) ∷ q) =
    let skipped = expired_before (suc n) now_ms q in
    let passed = expired_before n now_ms q in
    if leb m.deadline_ms now_ms then seq ∷ skipped else passed

abbrev pub collected_at : ℕ → ℕ → Queue → List QueueMessage → List ℕ → Collected
collected_at n now_ms q c e = record {
  collected = c ++ take n (live now_ms q);
  expired = e ++ expired_before n now_ms q;
  more = ltb n (length (live now_ms q));
}

-- The loop gathers the first live messages, and the expired entries that it passes.
pub collect_lem :
    (limit n now_ms : ℕ) (q : Queue) (c : List QueueMessage) (e : List ℕ)
    → limit ≡ length c + n
    → collect limit now_ms q c e ≡ collected_at n now_ms q c e
unfolding collect live expired_before
collect_lem limit n now_ms [] c e h =
    ground (arith, append-nil c, append-nil e, take_nil {A = QueueMessage} n)
collect_lem limit zero now_ms ((seq, m) ∷ q) c e h = ground (
  arith,
  append-nil c,
  append-nil e,
  collect_lem limit zero now_ms q c (e ++ seq ∷ []),
  append_assoc e (seq ∷ []) (expired_before zero now_ms q),
)
collect_lem limit (suc n) now_ms ((seq, m) ∷ q) c e h = ground (
  arith,
  collect_lem limit (suc n) now_ms q c (e ++ seq ∷ []),
  append_assoc e (seq ∷ []) (expired_before (suc n) now_ms q),
  collect_lem limit n now_ms q (c ++ m ∷ []) e,
  length-append c (m ∷ []),
  append_assoc c (m ∷ []) (take n (live now_ms q)),
)

-- The queue that a list of removals leaves.
pub remove_all : List ℕ → Queue → Queue
remove_all [] q = q
remove_all (seq ∷ seqs) q = remove_all seqs (remove seq q)

pub drop_all-fields :
    (seqs : List ℕ) (s : RecipientState)
    → ((drop_all seqs s).queue ≡ remove_all seqs s.queue) × ((drop_all seqs s).seq ≡ s.seq)
unfolding drop_all remove_all
drop_all-fields [] s = (refl, refl)
drop_all-fields (seq ∷ seqs) s =
    let (q, n) = drop_all-fields seqs (drop_seq seq s) in
    let (q', n') = drop_seq-fields seq s in (q ∙ ap (remove_all seqs) q', n ∙ n')

-- Every number of the list is at least `lo`.
abbrev From : ℕ → List ℕ → Type 0
From lo = All (λ seq. lo ≤ seq)

From-lower : (lo lo' : ℕ) (seqs : List ℕ) → lo ≤ lo' → From lo' seqs → From lo seqs
From-lower lo lo' [] l h = h
From-lower lo lo' (x ∷ xs) l h = (omega arith, From-lower lo lo' xs l h.1)

expired_before-From :
    (lo hi n now_ms : ℕ) (q : Queue) → Ascends lo hi q → From lo (expired_before n now_ms q)
unfolding expired_before
expired_before-From lo hi n now_ms [] h = tt
expired_before-From lo hi zero now_ms ((seq, m) ∷ q) h = ground (
  arith,
  From-lower lo (suc seq) (expired_before zero now_ms q),
  expired_before-From (suc seq) hi zero now_ms q h.1,
)
expired_before-From lo hi (suc n) now_ms ((seq, m) ∷ q) h = ground (
  arith,
  From-lower lo (suc seq) (expired_before (suc n) now_ms q),
  From-lower lo (suc seq) (expired_before n now_ms q),
  expired_before-From (suc seq) hi (suc n) now_ms q h.1,
  expired_before-From (suc seq) hi n now_ms q h.1,
)

remove_all-nil : (q : Queue) → remove_all [] q ≡ q
unfolding remove_all
remove_all-nil q = refl

-- Removals of later entries leave the first one.
remove_all-cons :
    (seq : ℕ) (m : QueueMessage) (seqs : List ℕ) (q : Queue)
    → From (suc seq) seqs
    → remove_all seqs ((seq, m) ∷ q) ≡ (seq, m) ∷ remove_all seqs q
unfolding remove_all remove
remove_all-cons seq m [] q h = refl
remove_all-cons seq m (x ∷ xs) q h = ground (arith, remove_all-cons seq m xs (remove x q) h.1)

remove_all_first :
    (seq hi : ℕ) (m : QueueMessage) (seqs : List ℕ) (q : Queue)
    → Ascends (suc seq) hi q
    → remove_all (seq ∷ seqs) ((seq, m) ∷ q) ≡ remove_all seqs q
unfolding remove_all remove
remove_all_first seq hi m seqs q h =
    ground (arith, remove_absent seq q, lookup-below (suc seq) hi seq q h)

pub entries_from-nil : (start : Option ℕ) → entries_from start [] ≡ []
unfolding entries_from range_after
entries_from-nil none = refl
entries_from-nil (some k) = refl

pub entries_from-cons :
    (start : Option ℕ) (seq : ℕ) (m : QueueMessage) (q : Queue)
    → entries_from start ((seq, m) ∷ q)
      ≡ (if is_after start seq then (seq, m) ∷ entries_from start q else entries_from start q)
unfolding entries_from range_after
entries_from-cons none seq m q = refl
entries_from-cons (some k) seq m q = refl

pub live-entries_from :
    (start : Option ℕ) (now_ms : ℕ) (q : Queue)
    → live now_ms (entries_from start q) ≡ waiting start now_ms q
unfolding live waiting
live-entries_from start now_ms [] = rw entries_from-nil refl
live-entries_from start now_ms ((seq, m) ∷ q) =
    rw entries_from-cons (ground (arith, live-entries_from start now_ms q))

pub entries_from-Ascends :
    (start : Option ℕ) (lo hi : ℕ) (q : Queue)
    → Ascends lo hi q
    → Ascends lo hi (entries_from start q)
entries_from-Ascends start lo hi [] h = rw entries_from-nil h
entries_from-Ascends start lo hi ((seq, m) ∷ q) h =
    let ih = entries_from-Ascends start (suc seq) hi q h.1 in
    elim (Bool-cases (is_after start seq)) [
      | inl e ↦ rw (entries_from-cons, e) (h.0, ih)
      | inr e ↦
          rw (entries_from-cons, e)
            (Ascends-lower lo (suc seq) hi (entries_from start q) (omega arith) ih)
    ]

module _ (start : Option ℕ) (now_ms hi : ℕ) where
  later_From :
      (seq n : ℕ) (q : Queue)
      → Ascends (suc seq) hi q
      → From (suc seq) (expired_before n now_ms (entries_from start q))
  later_From seq n q h =
      expired_before-From (suc seq) hi n now_ms (entries_from start q)
        (entries_from-Ascends start (suc seq) hi q h)

  -- Dropping the expired entries that the loop passed is the sweep of the mailbox.
  pub remove_all-sweep :
      (lo n : ℕ) (q : Queue)
      → Ascends lo hi q
      → remove_all (expired_before n now_ms (entries_from start q)) q ≡ sweep start n now_ms q
  unfolding expired_before sweep
  remove_all-sweep lo n [] h = rw entries_from-nil (remove_all-nil [])
  remove_all-sweep lo zero ((seq, m) ∷ q) h = rw entries_from-cons (
      ground (
        arith,
        remove_all_first seq hi m (expired_before zero now_ms (entries_from start q)) q h.1,
        remove_all-cons seq m (expired_before zero now_ms (entries_from start q)) q
            (later_From seq zero q h.1),
        remove_all-nil ((seq, m) ∷ q),
        remove_all-sweep (suc seq) zero q h.1,
      ))
  remove_all-sweep lo (suc n) ((seq, m) ∷ q) h = rw entries_from-cons (
      ground (
        arith,
        remove_all_first seq hi m (expired_before (suc n) now_ms (entries_from start q)) q h.1,
        remove_all-cons seq m (expired_before (suc n) now_ms (entries_from start q)) q
            (later_From seq (suc n) q h.1),
        remove_all-cons seq m (expired_before n now_ms (entries_from start q)) q
            (later_From seq n q h.1),
        remove_all-sweep (suc seq) (suc n) q h.1,
        remove_all-sweep (suc seq) n q h.1,
      ))
