-- ===== src/StoreMem/Purge/Refines.antt =====
-- `MemStore::purge_expired` of src/store_mem.rs on one recipient: it keeps the invariant and drops
-- the expired messages at the front of the queue, up to the target.
use enigma_relay.Base.{
  ℕ, zero, suc, ◌+◌, ◌-◌, ◌≤◌, ◌<◌, ◌≡◌, refl, ap, ◌∙◌, true, List, [], ◌∷◌, ◌++◌, arith, leb,
  if◌then◌else◌, length, append_assoc, append-nil, length-append, Bool-cases, inl, inr,
}
use enigma_relay.Base.Text.{Text}
use enigma_relay.Base.Eq.{nat_eq}
use enigma_relay.Base.Map.{Ascends, lookup, remove, contains_key, remove_absent, lookup-below}
use enigma_relay.Store.{QueueMessage}
use enigma_relay.StoreMem.State.{Queue, RecipientState, drop_seq}
use enigma_relay.StoreMem.Purge.{expired_front, drop_counted, purge_entry}
use enigma_relay.StoreMem.Wf.{IsWf, drop_seq-IsWf, drop_seq-fields}
use enigma_relay.StoreMem.Mailbox.{purge_front}

-- The sequence numbers of the expired messages at the front, `n` of them at most.
front_seqs : ℕ → ℕ → Queue → List ℕ
front_seqs zero now_ms q = []
front_seqs (suc n) now_ms [] = []
front_seqs (suc n) now_ms ((seq, m) ∷ q) =
    let rest = front_seqs n now_ms q in if leb m.deadline_ms now_ms then seq ∷ rest else []

-- The first loop gathers them, until the target is reached.
expired_front_lem :
    (now_ms target removed n : ℕ) (q : Queue) (to_drop : List ℕ)
    → removed + length to_drop + suc n ≡ target
    → expired_front now_ms target removed q to_drop ≡ to_drop ++ front_seqs (suc n) now_ms q
unfolding expired_front front_seqs
expired_front_lem now_ms target removed n [] to_drop h = rw append-nil
expired_front_lem now_ms target removed zero ((seq, m) ∷ q) to_drop h =
    ground (arith, length-append to_drop (seq ∷ []), append-nil to_drop)
expired_front_lem now_ms target removed (suc n) ((seq, m) ∷ q) to_drop h = ground (
  arith,
  length-append to_drop (seq ∷ []),
  append-nil to_drop,
  expired_front_lem now_ms target removed n q (to_drop ++ seq ∷ []),
  append_assoc to_drop (seq ∷ []) (front_seqs (suc n) now_ms q),
)

front_seqs_none : (n now_ms : ℕ) (q : Queue) → n ≡ 0 → front_seqs n now_ms q ≡ []
unfolding front_seqs
front_seqs_none zero now_ms q h = refl
front_seqs_none (suc n) now_ms q h = absurd (omega arith)

module _ (seq : ℕ) where
  contains_first : (m : QueueMessage) (q : Queue) → contains_key seq ((seq, m) ∷ q) ≡ true
  unfolding contains_key lookup
  contains_first m q = ground arith

  remove_first :
      (hi : ℕ) (m : QueueMessage) (q : Queue)
      → Ascends 0 hi ((seq, m) ∷ q)
      → remove seq ((seq, m) ∷ q) ≡ q
  unfolding remove
  remove_first hi m q a = ground (arith, remove_absent seq q, lookup-below (suc seq) hi seq q a.1)

pub record Purged (recipient : Text) (n now_ms removed : ℕ) (s : RecipientState)
    (r : RecipientState × ℕ) : Type 0 where
  pub wf : IsWf recipient r.0
  pub front : r.0.queue ≡ purge_front n now_ms s.queue
  pub same_seq : r.0.seq ≡ s.seq
  pub counted : r.1 + length r.0.queue ≡ removed + length s.queue
  pub bounded : r.1 ≤ removed + n

drop_counted-nil :
    (target : ℕ) (s : RecipientState) (removed : ℕ)
    → drop_counted target [] (s, removed) ≡ (s, removed)
unfolding drop_counted
drop_counted-nil target s removed = refl

drop_counted_step :
    (target seq removed : ℕ) (s : RecipientState) (seqs : List ℕ)
    → contains_key seq s.queue ≡ true
    → (target ≤ removed + 1 → seqs ≡ [])
    → drop_counted target (seq ∷ seqs) (s, removed)
      ≡ drop_counted target seqs (drop_seq seq s, removed + 1)
unfolding drop_counted
drop_counted_step target seq removed s seqs c stop =
    ground (arith, drop_counted-nil target (drop_seq seq s) (removed + 1))

module _ {recipient : Text} (now_ms target : ℕ) where
  -- The second loop drops what the first one gathered.
  drop_counted_lem :
      (n removed : ℕ) (q : Queue) (s : RecipientState)
      → IsWf recipient s
      → s.queue ≡ q
      → removed + n ≤ target
      → Purged recipient n now_ms removed s
          (drop_counted target (front_seqs n now_ms q) (s, removed))
  unfolding drop_counted front_seqs purge_front
  drop_counted_lem zero removed q s w e l = record {
    wf = w;
    front = refl;
    same_seq = refl;
    counted = refl;
    bounded = omega arith;
  }
  drop_counted_lem (suc n) removed [] s w e l = record {
    wf = w;
    front = rw e;
    same_seq = refl;
    counted = refl;
    bounded = omega arith;
  }
  drop_counted_lem (suc n) removed ((seq, m) ∷ q) s w e l =
      elim (Bool-cases (leb m.deadline_ms now_ms)) [
        | inr h ↦ rw h (record {
          wf = w;
          front = rw (e, h);
          same_seq = refl;
          counted = refl;
          bounded = omega arith;
        })
        | inl h ↦
            let s1 = drop_seq seq s in
            let (queue, same) = drop_seq-fields seq s in
            let first : remove seq s.queue ≡ q =
              rw e (remove_first seq s.seq m q (rw e at w.ascends)) in
            let ih =
              drop_counted_lem n (removed + 1) q s1 (drop_seq-IsWf w seq) (queue ∙ first)
                (omega arith) in
            let shorter = ap length (queue ∙ first) in
            let longer = ap length e in
            rw
              (
                h,
                drop_counted_step target seq removed s (front_seqs n now_ms q)
                    (rw e (contains_first seq m q))
                    (λ stop. front_seqs_none n now_ms q (omega arith)),
              )
              (record {
                wf = ih.wf;
                front = ih.front ∙ ap (purge_front n now_ms) (queue ∙ first) ∙ rw (e, h);
                same_seq = ih.same_seq ∙ same;
                counted = omega (arith, ih.counted, shorter, longer);
                bounded = omega (arith, ih.bounded);
              })
      ]

  -- A purge of one recipient drops the expired messages at the front, up to the target.
  pub purge_entry_lem :
      (removed : ℕ) (s : RecipientState)
      → IsWf recipient s
      → removed < target
      → Purged recipient
          (target - removed)
          now_ms
          removed
          s
          (purge_entry now_ms target (s, removed))
  unfolding purge_entry
  purge_entry_lem removed s w h =
      let n : target - removed ≡ suc (target - removed - 1) = omega arith in
      rw
        (n, expired_front_lem now_ms target removed (target - removed - 1) s.queue [] (omega arith))
        (drop_counted_lem (suc (target - removed - 1)) removed s.queue s w refl (omega arith))
