-- ===== src/StoreMem/Purge/Complete.antt =====
-- `MemStore::purge_expired` of src/store_mem.rs over all recipients: a purge that stays below its
-- target leaves nothing that has expired.
use enigma_relay.Base.{
  ℕ, ◌-◌, ◌≤◌, ◌<◌, ◌≡◌, refl, ap, subst, ◌∙◌, ◌⊎◌, inl, inr, true, false, some, List, [], ◌∷◌,
  arith, leb, min, map, length, Option-cases, Bool-cases,
}
use native.Mathlib.Decide.{dec_lt}
use enigma_relay.Base.Text.{Text}
use enigma_relay.Base.Sort.{sort, elem, elem-sort}
use enigma_relay.Base.Eq.{list_eq, ◌==◌, ==_eq}
use enigma_relay.Base.Map.{lookup, lookup-insert_self, insert_induction}
use enigma_relay.Error.{ok}
use enigma_relay.StoreMem.State.{RecipientState, MemStore}
use enigma_relay.StoreMem.Purge.{
  purge_entry, purge_recipient, purge_recipients, purge_expired, gc_batch_limit,
}
use enigma_relay.StoreMem.Purge.Refines.{purge_entry_lem}
use enigma_relay.StoreMem.Invariant.{IsValid, purge_recipient-IsValid, purge_recipients-IsValid}
use enigma_relay.StoreMem.Purge.Counts.{total, purge_recipients-total}
use enigma_relay.StoreMem.Purge.Timely.{
  Timely, AreTimely, AllLive, Timely-purge_front, purge_front-AllLive,
}

-- The queue of the recipient, if there is one, has nothing that has expired.
abbrev Settled : ℕ → Text → MemStore → Type 0
Settled now_ms r state = (s : RecipientState) → lookup r state ≡ some s → AllLive now_ms s.queue

module _ (now_ms target : ℕ) where
  module _ (r : Text) (state : MemStore) (removed : ℕ) (v : IsValid state) (t : AreTimely state)
      (more : removed < target) where
    purge_recipient-AreTimely : AreTimely (purge_recipient now_ms target r state removed).0
    unfolding purge_recipient
    purge_recipient-AreTimely = elim (Option-cases (lookup r state)) [
      | inl e ↦ rw (e, purge_recipient) t
      | inr (s, e) ↦
          let done = purge_entry_lem now_ms target removed s (v.at r s e) more in
          rw (e, purge_recipient)
            (insert_induction (λ r' s'. Timely 0 s'.queue) r _ state
              (rw done.front (Timely-purge_front 0 (target - removed) now_ms s.queue (t r s e))) t)
    ]

    entry_live :
        (s : RecipientState)
        → lookup r state ≡ some s
        → (purge_entry now_ms target (s, removed)).1 < target
        → AllLive now_ms (purge_entry now_ms target (s, removed)).0.queue
    entry_live s e l =
        let done = purge_entry_lem now_ms target removed s (v.at r s e) more in
        rw done.front (
          purge_front-AllLive 0 (target - removed) now_ms s.queue (t r s e)
            (omega (arith, done.counted, ap length done.front)))

    purge_recipient-Settled :
        (purge_recipient now_ms target r state removed).1 < target
        → Settled now_ms r (purge_recipient now_ms target r state removed).0
    unfolding purge_recipient
    purge_recipient-Settled l = elim (Option-cases (lookup r state)) [
      | inl e ↦ rw (e, purge_recipient) (λ s f. cc (e, f))
      | inr (s, e) ↦
          let s1 = (purge_entry now_ms target (s, removed)).0 in
          let l1 : (purge_entry now_ms target (s, removed)).1 < target =
            rw (e, purge_recipient) at l in
          rw (e, purge_recipient)
            (λ s' f.
              let same : s1 ≡ s' = cc (lookup-insert_self r s1 state, f) in
              subst (λ (x : RecipientState). AllLive now_ms x.queue) same (entry_live s e l1))
    ]

    purge_recipient-Settled_other :
        (r' : Text)
        → (purge_recipient now_ms target r state removed).1 < target
        → Settled now_ms r' state
        → Settled now_ms r' (purge_recipient now_ms target r state removed).0
    unfolding purge_recipient
    purge_recipient-Settled_other r' l old = elim (Option-cases (lookup r state)) [
      | inl e ↦ rw (e, purge_recipient) old
      | inr (s, e) ↦
          let l1 : (purge_entry now_ms target (s, removed)).1 < target =
            rw (e, purge_recipient) at l in
          rw (e, purge_recipient)
            (λ s' f.
              insert_induction (λ j w. j ≡ r' → AllLive now_ms w.queue) r _ state
                (λ _. entry_live s e l1) (λ j w g same. old w (rw same at g)) r' s' f refl)
    ]

  -- At the target the loop stops.
  purge_recipients_full :
      (rs : List Text) (state : MemStore) (removed : ℕ)
      → target ≤ removed
      → purge_recipients now_ms target rs (state, removed) ≡ (state, removed)
  unfolding purge_recipients
  purge_recipients_full [] state removed h = refl
  purge_recipients_full (r ∷ rs) state removed h =
      let full : leb target removed ≡ true = ground arith in rw full

  purge_recipients_open :
      (r : Text) (rs : List Text) (state : MemStore) (removed : ℕ)
      → removed < target
      → purge_recipients now_ms target (r ∷ rs) (state, removed)
        ≡ purge_recipients now_ms target rs (purge_recipient now_ms target r state removed)
  unfolding purge_recipients
  purge_recipients_open r rs state removed h =
      let more : leb target removed ≡ false = ground arith in rw more

  -- A count below the target at the end was below it before.
  below_target :
      (rs : List Text) (state : MemStore) (removed : ℕ)
      → (purge_recipients now_ms target rs (state, removed)).1 < target
      → removed < target
  below_target rs state removed l = elim (dec_lt removed target) [
    | yes h ↦ h
    | no h ↦
        let stopped =
          ap (λ (p : MemStore × ℕ). p.1) (purge_recipients_full rs state removed (omega arith)) in
        omega (arith, stopped)
  ]

  -- The recipient is settled, or still to be visited.
  abbrev Awaits : Text → List Text → MemStore → Type 0
  Awaits r rs state = Settled now_ms r state ⊎ (elem r rs ≡ true)

  Awaits-next :
      (r' : Text) (rs : List Text) (state : MemStore) (removed : ℕ) (r : Text)
      → IsValid state
      → AreTimely state
      → removed < target
      → (purge_recipient now_ms target r' state removed).1 < target
      → Awaits r (r' ∷ rs) state
      → Awaits r rs (purge_recipient now_ms target r' state removed).0
  Awaits-next r' rs state removed r v t more l (inl settled) =
      inl (purge_recipient-Settled_other r' state removed v t more r l settled)
  Awaits-next r' rs state removed r v t more l (inr listed) = elim (Bool-cases (r' == r)) [
    | inl same ↦ inl (
        subst (λ x. Settled now_ms x (purge_recipient now_ms target r' state removed).0)
          (==_eq r' r same) (purge_recipient-Settled r' state removed v t more l))
    | inr other ↦ inr (rw other at listed)
  ]

  purge_recipients-Settled :
      (rs : List Text) (state : MemStore) (removed : ℕ) (r : Text)
      → IsValid state
      → AreTimely state
      → (purge_recipients now_ms target rs (state, removed)).1 < target
      → Awaits r rs state
      → Settled now_ms r (purge_recipients now_ms target rs (state, removed)).0
  purge_recipients-Settled [] state removed r v t l (inl h) = unfold purge_recipients in h
  purge_recipients-Settled [] state removed r v t l (inr h) = cc
  purge_recipients-Settled (r' ∷ rs) state removed r v t l a =
      let more : removed < target = below_target (r' ∷ rs) state removed l in
      let step = purge_recipients_open r' rs state removed more in
      let state1 = (purge_recipient now_ms target r' state removed).0 in
      let removed1 = (purge_recipient now_ms target r' state removed).1 in
      let l1 : (purge_recipients now_ms target rs (state1, removed1)).1 < target = rw step at l in
      rw step (
        purge_recipients-Settled rs state1 removed1 r
          (purge_recipient-IsValid now_ms target r' state removed more v).0
          (purge_recipient-AreTimely r' state removed v t more) l1
          (Awaits-next r' rs state removed r v t more (below_target rs state1 removed1 l1) a))

elem-keys :
    (r : Text) (s : RecipientState) (state : MemStore)
    → lookup r state ≡ some s
    → elem r (map (λ e. e.0) state) ≡ true
unfolding lookup
elem-keys r s [] e = cc
elem-keys r s ((r', s') ∷ state) e = ground (arith, elem-keys r s state)

Awaits-all :
    (now_ms : ℕ) (r : Text) (state : MemStore)
    → Awaits now_ms 0 r (sort (map (λ e. e.0) state)) state
Awaits-all now_ms r state = elim (Option-cases (lookup r state)) [
  | inl e ↦ inl (λ s f. cc (e, f))
  | inr (s, e) ↦ inr (elem-sort r (map (λ e. e.0) state) ∙ elem-keys r s state e)
]

-- A purge of a valid store succeeds. The store has no more messages after it than before, and fewer by
-- at most `max` and at most 1024; the answer is their number.
pub purge_expired-le :
    (now_ms max : ℕ) (state : MemStore)
    → IsValid state
    → (removed : ℕ) × ((purge_expired now_ms max state).0 ≡ ok removed)
      × (removed ≤ min max 1024)
      × (total (purge_expired now_ms max state).1 ≤ total state)
      × (total state - total (purge_expired now_ms max state).1 ≡ removed)
unfolding purge_expired
purge_expired-le now_ms max state v =
    let target = min max gc_batch_limit in
    let rs = sort (map (λ e. e.0) state) in
    let removed = (purge_recipients now_ms target rs (state, 0)).1 in
    let counted = purge_recipients-total now_ms target rs state 0 v in
    (
      removed,
      refl,
      (purge_recipients-IsValid now_ms target rs state 0 (omega arith) v).1,
      omega (arith, counted),
      omega (arith, counted),
    )

-- If the deadlines of each queue of a valid store do not fall and a purge removes fewer messages
-- than it may, then no message of the store after it has expired.
pub purge_expired-AllLive :
    (now_ms max removed : ℕ) (state : MemStore)
    → IsValid state
    → AreTimely state
    → (purge_expired now_ms max state).0 ≡ ok removed
    → removed < min max gc_batch_limit
    → (r : Text) (s : RecipientState) → lookup r (purge_expired now_ms max state).1 ≡ some s
    → AllLive now_ms s.queue
unfolding purge_expired
purge_expired-AllLive now_ms max removed state v t e l r =
    let rs = sort (map (λ e. e.0) state) in
    let same : (purge_recipients now_ms (min max gc_batch_limit) rs (state, 0)).1 ≡ removed = cc in
    purge_recipients-Settled now_ms (min max gc_batch_limit) rs state 0 r v t (rw same l)
      (Awaits-all now_ms r state)
