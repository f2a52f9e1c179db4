-- ===== src/StoreMem/Purge/Counts.antt =====
-- What `MemStore::purge_expired` of src/store_mem.rs counts.
use enigma_relay.Base.{
  ℕ, ◌+◌, ◌<◌, ◌≡◌, refl, some, List, [], ◌∷◌, arith, leb, length, min, map, Option-cases,
  Bool-cases, inl, inr,
}
use enigma_relay.Base.Text.{Text}
use enigma_relay.Base.Sort.{sort}
use enigma_relay.Base.Eq.{list_eq}
use enigma_relay.Base.Map.{lookup, insert}
use enigma_relay.Error.{ok}
use enigma_relay.StoreMem.State.{RecipientState, MemStore}
use enigma_relay.StoreMem.Purge.{purge_recipient, purge_recipients, purge_expired, gc_batch_limit}
use enigma_relay.StoreMem.Purge.Refines.{purge_entry_lem}
use enigma_relay.StoreMem.Invariant.{IsValid, purge_recipient-IsValid}

-- The number of messages in the store.
unfoldable pub total : MemStore → ℕ
total [] = 0
total ((r, s) ∷ state) = length s.queue + total state

total-insert :
    (r : Text) (s s' : RecipientState) (state : MemStore)
    → lookup r state ≡ some s
    → total (insert r s' state) + length s.queue ≡ total state + length s'.queue
unfolding total lookup insert
total-insert r s s' [] e = cc
total-insert r s s' ((r', w) ∷ state) e = ground (arith, total-insert r s s' state)

module _ (now_ms target : ℕ) where
  purge_recipient-total :
      (r : Text) (state : MemStore) (removed : ℕ)
      → removed < target
      → IsValid state
      → (purge_recipient now_ms target r state removed).1
          + total (purge_recipient now_ms target r state removed).0
        ≡ removed + total state
  unfolding purge_recipient
  purge_recipient-total r state removed h v = elim (Option-cases (lookup r state)) [
    | inl e ↦ rw (e, purge_recipient) refl
    | inr (s, e) ↦
        let done = purge_entry_lem now_ms target removed s (v.at r s e) h in
        rw (e, purge_recipient) (omega (arith, done.counted, total-insert r s _ state e))
  ]

  pub purge_recipients-total :
      (rs : List Text) (state : MemStore) (removed : ℕ)
      → IsValid state
      → (purge_recipients now_ms target rs (state, removed)).1
          + total (purge_recipients now_ms target rs (state, removed)).0
        ≡ removed + total state
  unfolding purge_recipients
  purge_recipients-total [] state removed v = refl
  purge_recipients-total (r ∷ rs) state removed v = elim (Bool-cases (leb target removed)) [
    | inl full ↦ rw full refl
    | inr more ↦
        let h : removed < target = ground arith in
        let p = purge_recipient now_ms target r state removed in
        let ih =
          purge_recipients-total rs p.0 p.1
            (purge_recipient-IsValid now_ms target r state removed h v).0 in
        rw more (omega (arith, ih, purge_recipient-total r state removed h v))
  ]

pub purge_expired-total :
    (now_ms max removed : ℕ) (state : MemStore)
    → IsValid state
    → (purge_expired now_ms max state).0 ≡ ok removed
    → removed + total (purge_expired now_ms max state).1 ≡ total state
unfolding purge_expired
purge_expired-total now_ms max removed state v e =
    let rs = sort (map (λ e. e.0) state) in
    let same : (purge_recipients now_ms (min max gc_batch_limit) rs (state, 0)).1 ≡ removed = cc in
    omega (arith, same, purge_recipients-total now_ms (min max gc_batch_limit) rs state 0 v)
