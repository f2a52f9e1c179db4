-- ===== src/StoreMem/Invariant.antt =====
-- The invariant of the whole store of src/store_mem.rs, and that each method keeps it.
use enigma_relay.Base.{
  ℕ, ◌≤◌, ◌<◌, ◌≡◌, refl, Option, some, List, [], ◌∷◌, arith, leb, length, u64_max, min, map,
  Option-cases, Bool-cases, inl, inr,
}
use enigma_relay.Base.Text.{Text}
use enigma_relay.Base.Sort.{sort}
use enigma_relay.Base.Eq.{list_eq}
use enigma_relay.Base.Map.{lookup, insert, insert_induction}
use enigma_relay.Error.{Result-cases}
use enigma_relay.Config.{RelayLimits}
use enigma_relay.Store.{Base64, InboundMessage, AckItem}
use enigma_relay.StoreMem.State.{RecipientState, MemStore, new}
use enigma_relay.StoreMem.Push.{push, entry_or_default}
use enigma_relay.StoreMem.Push.Refines.{push_entry-IsWf}
use enigma_relay.StoreMem.Pull.{pull, pull_entry, start_seq}
use enigma_relay.StoreMem.Pull.Refines.{pull_from-IsWf}
use enigma_relay.StoreMem.Ack.{ack}
use enigma_relay.StoreMem.Ack.Refines.{Arranges, ack_entry-IsWf}
use enigma_relay.StoreMem.Purge.{purge_recipient, purge_recipients, purge_expired, gc_batch_limit}
use enigma_relay.StoreMem.Purge.Refines.{purge_entry_lem}
use enigma_relay.StoreMem.Wf.{IsWf, default_state-IsWf}

-- Every recipient's state is well formed.
pub record IsValid (state : MemStore) : Type 0 where
  pub at : (r : Text) (s : RecipientState) → lookup r state ≡ some s → IsWf r s

pub new-IsValid : IsValid new
unfolding lookup
new-IsValid = record { at = λ r s e. cc }

pub insert-IsValid :
    (r : Text) (s : RecipientState) (state : MemStore)
    → IsWf r s
    → IsValid state
    → IsValid (insert r s state)
insert-IsValid r s state w v = record { at = insert_induction IsWf r s state w v.at }

pub entry_or_default-IsWf :
    (r : Text) (state : MemStore) → IsValid state → IsWf r (entry_or_default r state)
entry_or_default-IsWf r state v = elim (Option-cases (lookup r state)) [
  | inl e ↦ rw e (default_state-IsWf r)
  | inr (s, e) ↦ rw e (v.at r s e)
]

module _ (standard : Base64) where
  pull_entry-IsWf :
      (r : Text) (cursor : Option Text) (limit now_ms : ℕ) (s : RecipientState)
      → IsWf r s
      → IsWf r (pull_entry standard r cursor limit now_ms s).1
  unfolding pull_entry
  pull_entry-IsWf r cursor limit now_ms s w = elim (Result-cases (start_seq standard r cursor)) [
    | inl (start, e) ↦ rw (e, pull_entry) (pull_from-IsWf standard start limit now_ms s w)
    | inr (error, e) ↦ rw (e, pull_entry) w
  ]

  pub pull-IsValid :
      (r : Text) (cursor : Option Text) (limit now_ms : ℕ) (state : MemStore)
      → IsValid state
      → IsValid (pull standard r cursor limit now_ms state).1
  unfolding pull
  pull-IsValid r cursor limit now_ms state v = elim (Option-cases (lookup r state)) [
    | inl e ↦ rw (e, pull) v
    | inr (s, e) ↦
        rw (e, pull)
          (insert-IsValid r _ state (pull_entry-IsWf r cursor limit now_ms s (v.at r s e)) v)
  ]

pub push-IsValid :
    (msg : InboundMessage) (limits : RelayLimits) (state : MemStore)
    → (entry_or_default msg.recipient state).seq < u64_max
    → limits.max_queue_bytes_per_user < u64_max
    → IsValid state
    → IsValid (push msg limits state).1
unfolding push
push-IsValid msg limits state room bytes v =
    let s = entry_or_default msg.recipient state in
    insert-IsValid msg.recipient _ state
      (push_entry-IsWf msg s limits (entry_or_default-IsWf msg.recipient state v) refl room bytes) v

pub ack-IsValid :
    (order : List AckItem → List AckItem) (r : Text) (items : List AckItem) (state : MemStore)
    → Arranges order
    → length items ≤ u64_max
    → IsValid state
    → IsValid (ack order r items state).1
unfolding ack
ack-IsValid order r items state a l v = elim (Option-cases (lookup r state)) [
  | inl e ↦ rw (e, ack) v
  | inr (s, e) ↦
      rw (e, ack) (insert-IsValid r _ state (ack_entry-IsWf order a items s (v.at r s e) l) v)
]

module _ (now_ms target : ℕ) where
  -- The loop over the recipients keeps an invariant if the purge of each entry keeps it.
  pub purge_recipient-IsValid :
      (r : Text) (state : MemStore) (removed : ℕ)
      → removed < target
      → IsValid state
      → IsValid (purge_recipient now_ms target r state removed).0
        × ((purge_recipient now_ms target r state removed).1 ≤ target)
  unfolding purge_recipient
  purge_recipient-IsValid r state removed h v = elim (Option-cases (lookup r state)) [
    | inl e ↦ rw (e, purge_recipient) (v, omega arith)
    | inr (s, e) ↦
        let done = purge_entry_lem now_ms target removed s (v.at r s e) h in
        rw (e, purge_recipient) (insert-IsValid r _ state done.wf v, omega (arith, done.bounded))
  ]

  pub purge_recipients-IsValid :
      (rs : List Text) (state : MemStore) (removed : ℕ)
      → removed ≤ target
      → IsValid state
      → IsValid (purge_recipients now_ms target rs (state, removed)).0
        × ((purge_recipients now_ms target rs (state, removed)).1 ≤ target)
  unfolding purge_recipients
  purge_recipients-IsValid [] state removed h v = (v, h)
  purge_recipients-IsValid (r ∷ rs) state removed h v = elim (Bool-cases (leb target removed)) [
    | inl full ↦ rw full (v, h)
    | inr more ↦
        let (v', h') = purge_recipient-IsValid r state removed (ground arith) v in
        rw more (
          purge_recipients-IsValid rs (purge_recipient now_ms target r state removed).0
            (purge_recipient now_ms target r state removed).1 h' v')
  ]

pub purge_expired-IsValid :
    (now_ms max : ℕ) (state : MemStore) → IsValid state → IsValid (purge_expired now_ms max state).1
unfolding purge_expired
purge_expired-IsValid now_ms max state v =
    (purge_recipients-IsValid now_ms (min max gc_batch_limit) (sort (map (λ e. e.0) state)) state 0
      (omega arith) v).0
