-- ===== src/StoreMem/Run/Quota.antt =====
-- The limits on the queue of a recipient, through all calls of src/store_mem.rs.
use enigma_relay.Base.{
  ℕ, ◌+◌, ◌≤◌, ◌≡◌, Option, some, List, [], ◌∷◌, arith, leb, min, map, length, if◌then◌else◌,
  Option-cases, Bool-cases, inl, inr,
}
use enigma_relay.Base.Text.{Text}
use enigma_relay.Base.Sort.{sort}
use enigma_relay.Base.Eq.{list_eq, nat_eq, pair_eq}
use enigma_relay.Base.Map.{lookup, contains_key, insert, insert_induction}
use enigma_relay.Error.{Result-cases}
use enigma_relay.Config.{RelayLimits}
use enigma_relay.Store.{Base64, InboundMessage, AckItem, AckOutcome, default_outcome}
use enigma_relay.StoreMem.State.{RecipientState, MemStore, new, drop_seq, drop_all}
use enigma_relay.StoreMem.Push.{push, push_entry, entry_or_default}
use enigma_relay.StoreMem.Pull.{pull, pull_entry, pull_from, start_seq}
use enigma_relay.StoreMem.Ack.{ack, ack_entry, ack_item, ack_items, to_set}
use enigma_relay.StoreMem.Purge.{
  drop_counted, purge_entry, purge_recipient, purge_recipients, purge_expired, gc_batch_limit,
}
use enigma_relay.StoreMem.Wf.{total_bytes}
use enigma_relay.StoreMem.Run.{
  Reach, Reach-IsValid, Step, push_step, pull_step, ack_step, purge_step,
}

-- The counters do not grow.
record Shrinks (s s' : RecipientState) : Type 0 where
  count : s'.quota_count ≤ s.quota_count
  bytes : s'.quota_bytes ≤ s.quota_bytes

Shrinks-refl : (s : RecipientState) → Shrinks s s
Shrinks-refl s = omega arith

Shrinks-trans : (s t u : RecipientState) → Shrinks s t → Shrinks t u → Shrinks s u
Shrinks-trans s t u a b = omega arith

drop_seq-Shrinks : (seq : ℕ) (s : RecipientState) → Shrinks s (drop_seq seq s)
unfolding drop_seq
drop_seq-Shrinks seq s = ground arith

drop_all-Shrinks : (seqs : List ℕ) (s : RecipientState) → Shrinks s (drop_all seqs s)
unfolding drop_all
drop_all-Shrinks [] s = Shrinks-refl s
drop_all-Shrinks (seq ∷ seqs) s =
    Shrinks-trans s (drop_seq seq s) _ (drop_seq-Shrinks seq s)
      (drop_all-Shrinks seqs (drop_seq seq s))

ack_item-Shrinks :
    (item : AckItem) (s : RecipientState) (o : AckOutcome) → Shrinks s (ack_item item (s, o)).0
unfolding ack_item
ack_item-Shrinks item s o = ground arith

ack_items-Shrinks :
    (items : List AckItem) (s : RecipientState) (o : AckOutcome)
    → Shrinks s (ack_items items (s, o)).0
unfolding ack_items
ack_items-Shrinks [] s o = Shrinks-refl s
ack_items-Shrinks (item ∷ items) s o =
    let (s1, o1) = ack_item item (s, o) in
    Shrinks-trans s s1 _ (ack_item-Shrinks item s o) (ack_items-Shrinks items s1 o1)

drop_counted-Shrinks :
    (target : ℕ) (seqs : List ℕ) (s : RecipientState) (removed : ℕ)
    → Shrinks s (drop_counted target seqs (s, removed)).0
unfolding drop_counted
drop_counted-Shrinks target [] s removed = Shrinks-refl s
drop_counted-Shrinks target (seq ∷ seqs) s removed =
    let removed' = if contains_key seq s.queue then removed + 1 else removed in
    elim (Bool-cases (leb target removed')) [
      | inl full ↦ rw full (drop_seq-Shrinks seq s)
      | inr more ↦ rw more (
          Shrinks-trans s (drop_seq seq s) _ (drop_seq-Shrinks seq s)
            (drop_counted-Shrinks target seqs (drop_seq seq s) removed'))
    ]

pull_entry-Shrinks :
    (standard : Base64) (r : Text) (cursor : Option Text) (limit now_ms : ℕ) (s : RecipientState)
    → Shrinks s (pull_entry standard r cursor limit now_ms s).1
unfolding pull_entry pull_from
pull_entry-Shrinks standard r cursor limit now_ms s =
    elim (Result-cases (start_seq standard r cursor)) [
      | inl (start, e) ↦ rw (e, pull_entry) (drop_all-Shrinks _ s)
      | inr (error, e) ↦ rw (e, pull_entry) (Shrinks-refl s)
    ]

module _ (limits : RelayLimits) where
  -- The counters are within the limits.
  pub record IsWithin (s : RecipientState) : Type 0 where
    pub count : s.quota_count ≤ limits.max_messages_per_user
    pub bytes : s.quota_bytes ≤ limits.max_queue_bytes_per_user

  abbrev AllWithin : MemStore → Type 0
  AllWithin state = (r : Text) (s : RecipientState) → lookup r state ≡ some s → IsWithin s

  IsWithin-Shrinks : (s s' : RecipientState) → Shrinks s s' → IsWithin s → IsWithin s'
  IsWithin-Shrinks s s' h w = omega arith

  push_entry-IsWithin :
      (msg : InboundMessage) (s : RecipientState)
      → IsWithin s
      → IsWithin (push_entry msg limits s).1
  unfolding push_entry
  push_entry-IsWithin msg s w = ground arith

  entry-IsWithin :
      (r : Text) (state : MemStore) → AllWithin state → IsWithin (entry_or_default r state)
  entry-IsWithin r state v = elim (Option-cases (lookup r state)) [
    | inl e ↦ rw e (omega arith)
    | inr (s, e) ↦ rw e (v r s e)
  ]

  module _ (state : MemStore) (v : AllWithin state) where
    put-AllWithin : (r : Text) (s : RecipientState) → IsWithin s → AllWithin (insert r s state)
    put-AllWithin r s w = insert_induction (λ r' s'. IsWithin s') r s state w v

    push-AllWithin : (msg : InboundMessage) → AllWithin (push msg limits state).1
    unfolding push
    push-AllWithin msg =
        put-AllWithin msg.recipient _
          (push_entry-IsWithin msg _ (entry-IsWithin msg.recipient state v))

    pull-AllWithin :
        (standard : Base64) (r : Text) (cursor : Option Text) (limit now_ms : ℕ)
        → AllWithin (pull standard r cursor limit now_ms state).1
    unfolding pull
    pull-AllWithin standard r cursor limit now_ms = elim (Option-cases (lookup r state)) [
      | inl e ↦ rw (e, pull) v
      | inr (s, e) ↦
          rw (e, pull)
            (put-AllWithin r _ (
              IsWithin-Shrinks s _ (pull_entry-Shrinks standard r cursor limit now_ms s) (v r s e)))
    ]

    ack-AllWithin :
        (order : List AckItem → List AckItem) (r : Text) (items : List AckItem)
        → AllWithin (ack order r items state).1
    unfolding ack ack_entry
    ack-AllWithin order r items = elim (Option-cases (lookup r state)) [
      | inl e ↦ rw (e, ack) v
      | inr (s, e) ↦
          rw (e, ack)
            (put-AllWithin r _ (
              IsWithin-Shrinks s _ (ack_items-Shrinks (order (to_set items)) s default_outcome)
                (v r s e)))
    ]

    purge_recipient-AllWithin :
        (now_ms target removed : ℕ) (r : Text)
        → AllWithin (purge_recipient now_ms target r state removed).0
    unfolding purge_recipient purge_entry
    purge_recipient-AllWithin now_ms target removed r = elim (Option-cases (lookup r state)) [
      | inl e ↦ rw (e, purge_recipient) v
      | inr (s, e) ↦
          rw (e, purge_recipient)
            (put-AllWithin r _
              (IsWithin-Shrinks s _ (drop_counted-Shrinks target _ s removed) (v r s e)))
    ]

  purge_recipients-AllWithin :
      (now_ms target : ℕ) (rs : List Text) (state : MemStore) (removed : ℕ)
      → AllWithin state
      → AllWithin (purge_recipients now_ms target rs (state, removed)).0
  unfolding purge_recipients
  purge_recipients-AllWithin now_ms target [] state removed v = v
  purge_recipients-AllWithin now_ms target (r ∷ rs) state removed v =
      elim (Bool-cases (leb target removed)) [
        | inl full ↦ rw full v
        | inr more ↦
            let (state1, removed1) = purge_recipient now_ms target r state removed in
            rw more (
              purge_recipients-AllWithin now_ms target rs state1 removed1
                (purge_recipient-AllWithin state v now_ms target removed r))
      ]

  module _ (standard : Base64) where
    -- The call is no push, or a push under the limits.
    abbrev pub Uses : {s t : MemStore} → Step standard s t → Type 0
    Uses (push_step msg limits' room bytes) = limits' ≡ limits
    Uses _ = Unit

    pub data Limited : MemStore → Type 0 where
      start : Limited new
      next : {s t : MemStore} → Limited s → (st : Step standard s t) → Uses st → Limited t

    Step-AllWithin : {s t : MemStore} (st : Step standard s t) → Uses st → AllWithin s → AllWithin t
    unfolding purge_expired
    Step-AllWithin {s = s} (push_step msg limits' room bytes) u v = rw u (push-AllWithin s v msg)
    Step-AllWithin {s = s} (pull_step r cursor limit now_ms) u v =
        pull-AllWithin s v standard r cursor limit now_ms
    Step-AllWithin {s = s} (ack_step order r items a l) u v = ack-AllWithin s v order r items
    Step-AllWithin {s = s} (purge_step now_ms max) u v =
        purge_recipients-AllWithin now_ms (min max gc_batch_limit) (sort (map (λ e. e.0) s)) s 0 v

    Limited-AllWithin : {state : MemStore} → Limited state → AllWithin state
    unfolding lookup
    Limited-AllWithin start = λ r s e. cc
    Limited-AllWithin (next p st u) = Step-AllWithin st u (Limited-AllWithin p)

    pub Limited-Reach : {state : MemStore} → Limited state → Reach standard state
    Limited-Reach start = Reach.start
    Limited-Reach (next p st u) = Reach.next (Limited-Reach p) st

    -- Whatever calls are made of a new store, if all pushes run under the same limits, then no
    -- recipient has more messages or more payload bytes queued than the limits allow. The calls
    -- are those of `Step`, which leave the ends of the u64 values out.
    pub Limited-le :
        {state : MemStore}
        → Limited state
        → (r : Text) (s : RecipientState) → lookup r state ≡ some s
        → (length s.queue ≤ limits.max_messages_per_user)
          × (total_bytes s.queue ≤ limits.max_queue_bytes_per_user)
    Limited-le p r s e =
        let w = (Reach-IsValid standard (Limited-Reach p)).at r s e in
        let b = Limited-AllWithin p r s e in
        (omega (arith, w.counted, b.count), omega (arith, w.weighed, b.bytes))
