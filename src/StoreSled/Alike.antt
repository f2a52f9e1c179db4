-- ===== src/StoreSled/Alike.antt =====
-- The stores of src/store_sled.rs and src/store_mem.rs side by side: both are sent the same pushes and
-- acknowledgements, in any number and order, and no call of sled fails.
pub mod Answers
use enigma_relay.Base.{
  String, ℕ, ◌^◌, ◌≤◌, ◌<◌, ◌≡◌, refl, sym, subst, none, some, List, [], ◌∷◌, arith, inl, inr,
  u64_max, length, All, Bool-cases, Option-cases, if◌then◌else◌,
}
use enigma_relay.Base.Text.{Text}
use enigma_relay.Base.Eq.{◌==◌, nat_eq, pair_eq, list_eq}
use enigma_relay.Base.Map.{lookup, insert, lookup-insert}
use enigma_relay.Error.{EnigmaRelayError, Result, ok, err}
use enigma_relay.Config.{RelayLimits}
use enigma_relay.Store.{InboundMessage, QueueMessage, AckItem, AckOutcome, default_outcome}
use enigma_relay.StoreMem.State.{RecipientState, MemStore, new, default_state}
use enigma_relay.StoreMem.Push
use enigma_relay.StoreMem.Push.{entry_or_default}
use enigma_relay.StoreMem.Ack
use enigma_relay.StoreMem.Ack.{ack_item, ack_items, ack_entry, to_set}
use enigma_relay.StoreMem.Ack.Refines.{Arranges}
use enigma_relay.StoreMem.Invariant.{
  IsValid, new-IsValid, push-IsValid, ack-IsValid, entry_or_default-IsWf,
}
use enigma_relay.StoreSled.Keys.{Hyphenated}
use enigma_relay.StoreSled.Keys.Order.{IsPlain}
use enigma_relay.StoreSled.Db.{Json, Sled, with_prefix}
use enigma_relay.StoreSled.State.{QuotaValue, SledStore}
use enigma_relay.StoreSled.Push.{push}
use enigma_relay.StoreSled.Ack.{ack}
use enigma_relay.StoreSled.Logic.{View, Fails, view, Ends}
use enigma_relay.StoreSled.Represents.{Represents, Updated, Agrees, Refuses, stored}
use enigma_relay.StoreSled.Push.Refines.{push-Refines}
use enigma_relay.StoreSled.Ack.Loop.{Fits}
use enigma_relay.StoreSled.Ack.Refines.{ack-Refines}

-- The trees of a new database.
abbrev pub empty_view : View
empty_view = record { messages = []; index = []; quota = []; seq = [] }

entry-insert :
    (r r' : Text) (s : RecipientState) (m : MemStore)
    → entry_or_default r' (insert r s m) ≡ (if r == r' then s else entry_or_default r' m)
entry-insert r r' s m = ground (arith, lookup-insert r r' s m)

same_entry :
    (r r' : Text) (m : MemStore)
    → lookup r m ≡ none
    → entry_or_default r' (insert r default_state m) ≡ entry_or_default r' m
same_entry r r' m missing =
    ground (arith, lookup-insert r r' default_state m, list_eq.same_iff r r')

-- An acknowledgement takes nothing out of a state without messages.
ack_items-default :
    (xs : List AckItem) (o : AckOutcome) → (ack_items xs (default_state, o)).0 ≡ default_state
unfolding ack_items ack_item lookup
ack_items-default [] o = refl
ack_items-default (x ∷ xs) o = ack_items-default xs _

pub ack_entry-default :
    (order : List AckItem → List AckItem) (xs : List AckItem)
    → (ack_entry order xs default_state).1 ≡ default_state
unfolding ack_entry
ack_entry-default order xs = ack_items-default (order (to_set xs)) default_outcome

module _ (sled : Sled) (items : Json QueueMessage) (quotas : Json QuotaValue)
    (hyphenated : Hyphenated) where
  -- Without failing calls an operation ends with the answer and the state of the store in memory.
  pub reliable_end :
      {A : Type 0} (recipient : Text) (v : View) (mem : Result A × RecipientState)
      (end : Result A × SledStore sled)
      → ((text : String) → ¬ Fails sled text)
      → Ends sled
          (Agrees sled items quotas hyphenated recipient v mem)
          (Refuses sled items quotas hyphenated recipient v mem)
          end
      → (end.0 ≡ mem.0) × Updated items quotas hyphenated recipient v (view sled end.1) mem.1
  reliable_end recipient v mem (ok a, d) never h = h
  reliable_end recipient v mem (err e, d) never (inl ((text, same, fails), kept)) =
      absurd (never text fails)
  reliable_end recipient v mem (err e, d) never (inr (inl (text, same, fails), up)) =
      absurd (never text fails)
  reliable_end recipient v mem (err e, d) never (inr (inr same, up)) = (same, up)

  -- The trees hold the state of each recipient without a colon.
  abbrev pub Backs : SledStore sled → MemStore → Type 0
  Backs d m =
      (r : Text)
      → IsPlain r
      → Represents items quotas hyphenated r (view sled d) (entry_or_default r m)

  start-Backs : (d : SledStore sled) → view sled d ≡ empty_view → Backs d new
  unfolding lookup with_prefix stored
  start-Backs d e r plain =
      rw e
        (record { queued = refl; indexed = λ id chunk b l. refl; weighed = refl; numbered = refl })

  Updated-Backs :
      (recipient : Text) (s : RecipientState) (d d' : SledStore sled) (m : MemStore)
      → Updated items quotas hyphenated recipient (view sled d) (view sled d') s
      → Backs d m
      → Backs d' (insert recipient s m)
  Updated-Backs recipient s d d' m up h r plain = elim (Bool-cases (recipient == r)) [
    | inl same ↦
        let here = (list_eq.same_iff recipient r).0 same in
        rw (entry-insert, same)
          (subst (λ x. Represents items quotas hyphenated x (view sled d') s) here up.own)
    | inr other ↦
        rw (entry-insert, other)
          (up.others r (entry_or_default r m) plain
            (λ e. ground (arith, list_eq.same_iff recipient r, e)) (h r plain))
  ]

  module _ (order : List AckItem → List AckItem) (arranges : Arranges order) where
    -- A call that both stores are sent. A push assumes that the recipient has not used up the u64
    -- sequence numbers, and that the limit on bytes is not the last u64 value.
    pub data Step (d : SledStore sled) (m : MemStore) : SledStore sled → MemStore → Type 0 where
      push_step :
          (msg : InboundMessage) (limits : RelayLimits)
          → IsPlain msg.recipient
          → msg.message_id < 2 ^ 128
          → msg.meta.chunk_index < 2 ^ 32
          → (entry_or_default msg.recipient m).seq < u64_max
          → limits.max_queue_bytes_per_user < u64_max
          → Step d m (push sled items quotas hyphenated msg limits d).1 (Push.push msg limits m).1
      ack_step :
          (r : Text) (xs : List AckItem)
          → IsPlain r
          → All Fits xs
          → length xs ≤ u64_max
          → Step d m (ack sled items quotas hyphenated r order xs d).1 (Ack.ack order r xs m).1

    -- From new stores.
    pub data Reach : SledStore sled → MemStore → Type 0 where
      start : {d : SledStore sled} → view sled d ≡ empty_view → Reach d new
      next : {d d' : SledStore sled} {m m' : MemStore} → Reach d m → Step d m d' m' → Reach d' m'

    -- An acknowledgement to an unknown recipient creates no state.
    unknown-Backs :
        (r : Text) (d : SledStore sled) (m : MemStore)
        → lookup r m ≡ none
        → Backs d (insert r default_state m)
        → Backs d m
    unknown-Backs r d m missing h r' plain =
        subst (Represents items quotas hyphenated r' (view sled d)) (same_entry r r' m missing)
          (h r' plain)

    acked_Backs :
        (r : Text) (xs : List AckItem) (d d' : SledStore sled) (m : MemStore)
        → Backs d m
        → Updated items quotas hyphenated r
            (view sled d)
            (view sled d')
            (ack_entry order xs (entry_or_default r m)).1
        → Backs d' (Ack.ack order r xs m).1
    unfolding Ack.ack
    acked_Backs r xs d d' m h up = elim (Option-cases (lookup r m)) [
      | inl missing ↦
          let up' =
            subst (Updated items quotas hyphenated r (view sled d) (view sled d'))
              (ack_entry-default order xs) (rw missing at up) in
          rw (missing, Ack.ack)
            (unknown-Backs r d' m missing (Updated-Backs r default_state d d' m up' h))
      | inr (entry, known) ↦ rw (known, Ack.ack) (Updated-Backs r _ d d' m (rw known at up) h)
    ]

    module _ (never : (text : String) → ¬ Fails sled text) where
      pub push_end :
          (msg : InboundMessage) (limits : RelayLimits)
          → IsPlain msg.recipient
          → msg.message_id < 2 ^ 128
          → msg.meta.chunk_index < 2 ^ 32
          → (d : SledStore sled) (m : MemStore) → IsValid m
          → Backs d m
          → ((push sled items quotas hyphenated msg limits d).0 ≡ (Push.push msg limits m).0)
            × Backs (push sled items quotas hyphenated msg limits d).1 (Push.push msg limits m).1
      unfolding Push.push
      push_end msg limits plain id chunk d m valid h =
          let s = entry_or_default msg.recipient m in
          let (same, up) =
            reliable_end msg.recipient (view sled d) (Push.push_entry msg limits s)
              (push sled items quotas hyphenated msg limits d) never
              (push-Refines sled items quotas hyphenated msg limits plain id chunk d s
                (entry_or_default-IsWf msg.recipient m valid) (h msg.recipient plain)) in
          (same, Updated-Backs msg.recipient _ d _ m up h)

      -- What both answer to an acknowledgement, and the states after it.
      pub ack_end :
          (r : Text) (xs : List AckItem)
          → IsPlain r
          → All Fits xs
          → (d : SledStore sled) (m : MemStore) → IsValid m
          → Backs d m
          → ((ack sled items quotas hyphenated r order xs d).0
              ≡ ok (ack_entry order xs (entry_or_default r m)).0)
            × Backs (ack sled items quotas hyphenated r order xs d).1 (Ack.ack order r xs m).1
      unfolding Ack.ack
      ack_end r xs plain fits d m valid h =
          let s = entry_or_default r m in
          let (o, s') = ack_entry order xs s in
          let (same, up) =
            reliable_end r (view sled d) (ok o, s') (ack sled items quotas hyphenated r order xs d)
              never
              (ack-Refines sled items quotas hyphenated r plain d s
                (entry_or_default-IsWf r m valid) (h r plain) order arranges xs fits) in
          (same, acked_Backs r xs d _ m h up)

      Step-Backs :
          {d d' : SledStore sled} {m m' : MemStore}
          → Step d m d' m'
          → IsValid m × Backs d m
          → IsValid m' × Backs d' m'
      Step-Backs {d = d} {m = m} (push_step msg limits plain id chunk room bytes) (valid, h) = (
        push-IsValid msg limits m room bytes valid,
        (push_end msg limits plain id chunk d m valid h).1,
      )
      Step-Backs {d = d} {m = m} (ack_step r xs plain fits l) (valid, h) =
          (ack-IsValid order r xs m arranges l valid, (ack_end r xs plain fits d m valid h).1)

      -- Whatever pushes and acknowledgements new stores on disk and in memory are both sent, the trees
      -- hold the state that the store in memory has for each recipient without a colon, in which queue,
      -- index and counters agree. No call of sled fails; a push is to a recipient without a colon that
      -- has not used up the u64 sequence numbers, with a 128-bit id, a 32-bit chunk and a limit on bytes
      -- below the last u64 value; an acknowledgement is to one without a colon, and has 128-bit ids,
      -- 32-bit chunks and no more items than a u64 counts.
      pub Reach-Backs : {d : SledStore sled} {m : MemStore} → Reach d m → IsValid m × Backs d m
      Reach-Backs (start e) = (new-IsValid, start-Backs _ e)
      Reach-Backs (next p st) = Step-Backs st (Reach-Backs p)
