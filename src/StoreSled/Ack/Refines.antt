-- ===== src/StoreSled/Ack/Refines.antt =====
-- `SledStore::ack` of src/store_sled.rs does what `MemStore::ack` does to the state of the recipient,
-- and to no other.
use enigma_relay.Base.{
  ◌≡◌, refl, sym, ap, ◌∙◌, subst, true, List, [], ◌∷◌, arith, Bool-cases, inl, inr, String, All,
}
use enigma_relay.Base.Text.{Text}
use enigma_relay.Base.Eq.{nat_eq, pair_eq, list_eq}
use enigma_relay.Base.Map.{lookup}
use enigma_relay.Error.{EnigmaRelayError, Result, ok, storage_error}
use enigma_relay.Store.{
  QueueMessage, AckItem, AckOutcome, default_outcome, ack_eq, ack_beq, ack_beq_iff,
}
use enigma_relay.StoreMem.State.{RecipientState}
use enigma_relay.StoreMem.Wf.{IsWf}
use enigma_relay.StoreMem.Ack.{ack_items, ack_entry, member, to_set}
use enigma_relay.StoreMem.Ack.Refines.{Arranges, member-to_set}
use enigma_relay.StoreSled.Keys.{Hyphenated, quota_key, seq_key}
use enigma_relay.StoreSled.Push.{decode_seq}
use enigma_relay.StoreSled.Keys.Order.{IsPlain}
use enigma_relay.StoreSled.Keys.Distinct.{quota_key_injective}
use enigma_relay.StoreSled.Db.{Json, Sled}
use enigma_relay.StoreSled.Entries.{lookup-insert_key_self, lookup-insert_key_other}
use enigma_relay.StoreSled.State.{QuotaValue, SledStore}
use enigma_relay.StoreSled.Trees.{Column}
use enigma_relay.StoreSled.Ack.{ack_tx, ack}
use enigma_relay.StoreSled.Logic.{
  View, Fails, IsStorage, view, Ends, Ends-weaken, Ends-then, decoded_then, write,
}
use enigma_relay.StoreSled.Logic.Calls.{insert_then, flush_then, transaction-Ends}
use enigma_relay.StoreSled.Represents.{
  quota_of, bytes_of, quota_at, read_quota_tx_then, Represents, Updated, Agrees, Refuses,
}
use enigma_relay.StoreSled.Ack.Loop.{Fits, Erases, Acks, ack_items_seq, ack_loop-Ends}

-- What holds of the items holds of them in the order of the set.
All-of_member :
    (P : AckItem → Type 0) (xs : List AckItem)
    → ((x : AckItem) → member x xs ≡ true → P x)
    → All P xs
All-of_member P [] h = tt
All-of_member P (x ∷ xs) h =
    (h x (ground (arith, ack_beq_iff x x)), All-of_member P xs (λ y inside. h y (ground arith)))

member_All :
    (P : AckItem → Type 0) (xs : List AckItem) → All P xs → (x : AckItem) → member x xs ≡ true → P x
member_All P [] h x inside = absurd (ground arith)
member_All P (y ∷ ys) h x inside = elim (Bool-cases (ack_beq y x)) [
  | inl same ↦ subst P ((ack_beq_iff y x).0 same) h.0
  | inr other ↦ member_All P ys h.1 x (ground arith)
]

All-to_set :
    (order : List AckItem → List AckItem)
    → Arranges order
    → (P : AckItem → Type 0) (items : List AckItem) → All P items
    → All P (order (to_set items))
All-to_set order arranges P items h = All-of_member P (order (to_set items)) (λ x inside.
    member_All P items h x
      (sym (member-to_set x items) ∙ sym (arranges.same_members x (to_set items)) ∙ inside))

module _ (sled : Sled) (items : Json QueueMessage) (quotas : Json QuotaValue)
    (hyphenated : Hyphenated) (recipient : Text) (plain : IsPlain recipient)
    (store : SledStore sled) (s : RecipientState) (w : IsWf recipient s)
    (rep : Represents items quotas hyphenated recipient (view sled store) s) where
  abbrev v : View
  v = view sled store

  -- With the quota written at the end, the trees hold the new state.
  Erases-Updated :
      (s' : RecipientState) (v1 v' : View)
      → s'.seq ≡ s.seq
      → Erases items hyphenated recipient v v1 s'
      → v' ≡ write Column.quota (quota_key recipient) (bytes_of quotas (quota_of s')) v1
      → Updated items quotas hyphenated recipient v v' s'
  Erases-Updated s' v1 v' same_seq h e = rw e (record {
    own = record {
      queued = h.own.queued;
      indexed = h.own.indexed;
      weighed = rw (lookup-insert_key_self, (quotas.round_trip (quota_of s')).2) refl;
      numbered =
          ap (λ m. decode_seq (lookup (seq_key recipient) m)) h.seq
          ∙ rep.numbered
          ∙ ap ok (sym same_seq);
    };
    others = λ r s'' plain' other rep'.
        let held =
          h.others r s'' plain' other (record { queued = rep'.queued; indexed = rep'.indexed }) in
        record {
          queued = held.queued;
          indexed = held.indexed;
          weighed =
              ap (quota_at quotas) (
                lookup-insert_key_other (quota_key recipient) (quota_key r)
                  (bytes_of quotas (quota_of s')) v1.quota
                  (λ same.
                    other (quota_key_injective recipient r plain.is_scalar plain'.is_scalar same)))
              ∙ ap (λ m. quota_at quotas (lookup (quota_key r) m)) h.quota
              ∙ rep'.weighed;
          numbered = ap (λ m. decode_seq (lookup (seq_key r) m)) h.seq ∙ rep'.numbered;
        };
  })

  module _ (xs : List AckItem) (fits : All Fits xs) where
    abbrev after : RecipientState × AckOutcome
    after = ack_items xs (s, default_outcome)

    abbrev Done : AckOutcome → View → Type 0
    Done a v' =
        (a ≡ record after.1 { remaining = after.0.quota_count })
        × Updated items quotas hyphenated recipient v v' after.0

    storage : (text : String) (v' : View) → Fails sled text → IsStorage sled (storage_error text)
    storage text v' fails = (text, refl, fails)

    start_Erases : Erases items hyphenated recipient v v s
    start_Erases = record {
      own = record { queued = rep.queued; indexed = rep.indexed };
      others = λ r s' plain' other h. h;
      quota = refl;
      seq = refl;
    }

    ack_tx-Ends :
        Ends sled Done
          (λ e v'. IsStorage sled e)
          (ack_tx sled items quotas hyphenated recipient xs store)
    unfolding ack_tx
    ack_tx-Ends =
        let E = λ (e : EnigmaRelayError) (v' : View). IsStorage sled e in
        read_quota_tx_then sled quotas Done E store (λ text. storage text (view sled store))
          (quota_key recipient) (quota_of s) _ rep.weighed
          (Ends-then sled (Acks sled items hyphenated recipient plain v after) Done E E _
            (λ p store' h. rw h.0 (
              decoded_then sled Done E _ _ _ store' (quotas.round_trip (quota_of after.0)).1 (
                insert_then sled Done E storage Column.quota _ _ _ store' _ refl (λ s1 e1. (
                  refl,
                  Erases-Updated after.0 (view sled store') (view sled s1)
                      (ack_items_seq sled items hyphenated recipient plain v xs s default_outcome)
                      h.1 e1,
                )))))
            (λ e v' h. h) _ store
            (ack_loop-Ends sled items hyphenated recipient plain v xs s default_outcome store fits w
              start_Erases))

  module _ (order : List AckItem → List AckItem) (arranges : Arranges order) (xs : List AckItem)
      (fits : All Fits xs) where
    abbrev pub mem : Result AckOutcome × RecipientState
    mem = let (outcome, s') = ack_entry order xs s in (ok outcome, s')

    -- An acknowledgement at the store on disk answers what one at the store in memory answers, in
    -- whatever order the set of items is visited, the trees then hold the state after that one, and
    -- they hold the states of the other recipients as before; or it fails with the error of a failed
    -- call of sled, with the trees as they were or as after it. The trees hold the well-formed state
    -- of the recipient, which is text without a colon, and the items are 128-bit ids and 32-bit
    -- chunks.
    pub ack-Refines :
        Ends sled
          (Agrees sled items quotas hyphenated recipient v mem)
          (Refuses sled items quotas hyphenated recipient v mem)
          (ack sled items quotas hyphenated recipient order xs store)
    unfolding ack ack_entry
    ack-Refines =
        let set = order (to_set xs) in
        let in_set = All-to_set order arranges Fits xs fits in
        let Answered = Agrees sled items quotas hyphenated recipient v mem in
        let Failed = Refuses sled items quotas hyphenated recipient v mem in
        let Uncommitted = λ (e : EnigmaRelayError) (v' : View). IsStorage sled e × (v' ≡ v) in
        Ends-then sled Answered Answered Uncommitted Failed _
          (λ a store' h.
            let flushed =
              flush_then sled Answered Failed store'
                (λ text fails. inr (inl (text, refl, fails), h.1)) in
            flushed Column.messages _ (flushed Column.index _ (flushed Column.quota _ h)))
          (λ e v' h. inl h) _ store
          (transaction-Ends sled Answered Uncommitted store
            (λ text fails. ((text, refl, fails), refl)) _ _
            (Ends-weaken sled (Done set in_set) Answered (λ e v'. IsStorage sled e)
              (λ e v'. Uncommitted e v) (λ a v' h. (ap ok h.0, h.1)) (λ e v' h. (h, refl)) _
              (ack_tx-Ends set in_set)))
