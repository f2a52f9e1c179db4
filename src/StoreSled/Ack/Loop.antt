-- ===== src/StoreSled/Ack/Loop.antt =====
-- The loop of `SledStore::ack` of src/store_sled.rs does what that of `MemStore::ack` does.
use enigma_relay.Base.{
  ℕ, ◌^◌, ◌≤◌, ◌<◌, ◌≡◌, ◌≢◌, refl, sym, ap, ◌∙◌, subst, none, some, List, [], ◌∷◌, arith, u64_max,
  Option-cases, inl, inr, String, All, sat_add,
}
use enigma_relay.Base.Text.{Text}
use enigma_relay.Base.Eq.{nat_eq, pair_eq, list_eq}
use enigma_relay.Base.Map.{lookup, Ascends-length, lookup-above}
use enigma_relay.Error.{EnigmaRelayError, storage_error}
use enigma_relay.Store.{QueueMessage, AckItem, AckOutcome, default_outcome}
use enigma_relay.StoreMem.State.{DedupKey, RecipientState, key_of}
use enigma_relay.StoreMem.Wf.{IsWf, seq_of, seq_of-lookup, without}
use enigma_relay.StoreMem.Mailbox.{item_of}
use enigma_relay.StoreMem.Ack.{ack_item, ack_items}
use enigma_relay.StoreMem.Ack.Unacked.{key_of_item, lookup-seq_of}
use enigma_relay.StoreMem.Ack.Refines.{ack_item_lem}
use enigma_relay.StoreSled.Keys.{Hyphenated, message_prefix, encode_u64}
use enigma_relay.StoreSled.Keys.Reads.{decode_u64-encode_u64}
use enigma_relay.StoreSled.Keys.Order.{IsPlain, message_key-prefix}
use enigma_relay.StoreSled.Db.{Json, Sled}
use enigma_relay.StoreSled.Entries.{lookup-with_prefix}
use enigma_relay.StoreSled.State.{SledStore}
use enigma_relay.StoreSled.Trees.{Column}
use enigma_relay.StoreSled.Ack.{Progress, ack_one, ack_indexed, ack_loop}
use enigma_relay.StoreSled.Logic.{
  View, Fails, IsStorage, view, Ends, Ends-then, decoded_then, lifted_then,
}
use enigma_relay.StoreSled.Logic.Calls.{get_then, remove_then}
use enigma_relay.StoreSled.Represents.{quota_of, bytes_of, key_at, lookup-stored}
use enigma_relay.StoreSled.Ack.Erased.{Holds, erased, erased-Holds, erased-Holds_other}

-- An item is a value of the types of the source.
abbrev pub Fits : AckItem → Type 0
Fits item = (item.message_id < 2 ^ 128) × (item.chunk_index < 2 ^ 32)

-- From the start of the loop on, the other recipients and the other trees are as they were.
pub record Erases (items : Json QueueMessage) (hyphenated : Hyphenated) (recipient : Text)
    (v v' : View) (s : RecipientState) : Type 0 where
  pub own : Holds items hyphenated recipient v' s
  pub others :
      (r : Text) (s' : RecipientState)
      → IsPlain r
      → recipient ≢ r
      → Holds items hyphenated r v s'
      → Holds items hyphenated r v' s'
  pub quota : v'.quota ≡ v.quota
  pub seq : v'.seq ≡ v.seq

module _ (sled : Sled) (items : Json QueueMessage) (hyphenated : Hyphenated) (recipient : Text)
    (plain : IsPlain recipient) (v : View) where
  abbrev pub StorageOnly : EnigmaRelayError → View → Type 0
  StorageOnly e v' = IsStorage sled e

  storage : (text : String) (v' : View) → Fails sled text → StorageOnly (storage_error text) v'
  storage text v' fails = (text, refl, fails)

  -- The outcome and the trees are those of the store in memory.
  abbrev pub Acks : RecipientState × AckOutcome → Progress → View → Type 0
  Acks mem p v' = (p ≡ (quota_of mem.0, mem.1)) × Erases items hyphenated recipient v v' mem.0

  module _ (s : RecipientState) (w : IsWf recipient s) (o : AckOutcome) (store : SledStore sled)
      (mid : Erases items hyphenated recipient v (view sled store) s) where
    missing_item :
        (item : AckItem)
        → seq_of (key_of_item item) s.queue ≡ none
        → ack_item item (s, o) ≡ (s, record o { missing = sat_add o.missing 1 })
    unfolding ack_item
    missing_item item gone = rw (w.indexed (key_of_item item) ∙ gone, ack_item) refl

    module _ (seq : ℕ) (m : QueueMessage) (fits : Fits (item_of m))
        (found : lookup seq s.queue ≡ some m) where
      deleted_item :
          ack_item (item_of m) (s, o)
          ≡ (without seq m s, record o { deleted = sat_add o.deleted 1 })
      unfolding ack_item
      deleted_item =
          rw (w.indexed (key_of m) ∙ seq_of-lookup seq m s.queue w.distinct found, found, ack_item)
            refl

      seq-le : seq ≤ u64_max
      seq-le = ground (arith, lookup-above 0 s.seq seq s.queue w.ascends, found, w.in_range)

      in_tree :
          lookup (key_at hyphenated recipient seq m) (view sled store).messages
          ≡ some (bytes_of items m)
      in_tree =
          sym (
            lookup-with_prefix (message_prefix recipient) (key_at hyphenated recipient seq m)
              (view sled store).messages
              (message_key-prefix hyphenated recipient seq m.message_id m.meta.chunk_index))
          ∙ ap (lookup (key_at hyphenated recipient seq m)) mid.own.queued
          ∙ lookup-stored items hyphenated recipient 0 s.seq seq m s.queue w.ascends w.in_range
              found

      after_removal :
          (v' : View)
          → v' ≡ erased items hyphenated recipient plain seq m fits.0 fits.1 (view sled store)
          → Erases items hyphenated recipient v v' (without seq m s)
      after_removal v' e = rw e (record {
        own =
            erased-Holds items hyphenated recipient plain seq m fits.0 fits.1 (view sled store) s w
              found mid.own;
        others = λ r s' plain' other h.
            erased-Holds_other items hyphenated recipient plain seq m fits.0 fits.1
              (view sled store) r s' plain' other (mid.others r s' plain' other h);
        quota = mid.quota;
        seq = mid.seq;
      })

      indexed_Ends : Ends sled (Acks (ack_item (item_of m) (s, o))) StorageOnly (
          ack_indexed sled items hyphenated recipient
            (item_of m)
            (encode_u64 seq)
            (quota_of s, o)
            store)
      unfolding ack_indexed
      indexed_Ends =
          let Q = Acks (ack_item (item_of m) (s, o)) in
          rw (decode_u64-encode_u64 seq seq-le) (
            lifted_then sled Q StorageOnly seq _ store (
              get_then sled Q StorageOnly storage Column.messages _ _ store (view sled store) refl (
                rw in_tree (
                  decoded_then sled Q StorageOnly _ m _ store (items.round_trip m).2 (
                    remove_then sled Q StorageOnly storage Column.messages _ _ store _ refl
                      (λ s1 e1.
                        remove_then sled Q StorageOnly storage Column.index _ _ s1 _ e1
                          (λ s2 e2. rw deleted_item (refl, after_removal (view sled s2) e2))))))))

    ack_one-Ends :
        (item : AckItem)
        → Fits item
        → Ends sled
            (Acks (ack_item item (s, o)))
            StorageOnly
            (ack_one sled items hyphenated recipient item (quota_of s, o) store)
    unfolding ack_one
    ack_one-Ends item fits =
        get_then sled (Acks (ack_item item (s, o))) StorageOnly storage Column.index _ _ store
          (view sled store) refl
          (rw
            (
              mid.own.indexed item.message_id item.chunk_index fits.0 fits.1,
              w.indexed (key_of_item item),
            )
            (elim (Option-cases (seq_of (key_of_item item) s.queue)) [
              | inl gone ↦ rw gone (rw (missing_item item gone) (refl, mid))
              | inr (seq, held) ↦
                  let (m, found, same) =
                    lookup-seq_of 0 s.seq seq (key_of_item item) s.queue w.ascends held in
                  let here : item_of m ≡ item =
                    ap (λ (k : DedupKey). record { message_id = k.0; chunk_index = k.1 }) same in
                  rw held (
                    subst
                      (λ (i : AckItem). Ends sled (Acks (ack_item i (s, o))) StorageOnly (
                        ack_indexed sled items hyphenated recipient i (encode_u64 seq)
                          (quota_of s, o) store))
                      here (indexed_Ends seq m (subst Fits (sym here) fits) found))
            ]))

  -- The outcome so far has no part in what an item takes out.
  ack_item_state :
      (item : AckItem) (s : RecipientState) (o o' : AckOutcome)
      → (ack_item item (s, o)).0 ≡ (ack_item item (s, o')).0
  unfolding ack_item
  ack_item_state item s o o' = ground arith

  ack_item-IsWf :
      (item : AckItem) (s : RecipientState) (o : AckOutcome)
      → IsWf recipient s
      → IsWf recipient (ack_item item (s, o)).0
  ack_item-IsWf item s o w =
      let room = Ascends-length 0 s.seq s.queue w.ascends in
      let kept =
        (ack_item_lem item s default_outcome w (omega (arith, room, w.in_range))
          (omega arith)).wf in
      subst (IsWf recipient) (ack_item_state item s default_outcome o) kept

  ack_item_seq :
      (item : AckItem) (s : RecipientState) (o : AckOutcome) → (ack_item item (s, o)).0.seq ≡ s.seq
  unfolding ack_item
  ack_item_seq item s o = ground arith

  pub ack_items_seq :
      (items' : List AckItem) (s : RecipientState) (o : AckOutcome)
      → (ack_items items' (s, o)).0.seq ≡ s.seq
  unfolding ack_items
  ack_items_seq [] s o = refl
  ack_items_seq (item ∷ items') s o =
      let (s', o') = ack_item item (s, o) in ack_items_seq items' s' o' ∙ ack_item_seq item s o

  pub ack_loop-Ends :
      (items' : List AckItem) (s : RecipientState) (o : AckOutcome) (store : SledStore sled)
      → All Fits items'
      → IsWf recipient s
      → Erases items hyphenated recipient v (view sled store) s
      → Ends sled
          (Acks (ack_items items' (s, o)))
          StorageOnly
          (ack_loop sled items hyphenated recipient items' (quota_of s, o) store)
  unfolding ack_loop ack_items
  ack_loop-Ends [] s o store fits w mid = (refl, mid)
  ack_loop-Ends (item ∷ items') s o store fits w mid =
      let (s', o') = ack_item item (s, o) in
      Ends-then sled (Acks (ack_item item (s, o))) (Acks (ack_items items' (s', o'))) StorageOnly
        StorageOnly _
        (λ p store' h.
          subst
            (λ p.
              Ends sled (Acks (ack_items items' (s', o'))) StorageOnly
                (ack_loop sled items hyphenated recipient items' p store'))
            (sym h.0) (ack_loop-Ends items' s' o' store' fits.1 (ack_item-IsWf item s o w) h.1))
        (λ e v' h. h) _ store (ack_one-Ends s w o store mid item fits.0)
