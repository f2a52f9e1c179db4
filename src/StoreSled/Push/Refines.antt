-- ===== src/StoreSled/Push/Refines.antt =====
-- `SledStore::push` of src/store_sled.rs does what `MemStore::push` does to the state of the
-- recipient, and to no other.
use enigma_relay.Base.{
  ℕ, ◌^◌, ◌<◌, ◌≡◌, refl, sym, ◌⊎◌, true, false, none, some, arith, ltb, sat_add, Option-cases, inl,
  inr, String,
}
use enigma_relay.Base.Eq.{nat_eq, pair_eq, list_eq}
use enigma_relay.Base.Map.{lookup, contains_key, insert_sorted_end}
use enigma_relay.Error.{EnigmaRelayError, Result, ok, err, storage_error, quota_exceeded}
use enigma_relay.Config.{RelayLimits}
use enigma_relay.Store.{InboundMessage, QueueMessage, PushResult}
use enigma_relay.StoreMem.State.{RecipientState, inbound_key, to_stored}
use enigma_relay.StoreMem.Wf.{IsWf}
use enigma_relay.StoreMem.Push
use enigma_relay.StoreSled.Keys.{Hyphenated, index_key, quota_key}
use enigma_relay.StoreSled.Keys.Order.{IsPlain}
use enigma_relay.StoreSled.Db.{Json, Sled}
use enigma_relay.StoreSled.State.{QuotaValue, SledStore}
use enigma_relay.StoreSled.Trees.{Column}
use enigma_relay.StoreSled.Push.{push_tx, push, store_new, report_duplicate}
use enigma_relay.StoreSled.Logic.{
  View, Fails, IsStorage, view, Ends, Ends-weaken, Ends-then, decoded_then, lifted_then,
  reject_then,
}
use enigma_relay.StoreSled.Logic.Calls.{get_then, insert_then, flush_then, transaction-Ends}
use enigma_relay.StoreSled.Represents.{
  quota_of, read_quota_tx_then, Represents, Updated, Agrees, Refuses,
}
use enigma_relay.StoreSled.Push.Written.{
  accepted, pushed, pushed-Represents, pushed-Represents_other,
}

module _ (sled : Sled) (items : Json QueueMessage) (quotas : Json QuotaValue)
    (hyphenated : Hyphenated) where
  module _ (msg : InboundMessage) (limits : RelayLimits) (plain : IsPlain msg.recipient)
      (id_fits : msg.message_id < 2 ^ 128) (chunk_fits : msg.meta.chunk_index < 2 ^ 32)
      (store : SledStore sled) (s : RecipientState) (w : IsWf msg.recipient s)
      (rep : Represents items quotas hyphenated msg.recipient (view sled store) s) where
    abbrev mem : Result PushResult × RecipientState
    mem = Push.push_entry msg limits s

    abbrev Done : PushResult → View → Type 0
    Done a v =
        (ok a ≡ mem.0) × Updated items quotas hyphenated msg.recipient (view sled store) v mem.1

    abbrev Refused : EnigmaRelayError → View → Type 0
    Refused e v = IsStorage sled e ⊎ (err e ≡ mem.0) × (s ≡ mem.1)

    storage : (text : String) (v : View) → Fails sled text → Refused (storage_error text) v
    storage text v fails = inl (text, refl, fails)

    unchanged : Updated items quotas hyphenated msg.recipient (view sled store) (view sled store) s
    unchanged = record { own = rep; others = λ r s' plain' other rep'. rep' }

    mem_duplicate :
        (seq : ℕ)
        → lookup (inbound_key msg) s.idx ≡ some seq
        → mem ≡ (
          ok (record {
            stored = false;
            duplicate = true;
            queue_len = s.quota_count;
            queue_bytes = s.quota_bytes;
          }),
          s,
        )
    unfolding Push.push_entry contains_key
    mem_duplicate seq e = rw (e, contains_key) refl

    abbrev next_count : ℕ
    next_count = sat_add s.quota_count 1

    abbrev next_bytes : ℕ
    next_bytes = sat_add s.quota_bytes msg.payload_bytes

    abbrev next_quota : QuotaValue
    next_quota = record { bytes = next_bytes; count = next_count }

    mem_refused :
        lookup (inbound_key msg) s.idx ≡ none
        → (ltb limits.max_messages_per_user next_count ≡ true)
          ⊎ (ltb limits.max_queue_bytes_per_user next_bytes ≡ true)
        → mem ≡ (err quota_exceeded, s)
    unfolding Push.push_entry contains_key
    mem_refused e test = rw (e, contains_key) (ground arith)

    mem-accepted :
        lookup (inbound_key msg) s.idx ≡ none
        → ltb limits.max_messages_per_user next_count ≡ false
        → ltb limits.max_queue_bytes_per_user next_bytes ≡ false
        → mem ≡ (
          ok (record {
            stored = true;
            duplicate = false;
            queue_len = next_count;
            queue_bytes = next_bytes;
          }),
          accepted msg next_quota s,
        )
    unfolding Push.push_entry contains_key
    mem-accepted e few light =
        rw (e, contains_key)
          (rw (few, light)
            (rw (insert_sorted_end 0 s.seq (to_stored msg s.seq) s.queue w.ascends) refl))

    report_duplicate-Ends :
        (seq : ℕ)
        → lookup (inbound_key msg) s.idx ≡ some seq
        → Ends sled Done Refused (report_duplicate sled items quotas hyphenated msg store)
    unfolding report_duplicate
    report_duplicate-Ends seq e =
        read_quota_tx_then sled quotas Done Refused store (λ text. storage text (view sled store))
          (quota_key msg.recipient) (quota_of s) _ rep.weighed
          (rw (mem_duplicate seq e) (refl, unchanged))

    -- After the writes.
    stored_Updated :
        (v : View)
        → v ≡ pushed items quotas hyphenated msg next_quota s.seq (view sled store)
        → Updated items quotas hyphenated msg.recipient
            (view sled store)
            v
            (accepted msg next_quota s)
    stored_Updated v e =
        let sorted = sled.ascending store.messages in
        rw e (record {
          own =
              pushed-Represents items quotas hyphenated msg plain id_fits chunk_fits next_quota
                (view sled store) s w sorted rep;
          others = λ r s' plain' other rep'.
              pushed-Represents_other items quotas hyphenated msg plain id_fits chunk_fits
                next_quota (view sled store) s.seq r s' plain' other rep';
        })

    store_new-Ends :
        lookup (inbound_key msg) s.idx ≡ none
        → Ends sled Done Refused (
            store_new sled items quotas hyphenated msg limits
              (index_key hyphenated msg.recipient msg.message_id msg.meta.chunk_index)
              store)
    unfolding store_new
    store_new-Ends fresh =
        read_quota_tx_then sled quotas Done Refused store (λ text. storage text (view sled store))
          (quota_key msg.recipient) (quota_of s) _ rep.weighed
          (reject_then sled Done Refused _ quota_exceeded _ store
            (λ many. inr (rw (mem_refused fresh (inl many)) (refl, refl)))
            (λ few.
              reject_then sled Done Refused _ quota_exceeded _ store
                (λ heavy. inr (rw (mem_refused fresh (inr heavy)) (refl, refl)))
                (λ light.
                  get_then sled Done Refused storage Column.seq _ _ store (view sled store) refl (
                    rw rep.numbered (
                      lifted_then sled Done Refused s.seq _ store (
                        decoded_then sled Done Refused _ _ _ store
                          (items.round_trip (to_stored msg s.seq)).1
                          (insert_then sled Done Refused storage Column.messages _ _ _ store _ refl
                            (λ s1 e1.
                              insert_then sled Done Refused storage Column.index _ _ _ s1 _ e1
                                (λ s2 e2.
                                  decoded_then sled Done Refused _ _ _ s2
                                    (quotas.round_trip next_quota).1
                                    (insert_then sled Done Refused storage Column.quota _ _ _ s2 _
                                      e2
                                      (λ s3 e3.
                                        insert_then sled Done Refused storage Column.seq _ _ _ s3 _
                                          e3
                                          (λ s4 e4.
                                            rw (mem-accepted fresh few light)
                                              (refl, stored_Updated (view sled s4) e4)))))))))))))

    push_tx-Ends : Ends sled Done Refused (push_tx sled items quotas hyphenated msg limits store)
    unfolding push_tx
    push_tx-Ends =
        let found = rep.indexed msg.message_id msg.meta.chunk_index id_fits chunk_fits in
        get_then sled Done Refused storage Column.index _ _ store (view sled store) refl (
          rw found (elim (Option-cases (lookup (inbound_key msg) s.idx)) [
            | inl fresh ↦ rw fresh (store_new-Ends fresh)
            | inr (seq, held) ↦ rw held (report_duplicate-Ends seq held)
          ]))

    refused_Refuses :
        (e : EnigmaRelayError) (v : View)
        → (v ≡ view sled store) × Refused e v
        → Refuses sled items quotas hyphenated msg.recipient (view sled store) mem e v
    refused_Refuses e v (same, inl failed) = inl (failed, same)
    refused_Refuses e v (same, inr (refused, kept)) =
        inr (inr refused, rw (same, sym kept) unchanged)

    -- A push to the store on disk answers what a push to the store in memory answers, the trees then
    -- hold the state after that push, and they hold the states of the other recipients as before; or
    -- it fails with the error of a failed call of sled, with the trees as they were or as after that
    -- push. The trees hold the well-formed state of the recipient, which is text without a colon, and
    -- the id and the chunk of the message are 128-bit and 32-bit values.
    pub push-Refines :
        Ends sled
          (Agrees sled items quotas hyphenated msg.recipient
            (view sled store)
            (Push.push_entry msg limits s))
          (Refuses sled items quotas hyphenated msg.recipient
            (view sled store)
            (Push.push_entry msg limits s))
          (push sled items quotas hyphenated msg limits store)
    unfolding push
    push-Refines =
        let Uncommitted =
          λ (e : EnigmaRelayError) (v : View). (v ≡ view sled store) × Refused e v in
        let Failed = Refuses sled items quotas hyphenated msg.recipient (view sled store) mem in
        Ends-then sled Done Done Uncommitted Failed _
          (λ a store' h.
            let flushed =
              flush_then sled Done Failed store'
                (λ text fails. inr (inl (text, refl, fails), h.1)) in
            flushed Column.messages _
              (flushed Column.index _ (flushed Column.quota _ (flushed Column.seq _ h))))
          refused_Refuses _ store
          (transaction-Ends sled Done Uncommitted store
            (λ text fails. (refl, inl (text, refl, fails))) _ _
            (Ends-weaken sled Done Done Refused (λ e v. Uncommitted e (view sled store))
              (λ a v h. h) (λ e v h. (refl, h)) _ push_tx-Ends))
