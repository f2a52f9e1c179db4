-- ===== src/StoreSled/Push/Written.antt =====
-- What the writes of an accepted push of src/store_sled.rs leave in the trees.
use enigma_relay.Base.{
  ℕ, ◌^◌, ◌<◌, ◌≡◌, ◌≢◌, refl, sym, ap, ◌∙◌, [], List, ◌∷◌, ◌++◌, arith, sat_add, Bool-cases, inl,
  inr,
}
use enigma_relay.Base.Text.{Text}
use enigma_relay.Base.Eq.{◌==◌, nat_eq, pair_eq, list_eq, pair_beq_iff}
use enigma_relay.Base.Map.{lookup, insert, lookup-insert}
use mathlib.Core.Option
use enigma_relay.Store.{InboundMessage, QueueMessage}
use enigma_relay.StoreMem.State.{DedupKey, RecipientState, inbound_key, to_stored}
use enigma_relay.StoreMem.Wf.{IsWf}
use enigma_relay.StoreSled.Keys.{
  Hyphenated, message_prefix, index_key, quota_key, seq_key, encode_u64,
}
use enigma_relay.StoreSled.Keys.Reads.{decode_u64-encode_u64}
use enigma_relay.StoreSled.Keys.Distinct.{
  index_key_injective, quota_key_injective, seq_key_injective,
}
use enigma_relay.StoreSled.Keys.Order.{IsPlain, message_key-prefix, message_key_other}
use enigma_relay.StoreSled.Db.{Json, insert_key, Ascending}
use enigma_relay.StoreSled.Entries.{
  lookup-insert_key_self, lookup-insert_key_other, with_prefix-insert_key_other,
  with_prefix-insert_key_end,
}
use enigma_relay.StoreSled.State.{QuotaValue}
use enigma_relay.StoreSled.Push.{decode_seq}
use enigma_relay.StoreSled.Logic.{View}
use enigma_relay.StoreSled.Represents.{
  bytes_of, quota_at, key_at, stored-snoc, stored-Over, Represents,
}

-- The state after an accepted push.
abbrev pub accepted : InboundMessage → QuotaValue → RecipientState → RecipientState
accepted msg value s = record {
  seq = sat_add s.seq 1;
  queue = s.queue ++ (s.seq, to_stored msg s.seq) ∷ [];
  idx = insert (inbound_key msg) s.seq s.idx;
  quota_bytes = value.bytes;
  quota_count = value.count;
}

module _ (items : Json QueueMessage) (quotas : Json QuotaValue) (hyphenated : Hyphenated)
    (msg : InboundMessage) where
  abbrev pub pushed : QuotaValue → ℕ → View → View
  pushed value n v = record {
    messages =
        insert_key (key_at hyphenated msg.recipient n (to_stored msg n))
          (bytes_of items (to_stored msg n)) v.messages;
    index =
        insert_key (index_key hyphenated msg.recipient msg.message_id msg.meta.chunk_index)
          (encode_u64 n) v.index;
    quota = insert_key (quota_key msg.recipient) (bytes_of quotas value) v.quota;
    seq = insert_key (seq_key msg.recipient) (encode_u64 (sat_add n 1)) v.seq;
  }

  module _ (plain : IsPlain msg.recipient) (id_fits : msg.message_id < 2 ^ 128)
      (chunk_fits : msg.meta.chunk_index < 2 ^ 32) (value : QuotaValue) (v : View) where
    index_written :
        (n : ℕ) (idx : List (DedupKey × ℕ))
        → ((id chunk : ℕ)
            → id < 2 ^ 128
            → chunk < 2 ^ 32
            → lookup (index_key hyphenated msg.recipient id chunk) v.index
              ≡ Option.map encode_u64 (lookup (id, chunk) idx))
        → (id chunk : ℕ) → id < 2 ^ 128
        → chunk < 2 ^ 32
        → lookup (index_key hyphenated msg.recipient id chunk) (pushed value n v).index
          ≡ Option.map encode_u64 (lookup (id, chunk) (insert (inbound_key msg) n idx))
    index_written n idx h id chunk b l =
        let key = index_key hyphenated msg.recipient id chunk in
        let own = index_key hyphenated msg.recipient msg.message_id msg.meta.chunk_index in
        elim (Bool-cases (inbound_key msg == (id, chunk))) [
          | inl e ↦
              let same = (pair_beq_iff (inbound_key msg) (id, chunk)).0 e in
              let ids : msg.message_id ≡ id = ap (λ p. p.0) same in
              let chunks : msg.meta.chunk_index ≡ chunk = ap (λ p. p.1) same in
              rw (lookup-insert, e, sym ids, sym chunks)
                (lookup-insert_key_self own (encode_u64 n) v.index)
          | inr e ↦
              let apart : own ≢ key = λ same.
                let (_, ids, chunks) =
                  index_key_injective hyphenated msg.recipient msg.recipient msg.message_id id
                    msg.meta.chunk_index chunk plain.is_scalar plain.is_scalar id_fits b chunk_fits
                    l same in
                ground (arith, pair_beq_iff (inbound_key msg) (id, chunk)) in
              rw (lookup-insert, e)
                (lookup-insert_key_other own key (encode_u64 n) v.index apart ∙ h id chunk b l)
        ]

    pub pushed-Represents :
        (s : RecipientState)
        → IsWf msg.recipient s
        → Ascending v.messages
        → Represents items quotas hyphenated msg.recipient v s
        → Represents items quotas hyphenated msg.recipient
            (pushed value s.seq v)
            (accepted msg value s)
    pushed-Represents s w sorted rep =
        let r = msg.recipient in
        let m = to_stored msg s.seq in
        let over = stored-Over items hyphenated r 0 s.seq m s.queue w.ascends w.in_range in
        record {
          queued =
              with_prefix-insert_key_end (message_prefix r) (key_at hyphenated r s.seq m)
                (bytes_of items m) v.messages
                (message_key-prefix hyphenated r s.seq m.message_id m.meta.chunk_index) sorted
                (rw rep.queued over)
              ∙ ap (λ q. q ++ (key_at hyphenated r s.seq m, bytes_of items m) ∷ []) rep.queued
              ∙ sym (stored-snoc items hyphenated r s.seq m s.queue);
          indexed = index_written s.seq s.idx rep.indexed;
          weighed = rw (lookup-insert_key_self, (quotas.round_trip value).2) refl;
          numbered =
              rw lookup-insert_key_self (decode_u64-encode_u64 (sat_add s.seq 1) (omega arith));
        }

    -- The trees hold the states of the other recipients as before.
    pub pushed-Represents_other :
        (n : ℕ) (r : Text) (s : RecipientState)
        → IsPlain r
        → msg.recipient ≢ r
        → Represents items quotas hyphenated r v s
        → Represents items quotas hyphenated r (pushed value n v) s
    pushed-Represents_other n r s plain' other rep =
        let own = msg.recipient in
        let m = to_stored msg n in
        let apart =
          message_key_other hyphenated r own n m.message_id m.meta.chunk_index plain' plain other in
        record {
          queued =
              with_prefix-insert_key_other (message_prefix r) (key_at hyphenated own n m)
                (bytes_of items m) v.messages apart
              ∙ rep.queued;
          indexed = λ id chunk b l.
              lookup-insert_key_other (index_key hyphenated own msg.message_id msg.meta.chunk_index)
                (index_key hyphenated r id chunk) (encode_u64 n) v.index
                (λ same.
                  other
                    (index_key_injective hyphenated own r msg.message_id id msg.meta.chunk_index
                      chunk plain.is_scalar plain'.is_scalar id_fits b chunk_fits l same).0)
              ∙ rep.indexed id chunk b l;
          weighed =
              ap (quota_at quotas) (
                lookup-insert_key_other (quota_key own) (quota_key r) (bytes_of quotas value)
                  v.quota
                  (λ same. other (quota_key_injective own r plain.is_scalar plain'.is_scalar same)))
              ∙ rep.weighed;
          numbered =
              ap decode_seq (
                lookup-insert_key_other (seq_key own) (seq_key r) (encode_u64 (sat_add n 1)) v.seq
                  (λ same. other (seq_key_injective own r plain.is_scalar plain'.is_scalar same)))
              ∙ rep.numbered;
        }
