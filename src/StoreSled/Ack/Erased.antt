-- ===== src/StoreSled/Ack/Erased.antt =====
-- What the removal of a message and of its index entry leaves in the trees of src/store_sled.rs.
use enigma_relay.Base.{ℕ, ◌^◌, ◌<◌, ◌≡◌, ◌≢◌, sym, ap, ◌∙◌, some, List, arith, Bool-cases, inl, inr}
use enigma_relay.Base.Text.{Text}
use enigma_relay.Base.Eq.{◌==◌, nat_eq, pair_eq, list_eq, pair_beq_iff}
use enigma_relay.Base.Map.{lookup, remove, lookup-remove}
use mathlib.Core.Option
use enigma_relay.Store.{QueueMessage}
use enigma_relay.StoreMem.State.{DedupKey, RecipientState, key_of}
use enigma_relay.StoreMem.Wf.{IsWf, without}
use enigma_relay.StoreSled.Keys.{Hyphenated, message_prefix, index_key, encode_u64}
use enigma_relay.StoreSled.Keys.Distinct.{index_key_injective}
use enigma_relay.StoreSled.Keys.Order.{IsPlain, message_key_other}
use enigma_relay.StoreSled.Db.{Json, with_prefix}
use enigma_relay.StoreSled.Entries.{
  with_prefix-remove, with_prefix-remove_other, lookup-remove_self, lookup-remove_other,
}
use enigma_relay.StoreSled.Logic.{View}
use enigma_relay.StoreSled.Represents.{key_at, stored, remove-stored}

-- While items are taken out, before the quota is written: the trees `messages` and `index` hold the
-- state of the recipient, and those of the others as before.
pub record Holds (items : Json QueueMessage) (hyphenated : Hyphenated) (recipient : Text) (v : View)
    (s : RecipientState) : Type 0 where
  pub queued :
      with_prefix (message_prefix recipient) v.messages ≡ stored items hyphenated recipient s.queue
  pub indexed :
      (id chunk : ℕ)
      → id < 2 ^ 128
      → chunk < 2 ^ 32
      → lookup (index_key hyphenated recipient id chunk) v.index
        ≡ Option.map encode_u64 (lookup (id, chunk) s.idx)

module _ (items : Json QueueMessage) (hyphenated : Hyphenated) (recipient : Text)
    (plain : IsPlain recipient) (seq : ℕ) (m : QueueMessage) (id_fits : m.message_id < 2 ^ 128)
    (chunk_fits : m.meta.chunk_index < 2 ^ 32) (v : View) where
  abbrev pub erased : View
  erased = record v {
    messages = remove (key_at hyphenated recipient seq m) v.messages;
    index = remove (index_key hyphenated recipient m.message_id m.meta.chunk_index) v.index;
  }

  index_erased :
      (idx : List (DedupKey × ℕ))
      → ((id chunk : ℕ)
          → id < 2 ^ 128
          → chunk < 2 ^ 32
          → lookup (index_key hyphenated recipient id chunk) v.index
            ≡ Option.map encode_u64 (lookup (id, chunk) idx))
      → (id chunk : ℕ) → id < 2 ^ 128
      → chunk < 2 ^ 32
      → lookup (index_key hyphenated recipient id chunk) erased.index
        ≡ Option.map encode_u64 (lookup (id, chunk) (remove (key_of m) idx))
  index_erased idx h id chunk b l =
      let key = index_key hyphenated recipient id chunk in
      let own = index_key hyphenated recipient m.message_id m.meta.chunk_index in
      elim (Bool-cases (key_of m == (id, chunk))) [
        | inl e ↦
            let same = (pair_beq_iff (key_of m) (id, chunk)).0 e in
            let ids : m.message_id ≡ id = ap (λ p. p.0) same in
            let chunks : m.meta.chunk_index ≡ chunk = ap (λ p. p.1) same in
            rw (lookup-remove (key_of m) (id, chunk) idx, e, sym ids, sym chunks)
              (lookup-remove_self own v.index)
        | inr e ↦
            let apart : own ≢ key = λ same.
              let (_, ids, chunks) =
                index_key_injective hyphenated recipient recipient m.message_id id
                  m.meta.chunk_index chunk plain.is_scalar plain.is_scalar id_fits b chunk_fits l
                  same in
              ground (arith, pair_beq_iff (key_of m) (id, chunk)) in
            rw (lookup-remove (key_of m) (id, chunk) idx, e)
              (lookup-remove_other own key v.index apart ∙ h id chunk b l)
      ]

  pub erased-Holds :
      (s : RecipientState)
      → IsWf recipient s
      → lookup seq s.queue ≡ some m
      → Holds items hyphenated recipient v s
      → Holds items hyphenated recipient erased (without seq m s)
  erased-Holds s w found h = record {
    queued =
        with_prefix-remove (message_prefix recipient) (key_at hyphenated recipient seq m) v.messages
        ∙ ap (remove (key_at hyphenated recipient seq m)) h.queued
        ∙ remove-stored items hyphenated recipient 0 s.seq seq m s.queue w.ascends w.in_range found;
    indexed = index_erased s.idx h.indexed;
  }

  pub erased-Holds_other :
      (r : Text) (s : RecipientState)
      → IsPlain r
      → recipient ≢ r
      → Holds items hyphenated r v s
      → Holds items hyphenated r erased s
  erased-Holds_other r s plain' other h = record {
    queued =
        with_prefix-remove_other (message_prefix r) (key_at hyphenated recipient seq m) v.messages (
          message_key_other hyphenated r recipient seq m.message_id m.meta.chunk_index plain' plain
            other)
        ∙ h.queued;
    indexed = λ id chunk b l.
        lookup-remove_other (index_key hyphenated recipient m.message_id m.meta.chunk_index)
          (index_key hyphenated r id chunk) v.index
          (λ same.
            other
              (index_key_injective hyphenated recipient r m.message_id id m.meta.chunk_index chunk
                plain.is_scalar plain'.is_scalar id_fits b chunk_fits l same).0)
        ∙ h.indexed id chunk b l;
  }
