-- ===== src/StoreSled/Represents.antt =====
-- When the trees of src/store_sled.rs hold the state that src/store_mem.rs keeps for a recipient.
use enigma_relay.Base.{
  String, ℕ, suc, ◌^◌, ◌≤◌, ◌<◌, ◌≡◌, ◌≢◌, ◌⊎◌, refl, sym, ap, subst, false, Option, none, some, [],
  ◌∷◌, ◌++◌, arith, u64_max, Bool-cases, inl, inr,
}
use enigma_relay.Base.Text.{Text}
use enigma_relay.Base.Eq.{◌==◌, nat_eq, pair_eq, list_eq}
use enigma_relay.Base.Map.{
  lookup, remove, Ascends, Ascends-le, lookup-above, lookup-below, remove_absent,
}
use enigma_relay.Error.{EnigmaRelayError, Result, ok, err, storage_error}
use enigma_relay.Error.Action.{Action, ◌>>=◌, lift}
use mathlib.Core.Option
use enigma_relay.Store.{QueueMessage}
use enigma_relay.StoreMem.State.{Queue, RecipientState}
use enigma_relay.StoreSled.Keys.{
  Hyphenated, message_prefix, message_key, index_key, quota_key, seq_key, encode_u64,
}
use enigma_relay.StoreSled.Keys.Order.{IsPlain, message_key-after, message_key_distinct}
use enigma_relay.StoreSled.Db.{Bytes, Sled, Entries, Json, or_internal, with_prefix}
use enigma_relay.StoreSled.Entries.{Over}
use enigma_relay.StoreSled.State.{QuotaValue, SledStore, default_quota}
use enigma_relay.StoreSled.Push.{decode_seq}
use enigma_relay.StoreSled.Logic.{View, Fails, IsStorage, view, Ends, Ends-assoc}
use enigma_relay.StoreSled.Logic.Calls.{get_here_then}
use enigma_relay.StoreSled.Trees.{Column, decoded, read_quota_tx, read_quota_tree}

abbrev pub quota_of : RecipientState → QuotaValue
quota_of s = record { bytes = s.quota_bytes; count = s.quota_count }

module _ {A : Type 0} (json : Json A) where
  abbrev pub bytes_of : A → Bytes
  bytes_of a = (json.round_trip a).0

-- What the value that is found says of the quota.
abbrev pub quota_at : Json QuotaValue → Option Bytes → Result QuotaValue
quota_at quotas none = ok default_quota
quota_at quotas (some val) = or_internal (quotas.from_slice val)

module _ (hyphenated : Hyphenated) (recipient : Text) where
  abbrev pub key_at : ℕ → QueueMessage → Bytes
  key_at seq m = message_key hyphenated recipient seq m.message_id m.meta.chunk_index

  pub key_at_distinct :
      (j n : ℕ) (w m : QueueMessage)
      → j ≢ n
      → j ≤ u64_max
      → n ≤ u64_max
      → (key_at j w == key_at n m) ≡ false
  key_at_distinct j n w m h hj hn = elim (Bool-cases (key_at j w == key_at n m)) [
    | inr e ↦ e
    | inl e ↦
        let same = (list_eq.same_iff (key_at j w) (key_at n m)).0 e in
        let apart = message_key_distinct hyphenated recipient in
        elim (lt_or_lt j n h) [
          | inl l ↦ absurd (
              apart j n m.message_id w.message_id m.meta.chunk_index w.meta.chunk_index l hn
                (sym same))
          | inr l ↦
              absurd (
                apart n j w.message_id m.message_id w.meta.chunk_index m.meta.chunk_index l hj same)
        ]
  ]
    where
      lt_or_lt : (j n : ℕ) → j ≢ n → (j < n) ⊎ (n < j)
      lt_or_lt j n h = ground arith

module _ (items : Json QueueMessage) (hyphenated : Hyphenated) (recipient : Text) where
  -- The entries under which a queue is stored.
  unfoldable pub stored : Queue → Entries
  stored [] = []
  stored ((seq, m) ∷ q) = (key_at hyphenated recipient seq m, bytes_of items m) ∷ stored q

  pub stored-snoc :
      (n : ℕ) (m : QueueMessage) (q : Queue)
      → stored (q ++ (n, m) ∷ [])
        ≡ stored q ++ (key_at hyphenated recipient n m, bytes_of items m) ∷ []
  unfolding stored
  stored-snoc n m [] = refl
  stored-snoc n m ((j, w) ∷ q) =
      ap (◌∷◌ (key_at hyphenated recipient j w, bytes_of items w)) (stored-snoc n m q)

  -- A message that is later than those of a queue has a key after theirs.
  pub stored-Over :
      (lo n : ℕ) (m : QueueMessage) (q : Queue)
      → Ascends lo n q
      → n ≤ u64_max
      → Over (key_at hyphenated recipient n m) (stored q)
  unfolding stored
  stored-Over lo n m [] a h = tt
  stored-Over lo n m ((j, w) ∷ q) a h =
      let below = Ascends-le (suc j) n q a.1 in
      (
        message_key-after hyphenated recipient j n m.message_id w.message_id m.meta.chunk_index
            w.meta.chunk_index (omega arith) h,
        stored-Over (suc j) n m q a.1 h,
      )

  -- A message of a queue is found under its key, and taken out with it.
  pub lookup-stored :
      (lo hi seq : ℕ) (m : QueueMessage) (q : Queue)
      → Ascends lo hi q
      → hi ≤ u64_max
      → lookup seq q ≡ some m
      → lookup (key_at hyphenated recipient seq m) (stored q) ≡ some (bytes_of items m)
  unfolding stored lookup
  lookup-stored lo hi seq m [] a h e = cc
  lookup-stored lo hi seq m ((j, w) ∷ q) a h e = ground (
    arith,
    lookup-stored (suc j) hi seq m q a.1 h,
    Ascends-le (suc j) hi q a.1,
    lookup-above (suc j) hi seq q a.1,
    key_at_distinct hyphenated recipient j seq w m,
    list_eq.same_iff (key_at hyphenated recipient j w) (key_at hyphenated recipient seq m),
  )

  remove-stored_absent :
      (lo hi seq : ℕ) (m : QueueMessage) (q : Queue)
      → Ascends lo hi q
      → hi ≤ u64_max
      → seq < lo
      → remove (key_at hyphenated recipient seq m) (stored q) ≡ stored q
  unfolding stored remove
  remove-stored_absent lo hi seq m [] a h l = refl
  remove-stored_absent lo hi seq m ((j, w) ∷ q) a h l = ground (
    arith,
    remove-stored_absent (suc j) hi seq m q a.1 h,
    Ascends-le (suc j) hi q a.1,
    key_at_distinct hyphenated recipient j seq w m,
  )

  pub remove-stored :
      (lo hi seq : ℕ) (m : QueueMessage) (q : Queue)
      → Ascends lo hi q
      → hi ≤ u64_max
      → lookup seq q ≡ some m
      → remove (key_at hyphenated recipient seq m) (stored q) ≡ stored (remove seq q)
  unfolding stored lookup remove
  remove-stored lo hi seq m [] a h e = cc
  remove-stored lo hi seq m ((j, w) ∷ q) a h e = ground (
    arith,
    remove-stored (suc j) hi seq m q a.1 h,
    remove-stored_absent (suc j) hi seq w q a.1 h,
    Ascends-le (suc j) hi q a.1,
    lookup-above (suc j) hi seq q a.1,
    remove_absent seq q,
    lookup-below (suc j) hi seq q a.1,
    key_at_distinct hyphenated recipient j seq w m,
    list_eq.same_iff (key_at hyphenated recipient j w) (key_at hyphenated recipient seq m),
  )

-- The trees hold the state of a recipient: its queue stands in the tree `messages`, in order, its
-- index and counters are those read from the others.
pub record Represents (items : Json QueueMessage) (quotas : Json QuotaValue)
    (hyphenated : Hyphenated) (recipient : Text) (v : View) (s : RecipientState) : Type 0 where
  pub queued :
      with_prefix (message_prefix recipient) v.messages ≡ stored items hyphenated recipient s.queue
  pub indexed :
      (id chunk : ℕ)
      → id < 2 ^ 128
      → chunk < 2 ^ 32
      → lookup (index_key hyphenated recipient id chunk) v.index
        ≡ Option.map encode_u64 (lookup (id, chunk) s.idx)
  pub weighed : quota_at quotas (lookup (quota_key recipient) v.quota) ≡ ok (quota_of s)
  pub numbered : decode_seq (lookup (seq_key recipient) v.seq) ≡ ok s.seq

module _ (items : Json QueueMessage) (quotas : Json QuotaValue) (hyphenated : Hyphenated) where
  -- The trees hold the new state of the recipient, and those of the others as before.
  pub record Updated (recipient : Text) (v v' : View) (s' : RecipientState) : Type 0 where
    pub own : Represents items quotas hyphenated recipient v' s'
    pub others :
        (r : Text) (s : RecipientState)
        → IsPlain r
        → recipient ≢ r
        → Represents items quotas hyphenated r v s
        → Represents items quotas hyphenated r v' s

module _ {A : Type 0} (sled : Sled) (items : Json QueueMessage) (quotas : Json QuotaValue)
    (hyphenated : Hyphenated) (recipient : Text) (v : View) (mem : Result A × RecipientState) where
  -- An answer is that of the store in memory, and so are the trees after it.
  abbrev pub Agrees : A → View → Type 0
  Agrees a v' = (ok a ≡ mem.0) × Updated items quotas hyphenated recipient v v' mem.1

  -- An error is that of a call of sled, with the trees as before or as after the call of the store in
  -- memory, or it is that of the store in memory.
  abbrev pub Refuses : EnigmaRelayError → View → Type 0
  Refuses e v' =
      IsStorage sled e × (v' ≡ v)
      ⊎ (IsStorage sled e ⊎ (err e ≡ mem.0)) × Updated items quotas hyphenated recipient v v' mem.1

module _ {κ} {B : Type κ} (sled : Sled) (quotas : Json QuotaValue) (Q : B → View → Type 0)
    (E : EnigmaRelayError → View → Type 0) where
  quota_then :
      (found : Option Bytes) (value : QuotaValue) (k : QuotaValue → Action (SledStore sled) B)
      (store : SledStore sled)
      → quota_at quotas found ≡ ok value
      → Ends sled Q E (k value store)
      → Ends sled Q E (
          (elim found [
            | none ↦ lift (ok default_quota)
            | some val ↦ decoded sled (quotas.from_slice val)
          ]
              >>= k)
            store)
  unfolding ◌>>=◌
  quota_then none value k store e h =
      let same : value ≡ default_quota = cc in subst (λ x. Ends sled Q E (k x store)) same h
  quota_then (some val) value k store e h = rw e h

  module _ (store : SledStore sled)
      (storage : (text : String) → Fails sled text → E (storage_error text) (view sled store))
      (key : Bytes) (value : QuotaValue) (k : QuotaValue → Action (SledStore sled) B)
      (e : quota_at quotas (lookup key (view sled store).quota) ≡ ok value)
      (h : Ends sled Q E (k value store)) where
    pub read_quota_tx_then : Ends sled Q E ((read_quota_tx sled quotas key >>= k) store)
    unfolding read_quota_tx
    read_quota_tx_then = Ends-assoc sled Q E _ _ k store (
        get_here_then sled Q E store storage Column.quota key _ (view sled store) refl
          (quota_then (lookup key (view sled store).quota) value k store e h))

    pub read_quota_tree_then : Ends sled Q E ((read_quota_tree sled quotas key >>= k) store)
    unfolding read_quota_tree
    read_quota_tree_then = Ends-assoc sled Q E _ _ k store (
        get_here_then sled Q E store storage Column.quota key _ (view sled store) refl
          (quota_then (lookup key (view sled store).quota) value k store e h))
