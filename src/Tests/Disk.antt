-- ===== src/Tests/Disk.antt =====
-- A tree of sled in memory, as its entries with the proof that they ascend, and JSON as plain numbers:
-- the crates of the store on disk at concrete values. No call fails.
use enigma_relay.Base.{
  ◌≡◌, refl, sym, ap, subst, true, false, Option, [], ◌∷◌, ◌++◌, map, arith, All, Bool-cases, inl,
  inr, length, take, drop,
}
use enigma_relay.Base.Eq.{◌==◌, nat_eq, list_eq}
use enigma_relay.Base.Sort.{text_leb}
use enigma_relay.Base.Map
use enigma_relay.Base.Map.{lookup}
use enigma_relay.Error.{Result, ok, err}
use enigma_relay.Store.{QueueMessage}
use enigma_relay.StoreSled.Db.{
  Bytes, Entries, Attempt, done, failed, with_prefix, insert_key, Before, Ascending, Yields, Sled,
  Transacted, Json,
}
use enigma_relay.StoreSled.Entries.{text_leb_trans}
use enigma_relay.StoreSled.State.{QuotaValue}

text_leb_antisym : (s t : Bytes) → text_leb s t ≡ true → text_leb t s ≡ true → s ≡ t
unfolding text_leb
text_leb_antisym [] [] h h' = refl
text_leb_antisym [] (d ∷ t) h h' = cc
text_leb_antisym (c ∷ s) [] h h' = cc
text_leb_antisym (c ∷ s) (d ∷ t) h h' = ground (arith, text_leb_antisym s t)

text_leb_total : (s t : Bytes) → text_leb s t ≡ false → text_leb t s ≡ true
unfolding text_leb
text_leb_total [] t h = cc
text_leb_total (c ∷ s) [] h = refl
text_leb_total (c ∷ s) (d ∷ t) h = ground (arith, text_leb_total s t)

Before-insert_key :
    (j k v : Bytes) (m : Entries)
    → All (Before j) m
    → Before j (k, v)
    → All (Before j) (insert_key k v m)
unfolding insert_key
Before-insert_key j k v [] h b = (b, tt)
Before-insert_key j k v ((i, w) ∷ m) h b = ground (arith, Before-insert_key j k v m)

Before-later : (k j w : Bytes) (m : Entries) → Before k (j, w) → All (Before j) m → All (Before k) m
Before-later k j w [] b h = tt
Before-later k j w ((i, u) ∷ m) b h = (
  (
    text_leb_trans k j i b.0 h.0.0,
    ground (arith, list_eq.same_iff i k, list_eq.same_iff j k, text_leb_antisym k j),
  ),
  Before-later k j w m b h.1,
)

pub insert_key-Ascending : (k v : Bytes) (m : Entries) → Ascending m → Ascending (insert_key k v m)
unfolding insert_key
insert_key-Ascending k v [] a = (tt, tt)
insert_key-Ascending k v ((j, w) ∷ m) a =
    let ih = insert_key-Ascending k v m a.1 in
    elim (Bool-cases (j == k)) [
      | inl same ↦ rw same (subst (λ x. All (Before x) m) ((list_eq.same_iff j k).0 same) a.0, a.1)
      | inr other ↦ elim (Bool-cases (text_leb k j)) [
        | inl first ↦
            rw (other, first) (((first, other), Before-later k j w m (first, other) a.0), a)
        | inr later ↦
            let apart : (k == j) ≡ false =
              ground (arith, other, list_eq.same_iff j k, list_eq.same_iff k j) in
            rw (other, later) (Before-insert_key j k v m a.0 (text_leb_total k j later, apart), ih)
      ]
    ]

Before-remove : (j k : Bytes) (m : Entries) → All (Before j) m → All (Before j) (Map.remove k m)
unfolding Map.remove
Before-remove j k [] h = tt
Before-remove j k ((i, w) ∷ m) h = ground (arith, Before-remove j k m)

pub remove-Ascending : (k : Bytes) (m : Entries) → Ascending m → Ascending (Map.remove k m)
unfolding Map.remove
remove-Ascending k [] a = tt
remove-Ascending k ((j, w) ∷ m) a =
    let ih = remove-Ascending k m a.1 in
    elim (Bool-cases (j == k)) [
      | inl same ↦ rw same ih
      | inr other ↦ rw other (Before-remove j k m a.0, ih)
    ]

abbrev pub Toy : Type 0
Toy = (m : Entries) × Ascending m

pub Yields-map : (m : Entries) → Yields (map done m) m
Yields-map [] = tt
Yields-map (e ∷ m) = (refl, Yields-map m)

pub got : (a b : Option Bytes) → done a ≡ done b → b ≡ a
got a b e = cc

-- The entries of the tree that a call returns.
abbrev pub entries_of : Attempt Toy → Entries
entries_of (done t) = t.0
entries_of (failed text) = []

-- A commit that never fails.
abbrev pub committed : {S A : Type 0} → S → Result A × S → Result A × S
committed s (ok a, s') = (ok a, s')
committed s (err e, s') = (err e, s)

pub committed-Transacted :
    {S A : Type 0} (s : S) (body_end : Result A × S)
    → Transacted (λ text. ⊥) s body_end (committed s body_end)
committed-Transacted s (ok a, s') = inl (a, refl, refl)
committed-Transacted s (err e, s') = inr (inl (e, refl, refl))

abbrev pub disk : Sled
disk = record {
  Tree = Toy;
  Db = Unit;
  entries = λ t. t.0;
  open_db = λ path. done tt;
  open_tree = λ name db. done ([], tt);
  get = λ key t. done (lookup key t.0);
  insert = λ key value t. done (insert_key key value t.0, insert_key-Ascending key value t.0 t.1);
  remove = λ key t. done (Map.remove key t.0, remove-Ascending key t.0 t.1);
  iter = λ t. map done t.0;
  scan_prefix = λ prefix t. map done (with_prefix prefix t.0);
  flush_async = λ t. done tt;
  transaction = λ trees body s. committed s (body s);
  CommitFails = λ text. ⊥;
  ascending = λ t. t.1;
  get-done = λ key t found e. got (lookup key t.0) found e;
  insert-done = λ key value t t' e. ap entries_of (sym e);
  remove-done = λ key t t' e. ap entries_of (sym e);
  transaction-Transacted = λ trees body s. committed-Transacted s (body s);
  iter-Yields = λ t. Yields-map t.0;
  scan_prefix-Yields = λ prefix t. Yields-map (with_prefix prefix t.0);
}

abbrev pub quota_json : Json QuotaValue
quota_json = record {
  to_vec = λ q. done (q.bytes ∷ q.count ∷ []);
  from_slice = quota_from;
  round_trip = λ q. (q.bytes ∷ q.count ∷ [], refl, refl);
}
  where
    quota_from : Bytes → Attempt QuotaValue
    quota_from (bytes ∷ count ∷ []) = done (record { bytes = bytes; count = count })
    quota_from other = failed "quota"

take-length-append : (s t : Bytes) → take (length s) (s ++ t) ≡ s
take-length-append [] t = refl
take-length-append (c ∷ s) t = ap (◌∷◌ c) (take-length-append s t)

drop-length-append : (s t : Bytes) → drop (length s) (s ++ t) ≡ t
drop-length-append [] t = refl
drop-length-append (c ∷ s) t = drop-length-append s t

-- The numbers of a message, the lengths of two of its texts, and its texts.
abbrev pub message_bytes : QueueMessage → Bytes
message_bytes m =
    m.message_id
    ∷ m.meta.total_len
    ∷ m.meta.chunk_index
    ∷ m.meta.chunk_count
    ∷ m.meta.sent_ms
    ∷ m.arrival_ms
    ∷ m.deadline_ms
    ∷ m.payload_bytes
    ∷ m.arrival_seq
    ∷ length m.recipient
    ∷ length m.ciphertext_b64
    ∷ (m.recipient ++ (m.ciphertext_b64 ++ m.meta.kind))

abbrev pub message_from : Bytes → Attempt QueueMessage
message_from
      (id ∷ total ∷ index ∷ count ∷ sent ∷ arrival ∷ deadline ∷ payload ∷ seq ∷ r ∷ c ∷ rest) =
    done (record {
      recipient = take r rest;
      message_id = id;
      ciphertext_b64 = take c (drop r rest);
      meta = record {
        kind = drop c (drop r rest);
        total_len = total;
        chunk_index = index;
        chunk_count = count;
        sent_ms = sent;
      };
      arrival_ms = arrival;
      deadline_ms = deadline;
      payload_bytes = payload;
      arrival_seq = seq;
    })
message_from other = failed "message"

pub message_from-message_bytes : (m : QueueMessage) → message_from (message_bytes m) ≡ done m
message_from-message_bytes m =
    let rest = m.ciphertext_b64 ++ m.meta.kind in
    rw
      (
        take-length-append m.recipient rest,
        drop-length-append m.recipient rest,
        take-length-append m.ciphertext_b64 m.meta.kind,
        drop-length-append m.ciphertext_b64 m.meta.kind,
      )
      refl

abbrev pub message_json : Json QueueMessage
message_json = record {
  to_vec = λ m. done (message_bytes m);
  from_slice = message_from;
  round_trip = λ m. (message_bytes m, refl, message_from-message_bytes m);
}
