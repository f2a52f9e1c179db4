-- ===== src/StoreSled/Logic.antt =====
-- How a run of calls on the trees of src/store_sled.rs ends: a rule for each call, by which a
-- property of the end of a body is shown from its last call back to its first.
pub mod Calls
use enigma_relay.Base.{
  ◌≡◌, refl, ap, ◌∙◌, Bool, true, false, Option, List, [], ◌∷◌, ◌⊎◌, inl, inr, String,
}
use enigma_relay.Base.Eq.{nat_eq, list_eq}
use enigma_relay.Base.Map
use enigma_relay.Base.Map.{lookup}
use enigma_relay.Error.{EnigmaRelayError, Result, ok, err, storage_error, reject}
use enigma_relay.Error.Action.{Action, ◌>>=◌, lift}
use enigma_relay.StoreSled.Db.{
  Bytes, Entries, Attempt, done, failed, or_storage, insert_key, Sled, Transacted,
}
use enigma_relay.StoreSled.State.{SledStore}
use enigma_relay.StoreSled.Trees
use enigma_relay.StoreSled.Trees.{Column, tree, trees, with_tree, written, decoded, transaction}

-- What the trees hold.
pub record View : Type 0 where
  pub messages : Entries
  pub index : Entries
  pub quota : Entries
  pub seq : Entries

abbrev pub at_column : Column → View → Entries
at_column Column.messages v = v.messages
at_column Column.index v = v.index
at_column Column.quota v = v.quota
at_column Column.seq v = v.seq

abbrev pub put : Column → Entries → View → View
put Column.messages m v = record v { messages = m }
put Column.index m v = record v { index = m }
put Column.quota m v = record v { quota = m }
put Column.seq m v = record v { seq = m }

-- A write of a key, and its removal.
abbrev pub write : Column → Bytes → Bytes → View → View
write c key value v = put c (insert_key key value (at_column c v)) v

abbrev pub erase : Column → Bytes → View → View
erase c key v = put c (Map.remove key (at_column c v)) v

-- A failure stands among what an iterator yields.
abbrev pub Has : String → List (Attempt (Bytes × Bytes)) → Type 0
Has text [] = ⊥
Has text (done item ∷ attempts) = Has text attempts
Has text (failed other ∷ attempts) = (other ≡ text) ⊎ Has text attempts

-- Some call of sled fails with the text.
pub data Fails (sled : Sled) (text : String) : Type 0 where
  at_get : (key : Bytes) (t : sled.Tree) → sled.get key t ≡ failed text → Fails sled text
  at_insert :
      (key value : Bytes) (t : sled.Tree) → sled.insert key value t ≡ failed text → Fails sled text
  at_remove : (key : Bytes) (t : sled.Tree) → sled.remove key t ≡ failed text → Fails sled text
  at_iter : (t : sled.Tree) → Has text (sled.iter t) → Fails sled text
  at_scan :
      (prefix : Bytes) (t : sled.Tree) → Has text (sled.scan_prefix prefix t) → Fails sled text
  at_flush : (t : sled.Tree) → sled.flush_async t ≡ failed text → Fails sled text
  at_commit : sled.CommitFails text → Fails sled text

-- The error of a call of sled that fails.
abbrev pub IsStorage : Sled → EnigmaRelayError → Type 0
IsStorage sled e = (text : String) × (e ≡ storage_error text) × Fails sled text

module _ (sled : Sled) where
  abbrev pub view : SledStore sled → View
  view store = record {
    messages = sled.entries store.messages;
    index = sled.entries store.index;
    quota = sled.entries store.quota;
    seq = sled.entries store.seq;
  }

  -- What holds of the result and of the trees at the end, and what of an error and of the trees.
  abbrev pub Ends {ℓ} :
      {A : Type ℓ}
      → (A → View → Type 0)
      → (EnigmaRelayError → View → Type 0)
      → Result A × SledStore sled
      → Type 0
  Ends Q E (ok a, store) = Q a (view store)
  Ends Q E (err e, store) = E e (view store)

  pub Ends-weaken {ℓ} :
      {A : Type ℓ} (Q Q' : A → View → Type 0) (E E' : EnigmaRelayError → View → Type 0)
      → ((a : A) (v : View) → Q a v → Q' a v)
      → ((e : EnigmaRelayError) (v : View) → E e v → E' e v)
      → (p : Result A × SledStore sled) → Ends Q E p
      → Ends Q' E' p
  Ends-weaken Q Q' E E' f g (ok a, store) h = f a (view store) h
  Ends-weaken Q Q' E E' f g (err e, store) h = g e (view store) h

  pub entries-tree :
      (c : Column) (store : SledStore sled)
      → sled.entries (tree sled c store) ≡ at_column c (view store)
  entries-tree Column.messages store = refl
  entries-tree Column.index store = refl
  entries-tree Column.quota store = refl
  entries-tree Column.seq store = refl

  pub view-with_tree :
      (c : Column) (t : sled.Tree) (store : SledStore sled)
      → view (with_tree sled c t store) ≡ put c (sled.entries t) (view store)
  view-with_tree Column.messages t store = refl
  view-with_tree Column.index t store = refl
  view-with_tree Column.quota t store = refl
  view-with_tree Column.seq t store = refl

  module _ {ℓ κ} {A : Type ℓ} {B : Type κ} (P : A → View → Type 0) (Q : B → View → Type 0)
      (E E' : EnigmaRelayError → View → Type 0) (k : A → Action (SledStore sled) B)
      (next : (a : A) (store : SledStore sled) → P a (view store) → Ends Q E' (k a store))
      (pass : (e : EnigmaRelayError) (v : View) → E e v → E' e v) where
    Ends-pair : (p : Result A × SledStore sled) → Ends P E p → Ends Q E' (((λ _. p) >>= k) p.1)
    unfolding ◌>>=◌
    Ends-pair (ok a, store) h = next a store h
    Ends-pair (err e, store) h = pass e (view store) h

    -- One body after another.
    pub Ends-then :
        (m : Action (SledStore sled) A) (store : SledStore sled)
        → Ends P E (m store)
        → Ends Q E' ((m >>= k) store)
    unfolding ◌>>=◌
    Ends-then m store h = Ends-pair (m store) h

  module _ {κ} {B : Type κ} (Q : B → View → Type 0) (E : EnigmaRelayError → View → Type 0) where
    pub decoded_then {ℓ} :
        {A : Type ℓ} (attempt : Attempt A) (a : A) (k : A → Action (SledStore sled) B)
        (store : SledStore sled)
        → attempt ≡ done a
        → Ends Q E (k a store)
        → Ends Q E ((decoded sled attempt >>= k) store)
    unfolding ◌>>=◌
    decoded_then attempt a k store e h = rw e h

    pub lifted_then {ℓ} :
        {A : Type ℓ} (a : A) (k : A → Action (SledStore sled) B) (store : SledStore sled)
        → Ends Q E (k a store)
        → Ends Q E ((lift (ok a) >>= k) store)
    unfolding ◌>>=◌
    lifted_then a k store h = h

    pub refused_then {ℓ} :
        {A : Type ℓ} (r : Result A) (e : EnigmaRelayError) (k : A → Action (SledStore sled) B)
        (store : SledStore sled)
        → r ≡ err e
        → E e (view store)
        → Ends Q E ((lift r >>= k) store)
    unfolding ◌>>=◌
    refused_then r e k store refused h = rw refused h

    pub Ends-assoc {ℓ μ} :
        {A : Type ℓ} {C : Type μ} (m : Action (SledStore sled) A)
        (f : A → Action (SledStore sled) C) (k : C → Action (SledStore sled) B)
        (store : SledStore sled)
        → Ends Q E ((m >>= λ a. f a >>= k) store)
        → Ends Q E (((m >>= f) >>= k) store)
    unfolding ◌>>=◌
    Ends-assoc m f k store h = assoc (m store) h
      where
        assoc :
            (p : Result _ × SledStore sled)
            → Ends Q E (((λ _. p) >>= λ a. f a >>= k) store)
            → Ends Q E ((((λ _. p) >>= f) >>= k) store)
        assoc (ok a, store') h = h
        assoc (err e, store') h = h

    pub reject_then :
        (test : Bool) (e : EnigmaRelayError) (k : Unit {0} → Action (SledStore sled) B)
        (store : SledStore sled)
        → (test ≡ true → E e (view store))
        → (test ≡ false → Ends Q E (k tt store))
        → Ends Q E ((lift (reject test e) >>= k) store)
    unfolding ◌>>=◌
    reject_then true e k store refused kept = refused refl
    reject_then false e k store refused kept = kept refl
