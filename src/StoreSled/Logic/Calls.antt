-- ===== src/StoreSled/Logic/Calls.antt =====
-- The rules for the calls on the trees of src/store_sled.rs, and for a transaction.
use enigma_relay.Base.{◌≡◌, refl, ap, ◌∙◌, Option, List, inl, inr, String}
use enigma_relay.Base.Eq.{nat_eq, list_eq}
use enigma_relay.Base.Map
use enigma_relay.Base.Map.{lookup}
use enigma_relay.Error.{EnigmaRelayError, Result, ok, err, storage_error}
use enigma_relay.Error.Action.{Action, ◌>>=◌, lift}
use enigma_relay.StoreSled.Db.{
  Bytes, Entries, Attempt, done, failed, or_storage, insert_key, Sled, Transacted,
}
use enigma_relay.StoreSled.State.{SledStore}
use enigma_relay.StoreSled.Trees
use enigma_relay.StoreSled.Trees.{Column, tree, trees, with_tree, written, decoded, transaction}
use enigma_relay.StoreSled.Logic.{
  View, at_column, put, write, erase, Fails, at_get, at_insert, at_remove, at_flush, at_commit,
  view, Ends, entries-tree, view-with_tree,
}

module _ (sled : Sled) where
  module _ {κ} {B : Type κ} (Q : B → View → Type 0) (E : EnigmaRelayError → View → Type 0)
      (store : SledStore sled)
      (storage : (text : String) → Fails sled text → E (storage_error text) (view sled store)) where
    attempt_then {ℓ} :
        {A : Type ℓ} (attempt : Attempt A) (k : A → Action (SledStore sled) B)
        → ((text : String) → attempt ≡ failed text → Fails sled text)
        → ((a : A) → attempt ≡ done a → Ends sled Q E (k a store))
        → Ends sled Q E ((lift (or_storage attempt) >>= k) store)
    unfolding ◌>>=◌
    attempt_then (done a) k fails next = next a refl
    attempt_then (failed text) k fails next = storage text (fails text refl)

    pub get_here_then :
        (c : Column) (key : Bytes) (k : Option Bytes → Action (SledStore sled) B) (v : View)
        → view sled store ≡ v
        → Ends sled Q E (k (lookup key (at_column c v)) store)
        → Ends sled Q E ((Trees.get sled c key >>= k) store)
    unfolding Trees.get ◌>>=◌
    get_here_then c key k v e h =
        let m = tree sled c store in
        attempt_then (sled.get key m) k (λ text e. at_get key m e)
          (λ found got.
            let same : found ≡ lookup key (at_column c v) =
              sled.get-done key m found got
              ∙ ap (lookup key) (entries-tree sled c store)
              ∙ ap (λ x. lookup key (at_column c x)) e in
            rw same h)

    pub flush_then :
        (c : Column) (k : Unit {0} → Action (SledStore sled) B)
        → Ends sled Q E (k tt store)
        → Ends sled Q E ((Trees.flush sled c >>= k) store)
    unfolding Trees.flush ◌>>=◌
    flush_then c k h =
        attempt_then (sled.flush_async (tree sled c store)) k
          (λ text e. at_flush (tree sled c store) e) (λ done e. h)

  module _ {κ} {B : Type κ} (Q : B → View → Type 0) (E : EnigmaRelayError → View → Type 0)
      (storage : (text : String) (v : View) → Fails sled text → E (storage_error text) v) where
    pub get_then :
        (c : Column) (key : Bytes) (k : Option Bytes → Action (SledStore sled) B)
        (store : SledStore sled) (v : View)
        → view sled store ≡ v
        → Ends sled Q E (k (lookup key (at_column c v)) store)
        → Ends sled Q E ((Trees.get sled c key >>= k) store)
    get_then c key k store v e h =
        get_here_then Q E store (λ text. storage text (view sled store)) c key k v e h

    written_then :
        (c : Column) (attempt : Attempt sled.Tree) (k : Unit {0} → Action (SledStore sled) B)
        (store : SledStore sled) (after : Entries)
        → ((text : String) → attempt ≡ failed text → Fails sled text)
        → ((t : sled.Tree) → attempt ≡ done t → sled.entries t ≡ after)
        → ((store' : SledStore sled)
            → view sled store' ≡ put c after (view sled store)
            → Ends sled Q E (k tt store'))
        → Ends sled Q E ((written sled c attempt >>= k) store)
    unfolding ◌>>=◌
    written_then c (done t) k store after fails law next =
        next (with_tree sled c t store)
          (view-with_tree sled c t store ∙ ap (λ m. put c m (view sled store)) (law t refl))
    written_then c (failed text) k store after fails law next =
        storage text (view sled store) (fails text refl)

    pub insert_then :
        (c : Column) (key value : Bytes) (k : Unit {0} → Action (SledStore sled) B)
        (store : SledStore sled) (v : View)
        → view sled store ≡ v
        → ((store' : SledStore sled)
            → view sled store' ≡ write c key value v
            → Ends sled Q E (k tt store'))
        → Ends sled Q E ((Trees.insert sled c key value >>= k) store)
    unfolding Trees.insert ◌>>=◌
    insert_then c key value k store v e next =
        let m = tree sled c store in
        written_then c (sled.insert key value m) k store
          (insert_key key value (at_column c (view sled store))) (λ text e. at_insert key value m e)
          (λ t done.
            sled.insert-done key value m t done
            ∙ ap (insert_key key value) (entries-tree sled c store))
          (λ store' e'. next store' (e' ∙ ap (write c key value) e))

    pub remove_then :
        (c : Column) (key : Bytes) (k : Unit {0} → Action (SledStore sled) B)
        (store : SledStore sled) (v : View)
        → view sled store ≡ v
        → ((store' : SledStore sled)
            → view sled store' ≡ erase c key v
            → Ends sled Q E (k tt store'))
        → Ends sled Q E ((Trees.remove sled c key >>= k) store)
    unfolding Trees.remove ◌>>=◌
    remove_then c key k store v e next =
        let m = tree sled c store in
        written_then c (sled.remove key m) k store (Map.remove key (at_column c (view sled store)))
          (λ text e. at_remove key m e)
          (λ t done.
            sled.remove-done key m t done ∙ ap (Map.remove key) (entries-tree sled c store))
          (λ store' e'. next store' (e' ∙ ap (erase c key) e))

  -- A transaction that is not committed leaves the trees as they were.
  module _ {A : Type 0} (Q : A → View → Type 0) (E : EnigmaRelayError → View → Type 0)
      (store : SledStore sled)
      (storage : (text : String) → Fails sled text → E (storage_error text) (view sled store)) where
    Transacted-Ends :
        (body_end end : Result A × SledStore sled)
        → Transacted sled.CommitFails store body_end end
        → Ends sled Q (λ e v. E e (view sled store)) body_end
        → Ends sled Q E end
    Transacted-Ends (ok a, s) end (inl (b, same, kept)) h = rw kept h
    Transacted-Ends (err e, s) end (inl (b, same, kept)) h = absurd (cc)
    Transacted-Ends (ok a, s) end (inr (inl (e, same, dropped))) h = absurd (cc)
    Transacted-Ends (err e, s) end (inr (inl (e', same, dropped))) h =
        let here : e' ≡ e = cc in rw (dropped, here) h
    Transacted-Ends body_end end (inr (inr (text, fails, dropped))) h =
        rw dropped (storage text (at_commit fails))

    pub transaction-Ends :
        (columns : List Column) (body : Action (SledStore sled) A)
        → Ends sled Q (λ e v. E e (view sled store)) (body store)
        → Ends sled Q E (transaction sled columns body store)
    unfolding transaction
    transaction-Ends columns body h =
        Transacted-Ends (body store) _ (sled.transaction-Transacted (trees sled columns) body store)
          h
