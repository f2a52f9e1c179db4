-- ===== src/StoreSled/Db.antt =====
-- What src/store_sled.rs calls of the crates sled and serde_json, as interfaces. Each call may fail
-- with a text. What a tree of sled holds is seen as its entries in the order of their keys; the laws
-- are what the documentation of sled says of a call that does not fail.
use enigma_relay.Base.{
  ◌⊎◌, ◌≡◌, Bool, true, false, ◌&&◌, Option, List, [], ◌∷◌, ℕ, eqb, if◌then◌else◌, String, All,
}
use enigma_relay.Base.Eq.{◌==◌, nat_eq, list_eq}
use enigma_relay.Base.Sort.{text_leb}
use enigma_relay.Base.Map
use enigma_relay.Base.Map.{lookup}
use enigma_relay.Error.{EnigmaRelayError, Result, ok, err, from_serde_json, from_sled}
pub use enigma_relay.Error.{Attempt, done, failed}

abbrev pub Bytes : Type 0
Bytes = List ℕ

abbrev pub Entries : Type 0
Entries = List (Bytes × Bytes)

-- `?` on an error of serde_json, and on one of sled.
abbrev pub or_internal {ℓ} : {A : Type ℓ} → Attempt A → Result A
or_internal (done a) = ok a
or_internal (failed text) = err (from_serde_json text)

abbrev pub or_storage {ℓ} : {A : Type ℓ} → Attempt A → Result A
or_storage (done a) = ok a
or_storage (failed text) = err (from_sled text)

-- `starts_with` on bytes
abbrev pub starts_with : Bytes → Bytes → Bool
starts_with [] key = true
starts_with (b ∷ prefix) [] = false
starts_with (b ∷ prefix) (c ∷ key) = eqb b c && starts_with prefix key

-- The entries whose keys have a prefix.
unfoldable pub with_prefix : Bytes → Entries → Entries
with_prefix prefix [] = []
with_prefix prefix ((key, value) ∷ entries) =
    let rest = with_prefix prefix entries in
    if starts_with prefix key then (key, value) ∷ rest else rest

-- The write of a key, in the order of the bytes.
unfoldable pub insert_key : Bytes → Bytes → Entries → Entries
insert_key key value [] = (key, value) ∷ []
insert_key key value ((other, old) ∷ entries) =
    let later = insert_key key value entries in
    if other == key
    then (key, value) ∷ entries
    else if text_leb key other
    then (key, value) ∷ (other, old) ∷ entries
    else (other, old) ∷ later

-- A key stands before that of an entry.
abbrev pub Before : Bytes → Bytes × Bytes → Type 0
Before key entry = (text_leb key entry.0 ≡ true) × ((entry.0 == key) ≡ false)

abbrev pub Ascending : Entries → Type 0
Ascending [] = Unit
Ascending ((key, value) ∷ entries) = All (Before key) entries × Ascending entries

-- What an iterator yields: entries in order, up to a failure if there is one.
abbrev pub Yields : List (Attempt (Bytes × Bytes)) → Entries → Type 0
Yields [] [] = Unit
Yields [] (entry ∷ entries) = ⊥
Yields (failed text ∷ attempts) entries = Unit
Yields (done item ∷ attempts) [] = ⊥
Yields (done item ∷ attempts) (entry ∷ entries) = (item ≡ entry) × Yields attempts entries

-- How a transaction ends that runs a body from a state: with the writes of the body, or with none of
-- them, since the body ends in an error, or since the commit fails. (A conflict, after which sled
-- runs the body again, leaves nothing behind.)
abbrev pub Transacted :
    {S A : Type 0} → (String → Type 0) → S → Result A × S → Result A × S → Type 0
Transacted {S} {A} commit_fails s body_end end =
    ((a : A) × (body_end.0 ≡ ok a) × (end ≡ body_end))
    ⊎ ((e : EnigmaRelayError) × (body_end.0 ≡ err e) × (end ≡ (err e, s)))
    ⊎ ((text : String) × commit_fails text × (end ≡ (err (from_sled text), s)))

-- `sled::Db` and `sled::Tree`. A call that writes returns the tree after it.
pub record Sled : Type 1 where
  pub Tree : Type 0
  pub Db : Type 0
  pub entries : Tree → Entries
  pub open_db : List ℕ → Attempt Db
  pub open_tree : String → Db → Attempt Tree
  pub get : Bytes → Tree → Attempt (Option Bytes)
  pub insert : Bytes → Bytes → Tree → Attempt Tree
  pub remove : Bytes → Tree → Attempt Tree
  pub iter : Tree → List (Attempt (Bytes × Bytes))
  pub scan_prefix : Bytes → Tree → List (Attempt (Bytes × Bytes))
  pub flush_async : Tree → Attempt (Unit {0})
  pub transaction :
      {S : Type 0} {A : Type 0} → (S → List Tree) → (S → Result A × S) → S → Result A × S
  pub CommitFails : String → Type 0
  pub ascending : (t : Tree) → Ascending (entries t)
  pub get-done :
      (key : Bytes) (t : Tree) (found : Option Bytes)
      → get key t ≡ done found
      → found ≡ lookup key (entries t)
  pub insert-done :
      (key value : Bytes) (t t' : Tree)
      → insert key value t ≡ done t'
      → entries t' ≡ insert_key key value (entries t)
  pub remove-done :
      (key : Bytes) (t t' : Tree) → remove key t ≡ done t' → entries t' ≡ Map.remove key (entries t)
  pub transaction-Transacted :
      {S : Type 0} {A : Type 0} (trees : S → List Tree) (body : S → Result A × S) (s : S)
      → Transacted CommitFails s (body s) (transaction trees body s)
  pub iter-Yields : (t : Tree) → Yields (iter t) (entries t)
  pub scan_prefix-Yields :
      (prefix : Bytes) (t : Tree) → Yields (scan_prefix prefix t) (with_prefix prefix (entries t))

-- The JSON of a type, in bytes: what is written is read back.
pub record Json (A : Type 0) : Type 0 where
  pub to_vec : A → Attempt Bytes
  pub from_slice : Bytes → Attempt A
  pub round_trip : (a : A) → (bytes : Bytes) × (to_vec a ≡ done bytes) × (from_slice bytes ≡ done a)
