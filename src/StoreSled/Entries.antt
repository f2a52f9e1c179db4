-- ===== src/StoreSled/Entries.antt =====
-- The entries of a tree: what writes and removals do to lookups and to the entries with a prefix.
use enigma_relay.Base.{
  ◌≡◌, ◌≢◌, refl, true, false, none, some, [], ◌∷◌, ◌++◌, arith, if◌then◌else◌, All,
}
use enigma_relay.Base.Eq.{◌==◌, nat_eq, list_eq}
use enigma_relay.Base.Sort.{text_leb}
use enigma_relay.Base.Map.{lookup, remove, lookup-remove}
use enigma_relay.StoreSled.Db.{
  Bytes, Entries, starts_with, with_prefix, insert_key, Before, Ascending,
}

pub text_leb_refl : (s : Bytes) → text_leb s s ≡ true
unfolding text_leb
text_leb_refl [] = refl
text_leb_refl (b ∷ s) = ground (arith, text_leb_refl s)

pub text_leb_trans :
    (r s t : Bytes) → text_leb r s ≡ true → text_leb s t ≡ true → text_leb r t ≡ true
unfolding text_leb
text_leb_trans [] s t h h' = refl
text_leb_trans (b ∷ r) [] t h h' = cc
text_leb_trans (b ∷ r) (c ∷ s) [] h h' = cc
text_leb_trans (b ∷ r) (c ∷ s) (d ∷ t) h h' = ground (arith, text_leb_trans r s t)

pub lookup-insert_key :
    (k j v : Bytes) (m : Entries)
    → lookup j (insert_key k v m) ≡ (if k == j then some v else lookup j m)
unfolding lookup insert_key
lookup-insert_key k j v [] = refl
lookup-insert_key k j v ((i, w) ∷ m) = ground (
  arith,
  lookup-insert_key k j v m,
  list_eq.same_iff k j,
  list_eq.same_iff i k,
  list_eq.same_iff i j,
)

pub lookup-insert_key_self : (k v : Bytes) (m : Entries) → lookup k (insert_key k v m) ≡ some v
lookup-insert_key_self k v m = rw (lookup-insert_key, (list_eq.same_iff k k).1 refl)

pub lookup-insert_key_other :
    (k j v : Bytes) (m : Entries) → k ≢ j → lookup j (insert_key k v m) ≡ lookup j m
lookup-insert_key_other k j v m h = ground (arith, lookup-insert_key k j v m, list_eq.same_iff k j)

pub lookup-remove_self : (k : Bytes) (m : Entries) → lookup k (remove k m) ≡ none
lookup-remove_self k m = ground (arith, lookup-remove k k m, list_eq.same_iff k k)

pub lookup-remove_other : (k j : Bytes) (m : Entries) → k ≢ j → lookup j (remove k m) ≡ lookup j m
lookup-remove_other k j m h = ground (arith, lookup-remove k j m, list_eq.same_iff k j)

-- A key stands after all those of some entries.
abbrev pub Over : Bytes → Entries → Type 0
Over k = All (λ e. text_leb k e.0 ≡ false)

module _ (prefix k : Bytes) where
  pub lookup-with_prefix :
      (m : Entries) → starts_with prefix k ≡ true → lookup k (with_prefix prefix m) ≡ lookup k m
  unfolding lookup with_prefix
  lookup-with_prefix [] h = refl
  lookup-with_prefix ((i, w) ∷ m) h = ground (arith, lookup-with_prefix m, list_eq.same_iff i k)

  pub with_prefix-remove :
      (m : Entries) → with_prefix prefix (remove k m) ≡ remove k (with_prefix prefix m)
  unfolding remove with_prefix
  with_prefix-remove [] = refl
  with_prefix-remove ((i, w) ∷ m) = ground (arith, with_prefix-remove m)

  pub with_prefix-remove_other :
      (m : Entries)
      → starts_with prefix k ≡ false
      → with_prefix prefix (remove k m) ≡ with_prefix prefix m
  unfolding remove with_prefix
  with_prefix-remove_other [] h = refl
  with_prefix-remove_other ((i, w) ∷ m) h =
      ground (arith, with_prefix-remove_other m, list_eq.same_iff i k)

  -- A write of a key without the prefix.
  pub with_prefix-insert_key_other :
      (v : Bytes) (m : Entries)
      → starts_with prefix k ≡ false
      → with_prefix prefix (insert_key k v m) ≡ with_prefix prefix m
  unfolding insert_key with_prefix
  with_prefix-insert_key_other v [] h = ground arith
  with_prefix-insert_key_other v ((i, w) ∷ m) h =
      ground (arith, with_prefix-insert_key_other v m, list_eq.same_iff i k)

  none_after :
      (j : Bytes) (m : Entries)
      → text_leb k j ≡ true
      → All (Before j) m
      → Over k (with_prefix prefix m)
      → with_prefix prefix m ≡ []
  unfolding with_prefix
  none_after j [] h before over = refl
  none_after j ((i, w) ∷ m) h before over = ground (arith, text_leb_trans k j i, none_after j m)

  -- A write of a key that stands after all those with the prefix.
  pub with_prefix-insert_key_end :
      (v : Bytes) (m : Entries)
      → starts_with prefix k ≡ true
      → Ascending m
      → Over k (with_prefix prefix m)
      → with_prefix prefix (insert_key k v m) ≡ with_prefix prefix m ++ (k, v) ∷ []
  unfolding insert_key with_prefix
  with_prefix-insert_key_end v [] h a over = ground arith
  with_prefix-insert_key_end v ((i, w) ∷ m) h a over =
      ground (
        arith,
        with_prefix-insert_key_end v m,
        list_eq.same_iff i k,
        none_after i m,
        text_leb_refl k,
      )
