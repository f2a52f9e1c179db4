-- ===== src/StoreSled/Keys/Distinct.antt =====
-- The keys of the index of src/store_sled.rs do not collide.
use enigma_relay.Base.{
  ℕ, ◌^◌, ◌<◌, ◌≡◌, refl, sym, ap, ◌∙◌, [], ◌∷◌, ◌++◌, arith, length, drop, inl, All, All-append,
  append_assoc, length-append,
}
use enigma_relay.Base.Text.{Text, codes}
use enigma_relay.Base.Decimal.{
  format_010, parse_u64, parse_u64-format_010, length-format_010, format_010-IsDigit,
}
use enigma_relay.Base.Utf8.{as_bytes, as_bytes-append, as_bytes_injective, IsScalar}
use enigma_relay.Model.{Uuid}
use enigma_relay.StoreSled.Keys.Reads.{IsDigit-IsScalar, as_bytes-colon}
use enigma_relay.StoreSled.Keys.{Hyphenated, index_key, quota_key, seq_key}

-- Two texts that end in parts of the same length are equal part by part.
append_injective :
    (s s' t t' : Text) → length t ≡ length t' → s ++ t ≡ s' ++ t' → (s ≡ s') × (t ≡ t')
append_injective [] [] t t' l e = (refl, e)
append_injective (x ∷ s) (y ∷ s') t t' l e =
    let (first, rest) = cons_parts e in
    let (same, ends) = append_injective s s' t t' l rest in (cc, ends)
  where
    cons_parts : x ∷ (s ++ t) ≡ y ∷ (s' ++ t') → (x ≡ y) × (s ++ t ≡ s' ++ t')
    cons_parts e = (cc, cc)
append_injective [] (y ∷ s') t t' l e = absurd (omega (arith, ap length e, length-append s' t'))
append_injective (x ∷ s) [] t t' l e = absurd (omega (arith, ap length e, length-append s t))

module _ (hyphenated : Hyphenated) where
  -- The end of a key, and the key, as text.
  abbrev ending : Uuid → ℕ → Text
  ending id chunk = b':' ∷ (hyphenated.text id ++ b':' ∷ format_010 chunk)

  abbrev index_text : Text → Uuid → ℕ → Text
  index_text recipient id chunk = codes "idx:" ++ (recipient ++ ending id chunk)

  index_key-index_text :
      (recipient : Text) (id : Uuid) (chunk : ℕ)
      → index_key hyphenated recipient id chunk ≡ as_bytes (index_text recipient id chunk)
  unfolding index_key as_bytes
  index_key-index_text recipient id chunk = simp (as_bytes-append, append_assoc, as_bytes-colon)

  index_text-IsScalar :
      (recipient : Text) (id : Uuid) (chunk : ℕ)
      → All IsScalar recipient
      → All IsScalar (index_text recipient id chunk)
  index_text-IsScalar recipient id chunk h =
      let digits = IsDigit-IsScalar (format_010 chunk) (format_010-IsDigit chunk) in
      let colon : IsScalar b':' = inl (omega arith) in
      let end_scalar : All IsScalar (ending id chunk) = (
        colon,
        All-append IsScalar (hyphenated.text id) (b':' ∷ format_010 chunk) (hyphenated.is_scalar id)
            (colon, digits),
      ) in
      All-append IsScalar (codes "idx:") (recipient ++ ending id chunk)
        (inl (omega arith), (inl (omega arith), (inl (omega arith), (colon, tt))))
        (All-append IsScalar recipient (ending id chunk) h end_scalar)

  length-ending : (id : Uuid) (chunk : ℕ) → chunk < 2 ^ 32 → length (ending id chunk) ≡ 48
  length-ending id chunk l = omega (
    arith,
    length-append (hyphenated.text id) (b':' ∷ format_010 chunk),
    hyphenated.has_length id,
    length-format_010 chunk (omega arith),
  )

  format_010_injective :
      (n n' : ℕ) → n < 2 ^ 32 → n' < 2 ^ 32 → format_010 n ≡ format_010 n' → n ≡ n'
  format_010_injective n n' l l' e =
      cc (
        parse_u64-format_010 n (omega arith),
        parse_u64-format_010 n' (omega arith),
        ap parse_u64 e,
      )

  ending_injective :
      (id id' : Uuid) (chunk chunk' : ℕ)
      → id < 2 ^ 128
      → id' < 2 ^ 128
      → chunk < 2 ^ 32
      → chunk' < 2 ^ 32
      → ending id chunk ≡ ending id' chunk'
      → (id ≡ id') × (chunk ≡ chunk')
  ending_injective id id' chunk chunk' b b' l l' e =
      let tails : hyphenated.text id ++ b':' ∷ format_010 chunk
          ≡ hyphenated.text id' ++ b':' ∷ format_010 chunk' =
        cc in
      let (ids, chunks) =
        append_injective (hyphenated.text id) (hyphenated.text id') (b':' ∷ format_010 chunk)
          (b':' ∷ format_010 chunk')
          (omega
            (arith, length-format_010 chunk (omega arith), length-format_010 chunk' (omega arith)))
          tails in
      let digits : format_010 chunk ≡ format_010 chunk' = cc in
      (hyphenated.injective id id' b b' ids, format_010_injective chunk chunk' l l' digits)

  -- Two messages with the same key in the index have the same recipient, id and chunk, whatever
  -- colons the recipients have; ids are 128-bit values,
  -- chunks are u32 values and recipients are text.
  pub index_key_injective :
      (r r' : Text) (id id' : Uuid) (chunk chunk' : ℕ)
      → All IsScalar r
      → All IsScalar r'
      → id < 2 ^ 128
      → id' < 2 ^ 128
      → chunk < 2 ^ 32
      → chunk' < 2 ^ 32
      → index_key hyphenated r id chunk ≡ index_key hyphenated r' id' chunk'
      → (r ≡ r') × (id ≡ id') × (chunk ≡ chunk')
  index_key_injective r r' id id' chunk chunk' h h' b b' l l' e =
      let texts : index_text r id chunk ≡ index_text r' id' chunk' =
        as_bytes_injective (index_text r id chunk) (index_text r' id' chunk')
          (index_text-IsScalar r id chunk h) (index_text-IsScalar r' id' chunk' h')
          (cc (index_key-index_text r id chunk, index_key-index_text r' id' chunk', e)) in
      let tails : r ++ ending id chunk ≡ r' ++ ending id' chunk' = ap (drop 4) texts in
      let (same, ends) =
        append_injective r r' (ending id chunk) (ending id' chunk')
          (length-ending id chunk l ∙ sym (length-ending id' chunk' l')) tails in
      let (ids, chunks) = ending_injective id id' chunk chunk' b b' l l' ends in (same, ids, chunks)

-- Recipients are told apart by the keys of their quotas and of their numbers.
module _ (r r' : Text) (h : All IsScalar r) (h' : All IsScalar r') where
  pub quota_key_injective : quota_key r ≡ quota_key r' → r ≡ r'
  unfolding quota_key as_bytes
  quota_key_injective e = as_bytes_injective r r' h h' (ap (drop 6) e)

  pub seq_key_injective : seq_key r ≡ seq_key r' → r ≡ r'
  unfolding seq_key as_bytes
  seq_key_injective e = as_bytes_injective r r' h h' (ap (drop 4) e)
