-- ===== src/StoreSled/Keys/Order.antt =====
-- The order of the keys of messages in src/store_sled.rs: those of one recipient stand together, in
-- the order of their sequence numbers.
use enigma_relay.Base.{
  ℕ, ◌≤◌, ◌<◌, ◌≡◌, ◌≢◌, refl, sym, ◌∙◌, true, false, Bool-cases, [], ◌∷◌, ◌++◌, arith, All, inl,
  inr, u64_max, append_assoc,
}
use enigma_relay.Base.Text.{Text, Lacks}
use enigma_relay.Base.Sort.{text_leb}
use enigma_relay.Base.Decimal.{format_010, format_020, IsDigit, format_020-IsDigit}
use enigma_relay.Base.Decimal.Order.{format_020-after}
use enigma_relay.Base.Utf8.{as_bytes, encode_char, IsScalar, as_bytes_injective}
use enigma_relay.Model.{Uuid}
use enigma_relay.StoreSled.Db.{Bytes, starts_with}
use enigma_relay.StoreSled.Entries.{text_leb_refl}
use enigma_relay.StoreSled.Keys.{Hyphenated, message_prefix, message_key}

-- ASCII is its own UTF-8.
as_bytes-IsDigit : (s : Text) → All IsDigit s → as_bytes s ≡ s
unfolding as_bytes encode_char
as_bytes-IsDigit [] h = refl
as_bytes-IsDigit (c ∷ s) h = ground (arith, as_bytes-IsDigit s h.1)

-- No byte of a text is a colon unless one of its characters is.
as_bytes-Lacks : (s : Text) → All IsScalar s → Lacks b':' s → Lacks b':' (as_bytes s)
unfolding as_bytes encode_char
as_bytes-Lacks [] h l = tt
as_bytes-Lacks (c ∷ s) h l = ground (arith, as_bytes-Lacks s h.1 l.1)

pub starts_with-append : (p t : Bytes) → starts_with p (p ++ t) ≡ true
starts_with-append [] t = refl
starts_with-append (b ∷ p) t = ground (arith, starts_with-append p t)

text_leb-append : (p s t : Bytes) → text_leb (p ++ s) (p ++ t) ≡ text_leb s t
unfolding text_leb
text_leb-append [] s t = refl
text_leb-append (b ∷ p) s t = ground (arith, text_leb-append p s t)

-- What stands before the first colon is told apart by a prefix that ends in it.
starts_with-colon :
    (s t rest : Bytes)
    → Lacks b':' s
    → Lacks b':' t
    → starts_with (s ++ b':' ∷ []) (t ++ b':' ∷ rest) ≡ true
    → s ≡ t
starts_with-colon [] [] rest hs ht h = refl
starts_with-colon [] (d ∷ t) rest hs ht h = ground arith
starts_with-colon (c ∷ s) [] rest hs ht h = ground arith
starts_with-colon (c ∷ s) (d ∷ t) rest hs ht h =
    ground (arith, starts_with-colon s t rest hs.1 ht.1)

-- A recipient of text without a colon, for whose keys the code keeps apart what it means to.
pub record IsPlain (recipient : Text) : Type 0 where
  pub is_scalar : All IsScalar recipient
  pub no_colon : Lacks b':' recipient

module _ (hyphenated : Hyphenated) where
  abbrev rest_of : Uuid → ℕ → Bytes
  rest_of id chunk = b':' ∷ as_bytes (hyphenated.text id) ++ b':' ∷ as_bytes (format_010 chunk)

  message_key-parts :
      (r : Text) (n : ℕ) (id : Uuid) (chunk : ℕ)
      → message_key hyphenated r n id chunk ≡ message_prefix r ++ (format_020 n ++ rest_of id chunk)
  unfolding message_key
  message_key-parts r n id chunk =
      rw (as_bytes-IsDigit (format_020 n) (format_020-IsDigit n)) (simp append_assoc)

  -- A later message of a recipient has the later key.
  pub message_key-after :
      (r : Text) (m n : ℕ) (id id' : Uuid) (chunk chunk' : ℕ)
      → m < n
      → n ≤ u64_max
      → text_leb (message_key hyphenated r n id chunk) (message_key hyphenated r m id' chunk')
        ≡ false
  message_key-after r m n id id' chunk chunk' l h =
      rw (message_key-parts r n id chunk, message_key-parts r m id' chunk')
        (text_leb-append (message_prefix r) (format_020 n ++ rest_of id chunk)
            (format_020 m ++ rest_of id' chunk')
          ∙ format_020-after m n (rest_of id chunk) (rest_of id' chunk') l h)

  pub message_key-prefix :
      (r : Text) (n : ℕ) (id : Uuid) (chunk : ℕ)
      → starts_with (message_prefix r) (message_key hyphenated r n id chunk) ≡ true
  message_key-prefix r n id chunk =
      rw message_key-parts
        (starts_with-append (message_prefix r) (format_020 n ++ rest_of id chunk))

  starts_with-message_prefix :
      (r r' : Text) (n : ℕ) (id : Uuid) (chunk : ℕ)
      → IsPlain r
      → IsPlain r'
      → starts_with (message_prefix r) (message_key hyphenated r' n id chunk) ≡ true
      → r ≡ r'
  unfolding message_prefix as_bytes
  starts_with-message_prefix r r' n id chunk p p' h =
      let rest = format_020 n ++ rest_of id chunk in
      let first : starts_with (as_bytes r ++ b':' ∷ []) (as_bytes r' ++ b':' ∷ [] ++ rest) ≡ true =
        rw (message_key-parts r' n id chunk) at h in
      as_bytes_injective r r' p.is_scalar p'.is_scalar (
        starts_with-colon (as_bytes r) (as_bytes r') rest (as_bytes-Lacks r p.is_scalar p.no_colon)
          (as_bytes-Lacks r' p'.is_scalar p'.no_colon) (rw append_assoc at first))

  -- Messages with different numbers have different keys.
  pub message_key_distinct :
      (r : Text) (m n : ℕ) (id id' : Uuid) (chunk chunk' : ℕ)
      → m < n
      → n ≤ u64_max
      → message_key hyphenated r n id chunk ≢ message_key hyphenated r m id' chunk'
  message_key_distinct r m n id id' chunk chunk' l h e =
      let later = message_key-after r m n id id' chunk chunk' l h in
      let same = text_leb_refl (message_key hyphenated r m id' chunk') in cc

  -- The keys of a recipient do not start with the prefix of another.
  pub message_key_other :
      (r r' : Text) (n : ℕ) (id : Uuid) (chunk : ℕ)
      → IsPlain r
      → IsPlain r'
      → r' ≢ r
      → starts_with (message_prefix r) (message_key hyphenated r' n id chunk) ≡ false
  message_key_other r r' n id chunk p p' other =
      elim (Bool-cases (starts_with (message_prefix r) (message_key hyphenated r' n id chunk))) [
        | inr e ↦ e
        | inl e ↦ absurd (other (sym (starts_with-message_prefix r r' n id chunk p p' e)))
      ]
