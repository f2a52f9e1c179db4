-- ===== src/StoreSled/Keys/Reads.antt =====
-- What src/store_sled.rs reads back from the keys and numbers that it writes.
use enigma_relay.Base.{
  ℕ, zero, suc, ◌+◌, ◌*◌, ◌/◌, ◌%◌, ◌≤◌, ◌<◌, ◌≡◌, refl, ap, ◌∙◌, some, List, [], ◌∷◌, ◌++◌, arith,
  inl, length, All, All-append, u64_max, append_assoc, length-append,
}
use enigma_relay.Base.Text.{Text, codes, split, split-append, Lacks}
use enigma_relay.Base.Decimal.{
  format_020, format_010, parse_u64, parse_u64-format_020, format_020-IsDigit, format_010-IsDigit,
  IsDigit,
}
use enigma_relay.Base.Utf8.{as_bytes, as_bytes-append, from_utf8_lossy-as_bytes, IsScalar}
use enigma_relay.Error.{ok, ◌>>=◌, ok_or, internal}
use enigma_relay.Model.{Uuid}
use enigma_relay.StoreSled.Keys.{
  Hyphenated, message_prefix, message_key, parse_parts, parse_seq_from_key, low_bytes, encode_u64,
  from_be_bytes, decode_u64,
}

from_be_bytes-append :
    (acc : ℕ) (bytes : List ℕ) (b : ℕ)
    → from_be_bytes acc (bytes ++ b ∷ []) ≡ from_be_bytes acc bytes * 256 + b
from_be_bytes-append acc [] b = refl
from_be_bytes-append acc (x ∷ bytes) b = from_be_bytes-append (acc * 256 + x) bytes b

abbrev pub pow256 : ℕ → ℕ
pow256 zero = 1
pow256 (suc n) = 256 * pow256 n

pub low_bytes-read : (n value : ℕ) → value < pow256 n → from_be_bytes 0 (low_bytes n value) ≡ value
low_bytes-read zero value l = omega arith
low_bytes-read (suc n) value l =
    from_be_bytes-append 0 (low_bytes n (value / 256)) (value % 256)
    ∙ omega (arith, low_bytes-read n (value / 256) (omega arith))

pub length-low_bytes : (n value : ℕ) → length (low_bytes n value) ≡ n
length-low_bytes zero value = refl
length-low_bytes (suc n) value = omega (
  arith,
  length-append (low_bytes n (value / 256)) (value % 256 ∷ []),
  length-low_bytes n (value / 256),
)

decode_u64-ok : (bytes : List ℕ) → length bytes ≡ 8 → decode_u64 bytes ≡ ok (from_be_bytes 0 bytes)
unfolding decode_u64
decode_u64-ok bytes l = rw l refl

-- A u64 value is read back from its eight bytes.
pub decode_u64-encode_u64 : (value : ℕ) → value ≤ u64_max → decode_u64 (encode_u64 value) ≡ ok value
unfolding encode_u64
decode_u64-encode_u64 value l =
    decode_u64-ok (low_bytes 8 value) (length-low_bytes 8 value)
    ∙ ap ok (low_bytes-read 8 value (omega arith))

pub IsDigit-IsScalar : (s : Text) → All IsDigit s → All IsScalar s
IsDigit-IsScalar [] h = tt
IsDigit-IsScalar (c ∷ s) h = (inl (omega arith), IsDigit-IsScalar s h.1)

IsDigit-Lacks : (s : Text) → All IsDigit s → Lacks b':' s
IsDigit-Lacks [] h = tt
IsDigit-Lacks (c ∷ s) h = (omega arith, IsDigit-Lacks s h.1)

pub as_bytes-colon : (s : Text) → as_bytes (b':' ∷ s) ≡ b':' ∷ as_bytes s
unfolding as_bytes
as_bytes-colon s = refl

module _ (hyphenated : Hyphenated) (recipient : Text) (arrival_seq : ℕ) (message_id : Uuid)
    (chunk_index : ℕ) where
  -- The key of a message as text.
  abbrev after_seq : Text
  after_seq = hyphenated.text message_id ++ b':' ∷ format_010 chunk_index

  abbrev after_recipient : Text
  after_recipient = format_020 arrival_seq ++ b':' ∷ after_seq

  abbrev key_text : Text
  key_text = codes "msg" ++ b':' ∷ (recipient ++ b':' ∷ after_recipient)

  message_key-key_text :
      message_key hyphenated recipient arrival_seq message_id chunk_index ≡ as_bytes key_text
  unfolding message_key message_prefix as_bytes
  message_key-key_text = simp (as_bytes-append, append_assoc, as_bytes-colon)

  key_text-IsScalar : All IsScalar recipient → All IsScalar key_text
  key_text-IsScalar h =
      let digits = IsDigit-IsScalar (format_020 arrival_seq) (format_020-IsDigit arrival_seq) in
      let chunk = IsDigit-IsScalar (format_010 chunk_index) (format_010-IsDigit chunk_index) in
      let colon : IsScalar b':' = inl (omega arith) in
      let seq_end : All IsScalar after_seq =
        All-append IsScalar (hyphenated.text message_id) (b':' ∷ format_010 chunk_index)
          (hyphenated.is_scalar message_id) (colon, chunk) in
      let recipient_end : All IsScalar after_recipient =
        All-append IsScalar (format_020 arrival_seq) (b':' ∷ after_seq) digits (colon, seq_end) in
      All-append IsScalar (codes "msg") (b':' ∷ (recipient ++ b':' ∷ after_recipient))
        (inl (omega arith), (inl (omega arith), (inl (omega arith), tt)))
        (colon, All-append IsScalar recipient (b':' ∷ after_recipient) h (colon, recipient_end))

  key_parts :
      Lacks b':' recipient
      → split b':' key_text
        ≡ codes "msg" ∷ recipient ∷ format_020 arrival_seq ∷ split b':' after_seq
  key_parts lacks =
      let digits = IsDigit-Lacks (format_020 arrival_seq) (format_020-IsDigit arrival_seq) in
      split-append b':' (codes "msg") (recipient ++ b':' ∷ after_recipient) (omega arith)
      ∙ ap (◌∷◌ (codes "msg")) (
          split-append b':' recipient after_recipient lacks
          ∙ ap (◌∷◌ recipient) (split-append b':' (format_020 arrival_seq) after_seq digits))

  parse_parts-seq :
      (parts : List Text)
      → arrival_seq ≤ u64_max
      → parse_parts (codes "msg" ∷ recipient ∷ format_020 arrival_seq ∷ parts)
        ≡ ok (some arrival_seq)
  unfolding parse_parts
  parse_parts-seq parts l = rw (parse_u64-format_020 arrival_seq l) refl

  -- The sequence number of a message is read back from its key, if the recipient is text without a
  -- colon in it and the number is a u64 value.
  pub parse_seq_from_key-message_key :
      All IsScalar recipient
      → Lacks b':' recipient
      → arrival_seq ≤ u64_max
      → parse_seq_from_key (message_key hyphenated recipient arrival_seq message_id chunk_index)
        ≡ ok (some arrival_seq)
  unfolding parse_seq_from_key
  parse_seq_from_key-message_key h lacks l =
      ap parse_seq_from_key message_key-key_text
      ∙ ap (λ t. parse_parts (split b':' t))
          (from_utf8_lossy-as_bytes key_text (key_text-IsScalar h))
      ∙ ap parse_parts (key_parts lacks)
      ∙ parse_parts-seq (split b':' after_seq) l

  -- What is read from the key of a message to a recipient with exactly one colon does not depend on the
  -- number of the message: it is the part of the recipient after the colon, if that is a u64 number in
  -- decimal, and the error for an invalid key otherwise.
  pub parse_seq_from_key-colon :
      (s t : Text)
      → recipient ≡ s ++ b':' ∷ t
      → All IsScalar recipient
      → Lacks b':' s
      → Lacks b':' t
      → parse_seq_from_key (message_key hyphenated recipient arrival_seq message_id chunk_index)
        ≡ (ok_or (parse_u64 t) (internal "invalid key") >>= λ n. ok (some n))
  unfolding parse_seq_from_key parse_parts
  parse_seq_from_key-colon s t e h no_s no_t =
      let rest = t ++ b':' ∷ after_recipient in
      let parts : split b':' (recipient ++ b':' ∷ after_recipient)
          ≡ s ∷ t ∷ split b':' after_recipient =
        ap (λ x. split b':' (x ++ b':' ∷ after_recipient)) e
        ∙ ap (split b':') (append_assoc s (b':' ∷ t) (b':' ∷ after_recipient))
        ∙ split-append b':' s rest no_s
        ∙ ap (◌∷◌ s) (split-append b':' t after_recipient no_t) in
      ap parse_seq_from_key message_key-key_text
      ∙ ap (λ x. parse_parts (split b':' x))
          (from_utf8_lossy-as_bytes key_text (key_text-IsScalar h))
      ∙ ap parse_parts (
          split-append b':' (codes "msg") (recipient ++ b':' ∷ after_recipient) (omega arith)
          ∙ ap (◌∷◌ (codes "msg")) parts)
