-- ===== src/Store/Cursor.antt =====
-- Cursors of src/store.rs: what `decode_cursor` makes of what `encode_cursor` gave.
use enigma_relay.Base.{ℕ, ◌≤◌, ◌≡◌, [], ◌∷◌, ◌++◌, arith, All, All-append, append_assoc, u64_max}
use enigma_relay.Base.Text.{Text, split_once, split_once-append, Lacks}
use enigma_relay.Base.Decimal.{
  format_020, parse_u64, parse_u64-format_020, parse_u64-colon, format_020-IsDigit, IsDigit,
}
use enigma_relay.Base.Utf8.{IsScalar, from_utf8-as_bytes}
use enigma_relay.Error.{ok, err, ◌>>=◌, ok_or}
use enigma_relay.Store.{Base64, encode_cursor, decode_cursor, invalid_cursor}

digits-IsScalar : (s : Text) → All IsDigit s → All IsScalar s
digits-IsScalar [] h = tt
digits-IsScalar (c ∷ s) h = (omega arith, digits-IsScalar s h.1)

raw-IsScalar :
    (recipient : Text) (seq : ℕ)
    → All IsScalar recipient
    → All IsScalar (recipient ++ b':' ∷ format_020 seq)
raw-IsScalar recipient seq h =
    All-append IsScalar recipient (b':' ∷ format_020 seq) h
      (omega arith, digits-IsScalar (format_020 seq) (format_020-IsDigit seq))

module _ (standard : Base64) (recipient : Text) (seq : ℕ) (scalars : All IsScalar recipient) where
  -- After the encodings are undone, the text is split at its first colon.
  decode_raw : decode_cursor standard (encode_cursor standard recipient seq) ≡ (do
    let parts = split_once b':' (recipient ++ b':' ∷ format_020 seq)
    digits ← ok_or parts.1 invalid_cursor
    arrival_seq ← ok_or (parse_u64 digits) invalid_cursor
    ok (parts.0, arrival_seq))
  unfolding encode_cursor decode_cursor
  decode_raw =
      let raw = raw-IsScalar recipient seq scalars in
      rw (standard.decode_encode _ raw, from_utf8-as_bytes _ raw)

  -- A cursor decodes to its recipient and sequence number, if the recipient is text without a colon and
  -- the number is a u64 value.
  pub decode_cursor-encode_cursor :
      Lacks b':' recipient
      → seq ≤ u64_max
      → decode_cursor standard (encode_cursor standard recipient seq) ≡ ok (recipient, seq)
  decode_cursor-encode_cursor lacks bound = rw (
    decode_raw,
    split_once-append b':' recipient (format_020 seq) lacks,
    parse_u64-format_020 seq bound,
  )

module _ (standard : Base64) (before after : Text) (seq : ℕ) where
  -- A cursor of a recipient that is text with a colon in it never decodes, whatever the sequence
  -- number.
  pub decode_cursor-colon :
      Lacks b':' before
      → All IsScalar (before ++ b':' ∷ after)
      → decode_cursor standard (encode_cursor standard (before ++ b':' ∷ after) seq)
        ≡ err invalid_cursor
  decode_cursor-colon lacks scalars = rw (
    decode_raw standard (before ++ b':' ∷ after) seq scalars,
    append_assoc before (b':' ∷ after) (b':' ∷ format_020 seq),
    split_once-append b':' before (after ++ b':' ∷ format_020 seq) lacks,
    parse_u64-colon after (format_020 seq),
  )
