-- ===== src/Tests/Keys.antt =====
-- The keys of the store on disk at concrete inputs, with 36 low bytes in place of the hyphenated form
-- of an id.
use enigma_relay.Base.{
  ℕ, zero, suc, ◌/◌, ◌%◌, ◌^◌, ◌<◌, ◌≡◌, refl, ap, ◌∙◌, sym, some, [], ◌∷◌, arith, All, All-append,
  inl,
}
use enigma_relay.Base.Text.{codes}
use enigma_relay.Base.Decimal.{parse_u64}
use enigma_relay.Base.Utf8.{IsScalar}
use enigma_relay.Error.{ok, err, internal}
use enigma_relay.StoreSled.Keys.{
  Hyphenated, message_key, parse_seq_from_key, low_bytes, encode_u64, from_be_bytes, decode_u64,
}
use enigma_relay.StoreSled.Keys.Reads.{
  low_bytes-read, length-low_bytes, decode_u64-encode_u64, parse_seq_from_key-message_key,
  parse_seq_from_key-colon,
}
use enigma_relay.StoreSled.Keys.Distinct.{index_key_injective}
use enigma_relay.Tests.Data.{alice}

pub low_bytes-IsScalar : (n value : ℕ) → All IsScalar (low_bytes n value)
low_bytes-IsScalar zero value = tt
low_bytes-IsScalar (suc n) value =
    All-append IsScalar (low_bytes n (value / 256)) (value % 256 ∷ [])
      (low_bytes-IsScalar n (value / 256)) (inl (omega arith), tt)

pub low_bytes_injective :
    (id id' : ℕ) → id < 2 ^ 128 → id' < 2 ^ 128 → low_bytes 36 id ≡ low_bytes 36 id' → id ≡ id'
low_bytes_injective id id' l l' e =
    sym (low_bytes-read 36 id (omega arith))
    ∙ ap (from_be_bytes 0) e
    ∙ low_bytes-read 36 id' (omega arith)

abbrev pub uuid : Hyphenated
uuid = record {
  text = low_bytes 36;
  has_length = length-low_bytes 36;
  is_scalar = low_bytes-IsScalar 36;
  injective = low_bytes_injective;
}

decode_u64-encode_u64_example : decode_u64 (encode_u64 258) ≡ ok 258
decode_u64-encode_u64_example = decode_u64-encode_u64 258 (omega arith)

encoded : encode_u64 258 ≡ 0 ∷ 0 ∷ 0 ∷ 0 ∷ 0 ∷ 0 ∷ 1 ∷ 2 ∷ []
unfolding encode_u64
encoded = refl

parse_seq_from_key-message_key_example :
    parse_seq_from_key (message_key uuid alice 7 5 0) ≡ ok (some 7)
parse_seq_from_key-message_key_example =
    parse_seq_from_key-message_key uuid alice 7 5 0 (omega arith) (omega arith) (omega arith)

parse_seq_from_key-colon_example :
    parse_seq_from_key (message_key uuid (codes "a:b") 7 5 0) ≡ err (internal "invalid key")
unfolding parse_u64
parse_seq_from_key-colon_example =
    parse_seq_from_key-colon uuid (codes "a:b") 7 5 0 (codes "a") (codes "b") refl (omega arith)
      (omega arith) (omega arith)

index_key_injective_example : (codes "a:b" ≡ codes "a:b") × ◌≡◌ {A = ℕ} 5 5 × ◌≡◌ {A = ℕ} 0 0
index_key_injective_example =
    index_key_injective uuid (codes "a:b") (codes "a:b") 5 5 0 0 (omega arith) (omega arith)
      (omega arith) (omega arith) (omega arith) (omega arith) refl
