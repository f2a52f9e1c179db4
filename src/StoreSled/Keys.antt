-- ===== src/StoreSled/Keys.antt =====
-- src/store_sled.rs: the keys of the trees, and the numbers in their values. The hyphenated form of a
-- `Uuid`, of the uuid crate, is an interface.
pub mod Reads
pub mod Distinct
pub mod Order
use enigma_relay.Base.{
  ℕ, zero, suc, ◌+◌, ◌*◌, ◌/◌, ◌%◌, ◌^◌, ◌<◌, ◌≡◌, Bool, true, false, not, Option, none, some, List,
  [], ◌∷◌, ◌++◌, eqb, if◌then◌else◌, length, All,
}
use enigma_relay.Base.Text.{Text, codes, split}
use enigma_relay.Base.Decimal.{format_020, format_010, parse_u64, IsDigit}
use enigma_relay.Base.Utf8.{as_bytes, from_utf8_lossy, IsScalar}
use enigma_relay.Base.Eq.{◌==◌, nat_eq, list_eq}
use enigma_relay.Error.{Result, ok, err, ◌>>=◌, ◌>>◌, reject, ok_or, internal}
use enigma_relay.Model.{Uuid}

-- `as_hyphenated`: 36 characters of ASCII that tell the `Uuid`s apart.
pub record Hyphenated : Type 0 where
  pub text : Uuid → Text
  pub has_length : (id : Uuid) → length (text id) ≡ 36
  pub is_scalar : (id : Uuid) → All IsScalar (text id)
  pub injective : (id id' : Uuid) → id < 2 ^ 128 → id' < 2 ^ 128 → text id ≡ text id' → id ≡ id'

unfoldable pub message_prefix : Text → List ℕ
message_prefix recipient = as_bytes (codes "msg:") ++ as_bytes recipient ++ b':' ∷ []

unfoldable pub quota_key : Text → List ℕ
quota_key recipient = as_bytes (codes "quota:") ++ as_bytes recipient

unfoldable pub seq_key : Text → List ℕ
seq_key recipient = as_bytes (codes "seq:") ++ as_bytes recipient

module _ (hyphenated : Hyphenated) where
  unfoldable pub message_key : Text → ℕ → Uuid → ℕ → List ℕ
  message_key recipient arrival_seq message_id chunk_index =
      message_prefix recipient
      ++ as_bytes (format_020 arrival_seq)
      ++ b':' ∷ as_bytes (hyphenated.text message_id)
      ++ b':' ∷ as_bytes (format_010 chunk_index)

  unfoldable pub index_key : Text → Uuid → ℕ → List ℕ
  index_key recipient message_id chunk_index =
      as_bytes (codes "idx:")
      ++ as_bytes recipient
      ++ b':' ∷ as_bytes (hyphenated.text message_id)
      ++ b':' ∷ as_bytes (format_010 chunk_index)

-- What `parse_seq_from_key` does with the parts of the key.
unfoldable pub parse_parts : List Text → Result (Option ℕ)
parse_parts [] = ok none
parse_parts (kind ∷ []) = ok none
parse_parts (kind ∷ recipient ∷ []) = ok none
parse_parts (kind ∷ recipient ∷ seq_txt ∷ parts) =
    let parsed = ok_or (parse_u64 seq_txt) (internal "invalid key") >>= λ seq. ok (some seq) in
    if kind == codes "msg" then parsed else ok none

unfoldable pub parse_seq_from_key : List ℕ → Result (Option ℕ)
parse_seq_from_key key = parse_parts (split b':' (from_utf8_lossy key))

-- The `n` low bytes of a number, the high one first.
abbrev pub low_bytes : ℕ → ℕ → List ℕ
low_bytes zero value = []
low_bytes (suc n) value = low_bytes n (value / 256) ++ value % 256 ∷ []

-- `to_be_bytes`
unfoldable pub encode_u64 : ℕ → List ℕ
encode_u64 value = low_bytes 8 value

-- `from_be_bytes`, after the bytes that make up the first number.
abbrev pub from_be_bytes : ℕ → List ℕ → ℕ
from_be_bytes acc [] = acc
from_be_bytes acc (b ∷ bytes) = from_be_bytes (acc * 256 + b) bytes

unfoldable pub decode_u64 : List ℕ → Result ℕ
decode_u64 bytes = do
  reject (not (eqb (length bytes) 8)) (internal "invalid integer")
  ok (from_be_bytes 0 bytes)
