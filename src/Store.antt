-- ===== src/Store.antt =====
-- src/store.rs: what the stores take and return, the interface `RelayStore`, and cursors. An
-- asynchronous method is a function of the store's state, since an implementation holds its lock
-- from its first access to its last.
pub mod Cursor
use enigma_relay.Base.{
  All, ℕ, ◌≡◌, Bool, ◌&&◌, false, Option, none, some, List, ◌∷◌, ◌++◌, map, eqb, arith, ◌↔◌, refl,
}
use enigma_relay.Base.Text.{Text, split_once}
use enigma_relay.Base.Decimal.{format_020, parse_u64}
use enigma_relay.Base.Utf8.{IsScalar, as_bytes, from_utf8}
use enigma_relay.Base.Eq.{Eq}
use enigma_relay.Error.{EnigmaRelayError, Result, ok, err, ◌>>=◌, ok_or, invalid_input}
use enigma_relay.Model.{Uuid, MessageMeta}
use enigma_relay.Config.{RelayLimits}

pub record InboundMessage : Type 0 where
  pub recipient : Text
  pub message_id : Uuid
  pub ciphertext_b64 : Text
  pub meta : MessageMeta
  pub payload_bytes : ℕ
  pub arrival_ms : ℕ
  pub deadline_ms : ℕ

pub record QueueMessage : Type 0 where
  pub recipient : Text
  pub message_id : Uuid
  pub ciphertext_b64 : Text
  pub meta : MessageMeta
  pub arrival_ms : ℕ
  pub deadline_ms : ℕ
  pub payload_bytes : ℕ
  pub arrival_seq : ℕ

pub record PushResult : Type 0 where
  pub stored : Bool
  pub duplicate : Bool
  pub queue_len : ℕ
  pub queue_bytes : ℕ

pub record PullBatch : Type 0 where
  pub items : List QueueMessage
  pub next_cursor : Option Text
  pub remaining_estimate : ℕ

pub record AckOutcome : Type 0 where
  pub deleted : ℕ
  pub missing : ℕ
  pub remaining : ℕ

abbrev pub default_outcome : AckOutcome
default_outcome = record { deleted = 0; missing = 0; remaining = 0 }

pub record AckItem : Type 0 where
  pub message_id : Uuid
  pub chunk_index : ℕ

-- The derived `PartialEq`.
abbrev pub ack_beq : AckItem → AckItem → Bool
ack_beq a b = eqb a.message_id b.message_id && eqb a.chunk_index b.chunk_index

pub ack_beq_iff : (a b : AckItem) → (ack_beq a b ≡ Bool.true) ↔ (a ≡ b)
ack_beq_iff a b = ground arith

instance abbrev pub ack_eq : Eq AckItem
ack_eq = record { same = ack_beq; same_iff = ack_beq_iff }

-- The trait: an implementation chooses its state, and each method returns the state after it, on
-- the error paths too.
pub record RelayStore : Type 1 where
  pub State : Type 0
  pub push : InboundMessage → RelayLimits → State → Result PushResult × State
  pub pull : Text → Option Text → ℕ → ℕ → State → Result PullBatch × State
  pub ack : Text → List AckItem → State → Result AckOutcome × State
  pub purge_expired : ℕ → ℕ → State → Result ℕ × State

-- A store behind the trait.
pub record DynRelayStore : Type 1 where
  pub relay_store : RelayStore
  pub state : relay_store.State

-- The engine `STANDARD` of the base64 crate: it decodes what it encoded.
pub record Base64 : Type 0 where
  pub encode : List ℕ → Text
  pub decode : List ℕ → Option (List ℕ)
  pub decode_encode :
      (s : Text) → All IsScalar s → decode (as_bytes (encode (as_bytes s))) ≡ some (as_bytes s)

abbrev pub invalid_cursor : EnigmaRelayError
invalid_cursor = invalid_input "invalid cursor"

module _ (standard : Base64) where
  unfoldable pub encode_cursor : Text → ℕ → Text
  encode_cursor recipient arrival_seq =
      let raw = recipient ++ b':' ∷ format_020 arrival_seq in standard.encode (as_bytes raw)

  unfoldable pub decode_cursor : Text → Result (Text × ℕ)
  decode_cursor cursor = do
    decoded ← ok_or (standard.decode (as_bytes cursor)) invalid_cursor
    text ← ok_or (from_utf8 decoded) invalid_cursor
    let parts = split_once b':' text
    seq ← ok_or parts.1 invalid_cursor
    arrival_seq ← ok_or (parse_u64 seq) invalid_cursor
    ok (parts.0, arrival_seq)
