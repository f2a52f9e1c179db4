-- ===== src/Model.antt =====
-- src/model.rs: the bodies of requests and responses. A `Uuid` of the uuid crate is its 128-bit
-- value; a u64 or u32 is a number.
use enigma_relay.Base.{ℕ, Bool, not, Option, List}
use enigma_relay.Base.Text.{Text}

abbrev pub Uuid : Type 0
Uuid = ℕ

pub record MessageMeta : Type 0 where
  pub kind : Text
  pub total_len : ℕ
  pub chunk_index : ℕ
  pub chunk_count : ℕ
  pub sent_ms : ℕ

pub record PushRequest : Type 0 where
  pub recipient : Text
  pub message_id : Uuid
  pub ciphertext_b64 : Text
  pub meta : MessageMeta

pub record PushResponse : Type 0 where
  pub stored : Bool
  pub duplicate : Bool
  pub queue_len : Option ℕ
  pub queue_bytes : Option ℕ

pub record PullRequest : Type 0 where
  pub recipient : Text
  pub cursor : Option Text
  pub max : Option ℕ

pub record DeliveryItem : Type 0 where
  pub recipient : Text
  pub message_id : Uuid
  pub ciphertext_b64 : Text
  pub meta : MessageMeta
  pub arrival_ms : ℕ
  pub deadline_ms : ℕ

pub record PullResponse : Type 0 where
  pub items : List DeliveryItem
  pub next_cursor : Option Text
  pub remaining_estimate : ℕ

pub record AckEntry : Type 0 where
  pub message_id : Uuid
  pub chunk_index : ℕ

pub record AckRequest : Type 0 where
  pub recipient : Text
  pub ack : List AckEntry

pub record AckResponse : Type 0 where
  pub deleted : ℕ
  pub missing : ℕ
  pub remaining : ℕ

-- The test by which serde leaves the field `duplicate` out of a response.
unfoldable pub is_false : Bool → Bool
is_false value = not value
