-- ===== src/Tests/Data.antt =====
-- Concrete data for the tests: a codec in place of base64, messages and limits.
use enigma_relay.Base.{ℕ, Option, ◌<◌, ◌≡◌, refl, List, [], ◌∷◌, arith, All, inl}
use enigma_relay.Base.Text.{Text, codes}
use enigma_relay.Base.Utf8.{IsScalar, as_bytes, as_bytes-lt, from_utf8, from_utf8-as_bytes}
use enigma_relay.Model.{MessageMeta}
use enigma_relay.Config.{RelayLimits, default_limits}
use enigma_relay.Store.{Base64, InboundMessage, AckItem}
use enigma_relay.StoreMem.Ack.Refines.{Arranges}

bytes-IsScalar : (s : List ℕ) → All (λ b. b < 256) s → All IsScalar s
bytes-IsScalar [] h = tt
bytes-IsScalar (b ∷ s) h = (inl (omega arith), bytes-IsScalar s h.1)

pub latin_decode_encode :
    (s : Text) → All IsScalar s → from_utf8 (as_bytes (as_bytes s)) ≡ Option.some (as_bytes s)
latin_decode_encode s h =
    from_utf8-as_bytes (as_bytes s) (bytes-IsScalar (as_bytes s) (as_bytes-lt s h))

-- Each byte is written as the character of that number.
abbrev pub latin : Base64
latin = record { encode = λ bs. bs; decode = from_utf8; decode_encode = latin_decode_encode }

abbrev pub alice : Text
alice = codes "alice"

abbrev pub chunk : ℕ → MessageMeta
chunk i = record {
  kind = codes "msg";
  total_len = 6;
  chunk_index = i;
  chunk_count = 5;
  sent_ms = 0;
}

-- A message with the number, that arrives at 100 ms and expires at the deadline.
abbrev pub message : ℕ → ℕ → InboundMessage
message id deadline = record {
  recipient = alice;
  message_id = id;
  ciphertext_b64 = codes "b25l";
  meta = chunk 0;
  payload_bytes = 3;
  arrival_ms = 100;
  deadline_ms = deadline;
}

abbrev pub limits : RelayLimits
limits = record default_limits { max_messages_per_user = 3; max_queue_bytes_per_user = 32 }

abbrev pub in_order : List AckItem → List AckItem
in_order items = items

pub in_order-Arranges : Arranges in_order
in_order-Arranges = record { same_members = λ x items. refl; same_length = λ items. refl }
