-- ===== src/StoreSled/Scan.antt =====
-- src/store_sled.rs: the cursor and the loop of `SledStore::pull`, which passes over expired
-- messages.
pub mod Collects
use enigma_relay.Base.{
  ℕ, none, some, List, [], ◌∷◌, ◌++◌, Bool, true, false, not, Option, leb, ltb, if◌then◌else◌,
  length,
}
use enigma_relay.Base.Text.{Text}
use enigma_relay.Base.Eq.{◌==◌, nat_eq, list_eq}
use enigma_relay.Error.{Result, ok, err, reject, invalid_input, from_sled, ◌>>=◌, ◌>>◌}
use enigma_relay.Store.{QueueMessage, Base64, decode_cursor}
use enigma_relay.StoreSled.Keys.{parse_seq_from_key}
use enigma_relay.StoreSled.Db.{Bytes, Attempt, done, failed, or_internal, Json}

-- The messages that the loop takes, and whether it left one for the next page.
abbrev pub Taken : Type 0
Taken = List QueueMessage × Bool

-- `if let Some(start) = start_seq { if seq <= start { continue; } }`
abbrev pub passed : Option ℕ → ℕ → Bool
passed none seq = false
passed (some start) seq = leb seq start

module _ (items : Json QueueMessage) where
  -- The loop over the entries that the scan yields.
  unfoldable pub take_entries :
      Option ℕ → ℕ → ℕ → List (Attempt (Bytes × Bytes)) → List QueueMessage → Result Taken
  take_entries start limit now_ms [] taken = ok (taken, false)
  take_entries start limit now_ms (failed text ∷ attempts) taken = err (from_sled text)
  take_entries start limit now_ms (done (key, value) ∷ attempts) taken =
      let continue = take_entries start limit now_ms attempts taken in
      parse_seq_from_key key >>= λ parsed. elim parsed [
        | none ↦ continue
        | some seq ↦
            if passed start seq
            then continue
            else or_internal (items.from_slice value) >>= λ msg.
                (if leb msg.deadline_ms now_ms
                  then continue
                  else if ltb (length taken) limit
                  then take_entries start limit now_ms attempts (taken ++ msg ∷ [])
                  else ok (taken, true))
      ]

module _ (standard : Base64) where
  -- The sequence number in the cursor, which must name the recipient.
  unfoldable pub start_seq : Text → Option Text → Result (Option ℕ)
  start_seq recipient none = ok none
  start_seq recipient (some raw) = do
    decoded ← decode_cursor standard raw
    reject (not (decoded.0 == recipient)) (invalid_input "cursor recipient mismatch")
    ok (some decoded.1)
