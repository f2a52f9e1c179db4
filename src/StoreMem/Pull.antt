-- ===== src/StoreMem/Pull.antt =====
-- src/store_mem.rs: `MemStore::pull`.
pub mod Collect
pub mod Paging
pub mod Bounds
pub mod Order
pub mod Refines
use enigma_relay.Base.{
  ℕ, Bool, true, false, not, Option, none, some, List, [], ◌∷◌, ◌++◌, ltb, leb, if◌then◌else◌,
  length, last, min, sat_sub, u32_max,
}
use enigma_relay.Base.Text.{Text}
use enigma_relay.Base.Eq.{◌==◌, nat_eq, pair_eq, list_eq}
use enigma_relay.Base.Map.{lookup, insert, range_after}
use enigma_relay.Error.{Result, ok, err, ◌>>=◌, ◌>>◌, reject, invalid_input}
use enigma_relay.Store.{QueueMessage, PullBatch, Base64, encode_cursor, decode_cursor}
use mathlib.Core.Option
use enigma_relay.StoreMem.State.{Queue, RecipientState, MemStore, drop_all}

-- What the loop of `pull` over the entries leaves.
pub record Collected : Type 0 where
  pub collected : List QueueMessage
  pub expired : List ℕ
  pub more : Bool

unfoldable pub collect : ℕ → ℕ → Queue → List QueueMessage → List ℕ → Collected
collect limit now_ms [] collected expired = record {
  collected = collected;
  expired = expired;
  more = false;
}
collect limit now_ms ((seq, msg) ∷ entries) collected expired =
    let skip = collect limit now_ms entries collected (expired ++ seq ∷ []) in
    let take = collect limit now_ms entries (collected ++ msg ∷ []) expired in
    if leb msg.deadline_ms now_ms
    then skip
    else if ltb (length collected) limit
    then take
    else record { collected = collected; expired = expired; more = true }

-- The entries that the loop of `pull` runs over.
unfoldable pub entries_from : Option ℕ → Queue → Queue
entries_from none queue = queue
entries_from (some seq) queue = range_after seq queue

abbrev pub empty_batch : PullBatch
empty_batch = record { items = []; next_cursor = none; remaining_estimate = 0 }

module _ (standard : Base64) where
  -- The sequence number in the cursor, which must name the recipient.
  unfoldable pub start_seq : Text → Option Text → Result (Option ℕ)
  start_seq recipient none = ok none
  start_seq recipient (some raw) = do
    decoded ← decode_cursor standard raw
    reject (not (decoded.0 == recipient)) (invalid_input "cursor recipient mismatch")
    ok (some decoded.1)

  -- What `pull` does after the cursor is read.
  unfoldable pub pull_from : Option ℕ → ℕ → ℕ → RecipientState → PullBatch × RecipientState
  pull_from start limit now_ms entry =
      let c = collect (min limit u32_max) now_ms (entries_from start entry.queue) [] [] in
      let entry' = drop_all c.expired entry in
      let cursor =
        λ (item : QueueMessage). encode_cursor standard item.recipient item.arrival_seq in
      (
        record {
          items = c.collected;
          next_cursor = if c.more then Option.map cursor (last c.collected) else none;
          remaining_estimate = sat_sub entry'.quota_count (length c.collected);
        },
        entry',
      )

  unfoldable pub pull_entry :
      Text → Option Text → ℕ → ℕ → RecipientState → Result PullBatch × RecipientState
  pull_entry recipient cursor limit now_ms entry = elim (start_seq recipient cursor) [
    | err e ↦ (err e, entry)
    | ok start ↦ let (batch, entry') = pull_from start limit now_ms entry in (ok batch, entry')
  ]

  unfoldable pub pull : Text → Option Text → ℕ → ℕ → MemStore → Result PullBatch × MemStore
  pull recipient cursor limit now_ms state = elim (lookup recipient state) [
    | none ↦ (ok empty_batch, state)
    | some entry ↦
        let (result, entry') = pull_entry recipient cursor limit now_ms entry in
        (result, insert recipient entry' state)
  ]
