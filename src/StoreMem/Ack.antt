-- ===== src/StoreMem/Ack.antt =====
-- src/store_mem.rs: `MemStore::ack`.
pub mod Unacked
pub mod Refines
pub mod Again
use enigma_relay.Base.{
  Bool, true, false, none, some, List, [], ◌∷◌, if◌then◌else◌, length, sat_add, sat_sub,
}
use enigma_relay.Base.Text.{Text}
use enigma_relay.Base.Eq.{◌==◌, nat_eq, pair_eq, list_eq}
use enigma_relay.Base.Map.{lookup, insert, remove}
use enigma_relay.Error.{Result, ok}
use enigma_relay.Store.{AckOutcome, default_outcome, AckItem, ack_eq}
use enigma_relay.StoreMem.State.{DedupKey, RecipientState, MemStore}

-- The body of the loop over the distinct items.
unfoldable pub ack_item : AckItem → RecipientState × AckOutcome → RecipientState × AckOutcome
ack_item item (entry, outcome) =
    let key : DedupKey = (item.message_id, item.chunk_index) in
    elim (lookup key entry.idx) [
      | none ↦ (entry, record outcome { missing = sat_add outcome.missing 1 })
      | some seq ↦ elim (lookup seq entry.queue) [
        | none ↦ (record entry { idx = remove key entry.idx }, outcome)
        | some removed ↦ (
          record entry {
            idx = remove key entry.idx;
            queue = remove seq entry.queue;
            quota_count = sat_sub entry.quota_count 1;
            quota_bytes = sat_sub entry.quota_bytes removed.payload_bytes;
          },
          record outcome { deleted = sat_add outcome.deleted 1 },
        )
      ]
    ]

unfoldable pub ack_items : List AckItem → RecipientState × AckOutcome → RecipientState × AckOutcome
ack_items [] s = s
ack_items (item ∷ unique) s = ack_items unique (ack_item item s)

abbrev pub member : AckItem → List AckItem → Bool
member item [] = false
member item (x ∷ xs) = if x == item then true else member item xs

-- The items inserted into a `HashSet`, each once.
unfoldable pub to_set : List AckItem → List AckItem
to_set [] = []
to_set (item ∷ items) = let rest = to_set items in if member item rest then rest else item ∷ rest

-- The order in which a `HashSet` is iterated is not specified: `order` arranges the distinct items.
module _ (order : List AckItem → List AckItem) where
  unfoldable pub ack_entry : List AckItem → RecipientState → AckOutcome × RecipientState
  ack_entry items entry =
      let (entry', outcome) = ack_items (order (to_set items)) (entry, default_outcome) in
      (record outcome { remaining = entry'.quota_count }, entry')

  unfoldable pub ack : Text → List AckItem → MemStore → Result AckOutcome × MemStore
  ack recipient items state = elim (lookup recipient state) [
    | none ↦ (ok (record { deleted = 0; missing = length items; remaining = 0 }), state)
    | some entry ↦
        let (outcome, entry') = ack_entry items entry in (ok outcome, insert recipient entry' state)
  ]
