-- ===== src/StoreMem/Purge.antt =====
-- src/store_mem.rs: `MemStore::purge_expired`.
pub mod Refines
pub mod Timely
pub mod Complete
pub mod Counts
use enigma_relay.Base.{
  ℕ, ◌+◌, none, some, List, [], ◌∷◌, ◌++◌, map, leb, if◌then◌else◌, length, min,
}
use enigma_relay.Base.Text.{Text}
use enigma_relay.Base.Eq.{nat_eq, pair_eq, list_eq}
use enigma_relay.Base.Sort.{sort}
use enigma_relay.Base.Map.{lookup, insert, contains_key}
use enigma_relay.Error.{Result, ok}
use enigma_relay.StoreMem.State.{Queue, RecipientState, MemStore, drop_seq}

abbrev pub gc_batch_limit : ℕ
gc_batch_limit = 1024

-- The loop that gathers the expired entries at the front of a queue, up to the target.
unfoldable pub expired_front : ℕ → ℕ → ℕ → Queue → List ℕ → List ℕ
expired_front now_ms target removed [] to_drop = to_drop
expired_front now_ms target removed ((seq, msg) ∷ queue) to_drop =
    let to_drop' = to_drop ++ seq ∷ [] in
    let rest = expired_front now_ms target removed queue to_drop' in
    if leb msg.deadline_ms now_ms
    then (if leb target (removed + length to_drop') then to_drop' else rest)
    else to_drop

-- The loop that drops them; it counts those that were there, and stops at the target.
unfoldable pub drop_counted : ℕ → List ℕ → RecipientState × ℕ → RecipientState × ℕ
drop_counted target [] (entry, removed) = (entry, removed)
drop_counted target (seq ∷ to_drop) (entry, removed) =
    let entry' = drop_seq seq entry in
    let removed' = if contains_key seq entry.queue then removed + 1 else removed in
    let rest = drop_counted target to_drop (entry', removed') in
    if leb target removed' then (entry', removed') else rest

unfoldable pub purge_entry : ℕ → ℕ → RecipientState × ℕ → RecipientState × ℕ
purge_entry now_ms target (entry, removed) =
    drop_counted target (expired_front now_ms target removed entry.queue []) (entry, removed)

-- One recipient.
unfoldable pub purge_recipient : ℕ → ℕ → Text → MemStore → ℕ → MemStore × ℕ
purge_recipient now_ms target recip state removed = elim (lookup recip state) [
  | none ↦ (state, removed)
  | some entry ↦
      let (entry', removed') = purge_entry now_ms target (entry, removed) in
      (insert recip entry' state, removed')
]

-- The loop over the recipients.
unfoldable pub purge_recipients : ℕ → ℕ → List Text → MemStore × ℕ → MemStore × ℕ
purge_recipients now_ms target [] (state, removed) = (state, removed)
purge_recipients now_ms target (recip ∷ recipients) (state, removed) =
    if leb target removed
    then (state, removed)
    else purge_recipients now_ms target recipients
        (purge_recipient now_ms target recip state removed)

unfoldable pub purge_expired : ℕ → ℕ → MemStore → Result ℕ × MemStore
purge_expired now_ms max state =
    let target = min max gc_batch_limit in
    let (state', removed) =
      purge_recipients now_ms target (sort (map (λ e. e.0) state)) (state, 0) in
    (ok removed, state')
