-- ===== src/StoreMem/Pull/Refines.antt =====
-- `MemStore::pull` of src/store_mem.rs, once its cursor is read, keeps the invariant and implements
-- the pull of a mailbox.
use enigma_relay.Base.{ℕ, ◌≡◌, ◌∙◌, Option, List, [], arith, min, u32_max}
use enigma_relay.Base.Text.{Text}
use enigma_relay.Store.{Base64}
use enigma_relay.StoreMem.State.{RecipientState, drop_all}
use enigma_relay.StoreMem.Pull.{collect, entries_from, pull_from}
use enigma_relay.StoreMem.Pull.Collect.{
  live-entries_from, collect_lem, collected_at, expired_before, drop_all-fields, remove_all-sweep,
}
use enigma_relay.StoreMem.Wf.{IsWf, drop_all-IsWf}
use enigma_relay.StoreMem.Mailbox
use enigma_relay.StoreMem.Mailbox.{Mailbox, view, live, sweep, waiting}

module _ (standard : Base64) {recipient : Text} (start : Option ℕ) (limit now_ms : ℕ)
    (s : RecipientState) (w : IsWf recipient s) where
  abbrev room : ℕ
  room = min limit u32_max

  abbrev gone : List ℕ
  gone = expired_before room now_ms (entries_from start s.queue)

  collected_all :
      collect room now_ms (entries_from start s.queue) [] []
      ≡ collected_at room now_ms (entries_from start s.queue) [] []
  collected_all = collect_lem room room now_ms (entries_from start s.queue) [] [] (omega arith)

  queue-drop_all : (drop_all gone s).queue ≡ sweep start room now_ms s.queue
  queue-drop_all =
      (drop_all-fields gone s).0 ∙ remove_all-sweep start now_ms s.seq 0 room s.queue w.ascends

  pub pull_from-IsWf : IsWf recipient (pull_from standard start limit now_ms s).1
  unfolding pull_from
  pull_from-IsWf = drop_all-IsWf _ w

  -- A pull from a well-formed state does what the pull of its mailbox does.
  pub pull_from-view :
      ((pull_from standard start limit now_ms s).0
        ≡ (Mailbox.pull standard start limit now_ms (view s)).0)
      × (view (pull_from standard start limit now_ms s).1
          ≡ (Mailbox.pull standard start limit now_ms (view s)).1)
  unfolding pull_from Mailbox.pull
  pull_from-view = rw collected_all (
      ground (
        arith,
        queue-drop_all,
        live-entries_from start now_ms s.queue,
        (drop_all-fields gone s).1,
        (drop_all-IsWf gone w).counted,
      ))
