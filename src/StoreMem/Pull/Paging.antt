-- ===== src/StoreMem/Pull/Paging.antt =====
-- A client that follows the cursors of `MemStore::pull` in src/store_mem.rs.
use enigma_relay.Base.{
  ℕ, zero, suc, ◌-◌, ◌≤◌, ◌<◌, ◌≡◌, refl, sym, ap, ◌∙◌, true, Option, none, some, List, [], ◌++◌,
  arith, lt→ltb, length, take, drop, last, All, min, u32_max, u64_max, take_of_length-le,
  take-append-drop, length-drop,
}
use native.Mathlib.Decide.{dec_lt}
use enigma_relay.Base.Text.{Text, Lacks}
use enigma_relay.Base.Utf8.{IsScalar}
use enigma_relay.Base.Eq.{list_eq, ==_refl}
use enigma_relay.Error.{Result, ok, err}
use enigma_relay.Store.{Base64, QueueMessage, PullBatch}
use enigma_relay.Store.Cursor.{decode_cursor-encode_cursor}
use enigma_relay.StoreMem.State.{RecipientState}
use enigma_relay.StoreMem.Pull.{start_seq, pull_from, pull_entry}
use enigma_relay.StoreMem.Pull.Refines.{pull_from-view, pull_from-IsWf}
use enigma_relay.StoreMem.Pull.Order.{
  Addressed, after, waiting-after, waiting-none, live-sweep, live-Addressed, live-Rising, Rising,
  after-Rising, after-All, after-is_after, after-after, last-take-All, last-take-some, after_last,
}
use enigma_relay.StoreMem.Wf.{IsWf}
use enigma_relay.StoreMem.Mailbox
use enigma_relay.StoreMem.Mailbox.{Mailbox, view, live, sweep, waiting, is_after, cursor_of}

-- What a client does with a page: it keeps the items, and asks for more if there is a cursor.
abbrev with_rest :
    (Text → RecipientState → List QueueMessage)
    → Result PullBatch × RecipientState
    → List QueueMessage
with_rest rest (err e, s) = []
with_rest rest (ok batch, s) = elim batch.next_cursor [
  | none ↦ batch.items
  | some c ↦ batch.items ++ rest c s
]

module _ (standard : Base64) (recipient : Text) (limit now_ms : ℕ) where
  -- The items of the pages that a client gets, at one time, until there is no cursor. Fuel counts
  -- the pulls.
  unfoldable pub follow : ℕ → Option Text → RecipientState → List QueueMessage
  follow zero cursor s = []
  follow (suc fuel) cursor s =
      with_rest (λ c s'. follow fuel (some c) s')
        (pull_entry standard recipient cursor limit now_ms s)

  abbrev page : ℕ
  page = min limit u32_max

  -- The page at a start: its items, its cursor and the state after it.
  module _ (start : Option ℕ) (s : RecipientState) (w : IsWf recipient s) where
    abbrev found : List QueueMessage
    found = waiting start now_ms s.queue

    abbrev next : RecipientState
    next = (pull_from standard start limit now_ms s).1

    pull_entry-ok :
        (cursor : Option Text)
        → start_seq standard recipient cursor ≡ ok start
        → pull_entry standard recipient cursor limit now_ms s
          ≡ (ok (Mailbox.pull standard start limit now_ms (view s)).0, next)
    unfolding pull_entry
    pull_entry-ok cursor at =
        rw (at, pull_entry, (pull_from-view standard start limit now_ms s w).0)

    follow-last :
        (fuel : ℕ) (cursor : Option Text)
        → start_seq standard recipient cursor ≡ ok start
        → length found ≤ page
        → follow (suc fuel) cursor s ≡ found
    unfolding follow Mailbox.pull
    follow-last fuel cursor at h =
        rw (pull_entry-ok cursor at) (ground (arith, take_of_length-le page found))

    follow-more :
        (fuel : ℕ) (cursor : Option Text) (m : QueueMessage)
        → start_seq standard recipient cursor ≡ ok start
        → page < length found
        → last (take page found) ≡ some m
        → follow (suc fuel) cursor s
          ≡ take page found ++ follow fuel (some (cursor_of standard m)) next
    unfolding follow Mailbox.pull
    follow-more fuel cursor m at h e = rw (pull_entry-ok cursor at, lt→ltb _ _ h, e) refl

    last_is_after :
        (m : QueueMessage) → last (take page found) ≡ some m → is_after start m.arrival_seq ≡ true
    last_is_after m e =
        last-take-All (λ x. is_after start x.arrival_seq ≡ true) page found m
          (rw (waiting-after recipient start now_ms s.queue w.filed) (after-is_after start _)) e

    found-Rising : Rising 0 found
    found-Rising =
        rw (waiting-after recipient start now_ms s.queue w.filed)
          (after-Rising start 0 _ (live-Rising recipient 0 s.seq now_ms s.queue w.ascends w.filed))

    page_end :
        (m : QueueMessage)
        → 0 < page
        → page < length found
        → last (take page found) ≡ some m
        → after (some m.arrival_seq) found ≡ drop page found
    page_end m p h e =
        let n : page ≡ suc (page - 1) = omega arith in
        rw n (after_last 0 (page - 1) found m found-Rising (omega arith) (rw n at e))

    -- The queue after the page has the same live messages, so the rest of the page is still waiting.
    waiting-next :
        (m : QueueMessage)
        → 0 < page
        → page < length found
        → last (take page found) ≡ some m
        → waiting (some m.arrival_seq) now_ms next.queue ≡ drop page found
    waiting-next m p h e =
        let w' = pull_from-IsWf standard start limit now_ms s w in
        let ms = live now_ms s.queue in
        let a = some m.arrival_seq in
        let split : found ≡ after start ms = waiting-after recipient start now_ms s.queue w.filed in
        let same : live now_ms next.queue ≡ ms =
          ap (λ (b : Mailbox). live now_ms b.messages)
            (pull_from-view standard start limit now_ms s w).1
          ∙ unfold Mailbox.pull in live-sweep start page now_ms now_ms s.queue (omega arith) in
        waiting-after recipient a now_ms next.queue w'.filed
        ∙ ap (after a) same
        ∙ sym (after-after start m.arrival_seq ms (last_is_after m e))
        ∙ rw (← split) (page_end m p h e)

  module _ (lacks : Lacks b':' recipient) (scalars : All IsScalar recipient) where
    start_seq-cursor_of :
        (m : QueueMessage)
        → Addressed recipient u64_max m
        → start_seq standard recipient (some (cursor_of standard m)) ≡ ok (some m.arrival_seq)
    unfolding start_seq
    start_seq-cursor_of m (r, b) = rw (
      r,
      decode_cursor-encode_cursor standard recipient m.arrival_seq scalars lacks (omega arith),
      ==_refl recipient,
    )

    last_Addressed :
        (start : Option ℕ) (s : RecipientState) (m : QueueMessage)
        → IsWf recipient s
        → last (take page (waiting start now_ms s.queue)) ≡ some m
        → Addressed recipient u64_max m
    last_Addressed start s m w e =
        let (r, b) =
          last-take-All (Addressed recipient s.seq) page (waiting start now_ms s.queue) m
            (rw (waiting-after recipient start now_ms s.queue w.filed) (
              after-All (Addressed recipient s.seq) start _
                (live-Addressed recipient 0 s.seq now_ms s.queue w.ascends w.filed)))
            e in
        (r, omega (arith, w.in_range))

    follow_from :
        (fuel : ℕ) (start : Option ℕ) (cursor : Option Text) (s : RecipientState)
        → IsWf recipient s
        → start_seq standard recipient cursor ≡ ok start
        → 0 < limit
        → length (waiting start now_ms s.queue) < fuel
        → follow fuel cursor s ≡ waiting start now_ms s.queue
    follow_from zero start cursor s w at p l = absurd (omega arith)
    follow_from (suc fuel) start cursor s w at p l =
        let ms = waiting start now_ms s.queue in
        elim (dec_lt page (length ms)) [
          | no h ↦ follow-last start s w fuel cursor at (omega arith)
          | yes h ↦
              let (m, e') = last-take-some page ms (omega arith) (omega arith) in
              let rest : waiting (some m.arrival_seq) now_ms (next start s w).queue ≡ drop page ms =
                waiting-next start s w m (omega arith) h e' in
              follow-more start s w fuel cursor m at h e'
              ∙ ap (◌++◌ (take page ms)) (
                  follow_from fuel (some m.arrival_seq) (some (cursor_of standard m))
                    (next start s w) (pull_from-IsWf standard start limit now_ms s w)
                    (start_seq-cursor_of m (last_Addressed start s m w e')) p
                    (rw rest (omega (arith, length-drop page ms)))
                  ∙ rest)
              ∙ take-append-drop page ms
        ]

    -- From a well-formed state, a client that follows the cursors at one time gets every live
    -- message of the recipient, once and in order of arrival, if the recipient is text without a
    -- colon, the limit is positive and the pulls are more than the live messages.
    pub follow-live :
        (fuel : ℕ) (s : RecipientState)
        → IsWf recipient s
        → 0 < limit
        → length (live now_ms s.queue) < fuel
        → follow fuel none s ≡ live now_ms s.queue
    unfolding start_seq
    follow-live fuel s w p l =
        let all = waiting-none now_ms s.queue in
        follow_from fuel none none s w refl p (omega (arith, ap length all)) ∙ all
