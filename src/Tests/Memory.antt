-- ===== src/Tests/Memory.antt =====
-- The store in memory at concrete inputs: alice's queue with two messages, from 200 ms and 300 ms on
-- expired.
use enigma_relay.Base.{
  ◌-◌, ℕ, ◌≡◌, ◌≤◌, ◌<◌, refl, true, false, none, some, List, [], ◌∷◌, arith, u64_max, min, subst,
}
use enigma_relay.Base.Text.{Lacks}
use enigma_relay.Base.Eq.{nat_eq, list_eq, pair_eq}
use enigma_relay.Base.Map.{lookup, insert, remove, contains_key, insert_sorted}
use enigma_relay.Base.Sort.{sort, place, text_leb}
use enigma_relay.Error.{ok, err, quota_exceeded}
use enigma_relay.Store.{AckItem}
use enigma_relay.StoreMem.State.{RecipientState, MemStore, new, to_stored, drop_seq, drop_all}
use enigma_relay.StoreMem.Push.{push_entry, push, entry_or_default}
use enigma_relay.StoreMem.Pull.{collect, entries_from, start_seq, pull_from, pull_entry, pull}
use enigma_relay.StoreMem.Mailbox
use enigma_relay.StoreMem.Mailbox.{view, live, distinct}
use enigma_relay.StoreMem.Push.Refines.{push_entry-view}
use enigma_relay.StoreMem.Pull.Refines.{pull_from-view}
use enigma_relay.StoreMem.Pull.Paging.{follow, follow-live}
use enigma_relay.StoreMem.Ack.Refines.{ack_entry-view}
use enigma_relay.StoreMem.Purge.Counts.{total}
use enigma_relay.StoreMem.Purge.Complete.{purge_expired-le, purge_expired-AllLive}
use enigma_relay.StoreMem.Purge.Timely.{AllLive, AreTimely}
use mathlib.Core.List.{Mem}
use enigma_relay.StoreMem.Delivery.{push-follow}
use enigma_relay.StoreMem.Push.Again.{push-push}
use enigma_relay.StoreMem.Ack.Again.{ack-ack}
use enigma_relay.StoreMem.Run.Kept.{Holds, here, more, Spared-Holds}
use enigma_relay.StoreMem.Run.Quota.{Limited, Limited-le}
use enigma_relay.StoreMem.Ack.{ack_item, ack_items, to_set, ack_entry, ack}
use enigma_relay.StoreMem.Purge.{
  expired_front, drop_counted, purge_entry, purge_recipient, purge_recipients, purge_expired,
}
use enigma_relay.StoreMem.Wf.{IsWf, total_bytes}
use enigma_relay.StoreMem.Invariant.{IsValid}
use enigma_relay.StoreMem.Run.{Reach, start, next, push_step, pull_step, ack_step, Reach-IsValid}
use enigma_relay.Tests.Data.{latin, alice, message, limits, in_order, in_order-Arranges}

abbrev pub entry2 : RecipientState
entry2 = record {
  seq = 2;
  queue = (0, to_stored (message 1 200) 0) ∷ (1, to_stored (message 2 300) 1) ∷ [];
  idx = ((1, 0), 0) ∷ ((2, 0), 1) ∷ [];
  quota_bytes = 6;
  quota_count = 2;
}

abbrev pub two : MemStore
two = (alice, entry2) ∷ []

abbrev one : MemStore
one = (push (message 1 200) limits new).1

room_one : (entry_or_default alice new).seq < u64_max
unfolding lookup
room_one = omega arith

room_two : (entry_or_default alice one).seq ≡ 1
unfolding push_entry push lookup insert contains_key insert_sorted
room_two = refl

two_run : (push (message 2 300) limits one).1 ≡ two
unfolding push_entry push lookup insert contains_key insert_sorted
two_run = refl

two-Reach : Reach latin two
two-Reach = subst (Reach latin) two_run (
    next (next start (push_step (message 1 200) limits room_one (omega arith)))
      (push_step (message 2 300) limits (omega (arith, room_two)) (omega arith)))

pub two-IsValid : IsValid two
two-IsValid = Reach-IsValid latin two-Reach

alice_entry : lookup alice two ≡ some entry2
unfolding lookup
alice_entry = refl

entry2-IsWf : IsWf alice entry2
entry2-IsWf = two-IsValid.at alice entry2 alice_entry

Reach-IsValid_example : IsValid two
Reach-IsValid_example = Reach-IsValid latin two-Reach

-- A third message is stored, and a fourth is refused.
push_full : (push (message 4 900) limits (push (message 3 400) limits two).1).0 ≡ err quota_exceeded
unfolding push_entry push lookup insert contains_key insert_sorted
push_full = refl

-- At 250 ms the first message has expired, and the pull drops it.
pull_second :
    (pull latin alice none 5 250 two).1
    ≡ (
      alice,
      record entry2 {
        queue = (1, to_stored (message 2 300) 1) ∷ [];
        idx = ((2, 0), 1) ∷ [];
        quota_bytes = 3;
        quota_count = 1;
      },
    )
      ∷ []
unfolding pull pull_entry pull_from start_seq collect entries_from drop_all drop_seq lookup insert
    remove
pull_second = refl

push_entry-view_example :
    ((push_entry (message 3 400) limits entry2).0
      ≡ (Mailbox.push (message 3 400) limits (view entry2)).0)
    × (view (push_entry (message 3 400) limits entry2).1
        ≡ (Mailbox.push (message 3 400) limits (view entry2)).1)
push_entry-view_example =
    push_entry-view (message 3 400) entry2 limits entry2-IsWf (omega arith) (omega arith)

pull_from-view_example :
    ((pull_from latin (some 0) 1 250 entry2).0
      ≡ (Mailbox.pull latin (some 0) 1 250 (view entry2)).0)
    × (view (pull_from latin (some 0) 1 250 entry2).1
        ≡ (Mailbox.pull latin (some 0) 1 250 (view entry2)).1)
pull_from-view_example = pull_from-view latin (some 0) 1 250 entry2 entry2-IsWf

abbrev item : ℕ → AckItem
item id = record { message_id = id; chunk_index = 0 }

-- One that is there, twice, and one that is not.
abbrev named : List AckItem
named = item 1 ∷ item 7 ∷ item 1 ∷ []

ack_entry-view_example :
    ((ack_entry in_order named entry2).0 ≡ (Mailbox.ack named (view entry2)).0)
    × (view (ack_entry in_order named entry2).1 ≡ (Mailbox.ack named (view entry2)).1)
ack_entry-view_example =
    ack_entry-view in_order in_order-Arranges named entry2 entry2-IsWf (omega arith)

alice-Lacks : Lacks b':' alice
alice-Lacks = omega arith

follow-live_example : follow latin alice 1 100 3 none entry2 ≡ live 100 entry2.queue
unfolding live
follow-live_example =
    follow-live latin alice 1 100 alice-Lacks (omega arith) 3 entry2 entry2-IsWf (omega arith)
      (omega arith)

purge_expired-le_example :
    (removed : ℕ) × ((purge_expired 250 9 two).0 ≡ ok removed)
    × (removed ≤ min 9 1024)
    × (total (purge_expired 250 9 two).1 ≤ total two)
    × (total two - total (purge_expired 250 9 two).1 ≡ removed)
purge_expired-le_example = purge_expired-le 250 9 two two-IsValid

two-AreTimely : AreTimely two
unfolding lookup
two-AreTimely r s e = ground arith

-- At 250 ms one message has expired.
pub two-purged : (purge_expired 250 9 two).0 ≡ ok 1
unfolding purge_expired purge_recipients purge_recipient purge_entry drop_counted expired_front
    drop_seq contains_key lookup insert remove sort place text_leb
two-purged = refl

purged_entry :
    lookup alice (purge_expired 250 9 two).1
    ≡ some (record entry2 {
      queue = (1, to_stored (message 2 300) 1) ∷ [];
      idx = ((2, 0), 1) ∷ [];
      quota_bytes = 3;
      quota_count = 1;
    })
unfolding purge_expired purge_recipients purge_recipient purge_entry drop_counted expired_front
    drop_seq contains_key lookup insert remove sort place text_leb
purged_entry = refl

purge_expired-AllLive_example : AllLive 250 ((1, to_stored (message 2 300) 1) ∷ [])
purge_expired-AllLive_example =
    purge_expired-AllLive 250 9 1 two two-IsValid two-AreTimely two-purged (omega arith) alice _
      purged_entry

second_stored :
    (push (message 2 300) limits one).0
    ≡ ok (record { stored = true; duplicate = false; queue_len = 2; queue_bytes = 6 })
unfolding push_entry push lookup insert contains_key insert_sorted
second_stored = refl

push-push_example : push (message 2 999) limits (push (message 2 300) limits one).1 ≡ (
  ok (record { stored = false; duplicate = true; queue_len = 2; queue_bytes = 6 }),
  (push (message 2 300) limits one).1,
)
push-push_example =
    push-push (message 2 300) (message 2 999) limits limits one _ refl refl second_stored

abbrev entry1 : RecipientState
entry1 = record entry2 {
  queue = (1, to_stored (message 2 300) 1) ∷ [];
  idx = ((2, 0), 1) ∷ [];
  quota_bytes = 3;
  quota_count = 1;
}

acked_answer :
    (ack in_order alice named two).0 ≡ ok (record { deleted = 1; missing = 1; remaining = 1 })
unfolding ack ack_entry ack_items ack_item to_set lookup insert remove
acked_answer = refl

acked_entry : lookup alice (ack in_order alice named two).1 ≡ some entry1
unfolding ack ack_entry ack_items ack_item to_set lookup insert remove
acked_entry = refl

acked_again :
    lookup alice (ack in_order alice named (ack in_order alice named two).1).1 ≡ some entry1
unfolding ack ack_entry ack_items ack_item to_set lookup insert remove
acked_again = refl

ack-ack_example :
    ((ack in_order alice named (ack in_order alice named two).1).0
      ≡ ok (record { deleted = 0; missing = distinct named; remaining = 1 }))
    × (view entry1 ≡ view entry1)
ack-ack_example =
    ack-ack in_order alice named two entry2 entry1 entry1 _ in_order-Arranges (omega arith)
      two-IsValid alice_entry acked_answer acked_entry acked_again

second_held : lookup 1 entry2.queue ≡ some (to_stored (message 2 300) 1)
unfolding lookup
second_held = refl

-- The second message is there after the first one is acknowledged and a pull at 250 ms.
Spared-Holds_example :
    Holds alice
      (to_stored (message 2 300) 1)
      (pull latin alice none 5 250 (ack in_order alice named two).1).1
Spared-Holds_example =
    Spared-Holds latin alice (to_stored (message 2 300) 1)
      (more
        (more here (ack_step in_order alice named in_order-Arranges (omega arith)) (λ same. refl))
        (pull_step alice none 5 250) (omega arith))
      two-IsValid (record { entry = entry2; seq = 1; found = alice_entry; queued = second_held })

two-Limited : Limited limits latin two
two-Limited = subst (Limited limits latin) two_run (
    Limited.next
      (Limited.next Limited.start (push_step (message 1 200) limits room_one (omega arith)) refl)
      (push_step (message 2 300) limits (omega (arith, room_two)) (omega arith)) refl)

Limited-le_example : (2 ≤ 3) × (total_bytes entry2.queue ≤ 32)
Limited-le_example = Limited-le limits latin two-Limited alice entry2 alice_entry

third_stored :
    (push (message 3 400) limits two).0
    ≡ ok (record { stored = true; duplicate = false; queue_len = 3; queue_bytes = 9 })
unfolding push_entry push lookup insert contains_key insert_sorted
third_stored = refl

room_three : (entry_or_default alice two).seq ≡ 2
unfolding lookup
room_three = refl

push-follow_example :
    (entry : RecipientState) × (lookup alice (push (message 3 400) limits two).1 ≡ some entry)
    × Mem
        (to_stored (message 3 400) (entry_or_default alice two).seq)
        (follow latin alice 1 350 4 none entry)
push-follow_example =
    push-follow latin (message 3 400) limits two _ 1 350 4 two-IsValid (omega (arith, room_three))
      (omega arith) third_stored refl alice-Lacks (omega arith) (omega arith) (omega arith)
      (omega arith)
