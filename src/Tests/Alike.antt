-- ===== src/Tests/Alike.antt =====
-- The two stores side by side at concrete inputs.
use enigma_relay.Base.{String, ◌≡◌, refl, none, some, List, [], ◌∷◌, map, arith}
use enigma_relay.Base.Eq.{nat_eq, pair_eq, list_eq}
use enigma_relay.Base.Map.{lookup, lookup-insert_self}
use enigma_relay.Error.{err}
use enigma_relay.Store.{AckItem}
use enigma_relay.StoreMem.State.{RecipientState, MemStore, new, default_state}
use enigma_relay.StoreMem.Mailbox.{distinct}
use enigma_relay.StoreMem.Push
use enigma_relay.StoreMem.Push.{push_entry}
use enigma_relay.StoreMem.Pull
use enigma_relay.StoreMem.Ack
use enigma_relay.StoreMem.Invariant.{IsValid}
use enigma_relay.StoreSled.Db.{Entries, done, with_prefix}
use enigma_relay.StoreSled.State.{SledStore}
use enigma_relay.StoreSled.Push.{push}
use enigma_relay.StoreSled.Pull.{pull}
use enigma_relay.StoreSled.Pull.Refines.{Delivers}
use enigma_relay.StoreSled.Ack.{ack}
use enigma_relay.StoreSled.Logic.{
  Fails, at_get, at_insert, at_remove, at_iter, at_scan, at_flush, at_commit, Has, view, Ends,
}
use enigma_relay.StoreSled.Alike.{Backs, push_step, ack_step, Reach, start, next, Reach-Backs}
use enigma_relay.StoreSled.Alike.Answers.{push-Reach, ack-Reach, pull-Reach}
use enigma_relay.Tests.Data.{latin, alice, message, limits, in_order, in_order-Arranges}
use enigma_relay.Tests.Disk.{disk, quota_json, message_json}
use enigma_relay.Tests.Keys.{uuid}
use enigma_relay.Tests.SledStore.{empty_store, alice-IsPlain}

-- No call of this disk fails.
not_among : (text : String) (m : Entries) → ¬ Has text (map done m)
not_among text [] has = has
not_among text (e ∷ m) has = not_among text m has

never : (text : String) → ¬ Fails disk text
never text (at_get key t e) = cc
never text (at_insert key value t e) = cc
never text (at_remove key t e) = cc
never text (at_iter t has) = not_among text t.0 has
never text (at_scan prefix t has) = not_among text (with_prefix prefix t.0) has
never text (at_flush t e) = cc
never text (at_commit fails) = fails

-- Both stores after a push.
abbrev disk_one : SledStore disk
disk_one = (push disk message_json quota_json uuid (message 5 200) limits empty_store).1

abbrev mem_one : MemStore
mem_one = (Push.push (message 5 200) limits new).1

one_reach : Reach disk message_json quota_json uuid in_order in_order-Arranges disk_one mem_one
unfolding lookup
one_reach = next (start refl) (
    push_step (message 5 200) limits alice-IsPlain (omega arith) (omega arith) (omega arith)
      (omega arith))

abbrev acked : List AckItem
acked = record { message_id = 5; chunk_index = 0 } ∷ record { message_id = 6; chunk_index = 0 } ∷ []

-- And after an acknowledgement of it.
abbrev disk_two : SledStore disk
disk_two = (ack disk message_json quota_json uuid alice in_order acked disk_one).1

abbrev mem_two : MemStore
mem_two = (Ack.ack in_order alice acked mem_one).1

two_reach : Reach disk message_json quota_json uuid in_order in_order-Arranges disk_two mem_two
two_reach = next one_reach (ack_step alice acked alice-IsPlain (omega arith) (omega arith))

Reach-Backs_example : IsValid mem_two × Backs disk message_json quota_json uuid disk_two mem_two
Reach-Backs_example =
    Reach-Backs disk message_json quota_json uuid in_order in_order-Arranges never two_reach

push-Reach_example :
    (push disk message_json quota_json uuid (message 5 200) limits disk_two).0
    ≡ (Push.push (message 5 200) limits mem_two).0
push-Reach_example =
    push-Reach disk message_json quota_json uuid in_order in_order-Arranges never disk_two mem_two
      two_reach (message 5 200) limits alice-IsPlain (omega arith) (omega arith)

ack-Reach_example :
    (ack disk message_json quota_json uuid alice in_order acked disk_one).0
    ≡ (Ack.ack in_order alice acked mem_one).0
unfolding distinct
ack-Reach_example =
    ack-Reach disk message_json quota_json uuid in_order in_order-Arranges never disk_one mem_one
      one_reach alice acked alice-IsPlain (omega arith) (omega arith) refl

abbrev one_state : RecipientState
one_state = (push_entry (message 5 200) limits default_state).1

one_known : lookup alice mem_one ≡ some one_state
unfolding Push.push lookup
one_known = lookup-insert_self alice one_state new

pull-Reach_example :
    Ends disk
      (Delivers one_state (view disk disk_one) (Pull.pull latin alice none 10 150 mem_one).0)
      (λ e v. (v ≡ view disk disk_one) × ((Pull.pull latin alice none 10 150 mem_one).0 ≡ err e))
      (pull disk message_json quota_json latin alice none 10 150 disk_one)
pull-Reach_example =
    pull-Reach disk message_json quota_json uuid in_order in_order-Arranges never disk_one mem_one
      one_reach latin alice none 10 150 one_state alice-IsPlain one_known
