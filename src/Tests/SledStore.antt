-- ===== src/Tests/SledStore.antt =====
-- The store on disk at concrete inputs.
use enigma_relay.Base.{
  refl, sym, subst, none, List, [], ◌∷◌, arith, All, min, ◌≢◌, Bool-cases, inl, inr, if◌then◌else◌,
}
use enigma_relay.Base.Text.{Text}
use enigma_relay.Base.Eq.{◌==◌, nat_eq, list_eq, pair_eq}
use enigma_relay.Base.Map.{lookup, contains_key, insert_sorted}
use enigma_relay.Error.{ok}
use enigma_relay.Store.{AckItem}
use enigma_relay.StoreMem.State.{RecipientState, default_state, to_stored}
use enigma_relay.StoreMem.Wf.{IsWf, default_state-IsWf}
use enigma_relay.StoreMem.Push.Refines.{push_entry-IsWf}
use enigma_relay.StoreSled.Keys.{quota_key, seq_key, index_key, encode_u64}
use enigma_relay.StoreSled.Keys.Order.{IsPlain}
use enigma_relay.StoreSled.Db.{Bytes, insert_key, with_prefix}
use enigma_relay.StoreSled.State.{SledStore, QuotaValue}
use enigma_relay.StoreSled.Logic.{view, Ends, IsStorage}
use enigma_relay.StoreSled.Represents.{Represents, key_at, stored, Agrees, Refuses}
use enigma_relay.StoreSled.Push.Written.{accepted, pushed-Represents, pushed-Represents_other}
use enigma_relay.StoreSled.Push.Refines.{push-Refines}
use enigma_relay.StoreSled.Pull.Refines.{pull-Refines, Delivers, PullFails}
use enigma_relay.StoreSled.Pull.{pull}
use enigma_relay.StoreSled.Purge.{gc_batch_limit, purge_expired}
use enigma_relay.StoreSled.Purge.Step.{States, Owned}
use enigma_relay.StoreSled.Purge.Refines.{Stores, Cleaned, purge_expired-Cleaned}
use enigma_relay.StoreSled.Push.{push}
use enigma_relay.StoreSled.Ack.{ack}
use enigma_relay.StoreMem.Pull.{pull_entry}
use enigma_relay.StoreMem.Ack.{ack_entry}
use enigma_relay.StoreMem.Push.{push_entry}
use enigma_relay.StoreSled.Ack.Refines.{ack-Refines}
use enigma_relay.Tests.Data.{latin, alice, message, limits, in_order, in_order-Arranges}
use enigma_relay.Tests.Disk.{disk, quota_json, message_json, message_bytes, insert_key-Ascending}
use enigma_relay.Tests.Keys.{uuid}

abbrev one_tree : Bytes → Bytes → disk.Tree
one_tree key value = (insert_key key value [], insert_key-Ascending key value [] tt)

abbrev pub empty_store : SledStore disk
empty_store = record { messages = ([], tt); index = ([], tt); quota = ([], tt); seq = ([], tt) }

pub alice-IsPlain : IsPlain alice
alice-IsPlain = record { is_scalar = omega arith; no_colon = omega arith }

empty_Represents :
    (r : Text) → Represents message_json quota_json uuid r (view disk empty_store) default_state
unfolding lookup with_prefix stored
empty_Represents r = record {
  queued = refl;
  indexed = λ id chunk b l. refl;
  weighed = refl;
  numbered = refl;
}

push-Refines_example :
    Ends disk
      (Agrees disk message_json quota_json uuid alice
        (view disk empty_store)
        (push_entry (message 5 200) limits default_state))
      (Refuses disk message_json quota_json uuid alice
        (view disk empty_store)
        (push_entry (message 5 200) limits default_state))
      (push disk message_json quota_json uuid (message 5 200) limits empty_store)
push-Refines_example =
    push-Refines disk message_json quota_json uuid (message 5 200) limits alice-IsPlain
      (omega arith) (omega arith) empty_store default_state (default_state-IsWf alice)
      (empty_Represents alice)

-- The store after that push, and the state that its trees hold.
abbrev one_quota : QuotaValue
one_quota = record { bytes = 3; count = 1 }

abbrev one_state : RecipientState
one_state = accepted (message 5 200) one_quota default_state

abbrev one_store : SledStore disk
one_store = record {
  messages =
      one_tree (key_at uuid alice 0 (to_stored (message 5 200) 0))
        (message_bytes (to_stored (message 5 200) 0));
  index = one_tree (index_key uuid alice 5 0) (encode_u64 0);
  quota = one_tree (quota_key alice) (3 ∷ 1 ∷ []);
  seq = one_tree (seq_key alice) (encode_u64 1);
}

one_Represents : Represents message_json quota_json uuid alice (view disk one_store) one_state
one_Represents =
    pushed-Represents message_json quota_json uuid (message 5 200) alice-IsPlain (omega arith)
      (omega arith) one_quota (view disk empty_store) default_state (default_state-IsWf alice) tt
      (empty_Represents alice)

one_state-IsWf : IsWf alice one_state
unfolding push_entry lookup contains_key insert_sorted
one_state-IsWf =
    push_entry-IsWf (message 5 200) default_state limits (default_state-IsWf alice) refl
      (omega arith) (omega arith)

pull-Refines_example :
    Ends disk
      (Delivers one_state (view disk one_store) (pull_entry latin alice none 10 150 one_state).0)
      (PullFails disk (view disk one_store) (pull_entry latin alice none 10 150 one_state).0)
      (pull disk message_json quota_json latin alice none 10 150 one_store)
pull-Refines_example =
    pull-Refines disk message_json quota_json uuid latin alice alice-IsPlain one_store one_state
      one_state-IsWf one_Represents none 10 150

abbrev acked : List AckItem
acked = record { message_id = 5; chunk_index = 0 } ∷ record { message_id = 6; chunk_index = 0 } ∷ []

ack-Refines_example :
    Ends disk
      (Agrees disk message_json quota_json uuid alice
        (view disk one_store)
        (ok (ack_entry in_order acked one_state).0, (ack_entry in_order acked one_state).1))
      (Refuses disk message_json quota_json uuid alice
        (view disk one_store)
        (ok (ack_entry in_order acked one_state).0, (ack_entry in_order acked one_state).1))
      (ack disk message_json quota_json uuid alice in_order acked one_store)
ack-Refines_example =
    ack-Refines disk message_json quota_json uuid alice alice-IsPlain one_store one_state
      one_state-IsWf one_Represents in_order in_order-Arranges acked (omega arith)

-- The states of all recipients, of whom one has a message.
abbrev states : States
states r = if r == alice then one_state else default_state

states-Stores : Stores message_json quota_json uuid (view disk one_store) states
states-Stores r plain = elim (Bool-cases (r == alice)) [
  | inl same ↦ rw same (
      subst
        (λ x.
          IsWf x one_state
          × Represents message_json quota_json uuid x (view disk one_store) one_state)
        (sym ((list_eq.same_iff r alice).0 same)) (one_state-IsWf, one_Represents))
  | inr other ↦
      let apart : alice ≢ r = λ e. ground (arith, list_eq.same_iff r alice, e) in
      rw other (
        default_state-IsWf r,
        pushed-Represents_other message_json quota_json uuid (message 5 200) alice-IsPlain
            (omega arith) (omega arith) one_quota (view disk empty_store) 0 r default_state plain
            apart (empty_Represents r),
      )
]

one_Owned : All (Owned message_json quota_json uuid states) (view disk one_store).messages
unfolding lookup insert_key
one_Owned = (
  record {
    seq = 0;
    message = to_stored (message 5 200) 0;
    plain = alice-IsPlain;
    fits = (omega arith, omega arith);
    held = refl;
    key = refl;
    value = refl;
  },
  tt,
)

purge_expired-Cleaned_example :
    Ends disk
      (Cleaned disk message_json quota_json uuid 300 (min 10 gc_batch_limit) states)
      (λ e v. IsStorage disk e)
      (purge_expired disk message_json quota_json uuid 300 10 one_store)
purge_expired-Cleaned_example =
    purge_expired-Cleaned disk message_json quota_json uuid 300 10 one_store states states-Stores
      one_Owned
