-- ===== src/StoreSled/Alike/Answers.antt =====
-- What the stores of src/store_sled.rs and src/store_mem.rs answer after the same pushes and
-- acknowledgements.
use enigma_relay.Base.{
  String, ℕ, ◌^◌, ◌≤◌, ◌<◌, ◌-◌, ◌≡◌, refl, ap, subst, ◌∙◌, Option, some, List, [], arith, inl, inr,
  u64_max, length, All, Option-cases,
}
use enigma_relay.Base.Text.{Text}
use enigma_relay.Base.Eq.{nat_eq, pair_eq, list_eq}
use enigma_relay.Base.Map.{lookup}
use enigma_relay.Error.{ok, err}
use enigma_relay.Config.{RelayLimits}
use enigma_relay.Store.{InboundMessage, QueueMessage, AckItem, Base64}
use enigma_relay.StoreMem.State.{RecipientState, MemStore, default_state}
use enigma_relay.StoreMem.Wf.{IsWf, default_state-IsWf}
use enigma_relay.StoreMem.Mailbox
use enigma_relay.StoreMem.Mailbox.{distinct, unacked}
use enigma_relay.StoreMem.Push
use enigma_relay.StoreMem.Push.{entry_or_default}
use enigma_relay.StoreMem.Pull
use enigma_relay.StoreMem.Pull.{pull_entry}
use enigma_relay.StoreMem.Ack
use enigma_relay.StoreMem.Ack.{ack_entry}
use enigma_relay.StoreMem.Ack.Refines.{Arranges, ack_entry-view}
use enigma_relay.StoreMem.Invariant.{IsValid, entry_or_default-IsWf}
use enigma_relay.StoreSled.Keys.{Hyphenated}
use enigma_relay.StoreSled.Keys.Order.{IsPlain}
use enigma_relay.StoreSled.Db.{Json, Sled}
use enigma_relay.StoreSled.State.{QuotaValue, SledStore}
use enigma_relay.StoreSled.Push.{push}
use enigma_relay.StoreSled.Pull.{pull}
use enigma_relay.StoreSled.Pull.Refines.{Delivers, PullFails, pull-Refines}
use enigma_relay.StoreSled.Ack.{ack}
use enigma_relay.StoreSled.Logic.{Fails, view, Ends, Ends-weaken}
use enigma_relay.StoreSled.Represents.{Represents}
use enigma_relay.StoreSled.Ack.Loop.{Fits}
use enigma_relay.StoreSled.Alike.{Backs, Reach, Reach-Backs, push_end, ack_end}

-- Of an unknown recipient all distinct items are missing.
missing_all :
    (order : List AckItem → List AckItem) (xs : List AckItem)
    → Arranges order
    → length xs ≤ u64_max
    → (ack_entry order xs default_state).0
      ≡ record { deleted = 0; missing = distinct xs; remaining = 0 }
unfolding Mailbox.ack unacked
missing_all order xs arranges l =
    (ack_entry-view order arranges xs default_state (default_state-IsWf []) l).0
    ∙ ap (λ n. record { deleted = 0; missing = n; remaining = 0 }) (minus_none (distinct xs))
  where
    minus_none : (n : ℕ) → n - 0 ≡ n
    minus_none n = omega arith

module _ (sled : Sled) (items : Json QueueMessage) (quotas : Json QuotaValue)
    (hyphenated : Hyphenated) (order : List AckItem → List AckItem) (arranges : Arranges order)
    (never : (text : String) → ¬ Fails sled text) (d : SledStore sled) (m : MemStore)
    (reach : Reach sled items quotas hyphenated order arranges d m) where
  abbrev both : IsValid m × Backs sled items quotas hyphenated d m
  both = Reach-Backs sled items quotas hyphenated order arranges never reach

  -- After the same pushes and acknowledgements of both stores, a push to the store on disk gives
  -- the answer that it gives at the store in memory, an error included. No call of sled fails, each
  -- call of the run meets the conditions of its step, and the push is to a recipient without a colon
  -- and has a 128-bit id and a 32-bit chunk.
  pub push-Reach :
      (msg : InboundMessage) (limits : RelayLimits)
      → IsPlain msg.recipient
      → msg.message_id < 2 ^ 128
      → msg.meta.chunk_index < 2 ^ 32
      → (push sled items quotas hyphenated msg limits d).0 ≡ (Push.push msg limits m).0
  push-Reach msg limits plain id chunk =
      (push_end sled items quotas hyphenated order arranges never msg limits plain id chunk d m
        both.0 both.1).0

  -- After the same pushes and acknowledgements of both stores, an acknowledgement of different items,
  -- no more than a u64 counts, at the store on disk gives the answer that it gives at the store in
  -- memory. No call of sled fails, each call of the run meets the conditions of its step, the
  -- recipient has no colon, and the items are 128-bit ids and 32-bit chunks.
  pub ack-Reach :
      (r : Text) (xs : List AckItem)
      → IsPlain r
      → All Fits xs
      → length xs ≤ u64_max
      → distinct xs ≡ length xs
      → (ack sled items quotas hyphenated r order xs d).0 ≡ (Ack.ack order r xs m).0
  unfolding Ack.ack
  ack-Reach r xs plain fits l once =
      let same =
        (ack_end sled items quotas hyphenated order arranges never r xs plain fits d m both.0
          both.1).0 in
      elim (Option-cases (lookup r m)) [
        | inl missing ↦
            let all = missing_all order xs arranges l in
            rw (missing, Ack.ack)
              (rw missing at same
                ∙ ap ok (all ∙ ap (λ n. record { deleted = 0; missing = n; remaining = 0 }) once))
        | inr (entry, known) ↦ rw (known, Ack.ack) (rw known at same)
      ]

  pull_known :
      (standard : Base64) (r : Text) (cursor : Option Text) (limit now_ms : ℕ) (s : RecipientState)
      → lookup r m ≡ some s
      → (pull_entry standard r cursor limit now_ms s).0
        ≡ (Pull.pull standard r cursor limit now_ms m).0
  unfolding Pull.pull
  pull_known standard r cursor limit now_ms s known = rw (known, Pull.pull) refl

  known_entry : (r : Text) (s : RecipientState) → lookup r m ≡ some s → entry_or_default r m ≡ s
  known_entry r s known = rw known refl

  -- After the same pushes and acknowledgements of both stores, a pull from the store on disk for a
  -- recipient that is known to the store in memory delivers the messages and the cursor that a pull
  -- from that store delivers, with an estimate that counts the expired messages too, or fails as it
  -- does, and leaves the trees as they are. No call of sled fails, each
  -- call of the run meets the conditions of its step, and the recipient has no colon.
  pub pull-Reach :
      (standard : Base64) (r : Text) (cursor : Option Text) (limit now_ms : ℕ) (s : RecipientState)
      → IsPlain r
      → lookup r m ≡ some s
      → Ends sled
          (Delivers s (view sled d) (Pull.pull standard r cursor limit now_ms m).0)
          (λ e v. (v ≡ view sled d) × ((Pull.pull standard r cursor limit now_ms m).0 ≡ err e))
          (pull sled items quotas standard r cursor limit now_ms d)
  pull-Reach standard r cursor limit now_ms s plain known =
      let same = known_entry r s known in
      let result = (pull_entry standard r cursor limit now_ms s).0 in
      subst
        (λ given.
          Ends sled (Delivers s (view sled d) given) (λ e v. (v ≡ view sled d) × (given ≡ err e))
            (pull sled items quotas standard r cursor limit now_ms d))
        (pull_known standard r cursor limit now_ms s known)
        (Ends-weaken sled _ (Delivers s (view sled d) result) (PullFails sled (view sled d) result)
          (λ e v. (v ≡ view sled d) × (result ≡ err e)) (λ a v h. h)
          (λ e v h. (
            h.0,
            elim h.1 [
              | inl (text, storage, fails) ↦ absurd (never text fails)
              | inr failed ↦ failed
            ],
          ))
          _
          (pull-Refines sled items quotas hyphenated standard r plain d s
            (subst (IsWf r) same (entry_or_default-IsWf r m both.0))
            (subst (Represents items quotas hyphenated r (view sled d)) same (both.1 r plain))
            cursor limit now_ms))
