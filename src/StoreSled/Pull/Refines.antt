-- ===== src/StoreSled/Pull/Refines.antt =====
-- `SledStore::pull` of src/store_sled.rs delivers what `MemStore::pull` delivers, and leaves the trees
-- as they are.
use enigma_relay.Base.{
  ℕ, zero, suc, ◌≡◌, refl, sym, ap, subst, ◌∙◌, ◌⊎◌, Option, none, some, List, [], ◌∷◌, arith, ltb,
  if◌then◌else◌, inl, inr, String, length, take, last, min, sat_sub, u32_max, All,
}
use enigma_relay.Base.Text.{Text}
use enigma_relay.Base.Eq.{nat_eq, pair_eq, list_eq}
use enigma_relay.Error.{EnigmaRelayError, Result, ok, err, storage_error, Result-cases}
use enigma_relay.Error.Action.{Action, ◌>>=◌, lift}
use mathlib.Core.Option
use enigma_relay.Store.{QueueMessage, PullBatch, Base64, encode_cursor}
use enigma_relay.StoreMem.State.{Queue, RecipientState}
use enigma_relay.StoreMem.Wf.{IsWf, Filed}
use enigma_relay.StoreMem.Mailbox
use enigma_relay.StoreMem.Mailbox.{is_after, waiting, cursor_of}
use enigma_relay.StoreMem.Pull
use enigma_relay.StoreMem.Pull.{pull_from, pull_entry}
use enigma_relay.StoreMem.Pull.Refines.{pull_from-view}
use enigma_relay.StoreSled.Keys.{Hyphenated, message_prefix, quota_key}
use enigma_relay.StoreSled.Keys.Order.{IsPlain}
use enigma_relay.StoreSled.Db.{Bytes, Attempt, Json, Sled, Yields}
use enigma_relay.StoreSled.State.{QuotaValue, SledStore}
use enigma_relay.StoreSled.Trees.{read_quota_latest}
use enigma_relay.StoreSled.Scan.{Taken, start_seq, take_entries}
use enigma_relay.StoreSled.Scan.Collects.{Collects, page, take_entries-Collects}
use enigma_relay.StoreSled.Pull.{pull, scanned}
use enigma_relay.StoreSled.Logic.{
  View, Fails, at_scan, IsStorage, view, Ends, lifted_then, refused_then,
}
use enigma_relay.StoreSled.Represents.{quota_of, read_quota_tree_then, Represents}

-- The two stores read a cursor alike.
pub start_seq-StoreMem :
    (standard : Base64) (recipient : Text) (cursor : Option Text)
    → start_seq standard recipient cursor ≡ Pull.start_seq standard recipient cursor
unfolding start_seq Pull.start_seq
start_seq-StoreMem standard recipient none = refl
start_seq-StoreMem standard recipient (some raw) = refl

module _ (recipient : Text) where
  waiting-recipient :
      (start : Option ℕ) (now_ms : ℕ) (q : Queue)
      → All (Filed recipient) q
      → All (λ m. m.recipient ≡ recipient) (waiting start now_ms q)
  unfolding waiting
  waiting-recipient start now_ms [] h = tt
  waiting-recipient start now_ms ((seq, m) ∷ q) h =
      ground (arith, waiting-recipient start now_ms q h.1, h.0.1)

  take-All :
      (P : QueueMessage → Type 0) (n : ℕ) (xs : List QueueMessage) → All P xs → All P (take n xs)
  take-All P zero xs h = tt
  take-All P (suc n) [] h = tt
  take-All P (suc n) (x ∷ xs) h = (h.0, take-All P n xs h.1)

  -- The cursor of the last message, by its own recipient or by that of the pull.
  last_cursor :
      (standard : Base64) (xs : List QueueMessage)
      → All (λ m. m.recipient ≡ recipient) xs
      → Option.map
          (λ (item : QueueMessage). encode_cursor standard recipient item.arrival_seq)
          (last xs)
        ≡ Option.map (cursor_of standard) (last xs)
  last_cursor standard [] h = refl
  last_cursor standard (x ∷ []) h =
      ap (λ r. some (encode_cursor standard r x.arrival_seq)) (sym h.0)
  last_cursor standard (x ∷ y ∷ xs) h = last_cursor standard (y ∷ xs) h.1

-- A page has the messages and the cursor of the page of the store in memory; what remains is counted
-- with the expired messages, which are not removed.
abbrev pub SamePage : RecipientState → PullBatch → Result PullBatch → Type 0
SamePage s a (err e) = ⊥
SamePage s a (ok b) =
    (a.items ≡ b.items)
    × (a.next_cursor ≡ b.next_cursor)
    × (a.remaining_estimate ≡ sat_sub s.quota_count (length a.items))

abbrev pub Delivers : RecipientState → View → Result PullBatch → PullBatch → View → Type 0
Delivers s v mem a v' = (v' ≡ v) × SamePage s a mem

abbrev pub PullFails : Sled → View → Result PullBatch → EnigmaRelayError → View → Type 0
PullFails sled v mem e v' = (v' ≡ v) × (IsStorage sled e ⊎ (mem ≡ err e))

module _ (sled : Sled) (items : Json QueueMessage) (quotas : Json QuotaValue)
    (hyphenated : Hyphenated) (standard : Base64) (recipient : Text) (plain : IsPlain recipient)
    (store : SledStore sled) (s : RecipientState) (w : IsWf recipient s)
    (rep : Represents items quotas hyphenated recipient (view sled store) s) where
  module _ {κ} {B : Type κ} (Q : B → View → Type 0) (E : EnigmaRelayError → View → Type 0)
      (storage : (text : String) → Fails sled text → E (storage_error text) (view sled store)) where
    collected_then :
        (expected : Taken) (r : Result Taken) (k : Taken → Action (SledStore sled) B)
        → Collects expected (sled.scan_prefix (message_prefix recipient) store.messages) r
        → Ends sled Q E (k expected store)
        → Ends sled Q E ((lift r >>= k) store)
    unfolding ◌>>=◌
    collected_then expected (ok taken) k c h = rw c h
    collected_then expected (err e) k (text, same, has) h =
        rw same (storage text (at_scan (message_prefix recipient) store.messages has))

    scanned_then :
        (k : List (Attempt (Bytes × Bytes)) → Action (SledStore sled) B)
        → Ends sled Q E (k (sled.scan_prefix (message_prefix recipient) store.messages) store)
        → Ends sled Q E ((scanned sled items quotas standard recipient >>= k) store)
    unfolding ◌>>=◌
    scanned_then k h = h

  module _ (cursor : Option Text) (limit now_ms : ℕ) where
    abbrev mem : Result PullBatch
    mem = (pull_entry standard recipient cursor limit now_ms s).0

    abbrev Delivered : PullBatch → View → Type 0
    Delivered = Delivers s (view sled store) mem

    abbrev Failed : EnigmaRelayError → View → Type 0
    Failed = PullFails sled (view sled store) mem

    storage : (text : String) → Fails sled text → Failed (storage_error text) (view sled store)
    storage text fails = (refl, inl (text, refl, fails))

    mem_ok :
        (start : Option ℕ)
        → start_seq standard recipient cursor ≡ ok start
        → (pull_entry standard recipient cursor limit now_ms s).0
          ≡ ok (pull_from standard start limit now_ms s).0
    unfolding pull_entry
    mem_ok start good =
        rw (sym (start_seq-StoreMem standard recipient cursor) ∙ good, pull_entry) refl

    mem_err :
        (e : EnigmaRelayError)
        → start_seq standard recipient cursor ≡ err e
        → (pull_entry standard recipient cursor limit now_ms s).0 ≡ err e
    unfolding pull_entry
    mem_err e bad = rw (sym (start_seq-StoreMem standard recipient cursor) ∙ bad, pull_entry) refl

    same_page :
        (start : Option ℕ)
        → start_seq standard recipient cursor ≡ ok start
        → SamePage s
            (let taken = page (min limit u32_max) [] (waiting start now_ms s.queue) in
              record {
                items = taken.0;
                next_cursor =
                    if taken.1
                    then Option.map
                        (λ (item : QueueMessage). encode_cursor standard recipient item.arrival_seq)
                        (last taken.0)
                    else none;
                remaining_estimate = sat_sub s.quota_count (length taken.0);
              })
            mem
    unfolding Mailbox.pull
    same_page start good =
        let found = waiting start now_ms s.queue in
        let same = pull_from-view standard start limit now_ms s w in
        let cursors = last_cursor recipient standard (take (min limit u32_max) found) (
          take-All recipient (λ m. m.recipient ≡ recipient) (min limit u32_max) found
            (waiting-recipient recipient start now_ms s.queue w.filed)) in
        rw (mem_ok start good, same.0)
          (refl, ap (λ c. if ltb (min limit u32_max) (length found) then c else none) cursors, refl)

    collected :
        (start : Option ℕ)
        → Collects
            (page (min limit u32_max) [] (waiting start now_ms s.queue))
            (sled.scan_prefix (message_prefix recipient) store.messages)
            (take_entries items start
              (min limit u32_max)
              now_ms
              (sled.scan_prefix (message_prefix recipient) store.messages)
              [])
    collected start =
        let yields = sled.scan_prefix-Yields (message_prefix recipient) store.messages in
        take_entries-Collects items hyphenated recipient plain start (min limit u32_max) now_ms 0
          s.seq (min limit u32_max) _ s.queue [] (omega arith) w.ascends w.in_range
          (subst (Yields _) rep.queued yields)

    -- A pull from the store on disk leaves the trees as they are, and delivers the messages and the
    -- cursor that a pull from the store in memory delivers, with an estimate of what remains that
    -- counts the expired messages too; or it fails as that pull does, or with the error of a failed
    -- call of sled. The trees hold the well-formed state of the recipient, which is text without a
    -- colon.
    pub pull-Refines :
        Ends sled
          (Delivers s (view sled store) (pull_entry standard recipient cursor limit now_ms s).0)
          (PullFails sled (view sled store) (pull_entry standard recipient cursor limit now_ms s).0)
          (pull sled items quotas standard recipient cursor limit now_ms store)
    unfolding pull read_quota_latest
    pull-Refines = elim (Result-cases (start_seq standard recipient cursor)) [
      | inr (e, bad) ↦
          refused_then sled Delivered Failed _ e _ store bad (refl, inr (mem_err e bad))
      | inl (start, good) ↦ rw good (
          lifted_then sled Delivered Failed start _ store (
            scanned_then Delivered Failed storage _ (
              collected_then Delivered Failed storage
                (page (min limit u32_max) [] (waiting start now_ms s.queue)) _ _ (collected start)
                (read_quota_tree_then sled quotas Delivered Failed store storage
                  (quota_key recipient) (quota_of s) _ rep.weighed (refl, same_page start good)))))
    ]
