-- ===== src/StoreSled/Scan/Collects.antt =====
-- The loop of `SledStore::pull` of src/store_sled.rs takes the first messages that wait after the
-- start, and tells whether there are more.
use enigma_relay.Base.{
  ℕ, zero, suc, ◌+◌, ◌≤◌, ◌≡◌, refl, sym, true, false, not, Option, none, some, List, [], ◌∷◌, ◌++◌,
  arith, ltb, leb, if◌then◌else◌, u64_max, Bool-cases, inl, inr, String, length, take, take_nil,
  append-nil, append_assoc, length-append,
}
use enigma_relay.Base.Text.{Text}
use enigma_relay.Base.Map.{Ascends, Ascends-le}
use enigma_relay.Error.{Result, ok, err, storage_error}
use enigma_relay.Store.{QueueMessage}
use enigma_relay.StoreMem.State.{Queue}
use enigma_relay.StoreMem.Mailbox.{is_after, waiting}
use enigma_relay.StoreSled.Keys.{Hyphenated}
use enigma_relay.StoreSled.Keys.Reads.{parse_seq_from_key-message_key}
use enigma_relay.StoreSled.Keys.Order.{IsPlain}
use enigma_relay.StoreSled.Db.{Bytes, Attempt, done, failed, Json, Yields}
use enigma_relay.StoreSled.Scan.{Taken, passed, take_entries}
use enigma_relay.StoreSled.Logic.{Has}
use enigma_relay.StoreSled.Represents.{bytes_of, key_at, stored}

-- The loop ends with what is expected, or with the error of a failed step of the iterator.
abbrev pub Collects : Taken → List (Attempt (Bytes × Bytes)) → Result Taken → Type 0
Collects expected attempts (ok taken) = taken ≡ expected
Collects expected attempts (err e) = (text : String) × (e ≡ storage_error text) × Has text attempts

-- What the loop takes of the messages that wait, with room for `n`.
abbrev pub page : ℕ → List QueueMessage → List QueueMessage → Taken
page n taken found = (taken ++ take n found, ltb n (length found))

Collects-later :
    (expected : Taken) (item : Bytes × Bytes) (attempts : List (Attempt (Bytes × Bytes)))
    (r : Result Taken)
    → Collects expected attempts r
    → Collects expected (done item ∷ attempts) r
Collects-later expected item attempts (ok taken) h = h
Collects-later expected item attempts (err e) h = h

module _ (items : Json QueueMessage) (hyphenated : Hyphenated) (recipient : Text)
    (plain : IsPlain recipient) (start : Option ℕ) (limit now_ms : ℕ) where
  entry : ℕ → QueueMessage → Bytes × Bytes
  entry seq m = (key_at hyphenated recipient seq m, bytes_of items m)

  take_entries_step :
      (seq : ℕ) (m : QueueMessage) (attempts : List (Attempt (Bytes × Bytes)))
      (taken : List QueueMessage)
      → seq ≤ u64_max
      → take_entries items start limit now_ms (done (entry seq m) ∷ attempts) taken ≡ (
          if passed start seq
          then take_entries items start limit now_ms attempts taken
          else if leb m.deadline_ms now_ms
          then take_entries items start limit now_ms attempts taken
          else if ltb (length taken) limit
          then take_entries items start limit now_ms attempts (taken ++ m ∷ [])
          else ok (taken, true))
  unfolding take_entries entry
  take_entries_step seq m attempts taken l =
      rw
        (
          parse_seq_from_key-message_key hyphenated recipient seq m.message_id m.meta.chunk_index
              plain.is_scalar plain.no_colon l,
          (items.round_trip m).2,
        )
        refl

  passed-is_after : (o : Option ℕ) (seq : ℕ) → passed o seq ≡ not (is_after o seq)
  passed-is_after none seq = refl
  passed-is_after (some k) seq = ground arith

  page_full :
      (taken found : List QueueMessage) (m : QueueMessage)
      → (taken, true) ≡ page 0 taken (m ∷ found)
  page_full taken found m = ground (arith, append-nil taken)

  page_next :
      (n : ℕ) (taken found : List QueueMessage) (m : QueueMessage)
      → page n (taken ++ m ∷ []) found ≡ page (suc n) taken (m ∷ found)
  page_next n taken found m = ground (arith, append_assoc taken (m ∷ []) (take n found))

  page_end : (n : ℕ) (taken : List QueueMessage) → (taken, false) ≡ page n taken []
  page_end n taken = ground (arith, append-nil taken, take_nil {A = QueueMessage} n)

  take_entries_end :
      (taken : List QueueMessage)
      → take_entries items start limit now_ms [] taken ≡ ok (taken, false)
  unfolding take_entries
  take_entries_end taken = refl

  take_entries_failed :
      (text : String) (attempts : List (Attempt (Bytes × Bytes))) (taken : List QueueMessage)
      → take_entries items start limit now_ms (failed text ∷ attempts) taken
        ≡ err (storage_error text)
  unfolding take_entries
  take_entries_failed text attempts taken = refl

  -- A live message is taken while there is room, and is left for the next page otherwise.
  take_live :
      (n : ℕ) (taken found : List QueueMessage) (m : QueueMessage)
      (attempts : List (Attempt (Bytes × Bytes))) (rest : Result Taken)
      → limit ≡ length taken + n
      → ((n' : ℕ)
          → limit ≡ length (taken ++ m ∷ []) + n'
          → Collects (page n' (taken ++ m ∷ []) found) attempts rest)
      → Collects
          (page n taken (m ∷ found))
          attempts
          (if ltb (length taken) limit then rest else ok (taken, true))
  take_live zero taken found m attempts rest room next =
      let full : ltb (length taken) limit ≡ false = ground arith in
      rw full (page_full taken found m)
  take_live (suc n) taken found m attempts rest room next =
      let fits : ltb (length taken) limit ≡ true = ground arith in
      rw (fits, sym (page_next n taken found m))
        (next n (omega (arith, room, length-append taken (m ∷ []))))

  pub take_entries-Collects :
      (lo hi n : ℕ) (attempts : List (Attempt (Bytes × Bytes))) (q : Queue)
      (taken : List QueueMessage)
      → limit ≡ length taken + n
      → Ascends lo hi q
      → hi ≤ u64_max
      → Yields attempts (stored items hyphenated recipient q)
      → Collects
          (page n taken (waiting start now_ms q))
          attempts
          (take_entries items start limit now_ms attempts taken)
  unfolding waiting stored entry
  take_entries-Collects lo hi n [] [] taken room a h yields = rw take_entries_end (page_end n taken)
  take_entries-Collects lo hi n [] ((seq, m) ∷ q) taken room a h yields = absurd yields
  take_entries-Collects lo hi n (failed text ∷ attempts) q taken room a h yields =
      rw take_entries_failed (text, refl, inl refl)
  take_entries-Collects lo hi n (done item ∷ attempts) [] taken room a h yields = absurd yields
  take_entries-Collects lo hi n (done item ∷ attempts) ((seq, m) ∷ q) taken room a h yields =
      let l : seq ≤ u64_max = omega (arith, Ascends-le (suc seq) hi q a.1) in
      let skip : Collects (page n taken (waiting start now_ms q)) (done (entry seq m) ∷ attempts)
          (take_entries items start limit now_ms attempts taken) =
        Collects-later (page n taken (waiting start now_ms q)) (entry seq m) attempts _
          (take_entries-Collects (suc seq) hi n attempts q taken room a.1 h yields.1) in
      rw (yields.0, take_entries_step seq m attempts taken l, passed-is_after start seq)
        (elim (Bool-cases (is_after start seq)) [
          | inr before ↦ rw before skip
          | inl after ↦ elim (Bool-cases (leb m.deadline_ms now_ms)) [
            | inl expired ↦ rw (after, expired) skip
            | inr live ↦
                rw (after, live)
                  (Collects-later (page n taken (m ∷ waiting start now_ms q)) (entry seq m) attempts
                    _
                    (take_live n taken (waiting start now_ms q) m attempts _ room (λ n' room'.
                      take_entries-Collects (suc seq) hi n' attempts q (taken ++ m ∷ []) room' a.1 h
                        yields.1)))
          ]
        ])
