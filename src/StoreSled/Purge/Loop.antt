-- ===== src/StoreSled/Purge/Loop.antt =====
-- The loop of `SledStore::purge_expired` of src/store_sled.rs takes out expired messages only, and
-- keeps account of the quotas.
use enigma_relay.Base.{
  ℕ, suc, ◌+◌, ◌≤◌, ◌<◌, ◌≡◌, refl, sym, ap, ◌∙◌, subst, ◌⊎◌, true, false, none, some, List, [],
  ◌∷◌, arith, ltb, leb, Bool-cases, ltb→lt, inl, inr, All, String,
}
use enigma_relay.Base.Text.{Text}
use enigma_relay.Base.Eq.{nat_eq, list_eq}
use enigma_relay.Base.Map
use enigma_relay.Base.Map.{lookup}
use enigma_relay.Error.{EnigmaRelayError, ok, storage_error}
use enigma_relay.Error.Action.{Action, ◌>>=◌}
use enigma_relay.Store.{QueueMessage}
use enigma_relay.StoreMem.Mailbox.{item_of}
use enigma_relay.StoreSled.Keys.{Hyphenated, quota_key}
use enigma_relay.StoreSled.Keys.Order.{IsPlain}
use enigma_relay.StoreSled.Db.{
  Bytes, Entries, Attempt, done, failed, Before, Ascending, Yields, Sled, Json,
}
use enigma_relay.StoreSled.State.{QuotaValue, SledStore}
use enigma_relay.StoreSled.Trees.{Column, read_quota_latest}
use enigma_relay.StoreSled.Purge.{Quotas, less, quota_entry, purge_one, purge_loop}
use enigma_relay.StoreSled.Logic.{
  View, Fails, Has, IsStorage, view, Ends, Ends-weaken, Ends-then, decoded_then, lifted_then,
}
use enigma_relay.StoreSled.Logic.Calls.{remove_then}
use enigma_relay.StoreSled.Represents.{quota_of, bytes_of, quota_at, key_at, read_quota_tree_then}
use enigma_relay.StoreSled.Ack.Loop.{Fits}
use enigma_relay.StoreSled.Purge.Awaits.{AllLive, Awaits, Awaits-nil, Awaits-live, Awaits-dropped}
use enigma_relay.StoreSled.Purge.Step.{
  States, dropped, Purges, nothing, drop_expired, Owned, Purging, dropped-Purging, dropped-Owned,
}

module _ (sled : Sled) (items : Json QueueMessage) (quotas : Json QuotaValue)
    (hyphenated : Hyphenated) where
  abbrev pub Storage : EnigmaRelayError → View → Type 0
  Storage e v = IsStorage sled e

  storage : (text : String) (v : View) → Fails sled text → Storage (storage_error text) v
  storage text v fails = (text, refl, fails)

  -- The quota that is found is that of the state.
  quota_entry_then :
      (Q : Quotas → View → Type 0) (k : QuotaValue → Action (SledStore sled) Quotas) (r : Text)
      (value : QuotaValue) (known : Quotas) (store : SledStore sled)
      → (lookup r known ≡ some value)
        ⊎ (lookup r known ≡ none)
          × (quota_at quotas (lookup (quota_key r) (view sled store).quota) ≡ ok value)
      → Ends sled Q Storage (k value store)
      → Ends sled Q Storage ((quota_entry sled items quotas hyphenated r known >>= k) store)
  unfolding quota_entry read_quota_latest
  quota_entry_then Q k r value known store (inl found) h =
      rw (found, quota_entry) (lifted_then sled Q Storage value k store h)
  quota_entry_then Q k r value known store (inr (missing, read)) h =
      rw (missing, quota_entry)
        (read_quota_tree_then sled quotas Q Storage store (λ text. storage text (view sled store))
          (quota_key r) value k read h)

  purge_one-Ends :
      (seq : ℕ) (m : QueueMessage) (plain : IsPlain m.recipient) (fits : Fits (item_of m))
      (st : States)
      → lookup seq (st m.recipient).queue ≡ some m
      → (known : Quotas) (store : SledStore sled)
      → Purging items quotas hyphenated (view sled store) known st
      → Ends sled
          (λ known' v'. Purging items quotas hyphenated v' known' (dropped m.recipient seq m st))
          Storage
          (purge_one sled items quotas hyphenated
            (key_at hyphenated m.recipient seq m)
            m
            known
            store)
  unfolding purge_one
  purge_one-Ends seq m plain fits st held known store h =
      let Q = λ (known' : Quotas) (v' : View).
        Purging items quotas hyphenated v' known' (dropped m.recipient seq m st) in
      let after =
        dropped-Purging items quotas hyphenated m.recipient seq m plain fits st held
          (view sled store) known h in
      let here = λ (s2 : SledStore sled) (e2 : view sled s2 ≡ _).
        subst
          (λ q.
            (lookup m.recipient known ≡ some (quota_of (st m.recipient)))
            ⊎ (lookup m.recipient known ≡ none)
              × (quota_at quotas (lookup (quota_key m.recipient) q)
                  ≡ ok (quota_of (st m.recipient))))
          (sym (ap (λ v. v.quota) e2)) (h.quota m.recipient plain) in
      remove_then sled Q Storage storage Column.messages _ _ store (view sled store) refl (λ s1 e1.
        remove_then sled Q Storage storage Column.index _ _ s1 _ e1 (λ s2 e2.
          quota_entry_then Q _ m.recipient (quota_of (st m.recipient)) known s2 (here s2 e2) (
            subst
              (λ v'.
                Purging items quotas hyphenated v'
                  (Map.insert m.recipient (less m (quota_of (st m.recipient))) known)
                  (dropped m.recipient seq m st))
              (sym e2) after)))

  le_of_ltb : (a b : ℕ) → ltb a b ≡ false → b ≤ a
  le_of_ltb a b h = ground arith

  not_short : (a b : ℕ) → leb a b ≡ true → ¬ (b < a)
  not_short a b h l = ground arith

  lt_of_leb : (a b : ℕ) → leb a b ≡ false → b + 1 ≤ a
  lt_of_leb a b h = ground arith

  -- The entries after the one that is taken out.
  All-Owned :
      (seq : ℕ) (m : QueueMessage) (plain : IsPlain m.recipient) (fits : Fits (item_of m))
      (st : States) (held : lookup seq (st m.recipient).queue ≡ some m) (rest : Entries)
      → All (Before (key_at hyphenated m.recipient seq m)) rest
      → All (Owned items quotas hyphenated st) rest
      → All (Owned items quotas hyphenated (dropped m.recipient seq m st)) rest
  All-Owned seq m plain fits st held [] before owned = tt
  All-Owned seq m plain fits st held (e ∷ rest) before owned = (
    dropped-Owned items quotas hyphenated m.recipient seq m plain fits st held e before.0.1 owned.0,
    All-Owned seq m plain fits st held rest before.1 owned.1,
  )

  -- What the loop has done when it ends: some steps, each of which removed an expired message; short of
  -- the target no other is left.
  pub record Purged (now_ms target removed : ℕ) (st : States) (n : ℕ) (known : Quotas) (v : View)
      : Type 0 where
    pub after : States
    pub steps : ℕ
    pub purges : Purges now_ms steps st after
    pub counts : n ≡ removed + steps
    pub within : n ≤ target
    pub purging : Purging items quotas hyphenated v known after
    pub complete : n < target → AllLive now_ms after

  module _ (now_ms target : ℕ) where
    stop :
        (removed : ℕ) (st : States) (known : Quotas) (v : View)
        → removed ≤ target
        → Purging items quotas hyphenated v known st
        → (removed < target → AllLive now_ms st)
        → Purged now_ms target removed st removed known v
    stop removed st known v l h complete = record {
      after = st;
      steps = 0;
      purges = nothing;
      counts = omega arith;
      within = l;
      purging = h;
      complete = complete;
    }

    -- A removal before the rest.
    after_drop :
        (removed : ℕ) (seq : ℕ) (m : QueueMessage) (st : States) (n : ℕ) (known : Quotas) (v : View)
        → lookup seq (st m.recipient).queue ≡ some m
        → m.deadline_ms ≤ now_ms
        → Purged now_ms target (removed + 1) (dropped m.recipient seq m st) n known v
        → Purged now_ms target removed st n known v
    after_drop removed seq m st n known v held expired p = record {
      after = p.after;
      steps = suc p.steps;
      purges = drop_expired m.recipient seq m held expired p.purges;
      counts = omega (arith, p.counts);
      within = p.within;
      purging = p.purging;
      complete = p.complete;
    }

    abbrev Loops : ℕ → States → ℕ × Quotas → View → Type 0
    Loops removed st (n, known) v = Purged now_ms target removed st n known v

    pub purge_loop-Ends :
        (attempts : List (Attempt (Bytes × Bytes))) (rest : Entries) (removed : ℕ) (known : Quotas)
        (st : States) (store : SledStore sled)
        → ((text : String) → Has text attempts → Fails sled text)
        → Yields attempts rest
        → Ascending rest
        → All (Owned items quotas hyphenated st) rest
        → Awaits items hyphenated now_ms rest st
        → removed ≤ target
        → Purging items quotas hyphenated (view sled store) known st
        → Ends sled
            (Loops removed st)
            Storage
            (purge_loop sled items quotas hyphenated now_ms target attempts removed known store)
    unfolding purge_loop
    purge_loop-Ends [] [] removed known st store fails yields asc owned awaits l h =
        stop removed st known (view sled store) l h
          (λ _. Awaits-nil items hyphenated now_ms st awaits)
    purge_loop-Ends [] (e ∷ rest) removed known st store fails yields asc owned awaits l h =
        absurd yields
    purge_loop-Ends (failed text ∷ attempts) rest removed known st store fails yields asc owned
          awaits l h =
        elim (Bool-cases (leb target removed)) [
          | inl full ↦ rw full (
              stop removed st known (view sled store) l h
                (λ short. absurd (not_short target removed full short)))
          | inr room ↦ rw room (text, refl, fails text (inl refl))
        ]
    purge_loop-Ends (done item ∷ attempts) [] removed known st store fails yields asc owned awaits l
          h =
        absurd yields
    purge_loop-Ends (done item ∷ attempts) ((key, value) ∷ rest) removed known st store fails yields
          asc owned awaits l h =
        let o = owned.0 in
        let m = o.message in
        let first = key_at hyphenated m.recipient o.seq m in
        let pair : (key, value) ≡ (first, bytes_of items m) = cc (o.key, o.value) in
        let same : item ≡ (first, bytes_of items m) = yields.0 ∙ pair in
        let read : items.from_slice item.1 ≡ done m =
          ap (λ e. items.from_slice e.1) same ∙ (items.round_trip m).2 in
        let before : All (Before first) rest =
          subst (λ (k : Bytes). All (Before k) rest) o.key asc.0 in
        let awaits' : Awaits items hyphenated now_ms ((first, bytes_of items m) ∷ rest) st =
          subst (λ e. Awaits items hyphenated now_ms (e ∷ rest) st) pair awaits in
        elim (Bool-cases (leb target removed)) [
          | inl full ↦ rw full (
              stop removed st known (view sled store) l h
                (λ short. absurd (not_short target removed full short)))
          | inr room ↦ rw room (
              decoded_then sled (Loops removed st) Storage (items.from_slice item.1) m _ store read
                (elim (Bool-cases (ltb now_ms m.deadline_ms)) [
                  | inl live ↦ rw live (
                      purge_loop-Ends attempts rest removed known st store fails yields.1 asc.1
                        owned.1
                        (Awaits-live items hyphenated now_ms first m rest st (ltb→lt _ _ live)
                          awaits')
                        l h)
                  | inr expired ↦
                      let past : m.deadline_ms ≤ now_ms = le_of_ltb now_ms m.deadline_ms expired in
                      let more : removed + 1 ≤ target = lt_of_leb target removed room in
                      rw (expired, ap (λ e. e.0) same)
                        (Ends-then sled
                          (λ known' v'.
                            Purging items quotas hyphenated v' known'
                              (dropped m.recipient o.seq m st))
                          (Loops removed st) Storage Storage _
                          (λ known' store' h'.
                            Ends-weaken sled (Loops (removed + 1) (dropped m.recipient o.seq m st))
                              (Loops removed st) Storage Storage
                              (λ end v'. after_drop removed o.seq m st end.0 end.1 v' o.held past)
                              (λ e v' failed. failed)
                              (purge_loop sled items quotas hyphenated now_ms target attempts
                                (removed + 1) known' store')
                              (purge_loop-Ends attempts rest (removed + 1) known'
                                (dropped m.recipient o.seq m st) store' fails yields.1 asc.1
                                (All-Owned o.seq m o.plain o.fits st o.held rest before owned.1)
                                (Awaits-dropped items hyphenated now_ms o.seq m rest st h.wf o.plain
                                  o.held awaits')
                                more h'))
                          (λ e v' failed. failed) _ store
                          (purge_one-Ends o.seq m o.plain o.fits st o.held known store h))
                ]))
        ]
