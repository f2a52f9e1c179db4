-- ===== src/StoreSled/Purge/Refines.antt =====
-- `SledStore::purge_expired` of src/store_sled.rs takes expired messages out of the queues of all
-- recipients, and adjusts their quotas.
use enigma_relay.Base.{
  ℕ, ◌≤◌, ◌<◌, ◌≡◌, ◌≢◌, refl, sym, ap, ◌∙◌, subst, ◌⊎◌, true, false, none, some, List, [], ◌∷◌,
  arith, Bool-cases, inl, inr, All, String, min,
}
use enigma_relay.Base.Text.{Text}
use enigma_relay.Base.Eq.{◌==◌, nat_eq, list_eq}
use enigma_relay.Base.Map.{lookup}
use enigma_relay.Error.{EnigmaRelayError, ok, storage_error}
use enigma_relay.Error.Action.{Action, ◌>>=◌}
use enigma_relay.Store.{QueueMessage}
use enigma_relay.StoreMem.Wf.{IsWf}
use enigma_relay.StoreSled.Keys.{Hyphenated, message_prefix, quota_key}
use enigma_relay.StoreSled.Keys.Order.{IsPlain, message_key-prefix}
use enigma_relay.StoreSled.Keys.Distinct.{quota_key_injective}
use enigma_relay.StoreSled.Db.{Bytes, Sled, Json, Attempt}
use enigma_relay.StoreSled.Entries.{
  lookup-with_prefix, lookup-insert_key_self, lookup-insert_key_other,
}
use enigma_relay.StoreSled.State.{QuotaValue, SledStore}
use enigma_relay.StoreSled.Trees.{Column}
use enigma_relay.StoreSled.Purge.{Quotas, gc_batch_limit, write_quotas, iterated, purge_expired}
use enigma_relay.StoreSled.Logic.{
  View, Fails, at_iter, IsStorage, view, write, Ends, Ends-assoc, Ends-then, lifted_then,
  decoded_then,
}
use enigma_relay.StoreSled.Logic.Calls.{insert_then, flush_then}
use enigma_relay.StoreSled.Represents.{
  quota_of, bytes_of, quota_at, key_at, lookup-stored, Represents,
}
use enigma_relay.StoreSled.Purge.Step.{States, Purges, Owned, Purging}
use enigma_relay.StoreSled.Purge.Awaits.{AllLive, Awaits}
use enigma_relay.StoreSled.Purge.Loop.{Storage, Purged, purge_loop-Ends}

module _ (items : Json QueueMessage) (quotas : Json QuotaValue) (hyphenated : Hyphenated) where
  -- The trees hold the well-formed states of all recipients without a colon.
  abbrev pub Stores : View → States → Type 0
  Stores v st =
      (r : Text) → IsPlain r → IsWf r (st r) × Represents items quotas hyphenated r v (st r)

  Stores-Purging : (v : View) (st : States) → Stores v st → Purging items quotas hyphenated v [] st
  unfolding lookup
  Stores-Purging v st h = record {
    holds =
        λ r plain. let rep = (h r plain).1 in record { queued = rep.queued; indexed = rep.indexed };
    wf = λ r plain. (h r plain).0;
    once = tt;
    quota = λ r plain. inr (refl, (h r plain).1.weighed);
    numbered = λ r plain. (h r plain).1.numbered;
  }

  Purging-Stores : (v : View) (st : States) → Purging items quotas hyphenated v [] st → Stores v st
  unfolding lookup
  Purging-Stores v st h r plain = (
    h.wf r plain,
    record {
      queued = (h.holds r plain).queued;
      indexed = (h.holds r plain).indexed;
      weighed = elim (h.quota r plain) [ inl known ↦ absurd (cc) | inr (_, read) ↦ read ];
      numbered = h.numbered r plain;
    },
  )

  Stores-Awaits :
      (now_ms : ℕ) (v : View) (st : States)
      → Stores v st
      → Awaits items hyphenated now_ms v.messages st
  Stores-Awaits now_ms v st h r plain seq m held =
      let (w, rep) = h r plain in
      let key = key_at hyphenated r seq m in
      inr (
        sym (
          lookup-with_prefix (message_prefix r) key v.messages
            (message_key-prefix hyphenated r seq m.message_id m.meta.chunk_index))
        ∙ ap (lookup key) rep.queued
        ∙ lookup-stored items hyphenated r 0 (st r).seq seq m (st r).queue w.ascends w.in_range
            held)

  -- A quota that is written need not be known any longer.
  module _ (r : Text) (q : QuotaValue) (known : Quotas) (v : View) (st : States)
      (h : Purging items quotas hyphenated v ((r, q) ∷ known) st) where
    abbrev after_write : View
    after_write = write Column.quota (quota_key r) (bytes_of quotas q) v

    -- What is written is the quota of the state.
    written_quota : IsPlain r → q ≡ quota_of (st r)
    unfolding lookup
    written_quota plain =
        let self : (r == r) ≡ true = (list_eq.same_iff r r).1 refl in
        elim (h.quota r plain) [
          | inl found ↦ let first : some q ≡ some (quota_of (st r)) = rw self at found in cc
          | inr (missing, read) ↦ let first : some q ≡ none = rw self at missing in absurd (cc)
        ]

    quota_self : quota_at quotas (lookup (quota_key r) after_write.quota) ≡ ok (quota_of (st r))
    quota_self =
        rw (lookup-insert_key_self, (quotas.round_trip q).2) (ap ok (written_quota h.once.1))

    quota_other :
        (r' : Text)
        → IsPlain r'
        → r ≢ r'
        → (lookup r' known ≡ some (quota_of (st r')))
          ⊎ (lookup r' known ≡ none)
            × (quota_at quotas (lookup (quota_key r') after_write.quota) ≡ ok (quota_of (st r')))
    unfolding lookup
    quota_other r' plain' other =
        let apart : (r == r') ≡ false = ground (arith, list_eq.same_iff r r', other) in
        let untouched =
          lookup-insert_key_other (quota_key r) (quota_key r') (bytes_of quotas q) v.quota
            (λ e. other (quota_key_injective r r' h.once.1.is_scalar plain'.is_scalar e)) in
        elim (h.quota r' plain') [
          | inl found ↦ inl (rw apart at found)
          | inr (missing, read) ↦ inr (rw apart at missing, ap (quota_at quotas) untouched ∙ read)
        ]

    after_write-Purging : Purging items quotas hyphenated after_write known st
    after_write-Purging = record {
      holds = λ r' plain'.
          let held = h.holds r' plain' in record { queued = held.queued; indexed = held.indexed };
      wf = h.wf;
      once = h.once.2;
      quota = λ r' plain'. elim (Bool-cases (r == r')) [
        | inl same ↦
            let here = (list_eq.same_iff r r').0 same in
            subst
              (λ x.
                (lookup x known ≡ some (quota_of (st x)))
                ⊎ (lookup x known ≡ none)
                  × (quota_at quotas (lookup (quota_key x) after_write.quota)
                      ≡ ok (quota_of (st x))))
              here (inr (h.once.0, quota_self))
        | inr other ↦ quota_other r' plain' (λ e. ground (arith, list_eq.same_iff r r', e))
      ];
      numbered = h.numbered;
    }

module _ (sled : Sled) (items : Json QueueMessage) (quotas : Json QuotaValue)
    (hyphenated : Hyphenated) where
  storage :
      (text : String) (v : View)
      → Fails sled text
      → Storage sled items quotas hyphenated (storage_error text) v
  storage text v fails = (text, refl, fails)

  write_quotas_then :
      {B : Type 0} (Q : B → View → Type 0) (k : Unit {0} → Action (SledStore sled) B) (st : States)
      (known : Quotas) (store : SledStore sled)
      → Purging items quotas hyphenated (view sled store) known st
      → ((store' : SledStore sled)
          → Stores items quotas hyphenated (view sled store') st
          → Ends sled Q (Storage sled items quotas hyphenated) (k tt store'))
      → Ends sled Q
          (Storage sled items quotas hyphenated)
          ((write_quotas sled items quotas hyphenated known >>= k) store)
  unfolding write_quotas
  write_quotas_then Q k st [] store h next =
      let E = Storage sled items quotas hyphenated in
      lifted_then sled Q E tt k store
        (next store (Purging-Stores items quotas hyphenated (view sled store) st h))
  write_quotas_then Q k st ((r, q) ∷ known) store h next =
      let E = Storage sled items quotas hyphenated in
      Ends-assoc sled Q E _ _ k store (
        decoded_then sled Q E (quotas.to_vec q) (bytes_of quotas q) _ store (quotas.round_trip q).1
          (Ends-assoc sled Q E _ _ k store (
            insert_then sled Q E storage Column.quota (quota_key r) (bytes_of quotas q) _ store
              (view sled store) refl
              (λ s1 e1.
                write_quotas_then Q k st known s1
                  (subst (λ v. Purging items quotas hyphenated v known st) (sym e1)
                    (after_write-Purging items quotas hyphenated r q known (view sled store) st h))
                  next))))

  -- What a purge leaves: some expired messages, as many as it answers, are taken out of the queues, and
  -- the trees hold the states after that; short of the limit all that is left is live.
  pub record Cleaned (now_ms target : ℕ) (st : States) (n : ℕ) (v : View) : Type 0 where
    pub after : States
    pub purges : Purges now_ms n st after
    pub within : n ≤ target
    pub stores : Stores items quotas hyphenated v after
    pub complete : n < target → AllLive now_ms after

  module _ (now_ms max : ℕ) (store : SledStore sled) (st : States)
      (stores : Stores items quotas hyphenated (view sled store) st)
      (owned : All (Owned items quotas hyphenated st) (view sled store).messages) where
    abbrev target : ℕ
    target = min max gc_batch_limit

    abbrev E : EnigmaRelayError → View → Type 0
    E = Storage sled items quotas hyphenated

    abbrev Q : ℕ → View → Type 0
    Q = Cleaned now_ms target st

    iterated_then :
        (k : List (Attempt (Bytes × Bytes)) → Action (SledStore sled) ℕ)
        → Ends sled Q E (k (sled.iter store.messages) store)
        → Ends sled Q E ((iterated sled items quotas hyphenated >>= k) store)
    unfolding ◌>>=◌
    iterated_then k h = h

    -- A purge of the store on disk takes as many messages out of the queues as it answers, each of which
    -- has expired, and no more than the limit of a batch; the trees then hold the states of all
    -- recipients after that, quotas included, and if it took fewer than the limit, no expired message is
    -- left. It fails only with the error of a failed call of sled. The trees hold the well-formed states
    -- of all recipients without a colon, and each message on disk is in the queue of one of these.
    pub purge_expired-Cleaned :
        Ends sled
          (Cleaned now_ms (min max gc_batch_limit) st)
          (λ e v. IsStorage sled e)
          (purge_expired sled items quotas hyphenated now_ms max store)
    unfolding purge_expired
    purge_expired-Cleaned = iterated_then _ (
        Ends-then sled
          (λ end v. Purged sled items quotas hyphenated now_ms target 0 st end.0 end.1 v) Q E E _
          (λ end s1 p. write_quotas_then Q _ p.after end.1 s1 p.purging (λ s2 held.
            let count : end.0 ≡ p.steps = omega (arith, p.counts) in
            let flushed = flush_then sled Q E s2 (λ text fails. (text, refl, fails)) in
            flushed Column.messages _ (
              flushed Column.index _ (
                flushed Column.quota _ (record {
                  after = p.after;
                  purges = subst (λ n. Purges now_ms n st p.after) (sym count) p.purges;
                  within = p.within;
                  stores = held;
                  complete = p.complete;
                })))))
          (λ e v failed. failed) _ store
          (purge_loop-Ends sled items quotas hyphenated now_ms target (sled.iter store.messages)
            (view sled store).messages 0 [] st store (λ text has. at_iter store.messages has)
            (sled.iter-Yields store.messages) (sled.ascending store.messages) owned
            (Stores-Awaits items quotas hyphenated now_ms (view sled store) st stores) (omega arith)
            (Stores-Purging items quotas hyphenated (view sled store) st stores)))
