-- ===== src/StoreSled/Purge/Awaits.antt =====
-- What the loop of `SledStore::purge_expired` of src/store_sled.rs has still to come to: each message in
-- a queue is live, or it is among the entries that are left.
use enigma_relay.Base.{
  ℕ, ◌≤◌, ◌<◌, ◌≡◌, ◌≢◌, sym, ap, ◌∙◌, subst, ◌⊎◌, some, [], ◌∷◌, arith, eqb, u64_max, Bool-cases,
  inl, inr, All,
}
use enigma_relay.Base.Text.{Text}
use enigma_relay.Base.Eq.{◌==◌, nat_eq, list_eq}
use enigma_relay.Base.Map
use enigma_relay.Base.Map.{lookup, lookup-remove, lookup-above}
use enigma_relay.Store.{QueueMessage}
use enigma_relay.StoreMem.State.{Queue}
use enigma_relay.StoreMem.Wf.{IsWf, Filed}
use enigma_relay.StoreSled.Keys.{Hyphenated}
use enigma_relay.StoreSled.Keys.Order.{IsPlain}
use enigma_relay.StoreSled.Db.{Bytes, Entries, done, Json}
use enigma_relay.StoreSled.Represents.{bytes_of, key_at, key_at_distinct}
use enigma_relay.StoreSled.Purge.Step.{States, dropped, dropped_induction}

-- Each message of a plain recipient is live.
abbrev pub AllLive : ℕ → States → Type 0
AllLive now_ms st =
    (r : Text)
    → IsPlain r
    → (seq : ℕ) (m : QueueMessage) → lookup seq (st r).queue ≡ some m
    → now_ms < m.deadline_ms

lookup-Filed :
    (r : Text) (n : ℕ) (x : QueueMessage) (q : Queue)
    → All (Filed r) q
    → lookup n q ≡ some x
    → x.recipient ≡ r
unfolding lookup
lookup-Filed r n x [] h e = cc
lookup-Filed r n x ((j, w) ∷ q) h e = elim (Bool-cases (eqb j n)) [
  | inl hit ↦
      let here : some w ≡ some x = rw hit at e in
      let same : w ≡ x = cc in subst (λ y. y.recipient ≡ r) same h.0.1
  | inr miss ↦ lookup-Filed r n x q h.1 (rw miss at e)
]

module _ (items : Json QueueMessage) (hyphenated : Hyphenated) (now_ms : ℕ) where
  abbrev pub Awaits : Entries → States → Type 0
  Awaits rest st =
      (r : Text)
      → IsPlain r
      → (seq : ℕ) (m : QueueMessage) → lookup seq (st r).queue ≡ some m
      → (now_ms < m.deadline_ms)
        ⊎ (lookup (key_at hyphenated r seq m) rest ≡ some (bytes_of items m))

  pub Awaits-nil : (st : States) → Awaits [] st → AllLive now_ms st
  unfolding lookup
  Awaits-nil st h r plain seq m held = elim (h r plain seq m held) [
    | inl live ↦ live
    | inr found ↦ absurd (cc)
  ]

  bytes_of_injective : (m m' : QueueMessage) → bytes_of items m ≡ bytes_of items m' → m ≡ m'
  bytes_of_injective m m' e =
      let same : done m ≡ done m' =
        sym (items.round_trip m).2 ∙ ap items.from_slice e ∙ (items.round_trip m').2 in
      cc

  -- A message that is found is the first entry, or stands among the rest.
  lookup-entry :
      (key : Bytes) (m m' : QueueMessage) (key' : Bytes) (rest : Entries)
      → lookup key' ((key, bytes_of items m) ∷ rest) ≡ some (bytes_of items m')
      → (key ≡ key') × (m ≡ m') ⊎ (lookup key' rest ≡ some (bytes_of items m'))
  unfolding lookup
  lookup-entry key m m' key' rest found = elim (Bool-cases (key == key')) [
    | inl same ↦
        let value : some (bytes_of items m) ≡ some (bytes_of items m') = rw same at found in
        inl ((list_eq.same_iff key key').0 same, bytes_of_injective m m' (cc))
    | inr other ↦ inr (rw other at found)
  ]

  -- A live entry is passed over.
  pub Awaits-live :
      (key : Bytes) (m : QueueMessage) (rest : Entries) (st : States)
      → now_ms < m.deadline_ms
      → Awaits ((key, bytes_of items m) ∷ rest) st
      → Awaits rest st
  Awaits-live key m rest st live h r plain seq m' held = elim (h r plain seq m' held) [
    | inl live' ↦ inl live'
    | inr found ↦ elim (lookup-entry key m m' (key_at hyphenated r seq m') rest found) [
      | inl (keys, same) ↦ inl (subst (λ x. now_ms < x.deadline_ms) same live)
      | inr later ↦ inr later
    ]
  ]

  module _ (seq : ℕ) (m : QueueMessage) (rest : Entries) (st : States)
      (wf : (r : Text) → IsPlain r → IsWf r (st r)) (plain : IsPlain m.recipient)
      (held : lookup seq (st m.recipient).queue ≡ some m) where
    seq_bound :
        (r : Text)
        → IsPlain r
        → (n : ℕ) (x : QueueMessage) → lookup n (st r).queue ≡ some x
        → n ≤ u64_max
    seq_bound r plain' n x found =
        let w = wf r plain' in
        ground (arith, lookup-above 0 (st r).seq n (st r).queue w.ascends, found, w.in_range)

    lookup_own :
        (n : ℕ) (x : QueueMessage)
        → lookup n (Map.remove seq (st m.recipient).queue) ≡ some x
        → (seq ≢ n) × (lookup n (st m.recipient).queue ≡ some x)
    lookup_own n x found = ground (arith, lookup-remove seq n (st m.recipient).queue, found)

    same_entry :
        (n : ℕ) (x : QueueMessage)
        → seq ≢ n
        → lookup n (st m.recipient).queue ≡ some x
        → key_at hyphenated m.recipient seq m ≢ key_at hyphenated m.recipient n x
    same_entry n x apart found e =
        let first = key_at hyphenated m.recipient seq m in
        let second = key_at hyphenated m.recipient n x in
        let differ =
          key_at_distinct hyphenated m.recipient seq n m x apart
            (seq_bound m.recipient plain seq m held) (seq_bound m.recipient plain n x found) in
        cc (differ, (list_eq.same_iff first second).1 e)

    -- The expired entry is taken out.
    pub Awaits-dropped :
        Awaits ((key_at hyphenated m.recipient seq m, bytes_of items m) ∷ rest) st
        → Awaits rest (dropped m.recipient seq m st)
    Awaits-dropped h =
        let first = key_at hyphenated m.recipient seq m in
        dropped_induction m.recipient seq m st
          (λ r s.
            (n : ℕ) (x : QueueMessage)
            → lookup n s.queue ≡ some x
            → (now_ms < x.deadline_ms)
              ⊎ (lookup (key_at hyphenated r n x) rest ≡ some (bytes_of items x)))
          (λ n x found.
            let (apart, there) = lookup_own n x found in
            elim (h m.recipient plain n x there) [
              | inl live ↦ inl live
              | inr next ↦
                  elim (lookup-entry first m x (key_at hyphenated m.recipient n x) rest next) [
                    | inl (keys, same) ↦ absurd (same_entry n x apart there keys)
                    | inr later ↦ inr later
                  ]
            ])
          (λ r plain' other n x found. elim (h r plain' n x found) [
            | inl live ↦ inl live
            | inr next ↦ elim (lookup-entry first m x (key_at hyphenated r n x) rest next) [
              | inl (keys, same) ↦ absurd (
                  other (
                    ap (λ y. y.recipient) same
                    ∙ lookup-Filed r n x (st r).queue (wf r plain').filed found))
              | inr later ↦ inr later
            ]
          ])
