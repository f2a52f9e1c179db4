-- ===== src/Limiter/Ban.antt =====
-- A client that the limiter of src/server.rs has banned.
use enigma_relay.Base.{
  ℕ, ◌+◌, ◌*◌, ◌^◌, ◌≤◌, ◌<◌, ◌≡◌, ◌≢◌, refl, Bool, true, false, Option, none, some, List, [], ◌∷◌,
  arith, Bool-cases, inl, inr,
}
use enigma_relay.Base.Text.{Text}
use enigma_relay.Base.Eq.{◌==◌}
use enigma_relay.Base.Map.{lookup, insert, lookup-insert, lookup-insert_self}
use mathlib.Core.Option
use enigma_relay.Limiter.{
  F64, IpAddr, RateKey, key_eq, key_beq_iff, Bucket, RateLimiter, fresh, take_token, allow_bucket,
  allow,
}

module _ (f : F64) where
  -- The key has a bucket that is banned until the instant.
  pub record Banned (key : RateKey) (until : ℕ) (limiter : RateLimiter f) : Type 0 where
    pub entry : Bucket f
    pub found : lookup key limiter.buckets ≡ some entry
    pub banned : entry.ban_until ≡ some until

  -- One call of the limiter.
  pub record Call : Type 0 where
    pub now : ℕ
    pub ip : IpAddr
    pub label : Text
    pub rate : f.Value
    pub burst : f.Value

  abbrev pub run_call : Call → RateLimiter f → Bool × RateLimiter f
  run_call c = allow f c.now c.ip c.label c.rate c.burst

  abbrev pub call_key : Call → RateKey
  call_key c = record { ip = c.ip; label = c.label }

  unfoldable pub run_calls : List Call → RateLimiter f → RateLimiter f
  run_calls [] limiter = limiter
  run_calls (c ∷ cs) limiter = run_calls cs (run_call c limiter).1

  -- The calls of the list are all made before the instant.
  abbrev pub Before : ℕ → List Call → Type 0
  Before until [] = Unit
  Before until (c ∷ cs) = (c.now < until) × Before until cs

  -- The bucket is banned at no instant after `now`.
  abbrev pub Free : ℕ → Option ℕ → Type 0
  Free now none = Unit
  Free now (some until) = until ≤ now

  allow_bucket-refused :
      (ban now : ℕ) (entry : Bucket f)
      → Free now entry.ban_until
      → (allow_bucket f ban now entry).0 ≡ false
      → (allow_bucket f ban now entry).1.ban_until ≡ some (now + ban * 10 ^ 9)
  unfolding allow_bucket take_token
  allow_bucket-refused ban now entry free h = ground arith

  allow_bucket-banned :
      (ban now until : ℕ) (entry : Bucket f)
      → entry.ban_until ≡ some until
      → now < until
      → allow_bucket f ban now entry ≡ (false, entry)
  unfolding allow_bucket
  allow_bucket-banned ban now until entry e l = ground arith

  -- The bucket that a call finds or makes.
  abbrev pub bucket_of : Call → RateLimiter f → Bucket f
  bucket_of c limiter =
      Option.get_or (lookup (call_key c) limiter.buckets) (fresh f c.rate c.burst c.now)

  module _ (c : Call) (limiter : RateLimiter f) (on : limiter.enabled ≡ true) where
    run_call-enabled : run_call c limiter ≡ (
      (allow_bucket f limiter.ban_seconds c.now (bucket_of c limiter)).0,
      record limiter {
        buckets =
            insert
              (call_key c)
              (allow_bucket f limiter.ban_seconds c.now (bucket_of c limiter)).1
              limiter.buckets;
      },
    )
    unfolding allow
    run_call-enabled = rw on refl

    pub run_call-fixed :
        ((run_call c limiter).1.enabled ≡ true)
        × ((run_call c limiter).1.ban_seconds ≡ limiter.ban_seconds)
    run_call-fixed = rw run_call-enabled (on, refl)

    run_call-Banned :
        (key : RateKey) (until : ℕ)
        → c.now < until
        → Banned key until limiter
        → Banned key until (run_call c limiter).1
    run_call-Banned key until l b = elim (Bool-cases (call_key c == key)) [
      | inr other ↦
          rw run_call-enabled (record {
            entry = b.entry;
            found = rw (lookup-insert, other) b.found;
            banned = b.banned;
          })
      | inl same ↦
          let key' = (key_beq_iff (call_key c) key).0 same in
          let found : bucket_of c limiter ≡ b.entry = rw (key', b.found) in
          rw
            (
              run_call-enabled,
              found,
              allow_bucket-banned limiter.ban_seconds c.now until b.entry b.banned l,
            )
            (record { entry = b.entry; found = rw (lookup-insert, same) refl; banned = b.banned })
    ]

    run_call-refused :
        (until : ℕ)
        → c.now < until
        → Banned (call_key c) until limiter
        → (run_call c limiter).0 ≡ false
    run_call-refused until l b =
        let found : bucket_of c limiter ≡ b.entry = rw b.found in
        rw
          (
            run_call-enabled,
            found,
            allow_bucket-banned limiter.ban_seconds c.now until b.entry b.banned l,
          )
          refl

    run_call-bans :
        Free c.now (bucket_of c limiter).ban_until
        → (run_call c limiter).0 ≡ false
        → Banned (call_key c) (c.now + limiter.ban_seconds * 10 ^ 9) (run_call c limiter).1
    run_call-bans free h =
        let e = allow_bucket f limiter.ban_seconds c.now (bucket_of c limiter) in
        rw run_call-enabled (record {
          entry = e.1;
          found = lookup-insert_self (call_key c) e.1 limiter.buckets;
          banned =
              allow_bucket-refused limiter.ban_seconds c.now (bucket_of c limiter) free
                (rw run_call-enabled at h);
        })

    -- A call leaves the buckets of the other keys as they are.
    pub run_call-other :
        (key : RateKey)
        → call_key c ≢ key
        → lookup key (run_call c limiter).1.buckets ≡ lookup key limiter.buckets
    run_call-other key ne = elim (Bool-cases (call_key c == key)) [
      | inl same ↦ absurd (ne ((key_beq_iff (call_key c) key).0 same))
      | inr other ↦ rw (run_call-enabled, lookup-insert, other) refl
    ]

  run_calls-Banned :
      (cs : List Call) (key : RateKey) (until : ℕ) (limiter : RateLimiter f)
      → limiter.enabled ≡ true
      → Before until cs
      → Banned key until limiter
      → Banned key until (run_calls cs limiter) × ((run_calls cs limiter).enabled ≡ true)
  unfolding run_calls
  run_calls-Banned [] key until limiter on l b = (b, on)
  run_calls-Banned (c ∷ cs) key until limiter on l b =
      run_calls-Banned cs key until (run_call c limiter).1 (run_call-fixed c limiter on).0 l.1
        (run_call-Banned c limiter on key until l.0 b)

  -- A limiter that is enabled and refuses a client that was not banned bans it: whatever calls come
  -- in before `ban_seconds` have passed, of this and of other clients, the next call of the client
  -- with the label before that time is refused.
  pub refused-run_calls :
      (c c' : Call) (cs : List Call) (limiter : RateLimiter f)
      → limiter.enabled ≡ true
      → Free c.now (bucket_of c limiter).ban_until
      → (run_call c limiter).0 ≡ false
      → call_key c' ≡ call_key c
      → Before (c.now + limiter.ban_seconds * 10 ^ 9) (c' ∷ cs)
      → (run_call c' (run_calls cs (run_call c limiter).1)).0 ≡ false
  refused-run_calls c c' cs limiter on free h same l =
      let until = c.now + limiter.ban_seconds * 10 ^ 9 in
      let start = (run_call c limiter).1 in
      let (b, on') =
        run_calls-Banned cs (call_key c) until start (run_call-fixed c limiter on).0 l.1
          (run_call-bans c limiter on free h) in
      run_call-refused c' (run_calls cs start) on' until l.0 (rw same b)
