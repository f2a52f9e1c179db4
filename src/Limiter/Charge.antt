-- ===== src/Limiter/Charge.antt =====
-- What a call of the limiter of src/server.rs does to the bucket of the client, at the instant at which
-- the bucket was last charged or is made.
use enigma_relay.Base.{
  ℕ, zero, suc, ◌+◌, ◌*◌, ◌^◌, ◌≤◌, ◌≡◌, ◌≢◌, ◌⊎◌, refl, true, none, some, arith, leb, inl, inr,
  Bool-cases,
}
use enigma_relay.Base.Text.{Text}
use enigma_relay.Base.Eq.{◌==◌}
use enigma_relay.Base.Map.{lookup, lookup-insert, lookup-insert_self}
use mathlib.Core.Option
use enigma_relay.Limiter.{
  F64, IpAddr, RateKey, key_eq, key_beq_iff, Bucket, RateLimiter, fresh, allow_bucket, allow,
}
use enigma_relay.Limiter.Burst.{allow_bucket-some, take_token-drained}

module _ (f : F64) (ban now rate burst : ℕ) where
  -- A bucket with `n` tokens, charged at the instant, that is not banned.
  abbrev pub holding : ℕ → Bucket f
  holding n = record {
    tokens = f.of_u64 n;
    last = now;
    burst = f.of_u64 burst;
    rate = f.of_u64 rate;
    ban_until = none;
  }

  -- It has one token less after a call, or none still, and is banned.
  abbrev pub charged : ℕ → Bucket f
  charged zero = record {
    tokens = f.of_u64 0;
    last = now;
    burst = f.of_u64 burst;
    rate = f.of_u64 rate;
    ban_until = some (now + ban * 10 ^ 9);
  }
  charged (suc n) = holding n

  -- The client has `n` tokens: those of its bucket, or the burst if it has no bucket.
  abbrev pub HasTokens : RateKey → ℕ → RateLimiter f → Type 0
  HasTokens key n limiter =
      (lookup key limiter.buckets ≡ none) × (n ≡ burst)
      ⊎ (lookup key limiter.buckets ≡ some (holding n))

  -- The limiter after a call for the key.
  pub record Charges (key : RateKey) (n : ℕ) (limiter limiter' : RateLimiter f) : Type 0 where
    pub bucket : lookup key limiter'.buckets ≡ some (charged n)
    pub others :
        (key' : RateKey) → key ≢ key' → lookup key' limiter'.buckets ≡ lookup key' limiter.buckets
    pub enabled : limiter'.enabled ≡ true
    pub bans : limiter'.ban_seconds ≡ limiter.ban_seconds

  module _ (exact : burst ≤ 2 ^ 53) where
    allow_bucket-charged :
        (n : ℕ) → n ≤ burst → allow_bucket f ban now (holding n) ≡ (leb 1 n, charged n)
    unfolding allow_bucket
    allow_bucket-charged zero l = take_token-drained f ban now rate burst exact none
    allow_bucket-charged (suc n) l =
        let some_left : leb 1 (suc n) ≡ true = ground arith in
        rw some_left (allow_bucket-some f ban now rate burst exact n l)

    pub allow-Charges :
        (ip : IpAddr) (label : Text) (n : ℕ) (limiter : RateLimiter f)
        → limiter.enabled ≡ true
        → limiter.ban_seconds ≡ ban
        → n ≤ burst
        → HasTokens (record { ip = ip; label = label }) n limiter
        → ((allow f now ip label (f.of_u64 rate) (f.of_u64 burst) limiter).0 ≡ leb 1 n)
          × Charges
              (record { ip = ip; label = label })
              n
              limiter
              (allow f now ip label (f.of_u64 rate) (f.of_u64 burst) limiter).1
    unfolding allow
    allow-Charges ip label n limiter on bans l has =
        let key : RateKey = record { ip = ip; label = label } in
        let entry : Option.get_or (lookup key limiter.buckets)
              (fresh f (f.of_u64 rate) (f.of_u64 burst) now)
            ≡ holding n =
          found has in
        rw (on, entry, bans, allow_bucket-charged n l)
          (
            refl,
            record {
              bucket = lookup-insert_self key (charged n) limiter.buckets;
              others = λ key' other. elim (Bool-cases (key == key')) [
                | inl same ↦ absurd (other ((key_beq_iff key key').0 same))
                | inr apart ↦ rw (lookup-insert, apart) refl
              ];
              enabled = refl;
              bans = refl;
            },
          )
      where
        found :
            HasTokens (record { ip = ip; label = label }) n limiter
            → Option.get_or
                (lookup (record { ip = ip; label = label }) limiter.buckets)
                (fresh f (f.of_u64 rate) (f.of_u64 burst) now)
              ≡ holding n
        found (inl (missing, full)) = rw (missing, full) refl
        found (inr there) = rw there refl
