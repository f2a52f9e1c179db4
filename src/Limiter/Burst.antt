-- ===== src/Limiter/Burst.antt =====
-- How many calls at one instant the limiter of src/server.rs lets through.
use enigma_relay.Base.{
  ℕ, zero, suc, ◌+◌, ◌-◌, ◌*◌, ◌^◌, ◌≤◌, ◌≡◌, refl, Bool, true, false, Option, none, some, List, [],
  ◌∷◌, arith, ltb, leb, Bool-cases, inl, inr,
}
use enigma_relay.Base.Map.{lookup, lookup-insert_self}
use enigma_relay.Base.Text.{Text}
use mathlib.Core.Option
use enigma_relay.Limiter.{
  F64, IsInstant, IpAddr, RateKey, key_eq, Bucket, RateLimiter, fresh, take_token, allow_bucket,
  allow,
}

-- The answers to `n` calls of which the first `k` are let through.
abbrev pub first_of : ℕ → ℕ → List Bool
first_of zero k = []
first_of (suc n) zero = false ∷ first_of n zero
first_of (suc n) (suc k) = true ∷ first_of n k

module _ (f : F64) (ban now rate burst : ℕ) (exact : burst ≤ 2 ^ 53) where
  -- A bucket with `n` tokens at the instant.
  abbrev with_tokens : ℕ → Bucket f
  with_tokens n = record (fresh f (f.of_u64 rate) (f.of_u64 burst) now) { tokens = f.of_u64 n }

  pub allow_bucket-some :
      (n : ℕ) → suc n ≤ burst → allow_bucket f ban now (with_tokens (suc n)) ≡ (true, with_tokens n)
  unfolding allow_bucket take_token
  allow_bucket-some n l =
      let none_passed : now - now ≡ 0 = omega arith in
      let has_one : leb 1 (suc n) ≡ true = ground arith in
      rw
        (
          none_passed,
          f.add_nothing (suc n) rate,
          f.min_first (suc n) burst l,
          f.ge_one (suc n),
          f.sub_one n (omega arith),
          has_one,
        )
        refl

  -- A bucket without tokens, banned or not.
  abbrev drained : Option ℕ → Bucket f
  drained u = record (with_tokens 0) { ban_until = u }

  pub take_token-drained :
      (u : Option ℕ)
      → take_token f ban now (drained u) ≡ (false, drained (some (now + ban * 10 ^ 9)))
  unfolding take_token
  take_token-drained u =
      let none_passed : now - now ≡ 0 = omega arith in
      let no_token : leb 1 0 ≡ false = refl in
      rw
        (none_passed, f.add_nothing 0 rate, f.min_first 0 burst (omega arith), f.ge_one 0, no_token)
        refl

  allow_bucket-drained :
      (u : Option ℕ) → (u' : Option ℕ) × (allow_bucket f ban now (drained u) ≡ (false, drained u'))
  unfolding allow_bucket
  allow_bucket-drained none = (some (now + ban * 10 ^ 9), take_token-drained none)
  allow_bucket-drained (some until) = elim (Bool-cases (ltb now until)) [
    | inl e ↦ (some until, rw e refl)
    | inr e ↦ (some (now + ban * 10 ^ 9), rw e (take_token-drained (some until)))
  ]

  module _ (ip : IpAddr) (label : Text) where
    -- The answer of the limiter, with what it leaves.
    abbrev again : RateLimiter f → Bool × RateLimiter f
    again = allow f now ip label (f.of_u64 rate) (f.of_u64 burst)

    -- The answers to calls of one client for one label at one instant.
    unfoldable pub answers : ℕ → RateLimiter f → List Bool
    answers zero limiter = []
    answers (suc n) limiter = let rest = answers n (again limiter).1 in (again limiter).0 ∷ rest

    abbrev key : RateKey
    key = record { ip = ip; label = label }

    -- The limiter is on, and has the bucket for the client.
    record Has (entry : Bucket f) (limiter : RateLimiter f) : Type 0 where
      on : limiter.enabled ≡ true
      bans : limiter.ban_seconds ≡ ban
      found :
          Option.get_or (lookup key limiter.buckets) (fresh f (f.of_u64 rate) (f.of_u64 burst) now)
          ≡ entry

    Has-next :
        (entry entry' : Bucket f) (allowed : Bool) (limiter : RateLimiter f)
        → Has entry limiter
        → allow_bucket f ban now entry ≡ (allowed, entry')
        → ((again limiter).0 ≡ allowed) × Has entry' (again limiter).1
    unfolding allow
    Has-next entry entry' allowed limiter h e =
        rw (h.on, h.found, h.bans, e)
          (
            refl,
            record {
              on = refl;
              bans = refl;
              found = rw (lookup-insert_self key entry' limiter.buckets) refl;
            },
          )

    answers-drained :
        (n : ℕ) (u : Option ℕ) (limiter : RateLimiter f)
        → Has (drained u) limiter
        → answers n limiter ≡ first_of n 0
    unfolding answers
    answers-drained zero u limiter h = refl
    answers-drained (suc n) u limiter h =
        let (u', e) = allow_bucket-drained u in
        let (answer, h') = Has-next (drained u) (drained u') false limiter h e in
        rw (answer, answers-drained n u' (again limiter).1 h') refl

    answers-Has :
        (n k : ℕ) (limiter : RateLimiter f)
        → k ≤ burst
        → Has (with_tokens k) limiter
        → answers n limiter ≡ first_of n k
    unfolding answers
    answers-Has zero k limiter l h = refl
    answers-Has (suc n) zero limiter l h = answers-drained (suc n) none limiter h
    answers-Has (suc n) (suc k) limiter l h =
        let (answer, h') =
          Has-next (with_tokens (suc k)) (with_tokens k) true limiter h (allow_bucket-some k l) in
        rw (answer, answers-Has n k (again limiter).1 (omega arith) h') refl

    -- Of the calls that a new client makes at one instant, an enabled limiter lets the first `burst`
    -- through and refuses the others, if `burst` is at most 2^53, and the end of a ban that starts then is
    -- an instant, so that `allow` does not panic.
    pub answers-first_of :
        (n : ℕ) (limiter : RateLimiter f)
        → limiter.enabled ≡ true
        → limiter.ban_seconds ≡ ban
        → IsInstant (now + ban * 10 ^ 9)
        → lookup (record { ip = ip; label = label }) limiter.buckets ≡ none
        → answers n limiter ≡ first_of n burst
    answers-first_of n limiter on bans end e =
        answers-Has n burst limiter (omega arith)
          (record { on = on; bans = bans; found = rw e refl })
