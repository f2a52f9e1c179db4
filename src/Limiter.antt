-- ===== src/Limiter.antt =====
-- src/server.rs: the rate limiter. An `Instant` is a number of nanoseconds. The f64 arithmetic is an
-- interface with the laws of IEEE 754 that the limiter relies on.
pub mod Ban
pub mod Burst
pub mod Charge
use enigma_relay.Base.{
  ℕ, suc, ◌+◌, ◌-◌, ◌*◌, ◌^◌, ◌≤◌, ◌<◌, ◌≡◌, ◌↔◌, Bool, true, false, not, ◌&&◌, Option, none, some,
  List, [], arith, eqb, ltb, leb, if◌then◌else◌,
}
use enigma_relay.Base.Text.{Text}
use enigma_relay.Base.Eq.{Eq, ◌==◌, list_eq, nat_eq, list_beq_iff}
use enigma_relay.Base.Map.{lookup, insert}
use mathlib.Core.Option

-- `of_u64` is `n as f64`, `as_secs_f64` that of a `Duration` in nanoseconds.
pub record F64 : Type 1 where
  pub Value : Type 0
  pub of_u64 : ℕ → Value
  pub as_secs_f64 : ℕ → Value
  pub add : Value → Value → Value
  pub mul : Value → Value → Value
  pub sub : Value → Value → Value
  pub min : Value → Value → Value
  pub ge : Value → Value → Bool
  pub add_nothing : (n r : ℕ) → add (of_u64 n) (mul (as_secs_f64 0) (of_u64 r)) ≡ of_u64 n
  pub min_first : (n m : ℕ) → n ≤ m → min (of_u64 n) (of_u64 m) ≡ of_u64 n
  pub ge_one : (n : ℕ) → ge (of_u64 n) (of_u64 1) ≡ leb 1 n
  pub sub_one : (n : ℕ) → n < 2 ^ 53 → sub (of_u64 (suc n)) (of_u64 1) ≡ of_u64 n

-- The seconds of an `Instant` are an i64.
abbrev pub IsInstant : ℕ → Type 0
IsInstant at = at < 2 ^ 63 * 10 ^ 9

-- The addresses of std::net as numbers.
pub data IpAddr : Type 0 where
  v4 : ℕ → IpAddr
  v6 : ℕ → IpAddr

abbrev ip_beq : IpAddr → IpAddr → Bool
ip_beq (v4 a) (v4 b) = eqb a b
ip_beq (v6 a) (v6 b) = eqb a b
ip_beq (v4 a) (v6 b) = false
ip_beq (v6 a) (v4 b) = false

ip_beq_iff : (a b : IpAddr) → (ip_beq a b ≡ true) ↔ (a ≡ b)
ip_beq_iff (v4 a) (v4 b) = ground arith
ip_beq_iff (v6 a) (v6 b) = ground arith
ip_beq_iff (v4 a) (v6 b) = ground arith
ip_beq_iff (v6 a) (v4 b) = ground arith

pub record RateKey : Type 0 where
  pub ip : IpAddr
  pub label : Text

-- The derived `PartialEq`.
abbrev key_beq : RateKey → RateKey → Bool
key_beq a b = ip_beq a.ip b.ip && a.label == b.label

pub key_beq_iff : (a b : RateKey) → (key_beq a b ≡ true) ↔ (a ≡ b)
key_beq_iff a b = ground (arith, ip_beq_iff a.ip b.ip, list_eq.same_iff a.label b.label)

instance abbrev pub key_eq : Eq RateKey
key_eq = record { same = key_beq; same_iff = key_beq_iff }

module _ (f : F64) where
  pub record Bucket : Type 0 where
    pub tokens : f.Value
    pub last : ℕ
    pub burst : f.Value
    pub rate : f.Value
    pub ban_until : Option ℕ

  pub record RateLimiter : Type 0 where
    pub enabled : Bool
    pub ban_seconds : ℕ
    pub buckets : List (RateKey × Bucket)

  abbrev pub new : Bool → ℕ → RateLimiter
  new enabled ban_seconds = record { enabled = enabled; ban_seconds = ban_seconds; buckets = [] }

  -- The bucket of a key that is not there.
  abbrev pub fresh : f.Value → f.Value → ℕ → Bucket
  fresh rate burst now = record {
    tokens = burst;
    last = now;
    burst = burst;
    rate = rate;
    ban_until = none;
  }

  -- `allow` on a bucket that is not banned, or no longer. The source panics if the end of a ban is not an
  -- instant; here it is a number of nanoseconds all the same.
  unfoldable pub take_token : ℕ → ℕ → Bucket → Bool × Bucket
  take_token ban_seconds now entry =
      let elapsed = f.as_secs_f64 (now - entry.last) in
      let tokens = f.min (f.add entry.tokens (f.mul elapsed entry.rate)) entry.burst in
      if f.ge tokens (f.of_u64 1)
      then (true, record entry { tokens = f.sub tokens (f.of_u64 1); last = now; ban_until = none })
      else (
        false,
        record entry { tokens = tokens; last = now; ban_until = some (now + ban_seconds * 10 ^ 9) },
      )

  unfoldable pub allow_bucket : ℕ → ℕ → Bucket → Bool × Bucket
  allow_bucket ban_seconds now entry = elim entry.ban_until [
    | none ↦ take_token ban_seconds now entry
    | some until ↦ if ltb now until then (false, entry) else take_token ban_seconds now entry
  ]

  -- At the instant `now`, which the source reads from the clock.
  unfoldable pub allow : ℕ → IpAddr → Text → f.Value → f.Value → RateLimiter → Bool × RateLimiter
  allow now ip label rate burst limiter =
      let key : RateKey = record { ip = ip; label = label } in
      let entry = Option.get_or (lookup key limiter.buckets) (fresh rate burst now) in
      let (allowed, entry') = allow_bucket limiter.ban_seconds now entry in
      if limiter.enabled
      then (allowed, record limiter { buckets = insert key entry' limiter.buckets })
      else (true, limiter)
