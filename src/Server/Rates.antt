-- ===== src/Server/Rates.antt =====
-- What `enforce_rate` of src/server.rs answers to a request, and what it charges.
use enigma_relay.Base.{
  Bool, ℕ, ◌+◌, ◌*◌, ◌^◌, ◌≤◌, ◌≡◌, ◌≢◌, ◌⊎◌, refl, sym, ap, ◌∙◌, true, none, some, arith, leb,
  ◌&&◌, if◌then◌else◌, inl, inr,
}
use enigma_relay.Base.Text.{Text, codes}
use enigma_relay.Base.Eq.{list_eq}
use enigma_relay.Base.Map.{lookup}
use enigma_relay.Error.Action.{◌>>=◌}
use enigma_relay.Error.{ok, err, rate_limited}
use enigma_relay.Config.{Features, RateLimitConfig}
use enigma_relay.Limiter.{F64, IsInstant, IpAddr, v4, RateKey, key_eq, RateLimiter, allow}
use enigma_relay.Limiter.Charge.{charged, HasTokens, allow-Charges}
use enigma_relay.Store.{RelayStore}
use enigma_relay.Server.{
  Request, peer_ip, endpoint_rps, AppState, count, ask, check_rate, enforce_rate,
}

-- The endpoints with a rate of their own, and that rate.
pub data Rated (cfg : RateLimitConfig) : Text → ℕ → Type 0 where
  push_rated : Rated cfg (codes "push") cfg.endpoints.push_rps
  pull_rated : Rated cfg (codes "pull") cfg.endpoints.pull_rps
  ack_rated : Rated cfg (codes "ack") cfg.endpoints.ack_rps

-- The client: the address of the peer, or 127.0.0.1 if there is none.
abbrev pub ComesFrom : Request → IpAddr → Type 0
ComesFrom req ip = (req.peer_addr ≡ some ip) ⊎ (req.peer_addr ≡ none) × (ip ≡ v4 2130706433)

ComesFrom-peer_ip : (req : Request) (ip : IpAddr) → ComesFrom req ip → peer_ip req ≡ ip
unfolding peer_ip
ComesFrom-peer_ip req ip (inl known) = rw known refl
ComesFrom-peer_ip req ip (inr (unknown, local)) = rw (unknown, local) refl

Rated-endpoint_rps :
    (cfg : RateLimitConfig) (label : Text) (rate : ℕ)
    → Rated cfg label rate
    → endpoint_rps cfg label ≡ rate
unfolding endpoint_rps
Rated-endpoint_rps cfg label rate push_rated = refl
Rated-endpoint_rps cfg label rate pull_rated = refl
Rated-endpoint_rps cfg label rate ack_rated = refl

not_global :
    (cfg : RateLimitConfig) (label : Text) (rate : ℕ)
    → Rated cfg label rate
    → codes "global" ≢ label
not_global cfg label rate push_rated e = cc
not_global cfg label rate pull_rated e = cc
not_global cfg label rate ack_rated e = cc

module _ (f : F64) (relay_store : RelayStore) (features : Features) (req : Request) (label : Text)
    (s : AppState f relay_store features) (ip : IpAddr) (rate g e : ℕ) where
  abbrev global_key : RateKey
  global_key = record { ip = ip; label = codes "global" }

  abbrev endpoint_key : RateKey
  endpoint_key = record { ip = ip; label = label }

  abbrev ban : ℕ
  ban = s.rate_limiter.ban_seconds

  abbrev burst : ℕ
  burst = s.config.rate_limit.burst

  abbrev global_rate : ℕ
  global_rate = s.config.rate_limit.per_ip_rps

  -- The limiter after the call for the client alone.
  abbrev middle : RateLimiter f
  middle =
      (allow f req.global_at ip (codes "global") (f.of_u64 global_rate) (f.of_u64 burst)
        s.rate_limiter).1

  abbrev asked : Bool × RateLimiter f
  asked = allow f req.endpoint_at ip label (f.of_u64 rate) (f.of_u64 burst) middle

  -- The two calls of the limiter, with the client and the rates spelled out.
  enforce_rate-asked :
      s.rate_limiter.enabled ≡ true
      → peer_ip req ≡ ip
      → endpoint_rps s.config.rate_limit label ≡ rate
      → ((enforce_rate f relay_store features req label s).0 ≡ (
          if (allow f req.global_at ip
              (codes "global")
              (f.of_u64 global_rate)
              (f.of_u64 burst)
              s.rate_limiter).0
            && asked.0
          then ok tt
          else err rate_limited))
        × ((enforce_rate f relay_store features req label s).1.rate_limiter ≡ asked.1)
  unfolding enforce_rate check_rate ask count ◌>>=◌
  enforce_rate-asked on from rated = ground (arith, on, from, rated)

  -- The answer to the request, and the limiter after it.
  pub record Enforces : Type 0 where
    pub answer :
        (enforce_rate f relay_store features req label s).0
        ≡ (if leb 1 g && leb 1 e then ok tt else err rate_limited)
    pub client :
        lookup global_key (enforce_rate f relay_store features req label s).1.rate_limiter.buckets
        ≡ some (charged f ban req.global_at global_rate burst g)
    pub endpoint :
        lookup endpoint_key (enforce_rate f relay_store features req label s).1.rate_limiter.buckets
        ≡ some (charged f ban req.endpoint_at rate burst e)
    pub others :
        (key : RateKey)
        → global_key ≢ key
        → endpoint_key ≢ key
        → lookup key (enforce_rate f relay_store features req label s).1.rate_limiter.buckets
          ≡ lookup key s.rate_limiter.buckets

  -- A request for a push, a pull or an acknowledgement passes an enabled limiter exactly if its client
  -- has a token, and a token for this endpoint; it is answered `rate_limited` otherwise. In either case
  -- both buckets are charged: one with tokens has one less, and one without is banned for the limiter's
  -- `ban_seconds`; the buckets of other clients and endpoints stay as they are. A bucket that is not
  -- there has the tokens of the burst, and is made with `per_ip_rps` for the client and with the rate of
  -- the endpoint. A bucket that is there was last charged at the instant of its call, with these rates,
  -- and is not banned; no bucket has more tokens than the burst, which is at most 2^53; and a ban that
  -- starts at a call ends at an instant, so that `allow` does not panic.
  pub enforce_rate-both :
      s.rate_limiter.enabled ≡ true
      → ComesFrom req ip
      → Rated s.config.rate_limit label rate
      → burst ≤ 2 ^ 53
      → IsInstant (req.global_at + ban * 10 ^ 9)
      → IsInstant (req.endpoint_at + ban * 10 ^ 9)
      → g ≤ burst
      → e ≤ burst
      → HasTokens f ban req.global_at global_rate burst global_key g s.rate_limiter
      → HasTokens f ban req.endpoint_at rate burst endpoint_key e s.rate_limiter
      → Enforces
  enforce_rate-both on from rated exact end end' few few' has has' =
      let apart : global_key ≢ endpoint_key = λ same.
        not_global s.config.rate_limit label rate rated (ap (λ (k : RateKey). k.label) same) in
      let (answered, left) =
        allow-Charges f ban req.global_at global_rate burst exact ip (codes "global") g
          s.rate_limiter on refl few has in
      let untouched = left.others endpoint_key apart in
      let (answered', left') =
        allow-Charges f ban req.endpoint_at rate burst exact ip label e middle left.enabled
          left.bans few' (still_has untouched) in
      let (result, limiter) =
        enforce_rate-asked on (ComesFrom-peer_ip req ip from)
          (Rated-endpoint_rps s.config.rate_limit label rate rated) in
      record {
        answer =
            result
            ∙ ap (λ allowed. if allowed && asked.0 then ok tt else err rate_limited) answered
            ∙ ap (λ allowed. if leb 1 g && allowed then ok tt else err rate_limited) answered';
        client = rw limiter (left'.others global_key (λ same. apart (sym same)) ∙ left.bucket);
        endpoint = rw limiter left'.bucket;
        others = λ key not_client not_endpoint.
            rw limiter (left'.others key not_endpoint ∙ left.others key not_client);
      }
    where
      still_has :
          lookup endpoint_key middle.buckets ≡ lookup endpoint_key s.rate_limiter.buckets
          → HasTokens f ban req.endpoint_at rate burst endpoint_key e middle
      still_has untouched = elim has' [
        | inl (missing, full) ↦ inl (untouched ∙ missing, full)
        | inr there ↦ inr (untouched ∙ there)
      ]
