-- ===== src/Config/Valid.antt =====
-- What src/config.rs accepts: the configurations that can be run.
use enigma_relay.Base.{◌<◌, ◌≡◌, refl, ◌↔◌, Bool, true, false, none, some, arith}
use enigma_relay.Base.Text.{trim, is_empty}
use enigma_relay.Error.{EnigmaRelayError, Result, ok, err, ◌>>◌, reject}
use enigma_relay.Config.{
  Features, RelayMode, http_mode, tls_mode, StorageKind, sled, memory, TlsConfig, RelayLimits,
  RateLimitConfig, RelayConfig, validate_mode, validate_relay, validate_rate_limit,
  validate_storage, validate,
}
use mathlib.Core.Option.{Option}

abbrev pub HasMode : Features → RelayMode → Option TlsConfig → Type 0
HasMode f http_mode tls = Unit
HasMode f tls_mode none = ⊥
HasMode f tls_mode (some _) = f.tls ≡ true

abbrev pub HasStorage : Features → StorageKind → Type 0
HasStorage f sled = f.persistence ≡ true
HasStorage f memory = Unit

pub record HasLimits (r : RelayLimits) : Type 0 where
  pub message : 0 < r.max_message_bytes
  pub queue : 0 < r.max_queue_bytes_per_user
  pub messages : 0 < r.max_messages_per_user
  pub batch : 0 < r.pull_batch_max
  pub interval : 0 < r.gc_interval_seconds

pub record HasRates (r : RateLimitConfig) : Type 0 where
  pub per_ip : r.enabled ≡ true → 0 < r.per_ip_rps
  pub burst : r.enabled ≡ true → 0 < r.burst
  pub push : r.enabled ≡ true → 0 < r.endpoints.push_rps
  pub pull : r.enabled ≡ true → 0 < r.endpoints.pull_rps
  pub ack : r.enabled ≡ true → 0 < r.endpoints.ack_rps

pub record IsValid (f : Features) (c : RelayConfig) : Type 0 where
  pub address : is_empty (trim c.address) ≡ false
  pub mode : HasMode f c.mode c.tls
  pub limits : HasLimits c.relay
  pub rates : HasRates c.rate_limit
  pub storage : HasStorage f c.storage.kind

validate_mode_iff :
    (f : Features) (m : RelayMode) (t : Option TlsConfig)
    → (validate_mode f m t ≡ ok tt) ↔ HasMode f m t
unfolding validate_mode
validate_mode_iff f http_mode t = ground arith
validate_mode_iff f tls_mode none = ground arith
validate_mode_iff f tls_mode (some t) = ground arith

validate_storage_iff :
    (f : Features) (k : StorageKind) → (validate_storage f k ≡ ok tt) ↔ HasStorage f k
unfolding validate_storage
validate_storage_iff f sled = ground arith
validate_storage_iff f memory = ground arith

validate_relay_iff : (r : RelayLimits) → (validate_relay r ≡ ok tt) ↔ HasLimits r
unfolding validate_relay
validate_relay_iff r = ground arith

validate_rate_limit_iff : (r : RateLimitConfig) → (validate_rate_limit r ≡ ok tt) ↔ HasRates r
unfolding validate_rate_limit
validate_rate_limit_iff r = ground arith

-- A chain of checks that return nothing passes exactly when each of them does.
>>-eq-ok_iff : (m n : Result (Unit {0})) → ((m >> n) ≡ ok tt) ↔ ((m ≡ ok tt) × (n ≡ ok tt))
>>-eq-ok_iff (ok tt) n = (λ h. (refl, h), λ h. h.1)
>>-eq-ok_iff (err e) n = (λ h. cc, λ h. cc (h.0))

reject_iff : (b : Bool) (e : EnigmaRelayError) → (reject b e ≡ ok tt) ↔ (b ≡ false)
reject_iff true e = ground arith
reject_iff false e = ground arith

-- `validate` accepts a configuration exactly when the address is not blank, the mode is HTTP or has
-- a TLS configuration and the feature, the limits and, if rate limiting is on, the rates are
-- positive, and the storage is in memory or has the feature.
pub validate_iff : (f : Features) (c : RelayConfig) → (validate f c ≡ ok tt) ↔ IsValid f c
unfolding validate
validate_iff f c = (sound, complete)
  where
    open c use {address, mode, tls, relay, rate_limit, storage}

    sound : validate f c ≡ ok tt → IsValid f c
    sound h =
        let (a, h1) = (>>-eq-ok_iff _ _).0 h in
        let (m, h2) = (>>-eq-ok_iff _ _).0 h1 in
        let (l, h3) = (>>-eq-ok_iff _ _).0 h2 in
        let (r, s) = (>>-eq-ok_iff _ _).0 h3 in
        record {
          address = (reject_iff _ _).0 a;
          mode = (validate_mode_iff f mode tls).0 m;
          limits = (validate_relay_iff relay).0 l;
          rates = (validate_rate_limit_iff rate_limit).0 r;
          storage = (validate_storage_iff f storage.kind).0 s;
        }

    complete : IsValid f c → validate f c ≡ ok tt
    complete v =
        rw
          (
            v.address,
            (validate_mode_iff f mode tls).1 v.mode,
            (validate_relay_iff relay).1 v.limits,
            (validate_rate_limit_iff rate_limit).1 v.rates,
          )
          ((validate_storage_iff f storage.kind).1 v.storage)
