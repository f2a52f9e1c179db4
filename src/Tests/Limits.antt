-- ===== src/Tests/Limits.antt =====
-- The rate limiter at concrete inputs, with numbers of nano-units in place of f64.
use enigma_relay.Base.{
  ℕ, ◌+◌, ◌-◌, ◌*◌, ◌/◌, ◌≡◌, refl, true, false, none, [], ◌∷◌, arith, leb, min,
}
use enigma_relay.Base.Text.{codes}
use enigma_relay.Base.Map.{lookup}
use enigma_relay.Limiter
use enigma_relay.Limiter.{F64, v4, RateLimiter, RateKey, key_eq, take_token, allow_bucket, allow}
use enigma_relay.Limiter.Ban.{Call, run_call, run_calls, refused-run_calls}
use enigma_relay.Limiter.Burst.{answers, answers-first_of}

abbrev scale : ℕ
scale = 1000000000

pub ge_one_nano : (n : ℕ) → leb (1 * scale) (n * scale) ≡ leb 1 n
ge_one_nano n = ground arith

abbrev pub nano : F64
nano = record {
  Value = ℕ;
  of_u64 = λ n. n * scale;
  as_secs_f64 = λ ns. ns;
  add = λ a b. a + b;
  mul = λ a b. a * b / scale;
  sub = λ a b. a - b;
  min = λ a b. min a b;
  ge = λ a b. leb b a;
  add_nothing = λ n r. omega arith;
  min_first = λ n m l. omega arith;
  ge_one = ge_one_nano;
  sub_one = λ n l. omega arith;
}

abbrev limiter : RateLimiter nano
limiter = Limiter.new nano true 300

abbrev call_at : ℕ → Call nano
call_at now = record { now = now; ip = v4 7; label = codes "push"; rate = scale; burst = 0 }

-- With no burst the first call is refused, and so is one at 299 seconds.
first_refused : (run_call nano (call_at 0) limiter).0 ≡ false
unfolding allow allow_bucket take_token lookup
first_refused = refl

refused-run_calls_example :
    (run_call nano
      (call_at 299000000000)
      (run_calls nano (call_at 5 ∷ []) (run_call nano (call_at 0) limiter).1)).0
    ≡ false
unfolding lookup
refused-run_calls_example =
    refused-run_calls nano (call_at 0) (call_at 299000000000) (call_at 5 ∷ []) limiter refl tt
      first_refused refl (omega arith, (omega arith, tt))

no_bucket : lookup (record { ip = v4 7; label = codes "push" }) limiter.buckets ≡ none
unfolding lookup
no_bucket = refl

answers-first_of_example :
    answers nano 300 0 5 2 (omega arith) (v4 7) (codes "push") 3 limiter ≡ true ∷ true ∷ false ∷ []
answers-first_of_example =
    answers-first_of nano 300 0 5 2 (omega arith) (v4 7) (codes "push") 3 limiter refl refl
      (omega arith) no_bucket
