-- ===== src/Ttl/Total.antt =====
-- What the loop of src/ttl.rs counts, over the store in memory.
use enigma_relay.Base.{
  ℕ, ◌+◌, ◌-◌, ◌%◌, ◌^◌, ◌≤◌, ◌<◌, ◌≡◌, refl, sym, ap, subst, Option, some, List, [], ◌∷◌, arith,
  ltb, Bool-cases, inl, inr,
}
use enigma_relay.Metrics.{RelayMetrics}
use enigma_relay.Store.{Base64, AckItem}
use enigma_relay.StoreMem.{mem_store}
use enigma_relay.StoreMem.State.{MemStore}
use enigma_relay.StoreMem.Purge.Counts.{total, purge_expired-total}
use enigma_relay.StoreMem.Purge.Complete.{purge_expired-le}
use enigma_relay.StoreMem.Invariant.{IsValid, purge_expired-IsValid}
use enigma_relay.Ttl.{Event, tick, shutdown, now_millis, run_tick, run_gc}

-- From the state and the counters, the collector has come to the second state and counters: what
-- has left the store is counted, modulo 2^64.
pub record Collects (s : MemStore) (m : RelayMetrics) (s' : MemStore) (o : Option RelayMetrics)
    : Type 0 where
  pub valid : IsValid s'
  pub fewer : total s' ≤ total s
  pub counters : RelayMetrics
  pub kept : o ≡ some counters
  pub counted : counters.gc_removed ≡ (m.gc_removed + (total s - total s')) % 2 ^ 64

module _ (standard : Base64) (order : List AckItem → List AckItem) where
  run_tick-Collects :
      (time : Option ℕ) (s : MemStore) (m : RelayMetrics)
      → IsValid s
      → m.gc_removed < 2 ^ 64
      → Collects s m
          (run_tick (mem_store standard order) time (s, some m)).0
          (run_tick (mem_store standard order) time (s, some m)).1
  unfolding run_tick
  run_tick-Collects time s m v l =
      let (removed, e, _, _, _) = purge_expired-le (now_millis time) 1024 s v in
      let n = purge_expired-total (now_millis time) 1024 removed s v e in
      let v' = purge_expired-IsValid (now_millis time) 1024 s v in
      rw (e, run_tick)
        (elim (Bool-cases (ltb 0 removed)) [
          | inl some_removed ↦ rw some_removed (record {
            valid = v';
            fewer = omega (arith, n);
            counters = _;
            kept = refl;
            counted = omega (arith, n);
          })
          | inr none_removed ↦
              let zero_removed : removed ≡ 0 = ground arith in
              rw none_removed (record {
                valid = v';
                fewer = omega (arith, n);
                counters = m;
                kept = refl;
                counted = omega (arith, n, zero_removed);
              })
        ])

  -- However long the collector runs over a valid store, and whenever it is told to stop, the store
  -- stays valid, and the counter `gc_removed` grows by the number of messages that have left the
  -- store, modulo 2^64, if it starts as a u64 value.
  pub run_gc-Collects :
      (events : List Event) (s : MemStore) (m : RelayMetrics)
      → IsValid s
      → m.gc_removed < 2 ^ 64
      → Collects s m
          (run_gc (mem_store standard order) events (s, some m)).0
          (run_gc (mem_store standard order) events (s, some m)).1
  unfolding run_gc
  run_gc-Collects [] s m v l = record {
    valid = v;
    fewer = omega arith;
    counters = m;
    kept = refl;
    counted = omega arith;
  }
  run_gc-Collects (shutdown ∷ events) s m v l = record {
    valid = v;
    fewer = omega arith;
    counters = m;
    kept = refl;
    counted = omega arith;
  }
  run_gc-Collects (tick time ∷ events) s m v l =
      let first = run_tick-Collects time s m v l in
      let s1 = (run_tick (mem_store standard order) time (s, some m)).0 in
      let rest =
        run_gc-Collects events s1 first.counters first.valid (omega (arith, first.counted)) in
      subst
        (λ (p : MemStore × Option RelayMetrics).
          Collects s m (run_gc (mem_store standard order) events p).0
            (run_gc (mem_store standard order) events p).1)
        (sym (ap (λ o. (s1, o)) first.kept))
        (record {
          valid = rest.valid;
          fewer = omega (arith, rest.fewer, first.fewer);
          counters = rest.counters;
          kept = rest.kept;
          counted = omega (arith, rest.counted, first.counted, rest.fewer, first.fewer);
        })
