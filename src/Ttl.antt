-- ===== src/Ttl.antt =====
-- src/ttl.rs: the clock, and the loop that collects what has expired.
pub mod Total
use enigma_relay.Base.{
  ℕ, ◌+◌, ◌/◌, ◌%◌, ◌^◌, Bool, true, false, Option, none, some, List, [], ◌∷◌, ltb, if◌then◌else◌,
}
use mathlib.Core.Option
use enigma_relay.Error.{Result, ok, err}
use enigma_relay.Metrics.{RelayMetrics, fetch_add}
use enigma_relay.Store.{RelayStore}

-- Of the nanoseconds since the epoch, if the clock is not before it.
unfoldable pub now_millis : Option ℕ → ℕ
now_millis none = 0
now_millis (some duration) = (duration / 10 ^ 6) % 2 ^ 64

-- What the loop waits for: a tick, at which the clock is read, or the signal to shut down.
pub data Event : Type 0 where
  tick : Option ℕ → Event
  shutdown : Event

module _ (relay_store : RelayStore) where
  -- `metrics` is there with the feature of this name.
  unfoldable pub run_tick :
      Option ℕ → relay_store.State × Option RelayMetrics → relay_store.State × Option RelayMetrics
  run_tick time (store, metrics) =
      let (result, store') = relay_store.purge_expired (now_millis time) 1024 store in
      let counted = λ (removed : ℕ) (m : RelayMetrics). record m {
        gc_removed = fetch_add m.gc_removed removed;
      } in
      (
        store',
        elim result [
          | err e ↦ metrics
          | ok removed ↦ if ltb 0 removed then Option.map (counted removed) metrics else metrics
        ],
      )

  -- The loop, over the events in the order in which `select!` takes them.
  unfoldable pub run_gc :
      List Event → relay_store.State × Option RelayMetrics → relay_store.State × Option RelayMetrics
  run_gc [] s = s
  run_gc (tick time ∷ events) s = run_gc events (run_tick time s)
  run_gc (shutdown ∷ events) s = s
