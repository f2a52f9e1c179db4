-- ===== src/Tests/Collector.antt =====
-- The collector at concrete inputs.
use enigma_relay.Base.{some, List, [], ◌∷◌, arith}
use enigma_relay.Metrics.{default_metrics}
use enigma_relay.StoreMem.{mem_store}
use enigma_relay.Ttl.{Event, tick, shutdown, run_gc}
use enigma_relay.Ttl.Total.{Collects, run_gc-Collects}
use enigma_relay.Tests.Data.{latin, in_order}
use enigma_relay.Tests.Memory.{two, two-IsValid}

-- A tick at 250 ms, and the signal to stop.
abbrev events : List Event
events = tick (some 250000000) ∷ shutdown ∷ []

run_gc-Collects_example :
    Collects two default_metrics
      (run_gc (mem_store latin in_order) events (two, some default_metrics)).0
      (run_gc (mem_store latin in_order) events (two, some default_metrics)).1
run_gc-Collects_example =
    run_gc-Collects latin in_order events two default_metrics two-IsValid (omega arith)
