-- ===== src/Metrics.antt =====
-- src/metrics.rs: the counters. An atomic counter is a u64, and `fetch_add` wraps around.
use enigma_relay.Base.{ℕ, ◌+◌, ◌%◌, ◌^◌}

pub record RelayMetrics : Type 0 where
  pub push_total : ℕ
  pub push_stored : ℕ
  pub duplicates : ℕ
  pub pull_total : ℕ
  pub ack_total : ℕ
  pub ack_deleted : ℕ
  pub rate_limited : ℕ
  pub gc_removed : ℕ

pub record MetricsSnapshot : Type 0 where
  pub push_total : ℕ
  pub push_stored : ℕ
  pub duplicates : ℕ
  pub pull_total : ℕ
  pub ack_total : ℕ
  pub ack_deleted : ℕ
  pub rate_limited : ℕ
  pub gc_removed : ℕ

-- The derived `Default`.
abbrev pub default_metrics : RelayMetrics
default_metrics = record {
  push_total = 0;
  push_stored = 0;
  duplicates = 0;
  pull_total = 0;
  ack_total = 0;
  ack_deleted = 0;
  rate_limited = 0;
  gc_removed = 0;
}

abbrev pub fetch_add : ℕ → ℕ → ℕ
fetch_add counter n = (counter + n) % 2 ^ 64

unfoldable pub snapshot : RelayMetrics → MetricsSnapshot
snapshot m = record {
  push_total = m.push_total;
  push_stored = m.push_stored;
  duplicates = m.duplicates;
  pull_total = m.pull_total;
  ack_total = m.ack_total;
  ack_deleted = m.ack_deleted;
  rate_limited = m.rate_limited;
  gc_removed = m.gc_removed;
}
