-- ===== src/Server/Metrics.antt =====
-- crates/nova-server/src/metrics.rs: the server's counters. `fetch_add` and `fetch_sub` wrap.
use nova_db.Base.{ℕ, ◌+◌, ◌-◌, ◌%◌, ◌^◌, ◌<◌, ◌≡◌, arith}
use nova_db.Base.Int.{ℤ}

abbrev pub fetch_add : ℕ → ℕ
fetch_add n = (n + 1) % 2 ^ 64

abbrev pub fetch_sub : ℕ → ℕ
fetch_sub n = (n + 2 ^ 64 - 1) % 2 ^ 64

pub fetch_sub-fetch_add : (n : ℕ) → n < 2 ^ 64 → fetch_sub (fetch_add n) ≡ n
fetch_sub-fetch_add n h = omega arith

pub record ServerMetrics : Type 0 where
  pub active_connections : ℕ
  pub total_queries : ℕ
  pub total_writes : ℕ
  pub total_reads : ℕ
  pub total_events_emitted : ℕ
  pub start_time_micros : ℤ

abbrev pub new : ℤ → ServerMetrics
new now = record {
  active_connections = 0;
  total_queries = 0;
  total_writes = 0;
  total_reads = 0;
  total_events_emitted = 0;
  start_time_micros = now;
}

abbrev pub inc_connections : ServerMetrics → ServerMetrics
inc_connections m = record m { active_connections = fetch_add m.active_connections }

abbrev pub dec_connections : ServerMetrics → ServerMetrics
dec_connections m = record m { active_connections = fetch_sub m.active_connections }

abbrev pub inc_queries : ServerMetrics → ServerMetrics
inc_queries m = record m { total_queries = fetch_add m.total_queries }

abbrev pub inc_writes : ServerMetrics → ServerMetrics
inc_writes m = record m { total_writes = fetch_add m.total_writes }

abbrev pub inc_reads : ServerMetrics → ServerMetrics
inc_reads m = record m { total_reads = fetch_add m.total_reads }

abbrev pub inc_events : ServerMetrics → ServerMetrics
inc_events m = record m { total_events_emitted = fetch_add m.total_events_emitted }
