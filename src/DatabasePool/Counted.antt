-- ===== src/DatabasePool/Counted.antt =====
-- What `DatabasePool` keeps true of its own fields, with `k` connections outside its queue.
use cpp_backend_server.Base.{ℕ, ◌+◌, ◌≤◌, ◌≡◌, false, length}
use cpp_backend_server.DatabasePool.{Pool}

pub record IsCounted (k : ℕ) (p : Pool) : Type 0 where
  pub counted : p.total_connections ≡ length p.idle_queue + k
  pub capped : p.total_connections ≤ p.max_connections
  pub ordered : p.min_connections ≤ p.max_connections
  pub closed_empty : p.is_running ≡ false → length p.idle_queue ≡ 0
  pub unused : p.initialized ≡ false → (p.is_running ≡ false) × (k ≡ 0)
