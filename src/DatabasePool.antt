-- ===== src/DatabasePool.antt =====
-- The PostgreSQL connection pool: `DatabasePool` (include/databases/DatabasePool.h,
-- src/databases/DatabasePool.cpp). Each function is one critical section under `mutex_`; what
-- libpq answers, and the clock, are arguments. `total_connections_` is an `int` that the code lowers
-- only for a connection that it has counted.
pub mod Maintenance
pub mod System
pub mod Counted
pub mod Sections
pub mod Invariant
pub mod Tests
use cpp_backend_server.Base.{
  ℕ, zero, suc, ◌+◌, ◌-◌, Bool, true, false, not, ◌||◌, ◌&&◌, ◌⊎◌, inl, inr, List, [], ◌∷◌, ◌++◌,
  ltb, leb, ◌==◌, if◌then◌else◌, length,
}

-- `int`, as far as the configuration needs it: `negsuc n` is -(n + 1).
pub data ℤ : Type 0 where
  pos negsuc : ℕ → ℤ

pub record DatabasePoolConfig : Type 0 where
  pub min_connections : ℤ
  pub max_connections : ℤ
  pub idle_time : ℕ

-- A `DatabaseConnection`: who it is, and `last_active_time_`.
pub record Connection : Type 0 where
  pub id : ℕ
  pub last_active : ℕ

pub record Pool : Type 0 where
  pub min_connections : ℕ
  pub max_connections : ℕ
  pub idle_time : ℕ
  -- The front of the queue is the head of the list.
  pub idle_queue : List Connection
  pub total_connections : ℕ
  pub is_running : Bool
  pub initialized : Bool

abbrev pub new_pool : Pool
new_pool = record {
  min_connections = 0;
  max_connections = 0;
  idle_time = 0;
  idle_queue = [];
  total_connections = 0;
  is_running = false;
  initialized = false;
}

pub data InitResult : Type 0 where
  already_initialized invalid_config connect_failed thread_failed started : InitResult

-- `min < 0 || max <= 0 || min > max`, with the numbers of a configuration that passes.
valid_config : ℤ → ℤ → InitResult ⊎ (ℕ × ℕ)
valid_config (negsuc n) hi = inl invalid_config
valid_config (pos lo) (negsuc n) = inl invalid_config
valid_config (pos lo) (pos hi) = if leb hi 0 || ltb hi lo then inl invalid_config else inr (lo, hi)

init_with :
    Pool → DatabasePoolConfig → List Connection → Bool → InitResult ⊎ (ℕ × ℕ) → InitResult × Pool
init_with p config pending thread_starts (inl r) = (r, p)
init_with p config pending thread_starts (inr (lo, hi)) =
    let configured = record p {
      min_connections = lo;
      max_connections = hi;
      idle_time = config.idle_time;
    } in
    if not (length pending == lo)
    then (connect_failed, configured)
    else if thread_starts
    then (
      started,
      record configured {
        idle_queue = pending;
        total_connections = lo;
        is_running = true;
        initialized = true;
      },
    )
    else (
      thread_failed,
      record configured { idle_queue = p.idle_queue; total_connections = 0; is_running = false },
    )

-- `DatabasePool::init`; `pending` holds the connections that could be opened, all of them if there
-- are `min_connections_`, and `thread_starts` whether the maintenance thread could be started.
pub init : Pool → DatabasePoolConfig → List Connection → Bool → InitResult × Pool
init p config pending thread_starts =
    if p.initialized
    then (already_initialized, p)
    else init_with p config pending thread_starts
        (valid_config config.min_connections config.max_connections)

pub data Acquired : Type 0 where
  pool_closed timed_out : Acquired
  lent : Connection → Acquired
  -- A connection may be opened: `total_connections_` counts it, and the mutex is let go.
  may_open : Acquired

-- The predicate of `cv_.wait_for`.
pub ready : Pool → Bool
ready p =
    not p.is_running || not (length p.idle_queue == 0) || ltb p.total_connections p.max_connections

take_idle : Pool → List Connection → Acquired × Pool
take_idle p [] = (may_open, record p { total_connections = p.total_connections + 1 })
take_idle p (c ∷ rest) = (lent c, record p { idle_queue = rest })

-- `DatabasePool::getConnection` from the end of its wait to the first `unlock` or `return`.
pub get_connection : Pool → Acquired × Pool
get_connection p =
    if not p.is_running
    then (pool_closed, p)
    else if not (ready p)
    then (timed_out, p)
    else take_idle p p.idle_queue

-- What the constructor of `DatabaseConnection` did, and `isAlive()` of the new connection.
pub data Opened : Type 0 where
  threw : Opened
  opened : Connection → Bool → Opened

-- The rest of `getConnection`, once the constructor has returned or thrown.
pub finish_connection : Pool → Opened → Acquired × Pool
finish_connection p threw = (pool_closed, record p { total_connections = p.total_connections - 1 })
finish_connection p (opened c alive) =
    if p.is_running
    then (lent c, p)
    else (pool_closed, record p { total_connections = p.total_connections - 1 })

-- `DatabasePool::releaseReturnedConnections`: `reset_ok` is what `connection->reset()` returned,
-- `queue_ok` whether the push did not throw.
pub release_returned_connections : Pool → Connection → Bool → Bool → Pool
release_returned_connections p c reset_ok queue_ok =
    if not p.is_running
    then record p { total_connections = p.total_connections - 1 }
    else if not reset_ok
    then record p { total_connections = p.total_connections - 1 }
    else if queue_ok
    then record p { idle_queue = p.idle_queue ++ c ∷ [] }
    else record p { total_connections = p.total_connections - 1 }

drain : List Connection → Pool → Pool
drain [] p = p
drain (c ∷ rest) p =
    drain rest (record p { idle_queue = rest; total_connections = p.total_connections - 1 })

-- `DatabasePool::close` up to its wait.
pub close : Pool → Pool
close p = drain p.idle_queue (record p { is_running = false })

-- The predicate of the wait in `close`.
pub all_returned : Pool → Bool
all_returned p = p.total_connections == 0
