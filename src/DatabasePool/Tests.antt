-- ===== src/DatabasePool/Tests.antt =====
-- A run of the database pool, and the witnesses of its properties.
use cpp_backend_server.Base.{◌≡◌, ◌↔◌, refl, true, false, [], ◌∷◌, length}
use cpp_backend_server.DatabasePool.{
  pos, Connection, DatabasePoolConfig, init, init_with, valid_config, get_connection, ready,
  take_idle, close, drain, all_returned,
}
use cpp_backend_server.DatabasePool.Counted.{IsCounted}
use cpp_backend_server.DatabasePool.System.{System, inits, acquires, closes, Reach, here, next}
use cpp_backend_server.DatabasePool.Invariant.{outside, Reach-IsCounted, all_returned-Reach}

abbrev config : DatabasePoolConfig
config = record { min_connections = pos 1; max_connections = pos 2; idle_time = 5 }

abbrev first : Connection
first = record { id = 1; last_active = 0 }

-- A pool of one connection, which is lent out when the pool closes.
abbrev lent_at_close : System
lent_at_close = record {
  pool = record {
    min_connections = 1;
    max_connections = 2;
    idle_time = 5;
    idle_queue = [];
    total_connections = 1;
    is_running = false;
    initialized = true;
  };
  borrowed = first ∷ [];
  opening = 0;
}

lent_at_close-Reach : Reach lent_at_close
unfolding init init_with valid_config get_connection ready take_idle close drain
lent_at_close-Reach = next (next (next here (inits config (first ∷ []) true)) acquires) closes

Reach-IsCounted_example : IsCounted (outside lent_at_close) lent_at_close.pool
Reach-IsCounted_example = Reach-IsCounted lent_at_close lent_at_close-Reach

all_returned-Reach_example :
    (all_returned lent_at_close.pool ≡ true)
    ↔ ((length lent_at_close.borrowed ≡ 0) × (lent_at_close.opening ≡ 0))
all_returned-Reach_example = all_returned-Reach lent_at_close lent_at_close-Reach refl
