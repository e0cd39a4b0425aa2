-- ===== src/DatabasePool/System.antt =====
-- The pool among its clients: the connections that are lent out, the threads that are opening one
-- between the two critical sections of `DatabasePool::getConnection`, and the steps that the mutex
-- puts into an order.
use cpp_backend_server.Base.{ℕ, suc, ◌+◌, ◌≡◌, Bool, List, [], ◌∷◌, ◌++◌, ◌⊎◌}
use cpp_backend_server.DatabasePool.{
  Connection, DatabasePoolConfig, Pool, new_pool, init, Acquired, lent, may_open, get_connection,
  Opened, finish_connection, release_returned_connections, close,
}
use cpp_backend_server.DatabasePool.Maintenance.{continues, stops, maintain}

pub record System : Type 0 where
  pub pool : Pool
  pub borrowed : List Connection
  pub opening : ℕ

abbrev pub start : System
start = record { pool = new_pool; borrowed = []; opening = 0 }

abbrev pub hand_out : Acquired → System → System
hand_out (lent c) s = record s { borrowed = c ∷ s.borrowed }
hand_out may_open s = record s { opening = s.opening + 1 }
hand_out _ s = s

-- One critical section.
pub data Step (s : System) : System → Type 0 where
  inits :
      (config : DatabasePoolConfig) (pending : List Connection) (thread_starts : Bool)
      → Step s (record s { pool = (init s.pool config pending thread_starts).1 })
  acquires :
      Step s (hand_out (get_connection s.pool).0 (record s { pool = (get_connection s.pool).1 }))
  finishes :
      (n : ℕ) (o : Opened)
      → s.opening ≡ suc n
      → Step s (
          hand_out
            (finish_connection s.pool o).0
            (record s { pool = (finish_connection s.pool o).1; opening = n }))
  releases :
      (before after : List Connection) (c : Connection) (reset_ok queue_ok : Bool)
      → s.borrowed ≡ before ++ c ∷ after
      → Step s (record s {
        pool = release_returned_connections s.pool c reset_ok queue_ok;
        borrowed = before ++ after;
      })
  closes : Step s (record s { pool = close s.pool })
  maintains :
      (now : ℕ) (alive : Connection → Bool) (reopen : Connection → Opened) (extra : Opened)
      (p : Pool)
      → (maintain now alive reopen extra s.pool ≡ continues p)
        ⊎ (maintain now alive reopen extra s.pool ≡ stops p)
      → Step s (record s { pool = p })

pub data Reach : System → Type 0 where
  here : Reach start
  next : {s t : System} → Reach s → Step s t → Reach t
