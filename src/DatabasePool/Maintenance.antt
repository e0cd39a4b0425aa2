-- ===== src/DatabasePool/Maintenance.antt =====
-- One round of the maintenance thread of `DatabasePool::startMaintenanceThread`.
pub mod Count
use cpp_backend_server.Base.{
  ℕ, zero, suc, ◌+◌, ◌-◌, ◌*◌, ◌≤◌, ◌≡◌, refl, Bool, true, false, not, ◌&&◌, List, [], ◌∷◌, ◌++◌,
  ltb, leb, if◌then◌else◌, length, length-append, arith,
}
use cpp_backend_server.DatabasePool.{Connection, Pool, Opened, threw, opened}

-- The variables of the loop that closes surplus connections.
pub record Reap : Type 0 where
  pub queue : List Connection
  pub surplus : ℕ
  pub total : ℕ

-- One pass of its body over the connection at the front.
reap_front : ℕ → ℕ → Reap → Connection → List Connection → Reap
reap_front now idle_time r c rest =
    if ltb 0 r.surplus && leb idle_time (now - c.last_active)
    then record { queue = rest; surplus = r.surplus - 1; total = r.total - 1 }
    else record r { queue = rest ++ c ∷ [] }

reap_pass : ℕ → ℕ → Reap → List Connection → Reap
reap_pass now idle_time r [] = r
reap_pass now idle_time r (c ∷ rest) = reap_front now idle_time r c rest

-- `for (i = 0; i < idle_queue.size(); ++i)`: the bound is read anew in each round. The difference
-- of the two falls, so fuel as large as the queue is enough.
pub reap : ℕ → ℕ → ℕ → ℕ → Reap → Reap
reap zero i now idle_time r = r
reap (suc fuel) i now idle_time r =
    let rest = reap fuel (i + 1) now idle_time (reap_pass now idle_time r r.queue) in
    if ltb i (length r.queue) then rest else r

-- How the thread goes on: an exception that leaves its function ends the process.
pub data Round : Type 0 where
  continues stops : Pool → Round
  terminates : Round

infixl 5 ◌>>=◌
abbrev pub ◌>>=◌ : Round → (Pool → Round) → Round
continues p >>= k = k p
stops p >>= k = stops p
terminates >>= k = terminates

-- A dead connection is replaced; `o` is what the constructor did.
replace_dead : Pool → Opened → Round
replace_dead p threw = terminates
replace_dead p (opened c true) = continues (record p { idle_queue = p.idle_queue ++ c ∷ [] })
replace_dead p (opened c false) =
    continues (record p { total_connections = p.total_connections - 1 })

module _ (alive : Connection → Bool) (reopen : Connection → Opened) where
  heal_front : Pool → Connection → Round
  heal_front p c =
      if alive c
      then continues (record p { idle_queue = p.idle_queue ++ c ∷ [] })
      else replace_dead p (reopen c)

  heal_pass : List Connection → Pool → Round
  heal_pass [] p = continues p
  heal_pass (c ∷ rest) p = heal_front (record p { idle_queue = rest }) c

  -- `for (i = 0; i < count; ++i)`, with the rounds left: each takes the front of the queue.
  pub heal : ℕ → Pool → Round
  heal zero p = continues p
  heal (suc n) p = heal_pass p.idle_queue p >>= heal n

-- `if (total_connections_ < config_.min_connections_)`
top_up : Opened → Pool → Round
top_up threw p = if ltb p.total_connections p.min_connections then terminates else continues p
top_up (opened c true) p =
    if ltb p.total_connections p.min_connections
    then continues (record p {
      idle_queue = p.idle_queue ++ c ∷ [];
      total_connections = p.total_connections + 1;
    })
    else continues p
top_up (opened c false) p =
    if ltb p.total_connections p.min_connections then stops p else continues p

-- The surplus loop runs only where there is a surplus.
pub shrink : ℕ → Pool → Pool
shrink now p =
    let surplus = p.total_connections - p.min_connections in
    let r =
      reap (length p.idle_queue) 0 now p.idle_time
        (record { queue = p.idle_queue; surplus = surplus; total = p.total_connections }) in
    if ltb 0 surplus then record p { idle_queue = r.queue; total_connections = r.total } else p

-- The body of `while (true)`, from the lock on.
pub maintain : ℕ → (Connection → Bool) → (Connection → Opened) → Opened → Pool → Round
maintain now alive reopen extra p =
    let reaped = shrink now p in
    if not p.is_running
    then stops p
    else heal alive reopen (length reaped.idle_queue) reaped >>= top_up extra
