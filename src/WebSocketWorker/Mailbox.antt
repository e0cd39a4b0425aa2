-- ===== src/WebSocketWorker/Mailbox.antt =====
-- The queues by which other threads hand tasks and connections to a worker, with the eventfd that
-- wakes it: `transferTask`, `taskWakeup` and `handleTask`, and their like for connections,
-- `transferSession`, `wakeup` and `handleWakeup`.
pub mod Awake
pub mod Tests
use cpp_backend_server.Base.{ℕ, ◌+◌, ◌-◌, Bool, true, false, List, [], ◌∷◌, ◌++◌}

-- `writers` counts the threads that have queued something and not yet written to the eventfd;
-- `draining` is whether the worker has read the eventfd and not yet taken the queue.
pub record Mailbox {ℓ} (A : Type ℓ) : Type ℓ where
  pub queue : List A
  -- Whether the eventfd's count is not zero.
  pub signalled : Bool
  pub writers : ℕ
  pub draining : Bool

pub new_mailbox {ℓ} : {A : Type ℓ} → Mailbox A
new_mailbox = record { queue = []; signalled = false; writers = 0; draining = false }

-- What `write` to the eventfd returned: its 8 bytes, or -1 with `EAGAIN` or another `errno`, which
-- throws.
pub data Written : Type 0 where
  written write_would_block write_failed : Written

-- What `read` from the eventfd returned: its 8 bytes, or -1 with `EINTR`, `EAGAIN` or another
-- `errno`, which throws.
pub data CountRead : Type 0 where
  count_read count_interrupted count_would_block count_failed : CountRead

-- The critical section of `transferTask` and `transferSession`.
pub push {ℓ} : {A : Type ℓ} → A → Mailbox A → Mailbox A
push a b = record b { queue = b.queue ++ a ∷ []; writers = b.writers + 1 }

signal_with {ℓ} : {A : Type ℓ} → Written → Mailbox A → Mailbox A
signal_with written b = record b { signalled = true }
signal_with write_would_block b = b
signal_with write_failed b = b

-- `taskWakeup` and `wakeup`
pub signal {ℓ} : {A : Type ℓ} → Written → Mailbox A → Mailbox A
signal result b = signal_with result (record b { writers = b.writers - 1 })

-- The loop that reads the eventfd in `handleTask` and `handleWakeup`.
pub receive {ℓ} : {A : Type ℓ} → List CountRead → Mailbox A → Mailbox A
receive [] b = b
receive (count_read ∷ rest) b = record b { signalled = false; draining = true }
receive (count_interrupted ∷ rest) b = receive rest b
receive (count_would_block ∷ rest) b = record b { draining = true }
receive (count_failed ∷ rest) b = b

-- The swap of the queue with an empty one; the worker runs what it has taken in order.
pub take_all {ℓ} : {A : Type ℓ} → Mailbox A → List A × Mailbox A
take_all b = (b.queue, record b { queue = []; draining = false })
