-- ===== src/ThreadPool.antt =====
-- The pool of HTTP threads: src/server/ThreadPool.cpp and include/server/ThreadPool.h. Each
-- function is one critical section under `mutex_`, or one run of such without a gap. Descriptors are
-- numbers.
pub mod Bounds
pub mod Stop
pub mod Tests
use cpp_backend_server.Base.{
  ℕ, zero, suc, ◌+◌, Bool, true, false, not, ◌&&◌, ◌||◌, List, [], ◌∷◌, ◌++◌, ltb, leb, ◌==◌,
  if◌then◌else◌, length,
}

pub record ThreadPool : Type 0 where
  pub min_capacity : ℕ
  pub max_capacity : ℕ
  -- The front of the queue is the head of the list.
  pub task_queue : List ℕ
  pub active_fds : List ℕ
  pub initialized : Bool
  pub is_running : Bool
  pub stopping : Bool

abbrev pub new_pool : ℕ → ℕ → ThreadPool
new_pool min_capacity max_capacity = record {
  min_capacity = min_capacity;
  max_capacity = max_capacity;
  task_queue = [];
  active_fds = [];
  initialized = false;
  is_running = false;
  stopping = true;
}

pub data InitResult : Type 0 where
  already_initialized invalid_configuration starting : InitResult

-- The critical section of `ThreadPool::init`; a configuration that is negative behaves as 0 does.
pub init : ThreadPool → InitResult × ThreadPool
init p =
    if p.initialized
    then (already_initialized, p)
    else if leb p.min_capacity 0 || leb p.max_capacity 0
    then (invalid_configuration, p)
    else (starting, record p { stopping = false; initialized = true })

pub data RunResult : Type 0 where
  not_ready running : RunResult

-- The start of `ThreadPool::running`.
pub start_running : ThreadPool → RunResult × ThreadPool
start_running p =
    if not p.initialized || p.stopping || p.is_running
    then (not_ready, p)
    else (running, record p { is_running = true })

pub data Accepting : Type 0 where
  -- `break`, `continue` without the connection, which its destructor closes, and the push.
  leaves rejects queues : Accepting

-- The critical section of `running` behind `acceptConnection`, with a connection.
pub accept_fd : ThreadPool → ℕ → Accepting × ThreadPool
accept_fd p fd =
    if p.stopping
    then (leaves, p)
    else if leb p.max_capacity (length p.task_queue)
    then (rejects, p)
    else (queues, record p { task_queue = p.task_queue ++ fd ∷ [] })

-- The end of `running`, before its `requestStop`.
pub stop_running : ThreadPool → ThreadPool
stop_running p = record p { is_running = false }

-- `ThreadPool::requestStop`: the descriptors that it shuts down, and the pool.
pub request_stop : ThreadPool → List ℕ × ThreadPool
request_stop p = (p.active_fds, record p { stopping = true; task_queue = [] })

pub data Woken : Type 0 where
  waits ends : Woken
  takes : ℕ → Woken

wake_with : ThreadPool → List ℕ → Woken × ThreadPool
wake_with p [] = (waits, p)
wake_with p (fd ∷ rest) = (takes fd, record p { task_queue = rest })

-- The wait of a worker, and what follows it in the same critical section.
pub wake : ThreadPool → Woken × ThreadPool
wake p = if p.stopping then (ends, p) else wake_with p p.task_queue

-- `std::set::insert` and `std::set::erase`
insert_fd : ℕ → List ℕ → List ℕ
insert_fd fd [] = fd ∷ []
insert_fd fd (x ∷ xs) = if x == fd then x ∷ xs else x ∷ insert_fd fd xs

erase_fd : ℕ → List ℕ → List ℕ
erase_fd fd [] = []
erase_fd fd (x ∷ xs) = if x == fd then xs else x ∷ erase_fd fd xs

-- A worker registers its descriptor, or drops the connection.
pub register : ThreadPool → ℕ → Bool × ThreadPool
register p fd =
    if p.stopping then (false, p) else (true, record p { active_fds = insert_fd fd p.active_fds })

pub unregister : ThreadPool → ℕ → ThreadPool
unregister p fd = record p { active_fds = erase_fd fd p.active_fds }
