-- ===== src/ServiceThreadPool.antt =====
-- The pool of business threads: src/service/ServiceThreadPool.cpp and
-- include/service/ServiceThreadPool.h. Each function is one critical section under `mutex_`; tasks
-- are of any type.
pub mod Drain
pub mod Tests
use cpp_backend_server.Base.{
  ℕ, zero, suc, ◌+◌, Bool, true, false, List, [], ◌∷◌, ◌++◌, ◌==◌, not, if◌then◌else◌,
}

pub record ServiceThreadPool {ℓ} (T : Type ℓ) : Type ℓ where
  pub thread_count : ℕ
  -- The size of `threads_`.
  pub threads : ℕ
  pub tasks : List T
  pub stop : Bool

abbrev pub new_pool {ℓ} : {T : Type ℓ} → ℕ → ServiceThreadPool T
new_pool count = record { thread_count = count; threads = 0; tasks = []; stop = false }

-- `ServiceThreadPool::init`
pub init {ℓ} : {T : Type ℓ} → ServiceThreadPool T → ServiceThreadPool T
init p = if not (p.threads == 0) then p else record p { threads = p.thread_count; stop = false }

pub data Received {ℓ} (T : Type ℓ) : Type ℓ where
  -- The `std::runtime_error`.
  rejected : Received T
  accepted : ServiceThreadPool T → Received T

-- `ServiceThreadPool::receiveTask`
pub receive_task {ℓ} : {T : Type ℓ} → ServiceThreadPool T → T → Received T
receive_task p task =
    if p.stop then rejected else accepted (record p { tasks = p.tasks ++ task ∷ [] })

-- What a thread does that finds the mutex free: it waits, returns from its function, or goes to
-- run a task.
pub data Woken {ℓ} (T : Type ℓ) : Type ℓ where
  waits returns : Woken T
  runs : T → ServiceThreadPool T → Woken T

wake_with {ℓ} : {T : Type ℓ} → ServiceThreadPool T → List T → Woken T
wake_with p [] = if p.stop then returns else waits
wake_with p (task ∷ rest) = runs task (record p { tasks = rest })

-- The critical section of a thread: its wait, its test and the front of the queue.
pub wake {ℓ} : {T : Type ℓ} → ServiceThreadPool T → Woken T
wake p = wake_with p p.tasks

-- `ServiceThreadPool::close`, before the joins and after them.
pub request_stop {ℓ} : {T : Type ℓ} → ServiceThreadPool T → ServiceThreadPool T
request_stop p = record p { stop = true }

pub joined {ℓ} : {T : Type ℓ} → ServiceThreadPool T → ServiceThreadPool T
joined p = record p { threads = 0 }
