-- ===== src/ThreadPool/Bounds.antt =====
-- The queue of the HTTP threads is bounded, and a stop is final.
use cpp_backend_server.Base.{
  ℕ, suc, ◌≤◌, ◌≡◌, refl, ap, Bool, true, false, not, ◌||◌, List, [], ◌∷◌, ◌++◌, leb, if_cases,
  length, length-append, arith,
}
use cpp_backend_server.ThreadPool.{
  ThreadPool, new_pool, init, InitResult, already_initialized, invalid_configuration, starting,
  RunResult, not_ready, running, start_running, Accepting, leaves, rejects, queues, accept_fd,
  stop_running, request_stop, Woken, ends, wake_with, wake, insert_fd, register, unregister,
}

pub data Event : Type 0 where
  inits starts leaves_loop stops wakes : Event
  accepts registers unregisters : ℕ → Event

unfoldable pub happen : Event → ThreadPool → ThreadPool
happen inits p = (init p).1
happen starts p = (start_running p).1
happen leaves_loop p = stop_running p
happen stops p = (request_stop p).1
happen wakes p = (wake p).1
happen (accepts fd) p = (accept_fd p fd).1
happen (registers fd) p = (register p fd).1
happen (unregisters fd) p = unregister p fd

unfoldable pub play : List Event → ThreadPool → ThreadPool
play [] p = p
play (e ∷ es) p = play es (happen e p)

pub record IsBounded (p : ThreadPool) : Type 0 where
  pub bounded : length p.task_queue ≤ p.max_capacity
  pub stopped_empty : p.stopping ≡ true → length p.task_queue ≡ 0

init-IsBounded : (p : ThreadPool) → IsBounded p → IsBounded (init p).1
unfolding init
init-IsBounded p h =
    if_cases (λ (r : InitResult × ThreadPool). IsBounded r.1) p.initialized (already_initialized, p)
      _ (λ e. h)
      (λ e.
        if_cases (λ (r : InitResult × ThreadPool). IsBounded r.1)
          (leb p.min_capacity 0 || leb p.max_capacity 0) (invalid_configuration, p)
          (starting, record p { stopping = false; initialized = true }) (λ f. h)
          (λ f. record { bounded = h.bounded; stopped_empty = λ z. absurd (cc z) }))

start_running-IsBounded : (p : ThreadPool) → IsBounded p → IsBounded (start_running p).1
unfolding start_running
start_running-IsBounded p h =
    if_cases (λ (r : RunResult × ThreadPool). IsBounded r.1)
      (not p.initialized || p.stopping || p.is_running) (not_ready, p)
      (running, record p { is_running = true }) (λ e. h)
      (λ e. record { bounded = h.bounded; stopped_empty = h.stopped_empty })

accept_fd-IsBounded : (p : ThreadPool) (fd : ℕ) → IsBounded p → IsBounded (accept_fd p fd).1
unfolding accept_fd
accept_fd-IsBounded p fd h =
    if_cases (λ (r : Accepting × ThreadPool). IsBounded r.1) p.stopping (leaves, p) _ (λ e. h)
      (λ e.
        if_cases (λ (r : Accepting × ThreadPool). IsBounded r.1)
          (leb p.max_capacity (length p.task_queue)) (rejects, p)
          (queues, record p { task_queue = p.task_queue ++ fd ∷ [] }) (λ f. h)
          (λ f. record {
            bounded = ground (arith, f, length-append p.task_queue (fd ∷ []));
            stopped_empty = λ z. absurd (cc (z, e));
          }))

wake_with-IsBounded :
    (p : ThreadPool) (queue : List ℕ)
    → p.task_queue ≡ queue
    → p.stopping ≡ false
    → IsBounded p
    → IsBounded (wake_with p queue).1
unfolding wake_with
wake_with-IsBounded p [] q e h = h
wake_with-IsBounded p (fd ∷ rest) q e h = record {
  bounded = shorter;
  stopped_empty = λ z. absurd (cc (z, e));
}
  where
    shorter : length rest ≤ p.max_capacity
    shorter =
        let n : length p.task_queue ≡ suc (length rest) = ap length q in omega (arith, n, h.bounded)

happen-IsBounded : (e : Event) (p : ThreadPool) → IsBounded p → IsBounded (happen e p)
unfolding happen stop_running request_stop wake register unregister
happen-IsBounded inits p h = init-IsBounded p h
happen-IsBounded starts p h = start_running-IsBounded p h
happen-IsBounded leaves_loop p h = record { bounded = h.bounded; stopped_empty = h.stopped_empty }
happen-IsBounded stops p h = record { bounded = omega arith; stopped_empty = λ z. refl }
happen-IsBounded wakes p h =
    if_cases (λ (r : Woken × ThreadPool). IsBounded r.1) p.stopping (ends, p) _ (λ e. h)
      (λ e. wake_with-IsBounded p p.task_queue refl e h)
happen-IsBounded (accepts fd) p h = accept_fd-IsBounded p fd h
happen-IsBounded (registers fd) p h =
    if_cases (λ (r : Bool × ThreadPool). IsBounded r.1) p.stopping (false, p)
      (true, record p { active_fds = insert_fd fd p.active_fds }) (λ e. h)
      (λ e. record { bounded = h.bounded; stopped_empty = h.stopped_empty })
happen-IsBounded (unregisters fd) p h = record {
  bounded = h.bounded;
  stopped_empty = h.stopped_empty;
}

play-keeps : (es : List Event) (p : ThreadPool) → IsBounded p → IsBounded (play es p)
unfolding play
play-keeps [] p h = h
play-keeps (e ∷ es) p h = play-keeps es (happen e p) (happen-IsBounded e p h)

-- Whatever the acceptor, the workers and the callers of `init` and `requestStop` do in whatever
-- order, no more connections wait than the configured capacity, and none waits once the pool is to
-- stop.
pub play-IsBounded :
    (min_capacity max_capacity : ℕ) (es : List Event)
    → IsBounded (play es (new_pool min_capacity max_capacity))
play-IsBounded min_capacity max_capacity es =
    play-keeps es (new_pool min_capacity max_capacity)
      (record { bounded = omega arith; stopped_empty = λ z. refl })
