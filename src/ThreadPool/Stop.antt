-- ===== src/ThreadPool/Stop.antt =====
-- After `ThreadPool::requestStop` no new connection becomes active.
use cpp_backend_server.Base.{
  ℕ, ◌≡◌, refl, Bool, true, false, List, [], ◌∷◌, ◌==◌, ◌||◌, not, if_cases, All,
}
use cpp_backend_server.ThreadPool.{
  ThreadPool, init, start_running, InitResult, already_initialized, Woken, ends, Accepting, leaves,
  RunResult, not_ready, running, accept_fd, stop_running, request_stop, wake, erase_fd, register,
  unregister,
}
use cpp_backend_server.ThreadPool.Bounds.{
  Event, inits, starts, leaves_loop, stops, wakes, accepts, registers, unregisters, happen, play,
}

record IsStopped {ℓ} (P : ℕ → Type ℓ) (p : ThreadPool) : Type ℓ where
  stopped : p.stopping ≡ true
  used : p.initialized ≡ true
  inside : All P p.active_fds

erase_fd-All {ℓ} : (P : ℕ → Type ℓ) (fd : ℕ) (xs : List ℕ) → All P xs → All P (erase_fd fd xs)
unfolding erase_fd
erase_fd-All P fd [] h = h
erase_fd-All P fd (x ∷ xs) h =
    if_cases (All P) (x == fd) xs (x ∷ erase_fd fd xs) (λ e. h.1)
      (λ e. (h.0, erase_fd-All P fd xs h.1))

happen-IsStopped {ℓ} :
    (P : ℕ → Type ℓ) (e : Event) (p : ThreadPool) → IsStopped P p → IsStopped P (happen e p)
unfolding happen init start_running accept_fd stop_running request_stop wake register unregister
happen-IsStopped P inits p h =
    if_cases (λ (r : InitResult × ThreadPool). IsStopped P r.1) p.initialized
      (already_initialized, p) _ (λ e. h) (λ e. absurd (cc (e, h.used)))
happen-IsStopped P starts p h =
    if_cases (λ (r : RunResult × ThreadPool). IsStopped P r.1)
      (not p.initialized || p.stopping || p.is_running) (not_ready, p)
      (running, record p { is_running = true }) (λ e. h)
      (λ e. record { stopped = h.stopped; used = h.used; inside = h.inside })
happen-IsStopped P leaves_loop p h = record {
  stopped = h.stopped;
  used = h.used;
  inside = h.inside;
}
happen-IsStopped P stops p h = record { stopped = refl; used = h.used; inside = h.inside }
happen-IsStopped P wakes p h =
    if_cases (λ (r : Woken × ThreadPool). IsStopped P r.1) p.stopping (ends, p) _ (λ e. h)
      (λ e. absurd (cc (e, h.stopped)))
happen-IsStopped P (accepts fd) p h =
    if_cases (λ (r : Accepting × ThreadPool). IsStopped P r.1) p.stopping (leaves, p) _ (λ e. h)
      (λ e. absurd (cc (e, h.stopped)))
happen-IsStopped P (registers fd) p h =
    if_cases (λ (r : Bool × ThreadPool). IsStopped P r.1) p.stopping (false, p) _ (λ e. h)
      (λ e. absurd (cc (e, h.stopped)))
happen-IsStopped P (unregisters fd) p h = record {
  stopped = h.stopped;
  used = h.used;
  inside = erase_fd-All P fd p.active_fds h.inside;
}

play-IsStopped {ℓ} :
    (P : ℕ → Type ℓ) (es : List Event) (p : ThreadPool) → IsStopped P p → IsStopped P (play es p)
unfolding play
play-IsStopped P [] p h = h
play-IsStopped P (e ∷ es) p h = play-IsStopped P es (happen e p) (happen-IsStopped P e p h)

-- Once `requestStop` has run on a pool that was initialized, the pool stays stopped, and whatever
-- holds of all the descriptors that it shut down holds of all that are active at any later time: no
-- connection becomes active behind its back.
pub request_stop-final {ℓ} :
    (P : ℕ → Type ℓ) (p : ThreadPool) (es : List Event)
    → p.initialized ≡ true
    → All P (request_stop p).0
    → ((play es (request_stop p).1).stopping ≡ true) × All P (play es (request_stop p).1).active_fds
unfolding request_stop
request_stop-final P p es used all =
    let h =
      play-IsStopped P es (record p { stopping = true; task_queue = [] })
        (record { stopped = refl; used = used; inside = all }) in
    (h.stopped, h.inside)
