-- ===== src/ThreadPool/Tests.antt =====
-- The witnesses of the properties of the pool of HTTP threads.
use cpp_backend_server.Base.{ℕ, ◌≡◌, refl, true, false, [], ◌∷◌, All}
use cpp_backend_server.ThreadPool.{ThreadPool, new_pool, request_stop}
use cpp_backend_server.ThreadPool.Bounds.{
  inits, accepts, wakes, registers, play, IsBounded, play-IsBounded,
}
use cpp_backend_server.ThreadPool.Stop.{request_stop-final}

play-IsBounded_example :
    IsBounded (play (inits ∷ accepts 3 ∷ accepts 4 ∷ wakes ∷ []) (new_pool 1 1))
play-IsBounded_example = play-IsBounded 1 1 (inits ∷ accepts 3 ∷ accepts 4 ∷ wakes ∷ [])

abbrev busy : ThreadPool
busy = record {
  min_capacity = 1;
  max_capacity = 2;
  task_queue = 4 ∷ [];
  active_fds = 3 ∷ [];
  initialized = true;
  is_running = true;
  stopping = false;
}

abbrev IsThree : ℕ → Type 0
IsThree fd = fd ≡ 3

busy_shuts : All IsThree (request_stop busy).0
unfolding request_stop
busy_shuts = (refl, tt)

request_stop-final_example :
    ((play (registers 4 ∷ []) (request_stop busy).1).stopping ≡ true)
    × All IsThree (play (registers 4 ∷ []) (request_stop busy).1).active_fds
request_stop-final_example = request_stop-final IsThree busy (registers 4 ∷ []) refl busy_shuts
