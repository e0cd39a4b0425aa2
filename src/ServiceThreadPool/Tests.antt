-- ===== src/ServiceThreadPool/Tests.antt =====
-- The witnesses of the properties of the pool of business threads.
use cpp_backend_server.Base.{ℕ, ◌≡◌, refl, List, [], ◌∷◌, ◌++◌}
use cpp_backend_server.ServiceThreadPool.{
  wake, returns, wake_with, init, receive_task, request_stop,
}
use cpp_backend_server.ServiceThreadPool.Drain.{
  Event, starts, stops, wakes, receives, play, happen, after_receive, after_wake, fresh, play-Kept,
  wake-drained,
}

abbrev day : List (Event ℕ)
day = starts ∷ receives 7 ∷ receives 8 ∷ wakes ∷ stops ∷ receives 9 ∷ wakes ∷ []

play-Kept_example :
    (play day (fresh 2)).taken ++ (play day (fresh 2)).pool.tasks ≡ (play day (fresh 2)).given
play-Kept_example = play-Kept 2 day

day-returns : wake (play day (fresh 2)).pool ≡ returns
unfolding play happen after_receive after_wake wake wake_with init receive_task request_stop
day-returns = refl

wake-drained_example : (play day (fresh 2)).taken ≡ (play day (fresh 2)).given
wake-drained_example = wake-drained 2 day day-returns
