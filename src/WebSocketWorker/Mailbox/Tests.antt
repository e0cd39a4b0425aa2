-- ===== src/WebSocketWorker/Mailbox/Tests.antt =====
-- Two tasks are handed over; the worker takes the first before the second thread has written.
use cpp_backend_server.Base.{ℕ, ◌<◌, ◌≡◌, refl, true, [], ◌∷◌, ◌++◌, arith}
use cpp_backend_server.WebSocketWorker.Mailbox.{
  Mailbox, new_mailbox, written, count_read, push, signal, receive, take_all,
}
use cpp_backend_server.WebSocketWorker.Mailbox.Awake.{
  starts, pushes, signals, receives, takes, IsAwake, Play-IsAwake,
}

abbrev first : Mailbox ℕ
first = push 10 new_mailbox

abbrev woken : Mailbox ℕ
woken = receive (count_read ∷ []) (signal written first)

abbrev second : Mailbox ℕ
second = push 20 (take_all woken).1

one_writer : 0 < first.writers
unfolding push new_mailbox
one_writer = omega arith

drains : woken.draining ≡ true
unfolding receive
drains = refl

Play-IsAwake_example :
    (([] ++ (take_all woken).0) ++ second.queue ≡ ([] ++ 10 ∷ []) ++ 20 ∷ []) × IsAwake second
Play-IsAwake_example = Play-IsAwake (([] ++ 10 ∷ []) ++ 20 ∷ []) ([] ++ (take_all woken).0) second (
    pushes ([] ++ 10 ∷ []) ([] ++ (take_all woken).0) (take_all woken).1 20 (
      takes ([] ++ 10 ∷ []) [] woken
        (receives ([] ++ 10 ∷ []) [] (signal written first) (count_read ∷ []) (
          signals ([] ++ 10 ∷ []) [] first written (pushes [] [] new_mailbox 10 starts) one_writer
            (λ e. cc e) (λ e. cc e)))
        drains))
