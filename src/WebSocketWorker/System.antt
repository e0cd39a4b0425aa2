-- ===== src/WebSocketWorker/System.antt =====
-- A worker between its events, in whatever order they come.
use cpp_backend_server.Base.{
  false, none, ◌<◌, ◌^◌, length, ℕ, ◌≡◌, refl, Bool, true, [], Bytes, find, member,
}
use cpp_backend_server.Connection.{Connection}
use cpp_backend_server.Frame.{Frame}
use cpp_backend_server.WebSocketPool.{Uuid}
use cpp_backend_server.WebSocketHandler.Returns.{ends}
use cpp_backend_server.WebSocketWorker.{Worker}
use cpp_backend_server.WebSocketWorker.Tasks.{
  push, close_session, Reply, reply, Answers, targets, revoke_device,
}
use cpp_backend_server.WebSocketWorker.Events.{Flags, EventAnswers, handle_event, handle_timer}
use cpp_backend_server.WebSocketWorker.Accepting.{Handshake, AcceptAnswers, accept_session}
use cpp_backend_server.WebSocketWorker.Accepting.Proved.{accept_session-Serves}
use cpp_backend_server.WebSocketWorker.Slots.{slot_at}
use cpp_backend_server.WebSocketWorker.Sane.{IsSane}
use cpp_backend_server.WebSocketWorker.Output.{AllSane, Serves-AllSane}
use cpp_backend_server.WebSocketWorker.Delivery.{push-Serves, reply-Serves, close_session-Serves}
use cpp_backend_server.WebSocketWorker.Reading.{handle_event-Serves}
use cpp_backend_server.WebSocketWorker.Revoking.{revoke_device-AllSane}
use cpp_backend_server.WebSocketWorker.Timer.{handle_timer-AllSane}

-- A worker whose thread starts.
abbrev pub new_worker : Worker
new_worker = record {
  sessions = [];
  closing_sessions = [];
  revoke_deadlines = [];
  close_completions = [];
  interests = [];
  promises = record { remaining = []; fulfilled = [] };
  index_calls = [];
  dispatched = [];
  forwarded = [];
}

-- One event of the loop of `worker`, one task or one pending connection. The reading of a session
-- ends, since its descriptor does not block; a revocation has a promise of its own, and a process
-- has fewer than 2^64 descriptors.
pub data Step : Worker → Worker → Type 0 where
  serves :
      (fd : ℕ) (flags : Flags) (accepts : Frame → Bool) (a : EventAnswers) (w : Worker)
      → ends a.received ≡ true
      → Step w (handle_event fd flags accepts a w)
  ticks : (now : ℕ) (accepted : ℕ → Bool) (w : Worker) → Step w (handle_timer now accepted w)
  takes_over :
      (fd id : ℕ) (c : Connection) (k : Handshake) (a : AcceptAnswers) (w : Worker)
      → Step w (accept_session fd id c k a w)
  pushes :
      (fd id : ℕ) (device : Uuid) (message : Bytes) (accepted : Bool) (w : Worker)
      → Step w (push fd id device message accepted w)
  replies :
      (r : Reply) (fd id : ℕ) (accepted : Bool) (w : Worker) → Step w (reply r fd id accepted w)
  closes : (fd id : ℕ) (device : Uuid) (w : Worker) → Step w (close_session fd id device w)
  revokes :
      (user device : Uuid) (promise : ℕ) (answers : ℕ → Answers) (w : Worker)
      → find promise w.promises.remaining ≡ none
      → member promise w.promises.fulfilled ≡ false
      → length (targets user device w.sessions) < 2 ^ 64
      → Step w (revoke_device user device promise answers w)

pub data Reach : Worker → Type 0 where
  starts : Reach new_worker
  steps : (w w' : Worker) → Reach w → Step w w' → Reach w'

step-AllSane : (w w' : Worker) → Step w w' → AllSane w → AllSane w'
step-AllSane _ _ (serves fd flags accepts a w ended) h =
    Serves-AllSane fd w _ (handle_event-Serves fd flags accepts a w ended (h fd)) h
step-AllSane _ _ (ticks now accepted w) h = handle_timer-AllSane now accepted w h
step-AllSane _ _ (takes_over fd id c k a w) h =
    Serves-AllSane fd w _ (accept_session-Serves fd id c k a w (h fd)) h
step-AllSane _ _ (pushes fd id device message accepted w) h =
    Serves-AllSane fd w _ (push-Serves fd id device message accepted w (h fd)) h
step-AllSane _ _ (replies r fd id accepted w) h =
    Serves-AllSane fd w _ (reply-Serves r fd id accepted w (h fd)) h
step-AllSane _ _ (closes fd id device w) h =
    Serves-AllSane fd w _ (close_session-Serves fd id device w (h fd)) h
step-AllSane _ _ (revokes user device promise answers w fresh unset few) h =
    revoke_device-AllSane user device promise answers w h

pub Reach-AllSane : (w : Worker) → Reach w → AllSane w
unfolding find member
Reach-AllSane _ starts = λ j. (refl, refl, refl, refl)
Reach-AllSane _ (steps w w' r s) = step-AllSane w w' s (Reach-AllSane w r)

-- In every state that a worker reaches, each descriptor is sane: without a session nothing is kept
-- of it; a session is registered with epoll, waits to write while output is pending or it is closing,
-- is read and has no callbacks as long as it has no deadline, and with a deadline is closing and
-- is not read.
pub Reach-IsSane : (w : Worker) (fd : ℕ) → Reach w → IsSane (slot_at fd w)
Reach-IsSane w fd r = Reach-AllSane w r fd
