-- ===== src/WebSocketWorker.antt =====
-- A WebSocket worker: src/websocket/WebsocketWorker.cpp and include/websocket/WebsocketWorker.h.
-- Its thread is the only one that touches this state, so each of its handlers is a function on it;
-- what `epoll_ctl`, `recv` and `send` answer are arguments, and so is the clock.
pub mod Tasks
pub mod Events
pub mod Slots
pub mod Delivery
pub mod Revoking
pub mod Reading
pub mod Timer
pub mod Output
pub mod Sane
pub mod Accepting
pub mod Mailbox
pub mod Debts
pub mod Dropping
pub mod DroppingEvents
pub mod System
pub mod Fulfilment
pub mod Revoked
pub mod Tests
use cpp_backend_server.Base.{
  ℕ, zero, suc, ◌+◌, ◌-◌, ◌*◌, ◌%◌, ◌^◌, Bool, true, false, not, Option, none, some, List, [], ◌∷◌,
  ◌++◌, ◌==◌, if◌then◌else◌, Bytes, find, assign, erase, contains, member, set_erase,
}
use cpp_backend_server.Connection.{
  Connection, Sent, FlushResult, flushing, flushed, flushed_none, flush_again, flush_error, flush,
  has_pending_output,
}
use cpp_backend_server.Frame.{Frame}
use cpp_backend_server.WebSocketPool.{Uuid}
use cpp_backend_server.WebSocketHandler.{WebSocketSession}

-- The events for which `epoll` watches a session's descriptor: `EPOLLIN` and `EPOLLOUT`.
pub record Interest : Type 0 where
  pub readable : Bool
  pub writable : Bool

-- What the worker tells the pool's directory; `removes none` is the call of `removeIndex` for a
-- descriptor without a session, with a device that is not initialized and the session 0.
pub data IndexCall : Type 0 where
  adds : Uuid → Uuid → ℕ → ℕ → IndexCall
  removes : Option Uuid → ℕ → ℕ → IndexCall

-- The steady clock counts nanoseconds.
abbrev pub seconds : ℕ → ℕ
seconds n = n * 1000000000

-- The promises of revocations: the counter `remaining` of each, and those that hold their value.
pub record Promises : Type 0 where
  pub remaining : List (ℕ × ℕ)
  pub fulfilled : List ℕ

pub record Worker : Type 0 where
  pub sessions : List (ℕ × WebSocketSession)
  pub closing_sessions : List ℕ
  pub revoke_deadlines : List (ℕ × ℕ)
  -- A callback is the promise whose counter it counts down.
  pub close_completions : List (ℕ × List ℕ)
  pub interests : List (ℕ × Interest)
  pub promises : Promises
  pub index_calls : List IndexCall
  -- The frames that went to the dispatcher, with descriptor and session.
  pub dispatched : List (ℕ × ℕ × Frame)
  -- The messages for other devices that went to the pool.
  pub forwarded : List (Uuid × Bytes)

-- `if (--*remaining == 0) completion->set_value();`, the counter a `std::size_t`.
pub count_down : ℕ → Promises → Option ℕ → Promises
count_down promise ps none = ps
count_down promise ps (some n) =
    let left = (n + (2 ^ 64 - 1)) % 2 ^ 64 in
    record {
      remaining = assign promise left ps.remaining;
      fulfilled = if left == 0 then promise ∷ ps.fulfilled else ps.fulfilled;
    }

pub complete : ℕ → Promises → Promises
complete promise ps = count_down promise ps (find promise ps.remaining)

pub complete_all : List ℕ → Promises → Promises
complete_all [] ps = ps
complete_all (promise ∷ rest) ps = complete_all rest (complete promise ps)

pub callbacks : Option (List ℕ) → List ℕ
callbacks none = []
callbacks (some promises) = promises

removal_of : ℕ → Option WebSocketSession → IndexCall
removal_of fd none = removes none fd 0
removal_of fd (some s) = removes (some s.device_id) fd s.id

-- `removeSession`
pub remove_session : ℕ → Worker → Worker
remove_session fd w = record w {
  sessions = erase fd w.sessions;
  closing_sessions = set_erase fd w.closing_sessions;
  revoke_deadlines = erase fd w.revoke_deadlines;
  close_completions = erase fd w.close_completions;
  interests = erase fd w.interests;
  promises = complete_all (callbacks (find fd w.close_completions)) w.promises;
  index_calls = w.index_calls ++ removal_of fd (find fd w.sessions) ∷ [];
}

-- `setWriteInterest`, once the session is there; `accepted` is whether `EPOLL_CTL_MOD` succeeds.
pub modify_interest : ℕ → Bool → Bool → Worker → Worker
modify_interest fd enabled accepted w =
    if accepted
    then record w {
      interests =
          assign fd (record { readable = not (contains fd w.revoke_deadlines); writable = enabled })
            w.interests;
    }
    else remove_session fd w

-- `setWriteInterest`
pub set_write_interest : ℕ → Bool → Bool → Worker → Worker
set_write_interest fd enabled accepted w = elim (find fd w.sessions) [
  | none ↦ w
  | some s ↦ modify_interest fd enabled accepted w
]

-- The session of `fd` changes; the code holds a reference to it.
pub put_session : ℕ → WebSocketSession → Worker → Worker
put_session fd s w = record w { sessions = assign fd s w.sessions }

-- Nothing is left to send.
pub drained : ℕ → Bool → Worker → Worker
drained fd accepted w =
    if member fd w.closing_sessions
    then remove_session fd w
    else set_write_interest fd false accepted w

-- What follows `connection.flush()`.
pub after_flush : FlushResult → ℕ → Bool → Bool → Worker → Worker
after_flush flushing fd pending accepted w = w
after_flush flushed fd pending accepted w = if pending then w else drained fd accepted w
after_flush flushed_none fd pending accepted w =
    if pending then remove_session fd w else drained fd accepted w
after_flush flush_again fd pending accepted w = w
after_flush flush_error fd pending accepted w = remove_session fd w

pub flush_session : ℕ → List Sent → Bool → WebSocketSession → Worker → Worker
flush_session fd sent accepted s w =
    let (result, c) = flush s.connection sent in
    after_flush result fd (has_pending_output c) accepted
      (put_session fd (record s { connection = c }) w)

-- `handleWritable`
pub handle_writable : ℕ → List Sent → Bool → Worker → Worker
handle_writable fd sent accepted w = elim (find fd w.sessions) [
  | none ↦ w
  | some s ↦ flush_session fd sent accepted s w
]
