-- ===== src/WebSocketWorker/Tasks.antt =====
-- The tasks that other threads hand to a WebSocket worker: pushes, replies, closing and the
-- revocation of a device.
use cpp_backend_server.Base.{
  ℕ, ◌+◌, Bool, true, ◌&&◌, Option, none, some, List, [], ◌∷◌, ◌++◌, ◌==◌, if◌then◌else◌, length,
  Bytes, find, assign, contains, member, set_insert,
}
use cpp_backend_server.Connection.{Sent}
use cpp_backend_server.Frame.{text, close}
use cpp_backend_server.WebSocketPool.{Uuid}
use cpp_backend_server.WebSocketHandler.{WebSocketSession, queue_frame, answer_with}
use cpp_backend_server.WebSocketWorker.{
  seconds, callbacks, Worker, remove_session, set_write_interest, put_session, handle_writable,
}

-- A text frame for the session, and the wish to send it.
unfoldable pub send_text : ℕ → Bytes → Bool → WebSocketSession → Worker → Worker
send_text fd message accepted s w =
    set_write_interest fd true accepted
      (put_session fd (queue_frame (answer_with text message) s) w)

unfoldable pub is_device : Option Uuid → Uuid → Bool
is_device none d = true
is_device (some e) d = d == e

unfoldable pub chosen : ℕ → Option Uuid → WebSocketSession → Option WebSocketSession
chosen session_id device s =
    if s.id == session_id && is_device device s.device_id then some s else none

-- The session that a task is meant for: not closing, and the same one, since a descriptor is used
-- again after a disconnect.
unfoldable pub target : ℕ → ℕ → Option Uuid → Worker → Option WebSocketSession
target fd session_id device w =
    if member fd w.closing_sessions
    then none
    else elim (find fd w.sessions) [ none ↦ none | some s ↦ chosen session_id device s ]

-- The task of `enqueuePush`.
unfoldable pub push : ℕ → ℕ → Uuid → Bytes → Bool → Worker → Worker
push fd session_id device message accepted w = elim (target fd session_id (some device) w) [
  | none ↦ w
  | some s ↦ send_text fd message accepted s w
]

-- The task of `enqueuecloseSession`.
unfoldable pub close_session : ℕ → ℕ → Uuid → Worker → Worker
close_session fd session_id device w = elim (target fd session_id (some device) w) [
  | none ↦ w
  | some s ↦ remove_session fd w
]

-- A response of the dispatcher, as its JSON decides: one for another device, one without a device
-- where it needs one, and one for the client.
pub data Reply : Type 0 where
  for_device : Uuid → Bytes → Reply
  without_device : Reply
  for_client : Bytes → Reply

-- The task of a reply.
unfoldable pub reply : Reply → ℕ → ℕ → Bool → Worker → Worker
reply (for_device device message) fd session_id accepted w = record w {
  forwarded = w.forwarded ++ (device, message) ∷ [];
}
reply without_device fd session_id accepted w = w
reply (for_client message) fd session_id accepted w = elim (target fd session_id none w) [
  | none ↦ w
  | some s ↦ send_text fd message accepted s w
]

-- The descriptors of a device's sessions.
unfoldable pub targets : Uuid → Uuid → List (ℕ × WebSocketSession) → List ℕ
targets user device [] = []
targets user device ((fd, s) ∷ rest) =
    if s.user_id == user && s.device_id == device
    then fd ∷ targets user device rest
    else targets user device rest

-- `close_completions_[fd].push_back(...)`
unfoldable pub await_close : ℕ → ℕ → Worker → Worker
await_close promise fd w = record w {
  close_completions =
      assign fd (callbacks (find fd w.close_completions) ++ promise ∷ []) w.close_completions;
}

unfoldable pub await_all : List ℕ → ℕ → Worker → Worker
await_all [] promise w = w
await_all (fd ∷ rest) promise w = await_all rest promise (await_close promise fd w)

-- What the system answers while one session is revoked: the clock, `EPOLL_CTL_MOD` before and after
-- the flush, and `send`.
pub record Answers : Type 0 where
  pub now : ℕ
  pub first_accepted : Bool
  pub sent : List Sent
  pub then_accepted : Bool

-- `{0x0f, 0xa1}` and `device_revoked`
abbrev pub revoked_payload : Bytes
revoked_payload =
    0x0f ∷ 0xa1 ∷ 100 ∷ 101 ∷ 118 ∷ 105 ∷ 99 ∷ 101 ∷ 95 ∷ 114 ∷ 101 ∷ 118 ∷ 111 ∷ 107 ∷ 101 ∷ 100
    ∷ []

-- The wish to send, and the first flush.
unfoldable pub start_sending : ℕ → Answers → Worker → Worker
start_sending fd a w =
    handle_writable fd a.sent a.then_accepted (set_write_interest fd true a.first_accepted w)

-- A close frame for the session, if it is there; `at(fd)` throws where it is not, and then
-- the session is removed.
unfoldable pub send_close : ℕ → Answers → Worker → Worker
send_close fd a w = elim (find fd w.sessions) [
  | none ↦ remove_session fd w
  | some s ↦
      start_sending fd a (put_session fd (queue_frame (answer_with close revoked_payload) s) w)
]

-- One round of the loop that revokes.
unfoldable pub revoke_one : ℕ → Answers → Worker → Worker
revoke_one fd a w =
    let dated = record w { revoke_deadlines = assign fd (a.now + seconds 2) w.revoke_deadlines } in
    let closing = record dated { closing_sessions = set_insert fd dated.closing_sessions } in
    if contains fd w.revoke_deadlines
    then w
    else if member fd w.closing_sessions
    then start_sending fd a dated
    else send_close fd a closing

unfoldable pub revoke_each : List ℕ → (ℕ → Answers) → Worker → Worker
revoke_each [] answers w = w
revoke_each (fd ∷ rest) answers w = revoke_each rest answers (revoke_one fd (answers fd) w)

unfoldable pub revoke_targets : List ℕ → ℕ → (ℕ → Answers) → Worker → Worker
revoke_targets [] promise answers w = record w {
  promises = record w.promises { fulfilled = promise ∷ w.promises.fulfilled };
}
revoke_targets (fd ∷ rest) promise answers w =
    let fds = fd ∷ rest in
    let counted = record w {
      promises = record w.promises { remaining = assign promise (length fds) w.promises.remaining };
    } in
    revoke_each fds answers (await_all fds promise counted)

-- The task of `revokeDeviceConnections`, with a new promise.
unfoldable pub revoke_device : Uuid → Uuid → ℕ → (ℕ → Answers) → Worker → Worker
revoke_device user device promise answers w =
    revoke_targets (targets user device w.sessions) promise answers w
