-- ===== src/WebSocketWorker/Events.antt =====
-- The events of a WebSocket worker's loop: input, output, the timer and a broken connection.
use cpp_backend_server.Base.{
  ℕ, Bool, true, false, not, ◌&&◌, Option, none, some, List, [], ◌∷◌, ◌++◌, leb, if◌then◌else◌,
  find, contains, member, set_insert,
}
use cpp_backend_server.Connection.{Recv, Sent}
use cpp_backend_server.Frame.{ping, Frame}
use cpp_backend_server.Heartbeat.{should_send_ping, pong_timeout, mark_ping_sent}
use cpp_backend_server.WebSocketHandler.{
  WebSocketSession, HandleStatus, messages_ready, needs_more_data, peer_left, protocol_error,
  io_error, HandleResult, Handling, reading, handled, handle_readable, queue_frame, answer_with,
}
use cpp_backend_server.WebSocketWorker.{
  seconds, Worker, remove_session, set_write_interest, put_session, handle_writable,
}

-- The frames go to the dispatcher until it, or the reader of the frame's JSON, throws; whether all
-- went.
unfoldable pub dispatch : List Frame → ℕ → ℕ → (Frame → Bool) → Worker → Bool × Worker
dispatch [] fd session_id accepts w = (true, w)
dispatch (frame ∷ rest) fd session_id accepts w =
    let next =
      dispatch rest fd session_id accepts
        (record w { dispatched = w.dispatched ++ (fd, session_id, frame) ∷ [] }) in
    if accepts frame then next else (false, w)

-- `switch (result.status)`
unfoldable pub settle : HandleStatus → Bool → ℕ → Worker → Worker
settle messages_ready output_queued fd w = w
settle needs_more_data output_queued fd w = w
settle peer_left output_queued fd w =
    if output_queued
    then record w { closing_sessions = set_insert fd w.closing_sessions }
    else remove_session fd w
settle protocol_error output_queued fd w = remove_session fd w
settle io_error output_queued fd w = remove_session fd w

-- With whether no exception leaves `handleReadable`.
unfoldable pub dispatch_and_settle : ℕ → ℕ → (Frame → Bool) → HandleResult → Worker → Bool × Worker
dispatch_and_settle fd session_id accepts r w =
    let (all, w') = dispatch r.frames fd session_id accepts w in
    if all then (true, settle r.status r.output_queued fd w') else (false, w')

-- From `if (result.output_queued)` on.
unfoldable pub after_handling :
    ℕ → (Frame → Bool) → Bool → ℕ → HandleResult → Worker → Bool × Worker
after_handling fd accepts accepted session_id r w =
    let watched = set_write_interest fd true accepted w in
    if r.output_queued
    then if contains fd watched.sessions
      then dispatch_and_settle fd session_id accepts r watched
      else (true, watched)
    else dispatch_and_settle fd session_id accepts r w

-- While `handleReadable` still reads, the worker does nothing else: it has not returned.
unfoldable pub take_handling : ℕ → (Frame → Bool) → Bool → Handling → Worker → Bool × Worker
take_handling fd accepts accepted (reading s r) w = (false, put_session fd s w)
take_handling fd accepts accepted (handled s r) w =
    after_handling fd accepts accepted s.id r (put_session fd s w)

-- `handleReadable` of the worker, with whether it returns; `accepts` is whether the dispatching of a
-- frame does not throw.
unfoldable pub read_session : ℕ → List (ℕ × Recv) → (Frame → Bool) → Bool → Worker → Bool × Worker
read_session fd answers accepts accepted w =
    if contains fd w.revoke_deadlines then (true, w) else elim (find fd w.sessions) [
      | none ↦ (true, w)
      | some s ↦ take_handling fd accepts accepted (handle_readable answers s) w
    ]

-- What the timer does with a session.
pub data Tick : Type 0 where
  keeps expires pings : Tick

unfoldable pub deadline_tick : ℕ → Option ℕ → WebSocketSession → Tick
deadline_tick now (some deadline) s = if leb deadline now then expires else keeps
deadline_tick now none s =
    if pong_timeout s.heartbeat now (seconds 10)
    then expires
    else if should_send_ping s.heartbeat now (seconds 30)
    then pings
    else keeps

-- `heartbeat_interval_` is 30 seconds and `pong_timeout_` 10.
unfoldable pub tick_of : ℕ → List (ℕ × ℕ) → ℕ → WebSocketSession → Tick
tick_of now deadlines fd s = deadline_tick now (find fd deadlines) s

pub pinged : ℕ → WebSocketSession → WebSocketSession
pinged now s =
    let s' = queue_frame (answer_with ping []) s in
    record s' { heartbeat = mark_ping_sent now s'.heartbeat }

unfoldable pub ticked : ℕ → Tick → WebSocketSession → WebSocketSession
ticked now pings s = pinged now s
ticked now _ s = s

unfoldable pub tick_sessions :
    ℕ → List (ℕ × ℕ) → List (ℕ × WebSocketSession) → List (ℕ × WebSocketSession)
tick_sessions now deadlines [] = []
tick_sessions now deadlines ((fd, s) ∷ rest) =
    (fd, ticked now (tick_of now deadlines fd s) s) ∷ tick_sessions now deadlines rest

unfoldable pub is_expired : Tick → Bool
is_expired expires = true
is_expired _ = false

unfoldable pub is_pinged : Tick → Bool
is_pinged pings = true
is_pinged _ = false

-- `expiredFds` and `writableFds`
unfoldable pub fds_where : (Tick → Bool) → ℕ → List (ℕ × ℕ) → List (ℕ × WebSocketSession) → List ℕ
fds_where test now deadlines [] = []
fds_where test now deadlines ((fd, s) ∷ rest) =
    if test (tick_of now deadlines fd s)
    then fd ∷ fds_where test now deadlines rest
    else fds_where test now deadlines rest

unfoldable pub remove_each : List ℕ → Worker → Worker
remove_each [] w = w
remove_each (fd ∷ rest) w = remove_each rest (remove_session fd w)

unfoldable pub watch_each : List ℕ → (ℕ → Bool) → Worker → Worker
watch_each [] accepted w = w
watch_each (fd ∷ rest) accepted w =
    watch_each rest accepted (set_write_interest fd true (accepted fd) w)

-- `handleTimer`, once the timer's count has been read.
unfoldable pub handle_timer : ℕ → (ℕ → Bool) → Worker → Worker
handle_timer now accepted w =
    let expired = fds_where is_expired now w.revoke_deadlines w.sessions in
    let writable = fds_where is_pinged now w.revoke_deadlines w.sessions in
    watch_each writable accepted (
      remove_each expired (record w { sessions = tick_sessions now w.revoke_deadlines w.sessions }))

-- The flags of `epoll_wait`.
pub record Flags : Type 0 where
  pub error_or_hang_up : Bool
  pub input : Bool
  pub output : Bool
  pub peer_shut_down : Bool

-- What the system answers while one event is handled.
pub record EventAnswers : Type 0 where
  pub received : List (ℕ × Recv)
  pub read_accepted : Bool
  pub sent : List Sent
  pub write_accepted : Bool

unfoldable pub after_output : ℕ → Flags → Worker → Worker
after_output fd flags w =
    if contains fd w.sessions
    then if flags.peer_shut_down && not (member fd w.closing_sessions)
      then remove_session fd w
      else w
    else w

unfoldable pub after_input : ℕ → Flags → EventAnswers → Worker → Worker
after_input fd flags a w =
    let written = handle_writable fd a.sent a.write_accepted w in
    if contains fd w.sessions
    then after_output fd flags (if flags.output then written else w)
    else w

-- An exception that leaves `handleReadable` goes to the catch at the end of the event.
unfoldable pub after_reading : ℕ → Flags → EventAnswers → Bool × Worker → Worker
after_reading fd flags a (returned, w) = if returned then after_input fd flags a w else w

-- An event of a session's descriptor in `worker`.
unfoldable pub handle_event : ℕ → Flags → (Frame → Bool) → EventAnswers → Worker → Worker
handle_event fd flags accepts a w =
    let read = read_session fd a.received accepts a.read_accepted w in
    if flags.error_or_hang_up
    then remove_session fd w
    else if flags.input
    then after_reading fd flags a read
    else after_input fd flags a w
