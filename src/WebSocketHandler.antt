-- ===== src/WebSocketHandler.antt =====
-- Reading from a WebSocket session: src/websocket/WebSocketHandler.cpp,
-- include/websocket/WebSocketHandler.h, and the session's state (include/websocket/WebSocketSession.h).
pub mod Described
pub mod Frames
pub mod Passing
pub mod Left
pub mod Chunks
pub mod Returns
pub mod Tests
use cpp_backend_server.Base.{
  ℕ, zero, suc, Bool, true, false, not, List, [], ◌∷◌, ◌++◌, ltb, if◌then◌else◌, Bytes,
}
use cpp_backend_server.Connection.{
  Connection, Recv, ReadResult, retries, read_bytes, read_end, read_again, read_error, read_round,
  write, consume_input,
}
use cpp_backend_server.Frame.{
  Opcode, continuation, text, binary, close, ping, pong, Frame, FrameParseResult, FrameParseStatus,
  success, error, need_more_data, frame_parse, frame_encoder,
}
use cpp_backend_server.Heartbeat.{Heartbeat, record_activity, handle_pong}
use cpp_backend_server.WebSocketPool.{Uuid}

pub record WebSocketSession : Type 0 where
  pub id : ℕ
  pub user_id : Uuid
  pub device_id : Uuid
  pub connection : Connection
  pub heartbeat : Heartbeat

pub data HandleStatus : Type 0 where
  messages_ready needs_more_data peer_left protocol_error io_error : HandleStatus

-- `WebSocketHandleResult`
pub record HandleResult : Type 0 where
  pub status : HandleStatus
  pub frames : List Frame
  pub output_queued : Bool

-- What `handleFrame` returns, with the session and the result that it leaves.
pub record FrameHandled : Type 0 where
  pub goes_on : Bool
  pub session : WebSocketSession
  pub result : HandleResult

abbrev goes_on : WebSocketSession → HandleResult → FrameHandled
goes_on s r = record { goes_on = true; session = s; result = r }

abbrev stops_with : HandleStatus → WebSocketSession → HandleResult → FrameHandled
stops_with status s r = record {
  goes_on = false;
  session = s;
  result = record r { status = status };
}

-- A frame into the output buffer: `connection().write(FrameEncoder(frame))`.
unfoldable pub queue_frame : Frame → WebSocketSession → WebSocketSession
queue_frame frame s = record s { connection = write s.connection (frame_encoder frame) }

abbrev pub answer_with : Opcode → Bytes → Frame
answer_with opcode payload = record { fin = true; opcode = opcode; payload = payload }

handle_message : Frame → WebSocketSession → HandleResult → FrameHandled
handle_message frame s r =
    if frame.fin
    then goes_on s (record r { frames = r.frames ++ frame ∷ [] })
    else stops_with protocol_error s r

handle_by : Opcode → ℕ → Frame → WebSocketSession → HandleResult → FrameHandled
handle_by text now frame s r = handle_message frame s r
handle_by binary now frame s r = handle_message frame s r
handle_by ping now frame s r =
    goes_on (queue_frame (answer_with pong frame.payload) s) (record r { output_queued = true })
handle_by pong now frame s r = goes_on (record s { heartbeat = handle_pong now s.heartbeat }) r
handle_by close now frame s r =
    stops_with peer_left (queue_frame (answer_with close frame.payload) s)
      (record r { output_queued = true })
handle_by continuation now frame s r = stops_with protocol_error s r

-- `WebSocketMessageHandler::handleFrame`, at the time `now`.
pub handle_frame : ℕ → Frame → WebSocketSession → HandleResult → FrameHandled
handle_frame now frame s r = handle_by frame.opcode now frame s r

-- `for (Frame& frame : parsed.frames)`
pub handle_frames : List Frame → ℕ → WebSocketSession → HandleResult → FrameHandled
handle_frames [] now s r = goes_on s r
handle_frames (frame ∷ rest) now s r =
    let h = handle_frame now frame s r in
    let next = handle_frames rest now h.session h.result in if h.goes_on then next else h

is_error : FrameParseStatus → Bool
is_error error = true
is_error _ = false

-- What follows `parsed`, for the session that has consumed its bytes.
handle_parsed : ℕ → FrameParseResult → WebSocketSession → HandleResult → FrameHandled
handle_parsed now parsed s r =
    if is_error parsed.status
    then stops_with protocol_error s r
    else handle_frames parsed.frames now s r

pub consume_parsed : FrameParseResult → WebSocketSession → WebSocketSession
consume_parsed parsed s =
    if ltb 0 parsed.consumed
    then record s { connection = consume_input s.connection parsed.consumed }
    else s

-- `if (bytesRead > 0)`, the clock read once.
pub handle_bytes : ℕ → WebSocketSession → HandleResult → FrameHandled
handle_bytes now s r =
    let active = record s { heartbeat = record_activity now s.heartbeat } in
    let parsed = frame_parse s.connection.input_buffer in
    handle_parsed now parsed (consume_parsed parsed active) r

-- `handleReadable` still reads, or has returned.
pub data Handling : Type 0 where
  reading handled : WebSocketSession → HandleResult → Handling

is_empty : List Frame → Bool
is_empty [] = true
is_empty (frame ∷ rest) = false

-- `errno == EAGAIN`
pub end_of_input : HandleResult → HandleResult
end_of_input r = if is_empty r.frames then r else record r { status = messages_ready }

abbrev pub new_result : HandleResult
new_result = record { status = needs_more_data; frames = []; output_queued = false }

-- The loop of `handleReadable`, over the times and results of `recv`.
pub handle_loop : List (ℕ × Recv) → WebSocketSession → HandleResult → Handling
handle_loop [] s r = reading s r
handle_loop ((now, answer) ∷ rest) s r =
    let round = read_round s.connection answer in
    let s' = record s { connection = round.1 } in
    let again = handle_loop rest s' r in
    let h = handle_bytes now s' r in
    let next = handle_loop rest h.session h.result in
    elim round.0 [
      | retries ↦ again
      | read_bytes ↦ if h.goes_on then next else handled h.session h.result
      | read_end ↦ handled s' (record r { status = peer_left })
      | read_again ↦ handled s' (end_of_input r)
      | read_error ↦ handled s' (record r { status = io_error })
    ]

-- `WebSocketMessageHandler::handleReadable`
pub handle_readable : List (ℕ × Recv) → WebSocketSession → Handling
handle_readable answers s = handle_loop answers s new_result

-- To run the handler in a test, unfold this one with the codec's.
unfoldable pub handler : Unit {0}
unfolding handle_readable handle_loop handle_bytes handle_parsed consume_parsed handle_frames
    handle_frame handle_by handle_message queue_frame is_error is_empty end_of_input
handler = tt
