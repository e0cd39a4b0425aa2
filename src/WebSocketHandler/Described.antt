-- ===== src/WebSocketHandler/Described.antt =====
-- What the handler is to do with a list of frames, read off the frames alone.
use cpp_backend_server.Base.{
  ◌≡◌, Bool, true, false, ◌||◌, List, [], ◌∷◌, ◌++◌, if◌then◌else◌, Bytes,
}
use cpp_backend_server.Frame.{Opcode, continuation, text, binary, close, ping, pong, Frame}
use cpp_backend_server.Frame.Wire.{server_wire}
use cpp_backend_server.WebSocketHandler.{
  WebSocketSession, HandleStatus, peer_left, protocol_error, HandleResult, FrameHandled,
  answer_with,
}

-- How a frame ends the reading, if it does.
abbrev pub ending : Opcode → Bool → HandleStatus → HandleStatus
ending text fin before = if fin then before else protocol_error
ending binary fin before = if fin then before else protocol_error
ending close fin before = peer_left
ending continuation fin before = protocol_error
ending _ fin before = before

abbrev pub passes : Opcode → Bool → Bool
passes text fin = fin
passes binary fin = fin
passes close fin = false
passes continuation fin = false
passes _ fin = true

-- The frames that are handled: up to the first that ends the reading, with it.
abbrev pub seen : List Frame → List Frame
seen [] = []
seen (f ∷ fs) = f ∷ (if passes f.opcode f.fin then seen fs else [])

abbrev pub message_of : Opcode → Frame → List Frame
message_of text f = if f.fin then f ∷ [] else []
message_of binary f = if f.fin then f ∷ [] else []
message_of _ f = []

abbrev pub messages : List Frame → List Frame
messages [] = []
messages (f ∷ fs) = message_of f.opcode f ++ messages fs

abbrev pub reply_of : Opcode → Frame → List Frame
reply_of ping f = answer_with pong f.payload ∷ []
reply_of close f = answer_with close f.payload ∷ []
reply_of _ f = []

abbrev pub replies : List Frame → List Frame
replies [] = []
replies (f ∷ fs) = reply_of f.opcode f ++ replies fs

abbrev pub wire_of : List Frame → Bytes
wire_of [] = []
wire_of (f ∷ fs) = server_wire f ++ wire_of fs

abbrev pub passes_all : List Frame → Bool
passes_all [] = true
passes_all (f ∷ fs) = if passes f.opcode f.fin then passes_all fs else false

abbrev pub last_status : List Frame → HandleStatus → HandleStatus
last_status [] before = before
last_status (f ∷ fs) before =
    if passes f.opcode f.fin then last_status fs before else ending f.opcode f.fin before

abbrev pub any_reply : List Frame → Bool
any_reply [] = false
any_reply (f ∷ fs) = true

-- What `h` has done to `s` and `r`: whether it goes on and the status, the messages it has added,
-- and the frames it has queued.
pub record Does (on : Bool) (left : HandleStatus) (added queued : List Frame) (s : WebSocketSession)
    (r : HandleResult) (h : FrameHandled) : Type 0 where
  pub goes_on : h.goes_on ≡ on
  pub status : h.result.status ≡ left
  pub frames : h.result.frames ≡ r.frames ++ added
  pub output_queued : h.result.output_queued ≡ (r.output_queued || any_reply queued)
  pub output : h.session.connection.output_buffer ≡ s.connection.output_buffer ++ wire_of queued
  pub id : h.session.id ≡ s.id

-- The list `fs` is handled as its frames say.
abbrev pub Handles : List Frame → WebSocketSession → HandleResult → FrameHandled → Type 0
Handles fs s r =
    Does (passes_all fs) (last_status fs r.status) (messages (seen fs)) (replies (seen fs)) s r
