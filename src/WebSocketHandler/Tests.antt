-- ===== src/WebSocketHandler/Tests.antt =====
-- Runs of the handler, and instances of its theorems.
use cpp_backend_server.Base.{◌≡◌, refl, true, false, [], ◌∷◌, Bytes, arith}
use cpp_backend_server.Connection.{peer_closed}
use cpp_backend_server.Frame.{text, ping, opcode_value, Frame}
use cpp_backend_server.Frame.Legal.{IsLegal}
use cpp_backend_server.Frame.Wire.{IsSendable, client_stream}
use cpp_backend_server.WebSocketHandler.{
  WebSocketSession, answer_with, new_result, handle_frames, handle_readable,
}
use cpp_backend_server.WebSocketHandler.Described.{Handles}
use cpp_backend_server.WebSocketHandler.Frames.{handle_frames-Handles}
use cpp_backend_server.WebSocketHandler.Returns.{ReturnsQuiet, handle_readable-ReturnsQuiet}
use cpp_backend_server.WebSocketHandler.Chunks.{
  bytes_of, answers_of, Finishes, handle_readable-client_stream,
}

abbrev quiet_session : WebSocketSession
quiet_session = record {
  id = 7;
  user_id = 1;
  device_id = 2;
  connection = record {
    valid = true;
    state = true;
    input_buffer = [];
    output_buffer = 0x8a ∷ 0 ∷ [];
  };
  heartbeat = record { last_activity = 0; ping_sent_at = 0; waiting_for_pong = false; ping_id = 0 };
}

abbrev ping_frame : Frame
ping_frame = record { fin = true; opcode = ping; payload = 104 ∷ 105 ∷ [] }

ping_IsLegal : IsLegal ping_frame
unfolding opcode_value
ping_IsLegal = record {
  bounded = omega arith;
  control = λ h. (refl, omega arith);
  close_code = λ e. absurd (cc e);
}

abbrev key : Bytes
key = 1 ∷ 2 ∷ 3 ∷ 4 ∷ []

ping_IsSendable : IsSendable ping_frame key
ping_IsSendable = record {
  legal = ping_IsLegal;
  bytes = (omega arith, (omega arith, tt));
  key_size = refl;
  key_bytes = (omega arith, (omega arith, (omega arith, (omega arith, tt))));
}

same_bytes :
    bytes_of ((5, 0x89, 0x82 ∷ 1 ∷ 2 ∷ []) ∷ (6, 3, 4 ∷ 105 ∷ 107 ∷ []) ∷ [])
    ≡ client_stream ((ping_frame, key) ∷ [])
unfolding opcode_value
same_bytes = refl

-- The ping arrives in two reads, cut within its mask.
handle_readable-client_stream_example : Finishes (ping_frame ∷ []) quiet_session new_result (
    handle_readable
      (answers_of ((5, 0x89, 0x82 ∷ 1 ∷ 2 ∷ []) ∷ (6, 3, 4 ∷ 105 ∷ 107 ∷ []) ∷ []) 7)
      quiet_session)
handle_readable-client_stream_example =
    handle_readable-client_stream ((ping_frame, key) ∷ [])
      ((5, 0x89, 0x82 ∷ 1 ∷ 2 ∷ []) ∷ (6, 3, 4 ∷ 105 ∷ 107 ∷ []) ∷ []) 7 quiet_session
      (ping_IsSendable, tt) refl refl same_bytes

handle_frames-Handles_example :
    Handles
      (ping_frame ∷ answer_with text [] ∷ [])
      quiet_session
      new_result
      (handle_frames (ping_frame ∷ answer_with text [] ∷ []) 5 quiet_session new_result)
handle_frames-Handles_example =
    handle_frames-Handles (ping_frame ∷ answer_with text [] ∷ []) 5 quiet_session new_result

handle_readable-ReturnsQuiet_example :
    ReturnsQuiet quiet_session new_result (handle_readable ((3, peer_closed) ∷ []) quiet_session)
handle_readable-ReturnsQuiet_example =
    handle_readable-ReturnsQuiet ((3, peer_closed) ∷ []) quiet_session refl
