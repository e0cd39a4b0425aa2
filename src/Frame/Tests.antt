-- ===== src/Frame/Tests.antt =====
-- Runs of the frame parser and encoder, and the witnesses of its properties.
use cpp_backend_server.Base.{ℕ, ◌≡◌, ◌≢◌, refl, true, List, [], ◌∷◌, ◌++◌, length, drop, arith}
use cpp_backend_server.Frame.{
  codec, Frame, frame_parse, frame_encoder, opcode_value, success, error, text,
}
use cpp_backend_server.Frame.Stream.{shift}
use cpp_backend_server.Frame.Legal.{IsLegal}
use cpp_backend_server.Frame.Resume.{frame_parse-append}
use cpp_backend_server.Frame.Sound.{IsSound, frame_parse-IsSound}
use cpp_backend_server.Frame.Wire.{client_stream, server_wire, IsSendable}
use cpp_backend_server.Frame.RoundTrip.{frame_parse-client_stream}
use cpp_backend_server.Frame.Encoder.{frame_encoder-server_wire}

abbrev hi_frame : Frame
hi_frame = record { fin = true; opcode = text; payload = 0x48 ∷ 0x69 ∷ [] }

abbrev hi_wire : List ℕ
hi_wire = 0x81 ∷ 0x82 ∷ 1 ∷ 2 ∷ 3 ∷ 4 ∷ 0x49 ∷ 0x6b ∷ []

hello_masked :
    frame_parse (0x81 ∷ 0x82 ∷ 1 ∷ 2 ∷ 3 ∷ 4 ∷ 0x49 ∷ 0x6b ∷ 0x99 ∷ [])
    ≡ record { status = success; consumed = 8; frames = hi_frame ∷ [] }
unfolding codec
hello_masked = refl

hi_accepted : (frame_parse (hi_wire ++ 0x81 ∷ [])).status ≢ error
unfolding codec
hi_accepted e = cc e

frame_parse-append_example :
    frame_parse ((hi_wire ++ 0x81 ∷ []) ++ 0x80 ∷ 1 ∷ 2 ∷ 3 ∷ 4 ∷ [])
    ≡ shift
        (frame_parse (hi_wire ++ 0x81 ∷ [])).consumed
        (frame_parse (hi_wire ++ 0x81 ∷ [])).frames
        (frame_parse (
          drop (frame_parse (hi_wire ++ 0x81 ∷ [])).consumed (hi_wire ++ 0x81 ∷ [])
          ++ 0x80 ∷ 1 ∷ 2 ∷ 3 ∷ 4 ∷ []))
frame_parse-append_example =
    frame_parse-append (hi_wire ++ 0x81 ∷ []) (0x80 ∷ 1 ∷ 2 ∷ 3 ∷ 4 ∷ []) hi_accepted

hi_IsLegal : IsLegal hi_frame
unfolding opcode_value
hi_IsLegal = record {
  bounded = omega arith;
  control = λ h. absurd (omega (arith, h));
  close_code = λ e. absurd (cc e);
}

hi_IsSendable : IsSendable hi_frame (1 ∷ 2 ∷ 3 ∷ 4 ∷ [])
hi_IsSendable = record {
  legal = hi_IsLegal;
  bytes = (omega arith, (omega arith, tt));
  key_size = refl;
  key_bytes = (omega arith, (omega arith, (omega arith, (omega arith, tt))));
}

frame_parse-client_stream_example :
    frame_parse (client_stream ((hi_frame, 1 ∷ 2 ∷ 3 ∷ 4 ∷ []) ∷ []) ++ 0x81 ∷ [])
    ≡ shift
        (length (client_stream ((hi_frame, 1 ∷ 2 ∷ 3 ∷ 4 ∷ []) ∷ [])))
        (hi_frame ∷ [])
        (frame_parse (0x81 ∷ []))
frame_parse-client_stream_example =
    frame_parse-client_stream ((hi_frame, 1 ∷ 2 ∷ 3 ∷ 4 ∷ []) ∷ []) (0x81 ∷ []) (hi_IsSendable, tt)

frame_parse-IsSound_example : IsSound hi_wire (frame_parse hi_wire)
frame_parse-IsSound_example = frame_parse-IsSound hi_wire

frame_encoder-server_wire_example : frame_encoder hi_frame ≡ server_wire hi_frame
frame_encoder-server_wire_example = frame_encoder-server_wire hi_frame
