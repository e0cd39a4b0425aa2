-- ===== src/Frame/Encoder.antt =====
-- `WebSocketSession::FrameEncoder` writes what RFC 6455 asks of a server.
use cpp_backend_server.Base.{
  ℕ, zero, suc, ◌+◌, ◌*◌, ◌/◌, ◌^◌, ◌<◌, ◌≡◌, refl, ap₂, Bool, true, false, ◌∷◌, ◌++◌,
  if◌then◌else◌, length, bit_or, bit_or_shifted, bit_and_low_byte, arith,
}
use cpp_backend_server.Frame.{opcode_value, Frame, frame_encoder, encode_length, long_length}
use cpp_backend_server.Frame.Reading.{opcode_value-lt}
use cpp_backend_server.Frame.Wire.{bit, big_endian, wire_length, server_wire}

first_byte_encoded :
    (fin : Bool) (op : ℕ) → op < 16 → bit_or (if fin then 0x80 else 0x00) op ≡ bit fin * 128 + op
first_byte_encoded true op h = bit_or_shifted 7 1 op (omega arith)
first_byte_encoded false op h = bit_or_shifted 7 0 op (omega arith)

long_length-big_endian : (n size : ℕ) → long_length n size ≡ big_endian n size
unfolding long_length
long_length-big_endian zero size = refl
long_length-big_endian (suc n) size =
    ap₂ (λ x xs. x ∷ xs) (bit_and_low_byte (size / 2 ^ (8 * n))) (long_length-big_endian n size)

encode_length-wire_length : (size : ℕ) → encode_length size ≡ wire_length false size
unfolding encode_length
encode_length-wire_length size =
    ground
      (arith, long_length-big_endian 8 size, bit_and_low_byte (size / 2 ^ 8), bit_and_low_byte size)

-- The encoder writes exactly the unmasked wire format, with the shortest form of the length.
pub frame_encoder-server_wire : (frame : Frame) → frame_encoder frame ≡ server_wire frame
unfolding frame_encoder
frame_encoder-server_wire frame =
    ap₂ (λ x xs. x ∷ xs ++ frame.payload)
      (first_byte_encoded frame.fin (opcode_value frame.opcode) (opcode_value-lt frame.opcode))
      (encode_length-wire_length (length frame.payload))
