-- ===== src/Frame/Wire.antt =====
-- The wire format of RFC 6455, written down apart from the code: a frame as a client sends it,
-- masked, and as a server sends it.
use cpp_backend_server.Base.{
  ℕ, zero, suc, ◌+◌, ◌*◌, ◌/◌, ◌%◌, ◌^◌, ◌<◌, ◌≡◌, Bool, true, false, List, [], ◌∷◌, ◌++◌, leb,
  if◌then◌else◌, length, get_or, bit_xor, All,
}
use cpp_backend_server.Frame.{opcode_value, Frame}
use cpp_backend_server.Frame.Legal.{IsLegal}

abbrev pub bit : Bool → ℕ
bit true = 1
bit false = 0

-- The `n` low bytes of a number, the highest first.
abbrev pub big_endian : ℕ → ℕ → List ℕ
big_endian zero size = []
big_endian (suc n) size = size / 2 ^ (8 * n) % 256 ∷ big_endian n size

-- The mask bit and the length, in the shortest of the three forms.
abbrev pub wire_length : Bool → ℕ → List ℕ
wire_length masked size =
    if leb size 125
    then (bit masked * 128 + size) ∷ []
    else if leb size 65535
    then (bit masked * 128 + 126) ∷ big_endian 2 size
    else (bit masked * 128 + 127) ∷ big_endian 8 size

abbrev pub xor_mask : ℕ → List ℕ → List ℕ → List ℕ
xor_mask i mask [] = []
xor_mask i mask (x ∷ xs) = bit_xor x (get_or mask (i % 4) 0) ∷ xor_mask (i + 1) mask xs

abbrev pub first_byte : Frame → ℕ
first_byte frame = bit frame.fin * 128 + opcode_value frame.opcode

abbrev pub server_wire : Frame → List ℕ
server_wire frame = first_byte frame ∷ wire_length false (length frame.payload) ++ frame.payload

abbrev pub client_wire : Frame → List ℕ → List ℕ
client_wire frame mask =
    first_byte frame ∷ wire_length true (length frame.payload)
    ++ (mask ++ xor_mask 0 mask frame.payload)

abbrev pub IsByte : ℕ → Type 0
IsByte x = x < 256

-- A legal frame of bytes, and its masking key.
pub record IsSendable (frame : Frame) (mask : List ℕ) : Type 0 where
  pub legal : IsLegal frame
  pub bytes : All IsByte frame.payload
  pub key_size : length mask ≡ 4
  pub key_bytes : All IsByte mask

abbrev pub client_stream : List (Frame × List ℕ) → List ℕ
client_stream [] = []
client_stream ((frame, mask) ∷ fs) = client_wire frame mask ++ client_stream fs
