-- ===== src/Frame.antt =====
-- WebSocket frames: `Opcode`, `Frame`, `FrameParseResult`, `WebSocketSession::FrameParse` and
-- `WebSocketSession::FrameEncoder` (include/websocket/WebSocketSession.h,
-- src/websocket/WebSocketSession.cpp). A byte is a number below 256; a buffer is a list of bytes.
pub mod Stage
pub mod Legal
pub mod Stream
pub mod Resume
pub mod Sound
pub mod Wire
pub mod Reading
pub mod RoundTrip
pub mod Encoder
pub mod Tests
use cpp_backend_server.Base.{
  ℕ, zero, suc, ◌+◌, ◌*◌, ◌/◌, ◌%◌, ◌^◌, Bool, true, false, not, ◌&&◌, ◌||◌, Option, none, some,
  List, [], ◌∷◌, ◌++◌, ltb, leb, ◌==◌, if◌then◌else◌, length, get_or, drop, bit_and, bit_or,
  bit_xor,
}

pub data Opcode : Type 0 where
  continuation text binary close ping pong : Opcode

-- The enumerator's value.
unfoldable pub opcode_value : Opcode → ℕ
opcode_value continuation = 0x0
opcode_value text = 0x1
opcode_value binary = 0x2
opcode_value close = 0x8
opcode_value ping = 0x9
opcode_value pong = 0xA

-- The `switch` over the low four bits of the first byte; `none` is its `default`.
pub opcode_of : ℕ → Option Opcode
opcode_of v =
    if v == 0x0
    then some continuation
    else if v == 0x1
    then some text
    else if v == 0x2
    then some binary
    else if v == 0x8
    then some close
    else if v == 0x9
    then some ping
    else if v == 0xA
    then some pong
    else none

pub record Frame : Type 0 where
  pub fin : Bool
  pub opcode : Opcode
  pub payload : List ℕ

pub data FrameParseStatus : Type 0 where
  success error need_more_data : FrameParseStatus

pub record FrameParseResult : Type 0 where
  pub status : FrameParseStatus
  pub consumed : ℕ
  pub frames : List Frame

-- What one part of the loop body ends in: it goes on, it waits for bytes, or it refuses.
pub data Scan {ℓ} (A : Type ℓ) : Type ℓ where
  found : A → Scan A
  more bad : Scan A

infixl 5 ◌>>=◌ ◌>>◌
abbrev pub ◌>>=◌ {ℓ κ} : {A : Type ℓ} {B : Type κ} → Scan A → (A → Scan B) → Scan B
found a >>= k = k a
more >>= k = more
bad >>= k = bad

abbrev pub ◌>>◌ {ℓ} : {B : Type ℓ} → Scan (Unit {0}) → Scan B → Scan B
m >> k = m >>= λ _. k

-- `if (sub_buffer.size() < n) return ...`
pub need : List ℕ → ℕ → Scan (Unit {0})
need sub n = if ltb (length sub) n then more else found tt

-- `if (condition) return {FrameParseStatus::Error, consumed, {}};`
pub refuse_if : Bool → Scan (Unit {0})
refuse_if b = if b then bad else found tt

-- `sub_buffer[i]`, read only where `need` has found the byte.
abbrev pub byte : List ℕ → ℕ → ℕ
byte sub i = get_or sub i 0

pub record Head : Type 0 where
  pub fin : Bool
  pub opcode : Opcode
  pub length7 : ℕ

or_refuse {ℓ} : {A : Type ℓ} → Option A → Scan A
or_refuse none = bad
or_refuse (some a) = found a

-- The first two bytes.
pub parse_head : ℕ → ℕ → Scan Head
parse_head first second = do
  refuse_if (not (bit_and first 0x70 == 0) || bit_and second 0x80 == 0)
  opcode ← or_refuse (opcode_of (bit_and first 0x0F))
  found (record {
    fin = not (bit_and first 0x80 == 0);
    opcode = opcode;
    length7 = bit_and second 0x7F;
  })

pub record Extent : Type 0 where
  pub header_size : ℕ
  pub payload_size : ℕ

abbrev pub u64_mod : ℕ
u64_mod = 2 ^ 64

-- `for (i = 2; i < 10; ++i) payloadSize = (payloadSize << 8U) | sub_buffer[i];`, with the rounds
-- left; the shift is of a `uint64_t`.
pub read_be : ℕ → ℕ → List ℕ → ℕ → ℕ
read_be zero i sub acc = acc
read_be (suc n) i sub acc = read_be n (i + 1) sub (bit_or (acc * 2 ^ 8 % u64_mod) (byte sub i))

-- The length field, short or extended.
parse_extent16 : List ℕ → Scan Extent
parse_extent16 sub = do
  need sub 4
  let size = bit_or (byte sub 2 * 2 ^ 8) (byte sub 3)
  refuse_if (ltb size 126)
  found (record { header_size = 4; payload_size = size })

parse_extent64 : List ℕ → Scan Extent
parse_extent64 sub = do
  need sub 10
  refuse_if (not (bit_and (byte sub 2) 0x80 == 0))
  let size = read_be 8 2 sub 0
  refuse_if (leb size 65535)
  found (record { header_size = 10; payload_size = size })

pub parse_extent : List ℕ → ℕ → Scan Extent
parse_extent sub length7 =
    if length7 == 126
    then parse_extent16 sub
    else if length7 == 127
    then parse_extent64 sub
    else found (record { header_size = 2; payload_size = length7 })

abbrev pub max_payload_size : ℕ
max_payload_size = 1024 * 1024

is_close : Opcode → Bool
is_close close = true
is_close _ = false

-- `(controlFrame && (!fin || payloadSize > 125U)) || (Close && payloadSize == 1U) || too large`
pub rejected : Head → ℕ → Bool
rejected head size =
    leb 0x8 (opcode_value head.opcode) && (not head.fin || ltb 125 size)
    || is_close head.opcode && size == 1
    || ltb max_payload_size size

abbrev pub mask_size : ℕ
mask_size = 4

-- The unmasking loop from `i`, with `n` rounds left.
pub unmask : ℕ → ℕ → ℕ → ℕ → List ℕ → List ℕ
unmask zero i mask_offset payload_offset sub = []
unmask (suc n) i mask_offset payload_offset sub =
    bit_xor (byte sub (payload_offset + i)) (byte sub (mask_offset + i % mask_size))
    ∷ unmask n (i + 1) mask_offset payload_offset sub

-- The body of `while (true)`: the frame at the front of `sub_buffer`, and `frameSize`.
pub parse_one : List ℕ → Scan (Frame × ℕ)
parse_one sub = do
  need sub 2
  head ← parse_head (byte sub 0) (byte sub 1)
  extent ← parse_extent sub head.length7
  refuse_if (rejected head extent.payload_size)
  need sub (extent.header_size + mask_size)
  let frame_size = extent.header_size + mask_size + extent.payload_size
  need sub frame_size
  found (
    record {
      fin = head.fin;
      opcode = head.opcode;
      payload =
          unmask extent.payload_size 0 extent.header_size (extent.header_size + mask_size) sub;
    },
    frame_size,
  )

-- `frames.empty() ? NeedMoreData : Success`
pub pending_status : List Frame → FrameParseStatus
pending_status [] = need_more_data
pending_status (_ ∷ _) = success

-- The loop. `sub` is what is left of the buffer; every round that goes on takes a frame off it, so
-- fuel as large as the buffer is enough: at `zero` nothing is left, and the code waits.
pub frame_loop : ℕ → ℕ → List Frame → List ℕ → FrameParseResult
frame_loop zero consumed frames sub = record {
  status = pending_status frames;
  consumed = consumed;
  frames = frames;
}
frame_loop (suc fuel) consumed frames sub = elim (parse_one sub) [
  | more ↦ record { status = pending_status frames; consumed = consumed; frames = frames }
  | bad ↦ record { status = error; consumed = consumed; frames = [] }
  | found (frame, size) ↦
      let frames' = frames ++ frame ∷ [] in
      let rest = frame_loop fuel (consumed + size) frames' (drop size sub) in
      if length sub == size
      then record { status = success; consumed = consumed + size; frames = frames' }
      else rest
]

pub frame_parse : List ℕ → FrameParseResult
frame_parse bytes = frame_loop (length bytes) 0 [] bytes

-- The eight bytes of the long length field, `(payloadSize >> shift) & 0xFF` from shift 56 down.
unfoldable pub long_length : ℕ → ℕ → List ℕ
long_length zero size = []
long_length (suc n) size = bit_and (size / 2 ^ (8 * n)) 0xFF ∷ long_length n size

unfoldable pub encode_length : ℕ → List ℕ
encode_length size =
    if leb size 125
    then size ∷ []
    else if leb size 65535
    then 126 ∷ bit_and (size / 2 ^ 8) 0xFF ∷ bit_and size 0xFF ∷ []
    else 127 ∷ long_length 8 size

unfoldable pub frame_encoder : Frame → List ℕ
frame_encoder frame =
    bit_or (if frame.fin then 0x80 else 0x00) (opcode_value frame.opcode)
      ∷ encode_length (length frame.payload)
    ++ frame.payload

-- To run the parser and the encoder in a test, unfold this one.
unfoldable pub codec : Unit {0}
unfolding frame_parse frame_loop parse_one parse_head parse_extent parse_extent16 parse_extent64
    rejected need refuse_if or_refuse unmask read_be opcode_of opcode_value is_close pending_status
    frame_encoder encode_length long_length
codec = tt
