-- ===== src/Frame/Reading.antt =====
-- The parts of the loop body of `WebSocketSession::FrameParse` on what a client sends.
use Prim.Native.Nat.{bit_or}
use cpp_backend_server.Base.{
  ℕ, zero, suc, ◌+◌, ◌*◌, ◌/◌, ◌%◌, ◌^◌, ◌<◌, ◌≤◌, ◌≡◌, ◌≢◌, refl, sym, ap, ap₂, ◌∙◌, Bool, true,
  false, not, List, [], ◌∷◌, ◌++◌, ◌==◌, length, get_or, drop, bit_xor, bit_and, All, arith,
  bit_or_shifted, byte_masks, bit_xor_cancel, some, ◌⊎◌, inl, inr, drop-drop,
}
use cpp_backend_server.Frame.{
  Opcode, opcode_value, opcode_of, continuation, text, binary, close, ping, pong, Frame, found,
  need, refuse_if, or_refuse, byte, parse_head, parse_extent16, parse_extent64, parse_extent,
  rejected, is_close, read_be, unmask, max_payload_size, u64_mod,
}
use native.Mathlib.Nat.{add_assoc}
use native.Mathlib.Decide.{dec_le}
use cpp_backend_server.Frame.Legal.{IsLegal}
use cpp_backend_server.Frame.Wire.{bit, big_endian, xor_mask, IsByte}

opcode_of-opcode_value : (op : Opcode) → opcode_of (opcode_value op) ≡ some op
unfolding opcode_of opcode_value
opcode_of-opcode_value continuation = refl
opcode_of-opcode_value text = refl
opcode_of-opcode_value binary = refl
opcode_of-opcode_value close = refl
opcode_of-opcode_value ping = refl
opcode_of-opcode_value pong = refl

pub opcode_value-lt : (op : Opcode) → opcode_value op < 16
unfolding opcode_value
opcode_value-lt continuation = omega arith
opcode_value-lt text = omega arith
opcode_value-lt binary = omega arith
opcode_value-lt close = omega arith
opcode_value-lt ping = omega arith
opcode_value-lt pong = omega arith

-- The first byte keeps the opcode below, the three reserved bits clear and FIN on top.
first_byte_fields :
    (fin : Bool) (op : ℕ)
    → op < 16
    → let b = bit fin * 128 + op in
      (bit_and b 0x0f ≡ op) × (bit_and b 0x70 ≡ 0) × (not (bit_and b 0x80 == 0) ≡ fin)
first_byte_fields true op h =
    let m = byte_masks (1 * 128 + op) (omega arith) in
    (omega (arith, m.0), omega (arith, m.1), ground (arith, m.2))
first_byte_fields false op h =
    let m = byte_masks (0 * 128 + op) (omega arith) in
    (omega (arith, m.0), omega (arith, m.1), ground (arith, m.2))

pub parse_head_wire :
    (fin : Bool) (op : Opcode) (n : ℕ)
    → n < 128
    → parse_head (bit fin * 128 + opcode_value op) (128 + n)
      ≡ found (record { fin = fin; opcode = op; length7 = n })
unfolding parse_head refuse_if or_refuse
parse_head_wire fin op n h =
    let (low, reserved, top) = first_byte_fields fin (opcode_value op) (opcode_value-lt op) in
    let m = byte_masks (128 + n) (omega arith) in
    let masked : bit_and (128 + n) 0x80 ≡ 128 = omega (arith, m.2) in
    let len : bit_and (128 + n) 0x7f ≡ n = omega (arith, m.3) in
    rw (reserved, masked, low, top, len, opcode_of-opcode_value op) refl

-- One round of the length loop, while the value stays far below 64 bits.
be_round : (acc x : ℕ) → acc < 2 ^ 32 → x < 256 → bit_or (acc * 2 ^ 8 % u64_mod) x ≡ acc * 256 + x
be_round acc x h g =
    let e : acc * 2 ^ 8 % u64_mod ≡ acc * 2 ^ 8 = omega arith in rw e (bit_or_shifted 8 acc x g)

be_zero : (s : ℕ) → s ≡ 0 → bit_or 0 s ≡ 0
be_zero s e = rw e refl

-- The long form, for the lengths that the server accepts: five of its eight bytes are zero.
read_be_wire :
    (a b n : ℕ) (tail : List ℕ)
    → n ≤ max_payload_size
    → read_be 8 2 (a ∷ b ∷ big_endian 8 n ++ tail) 0 ≡ n
unfolding read_be
read_be_wire a b n tail h =
    let z7 : n / 2 ^ 56 % 256 ≡ 0 = omega arith in
    let z6 : n / 2 ^ 48 % 256 ≡ 0 = omega arith in
    let z5 : n / 2 ^ 40 % 256 ≡ 0 = omega arith in
    let z4 : n / 2 ^ 32 % 256 ≡ 0 = omega arith in
    let z3 : n / 2 ^ 24 % 256 ≡ 0 = omega arith in
    rw
      (
        z7,
        z6,
        z5,
        z4,
        z3,
        be_round 0 (n / 2 ^ 16 % 256) (omega arith) (omega arith),
        be_round (0 * 256 + n / 2 ^ 16 % 256) (n / 2 ^ 8 % 256) (omega arith) (omega arith),
        be_round ((0 * 256 + n / 2 ^ 16 % 256) * 256 + n / 2 ^ 8 % 256) (n / 2 ^ 0 % 256)
            (omega arith) (omega arith),
      )
      (omega arith)

pub parse_extent_short :
    (sub : List ℕ) (n : ℕ)
    → n ≤ 125
    → parse_extent sub n ≡ found (record { header_size = 2; payload_size = n })
unfolding parse_extent
parse_extent_short sub n h = ground arith

pub parse_extent_medium :
    (a b n : ℕ) (tail : List ℕ)
    → 125 < n
    → n ≤ 65535
    → parse_extent (a ∷ b ∷ big_endian 2 n ++ tail) 126
      ≡ found (record { header_size = 4; payload_size = n })
unfolding parse_extent parse_extent16 need refuse_if
parse_extent_medium a b n tail h g =
    let e : bit_or (n / 2 ^ 8 % 256 * 2 ^ 8) (n / 2 ^ 0 % 256) ≡ n =
      bit_or_shifted 8 (n / 2 ^ 8 % 256) (n / 2 ^ 0 % 256) (omega arith) ∙ omega arith in
    ground (arith, e)

pub parse_extent_long :
    (a b n : ℕ) (tail : List ℕ)
    → 65535 < n
    → n ≤ max_payload_size
    → parse_extent (a ∷ b ∷ big_endian 8 n ++ tail) 127
      ≡ found (record { header_size = 10; payload_size = n })
unfolding parse_extent parse_extent64 need refuse_if
parse_extent_long a b n tail h g =
    let e = read_be_wire a b n tail g in
    let z : n / 2 ^ 56 % 256 ≡ 0 = omega arith in rw (e, z) (ground arith)

get_or-drop : (n : ℕ) (xs : List ℕ) → get_or xs n 0 ≡ get_or (drop n xs) 0 0
get_or-drop zero xs = refl
get_or-drop (suc n) [] = refl
get_or-drop (suc n) (x ∷ xs) = get_or-drop n xs

All-get_or : (xs : List ℕ) (i : ℕ) → All IsByte xs → IsByte (get_or xs i 0)
All-get_or [] i h = omega arith
All-get_or (x ∷ xs) zero h = h.0
All-get_or (x ∷ xs) (suc i) h = All-get_or xs i h.1

-- Unmasking what was masked, wherever the two stand in the buffer.
pub unmask-xor_mask :
    (xs : List ℕ) (i mo po : ℕ) (sub mask rest : List ℕ)
    → drop (po + i) sub ≡ xor_mask i mask xs ++ rest
    → ((k : ℕ) → k < 4 → byte sub (mo + k) ≡ get_or mask k 0)
    → All IsByte mask
    → All IsByte xs
    → unmask (length xs) i mo po sub ≡ xs
unfolding unmask
unmask-xor_mask [] i mo po sub mask rest e k hm hx = refl
unmask-xor_mask (x ∷ xs) i mo po sub mask rest e k hm hx =
    let m = get_or mask (i % 4) 0 in
    let here : byte sub (po + i) ≡ bit_xor x m =
      get_or-drop (po + i) sub ∙ ap (λ t. get_or t 0 0) e in
    let next : drop (po + (i + 1)) sub ≡ xor_mask (i + 1) mask xs ++ rest =
      ap (λ t. drop t sub) (sym (add_assoc po i 1))
      ∙ sym (drop-drop 1 (po + i) sub)
      ∙ ap (drop 1) e in
    ap₂ (λ y ys. y ∷ ys)
      (ap₂ bit_xor here (k (i % 4) (omega arith))
        ∙ bit_xor_cancel 8 x m hx.0 (All-get_or mask (i % 4) hm))
      (unmask-xor_mask xs (i + 1) mo po sub mask rest next k hm hx.1)

pub length-xor_mask : (i : ℕ) (mask xs : List ℕ) → length (xor_mask i mask xs) ≡ length xs
length-xor_mask i mask [] = refl
length-xor_mask i mask (x ∷ xs) = ap suc (length-xor_mask (i + 1) mask xs)

control-rejected :
    (op : Opcode) (fin : Bool) (l n : ℕ)
    → op ≢ close ⊎ (l ≢ 1)
    → (fin ≡ true) × (l ≤ 125)
    → rejected (record { fin = fin; opcode = op; length7 = n }) l ≡ false
unfolding rejected is_close opcode_value
control-rejected close fin l n (inl d) c = absurd (d refl)
control-rejected _ fin l n d c = ground arith

data-rejected :
    (op : Opcode) (fin : Bool) (l n : ℕ)
    → opcode_value op < 8
    → l ≤ max_payload_size
    → rejected (record { fin = fin; opcode = op; length7 = n }) l ≡ false
unfolding rejected is_close opcode_value
data-rejected close fin l n d c = absurd (omega arith)
data-rejected _ fin l n d c = ground arith

close-or-not : (op : Opcode) (l : ℕ) → (op ≡ close → l ≢ 1) → (op ≢ close) ⊎ (l ≢ 1)
close-or-not close l h = inr (h refl)
close-or-not continuation l h = inl (λ e. cc)
close-or-not text l h = inl (λ e. cc)
close-or-not binary l h = inl (λ e. cc)
close-or-not ping l h = inl (λ e. cc)
close-or-not pong l h = inl (λ e. cc)

pub legal-rejected :
    (frame : Frame) (n : ℕ)
    → IsLegal frame
    → rejected
        (record { fin = frame.fin; opcode = frame.opcode; length7 = n })
        (length frame.payload)
      ≡ false
legal-rejected frame n h = elim (dec_le 8 (opcode_value frame.opcode)) [
  | yes c ↦
      control-rejected frame.opcode frame.fin _ n (close-or-not frame.opcode _ h.close_code)
        (h.control c)
  | no c ↦ data-rejected frame.opcode frame.fin _ n (omega arith) h.bounded
]
