-- ===== src/Frame/RoundTrip.antt =====
-- `WebSocketSession::FrameParse` reads what a client sends.
use cpp_backend_server.Base.{
  ℕ, ◌+◌, ◌*◌, ◌<◌, ◌≤◌, ◌≡◌, refl, sym, subst, ap, ◌∙◌, Bool, true, List, [], ◌∷◌, ◌++◌, length,
  get_or, drop, All, arith, get_or-append, get_or-append_right, length-append, append_assoc, map,
  drop-drop, drop-length,
}
use cpp_backend_server.Frame.{
  Frame, found, need, refuse_if, byte, parse_head, parse_extent, unmask, mask_size, parse_one,
  frame_parse,
}
use native.Mathlib.Decide.{dec_le}
use cpp_backend_server.Frame.Stream.{shift, shift-shift, frame_parse_found, frame_parse-start}
use cpp_backend_server.Frame.Wire.{
  bit, big_endian, wire_length, xor_mask, first_byte, client_wire, IsSendable, client_stream,
}
use cpp_backend_server.Frame.Reading.{
  parse_head_wire, parse_extent_short, parse_extent_medium, parse_extent_long, unmask-xor_mask,
  length-xor_mask, legal-rejected,
}

-- From the header on, the three length forms are read alike.
parse_one_body :
    (frame : Frame) (hdr mask rest : List ℕ) (n : ℕ)
    → IsSendable frame mask
    → let sub = hdr ++ (mask ++ (xor_mask 0 mask frame.payload ++ rest)) in
      parse_head (byte sub 0) (byte sub 1)
        ≡ found (record { fin = frame.fin; opcode = frame.opcode; length7 = n })
      → parse_extent sub n
        ≡ found (record { header_size = length hdr; payload_size = length frame.payload })
      → 2 ≤ length hdr
      → parse_one sub ≡ found (frame, length hdr + 4 + length frame.payload)
unfolding parse_one need refuse_if
parse_one_body frame hdr mask rest n s head extent two =
    rw (head, extent, legal-rejected frame n s.legal, body) (ground (arith, whole))
  where
    sub : List ℕ
    sub = hdr ++ (mask ++ (xor_mask 0 mask frame.payload ++ rest))

    whole : length sub ≡ length hdr + 4 + length frame.payload + length rest
    whole = omega (
      arith,
      length-append hdr (mask ++ (xor_mask 0 mask frame.payload ++ rest)),
      length-append mask (xor_mask 0 mask frame.payload ++ rest),
      length-append (xor_mask 0 mask frame.payload) rest,
      length-xor_mask 0 mask frame.payload,
      s.key_size,
    )

    body : unmask (length frame.payload) 0 (length hdr) (length hdr + mask_size) sub ≡ frame.payload
    body =
        unmask-xor_mask frame.payload 0 (length hdr) (length hdr + mask_size) sub mask rest
          (ap (λ k. drop k sub) offset ∙ after_key) key s.key_bytes s.bytes
      where
        offset : length hdr + mask_size + 0 ≡ length hdr + 4
        offset = omega arith

        after_key : drop (length hdr + 4) sub ≡ xor_mask 0 mask frame.payload ++ rest
        after_key =
            sym (drop-drop 4 (length hdr) sub)
            ∙ ap (drop 4) (drop-length hdr _ (length hdr) refl)
            ∙ drop-length mask _ 4 (sym s.key_size)

        key : (k : ℕ) → k < 4 → byte sub (length hdr + k) ≡ get_or mask k 0
        key k h =
            get_or-append_right hdr _ k (length hdr + k) 0 refl
            ∙ get_or-append mask _ k 0 (omega (arith, s.key_size))

-- The same, bracketed as `client_wire` is.
framed :
    (frame : Frame) (hdr mask rest : List ℕ) (n : ℕ)
    → IsSendable frame mask
    → let sub = hdr ++ (mask ++ (xor_mask 0 mask frame.payload ++ rest)) in
      parse_head (byte sub 0) (byte sub 1)
        ≡ found (record { fin = frame.fin; opcode = frame.opcode; length7 = n })
      → parse_extent sub n
        ≡ found (record { header_size = length hdr; payload_size = length frame.payload })
      → 2 ≤ length hdr
      → let wire = hdr ++ (mask ++ xor_mask 0 mask frame.payload) in
        parse_one (wire ++ rest) ≡ found (frame, length wire)
framed frame hdr mask rest n s head extent two =
    ap parse_one (append_assoc hdr _ rest ∙ ap (λ t. hdr ++ t) (append_assoc mask _ rest))
    ∙ parse_one_body frame hdr mask rest n s head extent two
    ∙ ap (λ k. found (frame, k)) size
  where
    size :
        length hdr + 4 + length frame.payload
        ≡ length (hdr ++ (mask ++ xor_mask 0 mask frame.payload))
    size = omega (
      arith,
      length-append hdr (mask ++ xor_mask 0 mask frame.payload),
      length-append mask (xor_mask 0 mask frame.payload),
      length-xor_mask 0 mask frame.payload,
      s.key_size,
    )

wire_length_short : (b : Bool) (n : ℕ) → n ≤ 125 → (bit b * 128 + n) ∷ [] ≡ wire_length b n
wire_length_short b n h = ground arith

wire_length_medium :
    (b : Bool) (n : ℕ)
    → 125 < n
    → n ≤ 65535
    → (bit b * 128 + 126) ∷ big_endian 2 n ≡ wire_length b n
wire_length_medium b n h g = ground arith

wire_length_long :
    (b : Bool) (n : ℕ) → 65535 < n → (bit b * 128 + 127) ∷ big_endian 8 n ≡ wire_length b n
wire_length_long b n h = ground arith

-- The frame at the front of what a client sends is read, with its whole length.
parse_one-client_wire :
    (frame : Frame) (mask rest : List ℕ)
    → IsSendable frame mask
    → parse_one (client_wire frame mask ++ rest) ≡ found (frame, length (client_wire frame mask))
parse_one-client_wire frame mask rest s = elim (dec_le n 125) [
  | yes h ↦ subst Reads (wire_length_short true n h) (
      framed frame (first_byte frame ∷ (128 + n) ∷ []) mask rest n s
        (parse_head_wire frame.fin frame.opcode n (omega arith)) (parse_extent_short _ n h)
        (omega arith))
  | no h ↦ elim (dec_le n 65535) [
    | yes g ↦ subst Reads (wire_length_medium true n (omega arith) g) (
        framed frame (first_byte frame ∷ (128 + 126) ∷ big_endian 2 n) mask rest 126 s
          (parse_head_wire frame.fin frame.opcode 126 (omega arith))
          (parse_extent_medium _ _ n _ (omega arith) g) (omega arith))
    | no g ↦ subst Reads (wire_length_long true n (omega arith)) (
        framed frame (first_byte frame ∷ (128 + 127) ∷ big_endian 8 n) mask rest 127 s
          (parse_head_wire frame.fin frame.opcode 127 (omega arith))
          (parse_extent_long _ _ n _ (omega arith) s.legal.bounded) (omega arith))
  ]
]
  where
    n : ℕ
    n = length frame.payload

    Reads : List ℕ → Type 0
    Reads len =
        let wire = first_byte frame ∷ len ++ (mask ++ xor_mask 0 mask frame.payload) in
        parse_one (wire ++ rest) ≡ found (frame, length wire)

abbrev pub AllSendable : List (Frame × List ℕ) → Type 0
AllSendable = All (λ p. IsSendable p.0 p.1)

-- Whatever legal frames a client sends, under whatever masking keys, the parser hands on exactly
-- those frames in their order, and then goes on with the bytes `rest` behind them, which may be
-- empty or the beginning of another frame.
pub frame_parse-client_stream :
    (sent : List (Frame × List ℕ)) (rest : List ℕ)
    → AllSendable sent
    → frame_parse (client_stream sent ++ rest)
      ≡ shift (length (client_stream sent)) (map (λ p. p.0) sent) (frame_parse rest)
frame_parse-client_stream [] rest h = frame_parse-start rest
frame_parse-client_stream ((frame, mask) ∷ sent) rest (s, h) =
    let wire = client_wire frame mask in
    ap frame_parse (append_assoc wire (client_stream sent) rest)
    ∙ frame_parse_found _ frame (length wire)
        (parse_one-client_wire frame mask (client_stream sent ++ rest) s)
    ∙ ap (λ t. shift (length wire) (frame ∷ []) (frame_parse t))
        (drop-length wire (client_stream sent ++ rest) (length wire) refl)
    ∙ ap (shift (length wire) (frame ∷ [])) (frame_parse-client_stream sent rest h)
    ∙ shift-shift (length wire) (length (client_stream sent)) (frame ∷ []) _ _
    ∙ ap (λ k. shift k (frame ∷ map (λ p. p.0) sent) (frame_parse rest))
        (sym (length-append wire (client_stream sent)))
