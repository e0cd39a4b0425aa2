-- ===== src/Frame/Legal.antt =====
-- What the loop body of `WebSocketSession::FrameParse` has checked when it returns a frame.
use cpp_backend_server.Base.{
  ℕ, zero, suc, ◌+◌, ◌≤◌, ◌≡◌, ◌≢◌, refl, sym, subst, ap, ◌∙◌, List, length, arith, Bool, true,
  false,
}
use cpp_backend_server.Frame.{
  Scan, found, more, bad, ◌>>=◌, need, refuse_if, byte, parse_head, parse_extent, rejected, unmask,
  mask_size, parse_one, Frame, Head, opcode_value, close, is_close, max_payload_size,
}
use cpp_backend_server.Frame.Stage.{le_of_need}

bind-eq-found :
    {A B : Type 0} (m : Scan A) (k : A → Scan B) {b : B}
    → (m >>= k) ≡ found b
    → (a : A) × (m ≡ found a) × (k a ≡ found b)
bind-eq-found (found a) k e = (a, refl, e)
bind-eq-found more k e = cc
bind-eq-found bad k e = cc

-- What RFC 6455 and the server's own limit ask of a frame.
pub record IsLegal (frame : Frame) : Type 0 where
  pub bounded : length frame.payload ≤ max_payload_size
  pub control : 8 ≤ opcode_value frame.opcode → (frame.fin ≡ true) × (length frame.payload ≤ 125)
  pub close_code : frame.opcode ≡ close → length frame.payload ≢ 1

length-unmask : (n i mo po : ℕ) (sub : List ℕ) → length (unmask n i mo po sub) ≡ n
unfolding unmask
length-unmask zero i mo po sub = refl
length-unmask (suc n) i mo po sub = ap suc (length-unmask n (i + 1) mo po sub)

accepted_limits :
    (head : Head) (n : ℕ)
    → rejected head n ≡ false
    → (n ≤ max_payload_size)
      × (8 ≤ opcode_value head.opcode → (head.fin ≡ true) × (n ≤ 125))
      × (head.opcode ≡ close → n ≢ 1)
unfolding rejected is_close opcode_value
accepted_limits head n h = (ground arith, λ c. ground arith, λ c e. ground arith)

not-refused : (b : Bool) {u : Unit {0}} → refuse_if b ≡ found u → b ≡ false
unfolding refuse_if
not-refused true e = cc
not-refused false e = refl

-- What the loop body has checked when it returns a frame.
pub record IsParsed (sub : List ℕ) (frame : Frame) (size : ℕ) : Type 0 where
  pub legal : IsLegal frame
  pub fits : size ≤ length sub
  pub least : 4 ≤ size

abbrev Parsed : List ℕ → Scan (Frame × ℕ) → Type 0
Parsed sub (found (frame, size)) = IsParsed sub frame size
Parsed sub more = Unit
Parsed sub bad = Unit

unmask-IsLegal :
    (sub : List ℕ) (head : Head) (n mo po : ℕ)
    → rejected head n ≡ false
    → IsLegal (record { fin = head.fin; opcode = head.opcode; payload = unmask n 0 mo po sub })
unmask-IsLegal sub head n mo po r =
    let (b, c, d) = accepted_limits head n r in
    rw_length (unmask n 0 mo po sub) (length-unmask n 0 mo po sub) b c d
  where
    rw_length :
        (xs : List ℕ)
        → length xs ≡ n
        → n ≤ max_payload_size
        → (8 ≤ opcode_value head.opcode → (head.fin ≡ true) × (n ≤ 125))
        → (head.opcode ≡ close → n ≢ 1)
        → IsLegal (record { fin = head.fin; opcode = head.opcode; payload = xs })
    rw_length xs e b c d = record {
      bounded = omega arith;
      control = λ h. ((c h).0, omega (arith, (c h).1));
      close_code = λ h e'. d h (sym e ∙ e');
    }

pub parse_one-IsParsed :
    (sub : List ℕ) (frame : Frame) (size : ℕ)
    → parse_one sub ≡ found (frame, size)
    → IsParsed sub frame size
unfolding parse_one
parse_one-IsParsed sub frame size e =
    let (_, _, e1) = bind-eq-found (need sub 2) _ e in
    let (head, _, e2) = bind-eq-found (parse_head (byte sub 0) (byte sub 1)) _ e1 in
    let (extent, _, e3) = bind-eq-found (parse_extent sub head.length7) _ e2 in
    let (_, r, e4) = bind-eq-found (refuse_if (rejected head extent.payload_size)) _ e3 in
    let (_, _, e5) = bind-eq-found (need sub (extent.header_size + mask_size)) _ e4 in
    let (u, n, e6) =
      bind-eq-found (need sub (extent.header_size + mask_size + extent.payload_size)) _ e5 in
    subst (Parsed sub) e6 (record {
      legal = unmask-IsLegal sub head extent.payload_size _ _ (not-refused _ r);
      fits = le_of_need sub _ u n;
      least = omega arith;
    })
