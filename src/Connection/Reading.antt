-- ===== src/Connection/Reading.antt =====
-- What `Connection::read` and `Connection::consumeInput` do to the input buffer.
use cpp_backend_server.Base.{
  ℕ, zero, suc, true, ◌≤◌, ◌≡◌, refl, sym, ap, leb, leb→le, if_cases, [], ◌∷◌, ◌++◌, length, drop,
  Bytes, arith,
}
use cpp_backend_server.Connection.{
  Connection, received, read_bytes, read_round, is_open, consume_input,
}

drop-past : (n : ℕ) (xs : Bytes) → length xs ≤ n → drop n xs ≡ []
drop-past zero [] h = refl
drop-past zero (x ∷ xs) h = absurd (omega (arith, h))
drop-past (suc n) [] h = refl
drop-past (suc n) (x ∷ xs) h = drop-past n xs (omega (arith, h))

pub consume_input-drop :
    (c : Connection) (n : ℕ) → consume_input c n ≡ record c { input_buffer = drop n c.input_buffer }
unfolding consume_input
consume_input-drop c n =
    if_cases (λ (d : Connection). d ≡ record c { input_buffer = drop n c.input_buffer })
      (leb (length c.input_buffer) n) (record c { input_buffer = [] })
      (record c { input_buffer = drop n c.input_buffer })
      (λ e.
        ap (λ t. record c { input_buffer = t }) (sym (drop-past n c.input_buffer (leb→le _ _ e))))
      (λ e. refl)

pub read_round-received :
    (c : Connection) (b : ℕ) (bs : Bytes)
    → read_round c (received b bs)
      ≡ (read_bytes, record c { input_buffer = c.input_buffer ++ b ∷ bs })
unfolding read_round
read_round-received c b bs = refl

pub is_open-input :
    (c : Connection) (t : Bytes) → is_open (record c { input_buffer = t }) ≡ is_open c
unfolding is_open
is_open-input c t = refl

pub is_open-fresh :
    (input output : Bytes)
    → is_open (record { valid = true; state = true; input_buffer = input; output_buffer = output })
      ≡ true
unfolding is_open
is_open-fresh input output = refl
