-- ===== src/HttpSession/Chunks.antt =====
-- A session does not depend on how the network cuts a request.
use cpp_backend_server.Base.{
  ℕ, ◌+◌, ◌≡◌, refl, sym, ap, ◌∙◌, Bool, true, List, ◌∷◌, ◌++◌, append_assoc, drop, drop-append,
  drop-drop, Bytes, arith,
}
use cpp_backend_server.Http.{HttpRequest}
use cpp_backend_server.Http.Response.{HttpResponse}
use cpp_backend_server.Parser.{
  HttpParse, ParseStatus, need_more_data, complete, error, parse, request_line, take_request,
}
use cpp_backend_server.Parser.Same.{HasSpaces}
use cpp_backend_server.Parser.Unique.{outcome, parse-within}
use cpp_backend_server.Parser.Run.{parse-Returns}
use cpp_backend_server.Parser.Resume.{parse-append}
use cpp_backend_server.Connection.{Connection, Recv, received, is_open, consume_input}
use cpp_backend_server.Connection.Reading.{consume_input-drop, read_round-received, is_open-input}
use cpp_backend_server.HttpSession.{
  HttpSession, Routed, Outcome, after_parse, after_read, handle_http_session, serve_taken,
}

module _ (dump : Bytes → Bytes → Bytes) (sends : HttpResponse → Bool)
    (route : HttpRequest → Routed) where
  -- A session that is open, and whose next bytes come.
  handle-received :
      (c : Connection) (p : HttpParse) (b : ℕ) (bs : Bytes) (rest : List Recv)
      → is_open c ≡ true
      → handle_http_session dump sends route
          (received b bs ∷ rest)
          (record { connection = c; parser = p })
        ≡ after_parse dump sends route
            (record c { input_buffer = c.input_buffer ++ b ∷ bs })
            (parse p (c.input_buffer ++ b ∷ bs))
            (handle_http_session dump sends route rest)
  unfolding handle_http_session after_read
  handle-received c p b bs rest e = rw (e, read_round-received c b bs) refl

  consume_same :
      (c : Connection) (x y : Bytes) (n m : ℕ)
      → drop n x ≡ drop m y
      → consume_input (record c { input_buffer = x }) n
        ≡ consume_input (record c { input_buffer = y }) m
  consume_same c x y n m e =
      consume_input-drop (record c { input_buffer = x }) n
      ∙ ap (λ t. record c { input_buffer = t }) e
      ∙ sym (consume_input-drop (record c { input_buffer = y }) m)

  -- What follows the parser depends on the bytes that are left only.
  after_parse-drop :
      (st : ParseStatus) (c : Connection) (x y : Bytes) (n m : ℕ) (q : HttpParse)
      (next : HttpSession → Outcome)
      → drop n x ≡ drop m y
      → after_parse dump sends route (record c { input_buffer = x }) (outcome st n q) next
        ≡ after_parse dump sends route (record c { input_buffer = y }) (outcome st m q) next
  unfolding after_parse
  after_parse-drop need_more_data c x y n m q next e =
      ap (λ k. next (record { connection = k; parser = q })) (consume_same c x y n m e)
  after_parse-drop complete c x y n m q next e =
      ap (λ k. serve_taken dump sends route k (take_request q)) (consume_same c x y n m e)
  after_parse-drop error c x y n m q next e = refl

  after_parse-waits :
      (c : Connection) (x : Bytes) (n : ℕ) (q : HttpParse) (next : HttpSession → Outcome)
      → after_parse dump sends route
          (record c { input_buffer = x })
          (outcome need_more_data n q)
          next
        ≡ next (record { connection = record c { input_buffer = drop n x }; parser = q })
  unfolding after_parse
  after_parse-waits c x n q next =
      ap (λ k. next (record { connection = k; parser = q }))
        (consume_input-drop (record c { input_buffer = x }) n)

  -- Two reads of an open session whose first one leaves the parser waiting end as one read of all
  -- their bytes does: with the same reply, the same upgrade or the same state to go on from. While
  -- the request line is read this takes that its spaces stand before its CRLF in the first part.
  pub handle_http_session-chunks :
      (c : Connection) (p q : HttpParse) (a b : ℕ) (xs bs : Bytes) (n : ℕ) (rest : List Recv)
      → is_open c ≡ true
      → (p.state ≡ request_line → HasSpaces (c.input_buffer ++ a ∷ xs))
      → parse p (c.input_buffer ++ a ∷ xs) ≡ outcome need_more_data n q
      → handle_http_session dump sends route
          (received a xs ∷ received b bs ∷ rest)
          (record { connection = c; parser = p })
        ≡ handle_http_session dump sends route
            (received a (xs ++ b ∷ bs) ∷ rest)
            (record { connection = c; parser = p })
  handle_http_session-chunks c p q a b xs bs n rest open_now ready first =
      let x = c.input_buffer ++ a ∷ xs in
      let next = handle_http_session dump sends route rest in
      let r = parse-Returns q (drop n x ++ b ∷ bs) in
      let second : parse q (drop n x ++ b ∷ bs) ≡ outcome r.status r.taken r.final =
        r.returned ∙ ap (λ k. outcome r.status k r.final) (omega arith) in
      let whole : parse p (x ++ b ∷ bs) ≡ outcome r.status (n + r.taken) r.final =
        parse-append p q r.final x (b ∷ bs) r.status n r.taken ready first second in
      let left =
        handle-received c p a xs (received b bs ∷ rest) open_now
        ∙ ap
            (λ o.
              after_parse dump sends route (record c { input_buffer = x }) o
                (handle_http_session dump sends route (received b bs ∷ rest)))
            first
        ∙ after_parse-waits c x n q (handle_http_session dump sends route (received b bs ∷ rest))
        ∙ handle-received (record c { input_buffer = drop n x }) q b bs rest
            (is_open-input c (drop n x) ∙ open_now)
        ∙ ap
            (λ o.
              after_parse dump sends route (record c { input_buffer = drop n x ++ b ∷ bs }) o next)
            second in
      let right =
        handle-received c p a (xs ++ b ∷ bs) rest open_now
        ∙ ap (λ t. after_parse dump sends route (record c { input_buffer = t }) (parse p t) next)
            (sym (append_assoc c.input_buffer (a ∷ xs) (b ∷ bs)))
        ∙ ap (λ o. after_parse dump sends route (record c { input_buffer = x ++ b ∷ bs }) o next)
            whole in
      left
      ∙ after_parse-drop r.status c (drop n x ++ b ∷ bs) (x ++ b ∷ bs) r.taken (n + r.taken) r.final
          next
          (ap (drop r.taken)
              (sym (drop-append n x (b ∷ bs) (parse-within p q x need_more_data n first)))
            ∙ drop-drop r.taken n (x ++ b ∷ bs))
      ∙ sym right
