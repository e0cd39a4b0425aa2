-- ===== src/HttpSession/Replies.antt =====
-- What a session sends.
use cpp_backend_server.Base.{
  ℕ, true, false, ◌⊎◌, inl, inr, ◌≡◌, refl, ap, ◌∙◌, Bool, Option, none, some, List, [], ◌∷◌,
  eq_bytes_refl, lookup, lookup-insert, if◌then◌else◌, if_cases, Bytes, codes,
}
use cpp_backend_server.Http.{HttpRequest}
use cpp_backend_server.Http.Response.{HttpResponse}
use cpp_backend_server.Parser.{
  HttpParse, ParseStatus, ParseResult, need_more_data, complete, error, parse, take_request,
}
use cpp_backend_server.Connection.{
  Connection, Recv, ReadResult, retries, read_bytes, read_end, read_again, read_error, is_open,
}
use cpp_backend_server.HttpSession.{
  DatabaseErrorKind, HttpSession, Routed, answered, database_error, handler_exception, Outcome,
  waiting, ended, replied, upgraded, closing, reply, serve, serve_taken, wants_websocket,
  parse_rejected, database_response, response_of, exception_response, after_parse, after_read,
  handle_http_session,
}

abbrev pub SaysClose : HttpResponse → Type 0
SaysClose r = lookup (codes "Connection") r.headers ≡ some (codes "close")

closing-SaysClose : (r : HttpResponse) → SaysClose (closing r)
unfolding closing
closing-SaysClose r =
    lookup-insert (codes "Connection") (codes "Connection") (codes "close") r.headers
    ∙ ap (λ b. if b then some (codes "close") else lookup (codes "Connection") r.headers)
        (eq_bytes_refl (codes "Connection"))

module _ (dump : Bytes → Bytes → Bytes) where
  -- A response that the session has made, and no handler.
  abbrev pub IsOwn : HttpResponse → Type 0
  IsOwn r =
      (r ≡ closing (parse_rejected dump))
      ⊎ ((kind : DatabaseErrorKind) × (r ≡ closing (database_response dump kind)))
      ⊎ (r ≡ closing (exception_response dump))

  -- One response, which has been sent if a handler made it, or one whose sending failed and the
  -- error response behind it.
  abbrev pub IsReply : (HttpResponse → Bool) → List HttpResponse → Type 0
  IsReply sends [] = ⊥
  IsReply sends (r ∷ []) = SaysClose r × ((sends r ≡ true) ⊎ IsOwn r)
  IsReply sends (r ∷ s ∷ []) =
      SaysClose r × (sends r ≡ false) × SaysClose s × (s ≡ closing (exception_response dump))
  IsReply sends _ = ⊥

  abbrev pub IsClosing : (HttpResponse → Bool) → Outcome → Type 0
  IsClosing sends (replied rs) = IsReply sends rs
  IsClosing sends _ = Unit

module _ (dump : Bytes → Bytes → Bytes) (sends : HttpResponse → Bool)
    (route : HttpRequest → Routed) where
  reply-IsReply : (o : Routed) → IsReply dump sends (reply dump sends route o)
  unfolding reply response_of
  reply-IsReply (answered r) =
      if_cases (IsReply dump sends) (sends (closing r)) (closing r ∷ [])
        (closing r ∷ closing (exception_response dump) ∷ []) (λ e. (closing-SaysClose r, inl e))
        (λ e. (closing-SaysClose r, e, closing-SaysClose (exception_response dump), refl))
  reply-IsReply (database_error kind) = (closing-SaysClose _, inr (inr (inl (kind, refl))))
  reply-IsReply handler_exception = (closing-SaysClose _, inr (inr (inr refl)))

  serve_taken-IsClosing :
      (c : Connection) (o : Option (HttpRequest × HttpParse))
      → IsClosing dump sends (serve_taken dump sends route c o)
  unfolding serve_taken serve
  serve_taken-IsClosing c none = tt
  serve_taken-IsClosing c (some (request, p)) =
      if_cases (IsClosing dump sends) (wants_websocket request.headers) (upgraded c request)
        (replied (reply dump sends route (route request))) (λ e. tt)
        (λ e. reply-IsReply (route request))

  after_parse-IsClosing :
      (c : Connection) (st : ParseStatus) (n : ℕ) (p : HttpParse) (next : HttpSession → Outcome)
      → ((s : HttpSession) → IsClosing dump sends (next s))
      → IsClosing dump sends
          (after_parse dump sends route c (some (record { status = st; consumed = n }, p)) next)
  unfolding after_parse
  after_parse-IsClosing c need_more_data n p next h = h _
  after_parse-IsClosing c complete n p next h = serve_taken-IsClosing _ (take_request p)
  after_parse-IsClosing c error n p next h =
      (closing-SaysClose (parse_rejected dump), inr (inl refl))

  after_read-IsClosing :
      (p : HttpParse) (r : ReadResult) (c : Connection) (next : HttpSession → Outcome)
      → ((s : HttpSession) → IsClosing dump sends (next s))
      → IsClosing dump sends (after_read dump sends route p (r, c) next)
  unfolding after_read after_parse
  after_read-IsClosing p retries c next h = h _
  after_read-IsClosing p read_bytes c next h = after_parsed (parse p c.input_buffer)
    where
      after_parsed :
          (o : Option (ParseResult × HttpParse))
          → IsClosing dump sends (after_parse dump sends route c o next)
      after_parsed none = tt
      after_parsed (some (r, q)) = after_parse-IsClosing c r.status r.consumed q next h
  after_read-IsClosing p read_end c next h = tt
  after_read-IsClosing p read_again c next h = tt
  after_read-IsClosing p read_error c next h = tt

  -- Whatever the client sends and the handlers do, a session that replies calls `sendAll` for one
  -- response, which has gone out or is an error response of its own, or for two: one whose sending
  -- failed and the internal server error behind it. Each says `Connection: close`.
  pub handle_http_session-IsClosing :
      (reads : List Recv) (s : HttpSession)
      → IsClosing dump sends (handle_http_session dump sends route reads s)
  unfolding handle_http_session
  handle_http_session-IsClosing [] s =
      if_cases (IsClosing dump sends) (is_open s.connection) (waiting s) ended (λ e. tt) (λ e. tt)
  handle_http_session-IsClosing (r ∷ rest) s =
      if_cases (IsClosing dump sends) (is_open s.connection) _ ended
        (λ e. after_read-IsClosing s.parser _ _ _ (handle_http_session-IsClosing rest)) (λ e. tt)
