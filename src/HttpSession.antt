-- ===== src/HttpSession.antt =====
-- One HTTP connection: `HttpSession` (src/http/HttpSession.cpp, include/http/HttpSession.h) between
-- `Connection`, `HttpParse` and the router. The router is a parameter that gives a response or
-- throws, and so is the JSON text of an error.
pub mod Chunks
pub mod Replies
pub mod Tests
use cpp_backend_server.Base.{
  ℕ, zero, suc, ◌+◌, Bool, true, false, not, ◌&&◌, ◌||◌, Option, none, some, List, [], ◌∷◌, ◌++◌,
  ltb, leb, ◌==◌, if◌then◌else◌, length, Bytes, codes, insert,
}
use cpp_backend_server.Http.{Headers, HttpRequest}
use cpp_backend_server.Http.Response.{
  HttpResponse, error_response, bad_request, service_unavailable, internal_server_error,
}
use cpp_backend_server.Parser.{
  HttpParse, ParseResult, need_more_data, complete, error, parse, take_request,
}
use cpp_backend_server.Connection.{
  Connection, Recv, ReadResult, retries, read_bytes, read_end, read_again, read_error, read_round,
  is_open, consume_input,
}

pub record HttpSession : Type 0 where
  pub connection : Connection
  pub parser : HttpParse

-- include/databases/DatabaseError.h
pub data DatabaseErrorKind : Type 0 where
  connection query constraint data_conversion : DatabaseErrorKind

-- What `router_.route` does.
pub data Routed : Type 0 where
  answered : HttpResponse → Routed
  database_error : DatabaseErrorKind → Routed
  handler_exception : Routed

pub data Outcome : Type 0 where
  -- In `recv`.
  waiting : HttpSession → Outcome
  -- `std::nullopt` without a reply.
  ended : Outcome
  -- The `std::runtime_error` of a failed read.
  read_failed : Outcome
  -- The responses that `sendAll` was called for, in their order; what it did with the last one ends
  -- the function, by `std::nullopt` or by its exception.
  replied : List HttpResponse → Outcome
  upgraded : Connection → HttpRequest → Outcome
  -- An exception of the parser; it has none to throw.
  broken : Outcome

-- `std::tolower` in the "C" locale.
pub to_lower : ℕ → ℕ
to_lower b = if leb 65 b && leb b 90 then b + 32 else b

pub equals_ignore_case : Bytes → Bytes → Bool
equals_ignore_case [] [] = true
equals_ignore_case (a ∷ left) (b ∷ right) =
    to_lower a == to_lower b && equals_ignore_case left right
equals_ignore_case _ _ = false

is_blank : ℕ → Bool
is_blank b = b == 32 || b == 9

trim_front : Bytes → Bytes
trim_front [] = []
trim_front (b ∷ bs) = if is_blank b then trim_front bs else b ∷ bs

-- The blanks at the end: a byte goes when it is blank and nothing is left behind it.
trim_back : Bytes → Bytes
trim_back [] = []
trim_back (b ∷ bs) = keep (trim_back bs)
  where
    keep : Bytes → Bytes
    keep [] = if is_blank b then [] else b ∷ []
    keep (c ∷ cs) = b ∷ c ∷ cs

-- The loop over the headers, which ends at the first `Upgrade`.
pub wants_websocket : Headers → Bool
wants_websocket [] = false
wants_websocket ((name, value) ∷ rest) =
    if equals_ignore_case name (codes "Upgrade")
    then equals_ignore_case (trim_back (trim_front value)) (codes "websocket")
    else wants_websocket rest

-- `response.headers["Connection"] = "close"`
pub closing : HttpResponse → HttpResponse
closing r = record r { headers = insert (codes "Connection") (codes "close") r.headers }

module _ (dump : Bytes → Bytes → Bytes) where
  pub parse_rejected : HttpResponse
  parse_rejected =
      error_response dump bad_request (codes "invalid_http_request") (codes "Invalid HTTP request")

  -- The responses of the two `catch` blocks.
  pub database_response : DatabaseErrorKind → HttpResponse
  database_response connection =
      error_response dump service_unavailable (codes "service_unavailable")
        (codes "Service unavailable")
  database_response query =
      error_response dump internal_server_error (codes "internal_server_error")
        (codes "Internal server error")
  database_response constraint =
      error_response dump internal_server_error (codes "internal_server_error")
        (codes "Internal Server Error")
  database_response data_conversion =
      error_response dump internal_server_error (codes "internal_server_error")
        (codes "Internal Server Error")

  pub exception_response : HttpResponse
  exception_response =
      error_response dump internal_server_error (codes "internal_server_error")
        (codes "Internal server error")

  pub response_of : Routed → HttpResponse
  response_of (answered r) = r
  response_of (database_error kind) = database_response kind
  response_of handler_exception = exception_response

  -- `sends` is whether `sendAll` returns, and does not throw, for the bytes of a response.
  module _ (sends : HttpResponse → Bool) (route : HttpRequest → Routed) where
    -- `sendAll` stands in the `try` that its own exception is caught by.
    reply : Routed → List HttpResponse
    reply (answered r) =
        if sends (closing r) then closing r ∷ [] else closing r ∷ closing exception_response ∷ []
    reply routed = closing (response_of routed) ∷ []

    serve : Connection → HttpRequest → Outcome
    serve c request =
        if wants_websocket request.headers
        then upgraded c request
        else replied (reply (route request))

    serve_taken : Connection → Option (HttpRequest × HttpParse) → Outcome
    serve_taken c none = broken
    serve_taken c (some (request, p)) = serve c request

    -- What follows a call of `parse`, with the outcome of the rounds to come.
    after_parse : Connection → Option (ParseResult × HttpParse) → (HttpSession → Outcome) → Outcome
    after_parse c none next = broken
    after_parse c (some (r, p)) next = elim r.status [
      | need_more_data ↦ next (record { connection = consume_input c r.consumed; parser = p })
      | error ↦ replied (closing parse_rejected ∷ [])
      | complete ↦ serve_taken (consume_input c r.consumed) (take_request p)
    ]

    after_read : HttpParse → ReadResult × Connection → (HttpSession → Outcome) → Outcome
    after_read p (retries, c) next = next (record { connection = c; parser = p })
    after_read p (read_bytes, c) next = after_parse c (parse p c.input_buffer) next
    after_read p (read_end, c) next = ended
    after_read p (read_again, c) next = read_failed
    after_read p (read_error, c) next = read_failed

    -- `HttpSession::HandleHttpSession`, over the results of `recv`.
    pub handle_http_session : List Recv → HttpSession → Outcome
    handle_http_session [] s = if is_open s.connection then waiting s else ended
    handle_http_session (r ∷ rest) s =
        if is_open s.connection
        then after_read s.parser (read_round s.connection r) (handle_http_session rest)
        else ended
