-- ===== src/HttpSession/Tests.antt =====
-- The witnesses of the properties of `HttpSession`.
use cpp_backend_server.Base.{
  insert, eq_bytes, find_byte, ◌≡◌, refl, false, ◌++◌, codes, true, Bool, [], ◌∷◌, Bytes,
}
use cpp_backend_server.Http.{HttpRequest}
use cpp_backend_server.Http.Response.{error_response, HttpResponse, ok}
use cpp_backend_server.Parser.{parser, request_line}
use cpp_backend_server.Parser.Tests.{reading, half_waits}
use cpp_backend_server.Connection.{
  is_open, consume_input, read_round, Connection, received, peer_closed,
}
use cpp_backend_server.Connection.Reading.{is_open-fresh}
use cpp_backend_server.HttpSession.{
  after_read, after_parse, serve_taken, serve, reply, response_of, wants_websocket,
  equals_ignore_case, to_lower, trim_front, trim_back, is_blank, HttpSession, Routed, answered,
  replied, closing, exception_response, handle_http_session,
}
use cpp_backend_server.HttpSession.Chunks.{handle_http_session-chunks}
use cpp_backend_server.HttpSession.Replies.{IsClosing, handle_http_session-IsClosing}

abbrev socket : Connection
socket = record { valid = true; state = true; input_buffer = []; output_buffer = [] }

abbrev plain : Bytes → Bytes → Bytes
plain code message = message

abbrev always : HttpResponse → Bool
always r = true

abbrev fine : HttpRequest → Routed
fine request = answered (record { status = ok; headers = []; body = request.path })

abbrev session : HttpSession
session = record { connection = socket; parser = reading }

handle_http_session-chunks_example :
    handle_http_session plain always fine
      (received 72 (111 ∷ []) ∷ received 115 (116 ∷ []) ∷ peer_closed ∷ [])
      session
    ≡ handle_http_session plain always fine
        (received 72 (111 ∷ 115 ∷ 116 ∷ []) ∷ peer_closed ∷ [])
        session
handle_http_session-chunks_example =
    handle_http_session-chunks plain always fine socket reading reading 72 115 (111 ∷ []) (116 ∷ [])
      0 (peer_closed ∷ []) (is_open-fresh [] []) (λ e. absurd (cc e)) half_waits

-- The sending of a handler's response fails.
abbrev refuses_ok : HttpResponse → Bool
refuses_ok r = elim r.status [ ok ↦ false | _ ↦ true ]

abbrev request_text : Bytes
request_text = codes "ET / HTTP/1.1" ++ 13 ∷ 10 ∷ codes "Host: a" ++ 13 ∷ 10 ∷ 13 ∷ 10 ∷ []

abbrev fresh : HttpSession
fresh = record { connection = socket; parser = record reading { state = request_line } }

two_replies :
    handle_http_session plain refuses_ok fine (received 71 request_text ∷ []) fresh
    ≡ replied (
        closing (record { status = ok; headers = []; body = codes "/" })
        ∷ closing (exception_response plain)
        ∷ [])
unfolding parser is_open consume_input read_round error_response insert handle_http_session
    after_read after_parse serve_taken serve reply response_of closing exception_response
    wants_websocket equals_ignore_case to_lower trim_front trim_back is_blank eq_bytes find_byte
two_replies = refl

handle_http_session-IsClosing_example :
    IsClosing plain refuses_ok
      (handle_http_session plain refuses_ok fine (received 71 request_text ∷ []) fresh)
handle_http_session-IsClosing_example =
    handle_http_session-IsClosing plain refuses_ok fine (received 71 request_text ∷ []) fresh
