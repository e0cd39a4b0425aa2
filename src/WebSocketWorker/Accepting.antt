-- ===== src/WebSocketWorker/Accepting.antt =====
-- A connection that a worker takes over from the HTTP server: `acceptingSessions`, with
-- `SessionIdentityService::verifySessionIdentity` (src/service/SessionIdentityService.cpp).
pub mod Proved
use cpp_backend_server.Base.{
  ℕ, zero, suc, Bool, true, false, Option, none, some, List, [], ◌∷◌, ◌++◌, if◌then◌else◌, Bytes,
  codes, insert, assign, contains,
}
use cpp_backend_server.Http.{Headers, HttpRequest}
use cpp_backend_server.Http.Response.{
  HttpResponse, error_response, unauthorized, forbidden, switching_protocol, generate_http_response,
}
use cpp_backend_server.HttpSession.{equals_ignore_case}
use cpp_backend_server.Router.{
  AccessTokenResult, AuthResult, authenticated, un_authorized, expired, authenticate,
}
use cpp_backend_server.Connection.{
  Connection, Sent, Sending, sending, all_sent, send_threw, send_all,
}
use cpp_backend_server.Heartbeat.{Heartbeat}
use cpp_backend_server.WebSocketPool.{Uuid}
use cpp_backend_server.WebSocketHandler.{WebSocketSession}
use cpp_backend_server.WebSocketWorker.{Interest, IndexCall, adds, Worker}

-- What `UserRepository::VerifyUserDeviceRelation` returns or throws.
pub data Relation : Type 0 where
  related : Bool → Relation
  device_unknown device_inactive device_foreign other_error : Relation

pub data IdentityState : Type 0 where
  success no_such_device not_activated not_your_device : IdentityState

-- `SessionIdentityService::verifySessionIdentity`; `none` where it throws.
pub verify_session_identity : Relation → Option IdentityState
verify_session_identity (related true) = some success
verify_session_identity (related false) = none
verify_session_identity device_unknown = some no_such_device
verify_session_identity device_inactive = some not_activated
verify_session_identity device_foreign = some not_your_device
verify_session_identity other_error = none

-- `std::find_if` over the headers, the name compared without regard to case.
pub find_header : Bytes → Headers → Option Bytes
find_header expected [] = none
find_header expected ((name, value) ∷ rest) =
    if equals_ignore_case name expected then some value else find_header expected rest

-- How the handshake ends before the connection is touched: with a refusal, an exception, or the
-- user, the device and the bytes of the answer.
pub data Handshake : Type 0 where
  rejects : HttpResponse → Handshake
  throws : Handshake
  upgrades : Uuid → Uuid → Bytes → Handshake

-- The two headers that are set on each refusal.
closing_headers : HttpResponse → HttpResponse
closing_headers r = record r {
  headers =
      insert (codes "Connection") (codes "close")
        (insert (codes "Content-Type") (codes "application/json") r.headers);
}

pub switching_response : Bytes → HttpResponse
switching_response accept_value = record {
  status = switching_protocol;
  headers = insert (codes "Connection") (codes "Upgrade") (
      insert (codes "Sec-WebSocket-Accept") accept_value
        (insert (codes "Upgrade") (codes "websocket") []));
  body = [];
}

-- The JSON text of an error, the verification of a token, boost's reader of identifiers, the
-- repository, and the accept value that openssl computes.
module _ (dump : Bytes → Bytes → Bytes) (verify : Bytes → AccessTokenResult)
    (read_uuid : Bytes → Option Uuid) (relation : Uuid → Uuid → Relation)
    (accept_value : Bytes → Option Bytes) where
  forbid : Bytes → Bytes → Handshake
  forbid code message = rejects (closing_headers (error_response dump forbidden code message))

  answer_key : Uuid → Uuid → Option Bytes → Handshake
  answer_key user device none = throws
  answer_key user device (some value) =
      upgrades user device (generate_http_response (switching_response value))

  -- The `switch` over the state of the identity.
  answer_identity : Bytes → Uuid → Uuid → Option IdentityState → Handshake
  answer_identity key user device none = throws
  answer_identity key user device (some no_such_device) =
      forbid (codes "device_not_found") (codes "Device is not registered")
  answer_identity key user device (some not_activated) =
      forbid (codes "device_not_active") (codes "Device or account is not active")
  answer_identity key user device (some not_your_device) =
      forbid (codes "device_not_owned") (codes "Device does not belong to the authenticated user")
  answer_identity key user device (some success) = answer_key user device (accept_value key)

  answer_device : Bytes → Uuid → Option Uuid → Handshake
  answer_device key user none = throws
  answer_device key user (some device) =
      answer_identity key user device (verify_session_identity (relation user device))

  -- A header that is missing or empty ends in an exception.
  check_device : Bytes → Uuid → Option Bytes → Handshake
  check_device key user none = throws
  check_device key user (some []) = throws
  check_device key user (some (b ∷ bs)) = answer_device key user (read_uuid (b ∷ bs))

  check_key : Headers → Uuid → Option Bytes → Handshake
  check_key headers user none = throws
  check_key headers user (some []) = throws
  check_key headers user (some (b ∷ bs)) =
      check_device (b ∷ bs) user (find_header (codes "deviceID") headers)

  answer_token : HttpRequest → AuthResult → Handshake
  answer_token request expired = rejects (
      closing_headers (
        error_response dump unauthorized (codes "access_token_expired")
          (codes "Access token has expired")))
  answer_token request un_authorized = rejects (
      closing_headers (
        error_response dump unauthorized (codes "invalid_access_token")
          (codes "Invalid or missing access token")))
  answer_token request (authenticated user) =
      check_key request.headers user (find_header (codes "Sec-WebSocket-Key") request.headers)

  pub handshake : HttpRequest → Handshake
  handshake request = answer_token request (authenticate verify request)

-- What the system answers: `send`, `fcntl` and `EPOLL_CTL_ADD`; and the clock.
pub record AcceptAnswers : Type 0 where
  pub sent : List Sent
  pub nonblocking : Bool
  pub added : Bool
  pub now : ℕ

unfoldable pub new_session : ℕ → Uuid → Uuid → Connection → ℕ → WebSocketSession
new_session id user device c now = record {
  id = id;
  user_id = user;
  device_id = device;
  connection = c;
  heartbeat = record {
    last_activity = now;
    ping_sent_at = 0;
    waiting_for_pong = false;
    ping_id = 0;
  };
}

-- From the construction of the session on. Where an exception is thrown the session is destroyed,
-- and the map is as it was.
unfoldable pub register : ℕ → WebSocketSession → AcceptAnswers → Worker → Worker
register fd s a w =
    if contains fd w.sessions
    then w
    else if a.added
    then record w {
      sessions = assign fd s w.sessions;
      interests = assign fd (record { readable = true; writable = false }) w.interests;
      index_calls = w.index_calls ++ adds s.device_id s.user_id fd s.id ∷ [];
    }
    else w

unfoldable pub take_over : ℕ → ℕ → Uuid → Uuid → Sending → AcceptAnswers → Worker → Worker
take_over fd id user device (sending c out) a w = w
take_over fd id user device (all_sent c out) a w =
    if a.nonblocking then register fd (new_session id user device c a.now) a w else w
take_over fd id user device (send_threw c out) a w = w

-- `acceptingSessions` for the handshake of a connection's request, with the next session identifier.
-- A connection that is not taken over is closed by its destructor.
unfoldable pub accept_session : ℕ → ℕ → Connection → Handshake → AcceptAnswers → Worker → Worker
accept_session fd id c (rejects r) a w = w
accept_session fd id c throws a w = w
accept_session fd id c (upgrades user device response) a w =
    take_over fd id user device (send_all c response a.sent) a w
