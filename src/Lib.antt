-- ===== src/Lib.antt =====
-- A verification library of the chat server's core.
--
-- The server accepts connections (src/server/ThreadPool.cpp), reads HTTP requests from each
-- (src/http/HttpSession.cpp over src/server/Connection.cpp and src/http/HttpParse.cpp), and gives
-- them to the router (src/handler/Router.cpp with src/http/AuthMiddleWare.cpp), or hands an upgraded
-- connection to a WebSocket worker (src/websocket/WebSocketPool.cpp), which parses and writes frames
-- (src/websocket/WebSocketSession.cpp). Handlers run in business threads
-- (src/service/ServiceThreadPool.cpp), store messages (src/service/ChatService.cpp) and borrow
-- PostgreSQL connections (src/databases/DatabasePool.cpp).
--
-- Files:
--   Base: tests on numbers, lists, bit operations and byte strings that all parts share.
--   Frame: `FrameParse` is `frame_parse`, with `parse_one` for the body of its loop and `Scan` for
--     its early returns; `FrameEncoder` is `frame_encoder`. Frame/Wire writes the format of
--     RFC 6455 down apart from the code.
--   Http, Http/Response: include/http/HttpRequest.h, include/http/HttpResponse.h, the error
--     responses and `HttpResponseGenerator`.
--   Parser: `HttpParse`; `parse_round` is one round of the `switch`, `parse_loop` the loop.
--   DatabasePool: one function for each critical section; DatabasePool/Maintenance is a round of the
--     maintenance thread, DatabasePool/System puts the sections of all threads into an order.
--   Connection: the buffers, and the loops over the results of `recv` and `send`.
--   HttpSession: `HandleHttpSession` over the results of `recv`.
--   Router: both route tables, and both overloads of `authenticate`.
--   WebSocketHandler: `WebSocketMessageHandler`; `handle_bytes` is what follows a read, and
--     `handle_loop` the loop over the results of `recv`. WebSocketHandler/Frames describes a list
--     of frames apart from the code.
--   WebSocketWorker: one worker's maps, `removeSession`, `setWriteInterest` and `handleWritable`;
--     WebSocketWorker/Tasks has the tasks that other threads hand to it, WebSocketWorker/Events the
--     events of its loop, WebSocketWorker/Accepting the handshake, WebSocketWorker/Mailbox the queues
--     from other threads. WebSocketWorker/Slots gathers what
--     is kept of one descriptor, WebSocketWorker/Debts counts the callbacks of revocations, and
--     WebSocketWorker/System puts the events into an order.
--   WebSocketPool: the directory of online devices and the turn of the workers.
--   ThreadPool, ServiceThreadPool: one function for each critical section.
--   ChatService: `newTextMessage`, with its guard and its retries.
--   Login: `loginByEmail`, `LoginTicketService` (src/service/LoginTicketService.cpp) and `validate`
--     of src/Auth/RefreshTokenService.cpp.
--   UniqueFd: the owners of descriptors and their calls of `close` (src/common/UniqueFd.cpp).
--   KeyService: the guards in front of the key repository (src/service/KeyService.cpp).
--   Heartbeat: the timers of a WebSocket session.
--
-- Numbers are natural numbers; where the code's `std::size_t` wraps around, as in the bounds of
-- the request line and in the counter of the workers, the modulus is written out. A map is a list of
-- pairs in the order of insertion.
--
-- Fuel: `frame_loop` is given the length of the buffer, since each frame takes bytes;
-- `parse_loop` the length and two, since each round but the one of an empty body takes a byte;
-- `reap` the length of the queue, since its bound falls or its index rises in each round.
--
-- Parameters: the verification of a token, the JSON text of an error, the handlers, the repository,
-- and what the system calls and libpq answer. Not modelled: the set-up of a WebSocket worker, the
-- dispatcher, the request handlers, the other services, the
-- repositories and the start-up. The accept value of a handshake, its digest and the reading of an
-- identifier are parameters, since openssl and boost compute them.
pub mod Base
pub mod Frame
pub mod Http
pub mod Parser
pub mod DatabasePool
pub mod Router
pub mod WebSocketPool
pub mod Connection
pub mod HttpSession
pub mod ServiceThreadPool
pub mod ThreadPool
pub mod ChatService
pub mod KeyService
pub mod Heartbeat
pub mod WebSocketHandler
pub mod WebSocketWorker
pub mod Login
pub mod UniqueFd
