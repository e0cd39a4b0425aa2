-- ===== src/WebSocketWorker/Tests.antt =====
-- Runs of a worker, and instances of its theorems.
use cpp_backend_server.Base.{
  false, erase, none, ◌≤◌, if_cases, Option, ap, sym, ◌∙◌, ◌<◌, ◌^◌, ◌==◌, length, set_insert, ℕ,
  ◌≡◌, refl, Bool, true, false, some, [], ◌∷◌, Bytes, find, assign, contains, member, codes, ◌⊎◌,
  arith,
}
use cpp_backend_server.Http.{HttpRequest, get}
use cpp_backend_server.Router.{AccessTokenResult, identity}
use cpp_backend_server.Connection.{
  received, would_block, read_round, is_open, consume_input, took, send_would_block, send_all,
  send_loop, is_empty, write, flush, flush_loop, has_pending_output,
}
use cpp_backend_server.Connection.Flushing.{has_pending_output-empty}
use cpp_backend_server.Frame.{codec, text, frame_encoder}
use cpp_backend_server.WebSocketHandler.{handler, WebSocketSession, queue_frame, answer_with}
use cpp_backend_server.WebSocketWorker.{
  Worker, remove_session, seconds, handle_writable, flush_session, after_flush, callbacks,
  set_write_interest, modify_interest, put_session,
}
use cpp_backend_server.WebSocketWorker.Tasks.{
  push, target, chosen, is_device, send_text, Answers, revoke_device, targets, revoke_targets,
  await_all, await_close, revoke_each, revoke_one, send_close, start_sending,
}
use cpp_backend_server.WebSocketWorker.Events.{
  handle_timer, Flags, EventAnswers, handle_event, after_reading, after_input, after_output,
  read_session, take_handling, after_handling, dispatch_and_settle, dispatch, settle,
}
use cpp_backend_server.WebSocketWorker.Accepting.{
  related, upgrades, handshake, accept_session, take_over, register, new_session,
}
use cpp_backend_server.WebSocketWorker.Accepting.Proved.{Proves, handshake-Proves}
use cpp_backend_server.WebSocketWorker.Slots.{slot_at, gone}
use cpp_backend_server.WebSocketWorker.Sane.{IsSane}
use cpp_backend_server.WebSocketWorker.Delivery.{IsTarget, push-IsTarget}
use cpp_backend_server.WebSocketWorker.Timer.{handle_timer-due}
use cpp_backend_server.WebSocketWorker.Debts.{count}
use cpp_backend_server.WebSocketWorker.Fulfilment.{Reach-Owes}
use cpp_backend_server.WebSocketWorker.Revoked.{handle_timer-fulfilled}
use cpp_backend_server.WebSocketWorker.System.{
  Reach, new_worker, takes_over, revokes, starts, steps, Reach-IsSane,
}

abbrev online : WebSocketSession
online = record {
  id = 7;
  user_id = 1;
  device_id = 2;
  connection = record { valid = true; state = true; input_buffer = []; output_buffer = [] };
  heartbeat = record { last_activity = 0; ping_sent_at = 0; waiting_for_pong = false; ping_id = 0 };
}

-- A worker with one session, at the descriptor 5.
abbrev busy : Worker
busy = record new_worker {
  sessions = (5, online) ∷ [];
  interests = (5, record { readable = true; writable = false }) ∷ [];
}

busy-IsSane : IsSane (slot_at 5 busy)
unfolding find member
busy-IsSane = (
  (λ p. absurd (cc (p, has_pending_output-empty online.connection refl)), λ p. absurd (cc p)),
  refl,
  refl,
)

pushed_session :
    find 5 (push 5 7 2 (104 ∷ 105 ∷ []) true busy).sessions
    ≡ some (queue_frame (answer_with text (104 ∷ 105 ∷ [])) online)
unfolding push target chosen is_device send_text set_write_interest modify_interest put_session find
    assign member contains
pushed_session = refl

push-IsTarget_example :
    (find 5 busy.sessions ≡ some (queue_frame (answer_with text (104 ∷ 105 ∷ [])) online))
    ⊎ ((s : WebSocketSession) × Path ℕ 5 5
        × IsTarget 5 7 (some 2) busy s
        × (queue_frame (answer_with text (104 ∷ 105 ∷ [])) online
            ≡ queue_frame (answer_with text (104 ∷ 105 ∷ [])) s))
push-IsTarget_example =
    push-IsTarget 5 7 2 (104 ∷ 105 ∷ []) true busy 5
      (queue_frame (answer_with text (104 ∷ 105 ∷ [])) online) busy-IsSane pushed_session

-- To run an event in a test, unfold this one.
events : Unit {0}
unfolding codec handler handle_event after_reading after_input after_output read_session
    take_handling after_handling dispatch_and_settle dispatch settle remove_session
    set_write_interest modify_interest put_session find assign erase member contains read_round
    is_open consume_input
events = tt

-- A text message arrives together with the end of the peer's output.
abbrev last_message : EventAnswers
last_message = record {
  received = (5, received 0x81 (0x80 ∷ 1 ∷ 2 ∷ 3 ∷ 4 ∷ [])) ∷ (6, would_block) ∷ [];
  read_accepted = true;
  sent = [];
  write_accepted = true;
}

abbrev readable_and_shut_down : Flags
readable_and_shut_down = record {
  error_or_hang_up = false;
  input = true;
  output = false;
  peer_shut_down = true;
}

abbrev after_last_message : Bool → Worker
after_last_message accepted =
    handle_event 5 readable_and_shut_down (λ frame. accepted) last_message busy

-- The session is removed, but not when its message is not dispatched.
removed_session : contains 5 (after_last_message true).sessions ≡ false
unfolding events
removed_session = refl

kept_session : contains 5 (after_last_message false).sessions ≡ true
unfolding events
kept_session = refl

-- The same session while it is revoked.
abbrev revoked : Worker
revoked = record busy {
  closing_sessions = 5 ∷ [];
  revoke_deadlines = (5, seconds 12) ∷ [];
  interests = (5, record { readable = false; writable = true }) ∷ [];
}

abbrev accepting : ℕ → Bool
accepting fd = true

revoked_session : find 5 revoked.sessions ≡ some online
unfolding find
revoked_session = refl

revoked_deadline : find 5 revoked.revoke_deadlines ≡ some (seconds 12)
unfolding find
revoked_deadline = refl

handle_timer-due_example : slot_at 5 (handle_timer (seconds 15) accepting revoked) ≡ gone
handle_timer-due_example =
    handle_timer-due (seconds 15) (seconds 12) 5 accepting online revoked revoked_session
      revoked_deadline (omega arith)

-- A connection is taken over, and its device is revoked while the peer takes no bytes.
abbrev taken : Worker
taken =
    accept_session 5 7 online.connection (upgrades 1 2 (72 ∷ []))
      (record { sent = took 0 ∷ []; nonblocking = true; added = true; now = 0 }) new_worker

abbrev revoking : ℕ → Answers
revoking fd = record {
  now = seconds 41;
  first_accepted = true;
  sent = send_would_block ∷ [];
  then_accepted = true;
}

abbrev revoked_worker : Worker
revoked_worker = revoke_device 1 2 3 revoking taken

-- To run a worker in a test, unfold this one.
runs : Unit {0}
unfolding accept_session take_over register new_session send_all send_loop is_empty write
    revoke_device targets revoke_targets await_all await_close revoke_each revoke_one send_close
    start_sending handle_writable flush_session after_flush flush flush_loop has_pending_output
    set_write_interest modify_interest put_session queue_frame frame_encoder find assign member
    contains set_insert callbacks
runs = tt

no_counter : find 3 taken.promises.remaining ≡ none
unfolding runs
no_counter = refl

no_value : member 3 taken.promises.fulfilled ≡ false
unfolding runs
no_value = refl

one_target : length (targets 1 2 taken.sessions) < 2 ^ 64
unfolding runs
one_target = omega arith

taken_reached : Reach taken
taken_reached = steps new_worker _ starts (
    takes_over 5 7 online.connection (upgrades 1 2 (72 ∷ []))
      (record { sent = took 0 ∷ []; nonblocking = true; added = true; now = 0 }) new_worker)

revoked_reached : Reach revoked_worker
revoked_reached =
    steps taken _ taken_reached (revokes 1 2 3 revoking taken no_counter no_value one_target)

-- The session waits with its deadline, and one callback with it.
one_callback : find 3 revoked_worker.promises.remaining ≡ some 1
unfolding runs
one_callback = refl

revoked_deadlines : revoked_worker.revoke_deadlines ≡ (5, seconds 43) ∷ []
unfolding runs
revoked_deadlines = refl

all_due : (fd t : ℕ) → find fd revoked_worker.revoke_deadlines ≡ some t → t ≤ seconds 45
unfolding find
all_due fd t e =
    let e' = ap (find fd) (sym revoked_deadlines) ∙ e in
    if_cases (λ (o : Option ℕ). o ≡ some t → t ≤ seconds 45) (5 == fd) (some (seconds 43)) none
      (λ _ f. let g : t ≡ seconds 43 = cc f in omega (arith, g)) (λ _ f. absurd (cc f)) e'

Reach-IsSane_example : IsSane (slot_at 5 revoked_worker)
Reach-IsSane_example = Reach-IsSane revoked_worker 5 revoked_reached

Reach-Owes_example :
    Path ℕ 1 (count 3 revoked_worker.close_completions)
    × (member 3 revoked_worker.promises.fulfilled ≡ (count 3 revoked_worker.close_completions == 0))
Reach-Owes_example = Reach-Owes revoked_worker 3 1 revoked_reached one_callback

handle_timer-fulfilled_example :
    member 3 (handle_timer (seconds 45) accepting revoked_worker).promises.fulfilled ≡ true
handle_timer-fulfilled_example =
    handle_timer-fulfilled (seconds 45) 3 1 accepting revoked_worker revoked_reached one_callback
      all_due

abbrev plain : Bytes → Bytes → Bytes
plain code message = message

abbrev known_user : Bytes → AccessTokenResult
known_user token = identity 1

abbrev upgrade_request : HttpRequest
upgrade_request = record {
  method = get;
  host = [];
  path = [];
  version = [];
  headers =
      (codes "authorization", codes "Bearer t")
      ∷ (codes "sec-websocket-key", codes "k")
      ∷ (codes "deviceid", codes "d")
      ∷ [];
  body = [];
}

handshake-Proves_example :
    Proves plain known_user
      (λ text. some 2)
      (λ user device. related true)
      (λ key. some key)
      upgrade_request
      (handshake plain known_user
        (λ text. some 2)
        (λ user device. related true)
        (λ key. some key)
        upgrade_request)
handshake-Proves_example =
    handshake-Proves plain known_user (λ text. some 2) (λ user device. related true)
      (λ key. some key) upgrade_request
