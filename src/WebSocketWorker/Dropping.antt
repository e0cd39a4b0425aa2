-- ===== src/WebSocketWorker/Dropping.antt =====
-- Whatever the removal of a descriptor keeps of the callbacks and promises, the handlers keep.
use cpp_backend_server.Base.{
  ℕ, Bool, true, false, none, some, List, [], ◌∷◌, if_cases, option_cases, Bytes, find, contains,
  member,
}
use cpp_backend_server.Connection.{
  Sent, FlushResult, flushing, flushed, flushed_none, flush_again, flush_error, flush,
  has_pending_output,
}
use cpp_backend_server.Frame.{text, close}
use cpp_backend_server.WebSocketPool.{Uuid}
use cpp_backend_server.WebSocketHandler.{WebSocketSession, queue_frame, answer_with}
use cpp_backend_server.WebSocketWorker.{
  Worker, remove_session, modify_interest, set_write_interest, put_session, drained, after_flush,
  flush_session, handle_writable,
}
use cpp_backend_server.WebSocketWorker.Tasks.{
  send_text, target, push, close_session, Reply, for_device, without_device, for_client, reply,
  Answers, revoked_payload, start_sending, send_close, revoke_one, revoke_each,
}
use cpp_backend_server.WebSocketWorker.Events.{
  fds_where, is_expired, is_pinged, tick_sessions, remove_each, watch_each, handle_timer,
}
use cpp_backend_server.WebSocketWorker.Debts.{Debt, debt, drop_debt}

module _ (I : Debt → Type 0) (closed : (fd : ℕ) (d : Debt) → I d → I (drop_debt fd d)) where
  abbrev pub Keeps : Worker → Type 0
  Keeps w = I (debt w)

  pub remove_session-Keeps : (fd : ℕ) (w : Worker) → Keeps w → Keeps (remove_session fd w)
  unfolding remove_session
  remove_session-Keeps fd w h = closed fd (debt w) h

  pub set_write_interest-Keeps :
      (fd : ℕ) (enabled accepted : Bool) (w : Worker)
      → Keeps w
      → Keeps (set_write_interest fd enabled accepted w)
  unfolding set_write_interest modify_interest
  set_write_interest-Keeps fd enabled accepted w h =
      option_cases Keeps (find fd w.sessions) w (λ s. modify_interest fd enabled accepted w)
        (λ _. h)
        (λ _ _.
          if_cases Keeps accepted _ (remove_session fd w) (λ _. h)
            (λ _. remove_session-Keeps fd w h))

  drained-Keeps : (fd : ℕ) (accepted : Bool) (w : Worker) → Keeps w → Keeps (drained fd accepted w)
  unfolding drained
  drained-Keeps fd accepted w h =
      if_cases Keeps (member fd w.closing_sessions) (remove_session fd w)
        (set_write_interest fd false accepted w) (λ _. remove_session-Keeps fd w h)
        (λ _. set_write_interest-Keeps fd false accepted w h)

  after_flush-Keeps :
      (result : FlushResult) (fd : ℕ) (pending accepted : Bool) (w : Worker)
      → Keeps w
      → Keeps (after_flush result fd pending accepted w)
  unfolding after_flush
  after_flush-Keeps flushing fd pending accepted w h = h
  after_flush-Keeps flushed fd pending accepted w h =
      if_cases Keeps pending w (drained fd accepted w) (λ _. h) (λ _. drained-Keeps fd accepted w h)
  after_flush-Keeps flushed_none fd pending accepted w h =
      if_cases Keeps pending (remove_session fd w) (drained fd accepted w)
        (λ _. remove_session-Keeps fd w h) (λ _. drained-Keeps fd accepted w h)
  after_flush-Keeps flush_again fd pending accepted w h = h
  after_flush-Keeps flush_error fd pending accepted w h = remove_session-Keeps fd w h

  pub put_session-Keeps :
      (fd : ℕ) (s : WebSocketSession) (w : Worker) → Keeps w → Keeps (put_session fd s w)
  unfolding put_session
  put_session-Keeps fd s w h = h

  pub handle_writable-Keeps :
      (fd : ℕ) (sent : List Sent) (accepted : Bool) (w : Worker)
      → Keeps w
      → Keeps (handle_writable fd sent accepted w)
  unfolding handle_writable flush_session
  handle_writable-Keeps fd sent accepted w h =
      option_cases Keeps (find fd w.sessions) w (λ s. flush_session fd sent accepted s w) (λ _. h)
        (λ s _.
          let (result, c) = flush s.connection sent in
          let s' : WebSocketSession = record s { connection = c } in
          after_flush-Keeps result fd (has_pending_output c) accepted (put_session fd s' w)
            (put_session-Keeps fd s' w h))

  send_text-Keeps :
      (fd : ℕ) (message : Bytes) (accepted : Bool) (s : WebSocketSession) (w : Worker)
      → Keeps w
      → Keeps (send_text fd message accepted s w)
  unfolding send_text
  send_text-Keeps fd message accepted s w h =
      set_write_interest-Keeps fd true accepted _
        (put_session-Keeps fd (queue_frame (answer_with text message) s) w h)

  pub push-Keeps :
      (fd id : ℕ) (device : Uuid) (message : Bytes) (accepted : Bool) (w : Worker)
      → Keeps w
      → Keeps (push fd id device message accepted w)
  unfolding push
  push-Keeps fd id device message accepted w h =
      option_cases Keeps (target fd id (some device) w) w (λ s. send_text fd message accepted s w)
        (λ _. h) (λ s _. send_text-Keeps fd message accepted s w h)

  pub close_session-Keeps :
      (fd id : ℕ) (device : Uuid) (w : Worker) → Keeps w → Keeps (close_session fd id device w)
  unfolding close_session
  close_session-Keeps fd id device w h =
      option_cases Keeps (target fd id (some device) w) w (λ s. remove_session fd w) (λ _. h)
        (λ s _. remove_session-Keeps fd w h)

  pub reply-Keeps :
      (r : Reply) (fd id : ℕ) (accepted : Bool) (w : Worker)
      → Keeps w
      → Keeps (reply r fd id accepted w)
  unfolding reply
  reply-Keeps (for_device device message) fd id accepted w h = h
  reply-Keeps without_device fd id accepted w h = h
  reply-Keeps (for_client message) fd id accepted w h =
      option_cases Keeps (target fd id none w) w (λ s. send_text fd message accepted s w) (λ _. h)
        (λ s _. send_text-Keeps fd message accepted s w h)

  start_sending-Keeps : (fd : ℕ) (a : Answers) (w : Worker) → Keeps w → Keeps (start_sending fd a w)
  unfolding start_sending
  start_sending-Keeps fd a w h =
      handle_writable-Keeps fd a.sent a.then_accepted _
        (set_write_interest-Keeps fd true a.first_accepted w h)

  send_close-Keeps : (fd : ℕ) (a : Answers) (w : Worker) → Keeps w → Keeps (send_close fd a w)
  unfolding send_close
  send_close-Keeps fd a w h =
      option_cases Keeps (find fd w.sessions) (remove_session fd w) _
        (λ _. remove_session-Keeps fd w h)
        (λ s _.
          start_sending-Keeps fd a _
            (put_session-Keeps fd (queue_frame (answer_with close revoked_payload) s) w h))

  pub revoke_each-Keeps :
      (fds : List ℕ) (answers : ℕ → Answers) (w : Worker)
      → Keeps w
      → Keeps (revoke_each fds answers w)
  unfolding revoke_each revoke_one
  revoke_each-Keeps [] answers w h = h
  revoke_each-Keeps (fd ∷ rest) answers w h =
      revoke_each-Keeps rest answers (revoke_one fd (answers fd) w) (
        if_cases Keeps (contains fd w.revoke_deadlines) w _ (λ _. h)
          (λ _.
            if_cases Keeps (member fd w.closing_sessions) _ _
              (λ _. start_sending-Keeps fd (answers fd) _ h)
              (λ _. send_close-Keeps fd (answers fd) _ h)))

  remove_each-Keeps : (fds : List ℕ) (w : Worker) → Keeps w → Keeps (remove_each fds w)
  unfolding remove_each
  remove_each-Keeps [] w h = h
  remove_each-Keeps (fd ∷ rest) w h =
      remove_each-Keeps rest (remove_session fd w) (remove_session-Keeps fd w h)

  watch_each-Keeps :
      (fds : List ℕ) (accepted : ℕ → Bool) (w : Worker)
      → Keeps w
      → Keeps (watch_each fds accepted w)
  unfolding watch_each
  watch_each-Keeps [] accepted w h = h
  watch_each-Keeps (fd ∷ rest) accepted w h =
      watch_each-Keeps rest accepted (set_write_interest fd true (accepted fd) w)
        (set_write_interest-Keeps fd true (accepted fd) w h)

  pub handle_timer-Keeps :
      (now : ℕ) (accepted : ℕ → Bool) (w : Worker) → Keeps w → Keeps (handle_timer now accepted w)
  unfolding handle_timer
  handle_timer-Keeps now accepted w h =
      let ds = w.revoke_deadlines in
      watch_each-Keeps (fds_where is_pinged now ds w.sessions) accepted _ (
        remove_each-Keeps (fds_where is_expired now ds w.sessions)
          (record w { sessions = tick_sessions now ds w.sessions }) h)
