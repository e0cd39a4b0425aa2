-- ===== src/WebSocketWorker/DroppingEvents.antt =====
-- The same for the events of a session's descriptor.
use cpp_backend_server.Base.{
  ℕ, ◌≡◌, refl, sym, subst, Bool, true, false, not, ◌&&◌, List, [], ◌∷◌, if◌then◌else◌, if_cases,
  option_cases, find, contains, member,
}
use cpp_backend_server.Connection.{Recv}
use cpp_backend_server.Frame.{Frame}
use cpp_backend_server.WebSocketHandler.{
  HandleStatus, messages_ready, needs_more_data, peer_left, protocol_error, io_error, HandleResult,
  Handling, reading, handled, handle_readable,
}
use cpp_backend_server.WebSocketWorker.{
  Worker, remove_session, set_write_interest, put_session, handle_writable,
}
use cpp_backend_server.WebSocketWorker.Events.{
  dispatch, settle, dispatch_and_settle, after_handling, take_handling, read_session, Flags,
  EventAnswers, after_output, after_input, after_reading, handle_event,
}
use cpp_backend_server.WebSocketWorker.Debts.{Debt, debt, drop_debt}
use cpp_backend_server.WebSocketWorker.Dropping.{
  Keeps, remove_session-Keeps, set_write_interest-Keeps, put_session-Keeps, handle_writable-Keeps,
}

dispatch-debt :
    (frames : List Frame) (fd session_id : ℕ) (accepts : Frame → Bool) (w : Worker)
    → debt (dispatch frames fd session_id accepts w).1 ≡ debt w
unfolding dispatch
dispatch-debt [] fd session_id accepts w = refl
dispatch-debt (frame ∷ rest) fd session_id accepts w =
    if_cases (λ (r : Bool × Worker). debt r.1 ≡ debt w) (accepts frame) _ (false, w)
      (λ _. dispatch-debt rest fd session_id accepts _) (λ _. refl)

module _ (I : Debt → Type 0) (closed : (fd : ℕ) (d : Debt) → I d → I (drop_debt fd d)) where
  settle-Keeps :
      (status : HandleStatus) (output_queued : Bool) (fd : ℕ) (w : Worker)
      → Keeps I closed w
      → Keeps I closed (settle status output_queued fd w)
  unfolding settle
  settle-Keeps messages_ready output_queued fd w h = h
  settle-Keeps needs_more_data output_queued fd w h = h
  settle-Keeps peer_left true fd w h = h
  settle-Keeps peer_left false fd w h = remove_session-Keeps I closed fd w h
  settle-Keeps protocol_error output_queued fd w h = remove_session-Keeps I closed fd w h
  settle-Keeps io_error output_queued fd w h = remove_session-Keeps I closed fd w h

  dispatch_and_settle-Keeps :
      (fd session_id : ℕ) (accepts : Frame → Bool) (r : HandleResult) (w : Worker)
      → Keeps I closed w
      → Keeps I closed (dispatch_and_settle fd session_id accepts r w).1
  unfolding dispatch_and_settle
  dispatch_and_settle-Keeps fd session_id accepts r w h =
      let (all, w') = dispatch r.frames fd session_id accepts w in
      let h' = subst I (sym (dispatch-debt r.frames fd session_id accepts w)) h in
      if_cases (λ (o : Bool × Worker). Keeps I closed o.1) all
        (true, settle r.status r.output_queued fd w') (false, w')
        (λ _. settle-Keeps r.status r.output_queued fd w' h') (λ _. h')

  take_handling-Keeps :
      (out : Handling) (fd : ℕ) (accepts : Frame → Bool) (accepted : Bool) (w : Worker)
      → Keeps I closed w
      → Keeps I closed (take_handling fd accepts accepted out w).1
  unfolding take_handling after_handling
  take_handling-Keeps (reading s r) fd accepts accepted w h = put_session-Keeps I closed fd s w h
  take_handling-Keeps (handled s r) fd accepts accepted w h =
      let w' = put_session fd s w in
      let h' = put_session-Keeps I closed fd s w h in
      let watched = set_write_interest fd true accepted w' in
      let k = set_write_interest-Keeps I closed fd true accepted w' h' in
      if_cases (λ (o : Bool × Worker). Keeps I closed o.1) r.output_queued _
        (dispatch_and_settle fd s.id accepts r w')
        (λ _.
          if_cases (λ (o : Bool × Worker). Keeps I closed o.1) (contains fd watched.sessions)
            (dispatch_and_settle fd s.id accepts r watched) (true, watched)
            (λ _. dispatch_and_settle-Keeps fd s.id accepts r watched k) (λ _. k))
        (λ _. dispatch_and_settle-Keeps fd s.id accepts r w' h')

  read_session-Keeps :
      (fd : ℕ) (answers : List (ℕ × Recv)) (accepts : Frame → Bool) (accepted : Bool) (w : Worker)
      → Keeps I closed w
      → Keeps I closed (read_session fd answers accepts accepted w).1
  unfolding read_session
  read_session-Keeps fd answers accepts accepted w h =
      if_cases (λ (o : Bool × Worker). Keeps I closed o.1) (contains fd w.revoke_deadlines)
        (true, w) _ (λ _. h)
        (λ _.
          option_cases (λ (o : Bool × Worker). Keeps I closed o.1) (find fd w.sessions) (true, w)
            (λ s. take_handling fd accepts accepted (handle_readable answers s) w) (λ _. h)
            (λ s _. take_handling-Keeps (handle_readable answers s) fd accepts accepted w h))

  after_output-Keeps :
      (fd : ℕ) (flags : Flags) (w : Worker)
      → Keeps I closed w
      → Keeps I closed (after_output fd flags w)
  unfolding after_output
  after_output-Keeps fd flags w h =
      if_cases (Keeps I closed) (contains fd w.sessions) _ w
        (λ _.
          if_cases (Keeps I closed) (flags.peer_shut_down && not (member fd w.closing_sessions))
            (remove_session fd w) w (λ _. remove_session-Keeps I closed fd w h) (λ _. h))
        (λ _. h)

  after_input-Keeps :
      (fd : ℕ) (flags : Flags) (a : EventAnswers) (w : Worker)
      → Keeps I closed w
      → Keeps I closed (after_input fd flags a w)
  unfolding after_input
  after_input-Keeps fd flags a w h =
      let written = handle_writable fd a.sent a.write_accepted w in
      if_cases (Keeps I closed) (contains fd w.sessions) _ w
        (λ _. after_output-Keeps fd flags (if flags.output then written else w) (
          if_cases (Keeps I closed) flags.output written w
            (λ _. handle_writable-Keeps I closed fd a.sent a.write_accepted w h) (λ _. h)))
        (λ _. h)

  after_reading-Keeps :
      (fd : ℕ) (flags : Flags) (a : EventAnswers) (r : Bool × Worker)
      → Keeps I closed r.1
      → Keeps I closed (after_reading fd flags a r)
  unfolding after_reading
  after_reading-Keeps fd flags a (returned, w) h =
      if_cases (Keeps I closed) returned (after_input fd flags a w) w
        (λ _. after_input-Keeps fd flags a w h) (λ _. h)

  pub handle_event-Keeps :
      (fd : ℕ) (flags : Flags) (accepts : Frame → Bool) (a : EventAnswers) (w : Worker)
      → Keeps I closed w
      → Keeps I closed (handle_event fd flags accepts a w)
  unfolding handle_event
  handle_event-Keeps fd flags accepts a w h =
      let read = read_session fd a.received accepts a.read_accepted w in
      if_cases (Keeps I closed) flags.error_or_hang_up (remove_session fd w) _
        (λ _. remove_session-Keeps I closed fd w h)
        (λ _.
          if_cases (Keeps I closed) flags.input (after_reading fd flags a read)
            (after_input fd flags a w)
            (λ _.
              after_reading-Keeps fd flags a read
                (read_session-Keeps fd a.received accepts a.read_accepted w h))
            (λ _. after_input-Keeps fd flags a w h))
