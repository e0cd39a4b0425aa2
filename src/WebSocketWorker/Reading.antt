-- ===== src/WebSocketWorker/Reading.antt =====
-- An event of a session's descriptor keeps that descriptor sane and touches no other one.
use cpp_backend_server.Base.{
  ℕ, ◌≡◌, refl, sym, ap, ◌∙◌, subst, Bool, true, false, not, ◌&&◌, Option, none, some, List, [],
  ◌∷◌, if_cases, option_cases, find, contains, member, set_insert,
}
use cpp_backend_server.Connection.{Recv}
use cpp_backend_server.Connection.Flushing.{has_pending_output-same}
use cpp_backend_server.Frame.{Frame}
use cpp_backend_server.WebSocketHandler.{
  WebSocketSession, HandleStatus, messages_ready, needs_more_data, peer_left, protocol_error,
  io_error, HandleResult, Handling, reading, handled, handle_readable, new_result,
}
use cpp_backend_server.WebSocketHandler.Returns.{ReturnsQuiet, ends, handle_readable-ReturnsQuiet}
use cpp_backend_server.WebSocketWorker.{
  Interest, Worker, remove_session, modify_interest, set_write_interest, put_session,
  handle_writable,
}
use cpp_backend_server.WebSocketWorker.Events.{
  dispatch, settle, dispatch_and_settle, after_handling, take_handling, read_session, Flags,
  EventAnswers, after_output, after_input, after_reading, handle_event,
}
use cpp_backend_server.WebSocketWorker.Slots.{
  Slot, slot_at, slot_at-closing, closing-Only, put_session-Only, slot_at-interest,
  slot_at-remove_session,
}
use cpp_backend_server.WebSocketWorker.Sane.{
  SaneParts, IsSane, IsKept, IsSane-IsKept, Serves, remove_session-Serves, asks_for_output,
}
use cpp_backend_server.WebSocketWorker.Output.{
  Serves-itself, Only-Serves, put_session-IsSane, put_session-IsKept, handle_writable-Serves,
  find-put_session,
}

dispatch-slots :
    (frames : List Frame) (fd session_id : ℕ) (accepts : Frame → Bool) (w : Worker) (j : ℕ)
    → slot_at j (dispatch frames fd session_id accepts w).1 ≡ slot_at j w
unfolding dispatch
dispatch-slots [] fd session_id accepts w j = refl
dispatch-slots (frame ∷ rest) fd session_id accepts w j =
    if_cases (λ (r : Bool × Worker). slot_at j r.1 ≡ slot_at j w) (accepts frame) _ (false, w)
      (λ _. dispatch-slots rest fd session_id accepts _ j) (λ _. refl)

-- The interest of `fd`, if it has one, asks for output.
abbrev Asks : Slot → Type 0
Asks v = (i : Interest) → v.interest ≡ some i → i.writable ≡ true

closed :
    (s : WebSocketSession) (c : Bool) (d : Option ℕ) (q : Option (List ℕ)) (i : Option Interest)
    → ((j : Interest) → i ≡ some j → j.writable ≡ true)
    → SaneParts (some s) c d q i
    → SaneParts (some s) true d q i
closed s c d q none a h = elim h [ ]
closed s c none q (some i) a h = ((h.0.0, λ _. a i refl), h.1, h.2)
closed s c (some t) q (some i) a h = ((h.0.0, λ _. a i refl), h.1, refl)

pub closing-Serves :
    (fd : ℕ) (s : WebSocketSession) (w : Worker)
    → find fd w.sessions ≡ some s
    → Asks (slot_at fd w)
    → IsSane (slot_at fd w)
    → Serves fd w (record w { closing_sessions = set_insert fd w.closing_sessions })
closing-Serves fd s w e a h =
    let c = member fd w.closing_sessions in
    let d = find fd w.revoke_deadlines in
    let q = find fd w.close_completions in
    let i = find fd w.interests in
    record {
      only = closing-Only fd w;
      sane_after = subst IsSane (sym (slot_at-closing fd w)) (
          subst (λ o. SaneParts o true d q i) (sym e)
            (closed s c d q i a (subst (λ o. SaneParts o c d q i) e h)));
    }

settle-Serves :
    (status : HandleStatus) (output_queued : Bool) (fd : ℕ) (s : WebSocketSession) (w : Worker)
    → find fd w.sessions ≡ some s
    → (output_queued ≡ true → Asks (slot_at fd w))
    → IsSane (slot_at fd w)
    → Serves fd w (settle status output_queued fd w)
unfolding settle
settle-Serves messages_ready output_queued fd s w e a h = Serves-itself fd w h
settle-Serves needs_more_data output_queued fd s w e a h = Serves-itself fd w h
settle-Serves peer_left true fd s w e a h = closing-Serves fd s w e (a refl) h
settle-Serves peer_left false fd s w e a h = remove_session-Serves fd w
settle-Serves protocol_error output_queued fd s w e a h = remove_session-Serves fd w
settle-Serves io_error output_queued fd s w e a h = remove_session-Serves fd w

dispatch_and_settle-Serves :
    (fd session_id : ℕ) (accepts : Frame → Bool) (r : HandleResult) (s : WebSocketSession)
    (w : Worker)
    → find fd w.sessions ≡ some s
    → (r.output_queued ≡ true → Asks (slot_at fd w))
    → IsSane (slot_at fd w)
    → Serves fd w (dispatch_and_settle fd session_id accepts r w).1
unfolding dispatch_and_settle
dispatch_and_settle-Serves fd session_id accepts r s w e a h =
    let (all, w') = dispatch r.frames fd session_id accepts w in
    let same = dispatch-slots r.frames fd session_id accepts w in
    let h' = subst IsSane (sym (same fd)) h in
    Only-Serves fd w w' _ (λ j _. same j)
      (if_cases (λ (o : Bool × Worker). Serves fd w' o.1) all
        (true, settle r.status r.output_queued fd w') (false, w')
        (λ _.
          settle-Serves r.status r.output_queued fd s w' (ap (λ v. v.session) (same fd) ∙ e)
            (λ q. subst Asks (sym (same fd)) (a q)) h')
        (λ _. Serves-itself fd w' h'))

contains-true :
    {A : Type 0} (fd : ℕ) (m : List (ℕ × A)) → contains fd m ≡ true → (a : A) × (find fd m ≡ some a)
unfolding contains
contains-true fd m =
    option_cases (λ b. b ≡ true → (a : _) × (find fd m ≡ some a)) (find fd m) false (λ _. true)
      (λ _ h. absurd (cc h)) (λ a e _. (a, e))

-- A session that is there after the worker has asked for its output is asked for.
set_write_interest-Asks :
    (fd : ℕ) (accepted : Bool) (w : Worker) (s : WebSocketSession)
    → find fd (set_write_interest fd true accepted w).sessions ≡ some s
    → Asks (slot_at fd (set_write_interest fd true accepted w))
unfolding set_write_interest modify_interest
set_write_interest-Asks fd accepted w s =
    option_cases (λ (w' : Worker). find fd w'.sessions ≡ some s → Asks (slot_at fd w'))
      (find fd w.sessions) w (λ _. modify_interest fd true accepted w) (λ e f. absurd (cc (e, f)))
      (λ _ _.
        if_cases (λ (w' : Worker). find fd w'.sessions ≡ some s → Asks (slot_at fd w')) accepted _
          (remove_session fd w)
          (λ _ _ i f.
            let f' = ap (λ v. v.interest) (sym (slot_at-interest fd _ w)) ∙ f in
            ap (λ o. elim o [ none ↦ true | some k ↦ k.writable ]) (sym f'))
          (λ _ f.
            let f' = ap (λ v. v.session) (sym (slot_at-remove_session fd w)) ∙ f in absurd (cc f')))

after_handling-Serves :
    (fd : ℕ) (accepts : Frame → Bool) (accepted : Bool) (session_id : ℕ) (r : HandleResult)
    (s : WebSocketSession) (w : Worker)
    → find fd w.sessions ≡ some s
    → IsKept (slot_at fd w)
    → (r.output_queued ≡ false → IsSane (slot_at fd w))
    → Serves fd w (after_handling fd accepts accepted session_id r w).1
unfolding after_handling
after_handling-Serves fd accepts accepted session_id r s w e k h =
    let w' = set_write_interest fd true accepted w in
    let served = asks_for_output fd accepted w k in
    if_cases (λ (o : Bool × Worker). Serves fd w o.1) r.output_queued _
      (dispatch_and_settle fd session_id accepts r w)
      (λ _. Only-Serves fd w w' _ served.only (
        if_cases (λ (o : Bool × Worker). Serves fd w' o.1) (contains fd w'.sessions)
          (dispatch_and_settle fd session_id accepts r w') (true, w')
          (λ there.
            let (t, e') = contains-true fd w'.sessions there in
            dispatch_and_settle-Serves fd session_id accepts r t w' e'
              (λ _. set_write_interest-Asks fd accepted w t e') served.sane_after)
          (λ _. Serves-itself fd w' served.sane_after)))
      (λ off.
        dispatch_and_settle-Serves fd session_id accepts r s w e (λ on. absurd (cc (on, off)))
          (h off))

take_handling-Serves :
    (out : Handling) (fd : ℕ) (accepts : Frame → Bool) (accepted : Bool) (s : WebSocketSession)
    (w : Worker)
    → find fd w.sessions ≡ some s
    → IsSane (slot_at fd w)
    → ReturnsQuiet s new_result out
    → Serves fd w (take_handling fd accepts accepted out w).1
unfolding take_handling
take_handling-Serves (reading s' r) fd accepts accepted s w e h q = elim q [ ]
take_handling-Serves (handled s' r) fd accepts accepted s w e h q =
    let w' = put_session fd s' w in
    Only-Serves fd w w' _ (put_session-Only fd s' w) (
      after_handling-Serves fd accepts accepted s'.id r s' w' (find-put_session fd s' w)
        (put_session-IsKept fd s s' w e (IsSane-IsKept (slot_at fd w) h))
        (λ off.
          put_session-IsSane fd s s' w e
            (λ p. sym (has_pending_output-same s'.connection s.connection (q off).0) ∙ p) h))

pub read_session-Serves :
    (fd : ℕ) (answers : List (ℕ × Recv)) (accepts : Frame → Bool) (accepted : Bool) (w : Worker)
    → ends answers ≡ true
    → IsSane (slot_at fd w)
    → Serves fd w (read_session fd answers accepts accepted w).1
unfolding read_session
read_session-Serves fd answers accepts accepted w ended h =
    if_cases (λ (o : Bool × Worker). Serves fd w o.1) (contains fd w.revoke_deadlines) (true, w) _
      (λ _. Serves-itself fd w h)
      (λ _.
        option_cases (λ (o : Bool × Worker). Serves fd w o.1) (find fd w.sessions) (true, w)
          (λ s. take_handling fd accepts accepted (handle_readable answers s) w)
          (λ _. Serves-itself fd w h)
          (λ s e.
            take_handling-Serves (handle_readable answers s) fd accepts accepted s w e h
              (handle_readable-ReturnsQuiet answers s ended)))

after_output-Serves :
    (fd : ℕ) (flags : Flags) (w : Worker)
    → IsSane (slot_at fd w)
    → Serves fd w (after_output fd flags w)
unfolding after_output
after_output-Serves fd flags w h =
    if_cases (Serves fd w) (contains fd w.sessions) _ w
      (λ _.
        if_cases (Serves fd w) (flags.peer_shut_down && not (member fd w.closing_sessions))
          (remove_session fd w) w (λ _. remove_session-Serves fd w) (λ _. Serves-itself fd w h))
      (λ _. Serves-itself fd w h)

after_input-Serves :
    (fd : ℕ) (flags : Flags) (a : EventAnswers) (w : Worker)
    → IsSane (slot_at fd w)
    → Serves fd w (after_input fd flags a w)
unfolding after_input
after_input-Serves fd flags a w h =
    let written = handle_writable fd a.sent a.write_accepted w in
    let served = handle_writable-Serves fd a.sent a.write_accepted w h in
    if_cases (Serves fd w) (contains fd w.sessions) _ w
      (λ _.
        if_cases (λ t. Serves fd w (after_output fd flags t)) flags.output written w
          (λ _.
            Only-Serves fd w written _ served.only
              (after_output-Serves fd flags written served.sane_after))
          (λ _. after_output-Serves fd flags w h))
      (λ _. Serves-itself fd w h)

after_reading-Serves :
    (fd : ℕ) (flags : Flags) (a : EventAnswers) (w : Worker) (r : Bool × Worker)
    → Serves fd w r.1
    → Serves fd w (after_reading fd flags a r)
unfolding after_reading
after_reading-Serves fd flags a w (returned, w') served =
    if_cases (Serves fd w) returned (after_input fd flags a w') w'
      (λ _. Only-Serves fd w w' _ served.only (after_input-Serves fd flags a w' served.sane_after))
      (λ _. served)

pub handle_event-Serves :
    (fd : ℕ) (flags : Flags) (accepts : Frame → Bool) (a : EventAnswers) (w : Worker)
    → ends a.received ≡ true
    → IsSane (slot_at fd w)
    → Serves fd w (handle_event fd flags accepts a w)
unfolding handle_event
handle_event-Serves fd flags accepts a w ended h =
    let read = read_session fd a.received accepts a.read_accepted w in
    let served = read_session-Serves fd a.received accepts a.read_accepted w ended h in
    if_cases (Serves fd w) flags.error_or_hang_up (remove_session fd w) _
      (λ _. remove_session-Serves fd w)
      (λ _.
        if_cases (Serves fd w) flags.input (after_reading fd flags a read)
          (after_input fd flags a w) (λ _. after_reading-Serves fd flags a w read served)
          (λ _. after_input-Serves fd flags a w h))
