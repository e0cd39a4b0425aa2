-- ===== src/WebSocketHandler/Passing.antt =====
-- Frames that do not end the reading, and the input buffer.
use cpp_backend_server.Base.{
  ℕ, ◌≡◌, refl, sym, ap, subst, ◌∙◌, true, List, [], ◌∷◌, ◌++◌, append_assoc, if_cases, arith,
}
use cpp_backend_server.Connection.{write}
use cpp_backend_server.Frame.{Opcode, continuation, text, binary, close, ping, pong, Frame}
use cpp_backend_server.WebSocketHandler.{
  WebSocketSession, HandleStatus, HandleResult, FrameHandled, queue_frame, handle_message,
  handle_by, handle_frame, handle_frames,
}
use cpp_backend_server.WebSocketHandler.Described.{
  Does, Handles, seen, message_of, messages, reply_of, replies, passes_all, last_status,
}

handle_by-input :
    (op : Opcode) (now : ℕ) (f : Frame) (s : WebSocketSession) (r : HandleResult)
    → (handle_by op now f s r).session.connection.input_buffer ≡ s.connection.input_buffer
unfolding handle_by handle_message queue_frame write
handle_by-input text now f s r =
    if_cases (λ (h : FrameHandled). h.session.connection.input_buffer ≡ s.connection.input_buffer)
      f.fin _ _ (λ e. refl) (λ e. refl)
handle_by-input binary now f s r =
    if_cases (λ (h : FrameHandled). h.session.connection.input_buffer ≡ s.connection.input_buffer)
      f.fin _ _ (λ e. refl) (λ e. refl)
handle_by-input ping now f s r = refl
handle_by-input pong now f s r = refl
handle_by-input close now f s r = refl
handle_by-input continuation now f s r = refl

pub handle_frames-input :
    (fs : List Frame) (now : ℕ) (s : WebSocketSession) (r : HandleResult)
    → (handle_frames fs now s r).session.connection.input_buffer ≡ s.connection.input_buffer
unfolding handle_frames handle_frame
handle_frames-input [] now s r = refl
handle_frames-input (f ∷ fs) now s r =
    let h = handle_by f.opcode now f s r in
    let one = handle_by-input f.opcode now f s r in
    if_cases (λ (k : FrameHandled). k.session.connection.input_buffer ≡ s.connection.input_buffer)
      h.goes_on (handle_frames fs now h.session h.result) h
      (λ e. handle_frames-input fs now h.session h.result ∙ one) (λ e. one)

-- Where no frame ends the reading, all are seen.
pub passes_all-seen : (fs : List Frame) → passes_all fs ≡ true → seen fs ≡ fs
passes_all-seen [] e = refl
passes_all-seen (f ∷ fs) e = ap (λ t. f ∷ t) (ground (arith, passes_all-seen fs))

pub passes_all-last_status :
    (fs : List Frame) (st : HandleStatus) → passes_all fs ≡ true → last_status fs st ≡ st
passes_all-last_status [] st e = refl
passes_all-last_status (f ∷ fs) st e = ground (arith, passes_all-last_status fs st)

pub passes_all-append :
    (fs gs : List Frame)
    → passes_all (fs ++ gs) ≡ true
    → (passes_all fs ≡ true) × (passes_all gs ≡ true)
passes_all-append [] gs e = (refl, e)
passes_all-append (f ∷ fs) gs e = ground (arith, passes_all-append fs gs)

pub messages-append : (fs gs : List Frame) → messages (fs ++ gs) ≡ messages fs ++ messages gs
messages-append [] gs = refl
messages-append (f ∷ fs) gs =
    ap (λ t. message_of f.opcode f ++ t) (messages-append fs gs)
    ∙ sym (append_assoc (message_of f.opcode f) (messages fs) (messages gs))

pub replies-append : (fs gs : List Frame) → replies (fs ++ gs) ≡ replies fs ++ replies gs
replies-append [] gs = refl
replies-append (f ∷ fs) gs =
    ap (λ t. reply_of f.opcode f ++ t) (replies-append fs gs)
    ∙ sym (append_assoc (reply_of f.opcode f) (replies fs) (replies gs))

pub Handles-all :
    (fs : List Frame) (s : WebSocketSession) (r : HandleResult) (h : FrameHandled)
    → passes_all fs ≡ true
    → Handles fs s r h
    → Does true r.status (messages fs) (replies fs) s r h
Handles-all fs s r h all d =
    subst (λ b. Does b r.status (messages fs) (replies fs) s r h) all
      (subst (λ st. Does (passes_all fs) st (messages fs) (replies fs) s r h)
        (passes_all-last_status fs r.status all)
        (subst (λ t. Does (passes_all fs) (last_status fs r.status) (messages t) (replies t) s r h)
          (passes_all-seen fs all) d))
