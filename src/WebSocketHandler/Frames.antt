-- ===== src/WebSocketHandler/Frames.antt =====
-- What the handler does with a list of frames, against a description that reads only the frames.
use cpp_backend_server.Base.{
  ℕ, ◌≡◌, refl, sym, ap, subst, ◌∙◌, Bool, true, false, ◌||◌, List, [], ◌∷◌, ◌++◌, append_assoc,
  append-nil, if◌then◌else◌, Bytes,
}
use cpp_backend_server.Connection.{write}
use cpp_backend_server.Frame.{Opcode, continuation, text, binary, close, ping, pong, Frame}
use cpp_backend_server.Frame.Wire.{server_wire}
use cpp_backend_server.Frame.Encoder.{frame_encoder-server_wire}
use cpp_backend_server.WebSocketHandler.{
  WebSocketSession, HandleStatus, peer_left, protocol_error, HandleResult, FrameHandled,
  queue_frame, answer_with, handle_message, handle_by, handle_frame, handle_frames,
}
use cpp_backend_server.WebSocketHandler.Described.{
  Does, Handles, ending, passes, seen, message_of, messages, reply_of, replies, wire_of, passes_all,
  last_status, any_reply,
}

or-false : (b : Bool) → b ≡ (b || false)
or-false true = refl
or-false false = refl

or-true : (b : Bool) → true ≡ (b || true)
or-true true = refl
or-true false = refl

or_assoc : (b c d : Bool) → ((b || c) || d) ≡ (b || (c || d))
or_assoc true c d = refl
or_assoc false c d = refl

Does-nothing :
    (b : Bool) (status : HandleStatus) (s : WebSocketSession) (r : HandleResult)
    → Does b status [] [] s r
        (record { goes_on = b; session = s; result = record r { status = status } })
Does-nothing b status s r = record {
  goes_on = refl;
  status = refl;
  frames = sym (append-nil r.frames);
  output_queued = or-false r.output_queued;
  output = sym (append-nil s.connection.output_buffer);
  id = refl;
}

Does-message :
    (fin : Bool) (op : Opcode) (payload : Bytes) (s : WebSocketSession) (r : HandleResult)
    → let f : Frame = record { fin = fin; opcode = op; payload = payload } in
      Does fin
        (if fin then r.status else protocol_error)
        (if fin then f ∷ [] else [])
        []
        s
        r
        (handle_message f s r)
unfolding handle_message
Does-message true op payload s r = record {
  goes_on = refl;
  status = refl;
  frames = refl;
  output_queued = or-false r.output_queued;
  output = sym (append-nil s.connection.output_buffer);
  id = refl;
}
Does-message false op payload s r = Does-nothing false protocol_error s r

Does-reply :
    (b : Bool) (status : HandleStatus) (reply : Frame) (s : WebSocketSession) (r : HandleResult)
    → Does b status [] (reply ∷ []) s r (record {
      goes_on = b;
      session = queue_frame reply s;
      result = record r { status = status; output_queued = true };
    })
unfolding queue_frame write
Does-reply b status reply s r = record {
  goes_on = refl;
  status = refl;
  frames = sym (append-nil r.frames);
  output_queued = or-true r.output_queued;
  output =
      ap (λ t. s.connection.output_buffer ++ t)
        (frame_encoder-server_wire reply ∙ sym (append-nil (server_wire reply)));
  id = refl;
}

Does-one :
    (op : Opcode) (now : ℕ) (f : Frame) (s : WebSocketSession) (r : HandleResult)
    → Does
        (passes op f.fin)
        (ending op f.fin r.status)
        (message_of op f)
        (reply_of op f)
        s
        r
        (handle_by op now f s r)
unfolding handle_by
Does-one text now f s r = Does-message f.fin f.opcode f.payload s r
Does-one binary now f s r = Does-message f.fin f.opcode f.payload s r
Does-one ping now f s r = Does-reply true r.status (answer_with pong f.payload) s r
Does-one close now f s r = Does-reply false peer_left (answer_with close f.payload) s r
Does-one continuation now f s r = Does-nothing false protocol_error s r
Does-one pong now f s r = record {
  goes_on = refl;
  status = refl;
  frames = sym (append-nil r.frames);
  output_queued = or-false r.output_queued;
  output = sym (append-nil s.connection.output_buffer);
  id = refl;
}

any_reply-append : (fs gs : List Frame) → any_reply (fs ++ gs) ≡ (any_reply fs || any_reply gs)
any_reply-append [] gs = refl
any_reply-append (f ∷ fs) gs = refl

wire_of-append : (fs gs : List Frame) → wire_of (fs ++ gs) ≡ wire_of fs ++ wire_of gs
wire_of-append [] gs = refl
wire_of-append (f ∷ fs) gs =
    ap (λ t. server_wire f ++ t) (wire_of-append fs gs)
    ∙ sym (append_assoc (server_wire f) (wire_of fs) (wire_of gs))

pub Does-then :
    {b : Bool} {st st' : HandleStatus} {ms ms' qs qs' : List Frame} {b' : Bool}
    {s : WebSocketSession} {r : HandleResult} {h h' : FrameHandled}
    → Does b st ms qs s r h
    → Does b' st' ms' qs' h.session h.result h'
    → Does b' st' (ms ++ ms') (qs ++ qs') s r h'
Does-then {ms = ms} {ms' = ms'} {qs = qs} {qs' = qs'} {s = s} {r = r} d d' = record {
  goes_on = d'.goes_on;
  status = d'.status;
  frames = d'.frames ∙ ap (λ t. t ++ ms') d.frames ∙ append_assoc r.frames ms ms';
  output_queued =
      d'.output_queued
      ∙ ap (λ t. t || any_reply qs') d.output_queued
      ∙ or_assoc r.output_queued (any_reply qs) (any_reply qs')
      ∙ ap (λ t. r.output_queued || t) (sym (any_reply-append qs qs'));
  output =
      d'.output
      ∙ ap (λ t. t ++ wire_of qs') d.output
      ∙ append_assoc s.connection.output_buffer (wire_of qs) (wire_of qs')
      ∙ ap (λ t. s.connection.output_buffer ++ t) (sym (wire_of-append qs qs'));
  id = d'.id ∙ d.id;
}

passes-ending :
    (op : Opcode) (fin : Bool) (st : HandleStatus) → passes op fin ≡ true → ending op fin st ≡ st
passes-ending text true st e = refl
passes-ending text false st e = absurd (cc e)
passes-ending binary true st e = refl
passes-ending binary false st e = absurd (cc e)
passes-ending ping fin st e = refl
passes-ending pong fin st e = refl
passes-ending close fin st e = absurd (cc e)
passes-ending continuation fin st e = absurd (cc e)

handle_rest :
    (b : Bool) (fs : List Frame) (st : HandleStatus) (ms qs : List Frame) (s : WebSocketSession)
    (r : HandleResult) (h next : FrameHandled)
    → (b ≡ true → st ≡ r.status)
    → Does b st ms qs s r h
    → Handles fs h.session h.result next
    → Does
        (if b then passes_all fs else false)
        (if b then last_status fs r.status else st)
        (ms ++ messages (if b then seen fs else []))
        (qs ++ replies (if b then seen fs else []))
        s
        r
        (if h.goes_on then next else h)
handle_rest true fs st ms qs s r h next same d d' =
    let KeptParts : last_status fs h.result.status ≡ last_status fs r.status =
      ap (last_status fs) (d.status ∙ same refl) in
    let on : true ≡ h.goes_on = sym d.goes_on in
    let ms' = ms ++ messages (seen fs) in
    let qs' = qs ++ replies (seen fs) in
    subst (λ t. Does (passes_all fs) (last_status fs r.status) ms' qs' s r (if t then next else h))
      on (subst (λ t. Does (passes_all fs) t ms' qs' s r next) KeptParts (Does-then d d'))
handle_rest false fs st ms qs s r h next same d d' =
    let off : false ≡ h.goes_on = sym d.goes_on in
    subst (λ t. Does false st (ms ++ []) (qs ++ []) s r (if t then next else h)) off
      (subst (λ ms'. Does false st ms' (qs ++ []) s r h) (sym (append-nil ms))
        (subst (λ qs'. Does false st ms qs' s r h) (sym (append-nil qs)) d))

-- Of the frames of one parse, those up to the first that ends the reading are handled: their complete
-- text and binary frames are handed on in order, each ping and a close frame is answered with its own
-- payload, the answers stand in the output buffer in the form of RFC 6455 and in order, and the
-- status is that of the frame that ended the reading, if one did.
pub handle_frames-Handles :
    (fs : List Frame) (now : ℕ) (s : WebSocketSession) (r : HandleResult)
    → Handles fs s r (handle_frames fs now s r)
unfolding handle_frames handle_frame
handle_frames-Handles [] now s r = Does-nothing true r.status s r
handle_frames-Handles (f ∷ fs) now s r =
    let h = handle_by f.opcode now f s r in
    handle_rest (passes f.opcode f.fin) fs (ending f.opcode f.fin r.status) (message_of f.opcode f)
      (reply_of f.opcode f) s r h (handle_frames fs now h.session h.result)
      (passes-ending f.opcode f.fin r.status) (Does-one f.opcode now f s r)
      (handle_frames-Handles fs now h.session h.result)
