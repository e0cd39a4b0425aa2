-- ===== src/WebSocketHandler/Chunks.antt =====
-- A client's frames through `handleReadable`, in whatever pieces they arrive.
use cpp_backend_server.Base.{
  ℕ, zero, suc, ◌≡◌, ◌≢◌, refl, sym, ap, subst, ◌∙◌, true, false, List, [], ◌∷◌, ◌++◌, append_assoc,
  append-nil, map, length, length-append, drop, ltb, if◌then◌else◌, if_cases, Bytes, arith,
}
use cpp_backend_server.Connection.{Recv, received, would_block, read_round, consume_input}
use cpp_backend_server.Connection.Reading.{consume_input-drop}
use cpp_backend_server.Heartbeat.{record_activity}
use cpp_backend_server.Frame.{
  Frame, FrameParseStatus, success, error, need_more_data, FrameParseResult, frame_parse,
}
use cpp_backend_server.Frame.Stream.{
  shift, shift_ok, shift-ne-error, waiting, frame_parse_more, parse_one-nil,
  pending_status-ne-error,
}
use cpp_backend_server.Frame.Wire.{client_stream}
use cpp_backend_server.Frame.RoundTrip.{AllSendable, frame_parse-client_stream}
use cpp_backend_server.WebSocketHandler.{
  WebSocketSession, HandleResult, FrameHandled, handle_frames, is_error, handle_parsed,
  consume_parsed, handle_bytes, Handling, handled, end_of_input, new_result, handle_loop,
  handle_readable,
}
use cpp_backend_server.WebSocketHandler.Left.{AllRead, AllRead-Left}
use cpp_backend_server.WebSocketHandler.Described.{Does, passes_all, messages, replies}
use cpp_backend_server.WebSocketHandler.Frames.{Does-then, handle_frames-Handles}
use cpp_backend_server.WebSocketHandler.Passing.{
  Handles-all, handle_frames-input, passes_all-append, messages-append, replies-append,
}

pub consume_parsed_lem :
    (p : FrameParseResult) (s : WebSocketSession)
    → consume_parsed p s ≡ record s {
      connection = record s.connection { input_buffer = drop p.consumed s.connection.input_buffer };
    }
unfolding consume_parsed
consume_parsed_lem p s =
    let left = drop p.consumed s.connection.input_buffer in
    let s' : WebSocketSession = record s {
      connection = record s.connection { input_buffer = left };
    } in
    if_cases (λ (t : WebSocketSession). t ≡ s') (ltb 0 p.consumed)
      (record s { connection = consume_input s.connection p.consumed }) s
      (λ e. ap (λ c. record s { connection = c }) (consume_input-drop s.connection p.consumed))
      (λ e. none_consumed p.consumed e)
  where
    none_consumed :
        (n : ℕ)
        → ltb 0 n ≡ false
        → s ≡ record s {
          connection = record s.connection { input_buffer = drop n s.connection.input_buffer };
        }
    none_consumed zero e = refl
    none_consumed (suc n) e = absurd (ground (arith, e))

accepted_status : (status : FrameParseStatus) → status ≢ error → is_error status ≡ false
unfolding is_error
accepted_status success h = refl
accepted_status error h = absurd (h refl)
accepted_status need_more_data h = refl

left_with : ℕ → FrameParseResult → WebSocketSession → WebSocketSession
left_with now p s = record s {
  connection = record s.connection { input_buffer = drop p.consumed s.connection.input_buffer };
  heartbeat = record_activity now s.heartbeat;
}

handle_bytes_lem :
    (now : ℕ) (s : WebSocketSession) (r : HandleResult)
    → let p = frame_parse s.connection.input_buffer in
      p.status ≢ error → handle_bytes now s r ≡ handle_frames p.frames now (left_with now p s) r
unfolding handle_bytes handle_parsed left_with
handle_bytes_lem now s r ok =
    let p = frame_parse s.connection.input_buffer in
    let active = record s { heartbeat = record_activity now s.heartbeat } in
    if_cases (λ (h : FrameHandled). h ≡ handle_frames p.frames now (left_with now p s) r)
      (is_error p.status) _ (handle_frames p.frames now (consume_parsed p active) r)
      (λ e. absurd (cc (e, accepted_status p.status ok)))
      (λ e. ap (λ t. handle_frames p.frames now t r) (consume_parsed_lem p active))

handle_bytes-Does :
    (now : ℕ) (s : WebSocketSession) (r : HandleResult)
    → let p = frame_parse s.connection.input_buffer in
      let h = handle_bytes now s r in
      p.status ≢ error
      → passes_all p.frames ≡ true
      → Does true r.status (messages p.frames) (replies p.frames) s r h
        × (h.session.connection.input_buffer ≡ drop p.consumed s.connection.input_buffer)
unfolding left_with
handle_bytes-Does now s r ok all =
    let p = frame_parse s.connection.input_buffer in
    let left = left_with now p s in
    let h = handle_frames p.frames now left r in
    let d : Does true r.status (messages p.frames) (replies p.frames) left r h =
      Handles-all p.frames left r h all (handle_frames-Handles p.frames now left r) in
    subst
      (λ (k : FrameHandled).
        Does true r.status (messages p.frames) (replies p.frames) s r k
        × (k.session.connection.input_buffer ≡ drop p.consumed s.connection.input_buffer))
      (sym (handle_bytes_lem now s r ok))
      (
        record {
          goes_on = d.goes_on;
          status = d.status;
          frames = d.frames;
          output_queued = d.output_queued;
          output = d.output;
          id = d.id;
        },
        handle_frames-input p.frames now left r,
      )

-- The pieces that `recv` returns, with their times: the first byte and the others of each.
abbrev Chunk : Type 0
Chunk = ℕ × ℕ × Bytes

abbrev pub bytes_of : List Chunk → Bytes
bytes_of [] = []
bytes_of ((now, b, bs) ∷ rest) = (b ∷ bs) ++ bytes_of rest

abbrev pub answers_of : List Chunk → ℕ → List (ℕ × Recv)
answers_of [] last = (last, would_block) ∷ []
answers_of ((now, b, bs) ∷ rest) last = (now, received b bs) ∷ answers_of rest last

-- `handleReadable` has returned, with exactly these frames handled and nothing left to parse.
pub record Finishes (fs : List Frame) (s : WebSocketSession) (r : HandleResult) (out : Handling)
    : Type 0 where
  pub end : FrameHandled
  pub returns : out ≡ handled end.session (end_of_input end.result)
  pub does : Does true r.status (messages fs) (replies fs) s r end
  pub emptied : end.session.connection.input_buffer ≡ []

Finishes-then :
    (fs gs : List Frame) (s : WebSocketSession) (r : HandleResult) (h : FrameHandled)
    (out : Handling)
    → Does true r.status (messages fs) (replies fs) s r h
    → Finishes gs h.session h.result out
    → Finishes (fs ++ gs) s r out
Finishes-then fs gs s r h out d f = record {
  end = f.end;
  returns = f.returns;
  does =
      subst (λ ms. Does true r.status ms (replies (fs ++ gs)) s r f.end)
        (sym (messages-append fs gs))
        (subst (λ qs. Does true r.status (messages fs ++ messages gs) qs s r f.end)
          (sym (replies-append fs gs))
          (subst
            (λ st. Does true st (messages fs ++ messages gs) (replies fs ++ replies gs) s r f.end)
            d.status (Does-then d f.does)));
  emptied = f.emptied;
}

AllRead-nothing :
    (bytes : Bytes) (fs : List Frame)
    → (frame_parse bytes).consumed ≡ 0
    → AllRead (bytes ++ []) fs
    → (bytes ≡ []) × ([] ≡ fs)
AllRead-nothing [] fs quiet all =
    (refl, ap (λ r. r.frames) (sym (frame_parse_more [] parse_one-nil)) ∙ all.frames)
AllRead-nothing (b ∷ bs) fs quiet all = absurd (
    omega (
      arith,
      quiet,
      sym (ap (λ t. (frame_parse t).consumed) (append-nil (b ∷ bs))) ∙ all.consumed,
      length-append (b ∷ bs) [],
    ))

-- What stands in the input buffer before does not matter.
Does-before :
    {fs qs : List Frame} {r : HandleResult} {h : FrameHandled} (s : WebSocketSession)
    (bytes : Bytes)
    → Does true r.status fs qs
        (record s { connection = record s.connection { input_buffer = bytes } })
        r
        h
    → Does true r.status fs qs s r h
Does-before s bytes d = record {
  goes_on = d.goes_on;
  status = d.status;
  frames = d.frames;
  output_queued = d.output_queued;
  output = d.output;
  id = d.id;
}

handle_loop-chunks :
    (chunks : List Chunk) (last : ℕ) (s : WebSocketSession) (r : HandleResult) (fs : List Frame)
    → (frame_parse s.connection.input_buffer).consumed ≡ 0
    → AllRead (s.connection.input_buffer ++ bytes_of chunks) fs
    → passes_all fs ≡ true
    → Finishes fs s r (handle_loop (answers_of chunks last) s r)
unfolding handle_loop read_round handle_frames
handle_loop-chunks [] last s r fs quiet all on =
    let (empty, none) = AllRead-nothing s.connection.input_buffer fs quiet all in
    subst (λ gs. Finishes gs s r (handled s (end_of_input r))) none
      (record {
        end = record { goes_on = true; session = s; result = r };
        returns = refl;
        does = handle_frames-Handles [] last s r;
        emptied = empty;
      })
handle_loop-chunks ((now, b, bs) ∷ chunks) last s r fs quiet all on =
    let buffer = s.connection.input_buffer ++ b ∷ bs in
    let rest = bytes_of chunks in
    let whole : AllRead (buffer ++ rest) fs =
      subst (λ t. AllRead t fs) (sym (append_assoc s.connection.input_buffer (b ∷ bs) rest)) all in
    let left = AllRead-Left buffer rest fs whole in
    let p = frame_parse buffer in
    let (on₀, on₁) = passes_all-append p.frames left.later (ap passes_all (sym left.split) ∙ on) in
    let s' = record s { connection = record s.connection { input_buffer = buffer } } in
    let h = handle_bytes now s' r in
    let (d, input) = handle_bytes-Does now s' r left.accepted on₀ in
    let next = handle_loop (answers_of chunks last) h.session h.result in
    let f : Finishes left.later h.session h.result next =
      handle_loop-chunks chunks last h.session h.result left.later
        (ap (λ t. (frame_parse t).consumed) input ∙ left.quiet)
        (subst (λ t. AllRead (t ++ rest) left.later) (sym input) left.all_read) on₁ in
    subst (λ gs. Finishes gs s r (if h.goes_on then next else handled h.session h.result))
      (sym left.split)
      (subst
        (λ t.
          Finishes (p.frames ++ left.later) s r (if t then next else handled h.session h.result))
        (sym d.goes_on) (Finishes-then p.frames left.later s r h next (Does-before s buffer d) f))

client_stream-AllRead :
    (sent : List (Frame × Bytes))
    → AllSendable sent
    → AllRead (client_stream sent) (map (λ p. p.0) sent)
client_stream-AllRead sent h =
    let c = client_stream sent in
    let fs = map (λ p. p.0) sent in
    let e : frame_parse c ≡ shift (length c) fs (waiting 0 []) =
      ap frame_parse (sym (append-nil c))
      ∙ frame_parse-client_stream sent [] h
      ∙ ap (shift (length c) fs) (frame_parse_more [] parse_one-nil) in
    let (_, n, gs) =
      shift_ok (length c) fs (waiting 0 [])
        (shift-ne-error (length c) fs (waiting 0 []) (pending_status-ne-error [])) in
    record {
      accepted =
          subst (λ r. r.status ≢ error) (sym e)
            (shift-ne-error (length c) fs (waiting 0 []) (pending_status-ne-error []));
      consumed = ap (λ r. r.consumed) e ∙ n ∙ omega arith;
      frames = ap (λ r. r.frames) e ∙ gs ∙ append-nil fs;
    }

-- In whatever pieces `recv` returns the bytes of legal frames that a client sends to a session with
-- an empty input buffer, before it has no more: if no frame is a close frame, a continuation or a
-- fragment, `handleReadable` returns with exactly the text and binary frames, in order, each ping is
-- answered by a pong with its payload behind the output that was queued before, in order, and no
-- byte is left in the input buffer.
pub handle_readable-client_stream :
    (sent : List (Frame × Bytes)) (chunks : List Chunk) (last : ℕ) (s : WebSocketSession)
    → AllSendable sent
    → passes_all (map (λ p. p.0) sent) ≡ true
    → s.connection.input_buffer ≡ []
    → bytes_of chunks ≡ client_stream sent
    → Finishes (map (λ p. p.0) sent) s new_result (handle_readable (answers_of chunks last) s)
unfolding handle_readable
handle_readable-client_stream sent chunks last s h on empty same =
    handle_loop-chunks chunks last s new_result (map (λ p. p.0) sent)
      (ap (λ t. (frame_parse t).consumed) empty
        ∙ ap (λ r. r.consumed) (frame_parse_more [] parse_one-nil))
      (subst (λ t. AllRead t (map (λ p. p.0) sent))
        (sym (ap (λ t. t ++ bytes_of chunks) empty ∙ same)) (client_stream-AllRead sent h))
      on
