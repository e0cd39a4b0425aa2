-- ===== src/WebSocketHandler/Returns.antt =====
-- When `handleReadable` returns, and what it says of the output buffer.
use cpp_backend_server.Base.{
  ℕ, ◌≡◌, refl, sym, ap, ◌∙◌, Bool, true, false, ◌||◌, List, [], ◌∷◌, ◌++◌, append-nil, if_cases,
}
use cpp_backend_server.Connection.{
  Recv, received, peer_closed, interrupted, would_block, recv_failed, read_round,
}
use cpp_backend_server.Heartbeat.{record_activity}
use cpp_backend_server.Frame.{Frame, FrameParseResult, frame_parse}
use cpp_backend_server.WebSocketHandler.{
  WebSocketSession, HandleStatus, protocol_error, HandleResult, FrameHandled, handle_frames,
  is_error, handle_parsed, consume_parsed, handle_bytes, Handling, reading, handled, is_empty,
  end_of_input, messages_ready, new_result, handle_loop, handle_readable,
}
use cpp_backend_server.WebSocketHandler.Described.{Does, any_reply, wire_of}
use cpp_backend_server.WebSocketHandler.Frames.{handle_frames-Handles}
use cpp_backend_server.WebSocketHandler.Chunks.{consume_parsed_lem}

-- A result that claims no output comes with the output of before.
abbrev pub IsQuiet : WebSocketSession → HandleResult → WebSocketSession → HandleResult → Type 0
IsQuiet s r s' r' =
    r'.output_queued ≡ false
    → (s'.connection.output_buffer ≡ s.connection.output_buffer) × (r.output_queued ≡ false)

no_reply : (qs : List Frame) (b : Bool) → (b || any_reply qs) ≡ false → (qs ≡ []) × (b ≡ false)
no_reply [] false h = (refl, refl)
no_reply [] true h = absurd (cc h)
no_reply (q ∷ qs) false h = absurd (cc h)
no_reply (q ∷ qs) true h = absurd (cc h)

Does-IsQuiet :
    {on : Bool} {left : HandleStatus} {ms : List Frame} (qs : List Frame) (s : WebSocketSession)
    (r : HandleResult) (h : FrameHandled)
    → Does on left ms qs s r h
    → IsQuiet s r h.session h.result
Does-IsQuiet qs s r h d e =
    let (none, before) = no_reply qs r.output_queued (sym d.output_queued ∙ e) in
    (
      d.output
          ∙ ap (λ t. s.connection.output_buffer ++ wire_of t) none
          ∙ append-nil s.connection.output_buffer,
      before,
    )

consume_parsed-output :
    (p : FrameParseResult) (s : WebSocketSession)
    → (consume_parsed p s).connection.output_buffer ≡ s.connection.output_buffer
consume_parsed-output p s = ap (λ t. t.connection.output_buffer) (consume_parsed_lem p s)

handle_bytes-IsQuiet :
    (now : ℕ) (s : WebSocketSession) (r : HandleResult)
    → let h = handle_bytes now s r in IsQuiet s r h.session h.result
unfolding handle_bytes handle_parsed
handle_bytes-IsQuiet now s r =
    let active : WebSocketSession = record s { heartbeat = record_activity now s.heartbeat } in
    let p = frame_parse s.connection.input_buffer in
    let s' = consume_parsed p active in
    let same = consume_parsed-output p active in
    if_cases (λ (h : FrameHandled). IsQuiet s r h.session h.result) (is_error p.status)
      (record { goes_on = false; session = s'; result = record r { status = protocol_error } })
      (handle_frames p.frames now s' r) (λ _ e. (same, e))
      (λ _ e.
        let (out, before) = Does-IsQuiet _ s' r _ (handle_frames-Handles p.frames now s' r) e in
        (out ∙ same, before))

IsQuiet-then :
    (s s' s'' : WebSocketSession) (r r' r'' : HandleResult)
    → IsQuiet s r s' r'
    → IsQuiet s' r' s'' r''
    → IsQuiet s r s'' r''
IsQuiet-then s s' s'' r r' r'' f g e =
    let (out, before) = g e in let (out', before') = f before in (out ∙ out', before')

-- Whether `handleReadable` has returned, and then quietly.
abbrev pub ReturnsQuiet : WebSocketSession → HandleResult → Handling → Type 0
ReturnsQuiet s r (reading s' r') = ⊥
ReturnsQuiet s r (handled s' r') = IsQuiet s r s' r'

ReturnsQuiet-then :
    (s s' : WebSocketSession) (r r' : HandleResult) (out : Handling)
    → IsQuiet s r s' r'
    → ReturnsQuiet s' r' out
    → ReturnsQuiet s r out
ReturnsQuiet-then s s' r r' (reading s'' r'') f g = elim g [ ]
ReturnsQuiet-then s s' r r' (handled s'' r'') f g = IsQuiet-then s s' s'' r r' r'' f g

end_of_input-IsQuiet : (s : WebSocketSession) (r : HandleResult) → IsQuiet s r s (end_of_input r)
unfolding end_of_input
end_of_input-IsQuiet s r =
    if_cases (λ (r' : HandleResult). IsQuiet s r s r') (is_empty r.frames) r
      (record r { status = messages_ready }) (λ _ e. (refl, e)) (λ _ e. (refl, e))

-- Some call of `recv` brings no bytes and is not interrupted.
abbrev pub ends : List (ℕ × Recv) → Bool
ends [] = false
ends ((now, received b bs) ∷ rest) = ends rest
ends ((now, interrupted) ∷ rest) = ends rest
ends (_ ∷ rest) = true

handle_loop-ReturnsQuiet :
    (answers : List (ℕ × Recv)) (s : WebSocketSession) (r : HandleResult)
    → ends answers ≡ true
    → ReturnsQuiet s r (handle_loop answers s r)
unfolding handle_loop read_round
handle_loop-ReturnsQuiet [] s r h = absurd (cc h)
handle_loop-ReturnsQuiet ((now, received b bs) ∷ rest) s r h =
    let s' : WebSocketSession = record s {
      connection = record s.connection { input_buffer = s.connection.input_buffer ++ b ∷ bs };
    } in
    let k = handle_bytes now s' r in
    let quiet = handle_bytes-IsQuiet now s' r in
    if_cases (ReturnsQuiet s r) k.goes_on (handle_loop rest k.session k.result)
      (handled k.session k.result)
      (λ _.
        ReturnsQuiet-then s k.session r k.result _ quiet
          (handle_loop-ReturnsQuiet rest k.session k.result h))
      (λ _. quiet)
handle_loop-ReturnsQuiet ((now, interrupted) ∷ rest) s r h = handle_loop-ReturnsQuiet rest s r h
handle_loop-ReturnsQuiet ((now, peer_closed) ∷ rest) s r h = λ e. (refl, e)
handle_loop-ReturnsQuiet ((now, would_block) ∷ rest) s r h = end_of_input-IsQuiet s r
handle_loop-ReturnsQuiet ((now, recv_failed) ∷ rest) s r h = λ e. (refl, e)

-- `handleReadable` returns as soon as a call of `recv` brings no bytes and is not interrupted, if not
-- before; and where its result does not say that output was queued, the output buffer is as before.
pub handle_readable-ReturnsQuiet :
    (answers : List (ℕ × Recv)) (s : WebSocketSession)
    → ends answers ≡ true
    → ReturnsQuiet s new_result (handle_readable answers s)
unfolding handle_readable
handle_readable-ReturnsQuiet answers s h = handle_loop-ReturnsQuiet answers s new_result h
