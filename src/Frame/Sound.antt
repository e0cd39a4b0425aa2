-- ===== src/Frame/Sound.antt =====
-- What `WebSocketSession::FrameParse` guarantees of its result for any input.
use cpp_backend_server.Base.{
  ℕ, zero, suc, ◌+◌, ◌≤◌, ◌≡◌, ◌≢◌, refl, List, [], ◌∷◌, length, drop, length-drop, arith, All, inl,
  inr,
}
use cpp_backend_server.Frame.{
  parse_one, Frame, FrameParseResult, FrameParseStatus, success, error, need_more_data,
  pending_status, frame_parse,
}
use cpp_backend_server.Frame.Legal.{IsParsed, parse_one-IsParsed, IsLegal}
use cpp_backend_server.Frame.Stream.{
  shift, waiting, failed, parse_one-nil, Scan-cases, shorter, frame_parse_more, frame_parse_bad,
  frame_parse_found,
}

-- Every frame of the result is legal, no more bytes are consumed than the buffer holds, and frames
-- come only with success.
pub record IsSound (bytes : List ℕ) (r : FrameParseResult) : Type 0 where
  pub legal : All IsLegal r.frames
  pub within : r.consumed ≤ length bytes
  pub only_success : r.frames ≢ [] → r.status ≡ success

nothing : (bytes : List ℕ) → IsSound bytes (waiting 0 [])
nothing bytes = record { legal = tt; within = omega arith; only_success = λ e. absurd (e refl) }

refused : (bytes : List ℕ) → IsSound bytes (failed 0)
refused bytes = record { legal = tt; within = omega arith; only_success = λ e. absurd (e refl) }

shift-IsSound :
    (bytes : List ℕ) (frame : Frame) (size : ℕ) (r : FrameParseResult)
    → IsParsed bytes frame size
    → IsSound (drop size bytes) r
    → IsSound bytes (shift size (frame ∷ []) r)
unfolding shift pending_status
shift-IsSound bytes frame size r p h =
    by_status r.status r.consumed r.frames h.legal
      (omega (arith, h.within, length-drop size bytes, p.fits))
  where
    by_status :
        (s : FrameParseStatus) (n : ℕ) (fs : List Frame)
        → All IsLegal fs
        → size + n ≤ length bytes
        → IsSound bytes (shift size (frame ∷ []) (record { status = s; consumed = n; frames = fs }))
    by_status success n fs l w = record {
      legal = (p.legal, l);
      within = w;
      only_success = λ _. refl;
    }
    by_status error n fs l w = record {
      legal = tt;
      within = w;
      only_success = λ e. absurd (e refl);
    }
    by_status need_more_data n fs l w = record {
      legal = (p.legal, l);
      within = w;
      only_success = λ _. refl;
    }

frame_parse-IsSound_below : (n : ℕ) (a : List ℕ) → length a ≤ n → IsSound a (frame_parse a)
frame_parse-IsSound_below zero [] h = rw (frame_parse_more [] parse_one-nil) (nothing [])
frame_parse-IsSound_below zero (x ∷ a) h = absurd (omega arith)
frame_parse-IsSound_below (suc n) a h = elim (Scan-cases (parse_one a)) [
  | inl e ↦ rw (frame_parse_more a e) (nothing a)
  | inr (inl e) ↦ rw (frame_parse_bad a e) (refused a)
  | inr (inr ((frame, size), e)) ↦ rw (frame_parse_found a frame size e) (
      shift-IsSound a frame size _ (parse_one-IsParsed a frame size e)
        (frame_parse-IsSound_below n (drop size a) (shorter n a frame size e h)))
]

-- Whatever bytes a client sends, every frame that the parser hands on keeps to RFC 6455's rules for
-- control frames and to the payload limit, the parser never claims bytes that it was not given, and
-- it reports success whenever it hands on a frame.
pub frame_parse-IsSound : (bytes : List ℕ) → IsSound bytes (frame_parse bytes)
frame_parse-IsSound bytes = frame_parse-IsSound_below (length bytes) bytes (omega arith)
