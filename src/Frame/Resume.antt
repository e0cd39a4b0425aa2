-- ===== src/Frame/Resume.antt =====
-- A client's bytes arrive in pieces: `WebSocketSession::FrameParse` on a buffer and on its parts.
use cpp_backend_server.Base.{
  ℕ, zero, suc, ◌+◌, ◌≤◌, ◌≡◌, ◌≢◌, subst, ap, ◌∙◌, List, [], ◌∷◌, ◌++◌, length, drop, drop-append,
  drop-drop, arith, inl, inr,
}
use cpp_backend_server.Frame.{found, bad, parse_one, Frame, FrameParseResult, error, frame_parse}
use cpp_backend_server.Frame.Stage.{Extends, parse_one-Extends}
use cpp_backend_server.Frame.Legal.{parse_one-IsParsed}
use cpp_backend_server.Frame.Stream.{
  shift, shift-shift, parse_one-nil, Scan-cases, shorter, frame_parse_more, frame_parse_bad,
  frame_parse_found, frame_parse-start, shift_ok, shift-ne-error, pending_status-ne-error,
}

-- The frames of the first part `a`, then those read from its rest with the new bytes.
abbrev Resumes : List ℕ → List ℕ → FrameParseResult → Type 0
Resumes a b r =
    frame_parse (a ++ b) ≡ shift r.consumed r.frames (frame_parse (drop r.consumed a ++ b))

resume_next :
    (a b : List ℕ) (frame : Frame) (size : ℕ) (r : FrameParseResult)
    → parse_one a ≡ found (frame, size)
    → (shift size (frame ∷ []) r).status ≢ error
    → Resumes (drop size a) b r
    → Resumes a b (shift size (frame ∷ []) r)
resume_next a b frame size r e ok ih =
    let p = parse_one-IsParsed a frame size e in
    let (_, c, fs) = shift_ok size (frame ∷ []) r ok in
    let e' : parse_one (a ++ b) ≡ found (frame, size) =
      subst (λ m. Extends m (parse_one (a ++ b))) e (parse_one-Extends a b) in
    rw (c, fs)
      (frame_parse_found (a ++ b) frame size e'
        ∙ ap (λ t. shift size (frame ∷ []) (frame_parse t)) (drop-append size a b p.fits)
        ∙ ap (shift size (frame ∷ [])) ih
        ∙ shift-shift size r.consumed (frame ∷ []) r.frames _
        ∙ ap (λ t. shift (size + r.consumed) (frame ∷ r.frames) (frame_parse (t ++ b)))
            (drop-drop r.consumed size a))

resume_below :
    (n : ℕ) (a b : List ℕ)
    → length a ≤ n
    → (frame_parse a).status ≢ error
    → Resumes a b (frame_parse a)
resume_below zero [] b p ok = rw (frame_parse_more [] parse_one-nil) (frame_parse-start b)
resume_below zero (x ∷ a) b p ok = absurd (omega arith)
resume_below (suc n) a b p ok = elim (Scan-cases (parse_one a)) [
  | inl e ↦ rw (frame_parse_more a e) (frame_parse-start (a ++ b))
  | inr (inl e) ↦ absurd (ok (ap (λ r. r.status) (frame_parse_bad a e)))
  | inr (inr ((frame, size), e)) ↦
      let f = frame_parse_found a frame size e in
      let ok' = subst (λ r. r.status ≢ error) f ok in
      let ok'' = (shift_ok size (frame ∷ []) _ ok').0 in
      rw f (
        resume_next a b frame size _ e ok'
          (resume_below n (drop size a) b (shorter n a frame size e p) ok''))
]

-- A buffer that arrives in two parts, the first of which is not refused, parses to the same result
-- in one call as in two calls between which the consumed bytes are removed: the frames of both
-- calls in order, the bytes of both consumed, and an error exactly when the second call reports one.
pub frame_parse-append :
    (a b : List ℕ)
    → (frame_parse a).status ≢ error
    → let r = frame_parse a in
      frame_parse (a ++ b) ≡ shift r.consumed r.frames (frame_parse (drop r.consumed a ++ b))
frame_parse-append a b ok = resume_below (length a) a b (omega arith) ok

accepted_below :
    (n : ℕ) (a b : List ℕ)
    → length a ≤ n
    → (frame_parse (a ++ b)).status ≢ error
    → (frame_parse a).status ≢ error
accepted_below zero [] b p ok = rw (frame_parse_more [] parse_one-nil) (pending_status-ne-error [])
accepted_below zero (x ∷ a) b p ok = absurd (omega arith)
accepted_below (suc n) a b p ok = elim (Scan-cases (parse_one a)) [
  | inl e ↦ rw (frame_parse_more a e) (pending_status-ne-error [])
  | inr (inl e) ↦
      let e' : parse_one (a ++ b) ≡ bad =
        subst (λ m. Extends m (parse_one (a ++ b))) e (parse_one-Extends a b) in
      absurd (ok (ap (λ r. r.status) (frame_parse_bad (a ++ b) e')))
  | inr (inr ((frame, size), e)) ↦
      let e' : parse_one (a ++ b) ≡ found (frame, size) =
        subst (λ m. Extends m (parse_one (a ++ b))) e (parse_one-Extends a b) in
      let fits = (parse_one-IsParsed a frame size e).fits in
      let whole = frame_parse_found (a ++ b) frame size e' in
      let ok' = (shift_ok size (frame ∷ []) _ (subst (λ r. r.status ≢ error) whole ok)).0 in
      let ok'' = subst (λ t. (frame_parse t).status ≢ error) (drop-append size a b fits) ok' in
      rw (frame_parse_found a frame size e) (
        shift-ne-error size (frame ∷ []) _
          (accepted_below n (drop size a) b (shorter n a frame size e p) ok''))
]

-- A buffer that is refused stays refused when more bytes come.
pub frame_parse-accepted :
    (a b : List ℕ) → (frame_parse (a ++ b)).status ≢ error → (frame_parse a).status ≢ error
frame_parse-accepted a b ok = accepted_below (length a) a b (omega arith) ok
