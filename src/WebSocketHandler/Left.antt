-- ===== src/WebSocketHandler/Left.antt =====
-- What the parser leaves of a buffer that is the front of an accepted one.
use cpp_backend_server.Base.{
  ◌+◌, ◌≡◌, ◌≢◌, refl, sym, ap, subst, ◌∙◌, List, [], ◌++◌, append-nil, length, length-append,
  length-drop, drop, Bytes, arith,
}
use cpp_backend_server.Frame.{Frame, error, frame_parse}
use cpp_backend_server.Frame.Stream.{shift_ok}
use cpp_backend_server.Frame.Resume.{frame_parse-append, frame_parse-accepted}
use cpp_backend_server.Frame.Sound.{frame_parse-IsSound}

-- The parser has accepted all of `bytes`, as these frames.
pub record AllRead (bytes : Bytes) (fs : List Frame) : Type 0 where
  pub accepted : (frame_parse bytes).status ≢ error
  pub consumed : (frame_parse bytes).consumed ≡ length bytes
  pub frames : (frame_parse bytes).frames ≡ fs

-- What the parser leaves of a buffer that it accepts, and how the buffer reads on.
pub record Left (buffer rest : Bytes) (fs : List Frame) : Type 0 where
  pub accepted : (frame_parse buffer).status ≢ error
  pub quiet : (frame_parse (drop (frame_parse buffer).consumed buffer)).consumed ≡ 0
  pub later : List Frame
  pub all_read : AllRead (drop (frame_parse buffer).consumed buffer ++ rest) later
  pub split : fs ≡ (frame_parse buffer).frames ++ later

pub AllRead-Left :
    (buffer rest : Bytes) (fs : List Frame) → AllRead (buffer ++ rest) fs → Left buffer rest fs
AllRead-Left buffer rest fs all =
    let p = frame_parse buffer in
    let left = drop p.consumed buffer in
    let ok = frame_parse-accepted buffer rest all.accepted in
    let e = frame_parse-append buffer rest ok in
    let (ok', c, f) =
      shift_ok p.consumed p.frames (frame_parse (left ++ rest))
        (subst (λ r. r.status ≢ error) e all.accepted) in
    let within = (frame_parse-IsSound buffer).within in
    let e₀ = ap frame_parse (sym (append-nil buffer)) ∙ frame_parse-append buffer [] ok in
    let (_, c₀, _) =
      shift_ok p.consumed p.frames (frame_parse (left ++ []))
        (subst (λ r. r.status ≢ error) e₀ ok) in
    let c₁ : p.consumed ≡ p.consumed + (frame_parse left).consumed =
      ap (λ r. r.consumed) e₀
      ∙ c₀
      ∙ ap (λ t. p.consumed + (frame_parse t).consumed) (append-nil left) in
    record {
      accepted = ok;
      quiet = omega (arith, c₁);
      later = (frame_parse (left ++ rest)).frames;
      all_read = record {
        accepted = ok';
        consumed = omega (
          arith,
          within,
          sym all.consumed ∙ ap (λ r. r.consumed) e ∙ c,
          length-append buffer rest,
          length-append left rest,
          length-drop p.consumed buffer,
        );
        frames = refl;
      };
      split = sym all.frames ∙ ap (λ r. r.frames) e ∙ f;
    }
