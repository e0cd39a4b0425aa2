-- ===== src/Frame/Stream.antt =====
-- The loop of `WebSocketSession::FrameParse`: its fuel is enough, its early return is the next
-- round's, and one frame is taken off at a time.
use cpp_backend_server.Base.{
  ℕ, zero, suc, ◌+◌, ◌≤◌, ◌≡◌, ◌≢◌, refl, sym, ap, ap₂, ◌∙◌, List, [], ◌∷◌, ◌++◌, length,
  length-drop, drop, drop-length, append_assoc, append-nil, arith, true, Bool-cases, ◌⊎◌, inl, inr,
  ◌==◌, ==_iff,
}
use native.Mathlib.Nat.{add_assoc, add-zero, zero-add}
use cpp_backend_server.Frame.{
  Scan, found, more, bad, need, parse_one, Frame, FrameParseResult, FrameParseStatus, success,
  error, need_more_data, pending_status, frame_loop, frame_parse,
}
use cpp_backend_server.Frame.Legal.{parse_one-IsParsed}

-- The result of a parse that goes on after `fs` have been read from `c` bytes.
unfoldable pub shift : ℕ → List Frame → FrameParseResult → FrameParseResult
shift c fs r = elim r.status [
  | error ↦ record { status = error; consumed = c + r.consumed; frames = [] }
  | _ ↦ record {
    status = pending_status (fs ++ r.frames);
    consumed = c + r.consumed;
    frames = fs ++ r.frames;
  }
]

pub pending_status-ne-error : (fs : List Frame) → pending_status fs ≢ error
unfolding pending_status
pending_status-ne-error [] e = cc
pending_status-ne-error (f ∷ fs) e = cc

abbrev pub waiting : ℕ → List Frame → FrameParseResult
waiting c fs = record { status = pending_status fs; consumed = c; frames = fs }

shift-waiting :
    (c d : ℕ) (fs gs : List Frame) → shift c fs (waiting d gs) ≡ waiting (c + d) (fs ++ gs)
unfolding shift pending_status
shift-waiting c d fs [] = refl
shift-waiting c d fs (g ∷ gs) = refl

pub shift-shift :
    (c d : ℕ) (fs gs : List Frame) (r : FrameParseResult)
    → shift c fs (shift d gs r) ≡ shift (c + d) (fs ++ gs) r
unfolding shift
shift-shift c d fs gs r = by_status r.status r.consumed r.frames
  where
    moved :
        (n : ℕ) (hs : List Frame)
        → shift c fs (waiting (d + n) (gs ++ hs)) ≡ waiting (c + d + n) ((fs ++ gs) ++ hs)
    moved n hs =
        shift-waiting c (d + n) fs (gs ++ hs)
        ∙ ap₂ waiting (sym (add_assoc c d n)) (sym (append_assoc fs gs hs))

    by_status :
        (s : FrameParseStatus) (n : ℕ) (hs : List Frame)
        → shift c fs (shift d gs (record { status = s; consumed = n; frames = hs }))
          ≡ shift (c + d) (fs ++ gs) (record { status = s; consumed = n; frames = hs })
    by_status success n hs = moved n hs
    by_status error n hs =
        ap (λ k. record { status = error; consumed = k; frames = [] }) (sym (add_assoc c d n))
    by_status need_more_data n hs = moved n hs

pub parse_one-nil : parse_one [] ≡ more
unfolding parse_one need
parse_one-nil = refl

pub frame_loop-nil : (fuel c : ℕ) (fs : List Frame) → frame_loop fuel c fs [] ≡ waiting c fs
unfolding frame_loop
frame_loop-nil zero c fs = refl
frame_loop-nil (suc fuel) c fs = rw (parse_one-nil, frame_loop) refl

drop_all : (sub : List ℕ) (n : ℕ) → length sub ≡ n → drop n sub ≡ []
drop_all sub n e = ap (drop n) (sym (append-nil sub)) ∙ drop-length sub [] n (sym e)

pending_status-push : (fs : List Frame) (f : Frame) → pending_status (fs ++ f ∷ []) ≡ success
unfolding pending_status
pending_status-push [] f = refl
pending_status-push (g ∷ fs) f = refl

module _ (fuel c : ℕ) (fs : List Frame) (sub : List ℕ) where
  frame_loop_more : parse_one sub ≡ more → frame_loop (suc fuel) c fs sub ≡ waiting c fs
  unfolding frame_loop
  frame_loop_more e = rw (e, frame_loop) refl

  frame_loop_bad :
      parse_one sub ≡ bad
      → frame_loop (suc fuel) c fs sub ≡ record { status = error; consumed = c; frames = [] }
  unfolding frame_loop
  frame_loop_bad e = rw (e, frame_loop) refl

  -- The early return is the round after it, on an empty buffer.
  frame_loop_found :
      (frame : Frame) (size : ℕ)
      → parse_one sub ≡ found (frame, size)
      → frame_loop (suc fuel) c fs sub
        ≡ frame_loop fuel (c + size) (fs ++ frame ∷ []) (drop size sub)
  unfolding frame_loop
  frame_loop_found frame size e = elim (Bool-cases (length sub == size)) [
    | inl all ↦ rw (e, frame_loop, all) (took_all all)
    | inr part ↦ rw (e, frame_loop, part) refl
  ]
    where
      took_all :
          (length sub == size) ≡ true
          → record { status = success; consumed = c + size; frames = fs ++ frame ∷ [] }
            ≡ frame_loop fuel (c + size) (fs ++ frame ∷ []) (drop size sub)
      took_all all =
          ap (λ st. record { status = st; consumed = c + size; frames = fs ++ frame ∷ [] })
            (sym (pending_status-push fs frame))
          ∙ sym (frame_loop-nil fuel (c + size) (fs ++ frame ∷ []))
          ∙ ap (frame_loop fuel (c + size) (fs ++ frame ∷ []))
              (sym (drop_all sub size ((==_iff (length sub) size).0 all)))

pub Scan-cases : {A : Type 0} (m : Scan A) → (m ≡ more) ⊎ ((m ≡ bad) ⊎ ((a : A) × (m ≡ found a)))
Scan-cases more = inl refl
Scan-cases bad = inr (inl refl)
Scan-cases (found a) = inr (inr (a, refl))

pub shorter :
    (fuel : ℕ) (sub : List ℕ) (frame : Frame) (size : ℕ)
    → parse_one sub ≡ found (frame, size)
    → length sub ≤ suc fuel
    → length (drop size sub) ≤ fuel
shorter fuel sub frame size e h =
    let p = parse_one-IsParsed sub frame size e in
    omega (arith, length-drop size sub, p.least, p.fits)

-- Any fuel from the length of the buffer on gives the same result.
frame_loop_enough :
    (f g c : ℕ) (fs : List Frame) (sub : List ℕ)
    → length sub ≤ f
    → length sub ≤ g
    → frame_loop f c fs sub ≡ frame_loop g c fs sub
frame_loop_enough zero g c fs [] p q = frame_loop-nil zero c fs ∙ sym (frame_loop-nil g c fs)
frame_loop_enough zero g c fs (x ∷ sub) p q = absurd (omega arith)
frame_loop_enough (suc f) zero c fs [] p q =
    frame_loop-nil (suc f) c fs ∙ sym (frame_loop-nil zero c fs)
frame_loop_enough (suc f) zero c fs (x ∷ sub) p q = absurd (omega arith)
frame_loop_enough (suc f) (suc g) c fs sub p q = elim (Scan-cases (parse_one sub)) [
  | inl e ↦ frame_loop_more f c fs sub e ∙ sym (frame_loop_more g c fs sub e)
  | inr (inl e) ↦ frame_loop_bad f c fs sub e ∙ sym (frame_loop_bad g c fs sub e)
  | inr (inr ((frame, size), e)) ↦
      frame_loop_found f c fs sub frame size e
      ∙ frame_loop_enough f g (c + size) (fs ++ frame ∷ []) (drop size sub)
          (shorter f sub frame size e p) (shorter g sub frame size e q)
      ∙ sym (frame_loop_found g c fs sub frame size e)
]

frame_loop_zero : (c : ℕ) (fs : List Frame) (sub : List ℕ) → frame_loop 0 c fs sub ≡ waiting c fs
unfolding frame_loop
frame_loop_zero c fs sub = refl

shift-start : (c : ℕ) (fs : List Frame) → shift c fs (waiting 0 []) ≡ waiting c fs
shift-start c fs = shift-waiting c 0 fs [] ∙ ap₂ waiting (add-zero c) (append-nil fs)

abbrev pub failed : ℕ → FrameParseResult
failed c = record { status = error; consumed = c; frames = [] }

shift-failed : (c : ℕ) (fs : List Frame) → shift c fs (failed 0) ≡ failed c
unfolding shift
shift-failed c fs = ap failed (add-zero c)

frame_loop_first :
    (f : ℕ) (sub : List ℕ) (frame : Frame) (size : ℕ)
    → parse_one sub ≡ found (frame, size)
    → frame_loop (suc f) 0 [] sub ≡ frame_loop f size (frame ∷ []) (drop size sub)
frame_loop_first f sub frame size e =
    frame_loop_found f 0 [] sub frame size e
    ∙ ap (λ k. frame_loop f k (frame ∷ []) (drop size sub)) (zero-add size)

-- The variables of the loop only shift its result.
frame_loop-shift :
    (f c : ℕ) (fs : List Frame) (sub : List ℕ)
    → frame_loop f c fs sub ≡ shift c fs (frame_loop f 0 [] sub)
frame_loop-shift zero c fs sub =
    frame_loop_zero c fs sub
    ∙ sym (shift-start c fs)
    ∙ ap (shift c fs) (sym (frame_loop_zero 0 [] sub))
frame_loop-shift (suc f) c fs sub = elim (Scan-cases (parse_one sub)) [
  | inl e ↦
      frame_loop_more f c fs sub e
      ∙ sym (shift-start c fs)
      ∙ ap (shift c fs) (sym (frame_loop_more f 0 [] sub e))
  | inr (inl e) ↦
      frame_loop_bad f c fs sub e
      ∙ sym (shift-failed c fs)
      ∙ ap (shift c fs) (sym (frame_loop_bad f 0 [] sub e))
  | inr (inr ((frame, size), e)) ↦
      frame_loop_found f c fs sub frame size e
      ∙ frame_loop-shift f (c + size) (fs ++ frame ∷ []) (drop size sub)
      ∙ sym (shift-shift c size fs (frame ∷ []) (frame_loop f 0 [] (drop size sub)))
      ∙ ap (shift c fs) (sym (frame_loop-shift f size (frame ∷ []) (drop size sub)))
      ∙ ap (shift c fs) (sym (frame_loop_first f sub frame size e))
]

enough_parse : (f : ℕ) (sub : List ℕ) → length sub ≤ f → frame_parse sub ≡ frame_loop f 0 [] sub
unfolding frame_parse
enough_parse f sub h = frame_loop_enough (length sub) f 0 [] sub (omega arith) h

-- The three ways in which a parse starts.
pub frame_parse_more : (sub : List ℕ) → parse_one sub ≡ more → frame_parse sub ≡ waiting 0 []
frame_parse_more sub e =
    enough_parse (suc (length sub)) sub (omega arith) ∙ frame_loop_more (length sub) 0 [] sub e

pub frame_parse_bad : (sub : List ℕ) → parse_one sub ≡ bad → frame_parse sub ≡ failed 0
frame_parse_bad sub e =
    enough_parse (suc (length sub)) sub (omega arith) ∙ frame_loop_bad (length sub) 0 [] sub e

pub frame_parse_found :
    (sub : List ℕ) (frame : Frame) (size : ℕ)
    → parse_one sub ≡ found (frame, size)
    → frame_parse sub ≡ shift size (frame ∷ []) (frame_parse (drop size sub))
frame_parse_found sub frame size e =
    enough_parse (suc (length sub)) sub (omega arith)
    ∙ frame_loop_first (length sub) sub frame size e
    ∙ frame_loop-shift (length sub) size (frame ∷ []) (drop size sub)
    ∙ ap (shift size (frame ∷ []))
        (sym (enough_parse (length sub) (drop size sub) (omega (arith, length-drop size sub))))

pub frame_parse-start : (b : List ℕ) → frame_parse b ≡ shift 0 [] (frame_parse b)
unfolding frame_parse
frame_parse-start b = frame_loop-shift (length b) 0 [] b

abbrev whole : FrameParseStatus → ℕ → List Frame → FrameParseResult
whole s n hs = record { status = s; consumed = n; frames = hs }

pub shift_ok :
    (c : ℕ) (fs : List Frame) (r : FrameParseResult)
    → (shift c fs r).status ≢ error
    → (r.status ≢ error)
      × ((shift c fs r).consumed ≡ c + r.consumed)
      × ((shift c fs r).frames ≡ fs ++ r.frames)
unfolding shift
shift_ok c fs r h = by_status r.status r.consumed r.frames h
  where
    by_status :
        (s : FrameParseStatus) (n : ℕ) (hs : List Frame)
        → (shift c fs (whole s n hs)).status ≢ error
        → (s ≢ error)
          × ((shift c fs (whole s n hs)).consumed ≡ c + n)
          × ((shift c fs (whole s n hs)).frames ≡ fs ++ hs)
    by_status success n hs h = (λ e. cc, refl, refl)
    by_status error n hs h = absurd (h refl)
    by_status need_more_data n hs h = (λ e. cc, refl, refl)

pub shift-ne-error :
    (c : ℕ) (fs : List Frame) (r : FrameParseResult)
    → r.status ≢ error
    → (shift c fs r).status ≢ error
unfolding shift
shift-ne-error c fs r h = by_status r.status r.consumed r.frames h
  where
    by_status :
        (s : FrameParseStatus) (n : ℕ) (hs : List Frame)
        → s ≢ error
        → (shift c fs (whole s n hs)).status ≢ error
    by_status success n hs h = pending_status-ne-error (fs ++ hs)
    by_status error n hs h = absurd (h refl)
    by_status need_more_data n hs h = pending_status-ne-error (fs ++ hs)
