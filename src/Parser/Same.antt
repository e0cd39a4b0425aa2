-- ===== src/Parser/Same.antt =====
-- One round of `HttpParse::parse` on a longer buffer.
use cpp_backend_server.Base.{
  ℕ, zero, suc, ◌+◌, ◌-◌, ◌≤◌, ◌<◌, ◌≡◌, refl, subst, ap, ◌∙◌, some, ◌++◌, ltb, length,
  length-append, length-drop, take, drop, take-append, drop-append, Bytes, find_crlf, find_crlf-lt,
  find_crlf-stable, find_byte, find_byte-stable, find_byte-lt, find_byte_from-stable, arith,
  Bool-cases, inl, inr, true, false,
}
use cpp_backend_server.Http.{HttpRequest}
use cpp_backend_server.Parser.{
  State, request_line, header, body, complete, error, HttpParse, Round, stop, go, settle,
  after_header, round_in, parse_round, parse_request_line, parse_header, parse_body, StepResult,
  takes, waits, fails, split_request_line, second_space, fill_request_line, space, substr, size_sub,
  size_mod,
}
use cpp_backend_server.Parser.View.{
  LineView, line_waits, line_fails, line_done, parse_request_line-view, HeaderView, header_waits,
  header_fails, header_ends, header_plain, header_length, parse_header-view,
}

-- The two spaces that the parser finds stand before the end of the line, as they do in every
-- request line of the form METHOD SP target SP version.
abbrev pub HasSpaces : Bytes → Type 0
HasSpaces a =
    (end i j : ℕ)
    → find_crlf a ≡ some end
    → find_byte space a ≡ some i
    → second_space a (some i) ≡ some j
    → (j < end) × (end < size_mod)

second_space-stable :
    (xs ys : Bytes) (i j : ℕ)
    → second_space xs (some i) ≡ some j
    → second_space (xs ++ ys) (some i) ≡ some j
unfolding second_space
second_space-stable xs ys i j h = find_byte_from-stable space (i + 1) xs ys j h

substr-append :
    (xs ys : Bytes) (pos count : ℕ)
    → pos + count ≤ length xs
    → substr (xs ++ ys) pos count ≡ substr xs pos count
substr-append xs ys pos count h =
    ap (take count) (drop-append pos xs ys (omega arith))
    ∙ take-append count (drop pos xs) ys (omega (arith, length-drop pos xs))

fill_request_line-append :
    (r : HttpRequest) (xs ys : Bytes) (end i j : ℕ)
    → end + 2 ≤ length xs
    → i < length xs
    → j < end
    → end < size_mod
    → fill_request_line r (xs ++ ys) end i j ≡ fill_request_line r xs end i j
unfolding fill_request_line size_sub
fill_request_line-append r xs ys end i j e f g h =
    rw
      (
        substr-append xs ys 0 i (omega arith),
        substr-append xs ys (i + 1) (j - i - 1) (omega arith),
        substr-append xs ys (j + 1) (size_sub (size_sub end j) 1) (omega arith),
      )
      refl

-- A round that goes on does the same on a longer buffer.
abbrev Same : HttpParse → Bytes → Bytes → State → Round → Type 0
Same p a b s (stop st q) = Unit
Same p a b s (go n q) = round_in s p (a ++ b) ≡ go n q

parse_request_line-append :
    (p : HttpParse) (a b : Bytes) (end i j : ℕ)
    → HasSpaces a
    → find_crlf a ≡ some end
    → find_byte space a ≡ some i
    → second_space a (some i) ≡ some j
    → parse_request_line p (a ++ b)
      ≡ (takes (end + 2) true, record p { request = fill_request_line p.request a end i j })
unfolding parse_request_line split_request_line
parse_request_line-append p a b end i j ready e f g =
    let (before, small) = ready end i j e f g in
    rw
      (
        find_crlf-stable a b end e,
        parse_request_line,
        find_byte-stable space a b i f,
        second_space-stable a b i j g,
        fill_request_line-append p.request a b end i j (find_crlf-lt a end e)
            (find_byte-lt space a i f) before small,
      )
      refl

parse_header-append :
    (p : HttpParse) (a b : Bytes) (end : ℕ)
    → find_crlf a ≡ some end
    → parse_header p (a ++ b) ≡ parse_header p a
unfolding parse_header
parse_header-append p a b zero e = rw (find_crlf-stable a b 0 e, e, parse_header) refl
parse_header-append p a b (suc n) e =
    rw
      (
        find_crlf-stable a b (suc n) e,
        e,
        parse_header,
        take-append (suc n) a b (omega (arith, find_crlf-lt a (suc n) e)),
      )
      refl

request_line-Same :
    (p : HttpParse) (a b : Bytes) (x : StepResult × HttpParse)
    → HasSpaces a
    → LineView p a x
    → Same p a b request_line (settle (λ r q. header) x)
unfolding settle waits fails takes round_in
request_line-Same p a b _ ready (line_waits e) = tt
request_line-Same p a b _ ready line_fails = tt
request_line-Same p a b _ ready (line_done end i j e f g) =
    rw (parse_request_line-append p a b end i j ready e f g) refl

header-Same :
    (p : HttpParse) (a b : Bytes) (x : StepResult × HttpParse)
    → x ≡ parse_header p a
    → HeaderView p a x
    → Same p a b header (settle after_header x)
unfolding settle waits fails takes round_in
header-Same p a b _ x (header_waits e) = tt
header-Same p a b _ x (header_fails q) = tt
header-Same p a b _ x (header_ends e) = rw (parse_header-append p a b 0 e, ← x) refl
header-Same p a b _ x (header_plain end name value e f) =
    rw (parse_header-append p a b end e, ← x) refl
header-Same p a b _ x (header_length end n name value e f g) =
    rw (parse_header-append p a b end e, ← x) refl

abbrev filled : HttpParse → Bytes → StepResult × HttpParse
filled p text =
    (takes p.content_length false, record p { request = record (p.request) { body = text } })

parse_body_full :
    (p : HttpParse) (a b : Bytes)
    → ltb (length a) p.content_length ≡ false
    → (parse_body p a ≡ filled p (take p.content_length a))
      × (parse_body p (a ++ b) ≡ filled p (take p.content_length a))
unfolding parse_body
parse_body_full p a b enough =
    let longer : ltb (length (a ++ b)) p.content_length ≡ false =
      ground (arith, length-append a b) in
    (rw enough refl, rw (longer, take-append p.content_length a b (ground arith)) refl)

body-Same :
    (p : HttpParse) (a b : Bytes) → Same p a b body (settle (λ r q. complete) (parse_body p a))
unfolding settle waits takes round_in
body-Same p a b = elim (Bool-cases (ltb (length a) p.content_length)) [
  | inl short ↦ rw (waiting short) tt
  | inr enough ↦ let (here, later) = parse_body_full p a b enough in rw here (rw later refl)
]
  where
    waiting : ltb (length a) p.content_length ≡ true → parse_body p a ≡ (waits, p)
    waiting short = unfold parse_body in rw short refl

parse_round-Same :
    (p : HttpParse) (a b : Bytes)
    → (p.state ≡ request_line → HasSpaces a)
    → Same p a b p.state (parse_round p a)
unfolding parse_round round_in
parse_round-Same p a b ready = by_state p.state refl
  where
    by_state : (s : State) → p.state ≡ s → Same p a b s (round_in s p a)
    by_state request_line e = request_line-Same p a b _ (ready e) (parse_request_line-view p a)
    by_state header e = header-Same p a b _ refl (parse_header-view p a)
    by_state body e = body-Same p a b
    by_state complete e = tt
    by_state error e = tt

pub round-Same :
    (p q : HttpParse) (a b : Bytes) (n : ℕ)
    → (p.state ≡ request_line → HasSpaces a)
    → parse_round p a ≡ go n q
    → parse_round p (a ++ b) ≡ go n q
unfolding parse_round
round-Same p q a b n ready e = subst (Same p a b p.state) e (parse_round-Same p a b ready)
