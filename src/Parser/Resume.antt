-- ===== src/Parser/Resume.antt =====
-- A request arrives in pieces: `HttpParse::parse` on a buffer and on its parts.
use cpp_backend_server.Base.{
  ℕ, ◌+◌, ◌≡◌, refl, sym, subst, ap, ◌∙◌, ◌++◌, drop, drop-append, drop-drop, Bytes, arith,
}
use cpp_backend_server.Parser.{
  State, request_line, header, body, complete, error, HttpParse, ParseStatus, Round, stop,
  need_more_data, settle, after_header, round_in, parse_round, parse, StepResult, waits, fails,
  takes,
}
use cpp_backend_server.Parser.View.{
  LineView, line_waits, line_fails, line_done, parse_request_line-view, HeaderView, header_waits,
  header_fails, header_ends, header_plain, header_length, parse_header-view, BodyView, body_waits,
  body_done, parse_body-view,
}
use cpp_backend_server.Parser.Run.{Parses, stops, goes, go-IsProgress}
use cpp_backend_server.Parser.Unique.{outcome, run_of_parse, parse_of_run}
use cpp_backend_server.Parser.Same.{HasSpaces, round-Same}

-- A round that waits leaves the parser as it was.
abbrev Keeps : HttpParse → Round → Type 0
Keeps p (stop need_more_data q) = q ≡ p
Keeps p _ = Unit

parse_round-Keeps : (p : HttpParse) (sub : Bytes) → Keeps p (parse_round p sub)
unfolding parse_round round_in settle waits fails takes
parse_round-Keeps p sub = by_state p.state
  where
    line : (x : StepResult × HttpParse) → LineView p sub x → Keeps p (settle (λ r q. header) x)
    line _ (line_waits e) = refl
    line _ line_fails = tt
    line _ (line_done end i j e f g) = tt

    headers : (x : StepResult × HttpParse) → HeaderView p sub x → Keeps p (settle after_header x)
    headers _ (header_waits e) = refl
    headers _ (header_fails q) = tt
    headers _ (header_ends e) = tt
    headers _ (header_plain end name value e f) = tt
    headers _ (header_length end n name value e f g) = tt

    bodies : (x : StepResult × HttpParse) → BodyView p sub x → Keeps p (settle (λ r q. complete) x)
    bodies _ (body_waits h) = refl
    bodies _ (body_done h) = tt

    by_state : (s : State) → Keeps p (round_in s p sub)
    by_state request_line = line _ (parse_request_line-view p sub)
    by_state header = headers _ (parse_header-view p sub)
    by_state body = bodies _ (parse_body-view p sub)
    by_state complete = tt
    by_state error = tt

waiting-eq : (p q : HttpParse) (sub : Bytes) → parse_round p sub ≡ stop need_more_data q → q ≡ p
waiting-eq p q sub e = subst (Keeps p) e (parse_round-Keeps p sub)

Parses-append :
    {q r p : HttpParse} {st : ParseStatus} {a : Bytes} {c : ℕ} (b : Bytes) (d : ℕ)
    → (p.state ≡ request_line → HasSpaces a)
    → Parses need_more_data q p a c
    → Parses st r q (drop c a ++ b) d
    → Parses st r p (a ++ b) (c + d)
Parses-append {q} {r} {p} {st} {a} {c} b d ready (stops e z) later =
    let same : Parses st r p (a ++ b) d =
      subst (λ t. Parses st r t (a ++ b) d) (waiting-eq p q a e)
        (subst (λ k. Parses st r q (drop k a ++ b) d) z later) in
    let sum : d ≡ c + d = omega (arith, z) in subst (λ k. Parses st r p (a ++ b) k) sum same
Parses-append {q} {r} {p} {st} {a} {c} b d ready (goes n m q' e z run) later =
    let g = go-IsProgress p q' a n e in
    let at : drop c a ≡ drop m (drop n a) = ap (λ k. drop k a) z ∙ sym (drop-drop m n a) in
    goes n (m + d) q' (round-Same p q' a b n ready e) (omega (arith, z)) (
      rw (drop-append n a b g.within)
        (Parses-append b d (λ l. absurd (g.left_line l)) run (rw (← at) later)))

-- A request may be cut anywhere: when `parse` waits after its first part `a`, then parsing the
-- unconsumed rest of `a` with the next bytes `b` ends just as one call on the whole of `a ++ b`
-- does, with the bytes consumed by the two calls added up. For a parser that still reads the
-- request line this takes that the spaces of the line stand before its CRLF.
pub parse-append :
    (p q r : HttpParse) (a b : Bytes) (st : ParseStatus) (c d : ℕ)
    → (p.state ≡ request_line → HasSpaces a)
    → parse p a ≡ outcome need_more_data c q
    → parse q (drop c a ++ b) ≡ outcome st d r
    → parse p (a ++ b) ≡ outcome st (c + d) r
parse-append p q r a b st c d ready first second = parse_of_run (
    Parses-append b d ready (run_of_parse p q a need_more_data c first)
      (run_of_parse q r _ st d second))
