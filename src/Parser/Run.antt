-- ===== src/Parser/Run.antt =====
-- The loop of `HttpParse::parse` as a relation, and its termination.
use cpp_backend_server.Base.{
  ℕ, zero, suc, ◌+◌, ◌≤◌, ◌<◌, ◌≡◌, ◌≢◌, refl, sym, subst, ap, ◌∙◌, Bool, true, false, Option, some,
  ltb, length, length-drop, drop, Bytes, find_crlf-lt, arith, ◌⊎◌, inl, inr, Bool-cases,
  if◌then◌else◌, ◌==◌,
}
use native.Mathlib.Nat.{add-zero, add_assoc}
use cpp_backend_server.Parser.View.{
  LineView, line_waits, line_fails, line_done, parse_request_line-view, HeaderView, header_waits,
  header_fails, header_ends, header_plain, header_length, parse_header-view,
}
use cpp_backend_server.Parser.{
  State, request_line, header, body, complete, error, HttpParse, ParseStatus, ParseResult, Round,
  stop, go, settle, after_header, round_in, parse_round, parse_loop, parse, parse_body, StepResult,
  takes, waits, fails,
}

-- A run of the loop: what it returns, how many bytes it took, and the parser it leaves.
pub data Parses (st : ParseStatus) (final : HttpParse) : HttpParse → Bytes → ℕ → Type 0 where
  stops :
      {p : HttpParse} {sub : Bytes} {c : ℕ}
      → parse_round p sub ≡ stop st final
      → c ≡ 0
      → Parses st final p sub c
  goes :
      {p : HttpParse} {sub : Bytes} {c : ℕ} (n m : ℕ) (q : HttpParse)
      → parse_round p sub ≡ go n q
      → c ≡ n + m
      → Parses st final q (drop n sub) m
      → Parses st final p sub c

abbrev rank : State → ℕ
rank body = 1
rank _ = 0

-- What a round that goes on has done.
pub record IsProgress (p : HttpParse) (sub : Bytes) (n : ℕ) (q : HttpParse) : Type 0 where
  pub within : n ≤ length sub
  pub falls : rank q.state < n + rank p.state
  pub left_line : q.state ≢ request_line

abbrev Progress : HttpParse → Bytes → Round → Type 0
Progress p sub (stop st q) = Unit
Progress p sub (go n q) = IsProgress p sub n q

request_line-Progress :
    (p : HttpParse) (sub : Bytes) (x : StepResult × HttpParse)
    → LineView p sub x
    → Progress p sub (settle (λ r q. header) x)
unfolding settle waits fails takes
request_line-Progress p sub _ (line_waits e) = tt
request_line-Progress p sub _ line_fails = tt
request_line-Progress p sub _ (line_done end i j e f g) = record {
  within = find_crlf-lt sub end e;
  falls = omega arith;
  left_line = λ e. cc;
}

-- Whatever state a header line leads to, it is not that of the request line.
header_line-Progress :
    (p q : HttpParse) (sub : Bytes) (n : ℕ) (finished : Bool)
    → 2 ≤ n
    → n ≤ length sub
    → q.state ≡ header
    → Progress p sub (settle after_header (takes n finished, q))
unfolding settle after_header takes
header_line-Progress p q sub n finished two h e = record {
  within = h;
  falls = rank_after (after_header (takes n finished) q);
  left_line = state_after finished (q.content_length == 0);
}
  where
    rank_after : (s : State) → rank s < n + rank p.state
    rank_after body = omega arith
    rank_after request_line = omega arith
    rank_after header = omega arith
    rank_after complete = omega arith
    rank_after error = omega arith

    state_after :
        (f z : Bool) → (if f then if z then complete else body else q.state) ≢ request_line
    state_after true true e' = cc
    state_after true false e' = cc
    state_after false z e' = cc

header-Progress :
    (p : HttpParse) (sub : Bytes) (x : StepResult × HttpParse)
    → p.state ≡ header
    → HeaderView p sub x
    → Progress p sub (settle after_header x)
unfolding settle waits fails
header-Progress p sub _ st (header_waits e) = tt
header-Progress p sub _ st (header_fails q) = tt
header-Progress p sub _ st (header_ends e) =
    header_line-Progress p p sub 2 true (omega arith) (omega (arith, find_crlf-lt sub 0 e)) st
header-Progress p sub _ st (header_plain end name value e f) =
    header_line-Progress p _ sub (end + 2) false (omega arith) (find_crlf-lt sub end e) st
header-Progress p sub _ st (header_length end n name value e f g) =
    header_line-Progress p _ sub (end + 2) false (omega arith) (find_crlf-lt sub end e) st

body-Progress :
    (p : HttpParse) (sub : Bytes) → p.state ≡ body → Progress p sub (round_in body p sub)
unfolding round_in parse_body settle waits takes
body-Progress p sub st = elim (Bool-cases (ltb (length sub) p.content_length)) [
  | inl short ↦ rw (short, settle) tt
  | inr enough ↦
      rw (enough, settle)
        (record { within = ground arith; falls = omega (arith, ap rank st); left_line = λ e. cc })
]

parse_round-Progress : (p : HttpParse) (sub : Bytes) → Progress p sub (parse_round p sub)
unfolding parse_round round_in
parse_round-Progress p sub = by_state p.state refl
  where
    by_state : (s : State) → p.state ≡ s → Progress p sub (round_in s p sub)
    by_state request_line e = request_line-Progress p sub _ (parse_request_line-view p sub)
    by_state header e = header-Progress p sub _ e (parse_header-view p sub)
    by_state body e = body-Progress p sub e
    by_state complete e = tt
    by_state error e = tt

pub go-IsProgress :
    (p q : HttpParse) (sub : Bytes) (n : ℕ) → parse_round p sub ≡ go n q → IsProgress p sub n q
go-IsProgress p q sub n e = subst (Progress p sub) e (parse_round-Progress p sub)

Round-cases :
    (r : Round)
    → ((st : ParseStatus) × (q : HttpParse) × (r ≡ stop st q))
      ⊎ ((n : ℕ) × (q : HttpParse) × (r ≡ go n q))
Round-cases (stop st q) = inl (st, q, refl)
Round-cases (go n q) = inr (n, q, refl)

-- The result of `parse` from `c` bytes on, and the run that leads to it.
pub record Returns (p : HttpParse) (sub : Bytes) (c : ℕ) (out : Option (ParseResult × HttpParse))
    : Type 0 where
  pub status : ParseStatus
  pub taken : ℕ
  pub final : HttpParse
  pub returned : out ≡ some (record { status = status; consumed = c + taken }, final)
  pub within : taken ≤ length sub
  pub run : Parses status final p sub taken

parse_loop-Returns :
    (fuel c : ℕ) (p : HttpParse) (sub : Bytes)
    → length sub + rank p.state < fuel
    → Returns p sub c (parse_loop fuel c p sub)
unfolding parse_loop
parse_loop-Returns zero c p sub h = absurd (omega arith)
parse_loop-Returns (suc fuel) c p sub h = elim (Round-cases (parse_round p sub)) [
  | inl (st, q, e) ↦
      rw (e, parse_loop)
        (record {
          status = st;
          taken = 0;
          final = q;
          returned = ap (λ k. some (record { status = st; consumed = k }, q)) (sym (add-zero c));
          within = omega arith;
          run = stops e refl;
        })
  | inr (n, q, e) ↦
      let g = go-IsProgress p q sub n e in
      let r =
        parse_loop-Returns fuel (c + n) q (drop n sub)
          (omega (arith, length-drop n sub, g.within, g.falls)) in
      rw (e, parse_loop)
        (record {
          status = r.status;
          taken = n + r.taken;
          final = r.final;
          returned =
              r.returned
              ∙ ap (λ k. some (record { status = r.status; consumed = k }, r.final))
                  (add_assoc c n r.taken);
          within = omega (arith, r.within, length-drop n sub, g.within);
          run = goes n r.taken q e refl r.run;
        })
]

-- `parse` returns for every parser and buffer, and claims no byte that the buffer does not hold.
pub parse-Returns : (p : HttpParse) (buffer : Bytes) → Returns p buffer 0 (parse p buffer)
unfolding parse
parse-Returns p buffer = parse_loop-Returns (length buffer + 2) 0 p buffer (rank_bound p.state)
  where
    rank_bound : (s : State) → length buffer + rank s < length buffer + 2
    rank_bound body = omega arith
    rank_bound request_line = omega arith
    rank_bound header = omega arith
    rank_bound complete = omega arith
    rank_bound error = omega arith
