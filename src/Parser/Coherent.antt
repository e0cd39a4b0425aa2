-- ===== src/Parser/Coherent.antt =====
-- What a parser holds between the calls of `HttpParse::parse`, and what a complete request is.
use cpp_backend_server.Base.{
  ℕ, ◌≤◌, ◌≡◌, ◌≢◌, refl, sym, subst, ap, ◌∙◌, true, false, Option, none, some, [], ◌∷◌, ◌==◌,
  if◌then◌else◌, length, length-take, Bytes, lookup, insert, lookup-insert, eq_bytes, arith,
  Bool-cases, inl, inr, ◌⊎◌,
}
use cpp_backend_server.Http.{HttpRequest, Headers}
use cpp_backend_server.Parser.{
  State, request_line, header, body, complete, error, HttpParse, ParseStatus, Round, stop, go,
  settle, after_header, round_in, parse_round, parse, StepResult, waits, fails, takes,
  parse_content_length, accept_length, max_body_size, length_name, reset, fill_request_line,
  take_request, take_completed,
}
use cpp_backend_server.Parser.View.{
  LineView, line_waits, line_fails, line_done, parse_request_line-view, HeaderView, header_waits,
  header_fails, header_ends, header_plain, header_length, parse_header-view, BodyView, body_waits,
  body_done, parse_body-view,
}
use cpp_backend_server.Parser.Run.{Parses, stops, goes}
use cpp_backend_server.Parser.Unique.{outcome, run_of_parse}

-- The body length that the stored headers announce: that of `Content-Length`, or 0 with none.
abbrev pub AnnouncedBy : Option Bytes → ℕ → Type 0
AnnouncedBy none n = n ≡ 0
AnnouncedBy (some text) n = parse_content_length text ≡ some n

abbrev pub Announces : Headers → ℕ → Type 0
Announces headers n = AnnouncedBy (lookup length_name headers) n

-- What the body is in each state.
abbrev BodyIn : State → ℕ → Bytes → Type 0
BodyIn complete n text = length text ≡ n
BodyIn error n text = Unit
BodyIn _ n text = text ≡ []

-- Outside the error state the length in force is the one that the headers announce, it is at most
-- 1 MiB, and the body is empty until it is there whole.
abbrev pub IsCoherent : HttpParse → Type 0
IsCoherent p =
    p.state ≢ error
    → (p.content_length ≤ max_body_size)
      × Announces p.request.headers p.content_length
      × BodyIn p.state p.content_length p.request.body

pub reset-IsCoherent : (p : HttpParse) → IsCoherent (reset p)
unfolding reset lookup
reset-IsCoherent p ok = (omega arith, refl, refl)

accept_length-le : (r : Option (ℕ × Bytes)) (n : ℕ) → accept_length r ≡ some n → n ≤ max_body_size
unfolding accept_length
accept_length-le none n e = cc
accept_length-le (some (v, [])) n e = ground arith
accept_length-le (some (v, c ∷ cs)) n e = cc

parse_content_length-le :
    (text : Bytes) (n : ℕ) → parse_content_length text ≡ some n → n ≤ max_body_size
unfolding parse_content_length
parse_content_length-le [] n e = cc
parse_content_length-le (c ∷ cs) n e = accept_length-le _ n e

-- The three facts about a parser whose state is known.
abbrev Facts : State → HttpParse → Type 0
Facts s p =
    (p.content_length ≤ max_body_size)
    × Announces p.request.headers p.content_length
    × BodyIn s p.content_length p.request.body

abbrev Keeps : Round → Type 0
Keeps (stop st q) = IsCoherent q
Keeps (go n q) = IsCoherent q

line-Keeps :
    (p : HttpParse) (sub : Bytes) (x : StepResult × HttpParse)
    → IsCoherent p
    → Facts request_line p
    → LineView p sub x
    → Keeps (settle (λ r q. header) x)
unfolding settle waits fails takes fill_request_line
line-Keeps p sub _ h f (line_waits e) = h
line-Keeps p sub _ h f line_fails = λ ok. absurd (ok refl)
line-Keeps p sub _ h f (line_done end i j e g k) = λ ok. f

announce-plain :
    (name value : Bytes) (hs : Headers) (n : ℕ)
    → eq_bytes name length_name ≡ false
    → Announces hs n
    → Announces (insert name value hs) n
announce-plain name value hs n e a =
    subst (λ o. AnnouncedBy o n) (sym (lookup-insert name length_name value hs)) (rw e a)

announce-length :
    (name value : Bytes) (hs : Headers) (n : ℕ)
    → eq_bytes name length_name ≡ true
    → parse_content_length value ≡ some n
    → Announces (insert name value hs) n
announce-length name value hs n e v =
    subst (λ o. AnnouncedBy o n) (sym (lookup-insert name length_name value hs)) (rw e v)

header-Keeps :
    (p : HttpParse) (sub : Bytes) (x : StepResult × HttpParse)
    → p.state ≡ header
    → IsCoherent p
    → Facts header p
    → HeaderView p sub x
    → Keeps (settle after_header x)
unfolding settle waits fails takes after_header
header-Keeps p sub _ st h f (header_waits e) = h
header-Keeps p sub _ st h f (header_fails q) = λ ok. absurd (ok refl)
header-Keeps p sub _ st h f (header_ends e) = ends (Bool-cases (p.content_length == 0))
  where
    ends :
        ((p.content_length == 0) ≡ true) ⊎ ((p.content_length == 0) ≡ false)
        → IsCoherent (record p { state = if p.content_length == 0 then complete else body })
    ends (inl z) = rw z (λ ok. (f.0, f.1, ap length f.2 ∙ ground (arith, z)))
    ends (inr z) = rw z (λ ok. f)
header-Keeps p sub _ st h f (header_plain end name value e g) =
    rw st (λ ok. (f.0, announce-plain name value p.request.headers p.content_length g f.1, f.2))
header-Keeps p sub _ st h f (header_length end n name value e g v) = rw st (λ ok.
    (parse_content_length-le value n v, announce-length name value p.request.headers n g v, f.2))

body-Keeps :
    (p : HttpParse) (sub : Bytes) (x : StepResult × HttpParse)
    → IsCoherent p
    → Facts body p
    → BodyView p sub x
    → Keeps (settle (λ r q. complete) x)
unfolding settle waits takes
body-Keeps p sub _ h f (body_waits short) = h
body-Keeps p sub _ h f (body_done enough) =
    λ ok. (f.0, f.1, omega (arith, length-take p.content_length sub))

round-Keeps : (p : HttpParse) (sub : Bytes) → IsCoherent p → Keeps (parse_round p sub)
unfolding parse_round round_in
round-Keeps p sub h = by_state p.state refl
  where
    facts : (s : State) → p.state ≡ s → s ≢ error → Facts s p
    facts s e ok = subst (λ t. Facts t p) e (h (λ f. ok (sym e ∙ f)))

    by_state : (s : State) → p.state ≡ s → Keeps (round_in s p sub)
    by_state request_line e =
        line-Keeps p sub _ h (facts request_line e (λ f. cc)) (parse_request_line-view p sub)
    by_state header e =
        header-Keeps p sub _ e h (facts header e (λ f. cc)) (parse_header-view p sub)
    by_state body e = body-Keeps p sub _ h (facts body e (λ f. cc)) (parse_body-view p sub)
    by_state complete e = h
    by_state error e = h

run-Keeps :
    {st : ParseStatus} {q p : HttpParse} {sub : Bytes} {c : ℕ}
    → Parses st q p sub c
    → IsCoherent p
    → IsCoherent q
run-Keeps {q = q} {p = p} {sub} (stops e z) h = subst Keeps e (round-Keeps p sub h)
run-Keeps {q = q} {p = p} {sub} (goes n m t e z r) h =
    run-Keeps r (subst Keeps e (round-Keeps p sub h))

-- What is asked of a request that is handed over, and of the parser left behind.
abbrev pub IsHandedOver : Option (HttpRequest × HttpParse) → Type 0
IsHandedOver none = Unit
IsHandedOver (some (request, r)) =
    (length request.body ≤ max_body_size)
    × Announces request.headers (length request.body)
    × IsCoherent r

take_request-IsHandedOver : (q : HttpParse) → IsCoherent q → IsHandedOver (take_request q)
unfolding take_request take_completed
take_request-IsHandedOver q k = by_state q.state refl
  where
    by_state : (s : State) → q.state ≡ s → IsHandedOver (take_completed s q)
    by_state request_line e = tt
    by_state header e = tt
    by_state body e = tt
    by_state complete e =
        let (small, announced, whole) =
          subst (λ t. Facts t q) e (k (λ f. complete-ne-error (sym e ∙ f))) in
        (
          omega (arith, whole, small),
          subst (AnnouncedBy (lookup length_name q.request.headers)) (sym whole) announced,
          reset-IsCoherent q,
        )
      where
        complete-ne-error : State.complete ≢ error
        complete-ne-error f = cc
    by_state error e = tt

-- Coherence is kept by every call of `parse`, whatever the bytes; and a request that
-- `take_request` hands over from a coherent parser has exactly the body length that its own
-- Content-Length header announces, or an empty body if it has none, and never more than 1 MiB, and
-- leaves a coherent parser behind.
pub parse-IsCoherent :
    (p q : HttpParse) (buffer : Bytes) (st : ParseStatus) (c : ℕ)
    → IsCoherent p
    → parse p buffer ≡ outcome st c q
    → IsCoherent q × IsHandedOver (take_request q)
parse-IsCoherent p q buffer st c h e =
    let k = run-Keeps (run_of_parse p q buffer st c e) h in (k, take_request-IsHandedOver q k)
