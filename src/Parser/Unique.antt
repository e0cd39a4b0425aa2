-- ===== src/Parser/Unique.antt =====
-- `HttpParse::parse` and its runs: one run for each parser and buffer, and it is what `parse` gives.
use mathlib.Core.Option.{Option}
use cpp_backend_server.Base.{
  ℕ, ◌+◌, ◌≤◌, ◌≡◌, refl, sym, ap, subst, ◌∙◌, none, some, length, drop, Bytes, arith,
}
use native.Mathlib.Nat.{zero-add}
use cpp_backend_server.Parser.{HttpParse, ParseStatus, ParseResult, Round, stop, go, parse}
use cpp_backend_server.Parser.Run.{Parses, stops, goes, parse-Returns}

abbrev Agrees : Round → Round → Type 0
Agrees (stop st q) (stop st' q') = (st ≡ st') × (q ≡ q')
Agrees (go n q) (go n' q') = (n ≡ n') × (q ≡ q')
Agrees _ _ = ⊥

Agrees-refl : (r : Round) → Agrees r r
Agrees-refl (stop st q) = (refl, refl)
Agrees-refl (go n q) = (refl, refl)

agree : (s t u : Round) → s ≡ t → s ≡ u → Agrees t u
agree s t u e f = subst (Agrees t) (sym e ∙ f) (Agrees-refl t)

-- A parser and a buffer have one run.
pub Parses-unique :
    {st st' : ParseStatus} {q q' p : HttpParse} {sub : Bytes} {c c' : ℕ}
    → Parses st q p sub c
    → Parses st' q' p sub c'
    → (st ≡ st') × (q ≡ q') × (c ≡ c')
Parses-unique (stops e z) (stops e' z') = let (a, b) = agree _ _ _ e e' in (a, b, z ∙ sym z')
Parses-unique (stops e z) (goes n m q e' z' r) = absurd (agree _ _ _ e e')
Parses-unique (goes n m q e z r) (stops e' z') = absurd (agree _ _ _ e e')
Parses-unique {st} {st'} {q} {q'} {p} {sub} (goes n m t e z r) (goes n' m' t' e' z' r') =
    let (same_n, same_t) = agree _ _ _ e e' in
    let moved : Parses st' q' t (drop n sub) m' =
      subst (λ k. Parses st' q' t (drop k sub) m') (sym same_n)
        (subst (λ u. Parses st' q' u (drop n' sub) m') (sym same_t) r') in
    let (a, b, c) = Parses-unique r moved in (a, b, omega (arith, z, z', same_n, c))

abbrev pub outcome : ParseStatus → ℕ → HttpParse → Option (ParseResult × HttpParse)
outcome st c q = some (record { status = st; consumed = c }, q)

outcome-eq :
    {st st' : ParseStatus} {q q' : HttpParse} {c c' : ℕ}
    → (st ≡ st') × (q ≡ q') × (c ≡ c')
    → outcome st c q ≡ outcome st' c' q'
outcome-eq (a, b, c) = λ i. outcome (a i) (c i) (b i)

abbrev RunOf : HttpParse → Bytes → Option (ParseResult × HttpParse) → Type 0
RunOf p sub none = ⊥
RunOf p sub (some (r, q)) = Parses r.status q p sub r.consumed

pub run_of_parse :
    (p q : HttpParse) (sub : Bytes) (st : ParseStatus) (c : ℕ)
    → parse p sub ≡ outcome st c q
    → Parses st q p sub c
run_of_parse p q sub st c e =
    let r = parse-Returns p sub in
    subst (RunOf p sub) (sym r.returned ∙ e)
      (subst (λ k. Parses r.status r.final p sub k) (sym (zero-add r.taken)) r.run)

pub parse_of_run :
    {p q : HttpParse} {sub : Bytes} {st : ParseStatus} {c : ℕ}
    → Parses st q p sub c
    → parse p sub ≡ outcome st c q
parse_of_run {p} {q} {sub} {st} {c} run =
    let r = parse-Returns p sub in
    let (a, b, n) = Parses-unique r.run run in r.returned ∙ outcome-eq (a, b, zero-add r.taken ∙ n)

consumed_of : Option (ParseResult × HttpParse) → ℕ
consumed_of none = 0
consumed_of (some (r, q)) = r.consumed

pub parse-within :
    (p q : HttpParse) (sub : Bytes) (st : ParseStatus) (c : ℕ)
    → parse p sub ≡ outcome st c q
    → c ≤ length sub
unfolding consumed_of
parse-within p q sub st c e =
    let r = parse-Returns p sub in
    let same : 0 + r.taken ≡ c = ap consumed_of (sym r.returned ∙ e) in
    omega (arith, same, r.within)
