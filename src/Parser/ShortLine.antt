-- ===== src/Parser/ShortLine.antt =====
-- `HttpParse::parseRequestLine` looks for its two spaces in the whole buffer, and not in the line.
use mathlib.Core.Option
use cpp_backend_server.Base.{
  ℕ, zero, suc, ◌+◌, ◌-◌, ◌≡◌, ◌≢◌, refl, sym, ap, ◌∙◌, true, Option, none, some, [], ◌∷◌, ◌++◌,
  length, length-append, drop, take, drop-length, drop-drop, take-length, Bytes, Lacks, All-append,
  find_byte, find_byte-append, find_byte-skip, find_byte-Lacks, find_byte_from, find_crlf,
  find_crlf-append, append_assoc, crlf, arith,
}
use cpp_backend_server.Parser.{
  HttpParse, takes, fails, space, substr, parse_request_line, split_request_line, second_space,
  fill_request_line,
}

find_byte_from-drop :
    (c n : ℕ) (xs : Bytes) (k : ℕ)
    → find_byte c (drop n xs) ≡ some k
    → find_byte_from c n xs ≡ some (n + k)
unfolding find_byte_from find_byte
find_byte_from-drop c zero xs k e = e ∙ ap some (omega arith)
find_byte_from-drop c (suc n) [] k e = cc
find_byte_from-drop c (suc n) (x ∷ xs) k e =
    ap (Option.map suc) (find_byte_from-drop c n xs k e) ∙ ap some (omega arith)

find_byte_from-none :
    (c n : ℕ) (xs : Bytes) → find_byte c (drop n xs) ≡ none → find_byte_from c n xs ≡ none
unfolding find_byte_from
find_byte_from-none c zero xs e = e
find_byte_from-none c (suc n) [] e = refl
find_byte_from-none c (suc n) (x ∷ xs) e = ap (Option.map suc) (find_byte_from-none c n xs e)

-- A request line with one space.
abbrev pub short_line : Bytes → Bytes → Bytes
short_line method path = method ++ space ∷ path

-- The parts have no space and no CR.
pub record IsShort (method path : Bytes) : Type 0 where
  pub method_space : Lacks space method
  pub method_cr : Lacks 13 method
  pub path_space : Lacks space path
  pub path_cr : Lacks 13 path

crlf_no_space : Lacks space crlf
crlf_no_space = ((λ e. absurd (omega (arith, e))), ((λ e. absurd (omega (arith, e))), tt))

module _ (method path : Bytes) (short : IsShort method path) where
  line_end :
      (rest : Bytes)
      → find_crlf (short_line method path ++ 13 ∷ 10 ∷ rest)
        ≡ some (length (short_line method path))
  line_end rest = find_crlf-append (short_line method path) rest (
      All-append (λ x. x ≢ 13) method (space ∷ path) short.method_cr
        ((λ e. absurd (omega (arith, e))), short.path_cr))

  first_space :
      (rest : Bytes) → find_byte space (short_line method path ++ rest) ≡ some (length method)
  first_space rest =
      ap (find_byte space) (append_assoc method (space ∷ path) rest)
      ∙ find_byte-append space method (path ++ rest) short.method_space

  behind_space :
      (rest : Bytes) → drop (length method + 1) (short_line method path ++ rest) ≡ path ++ rest
  behind_space rest =
      sym (drop-drop 1 (length method) (short_line method path ++ rest))
      ∙ ap (λ t. drop 1 (drop (length method) t)) (append_assoc method (space ∷ path) rest)
      ∙ ap (drop 1) (drop-length method (space ∷ (path ++ rest)) (length method) refl)

  second_found :
      (rest : Bytes) (o : Option ℕ)
      → find_byte space rest ≡ o
      → find_byte space (drop (length method + 1) (short_line method path ++ rest))
        ≡ Option.map (λ k. length path + k) o
  second_found rest o e =
      ap (find_byte space) (behind_space rest) ∙ find_byte-skip space path rest o short.path_space e

  -- Alone, the line is refused.
  alone : (p : HttpParse) → parse_request_line p (short_line method path ++ crlf) ≡ (fails, p)
  unfolding parse_request_line split_request_line second_space
  alone p =
      rw
        (
          line_end [],
          parse_request_line,
          first_space crlf,
          find_byte_from-none space (length method + 1) (short_line method path ++ crlf)
              (second_found crlf none (find_byte-Lacks space crlf crlf_no_space)),
        )
        refl

  -- With a header behind it that has a space, it is accepted, and the path runs on into the header.
  followed :
      (p : HttpParse) (field rest : Bytes)
      → Lacks space field
      → let line = short_line method path in
        let step = parse_request_line p (line ++ 13 ∷ 10 ∷ (field ++ space ∷ rest)) in
        (step.0 ≡ takes (length line + 2) true) × (step.1.request.path ≡ path ++ 13 ∷ 10 ∷ field)
  unfolding parse_request_line split_request_line second_space fill_request_line
  followed p field rest h =
      rw
        (
          line_end (field ++ space ∷ rest),
          parse_request_line,
          first_space tail,
          find_byte_from-drop space (length method + 1) (short_line method path ++ tail) _
              (second_found tail (some (2 + length field)) colon_space),
        )
        (refl, cut)
    where
      tail : Bytes
      tail = 13 ∷ 10 ∷ (field ++ space ∷ rest)

      colon_space : find_byte space tail ≡ some (2 + length field)
      colon_space =
          find_byte-append space (13 ∷ 10 ∷ field) rest
            ((λ e. absurd (omega (arith, e))), ((λ e. absurd (omega (arith, e))), h))
          ∙ ap some (omega arith)

      count : ℕ
      count = length method + 1 + (length path + (2 + length field)) - length method - 1

      cut :
          substr (short_line method path ++ tail) (length method + 1) count
          ≡ path ++ 13 ∷ 10 ∷ field
      cut =
          ap (take count)
            (behind_space tail ∙ sym (append_assoc path (13 ∷ 10 ∷ field) (space ∷ rest)))
          ∙ take-length (path ++ 13 ∷ 10 ∷ field) (space ∷ rest) count
              (omega (arith, length-append path (13 ∷ 10 ∷ field)))

-- Wherever a request line has one space only, the parser's verdict hangs on what follows the line:
-- the line with its CRLF alone is refused as an error, but followed by a header with a space it is
-- accepted, and then the path runs on over the CRLF into that header.
pub short_line_verdict :
    (p : HttpParse) (method path field rest : Bytes)
    → IsShort method path
    → Lacks space field
    → let line = short_line method path in
      let step = parse_request_line p (line ++ 13 ∷ 10 ∷ (field ++ space ∷ rest)) in
      (parse_request_line p (line ++ crlf) ≡ (fails, p))
      × (step.0 ≡ takes (length line + 2) true)
      × (step.1.request.path ≡ path ++ 13 ∷ 10 ∷ field)
short_line_verdict p method path field rest short h =
    let (taken, ran_on) = followed method path short p field rest h in
    (alone method path short p, taken, ran_on)
