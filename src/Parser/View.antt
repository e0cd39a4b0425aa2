-- ===== src/Parser/View.antt =====
-- The ways in which `HttpParse::parseRequestLine` and `HttpParse::parseHeader` can end.
use cpp_backend_server.Base.{
  ℕ, zero, suc, ◌+◌, ◌≡◌, true, false, none, some, take, Bytes, find_crlf, find_byte, eq_bytes,
  Bool-cases, Option-cases, inl, inr, ◌≤◌, ◌<◌, ltb, length, arith,
}
use cpp_backend_server.Parser.{
  HttpParse, StepResult, takes, waits, fails, space, parse_request_line, split_request_line,
  second_space, fill_request_line, parse_header, split_header, store_header, with_header,
  length_name, set_content_length, parse_content_length, parse_body,
}

pub data LineView (p : HttpParse) (sub : Bytes) : StepResult × HttpParse → Type 0 where
  line_waits : find_crlf sub ≡ none → LineView p sub (waits, p)
  line_fails : LineView p sub (fails, p)
  line_done :
      (end i j : ℕ)
      → find_crlf sub ≡ some end
      → find_byte space sub ≡ some i
      → second_space sub (some i) ≡ some j
      → LineView p sub
          (takes (end + 2) true, record p { request = fill_request_line p.request sub end i j })

pub parse_request_line-view :
    (p : HttpParse) (sub : Bytes) → LineView p sub (parse_request_line p sub)
unfolding parse_request_line split_request_line
parse_request_line-view p sub = elim (Option-cases (find_crlf sub)) [
  | inl e ↦ rw (e, parse_request_line) (line_waits e)
  | inr (end, e) ↦ elim (Option-cases (find_byte space sub)) [
    | inl f ↦ rw (e, f, parse_request_line) line_fails
    | inr (i, f) ↦ elim (Option-cases (second_space sub (some i))) [
      | inl g ↦ rw (e, f, parse_request_line, g) line_fails
      | inr (j, g) ↦ rw (e, f, parse_request_line, g) (line_done end i j e f g)
    ]
  ]
]

pub data HeaderView (p : HttpParse) (sub : Bytes) : StepResult × HttpParse → Type 0 where
  header_waits : find_crlf sub ≡ none → HeaderView p sub (waits, p)
  header_fails : (q : HttpParse) → HeaderView p sub (fails, q)
  header_ends : find_crlf sub ≡ some 0 → HeaderView p sub (takes 2 true, p)
  header_plain :
      (end : ℕ) (name value : Bytes)
      → find_crlf sub ≡ some end
      → eq_bytes name length_name ≡ false
      → HeaderView p sub (takes (end + 2) false, with_header p name value)
  header_length :
      (end n : ℕ) (name value : Bytes)
      → find_crlf sub ≡ some end
      → eq_bytes name length_name ≡ true
      → parse_content_length value ≡ some n
      → HeaderView p sub
          (takes (end + 2) false, record (with_header p name value) { content_length = n })

store_header-view :
    (p : HttpParse) (sub name value : Bytes) (end : ℕ)
    → find_crlf sub ≡ some end
    → HeaderView p sub (store_header p name value end)
unfolding store_header set_content_length
store_header-view p sub name value end e = elim (Bool-cases (eq_bytes name length_name)) [
  | inr no_length ↦ rw no_length (header_plain end name value e no_length)
  | inl is_length ↦ elim (Option-cases (parse_content_length value)) [
    | inl bad ↦ rw (is_length, bad, set_content_length) (header_fails _)
    | inr (n, good) ↦
        rw (is_length, good, set_content_length) (header_length end n name value e is_length good)
  ]
]

split_header-view :
    (p : HttpParse) (sub line : Bytes) (end : ℕ)
    → find_crlf sub ≡ some end
    → HeaderView p sub (split_header p line end)
unfolding split_header
split_header-view p sub line end e = elim (Option-cases (find_byte b':' line)) [
  | inl no_colon ↦ rw (no_colon, split_header) (header_fails p)
  | inr (zero, at_front) ↦ rw (at_front, split_header) (header_fails p)
  | inr (suc n, colon) ↦ rw (colon, split_header) (store_header-view p sub _ _ end e)
]

pub parse_header-view : (p : HttpParse) (sub : Bytes) → HeaderView p sub (parse_header p sub)
unfolding parse_header
parse_header-view p sub = elim (Option-cases (find_crlf sub)) [
  | inl e ↦ rw (e, parse_header) (header_waits e)
  | inr (zero, e) ↦ rw (e, parse_header) (header_ends e)
  | inr (suc n, e) ↦ rw (e, parse_header) (split_header-view p sub _ (suc n) e)
]

-- The parser whose body is `text`.
abbrev pub with_body : HttpParse → Bytes → HttpParse
with_body p text = record p { request = record (p.request) { body = text } }

pub data BodyView (p : HttpParse) (sub : Bytes) : StepResult × HttpParse → Type 0 where
  body_waits : length sub < p.content_length → BodyView p sub (waits, p)
  body_done :
      p.content_length ≤ length sub
      → BodyView p sub (takes p.content_length false, with_body p (take p.content_length sub))

pub parse_body-view : (p : HttpParse) (sub : Bytes) → BodyView p sub (parse_body p sub)
unfolding parse_body
parse_body-view p sub = elim (Bool-cases (ltb (length sub) p.content_length)) [
  | inl short ↦ rw short (body_waits (ground arith))
  | inr enough ↦ rw enough (body_done (ground arith))
]
