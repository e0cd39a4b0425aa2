-- ===== src/Parser.antt =====
-- The incremental HTTP parser: `HttpParse` (include/http/HttpParse.h, src/http/HttpParse.cpp).
-- A parser is its three fields; each method returns the parser that it leaves behind.
pub mod View
pub mod Run
pub mod Unique
pub mod Same
pub mod Resume
pub mod Coherent
pub mod ShortLine
pub mod Tests
use cpp_backend_server.Base.{
  ℕ, zero, suc, ◌+◌, ◌-◌, ◌*◌, ◌%◌, ◌^◌, Bool, true, false, ◌&&◌, ◌||◌, Option, none, some, List,
  [], ◌∷◌, ltb, leb, ◌==◌, if◌then◌else◌, length, take, drop, Bytes, codes, eq_bytes, find_byte,
  find_byte_from, find_crlf, insert,
}
use cpp_backend_server.Http.{
  HttpMethod, get, post, put, delete, patch, head, options, trace, connect, unknown, HttpRequest,
  empty_request,
}

pub data State : Type 0 where
  request_line header body complete error : State

pub record HttpParse : Type 0 where
  pub request : HttpRequest
  pub state : State
  pub content_length : ℕ

-- `HttpParse::reset`
pub reset : HttpParse → HttpParse
reset p = record { request = empty_request; state = request_line; content_length = 0 }

pub data StepStatus : Type 0 where
  done need_more_data failed : StepStatus

pub record StepResult : Type 0 where
  pub status : StepStatus
  pub consumed : ℕ
  pub headers_finished : Bool

pub parse_method : Bytes → HttpMethod
parse_method method =
    if eq_bytes method (codes "GET")
    then get
    else if eq_bytes method (codes "POST")
    then post
    else if eq_bytes method (codes "PUT")
    then put
    else if eq_bytes method (codes "DELETE")
    then delete
    else if eq_bytes method (codes "HEAD")
    then head
    else if eq_bytes method (codes "OPTIONS")
    then options
    else if eq_bytes method (codes "CONNECT")
    then connect
    else if eq_bytes method (codes "TRACE")
    then trace
    else if eq_bytes method (codes "PATCH")
    then patch
    else unknown

abbrev pub space : ℕ
space = 32

-- `view.substr(pos, count)` at a position inside the view.
abbrev pub substr : Bytes → ℕ → ℕ → Bytes
substr xs pos count = take count (drop pos xs)

-- `end - space_version - 1` of `std::size_t`, which wraps where the space stands after the CRLF.
abbrev pub size_mod : ℕ
size_mod = 2 ^ 64

pub size_sub : ℕ → ℕ → ℕ
size_sub a b = (a + size_mod - b) % size_mod

-- The request line once both spaces and its end are known.
pub fill_request_line : HttpRequest → Bytes → ℕ → ℕ → ℕ → HttpRequest
fill_request_line request input end space_method space_version = record request {
  method = parse_method (substr input 0 space_method);
  path = substr input (space_method + 1) (space_version - space_method - 1);
  version = substr input (space_version + 1) (size_sub (size_sub end space_version) 1);
}

pub waits : StepResult
waits = record { status = need_more_data; consumed = 0; headers_finished = false }

pub fails : StepResult
fails = record { status = failed; consumed = 0; headers_finished = false }

pub takes : ℕ → Bool → StepResult
takes n finished = record { status = done; consumed = n; headers_finished = finished }

-- `input.find(" ", space_method + 1)`; where the first search gave `npos`, the sum wraps to 0.
pub second_space : Bytes → Option ℕ → Option ℕ
second_space input none = find_byte_from space 0 input
second_space input (some i) = find_byte_from space (i + 1) input

split_request_line : HttpParse → Bytes → ℕ → Option ℕ → Option ℕ → StepResult × HttpParse
split_request_line p input end (some i) (some j) =
    (takes (end + 2) true, record p { request = fill_request_line p.request input end i j })
split_request_line p input end _ _ = (fails, p)

-- `HttpParse::parseRequestLine`
pub parse_request_line : HttpParse → Bytes → StepResult × HttpParse
parse_request_line p input = elim (find_crlf input) [
  | none ↦ (waits, p)
  | some end ↦
      let first = find_byte space input in
      split_request_line p input end first (second_space input first)
]

pub is_digit : ℕ → Bool
is_digit c = leb b'0' c && leb c b'9'

-- The digits at the front of the text, after `acc`, and what follows them.
pub read_digits : ℕ → Bytes → ℕ × Bytes
read_digits acc [] = (acc, [])
read_digits acc (c ∷ cs) =
    if is_digit c then read_digits (acc * 10 + (c - b'0')) cs else (acc, c ∷ cs)

-- `std::from_chars` into a `std::size_t`: no digit and a value of 64 bits or more are errors.
pub from_chars : Bytes → Option (ℕ × Bytes)
from_chars [] = none
from_chars (c ∷ cs) =
    let (value, rest) = read_digits 0 (c ∷ cs) in
    if is_digit c && ltb value size_mod then some (value, rest) else none

abbrev pub max_body_size : ℕ
max_body_size = 1024 * 1024

accept_length : Option (ℕ × Bytes) → Option ℕ
accept_length (some (value, [])) = if ltb max_body_size value then none else some value
accept_length _ = none

-- `HttpParse::parseContentLength`; `some n` is `true` with `content_length = n`.
pub parse_content_length : Bytes → Option ℕ
parse_content_length [] = none
parse_content_length (c ∷ cs) = accept_length (from_chars (c ∷ cs))

-- `while (!value.empty() && value.front() == ' ') value.remove_prefix(1);`
pub skip_spaces : Bytes → Bytes
skip_spaces [] = []
skip_spaces (c ∷ cs) = if c == space then skip_spaces cs else c ∷ cs

set_content_length : HttpParse → Bytes → ℕ → StepResult × HttpParse
set_content_length p value line_end = elim (parse_content_length value) [
  | none ↦ (fails, p)
  | some n ↦ (takes (line_end + 2) false, record p { content_length = n })
]

-- `request.headers[name] = value`
abbrev pub with_header : HttpParse → Bytes → Bytes → HttpParse
with_header p name value = record p {
  request = record (p.request) { headers = insert name value p.request.headers };
}

abbrev pub length_name : Bytes
length_name = codes "Content-Length"

store_header : HttpParse → Bytes → Bytes → ℕ → StepResult × HttpParse
store_header p name value line_end =
    if eq_bytes name length_name
    then set_content_length (with_header p name value) value line_end
    else (takes (line_end + 2) false, with_header p name value)

-- A line of `line_end` bytes that is not empty.
split_header : HttpParse → Bytes → ℕ → StepResult × HttpParse
split_header p line line_end = elim (find_byte b':' line) [
  | none ↦ (fails, p)
  | some zero ↦ (fails, p)
  | some (suc n) ↦ store_header p (take (suc n) line) (skip_spaces (drop (suc n + 1) line)) line_end
]

-- `HttpParse::parseHeader`
pub parse_header : HttpParse → Bytes → StepResult × HttpParse
parse_header p input = elim (find_crlf input) [
  | none ↦ (waits, p)
  | some zero ↦ (takes 2 true, p)
  | some (suc n) ↦ split_header p (take (suc n) input) (suc n)
]

-- `HttpParse::parseBody`
pub parse_body : HttpParse → Bytes → StepResult × HttpParse
parse_body p input = if ltb (length input) p.content_length then (waits, p) else (
  takes p.content_length false,
  record p { request = record (p.request) { body = take p.content_length input } },
)

pub data ParseStatus : Type 0 where
  need_more_data complete error : ParseStatus

-- `ParseResult`; its third field keeps the default that no code changes.
pub record ParseResult : Type 0 where
  pub status : ParseStatus
  pub consumed : ℕ

-- One round of `while (true)`: the loop returns, or goes on behind `n` more bytes.
pub data Round : Type 0 where
  stop : ParseStatus → HttpParse → Round
  go : ℕ → HttpParse → Round

-- The answer of a step, and the state that follows when it is done.
pub settle : (StepResult → HttpParse → State) → StepResult × HttpParse → Round
settle next (r, p) = elim r.status [
  | need_more_data ↦ stop need_more_data p
  | failed ↦ stop error (record p { state = error })
  | done ↦ go r.consumed (record p { state = next r p })
]

after_header : StepResult → HttpParse → State
after_header r p =
    if r.headers_finished then if p.content_length == 0 then complete else body else p.state

pub round_in : State → HttpParse → Bytes → Round
round_in request_line p sub = settle (λ r q. header) (parse_request_line p sub)
round_in header p sub = settle after_header (parse_header p sub)
round_in body p sub = settle (λ r q. complete) (parse_body p sub)
round_in complete p sub = stop complete p
round_in error p sub = stop error p

-- The `switch` on the parser's state.
pub parse_round : HttpParse → Bytes → Round
parse_round p sub = round_in p.state p sub

-- The loop, with fuel; `none` means that the fuel ran out.
pub parse_loop : ℕ → ℕ → HttpParse → Bytes → Option (ParseResult × HttpParse)
parse_loop zero consumed p sub = none
parse_loop (suc fuel) consumed p sub = elim (parse_round p sub) [
  | stop status q ↦ some (record { status = status; consumed = consumed }, q)
  | go n q ↦ parse_loop fuel (consumed + n) q (drop n sub)
]

-- `HttpParse::parse`. Every round that goes on takes a byte off the buffer, but
-- for a body of length 0.
pub parse : HttpParse → Bytes → Option (ParseResult × HttpParse)
parse p buffer = parse_loop (length buffer + 2) 0 p buffer

take_completed : State → HttpParse → Option (HttpRequest × HttpParse)
take_completed complete p = some (p.request, reset p)
take_completed _ p = none

-- `HttpParse::takeRequest`; `none` is the `std::logic_error`.
pub take_request : HttpParse → Option (HttpRequest × HttpParse)
take_request p = take_completed p.state p

-- To run the parser in a test, unfold this one.
unfoldable pub parser : Unit {0}
unfolding parse parse_loop parse_round round_in settle after_header parse_request_line
    split_request_line second_space fill_request_line waits fails takes parse_header split_header
    store_header set_content_length parse_content_length accept_length from_chars read_digits
    is_digit skip_spaces parse_body parse_method size_sub take_request take_completed reset
    find_byte find_byte_from find_crlf eq_bytes insert
parser = tt
