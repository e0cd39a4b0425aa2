-- ===== src/Parser/Tests.antt =====
-- Runs of the request parser, and the witnesses of its properties.
use cpp_backend_server.Base.{
  ◌+◌, ◌≡◌, refl, true, [], ◌∷◌, ◌++◌, length, drop, Bytes, codes, crlf, lookup, arith,
}
use cpp_backend_server.Http.{empty_request, get}
use cpp_backend_server.Parser.{
  HttpParse, request_line, header, parser, need_more_data, complete, parse, take_request,
  parse_request_line, takes, fails, space,
}
use cpp_backend_server.Parser.Run.{Returns, parse-Returns}
use cpp_backend_server.Parser.Unique.{outcome}
use cpp_backend_server.Parser.Resume.{parse-append}
use cpp_backend_server.Parser.Coherent.{IsCoherent, IsHandedOver, parse-IsCoherent}
use cpp_backend_server.Parser.ShortLine.{IsShort, short_line, short_line_verdict}

abbrev pub reading : HttpParse
reading = record { request = empty_request; state = header; content_length = 0 }

abbrev pub half : Bytes
half = codes "Ho"

abbrev rest : Bytes
rest = codes "st: a" ++ 13 ∷ 10 ∷ 13 ∷ 10 ∷ []

abbrev finished : HttpParse
finished = record {
  request = record empty_request { headers = (codes "Host", codes "a") ∷ [] };
  state = complete;
  content_length = 0;
}

pub half_waits : parse reading half ≡ outcome need_more_data 0 reading
unfolding parser
half_waits = refl

rest_finishes : parse reading (drop 0 half ++ rest) ≡ outcome complete 11 finished
unfolding parser
rest_finishes = refl

parse-append_example : parse reading (half ++ rest) ≡ outcome complete 11 finished
parse-append_example =
    parse-append reading reading finished half rest complete 0 11 (λ e. absurd (cc e)) half_waits
      rest_finishes

parse-Returns_example : Returns reading half 0 (parse reading half)
parse-Returns_example = parse-Returns reading half

abbrev fresh : HttpParse
fresh = record { request = empty_request; state = request_line; content_length = 0 }

abbrev whole : Bytes
whole = codes "GET / HTTP/1.1" ++ 13 ∷ 10 ∷ codes "Host: a" ++ 13 ∷ 10 ∷ 13 ∷ 10 ∷ []

abbrev with_line : HttpParse
with_line = record finished {
  request = record finished.request { method = get; path = codes "/"; version = codes "HTTP/1.1" };
}

whole_finishes : parse fresh whole ≡ outcome complete 27 with_line
unfolding parser
whole_finishes = refl

fresh-IsCoherent : IsCoherent fresh
unfolding lookup
fresh-IsCoherent ok = (omega arith, refl, refl)

parse-IsCoherent_example : IsCoherent with_line × IsHandedOver (take_request with_line)
parse-IsCoherent_example =
    parse-IsCoherent fresh with_line whole complete 27 fresh-IsCoherent whole_finishes

get_IsShort : IsShort (codes "G") (codes "/")
get_IsShort = record {
  method_space = ((λ e. absurd (omega (arith, e))), tt);
  method_cr = ((λ e. absurd (omega (arith, e))), tt);
  path_space = ((λ e. absurd (omega (arith, e))), tt);
  path_cr = ((λ e. absurd (omega (arith, e))), tt);
}

short_line_verdict_example :
    (parse_request_line fresh (short_line (codes "G") (codes "/") ++ crlf) ≡ (fails, fresh))
    × ((parse_request_line fresh
          (short_line (codes "G") (codes "/") ++ 13 ∷ 10 ∷ (codes "H" ++ space ∷ codes "a"))).0
        ≡ takes (length (short_line (codes "G") (codes "/")) + 2) true)
    × ((parse_request_line fresh (
          short_line (codes "G") (codes "/")
          ++ 13 ∷ 10 ∷ (codes "H" ++ space ∷ codes "a"))).1.request.path
        ≡ codes "/" ++ 13 ∷ 10 ∷ codes "H")
short_line_verdict_example =
    short_line_verdict fresh (codes "G") (codes "/") (codes "H") (codes "a") get_IsShort
      ((λ e. absurd (omega (arith, e))), tt)
