-- ===== src/Http/Response.antt =====
-- Responses: include/http/HttpResponse.h, src/http/HttpResponse.cpp and
-- src/http/HttpResponseGenerator.cpp. The JSON text of an error body is nlohmann's: `dump` stands for
-- it.
use cpp_backend_server.Base.{
  ℕ, zero, suc, ◌+◌, ◌/◌, ◌%◌, ltb, if◌then◌else◌, [], ◌∷◌, ◌++◌, length, Bytes, codes, insert,
}
use cpp_backend_server.Http.{Headers}

pub data HttpStatus : Type 0 where
  ok created accepted no_content bad_request unauthorized forbidden not_found : HttpStatus
  method_not_allowed request_timeout internal_server_error service_unavailable : HttpStatus
  bad_gateway conflict switching_protocol : HttpStatus

-- The values of the enumeration.
status_code : HttpStatus → ℕ
status_code ok = 200
status_code created = 201
status_code accepted = 202
status_code no_content = 204
status_code bad_request = 400
status_code unauthorized = 401
status_code forbidden = 403
status_code not_found = 404
status_code method_not_allowed = 405
status_code request_timeout = 408
status_code internal_server_error = 500
status_code service_unavailable = 503
status_code bad_gateway = 502
status_code conflict = 409
status_code switching_protocol = 101

reason_phrase : HttpStatus → Bytes
reason_phrase ok = codes "OK"
reason_phrase created = codes "Created"
reason_phrase accepted = codes "Accepted"
reason_phrase no_content = codes "No Content"
reason_phrase bad_request = codes "Bad Request"
reason_phrase forbidden = codes "Forbidden"
reason_phrase not_found = codes "Not Found"
reason_phrase method_not_allowed = codes "Method Not Allowed"
reason_phrase request_timeout = codes "Request Timeout"
reason_phrase internal_server_error = codes "Internal Server Error"
reason_phrase bad_gateway = codes "Bad Gateway"
reason_phrase service_unavailable = codes "Service Unavailable"
reason_phrase conflict = codes "Conflict"
reason_phrase unauthorized = codes "Unauthorized"
reason_phrase switching_protocol = codes "Switching Protocols"

pub record HttpResponse : Type 0 where
  pub status : HttpStatus
  pub headers : Headers
  pub body : Bytes

-- `ErrorResponseMaker`
unfoldable pub error_response : (Bytes → Bytes → Bytes) → HttpStatus → Bytes → Bytes → HttpResponse
error_response dump status code message = record {
  status = status;
  headers =
      insert (codes "Connection") (codes "Close")
        (insert (codes "Content-Type") (codes "application/json") []);
  body = dump code message;
}

-- `std::to_string`; a number has at most as many digits as its value and one.
digits : ℕ → ℕ → Bytes → Bytes
digits zero n acc = acc
digits (suc fuel) n acc =
    let rest = digits fuel (n / 10) ((48 + n % 10) ∷ acc) in
    if ltb n 10 then (48 + n) ∷ acc else rest

pub to_string : ℕ → Bytes
to_string n = digits (suc n) n []

line_end : Bytes
line_end = 13 ∷ 10 ∷ []

header_lines : Headers → Bytes
header_lines [] = []
header_lines ((name, value) ∷ rest) =
    name ++ (codes ": " ++ (value ++ (line_end ++ header_lines rest)))

content_length_line : Bytes → Bytes
content_length_line [] = []
content_length_line (b ∷ body) =
    codes "Content-Length: " ++ (to_string (length (b ∷ body)) ++ line_end)

-- `HttpResponseGenerator::generateHttpResponse`, the headers in the order of the map.
pub generate_http_response : HttpResponse → Bytes
generate_http_response response =
    codes "HTTP/1.1 "
    ++ (to_string (status_code response.status)
        ++ (codes " "
            ++ (reason_phrase response.status
                ++ (line_end
                    ++ (header_lines response.headers
                        ++ (content_length_line response.body ++ (line_end ++ response.body)))))))
