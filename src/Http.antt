-- ===== src/Http.antt =====
-- The data of an HTTP exchange (include/http/HttpRequest.h).
pub mod Response
use cpp_backend_server.Base.{Bytes, List, []}

pub data HttpMethod : Type 0 where
  get post put delete patch head options trace connect unknown : HttpMethod

-- `std::unordered_map<std::string, std::string>`, in the order of insertion.
abbrev pub Headers : Type 0
Headers = List (Bytes × Bytes)

pub record HttpRequest : Type 0 where
  pub method : HttpMethod
  pub host : Bytes
  pub path : Bytes
  pub version : Bytes
  pub headers : Headers
  pub body : Bytes

-- `HttpRequest{}`
abbrev pub empty_request : HttpRequest
empty_request = record {
  method = unknown;
  host = [];
  path = [];
  version = [];
  headers = [];
  body = [];
}
