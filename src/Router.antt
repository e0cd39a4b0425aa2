-- ===== src/Router.antt =====
-- The HTTP router and its authentication: src/handler/Router.cpp and src/http/AuthMiddleWare.cpp,
-- with their headers. The verification of a token (jwt-cpp) is a parameter, and so are the handlers,
-- which the routes carry, and the JSON text of an error.
pub mod Laws
pub mod Tests
use cpp_backend_server.Base.{
  ℕ, zero, suc, Bool, true, false, ◌&&◌, Option, none, some, List, [], ◌∷◌, ◌++◌, ◌==◌,
  if◌then◌else◌, length, drop, Bytes, codes, eq_bytes, lookup,
}
use cpp_backend_server.Http.{
  HttpMethod, get, post, put, delete, patch, head, options, trace, connect, unknown, HttpRequest,
}
use cpp_backend_server.Http.Response.{HttpResponse, error_response, unauthorized, not_found}

-- A `boost::uuids::uuid` as a number.
abbrev pub Uuid : Type 0
Uuid = ℕ

pub data AccessTokenResult : Type 0 where
  identity : Uuid → AccessTokenResult
  invalid_token expired_token : AccessTokenResult

pub data AuthResult : Type 0 where
  authenticated : Uuid → AuthResult
  un_authorized expired : AuthResult

-- `starts_with`
unfoldable pub starts_with : Bytes → Bytes → Bool
starts_with [] text = true
starts_with (p ∷ prefix) [] = false
starts_with (p ∷ prefix) (c ∷ text) = p == c && starts_with prefix text

bearer : Bytes
bearer = codes "Bearer "

auth_of : AccessTokenResult → AuthResult
auth_of (identity user) = authenticated user
auth_of invalid_token = un_authorized
auth_of expired_token = expired

or_else : Option Bytes → Option Bytes → Option Bytes
or_else none other = other
or_else (some v) other = some v

-- The two spellings that `AuthMiddleWare::authenticate` looks for.
pub authorization_header : HttpRequest → Option Bytes
authorization_header request =
    or_else (lookup (codes "authorization") request.headers)
      (lookup (codes "Authorization") request.headers)

module _ (verify : Bytes → AccessTokenResult) where
  check_header : Option Bytes → AuthResult
  check_header none = un_authorized
  check_header (some authorization) =
      if starts_with bearer authorization
      then auth_of (verify (drop (length bearer) authorization))
      else un_authorized

  -- `AuthMiddleWare::authenticate(const HttpRequest&)`
  pub authenticate : HttpRequest → AuthResult
  authenticate request = check_header (authorization_header request)

  -- `AuthMiddleWare::authenticate(const std::string&)`
  pub authenticate_text : Bytes → AuthResult
  authenticate_text authorization =
      if starts_with bearer authorization
      then if length authorization == length bearer
        then un_authorized
        else auth_of (verify (drop (length bearer) authorization))
      else un_authorized

pub record Route {ℓ} (H : Type ℓ) : Type ℓ where
  pub method : HttpMethod
  pub path : Bytes
  pub handler : H

abbrev pub Handler : Type 0
Handler = HttpRequest → HttpResponse

abbrev pub ProtectedHandler : Type 0
ProtectedHandler = HttpRequest → Uuid → HttpResponse

pub record Router : Type 0 where
  pub routes : List (Route Handler)
  pub protected_routes : List (Route ProtectedHandler)

-- The place of a method in the enumeration.
method_number : HttpMethod → ℕ
method_number get = 0
method_number post = 1
method_number put = 2
method_number delete = 3
method_number patch = 4
method_number head = 5
method_number options = 6
method_number trace = 7
method_number connect = 8
method_number unknown = 9

-- `route.method == request.method && route.path == request.path`
pub matches {ℓ} : {H : Type ℓ} → Route H → HttpRequest → Bool
matches r request =
    method_number r.method == method_number request.method && eq_bytes r.path request.path

-- The loops over the routes: the first match, if any.
pub first_match {ℓ} : {H : Type ℓ} → List (Route H) → HttpRequest → Option H
first_match [] request = none
first_match (r ∷ rest) request =
    if matches r request then some r.handler else first_match rest request

-- `Router::addRoute` and `Router::addProtectedRoute`.
pub add_route : Router → HttpMethod → Bytes → Handler → Router
add_route router method path handler = record router {
  routes = router.routes ++ record { method = method; path = path; handler = handler } ∷ [];
}

pub add_protected_route : Router → HttpMethod → Bytes → ProtectedHandler → Router
add_protected_route router method path handler = record router {
  protected_routes =
      router.protected_routes ++ record { method = method; path = path; handler = handler } ∷ [];
}

module _ (dump : Bytes → Bytes → Bytes) where
  pub invalid_token_response : HttpResponse
  invalid_token_response =
      error_response dump unauthorized (codes "invalid_access_token") (codes "Invalid access token")

  pub expired_response : HttpResponse
  expired_response =
      error_response dump unauthorized (codes "access_token_expired") (codes "Access token expired")

  pub no_route_response : HttpResponse
  no_route_response =
      error_response dump not_found (codes "route_not_found") (codes "Route not found")

module _ (verify : Bytes → AccessTokenResult) (dump : Bytes → Bytes → Bytes) where
  run_protected : ProtectedHandler → HttpRequest → AuthResult → HttpResponse
  run_protected handler request (authenticated user) = handler request user
  run_protected handler request un_authorized = invalid_token_response dump
  run_protected handler request expired = expired_response dump

  answer_protected : HttpRequest → Option ProtectedHandler → HttpResponse
  answer_protected request none = no_route_response dump
  answer_protected request (some handler) =
      run_protected handler request (authenticate verify request)

  -- `Router::protected_route`
  protected_route : Router → HttpRequest → HttpResponse
  protected_route router request =
      answer_protected request (first_match router.protected_routes request)

  answer : Router → HttpRequest → Option Handler → HttpResponse
  answer router request none = protected_route router request
  answer router request (some handler) = handler request

  -- `Router::route`
  pub route : Router → HttpRequest → HttpResponse
  route router request = answer router request (first_match router.routes request)
