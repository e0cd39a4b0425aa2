-- ===== src/Router/Tests.antt =====
-- The witnesses of the properties of the router.
use cpp_backend_server.Base.{
  ◌≡◌, ◌≢◌, refl, none, some, [], ◌∷◌, Bytes, codes, lookup, eq_bytes, if◌then◌else◌,
}
use cpp_backend_server.Http.{empty_request, HttpRequest, get}
use cpp_backend_server.Http.Response.{HttpResponse, error_response, ok, created}
use cpp_backend_server.Router.{
  AccessTokenResult, identity, invalid_token, authenticate, authenticate_text, authorization_header,
  or_else, Handler, ProtectedHandler, Router, matches, first_match, add_route, route,
  invalid_token_response, expired_response, no_route_response,
}
use cpp_backend_server.Router.Laws.{route-add_route, route-Within, authenticate-authenticate_text}

abbrev plain : Bytes → Bytes → Bytes
plain code message = message

abbrev says : Bytes → HttpResponse
says text = record { status = ok; headers = []; body = text }

-- Only the token "t" is good.
abbrev verify : Bytes → AccessTokenResult
verify token = if eq_bytes token (codes "t") then identity 7 else invalid_token

verify_refuses : verify [] ≡ invalid_token
unfolding eq_bytes
verify_refuses = refl

abbrev hello : Handler
hello request = says (codes "hello")

abbrev mine : ProtectedHandler
mine request user = says (codes "mine")

abbrev site : Router
site = record {
  routes = record { method = get; path = codes "/"; handler = hello } ∷ [];
  protected_routes = record { method = get; path = codes "/me"; handler = mine } ∷ [];
}

abbrev ask : HttpRequest
ask = record empty_request {
  method = get;
  path = codes "/me";
  headers = (codes "authorization", codes "Bearer t") ∷ [];
}

route-add_route_example :
    route verify plain (add_route site get (codes "/me") hello) ask
    ≡ elim (first_match site.routes ask) [
      | some h ↦ h ask
      | none ↦
          if matches (record { method = get; path = codes "/me"; handler = hello }) ask
          then hello ask
          else route verify plain site ask
    ]
route-add_route_example = route-add_route verify plain site get (codes "/me") hello ask

abbrev IsNotCreated : HttpResponse → Type 0
IsNotCreated r = r.status ≢ created

errors-IsNotCreated :
    IsNotCreated (invalid_token_response plain)
    × (IsNotCreated (expired_response plain) × IsNotCreated (no_route_response plain))
unfolding invalid_token_response expired_response no_route_response error_response
errors-IsNotCreated = ((λ e. cc e), ((λ e. cc e), (λ e. cc e)))

route-Within_example : IsNotCreated (route verify plain site ask)
route-Within_example =
    route-Within verify plain IsNotCreated site ask ((λ e. cc e), tt) ((λ user t e. cc e), tt)
      errors-IsNotCreated.0 errors-IsNotCreated.1.0 errors-IsNotCreated.1.1

ask-header : authorization_header ask ≡ some (codes "Bearer t")
unfolding authorization_header or_else lookup eq_bytes
ask-header = refl

authenticate-authenticate_text_example :
    authenticate verify ask ≡ authenticate_text verify (codes "Bearer t")
authenticate-authenticate_text_example =
    authenticate-authenticate_text verify ask (codes "Bearer t") ask-header verify_refuses
