-- ===== src/Router/Laws.antt =====
-- Who may answer a request, in which order, and what the two ways to authenticate agree on.
use cpp_backend_server.Base.{
  ℕ, zero, suc, ◌≡◌, refl, sym, ap, subst, ◌∙◌, Bool, true, false, ◌==◌, Option, none, some, List,
  [], ◌∷◌, ◌++◌, if◌then◌else◌, ==→eq, Option-cases, Bool-cases, inl, inr, length, drop, Bytes, All,
  arith,
}
use cpp_backend_server.Http.{HttpMethod, HttpRequest}
use cpp_backend_server.Http.Response.{HttpResponse}
use cpp_backend_server.Router.{
  Uuid, AccessTokenResult, AuthResult, authenticated, un_authorized, expired, invalid_token,
  starts_with, bearer, auth_of, check_header, authorization_header, authenticate, authenticate_text,
  Route, Handler, ProtectedHandler, Router, matches, first_match, add_route, invalid_token_response,
  expired_response, no_route_response, run_protected, answer_protected, protected_route, answer,
  route,
}

first_match-append {ℓ} :
    {H : Type ℓ} (xs ys : List (Route H)) (request : HttpRequest)
    → first_match (xs ++ ys) request
      ≡ elim (first_match xs request) [ none ↦ first_match ys request | some h ↦ some h ]
unfolding first_match
first_match-append [] ys request = refl
first_match-append (x ∷ xs) ys request = elim (Bool-cases (matches x request)) [
  | inl e ↦ rw e refl
  | inr e ↦ rw e (first_match-append xs ys request)
]

first_match-All {ℓ κ} :
    {H : Type ℓ} (P : H → Type κ) (xs : List (Route H)) (request : HttpRequest) (h : H)
    → All (λ (r : Route H). P r.handler) xs
    → first_match xs request ≡ some h
    → P h
unfolding first_match
first_match-All P [] request h all e = cc
first_match-All {H = H} P (x ∷ xs) request h all e =
    at (matches x request) e (first_match-All P xs request h all.1)
  where
    at :
        (b : Bool)
        → (if b then some x.handler else first_match xs request) ≡ some h
        → (first_match xs request ≡ some h → P h)
        → P h
    at true q rest = subst P (cc q) all.0
    at false q rest = rest q

-- A new public route answers just the requests that it matches and that no public route from before
-- it matches; it never changes the answer to another request.
pub route-add_route :
    (verify : Bytes → AccessTokenResult) (dump : Bytes → Bytes → Bytes) (router : Router)
    (method : HttpMethod) (path : Bytes) (handler : Handler) (request : HttpRequest)
    → route verify dump (add_route router method path handler) request
      ≡ elim (first_match router.routes request) [
        | some h ↦ h request
        | none ↦
            if matches (record { method = method; path = path; handler = handler }) request
            then handler request
            else route verify dump router request
      ]
unfolding route answer add_route first_match protected_route
route-add_route verify dump router method path handler request =
    let new : Route Handler = record { method = method; path = path; handler = handler } in
    rw (first_match-append router.routes (new ∷ []) request)
      (elim (Option-cases (first_match router.routes request)) [
        | inl e ↦ elim (Bool-cases (matches new request)) [
          | inl m ↦ rw (e, m) refl
          | inr m ↦ rw (e, m, e) refl
        ]
        | inr (h, e) ↦ rw e refl
      ])

-- An answer has whatever property holds of the answers of all public handlers, of the three errors
-- of the router and of the answers of the protected handlers to a user whom the request's own
-- token proves: no protected handler runs without one.
pub route-Within {ℓ} :
    (verify : Bytes → AccessTokenResult) (dump : Bytes → Bytes → Bytes) (P : HttpResponse → Type ℓ)
    (router : Router) (request : HttpRequest)
    → All (λ (r : Route Handler). P (r.handler request)) router.routes
    → All
        (λ (r : Route ProtectedHandler).
          (user : Uuid)
          → authenticate verify request ≡ authenticated user
          → P (r.handler request user))
        router.protected_routes
    → P (invalid_token_response dump)
    → P (expired_response dump)
    → P (no_route_response dump)
    → P (route verify dump router request)
unfolding route answer protected_route answer_protected run_protected
route-Within verify dump P router request public guarded bad late missing =
    at (first_match router.routes request) refl
  where
    run :
        (h : ProtectedHandler)
        → ((user : Uuid) → authenticate verify request ≡ authenticated user → P (h request user))
        → (a : AuthResult) → authenticate verify request ≡ a
        → P (run_protected verify dump h request a)
    run h allowed (authenticated user) e = allowed user e
    run h allowed un_authorized e = bad
    run h allowed expired e = late

    guard :
        (o : Option ProtectedHandler)
        → first_match router.protected_routes request ≡ o
        → P (answer_protected verify dump request o)
    guard none e = missing
    guard (some h) e =
        run h
          (first_match-All
            (λ (g : ProtectedHandler).
              (user : Uuid) → authenticate verify request ≡ authenticated user → P (g request user))
            router.protected_routes request h guarded e)
          (authenticate verify request) refl

    at :
        (o : Option Handler)
        → first_match router.routes request ≡ o
        → P (answer verify dump router request o)
    at none e = guard (first_match router.protected_routes request) refl
    at (some h) e =
        first_match-All (λ (g : Handler). P (g request)) router.routes request h public e

drop-all : (n : ℕ) (xs : Bytes) → n ≡ length xs → drop n xs ≡ []
drop-all zero [] e = refl
drop-all zero (x ∷ xs) e = absurd (omega (arith, e))
drop-all (suc n) [] e = refl
drop-all (suc n) (x ∷ xs) e = drop-all n xs (omega (arith, e))

-- The header check and the text check give the same answer to every header, where the verification
-- refuses the empty token.
pub authenticate-authenticate_text :
    (verify : Bytes → AccessTokenResult) (request : HttpRequest) (authorization : Bytes)
    → authorization_header request ≡ some authorization
    → verify [] ≡ invalid_token
    → authenticate verify request ≡ authenticate_text verify authorization
unfolding authenticate authenticate_text check_header auth_of
authenticate-authenticate_text verify request authorization e refuses =
    rw e (elim (Bool-cases (starts_with bearer authorization)) [
      | inl s ↦ elim (Bool-cases (length authorization == length bearer)) [
        | inl n ↦
            rw (s, n)
              (ap (λ t. auth_of (verify t))
                  (drop-all (length bearer) authorization (sym (==→eq _ _ n)))
                ∙ ap auth_of refuses)
        | inr n ↦ rw (s, n) refl
      ]
      | inr s ↦ rw s refl
    ])
