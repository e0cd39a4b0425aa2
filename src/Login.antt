-- ===== src/Login.antt =====
-- Signing in: src/service/LoginService.cpp, src/service/LoginTicketService.cpp and `validate` of
-- src/Auth/RefreshTokenService.cpp. What the repositories answer and libsodium computes is a
-- parameter.
pub mod Verified
pub mod Tests
use cpp_backend_server.Base.{
  ℕ, Bool, true, false, ◌&&◌, ◌||◌, Option, none, some, List, [], ◌∷◌, ◌++◌, leb, ◌==◌,
  if◌then◌else◌, length, Bytes, codes,
}
use cpp_backend_server.Router.{Uuid}

pub data LoginError : Type 0 where
  too_many_requests no_user_found invalid_credentials internal_error service_unavailable :
      LoginError
  not_active_user logged_in : LoginError

pub record LoginServiceResult : Type 0 where
  pub login : LoginError
  pub login_ticket : Option Bytes

-- The fields that the login reads.
pub record PasswordLoginRecord : Type 0 where
  pub id : Uuid
  pub is_active : Bool
  pub password_hash : Bytes

abbrev failed : LoginError → LoginServiceResult
failed e = record { login = e; login_ticket = none }

login_issued : Option Bytes → LoginServiceResult
login_issued none = failed not_active_user
login_issued (some ticket) = record { login = logged_in; login_ticket = some ticket }

-- `crypto_pwhash_str_verify`, and `LoginTicketService::issue`.
module _ (verify : Bytes → Bytes → Bool) (issue : Uuid → Option Bytes) where
  login_found : Bytes → Option PasswordLoginRecord → LoginServiceResult
  login_found password none = failed no_user_found
  login_found password (some r) =
      if verify r.password_hash password
      then if r.is_active then login_issued (issue r.id) else failed not_active_user
      else failed invalid_credentials

  -- `LoginService::loginByEmail`, with the record of the address.
  pub login_by_email : Option PasswordLoginRecord → Bytes → LoginServiceResult
  login_by_email found password = login_found password found

pub data LoginTicketStatus : Type 0 where
  success invalid_ticket account_disabled device_not_found device_not_owned : LoginTicketStatus
  device_not_active : LoginTicketStatus

-- The identity is a user and a device.
pub record LoginTicketResult : Type 0 where
  pub status : LoginTicketStatus
  pub identity : Option (Uuid × Uuid)

pub record CompletedLogin : Type 0 where
  pub result : LoginTicketResult
  pub access_token : Bytes
  pub refresh_token : Bytes

abbrev without_tokens : LoginTicketResult → CompletedLogin
without_tokens r = record { result = r; access_token = []; refresh_token = [] }

ticket_digit : ℕ → Bool
ticket_digit c = (leb 48 c && leb c 57) || (leb 97 c && leb c 102)

all_digits : Bytes → Bool
all_digits [] = true
all_digits (c ∷ cs) = ticket_digit c && all_digits cs

-- `LoginTicketService::validTicket`
pub valid_ticket : Bytes → Bool
valid_ticket ticket = length ticket == 64 && all_digits ticket

-- `RefreshTokenHash`, the issue of an access token, and the repository's transactions: whether a
-- ticket could be stored, and how a ticket with the hashes of ticket and refresh token ends for a
-- device or a registration.
module _ {ℓ} {Input : Type ℓ} (hash : Bytes → Bytes) (access : Uuid → Bytes)
    (store : Uuid → Bytes → Bool)
    (transact : Bytes → Bytes → Option Uuid → Option Input → LoginTicketResult) where
  pub hash_ticket : Bytes → Bytes
  hash_ticket ticket = hash (codes "login-ticket-v1:" ++ ticket)

  -- `LoginTicketService::issue`, with the random ticket.
  pub issue_ticket : Bytes → Uuid → Option Bytes
  issue_ticket ticket user = if store user (hash_ticket ticket) then some ticket else none

  with_identity : Bytes → LoginTicketResult → Option (Uuid × Uuid) → Option CompletedLogin
  with_identity refresh_token r none = none
  with_identity refresh_token r (some (user, device)) =
      some (record { result = r; access_token = access user; refresh_token = refresh_token })

  by_status : LoginTicketStatus → Bytes → LoginTicketResult → Option CompletedLogin
  by_status success refresh_token r = with_identity refresh_token r r.identity
  by_status _ refresh_token r = some (without_tokens r)

  -- `LoginTicketService::complete`, with the random refresh token; `none` is the exception.
  complete : Bytes → Bytes → Option Uuid → Option Input → Option CompletedLogin
  complete refresh_token ticket device input =
      let r = transact (hash_ticket ticket) (hash refresh_token) device input in
      if valid_ticket ticket
      then by_status r.status refresh_token r
      else some (without_tokens (record { status = invalid_ticket; identity = none }))

  -- `LoginTicketService::verifyDevice`; the nil identifier is 0.
  pub verify_device : Bytes → Bytes → Uuid → Option CompletedLogin
  verify_device refresh_token ticket device =
      if device == 0
      then some (without_tokens (record { status = device_not_found; identity = none }))
      else complete refresh_token ticket (some device) none

  -- `LoginTicketService::registerDevice`
  pub register_device : Bytes → Bytes → Input → Option CompletedLogin
  register_device refresh_token ticket input = complete refresh_token ticket none (some input)

-- The fields that `validate` reads; times are those of the system clock.
pub record RefreshTokenResult : Type 0 where
  pub user_id : Uuid
  pub revoked : Bool
  pub expires_at : ℕ

-- What `RefreshTokenService::validate` returns.
pub data RefreshTokenStatus : Type 0 where
  invalid expired : RefreshTokenStatus
  valid_for : Uuid → RefreshTokenStatus

-- `RefreshTokenService::validate` at the time `now`, with the record of the token's hash; and
-- whether it revokes the token.
pub validate : ℕ → Option RefreshTokenResult → RefreshTokenStatus × Bool
validate now none = (invalid, false)
validate now (some r) =
    if r.revoked
    then (expired, false)
    else if leb r.expires_at now
    then (expired, true)
    else (valid_for r.user_id, false)
