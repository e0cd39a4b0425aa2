-- ===== src/Login/Tests.antt =====
-- A login with a ticket, and one that completes it for a device.
use cpp_backend_server.Base.{◌≡◌, refl, Bool, true, Option, some, [], ◌∷◌, ◌++◌, Bytes}
use cpp_backend_server.Router.{Uuid}
use cpp_backend_server.Login.{
  PasswordLoginRecord, login_by_email, login_found, login_issued, success, LoginTicketResult,
  CompletedLogin, valid_ticket, ticket_digit, all_digits, verify_device, complete, by_status,
  with_identity,
}
use cpp_backend_server.Login.Verified.{
  IsVerified, login_by_email-IsVerified, Tokens, verify_device-Tokens,
}

abbrev member_record : PasswordLoginRecord
member_record = record { id = 4; is_active = true; password_hash = 7 ∷ [] }

abbrev fits : Bytes → Bytes → Bool
fits hash password = true

abbrev give : Uuid → Option Bytes
give user = some (user ∷ [])

got_ticket : (login_by_email fits give (some member_record) []).login_ticket ≡ some (4 ∷ [])
unfolding login_by_email login_found login_issued
got_ticket = refl

login_by_email-IsVerified_example : IsVerified fits give (some member_record) [] (4 ∷ [])
login_by_email-IsVerified_example =
    login_by_email-IsVerified fits give (some member_record) [] (4 ∷ []) got_ticket

abbrev same : Bytes → Bytes
same bytes = bytes

abbrev token_of : Uuid → Bytes
token_of user = user ∷ []

abbrev always : Uuid → Bytes → Bool
always user hash = true

abbrev succeeds : Bytes → Bytes → Option Uuid → Option Bytes → LoginTicketResult
succeeds ticket token device input = record { status = success; identity = some (4, 9) }

abbrev eight : Bytes
eight = 48 ∷ 49 ∷ 50 ∷ 51 ∷ 97 ∷ 98 ∷ 99 ∷ 102 ∷ []

abbrev ticket_text : Bytes
ticket_text = eight ++ (eight ++ (eight ++ (eight ++ (eight ++ (eight ++ (eight ++ eight))))))

abbrev logged : CompletedLogin
logged = record {
  result = record { status = success; identity = some (4, 9) };
  access_token = 4 ∷ [];
  refresh_token = 1 ∷ 2 ∷ [];
}

completed : verify_device same token_of always succeeds (1 ∷ 2 ∷ []) ticket_text 9 ≡ some logged
unfolding verify_device complete by_status with_identity valid_ticket all_digits ticket_digit
completed = refl

verify_device-Tokens_example :
    Tokens same token_of always succeeds (1 ∷ 2 ∷ []) ticket_text 9 logged
verify_device-Tokens_example =
    verify_device-Tokens same token_of always succeeds (1 ∷ 2 ∷ []) ticket_text 9 logged completed
