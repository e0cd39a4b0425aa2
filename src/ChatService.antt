-- ===== src/ChatService.antt =====
-- The retries around the storing of a message: `ChatService::newTextMessage`
-- (src/service/ChatService.cpp). The repository is a parameter: what its call does in each attempt.
pub mod Guard
pub mod Errors
pub mod Retry
pub mod Tests
use cpp_backend_server.Base.{
  ℕ, zero, suc, ◌+◌, Bool, true, false, not, ◌&&◌, ◌||◌, Option, none, some, List, [], ◌∷◌, ltb,
  ◌==◌, if◌then◌else◌, length, Bytes, codes, eq_bytes,
}
use cpp_backend_server.Router.{Uuid, starts_with}
use cpp_backend_server.HttpSession.{
  DatabaseErrorKind, connection, query, constraint, data_conversion,
}

-- The fields that the guard reads; the nil UUID is 0.
pub record NewTextMessageRequest : Type 0 where
  pub message_id : Uuid
  pub recipient_device_id : Uuid
  pub packet : Bytes
  pub protocol_version : Bytes

pub data NewMessageStatus : Type 0 where
  success duplicate_request permission_denied conflict : NewMessageStatus

pub data NewTextMessageStatus : Type 0 where
  sent duplicate denied conflicting invalid_request : NewTextMessageStatus
  retry_later database_unavailable internal_error : NewTextMessageStatus

-- What the repository's `saveNewMessage` does: it returns a status, with an envelope of any type
-- or without, or throws a `DatabaseError` or something else.
pub data Saved {ℓ} (E : Type ℓ) : Type ℓ where
  saved : NewMessageStatus → Option E → Saved E
  database_error : DatabaseErrorKind → Bytes → Option Bytes → Saved E
  other_exception : Saved E

pub record Result {ℓ} (E : Type ℓ) : Type ℓ where
  pub status : NewTextMessageStatus
  pub envelope : Option E

abbrev pub only {ℓ} : {E : Type ℓ} → NewTextMessageStatus → Result E
only s = record { status = s; envelope = none }

is_space : ℕ → Bool
is_space b = b == 32 || b == 9 || b == 13 || b == 10

-- `find_first_not_of(" \t\r\n") == npos`
all_spaces : Bytes → Bool
all_spaces [] = true
all_spaces (b ∷ bs) = is_space b && all_spaces bs

is_empty : Bytes → Bool
is_empty [] = true
is_empty (b ∷ bs) = false

pub is_invalid : Uuid → Uuid → NewTextMessageRequest → Bool
is_invalid user sender r =
    user == 0
    || sender == 0
    || r.message_id == 0
    || r.recipient_device_id == 0
    || sender == r.recipient_device_id
    || is_empty r.packet
    || ltb 65536 (length r.packet)
    || ltb 128 (length r.protocol_version)
    || all_spaces r.protocol_version

is_key : Option Bytes → Bool
is_key none = false
is_key (some name) = eq_bytes name (codes "message_envelopes_pkey")

-- `transactionRetry || uuidCollision`
pub retryable : Bytes → Option Bytes → Bool
retryable code name =
    eq_bytes code (codes "40001")
    || eq_bytes code (codes "40P01")
    || (eq_bytes code (codes "23505") && is_key name)

pub is_connection : DatabaseErrorKind → Bool
is_connection connection = true
is_connection query = false
is_connection constraint = false
is_connection data_conversion = false

module _ {ℓ} {E : Type ℓ} where
  with_envelope : NewTextMessageStatus → Option E → Result E
  with_envelope s none = only internal_error
  with_envelope s (some e) = record { status = s; envelope = some e }

  -- The answer of an attempt that is not repeated.
  pub answer_of : Saved E → Result E
  answer_of (saved success e) = with_envelope sent e
  answer_of (saved duplicate_request e) = with_envelope duplicate e
  answer_of (saved permission_denied e) = only denied
  answer_of (saved conflict e) = only conflicting
  answer_of (database_error kind code name) =
      if is_connection kind || starts_with (codes "08") code
      then only database_unavailable
      else only internal_error
  answer_of other_exception = only internal_error

  pub is_transient : Saved E → Bool
  is_transient (saved s e) = false
  is_transient (database_error kind code name) = retryable code name
  is_transient other_exception = false

  -- The loop from an attempt on, with the attempts left, and how many have been made at its end.
  attempts : ℕ → ℕ → (ℕ → Saved E) → ℕ × Result E
  attempts zero attempt save = (attempt, only retry_later)
  attempts (suc left) attempt save =
      let rest = attempts left (attempt + 1) save in
      if is_transient (save attempt)
      then if ltb attempt 2 then rest else (attempt + 1, only retry_later)
      else (attempt + 1, answer_of (save attempt))

  -- `ChatService::newTextMessage`, with the number of calls of `saveNewMessage`.
  pub new_text_message : Uuid → Uuid → NewTextMessageRequest → (ℕ → Saved E) → ℕ × Result E
  new_text_message user sender request save =
      if is_invalid user sender request then (0, only invalid_request) else attempts 3 0 save
