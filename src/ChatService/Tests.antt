-- ===== src/ChatService/Tests.antt =====
-- The witness of the property of the retries.
use cpp_backend_server.Base.{ℕ, zero, suc, ◌≡◌, refl, none, some, [], ◌∷◌, codes, eq_bytes}
use cpp_backend_server.HttpSession.{query}
use cpp_backend_server.ChatService.{
  NewTextMessageRequest, Saved, saved, database_error, success, sent, new_text_message, attempts,
  is_transient, retryable, is_key, answer_of, with_envelope, is_invalid, is_empty, all_spaces,
  is_space,
}
use cpp_backend_server.ChatService.Retry.{IsDealtWith, new_text_message-IsDealtWith}

abbrev message : NewTextMessageRequest
message = record {
  message_id = 1;
  recipient_device_id = 2;
  packet = 0 ∷ [];
  protocol_version = codes "v1";
}

-- A deadlock, and then success.
abbrev save : ℕ → Saved ℕ
save zero = database_error query (codes "40P01") none
save (suc n) = saved success (some 5)

second_attempt :
    new_text_message 3 4 message save ≡ (2, record { status = sent; envelope = some 5 })
unfolding new_text_message attempts is_transient retryable is_key answer_of with_envelope is_invalid
    is_empty all_spaces is_space eq_bytes
second_attempt = refl

new_text_message-IsDealtWith_example :
    IsDealtWith 3 4 message save (new_text_message 3 4 message save)
new_text_message-IsDealtWith_example = new_text_message-IsDealtWith 3 4 message save
