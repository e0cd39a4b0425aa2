-- ===== src/Heartbeat/Tests.antt =====
-- The witness of the property of the heartbeat.
use cpp_backend_server.Base.{◌-◌, ◌≡◌, false, [], ◌∷◌, leb}
use cpp_backend_server.Heartbeat.{Heartbeat, should_send_ping, pong_timeout, mark_ping_sent}
use cpp_backend_server.Heartbeat.Silence.{messages, mark_ping_sent-messages}

abbrev quiet : Heartbeat
quiet = record { last_activity = 3; ping_sent_at = 0; waiting_for_pong = false; ping_id = 0 }

mark_ping_sent-messages_example :
    (should_send_ping (messages (50 ∷ []) (mark_ping_sent 40 quiet)) 60 30 ≡ false)
    × (pong_timeout (messages (50 ∷ []) (mark_ping_sent 40 quiet)) 60 20 ≡ leb 20 (60 - 40))
mark_ping_sent-messages_example = mark_ping_sent-messages quiet 40 60 30 20 (50 ∷ [])
