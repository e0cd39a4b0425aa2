-- ===== src/Heartbeat.antt =====
-- The heartbeat of a WebSocket session: the timers of src/websocket/WebSocketSession.cpp. The clock
-- is steady, so a difference of its times is a natural number.
pub mod Silence
pub mod Tests
use cpp_backend_server.Base.{
  ℕ, ◌+◌, ◌-◌, ◌%◌, ◌^◌, Bool, true, false, not, ◌&&◌, List, [], ◌∷◌, ltb, leb,
}

pub record Heartbeat : Type 0 where
  pub last_activity : ℕ
  pub ping_sent_at : ℕ
  pub waiting_for_pong : Bool
  pub ping_id : ℕ

-- `recordActivity`
pub record_activity : ℕ → Heartbeat → Heartbeat
record_activity now h = record h { last_activity = now }

-- `handlePong`
pub handle_pong : ℕ → Heartbeat → Heartbeat
handle_pong now h = record h { waiting_for_pong = false; last_activity = now }

-- `shouldSendPing`
pub should_send_ping : Heartbeat → ℕ → ℕ → Bool
should_send_ping h now interval = not h.waiting_for_pong && ltb interval (now - h.last_activity)

-- `PongTimeout`
pub pong_timeout : Heartbeat → ℕ → ℕ → Bool
pong_timeout h now timeout = h.waiting_for_pong && leb timeout (now - h.ping_sent_at)

-- `markPingSent`
pub mark_ping_sent : ℕ → Heartbeat → Heartbeat
mark_ping_sent now h = record h {
  waiting_for_pong = true;
  ping_sent_at = now;
  ping_id = (h.ping_id + 1) % 2 ^ 64;
}
