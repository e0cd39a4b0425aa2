-- ===== src/Heartbeat/Silence.antt =====
-- A client that sends messages, but no pong.
use cpp_backend_server.Base.{ℕ, ◌-◌, ◌≡◌, refl, ap, ap₂, false, not, ◌&&◌, List, [], ◌∷◌, ltb, leb}
use cpp_backend_server.Heartbeat.{
  Heartbeat, record_activity, should_send_ping, pong_timeout, mark_ping_sent,
}

-- Messages at these times.
pub messages : List ℕ → Heartbeat → Heartbeat
messages [] h = h
messages (t ∷ ts) h = messages ts (record_activity t h)

messages-waits :
    (ts : List ℕ) (h : Heartbeat)
    → ((messages ts h).waiting_for_pong ≡ h.waiting_for_pong)
      × ((messages ts h).ping_sent_at ≡ h.ping_sent_at)
unfolding messages record_activity
messages-waits [] h = (refl, refl)
messages-waits (t ∷ ts) h = messages-waits ts (record h { last_activity = t })

-- After a ping, and whatever messages come before its pong, no second ping is due, and the session
-- times out exactly when the given time has passed since that ping: messages do not put the timeout
-- off.
pub mark_ping_sent-messages :
    (h : Heartbeat) (sent now interval timeout : ℕ) (ts : List ℕ)
    → (should_send_ping (messages ts (mark_ping_sent sent h)) now interval ≡ false)
      × (pong_timeout (messages ts (mark_ping_sent sent h)) now timeout ≡ leb timeout (now - sent))
unfolding should_send_ping pong_timeout mark_ping_sent
mark_ping_sent-messages h sent now interval timeout ts =
    let after : Heartbeat = mark_ping_sent sent h in
    let w = messages-waits ts after in
    (
      ap (λ b. not b && ltb interval (now - (messages ts after).last_activity)) w.0,
      ap₂ (λ b t. b && leb timeout (now - t)) w.0 w.1,
    )
