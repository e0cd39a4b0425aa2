-- ===== src/Connection/Wire.antt =====
-- What `Connection::sendAll` puts on the wire.
use cpp_backend_server.Base.{
  ℕ, ◌+◌, ◌≤◌, ◌≡◌, refl, sym, ap, subst, ◌∙◌, true, false, List, [], ◌∷◌, ◌++◌, append_assoc,
  if◌then◌else◌, if_cases, length, length-drop, take, drop, take-append-drop, map, Bytes, arith,
}
use cpp_backend_server.Connection.{
  Connection, write, is_empty, Sent, took, took_none, send_interrupted, send_would_block,
  send_failed, Sending, sending, all_sent, send_threw, sent_before, send_loop, send_all,
}

-- The bytes that went out and those that are left are the bytes there were; none are left where
-- all are sent.
abbrev pub IsWhole : Bytes → Sending → Type 0
IsWhole bytes (sending c out) = out ++ c.output_buffer ≡ bytes
IsWhole bytes (all_sent c out) = (out ≡ bytes) × (c.output_buffer ≡ [])
IsWhole bytes (send_threw c out) = out ++ c.output_buffer ≡ bytes

empty-eq : (bytes : Bytes) → is_empty bytes ≡ true → bytes ≡ []
unfolding is_empty
empty-eq [] e = refl
empty-eq (b ∷ bs) e = cc

sent_before-IsWhole :
    (out bytes : Bytes) (s : Sending) → IsWhole bytes s → IsWhole (out ++ bytes) (sent_before out s)
sent_before-IsWhole out bytes (sending c rest) h =
    append_assoc out rest c.output_buffer ∙ ap (λ t. out ++ t) h
sent_before-IsWhole out bytes (all_sent c rest) h = (ap (λ t. out ++ t) h.0, h.1)
sent_before-IsWhole out bytes (send_threw c rest) h =
    append_assoc out rest c.output_buffer ∙ ap (λ t. out ++ t) h

emptied :
    (c : Connection) (next : Sending)
    → IsWhole c.output_buffer next
    → IsWhole c.output_buffer (if is_empty c.output_buffer then all_sent c [] else next)
emptied c next h =
    if_cases (IsWhole c.output_buffer) (is_empty c.output_buffer) (all_sent c []) next
      (λ e. (sym (empty-eq c.output_buffer e), empty-eq c.output_buffer e)) (λ e. h)

send_loop-IsWhole :
    (results : List Sent) (c : Connection) → IsWhole c.output_buffer (send_loop c results)
unfolding send_loop
send_loop-IsWhole [] c = emptied c (sending c []) refl
send_loop-IsWhole (took n ∷ rest) c =
    let left = record c { output_buffer = drop (n + 1) c.output_buffer } in
    emptied c _ (
      subst (λ t. IsWhole t (sent_before (take (n + 1) c.output_buffer) (send_loop left rest)))
        (take-append-drop (n + 1) c.output_buffer)
        (sent_before-IsWhole (take (n + 1) c.output_buffer) _ _ (send_loop-IsWhole rest left)))
send_loop-IsWhole (took_none ∷ rest) c = emptied c (send_threw c []) refl
send_loop-IsWhole (send_interrupted ∷ rest) c = emptied c _ (send_loop-IsWhole rest c)
send_loop-IsWhole (send_would_block ∷ rest) c = emptied c (send_threw c []) refl
send_loop-IsWhole (send_failed ∷ rest) c = emptied c (send_threw c []) refl

-- Whatever `send` returns, `sendAll` puts on the wire a front part of the bytes that were queued
-- before followed by the new ones, in their order, and keeps the rest queued; when it returns
-- without an exception, all of them have gone out and nothing is queued.
pub send_all-IsWhole :
    (c : Connection) (bytes : Bytes) (results : List Sent)
    → IsWhole (c.output_buffer ++ bytes) (send_all c bytes results)
unfolding send_all write
send_all-IsWhole c bytes results =
    send_loop-IsWhole results (record c { output_buffer = c.output_buffer ++ bytes })

abbrev pub IsAllSent : Sending → Type 0
IsAllSent (all_sent c out) = Unit
IsAllSent _ = ⊥

sent_before-IsAllSent : (out : Bytes) (s : Sending) → IsAllSent s → IsAllSent (sent_before out s)
sent_before-IsAllSent out (all_sent c rest) h = h
sent_before-IsAllSent out (sending c rest) h = elim h [ ]
sent_before-IsAllSent out (send_threw c rest) h = elim h [ ]

all_sent_or :
    (c : Connection) (next : Sending)
    → (is_empty c.output_buffer ≡ false → IsAllSent next)
    → IsAllSent (if is_empty c.output_buffer then all_sent c [] else next)
all_sent_or c next h =
    if_cases IsAllSent (is_empty c.output_buffer) (all_sent c []) next (λ e. tt) h

empty_length : (bytes : Bytes) → is_empty bytes ≡ false → length bytes ≡ 0 → ⊥
unfolding is_empty
empty_length [] e h = cc (e)
empty_length (b ∷ bs) e h = omega (arith, h)

send_loop-ends :
    (counts : List ℕ) (c : Connection)
    → length c.output_buffer ≤ length counts
    → IsAllSent (send_loop c (map took counts))
unfolding send_loop
send_loop-ends [] c h =
    all_sent_or c (sending c []) (λ e. absurd (empty_length c.output_buffer e (omega (arith, h))))
send_loop-ends (n ∷ counts) c h = all_sent_or c _ (λ e.
    sent_before-IsAllSent (take (n + 1) c.output_buffer) _ (
      send_loop-ends counts (record c { output_buffer = drop (n + 1) c.output_buffer })
        (omega (arith, length-drop (n + 1) c.output_buffer, h))))

-- `sendAll` ends: when each call of `send` takes at least one byte, as many calls as there are bytes
-- are enough for all of them to go out.
pub send_all-ends :
    (c : Connection) (bytes : Bytes) (counts : List ℕ)
    → length (c.output_buffer ++ bytes) ≤ length counts
    → IsAllSent (send_all c bytes (map took counts))
unfolding send_all write
send_all-ends c bytes counts h =
    send_loop-ends counts (record c { output_buffer = c.output_buffer ++ bytes }) h
