-- ===== src/Connection/Flushing.antt =====
-- What `Connection::flush` leaves in the output buffer.
use cpp_backend_server.Base.{◌≡◌, refl, ap, true, false, List, [], if◌then◌else◌, if_cases}
use cpp_backend_server.Connection.{
  Connection, is_empty, has_pending_output, Sent, FlushResult, flushed_none, flush_loop, flush,
}

has_output : (c : Connection) → is_empty c.output_buffer ≡ false → has_pending_output c ≡ true
unfolding has_pending_output
has_output c e = rw e refl

-- A connection with output after a flush had output before.
pub flush-has_pending_output :
    (c : Connection) (sent : List Sent)
    → has_pending_output (flush c sent).1 ≡ true
    → has_pending_output c ≡ true
unfolding flush
flush-has_pending_output c sent =
    if_cases
      (λ (r : FlushResult × Connection).
        has_pending_output r.1 ≡ true → has_pending_output c ≡ true)
      (is_empty c.output_buffer) (flushed_none, c) (flush_loop c sent) (λ e h. h)
      (λ e h. has_output c e)

pub has_pending_output-same :
    (c d : Connection)
    → c.output_buffer ≡ d.output_buffer
    → has_pending_output c ≡ has_pending_output d
unfolding has_pending_output
has_pending_output-same c d e = ap (λ t. if is_empty t then false else true) e

pub has_pending_output-empty :
    (c : Connection) → c.output_buffer ≡ [] → has_pending_output c ≡ false
unfolding has_pending_output is_empty
has_pending_output-empty c e = ap (λ t. if is_empty t then false else true) e
