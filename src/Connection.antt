-- ===== src/Connection.antt =====
-- A socket with its buffers: src/server/Connection.cpp and include/server/Connection.h. The results
-- of `recv` and `send` are arguments.
pub mod Wire
pub mod Reading
pub mod Flushing
pub mod Tests
use cpp_backend_server.Base.{
  ℕ, zero, suc, ◌+◌, ◌-◌, Bool, true, false, ◌&&◌, List, [], ◌∷◌, ◌++◌, leb, if◌then◌else◌, length,
  drop, take, Bytes,
}

pub record Connection : Type 0 where
  -- Whether `fd_` holds a descriptor.
  pub valid : Bool
  pub state : Bool
  pub input_buffer : Bytes
  pub output_buffer : Bytes

-- What `recv` returned: at least one byte, 0, or -1 with `EINTR`, `EAGAIN` or another `errno`.
pub data Recv : Type 0 where
  received : ℕ → Bytes → Recv
  peer_closed interrupted would_block recv_failed : Recv

-- Where a round of the loop of `read` leaves it, and the sign of what it returns; `read_again` and
-- `read_error` are -1, told apart by `errno`.
pub data ReadResult : Type 0 where
  retries read_bytes read_end read_again read_error : ReadResult

-- One round of `Connection::read`; `received b bs` are the bytes `b ∷ bs`.
unfoldable pub read_round : Connection → Recv → ReadResult × Connection
read_round c (received b bs) = (read_bytes, record c { input_buffer = c.input_buffer ++ b ∷ bs })
read_round c peer_closed = (read_end, record c { state = false })
read_round c interrupted = (retries, c)
read_round c would_block = (read_again, c)
read_round c recv_failed = (read_error, c)

unfoldable pub write : Connection → Bytes → Connection
write c bytes = record c { output_buffer = c.output_buffer ++ bytes }

-- `Connection::consume`; `none` of the two is the `std::out_of_range`.
pub data Consumed : Type 0 where
  out_of_range : Consumed
  consumed_to : Connection → Consumed

pub consume : Connection → ℕ → Consumed
consume c n =
    if leb n (length c.input_buffer)
    then consumed_to (record c { input_buffer = drop n c.input_buffer })
    else out_of_range

unfoldable pub consume_input : Connection → ℕ → Connection
consume_input c n =
    if leb (length c.input_buffer) n
    then record c { input_buffer = [] }
    else record c { input_buffer = drop n c.input_buffer }

unfoldable pub is_open : Connection → Bool
is_open c = c.valid && c.state

pub close : Connection → Connection
close c = record c { valid = false; state = false }

unfoldable pub is_empty : Bytes → Bool
is_empty [] = true
is_empty (b ∷ bs) = false

unfoldable pub has_pending_output : Connection → Bool
has_pending_output c = if is_empty c.output_buffer then false else true

-- What `send` returned: how many bytes it took (`took n` is n + 1 bytes), 0, or -1 with `EINTR`,
-- `EAGAIN` or another `errno`.
pub data Sent : Type 0 where
  took : ℕ → Sent
  took_none send_interrupted send_would_block send_failed : Sent

-- What `flush` returns: the sign, and `errno` where it is -1; `flushing` while it has not returned.
pub data FlushResult : Type 0 where
  flushing flushed flushed_none flush_again flush_error : FlushResult

unfoldable pub flush_loop : Connection → List Sent → FlushResult × Connection
flush_loop c [] = (flushing, c)
flush_loop c (took n ∷ rest) = (flushed, record c { output_buffer = drop (n + 1) c.output_buffer })
flush_loop c (took_none ∷ rest) = (flushed_none, c)
flush_loop c (send_interrupted ∷ rest) = flush_loop c rest
flush_loop c (send_would_block ∷ rest) = (flush_again, c)
flush_loop c (send_failed ∷ rest) = (flush_error, c)

-- `Connection::flush`, over the results of `send`.
unfoldable pub flush : Connection → List Sent → FlushResult × Connection
flush c results = if is_empty c.output_buffer then (flushed_none, c) else flush_loop c results

-- How far `sendAll` came: it waits for the next result of `send`, is done, or threw; and the bytes
-- that went out.
pub data Sending : Type 0 where
  sending all_sent send_threw : Connection → Bytes → Sending

abbrev sent_before : Bytes → Sending → Sending
sent_before out (sending c rest) = sending c (out ++ rest)
sent_before out (all_sent c rest) = all_sent c (out ++ rest)
sent_before out (send_threw c rest) = send_threw c (out ++ rest)

-- The loops of `sendAll` and `flush`, over the results of `send`.
unfoldable pub send_loop : Connection → List Sent → Sending
send_loop c [] = if is_empty c.output_buffer then all_sent c [] else sending c []
send_loop c (took n ∷ rest) =
    let next =
      sent_before (take (n + 1) c.output_buffer)
        (send_loop (record c { output_buffer = drop (n + 1) c.output_buffer }) rest) in
    if is_empty c.output_buffer then all_sent c [] else next
send_loop c (took_none ∷ rest) = if is_empty c.output_buffer then all_sent c [] else send_threw c []
send_loop c (send_interrupted ∷ rest) =
    let next = send_loop c rest in if is_empty c.output_buffer then all_sent c [] else next
send_loop c (send_would_block ∷ rest) =
    if is_empty c.output_buffer then all_sent c [] else send_threw c []
send_loop c (send_failed ∷ rest) =
    if is_empty c.output_buffer then all_sent c [] else send_threw c []

-- `Connection::sendAll`
unfoldable pub send_all : Connection → Bytes → List Sent → Sending
send_all c bytes results = send_loop (write c bytes) results
