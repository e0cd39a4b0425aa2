-- ===== src/Connection/Tests.antt =====
-- The witnesses of the properties of `Connection`.
use cpp_backend_server.Base.{true, [], ◌∷◌, map, arith}
use cpp_backend_server.Connection.{Connection, took, send_interrupted, send_failed, send_all}
use cpp_backend_server.Connection.Wire.{IsWhole, send_all-IsWhole, IsAllSent, send_all-ends}

abbrev one_queued : Connection
one_queued = record { valid = true; state = true; input_buffer = []; output_buffer = 1 ∷ [] }

send_all-IsWhole_example :
    IsWhole
      (1 ∷ 2 ∷ 3 ∷ [])
      (send_all one_queued (2 ∷ 3 ∷ []) (took 1 ∷ send_interrupted ∷ send_failed ∷ []))
send_all-IsWhole_example =
    send_all-IsWhole one_queued (2 ∷ 3 ∷ []) (took 1 ∷ send_interrupted ∷ send_failed ∷ [])

send_all-ends_example : IsAllSent (send_all one_queued (2 ∷ 3 ∷ []) (map took (0 ∷ 0 ∷ 0 ∷ [])))
send_all-ends_example = send_all-ends one_queued (2 ∷ 3 ∷ []) (0 ∷ 0 ∷ 0 ∷ []) (omega arith)
