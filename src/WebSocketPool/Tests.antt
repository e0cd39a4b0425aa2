-- ===== src/WebSocketPool/Tests.antt =====
-- The witnesses of the properties of the WebSocket pool.
use cpp_backend_server.Base.{◌+◌, ◌%◌, ◌≡◌, refl, true, false, some, [], ◌∷◌, arith}
use cpp_backend_server.WebSocketPool.{
  OnlineConnection, WebSocketPool, forward_connections, add_index, is_same, push_of, push_to_device,
}
use cpp_backend_server.WebSocketPool.Directory.{
  adds, removes, play, IsHarmless, push_to_device-registered,
}
use cpp_backend_server.WebSocketPool.Forwarding.{forwarded, forward_connections-turn}

abbrev pair : WebSocketPool
pair = record {
  online_connections = [];
  worker_count = 2;
  initialized = true;
  stopping = false;
  next_worker = 0;
}

abbrev newer : OnlineConnection
newer = record { worker_id = 1; fd = 5; session_id = 9; user_id = 3 }

-- The late removal of an older session with the same worker and descriptor.
late_removal_IsHarmless : IsHarmless 4 newer (removes 4 1 5 8)
unfolding is_same
late_removal_IsHarmless = refl

push_to_device-registered_example :
    push_to_device (play (add_index pair 4 newer) (removes 4 1 5 8 ∷ adds 6 newer ∷ [])) 4
    ≡ push_of 4 newer ∷ []
push_to_device-registered_example =
    push_to_device-registered 4 newer pair (removes 4 1 5 8 ∷ adds 6 newer ∷ []) refl refl
      (omega arith) (late_removal_IsHarmless, (refl, tt))

forward_connections-turn_example : (forward_connections (forwarded 3 pair)).0 ≡ some ((0 + 3) % 2)
forward_connections-turn_example =
    forward_connections-turn pair 3 refl refl (omega arith) (omega arith)
