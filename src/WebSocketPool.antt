-- ===== src/WebSocketPool.antt =====
-- The pool of WebSocket workers and its directory of online devices: src/websocket/WebSocketPool.cpp
-- and include/websocket/WebSocketPool.h. Each function is one critical section under `mutex_`, but
-- for `init`, whose two sections are functions of their own. The workers are their number; what the
-- pool hands to a worker is in the answer of the function.
pub mod Directory
pub mod Forwarding
pub mod Tests
use cpp_backend_server.Base.{
  ℕ, zero, suc, ◌+◌, ◌%◌, ◌^◌, Bool, true, false, not, ◌&&◌, ◌||◌, Option, none, some, List, [],
  ◌∷◌, ltb, leb, ◌==◌, if◌then◌else◌,
}

-- A `boost::uuids::uuid` as a number.
abbrev pub Uuid : Type 0
Uuid = ℕ

pub record OnlineConnection : Type 0 where
  pub worker_id : ℕ
  pub fd : ℕ
  pub session_id : ℕ
  pub user_id : Uuid

pub record WebSocketPool : Type 0 where
  -- In the order of the map.
  pub online_connections : List (Uuid × OnlineConnection)
  pub worker_count : ℕ
  pub initialized : Bool
  pub stopping : Bool
  pub next_worker : ℕ

abbrev pub new_pool : WebSocketPool
new_pool = record {
  online_connections = [];
  worker_count = 0;
  initialized = false;
  stopping = true;
  next_worker = 0;
}

pub data InitResult : Type 0 where
  refused invalid_configuration workers_failed started : InitResult

-- `initialized_ || !websocket_workers_.empty()`
has_started : WebSocketPool → Bool
has_started p = p.initialized || not (p.worker_count == 0)

-- The first critical section of `init`: `none` where the construction of the workers follows.
pub check_init : WebSocketPool → ℕ → ℕ → Option InitResult
check_init p min_capacity max_task_capacity =
    if has_started p
    then some refused
    else if leb max_task_capacity 0 || leb min_capacity 0
    then some invalid_configuration
    else none

-- The second critical section of `init`, with the workers that were constructed.
pub install_workers : WebSocketPool → ℕ → InitResult × WebSocketPool
install_workers p workers = if has_started p then (refused, p) else (
  started,
  record p { worker_count = workers; next_worker = 0; stopping = false; initialized = true },
)

-- `WebSocketPool::init` from the construction of the workers on, which is outside the lock.
start_workers : Option InitResult → WebSocketPool → ℕ → Bool → InitResult × WebSocketPool
start_workers (some result) p min_capacity workers_start = (result, p)
start_workers none p min_capacity workers_start =
    if workers_start then install_workers p min_capacity else (workers_failed, p)

-- `WebSocketPool::init`, with the values of the configuration that pass as numbers; `meanwhile` is
-- what other threads do to the pool between the two critical sections, and `workers_start` whether
-- no constructor of a worker threw.
pub init :
    (WebSocketPool → WebSocketPool) → WebSocketPool → ℕ → ℕ → Bool → InitResult × WebSocketPool
init meanwhile p min_capacity max_task_capacity workers_start =
    start_workers (check_init p min_capacity max_task_capacity) (meanwhile p) min_capacity
      workers_start

-- `WebSocketPool::forward_connections`: the worker that takes the connection, if any.
-- `next_worker_` is a `std::size_t`.
pub forward_connections : WebSocketPool → Option ℕ × WebSocketPool
forward_connections p =
    if not p.initialized || p.stopping || p.worker_count == 0 then (none, p) else (
      some (p.next_worker % p.worker_count),
      record p { next_worker = (p.next_worker + 1) % 2 ^ 64 },
    )

-- `WebSocketPool::close`; the workers are destroyed after the lock.
pub close : WebSocketPool → WebSocketPool
close p = if p.stopping && p.worker_count == 0 then p else record p {
  stopping = true;
  initialized = false;
  next_worker = 0;
  online_connections = [];
  worker_count = 0;
}

pub find : Uuid → List (Uuid × OnlineConnection) → Option OnlineConnection
find device [] = none
find device ((d, c) ∷ rest) = if d == device then some c else find device rest

pub insert_or_assign :
    Uuid → OnlineConnection → List (Uuid × OnlineConnection) → List (Uuid × OnlineConnection)
insert_or_assign device connection [] = (device, connection) ∷ []
insert_or_assign device connection ((d, c) ∷ rest) =
    if d == device then (d, connection) ∷ rest else (d, c) ∷ insert_or_assign device connection rest

pub erase : Uuid → List (Uuid × OnlineConnection) → List (Uuid × OnlineConnection)
erase device [] = []
erase device ((d, c) ∷ rest) = if d == device then rest else (d, c) ∷ erase device rest

-- `WebSocketPool::addIndex`
pub add_index : WebSocketPool → Uuid → OnlineConnection → WebSocketPool
add_index p device connection =
    if p.stopping || not p.initialized || leb p.worker_count connection.worker_id
    then p
    else record p { online_connections = insert_or_assign device connection p.online_connections }

-- The test of `removeIndex`.
pub is_same : OnlineConnection → ℕ → ℕ → ℕ → Bool
is_same c worker_id fd session_id =
    c.worker_id == worker_id && c.fd == fd && c.session_id == session_id

remove_found : WebSocketPool → Uuid → ℕ → ℕ → ℕ → Option OnlineConnection → WebSocketPool
remove_found p device worker_id fd session_id none = p
remove_found p device worker_id fd session_id (some c) =
    if is_same c worker_id fd session_id
    then record p { online_connections = erase device p.online_connections }
    else p

-- `WebSocketPool::removeIndex`
pub remove_index : WebSocketPool → Uuid → ℕ → ℕ → ℕ → WebSocketPool
remove_index p device worker_id fd session_id =
    remove_found p device worker_id fd session_id (find device p.online_connections)

-- `enqueuePush`, as the pool calls it, without the message.
pub record Push : Type 0 where
  pub worker_id : ℕ
  pub fd : ℕ
  pub session_id : ℕ
  pub device : Uuid

abbrev pub push_of : Uuid → OnlineConnection → Push
push_of device c = record {
  worker_id = c.worker_id;
  fd = c.fd;
  session_id = c.session_id;
  device = device;
}

push_found : WebSocketPool → Uuid → Option OnlineConnection → List Push
push_found p device none = []
push_found p device (some c) = if leb p.worker_count c.worker_id then [] else push_of device c ∷ []

-- `WebSocketPool::push_To_Device`
pub push_to_device : WebSocketPool → Uuid → List Push
push_to_device p device =
    if p.stopping || not p.initialized
    then []
    else push_found p device (find device p.online_connections)

pushes_to : ℕ → Uuid → List (Uuid × OnlineConnection) → List Push
pushes_to worker_count user [] = []
pushes_to worker_count user ((d, c) ∷ rest) =
    if c.user_id == user && ltb c.worker_id worker_count
    then push_of d c ∷ pushes_to worker_count user rest
    else pushes_to worker_count user rest

-- `WebSocketPool::push_To_User`
pub push_to_user : WebSocketPool → Uuid → List Push
push_to_user p user =
    if p.stopping || not p.initialized
    then []
    else pushes_to p.worker_count user p.online_connections

-- How one worker's revocation ended for `closeSession`: `revokeDeviceConnections` threw, the promise
-- was not kept within eight seconds, it held an exception, or it was kept.
pub data Revocation : Type 0 where
  not_queued timed_out broken confirmed : Revocation

is_confirmed : Revocation → Bool
is_confirmed confirmed = true
is_confirmed _ = false

all_confirmed : List Revocation → Bool
all_confirmed [] = true
all_confirmed (r ∷ rest) = is_confirmed r && all_confirmed rest

-- `WebSocketPool::closeSession`, with one outcome for each worker.
pub close_session : WebSocketPool → List Revocation → Bool
close_session p revocations =
    if p.stopping || not p.initialized then false else all_confirmed revocations
