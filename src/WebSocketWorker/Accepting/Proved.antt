-- ===== src/WebSocketWorker/Accepting/Proved.antt =====
-- Whom a worker takes over, and that a new session is sane.
use cpp_backend_server.Base.{
  ℕ, ◌≡◌, refl, sym, subst, true, false, Option, none, some, List, [], ◌∷◌, ◌++◌, if_cases, Bytes,
  codes, find, contains, contains-some, member, Option-cases, inl, inr,
}
use cpp_backend_server.Http.{HttpRequest}
use cpp_backend_server.Http.Response.{generate_http_response}
use cpp_backend_server.Router.{
  AccessTokenResult, AuthResult, authenticated, un_authorized, expired, authenticate,
}
use cpp_backend_server.Connection.{
  Connection, has_pending_output, Sending, sending, all_sent, send_threw, send_all,
}
use cpp_backend_server.Connection.Flushing.{has_pending_output-empty}
use cpp_backend_server.Connection.Wire.{IsWhole, send_all-IsWhole}
use cpp_backend_server.WebSocketPool.{Uuid}
use cpp_backend_server.WebSocketHandler.{WebSocketSession}
use cpp_backend_server.WebSocketWorker.{Interest, adds, Worker}
use cpp_backend_server.WebSocketWorker.Accepting.{
  Relation, related, device_unknown, device_inactive, device_foreign, other_error,
  verify_session_identity, find_header, Handshake, rejects, throws, upgrades, switching_response,
  forbid, answer_key, answer_identity, answer_device, check_device, check_key, answer_token,
  handshake, AcceptAnswers, new_session, register, take_over, accept_session,
}
use cpp_backend_server.WebSocketWorker.Debts.{debt}
use cpp_backend_server.WebSocketWorker.Slots.{slot_at, slot_at-new, new-Only}
use cpp_backend_server.WebSocketWorker.Sane.{SaneParts, IsSane, Serves}
use cpp_backend_server.WebSocketWorker.Output.{Serves-itself}

module _ (dump : Bytes → Bytes → Bytes) (verify : Bytes → AccessTokenResult)
    (read_uuid : Bytes → Option Uuid) (relation : Uuid → Uuid → Relation)
    (accept_value : Bytes → Option Bytes) (request : HttpRequest) where
  -- What an upgrade says of the request.
  pub record IsProved (user device : Uuid) (response : Bytes) : Type 0 where
    pub token : authenticate verify request ≡ authenticated user
    pub identity : relation user device ≡ related true
    pub key : Bytes
    pub device_text : Bytes
    pub value : Bytes
    pub has_key : find_header (codes "Sec-WebSocket-Key") request.headers ≡ some key
    pub has_device : find_header (codes "deviceID") request.headers ≡ some device_text
    pub device_read : read_uuid device_text ≡ some device
    pub accepted : accept_value key ≡ some value
    pub switches : response ≡ generate_http_response (switching_response value)

  abbrev pub Proves : Handshake → Type 0
  Proves (rejects response) = Unit
  Proves throws = Unit
  Proves (upgrades user device response) = IsProved user device response

  key_Proves :
      (o : Option Bytes) (user device : Uuid) (key text : Bytes)
      → authenticate verify request ≡ authenticated user
      → find_header (codes "Sec-WebSocket-Key") request.headers ≡ some key
      → find_header (codes "deviceID") request.headers ≡ some text
      → read_uuid text ≡ some device
      → relation user device ≡ related true
      → accept_value key ≡ o
      → Proves (answer_key dump verify read_uuid relation accept_value user device o)
  unfolding answer_key
  key_Proves none user device key text t k d u r a = tt
  key_Proves (some value) user device key text t k d u r a = record {
    token = t;
    identity = r;
    key = key;
    device_text = text;
    value = value;
    has_key = k;
    has_device = d;
    device_read = u;
    accepted = a;
    switches = refl;
  }

  relation_Proves :
      (r : Relation) (user device : Uuid) (key text : Bytes)
      → authenticate verify request ≡ authenticated user
      → find_header (codes "Sec-WebSocket-Key") request.headers ≡ some key
      → find_header (codes "deviceID") request.headers ≡ some text
      → read_uuid text ≡ some device
      → relation user device ≡ r
      → Proves (
          answer_identity dump verify read_uuid relation accept_value key user device
            (verify_session_identity r))
  unfolding answer_identity verify_session_identity forbid
  relation_Proves (related true) user device key text t k d u r =
      key_Proves (accept_value key) user device key text t k d u r refl
  relation_Proves (related false) user device key text t k d u r = tt
  relation_Proves device_unknown user device key text t k d u r = tt
  relation_Proves device_inactive user device key text t k d u r = tt
  relation_Proves device_foreign user device key text t k d u r = tt
  relation_Proves other_error user device key text t k d u r = tt

  uuid_Proves :
      (o : Option Uuid) (user : Uuid) (key text : Bytes)
      → authenticate verify request ≡ authenticated user
      → find_header (codes "Sec-WebSocket-Key") request.headers ≡ some key
      → find_header (codes "deviceID") request.headers ≡ some text
      → read_uuid text ≡ o
      → Proves (answer_device dump verify read_uuid relation accept_value key user o)
  unfolding answer_device
  uuid_Proves none user key text t k d u = tt
  uuid_Proves (some device) user key text t k d u =
      relation_Proves (relation user device) user device key text t k d u refl

  device_Proves :
      (o : Option Bytes) (user : Uuid) (key : Bytes)
      → authenticate verify request ≡ authenticated user
      → find_header (codes "Sec-WebSocket-Key") request.headers ≡ some key
      → find_header (codes "deviceID") request.headers ≡ o
      → Proves (check_device dump verify read_uuid relation accept_value key user o)
  unfolding check_device
  device_Proves none user key t k d = tt
  device_Proves (some []) user key t k d = tt
  device_Proves (some (b ∷ bs)) user key t k d =
      uuid_Proves (read_uuid (b ∷ bs)) user key (b ∷ bs) t k d refl

  header_Proves :
      (o : Option Bytes) (user : Uuid)
      → authenticate verify request ≡ authenticated user
      → find_header (codes "Sec-WebSocket-Key") request.headers ≡ o
      → Proves (check_key dump verify read_uuid relation accept_value request.headers user o)
  unfolding check_key
  header_Proves none user t k = tt
  header_Proves (some []) user t k = tt
  header_Proves (some (b ∷ bs)) user t k =
      device_Proves (find_header (codes "deviceID") request.headers) user (b ∷ bs) t k refl

  token_Proves :
      (a : AuthResult)
      → authenticate verify request ≡ a
      → Proves (answer_token dump verify read_uuid relation accept_value request a)
  unfolding answer_token
  token_Proves expired t = tt
  token_Proves un_authorized t = tt
  token_Proves (authenticated user) t =
      header_Proves (find_header (codes "Sec-WebSocket-Key") request.headers) user t refl

  -- A worker upgrades a connection only for the user whom the request's token proves and the device
  -- that its header names, where the repository relates the two, and answers the key of its header.
  pub handshake-Proves : Proves (handshake dump verify read_uuid relation accept_value request)
  unfolding handshake
  handshake-Proves = token_Proves (authenticate verify request) refl

contains-false :
    (fd : ℕ) (m : List (ℕ × WebSocketSession)) → contains fd m ≡ false → find fd m ≡ none
contains-false fd m h = elim (Option-cases (find fd m)) [
  | inl e ↦ e
  | inr (s, e) ↦ absurd (cc (h, contains-some fd m s e))
]

register-Serves :
    (fd : ℕ) (s : WebSocketSession) (a : AcceptAnswers) (w : Worker)
    → has_pending_output s.connection ≡ false
    → IsSane (slot_at fd w)
    → Serves fd w (register fd s a w)
unfolding register
register-Serves fd s a w empty h =
    let i : Interest = record { readable = true; writable = false } in
    let calls = w.index_calls ++ adds s.device_id s.user_id fd s.id ∷ [] in
    if_cases (Serves fd w) (contains fd w.sessions) w _ (λ _. Serves-itself fd w h)
      (λ new.
        if_cases (Serves fd w) a.added _ w
          (λ _.
            let c = member fd w.closing_sessions in
            let d = find fd w.revoke_deadlines in
            let q = find fd w.close_completions in
            let (ec, ed, eq, _) =
              subst (λ o. SaneParts o c d q (find fd w.interests))
                (contains-false fd w.sessions new) h in
            record {
              only = new-Only fd s i calls w;
              sane_after = subst IsSane (sym (slot_at-new fd s i calls w)) (
                  subst (λ b. SaneParts (some s) b d q (some i)) (sym ec)
                    (subst (λ t. SaneParts (some s) false t q (some i)) (sym ed)
                      ((λ p. absurd (cc (p, empty)), λ p. absurd (cc p)), refl, eq)));
            })
          (λ _. Serves-itself fd w h))

take_over-Serves :
    (fd id : ℕ) (user device : Uuid) (bytes : Bytes) (s : Sending) (a : AcceptAnswers) (w : Worker)
    → IsWhole bytes s
    → IsSane (slot_at fd w)
    → Serves fd w (take_over fd id user device s a w)
unfolding take_over new_session
take_over-Serves fd id user device bytes (sending c out) a w whole h = Serves-itself fd w h
take_over-Serves fd id user device bytes (send_threw c out) a w whole h = Serves-itself fd w h
take_over-Serves fd id user device bytes (all_sent c out) a w whole h =
    if_cases (Serves fd w) a.nonblocking (register fd (new_session id user device c a.now) a w) w
      (λ _.
        register-Serves fd (new_session id user device c a.now) a w
          (has_pending_output-empty c whole.1) h)
      (λ _. Serves-itself fd w h)

pub accept_session-Serves :
    (fd id : ℕ) (c : Connection) (k : Handshake) (a : AcceptAnswers) (w : Worker)
    → IsSane (slot_at fd w)
    → Serves fd w (accept_session fd id c k a w)
unfolding accept_session
accept_session-Serves fd id c (rejects r) a w h = Serves-itself fd w h
accept_session-Serves fd id c throws a w h = Serves-itself fd w h
accept_session-Serves fd id c (upgrades user device response) a w h =
    take_over-Serves fd id user device _ (send_all c response a.sent) a w
      (send_all-IsWhole c response a.sent) h

register-debt :
    (fd : ℕ) (s : WebSocketSession) (a : AcceptAnswers) (w : Worker)
    → debt (register fd s a w) ≡ debt w
unfolding register
register-debt fd s a w =
    if_cases (λ (w' : Worker). debt w' ≡ debt w) (contains fd w.sessions) w _ (λ _. refl)
      (λ _. if_cases (λ (w' : Worker). debt w' ≡ debt w) a.added _ w (λ _. refl) (λ _. refl))

take_over-debt :
    (fd id : ℕ) (user device : Uuid) (s : Sending) (a : AcceptAnswers) (w : Worker)
    → debt (take_over fd id user device s a w) ≡ debt w
unfolding take_over
take_over-debt fd id user device (sending c out) a w = refl
take_over-debt fd id user device (send_threw c out) a w = refl
take_over-debt fd id user device (all_sent c out) a w =
    if_cases (λ (w' : Worker). debt w' ≡ debt w) a.nonblocking
      (register fd (new_session id user device c a.now) a w) w
      (λ _. register-debt fd (new_session id user device c a.now) a w) (λ _. refl)

-- A connection that is taken over leaves the callbacks and the promises as they are.
pub accept_session-debt :
    (fd id : ℕ) (c : Connection) (k : Handshake) (a : AcceptAnswers) (w : Worker)
    → debt (accept_session fd id c k a w) ≡ debt w
unfolding accept_session
accept_session-debt fd id c (rejects r) a w = refl
accept_session-debt fd id c throws a w = refl
accept_session-debt fd id c (upgrades user device response) a w =
    take_over-debt fd id user device (send_all c response a.sent) a w
