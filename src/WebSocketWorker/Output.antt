-- ===== src/WebSocketWorker/Output.antt =====
-- The handlers of a worker that write keep a sane descriptor sane and touch no other one.
use cpp_backend_server.Base.{
  ℕ, ◌≡◌, sym, ap, ◌∙◌, subst, Bool, true, false, Option, none, some, List, [], ◌∷◌, ◌==◌, ==→eq,
  if◌then◌else◌, if_cases, option_cases, Bool-cases, Bytes, find, member, inl, inr, ◌⊎◌,
}
use cpp_backend_server.Connection.{
  has_pending_output, Sent, FlushResult, flushing, flushed, flushed_none, flush_again, flush_error,
  flush,
}
use cpp_backend_server.Connection.Flushing.{flush-has_pending_output}
use cpp_backend_server.Frame.{text}
use cpp_backend_server.WebSocketHandler.{WebSocketSession, queue_frame, answer_with}
use cpp_backend_server.WebSocketWorker.{
  Interest, Worker, remove_session, modify_interest, set_write_interest, put_session, drained,
  after_flush, flush_session, handle_writable,
}
use cpp_backend_server.WebSocketWorker.Tasks.{send_text, Answers, start_sending}
use cpp_backend_server.WebSocketWorker.Slots.{
  Slot, slot_at, Only, only_itself, Only-then, slot_at-put_session, put_session-Only,
}
use cpp_backend_server.WebSocketWorker.Sane.{
  SaneParts, IsSane, KeptParts, IsKept, IsSane-IsKept, Serves, remove_session-Serves,
  modify_interest-Serves, asks_for_output,
}

-- Every descriptor is sane.
abbrev pub AllSane : Worker → Type 0
AllSane w = (j : ℕ) → IsSane (slot_at j w)

pub Serves-AllSane : (fd : ℕ) (w w' : Worker) → Serves fd w w' → AllSane w → AllSane w'
Serves-AllSane fd w w' s h j = elim (Bool-cases (fd == j)) [
  | inl e ↦ subst (λ k. IsSane (slot_at k w')) (==→eq fd j e) s.sane_after
  | inr e ↦ subst IsSane (sym (s.only j e)) (h j)
]

-- All are sane, but those of `fds` may have `Q` instead.
abbrev pub SaneBut : (Slot → Type 0) → List ℕ → Worker → Type 0
SaneBut Q fds w = (j : ℕ) → IsSane (slot_at j w) ⊎ ((member j fds ≡ true) × Q (slot_at j w))

pub SaneBut-none : (Q : Slot → Type 0) (w : Worker) → SaneBut Q [] w → AllSane w
unfolding member
SaneBut-none Q w h j = elim (h j) [ inl s ↦ s | inr (m, a) ↦ absurd (cc m) ]

pub SaneBut-at :
    (Q : Slot → Type 0) (fd : ℕ) (fds : List ℕ) (w : Worker)
    → ((v : Slot) → IsSane v → Q v)
    → SaneBut Q fds w
    → Q (slot_at fd w)
SaneBut-at Q fd fds w weaken h = elim (h fd) [ inl s ↦ weaken (slot_at fd w) s | inr (m, a) ↦ a ]

pub SaneBut-rest :
    (Q : Slot → Type 0) (fd : ℕ) (rest : List ℕ) (w w' : Worker)
    → Serves fd w w'
    → SaneBut Q (fd ∷ rest) w
    → SaneBut Q rest w'
unfolding member
SaneBut-rest Q fd rest w w' served h j = elim (Bool-cases (fd == j)) [
  | inl e ↦ inl (subst (λ k. IsSane (slot_at k w')) (==→eq fd j e) served.sane_after)
  | inr e ↦ elim (h j) [
    | inl s ↦ inl (subst IsSane (sym (served.only j e)) s)
    | inr (m, a) ↦
        inr (
          sym (ap (λ b. if b then true else member j rest) e) ∙ m,
          subst Q (sym (served.only j e)) a,
        )
  ]
]

pub Serves-itself : (fd : ℕ) (w : Worker) → IsSane (slot_at fd w) → Serves fd w w
Serves-itself fd w h = record { only = only_itself fd w; sane_after = h }

pub Only-Serves : (fd : ℕ) (w w' w'' : Worker) → Only fd w w' → Serves fd w' w'' → Serves fd w w''
Only-Serves fd w w' w'' o s = record {
  only = Only-then fd w w' w'' o s.only;
  sane_after = s.sane_after;
}

stops_asking :
    (fd : ℕ) (accepted : Bool) (s : WebSocketSession) (w : Worker)
    → find fd w.sessions ≡ some s
    → has_pending_output s.connection ≡ false
    → member fd w.closing_sessions ≡ false
    → IsSane (slot_at fd w)
    → Serves fd w (set_write_interest fd false accepted w)
unfolding set_write_interest
stops_asking fd accepted s w e empty open_ h =
    option_cases (Serves fd w) (find fd w.sessions) w (λ s. modify_interest fd false accepted w)
      (λ _. Serves-itself fd w h)
      (λ _ _.
        modify_interest-Serves fd false accepted s w e (IsSane-IsKept (slot_at fd w) h)
          (λ p. absurd (cc (p, empty)), λ p. absurd (cc (p, open_))))

drained-Serves :
    (fd : ℕ) (accepted : Bool) (s : WebSocketSession) (w : Worker)
    → find fd w.sessions ≡ some s
    → has_pending_output s.connection ≡ false
    → IsSane (slot_at fd w)
    → Serves fd w (drained fd accepted w)
unfolding drained
drained-Serves fd accepted s w e empty h =
    if_cases (Serves fd w) (member fd w.closing_sessions) (remove_session fd w)
      (set_write_interest fd false accepted w) (λ _. remove_session-Serves fd w)
      (λ open_. stops_asking fd accepted s w e empty open_ h)

after_flush-Serves :
    (result : FlushResult) (fd : ℕ) (accepted : Bool) (s : WebSocketSession) (w : Worker)
    → find fd w.sessions ≡ some s
    → IsSane (slot_at fd w)
    → Serves fd w (after_flush result fd (has_pending_output s.connection) accepted w)
unfolding after_flush
after_flush-Serves flushing fd accepted s w e h = Serves-itself fd w h
after_flush-Serves flushed fd accepted s w e h =
    if_cases (Serves fd w) (has_pending_output s.connection) w (drained fd accepted w)
      (λ _. Serves-itself fd w h) (λ empty. drained-Serves fd accepted s w e empty h)
after_flush-Serves flushed_none fd accepted s w e h =
    if_cases (Serves fd w) (has_pending_output s.connection) (remove_session fd w)
      (drained fd accepted w) (λ _. remove_session-Serves fd w)
      (λ empty. drained-Serves fd accepted s w e empty h)
after_flush-Serves flush_again fd accepted s w e h = Serves-itself fd w h
after_flush-Serves flush_error fd accepted s w e h = remove_session-Serves fd w

-- A session with no more output than before may take the place of the one before.
replaced :
    (s s' : WebSocketSession) (c : Bool) (d : Option ℕ) (q : Option (List ℕ)) (i : Option Interest)
    → (has_pending_output s'.connection ≡ true → has_pending_output s.connection ≡ true)
    → SaneParts (some s) c d q i
    → SaneParts (some s') c d q i
replaced s s' c d q none less h = elim h [ ]
replaced s s' c none q (some i) less h = ((λ p. h.0.0 (less p), h.0.1), h.1, h.2)
replaced s s' c (some t) q (some i) less h = ((λ p. h.0.0 (less p), h.0.1), h.1, h.2)

pub put_session-IsSane :
    (fd : ℕ) (s s' : WebSocketSession) (w : Worker)
    → find fd w.sessions ≡ some s
    → (has_pending_output s'.connection ≡ true → has_pending_output s.connection ≡ true)
    → IsSane (slot_at fd w)
    → IsSane (slot_at fd (put_session fd s' w))
put_session-IsSane fd s s' w e less h =
    let c = member fd w.closing_sessions in
    let d = find fd w.revoke_deadlines in
    let q = find fd w.close_completions in
    let i = find fd w.interests in
    subst IsSane (sym (slot_at-put_session fd s' w))
      (replaced s s' c d q i less (subst (λ o. SaneParts o c d q i) e h))

pub KeptParts-replaced :
    (s s' : WebSocketSession) (c : Bool) (d : Option ℕ) (q : Option (List ℕ)) (i : Option Interest)
    → KeptParts (some s) c d q i
    → KeptParts (some s') c d q i
KeptParts-replaced s s' c none q i h = h
KeptParts-replaced s s' c (some t) q i h = h

pub put_session-IsKept :
    (fd : ℕ) (s s' : WebSocketSession) (w : Worker)
    → find fd w.sessions ≡ some s
    → IsKept (slot_at fd w)
    → IsKept (slot_at fd (put_session fd s' w))
put_session-IsKept fd s s' w e h =
    let c = member fd w.closing_sessions in
    let d = find fd w.revoke_deadlines in
    let q = find fd w.close_completions in
    let i = find fd w.interests in
    subst IsKept (sym (slot_at-put_session fd s' w))
      (KeptParts-replaced s s' c d q i (subst (λ o. KeptParts o c d q i) e h))

pub find-put_session :
    (fd : ℕ) (s : WebSocketSession) (w : Worker) → find fd (put_session fd s w).sessions ≡ some s
find-put_session fd s w = ap (λ v. v.session) (slot_at-put_session fd s w)

pub handle_writable-Serves :
    (fd : ℕ) (sent : List Sent) (accepted : Bool) (w : Worker)
    → IsSane (slot_at fd w)
    → Serves fd w (handle_writable fd sent accepted w)
unfolding handle_writable flush_session
handle_writable-Serves fd sent accepted w h =
    option_cases (Serves fd w) (find fd w.sessions) w (λ s. flush_session fd sent accepted s w)
      (λ _. Serves-itself fd w h)
      (λ s e.
        let (result, c) = flush s.connection sent in
        let s' : WebSocketSession = record s { connection = c } in
        let w' = put_session fd s' w in
        Only-Serves fd w w' _ (put_session-Only fd s' w) (
          after_flush-Serves result fd accepted s' w' (find-put_session fd s' w)
            (put_session-IsSane fd s s' w e (flush-has_pending_output s.connection sent) h)))

pub start_sending-Serves :
    (fd : ℕ) (a : Answers) (w : Worker) → IsKept (slot_at fd w) → Serves fd w (start_sending fd a w)
unfolding start_sending
start_sending-Serves fd a w h =
    let w' = set_write_interest fd true a.first_accepted w in
    let asked = asks_for_output fd a.first_accepted w h in
    Only-Serves fd w w' _ asked.only
      (handle_writable-Serves fd a.sent a.then_accepted w' asked.sane_after)

pub send_text-Serves :
    (fd : ℕ) (message : Bytes) (accepted : Bool) (s : WebSocketSession) (w : Worker)
    → find fd w.sessions ≡ some s
    → IsSane (slot_at fd w)
    → Serves fd w (send_text fd message accepted s w)
unfolding send_text
send_text-Serves fd message accepted s w e h =
    let s' = queue_frame (answer_with text message) s in
    let w' = put_session fd s' w in
    Only-Serves fd w w' _ (put_session-Only fd s' w) (
      asks_for_output fd accepted w'
        (put_session-IsKept fd s s' w e (IsSane-IsKept (slot_at fd w) h)))
