-- ===== src/WebSocketWorker/Delivery.antt =====
-- Pushes, replies and closings reach only the session that they are meant for.
use cpp_backend_server.Base.{
  ℕ, ◌≡◌, refl, sym, ap, ◌∙◌, subst, Bool, true, false, ◌&&◌, Option, none, some, ◌==◌, ==→eq,
  if_cases, option_cases, Bool-cases, Bytes, find, member, inl, inr, ◌⊎◌,
}
use cpp_backend_server.Frame.{text}
use cpp_backend_server.WebSocketPool.{Uuid}
use cpp_backend_server.WebSocketHandler.{WebSocketSession, queue_frame, answer_with}
use cpp_backend_server.WebSocketWorker.{
  Worker, remove_session, modify_interest, set_write_interest, put_session,
}
use cpp_backend_server.WebSocketWorker.Tasks.{
  send_text, is_device, chosen, target, push, close_session, Reply, for_device, without_device,
  for_client, reply,
}
use cpp_backend_server.WebSocketWorker.Slots.{slot_at, slot_at-remove_session}
use cpp_backend_server.WebSocketWorker.Sane.{IsSane, Serves, remove_session-Serves}
use cpp_backend_server.WebSocketWorker.Output.{Serves-itself, send_text-Serves, find-put_session}

-- The session that a task may write to.
pub record IsTarget (fd session_id : ℕ) (device : Option Uuid) (w : Worker) (s : WebSocketSession)
    : Type 0 where
  pub found : find fd w.sessions ≡ some s
  pub open_ : member fd w.closing_sessions ≡ false
  pub same_id : s.id ≡ session_id
  pub same_device : is_device device s.device_id ≡ true

chosen-IsTarget :
    (fd session_id : ℕ) (device : Option Uuid) (w : Worker) (s t : WebSocketSession)
    → find fd w.sessions ≡ some t
    → member fd w.closing_sessions ≡ false
    → chosen session_id device t ≡ some s
    → IsTarget fd session_id device w s
unfolding chosen
chosen-IsTarget fd session_id device w s t e open_ =
    if_cases (λ (o : Option WebSocketSession). o ≡ some s → IsTarget fd session_id device w s)
      (t.id == session_id && is_device device t.device_id) (some t) none
      (λ same h.
        let h' : t ≡ s = cc h in
        subst (λ u. IsTarget fd session_id device w u) h'
          (record {
            found = e;
            open_ = open_;
            same_id = ==→eq t.id session_id (and_left (t.id == session_id) _ same);
            same_device = and_right (t.id == session_id) _ same;
          }))
      (λ _ h. absurd (cc h))
  where
    and_left : (a b : Bool) → (a && b) ≡ true → a ≡ true
    and_left true b h = refl
    and_left false b h = absurd (cc h)

    and_right : (a b : Bool) → (a && b) ≡ true → b ≡ true
    and_right true b h = h
    and_right false b h = absurd (cc h)

pub target-IsTarget :
    (fd session_id : ℕ) (device : Option Uuid) (w : Worker) (s : WebSocketSession)
    → target fd session_id device w ≡ some s
    → IsTarget fd session_id device w s
unfolding target
target-IsTarget fd session_id device w s =
    if_cases (λ (o : Option WebSocketSession). o ≡ some s → IsTarget fd session_id device w s)
      (member fd w.closing_sessions) none _ (λ _ h. absurd (cc h))
      (λ open_.
        option_cases
          (λ (o : Option WebSocketSession). o ≡ some s → IsTarget fd session_id device w s)
          (find fd w.sessions) none (chosen session_id device) (λ _ h. absurd (cc h))
          (λ t e. chosen-IsTarget fd session_id device w s t e open_))

pub push-Serves :
    (fd session_id : ℕ) (device : Uuid) (message : Bytes) (accepted : Bool) (w : Worker)
    → IsSane (slot_at fd w)
    → Serves fd w (push fd session_id device message accepted w)
unfolding push
push-Serves fd session_id device message accepted w h =
    option_cases (Serves fd w) (target fd session_id (some device) w) w
      (λ s. send_text fd message accepted s w) (λ _. Serves-itself fd w h)
      (λ s e.
        send_text-Serves fd message accepted s w
          (target-IsTarget fd session_id (some device) w s e).found h)

pub reply-Serves :
    (r : Reply) (fd session_id : ℕ) (accepted : Bool) (w : Worker)
    → IsSane (slot_at fd w)
    → Serves fd w (reply r fd session_id accepted w)
unfolding reply
reply-Serves (for_device device message) fd session_id accepted w h = record {
  only = λ j e. refl;
  sane_after = h;
}
reply-Serves without_device fd session_id accepted w h = Serves-itself fd w h
reply-Serves (for_client message) fd session_id accepted w h =
    option_cases (Serves fd w) (target fd session_id none w) w
      (λ s. send_text fd message accepted s w) (λ _. Serves-itself fd w h)
      (λ s e.
        send_text-Serves fd message accepted s w (target-IsTarget fd session_id none w s e).found h)

pub close_session-Serves :
    (fd session_id : ℕ) (device : Uuid) (w : Worker)
    → IsSane (slot_at fd w)
    → Serves fd w (close_session fd session_id device w)
unfolding close_session
close_session-Serves fd session_id device w h =
    option_cases (Serves fd w) (target fd session_id (some device) w) w (λ s. remove_session fd w)
      (λ _. Serves-itself fd w h) (λ s e. remove_session-Serves fd w)

-- The sessions of `w'` are those of `w`, less perhaps that of `fd`, or that one with a text frame
-- more to send.
abbrev Delivered : ℕ → ℕ → Option Uuid → Bytes → Worker → Worker → Type 0
Delivered fd session_id device message w w' =
    (j : ℕ) (s' : WebSocketSession)
    → find j w'.sessions ≡ some s'
    → (find j w.sessions ≡ some s')
      ⊎ ((s : WebSocketSession) × (j ≡ fd)
          × IsTarget fd session_id device w s
          × (s' ≡ queue_frame (answer_with text message) s))

interest_sessions :
    (fd : ℕ) (accepted : Bool) (w : Worker) (s t : WebSocketSession)
    → find fd w.sessions ≡ some s
    → find fd (set_write_interest fd true accepted w).sessions ≡ some t
    → t ≡ s
unfolding set_write_interest modify_interest
interest_sessions fd accepted w s t e =
    option_cases (λ (w' : Worker). find fd w'.sessions ≡ some t → t ≡ s) (find fd w.sessions) w
      (λ s. modify_interest fd true accepted w) (λ _ f. cc (e, f))
      (λ _ _.
        if_cases (λ (w' : Worker). find fd w'.sessions ≡ some t → t ≡ s) accepted _
          (remove_session fd w) (λ _ f. cc (e, f))
          (λ _ f.
            let f' = ap (λ v. v.session) (sym (slot_at-remove_session fd w)) ∙ f in absurd (cc f')))

send_text-Delivered :
    (fd session_id : ℕ) (device : Option Uuid) (message : Bytes) (accepted : Bool) (w : Worker)
    (s : WebSocketSession)
    → IsSane (slot_at fd w)
    → IsTarget fd session_id device w s
    → Delivered fd session_id device message w (send_text fd message accepted s w)
unfolding send_text
send_text-Delivered fd session_id device message accepted w s h t j s' e =
    elim (Bool-cases (fd == j)) [
      | inl same ↦
          let k = ==→eq fd j same in
          let q = queue_frame (answer_with text message) s in
          let e' =
            subst (λ i. find i (send_text fd message accepted s w).sessions ≡ some s') (sym k) e in
          inr (
            s,
            sym k,
            t,
            interest_sessions fd accepted (put_session fd q w) q s' (find-put_session fd q w) e',
          )
      | inr other ↦ inl (
          sym (
            ap (λ v. v.session) ((send_text-Serves fd message accepted s w t.found h).only j other))
          ∙ e)
    ]

delivered :
    (fd session_id : ℕ) (device : Uuid) (message : Bytes) (accepted : Bool) (w : Worker)
    → IsSane (slot_at fd w)
    → Delivered fd session_id (some device) message w (push fd session_id device message accepted w)
unfolding push
delivered fd session_id device message accepted w h =
    option_cases (Delivered fd session_id (some device) message w)
      (target fd session_id (some device) w) w (λ s. send_text fd message accepted s w)
      (λ _ j s' e. inl e)
      (λ s e.
        send_text-Delivered fd session_id (some device) message accepted w s h
          (target-IsTarget fd session_id (some device) w s e))

-- Where the descriptor of a push is sane, every session of the worker after it is one of before, or
-- it is the session at the given descriptor, which has the given identifier and device and is not
-- closing, with the message as one text frame behind its output.
pub push-IsTarget :
    (fd session_id : ℕ) (device : Uuid) (message : Bytes) (accepted : Bool) (w : Worker) (j : ℕ)
    (s' : WebSocketSession)
    → IsSane (slot_at fd w)
    → find j (push fd session_id device message accepted w).sessions ≡ some s'
    → (find j w.sessions ≡ some s')
      ⊎ ((s : WebSocketSession) × (j ≡ fd)
          × IsTarget fd session_id (some device) w s
          × (s' ≡ queue_frame (answer_with text message) s))
push-IsTarget fd session_id device message accepted w j s' h =
    delivered fd session_id device message accepted w h j s'
