-- ===== src/WebSocketWorker/Slots.antt =====
-- What a worker keeps of one descriptor, gathered from its maps, and how its operations change it.
use cpp_backend_server.Base.{
  ℕ, ◌≡◌, refl, ◌∙◌, Bool, true, false, Option, none, some, List, ◌==◌, find, assign, member,
  set_insert, find-assign_same, find-assign_other, find-erase_same, find-erase_other,
  member-set_erase_same, member-set_erase_other, member-set_insert_same, member-set_insert_other,
}
use cpp_backend_server.WebSocketHandler.{WebSocketSession}
use cpp_backend_server.WebSocketWorker.{Interest, IndexCall, Worker, remove_session, put_session}

pub record Slot : Type 0 where
  pub session : Option WebSocketSession
  pub closing : Bool
  pub deadline : Option ℕ
  pub completions : Option (List ℕ)
  pub interest : Option Interest

abbrev pub slot_at : ℕ → Worker → Slot
slot_at fd w = record {
  session = find fd w.sessions;
  closing = member fd w.closing_sessions;
  deadline = find fd w.revoke_deadlines;
  completions = find fd w.close_completions;
  interest = find fd w.interests;
}

abbrev pub gone : Slot
gone = record {
  session = none;
  closing = false;
  deadline = none;
  completions = none;
  interest = none;
}

slot_eq :
    {s s' : Option WebSocketSession} {c c' : Bool} {d d' : Option ℕ} {q q' : Option (List ℕ)}
    {i i' : Option Interest}
    → s ≡ s'
    → c ≡ c'
    → d ≡ d'
    → q ≡ q'
    → i ≡ i'
    → Path Slot
        (record { session = s; closing = c; deadline = d; completions = q; interest = i })
        (record { session = s'; closing = c'; deadline = d'; completions = q'; interest = i' })
slot_eq es ec ed eq ei = λ k. record {
  session = es k;
  closing = ec k;
  deadline = ed k;
  completions = eq k;
  interest = ei k;
}

-- `w'` differs from `w` in what it keeps of `fd` only.
abbrev pub Only : ℕ → Worker → Worker → Type 0
Only fd w w' = (j : ℕ) → (fd == j) ≡ false → slot_at j w' ≡ slot_at j w

pub only_itself : (fd : ℕ) (w : Worker) → Only fd w w
only_itself fd w j h = refl

pub Only-then : (fd : ℕ) (w w' w'' : Worker) → Only fd w w' → Only fd w' w'' → Only fd w w''
Only-then fd w w' w'' f g j h = g j h ∙ f j h

pub slot_at-remove_session : (fd : ℕ) (w : Worker) → slot_at fd (remove_session fd w) ≡ gone
unfolding remove_session
slot_at-remove_session fd w =
    slot_eq (find-erase_same fd w.sessions) (member-set_erase_same fd w.closing_sessions)
      (find-erase_same fd w.revoke_deadlines) (find-erase_same fd w.close_completions)
      (find-erase_same fd w.interests)

pub remove_session-Only : (fd : ℕ) (w : Worker) → Only fd w (remove_session fd w)
unfolding remove_session
remove_session-Only fd w j h =
    slot_eq (find-erase_other fd j w.sessions h) (member-set_erase_other fd j w.closing_sessions h)
      (find-erase_other fd j w.revoke_deadlines h) (find-erase_other fd j w.close_completions h)
      (find-erase_other fd j w.interests h)

pub slot_at-put_session :
    (fd : ℕ) (s : WebSocketSession) (w : Worker)
    → slot_at fd (put_session fd s w) ≡ record (slot_at fd w) { session = some s }
unfolding put_session
slot_at-put_session fd s w = slot_eq (find-assign_same fd s w.sessions) refl refl refl refl

pub put_session-Only : (fd : ℕ) (s : WebSocketSession) (w : Worker) → Only fd w (put_session fd s w)
unfolding put_session
put_session-Only fd s w j h = slot_eq (find-assign_other fd j s w.sessions h) refl refl refl refl

pub slot_at-interest :
    (fd : ℕ) (i : Interest) (w : Worker)
    → slot_at fd (record w { interests = assign fd i w.interests })
      ≡ record (slot_at fd w) { interest = some i }
slot_at-interest fd i w = slot_eq refl refl refl refl (find-assign_same fd i w.interests)

pub interest-Only :
    (fd : ℕ) (i : Interest) (w : Worker)
    → Only fd w (record w { interests = assign fd i w.interests })
interest-Only fd i w j h = slot_eq refl refl refl refl (find-assign_other fd j i w.interests h)

pub slot_at-closing :
    (fd : ℕ) (w : Worker)
    → slot_at fd (record w { closing_sessions = set_insert fd w.closing_sessions })
      ≡ record (slot_at fd w) { closing = true }
slot_at-closing fd w = slot_eq refl (member-set_insert_same fd w.closing_sessions) refl refl refl

pub closing-Only :
    (fd : ℕ) (w : Worker)
    → Only fd w (record w { closing_sessions = set_insert fd w.closing_sessions })
closing-Only fd w j h =
    slot_eq refl (member-set_insert_other fd j w.closing_sessions h) refl refl refl

pub slot_at-deadline :
    (fd t : ℕ) (w : Worker)
    → slot_at fd (record w { revoke_deadlines = assign fd t w.revoke_deadlines })
      ≡ record (slot_at fd w) { deadline = some t }
slot_at-deadline fd t w = slot_eq refl refl (find-assign_same fd t w.revoke_deadlines) refl refl

pub deadline-Only :
    (fd t : ℕ) (w : Worker)
    → Only fd w (record w { revoke_deadlines = assign fd t w.revoke_deadlines })
deadline-Only fd t w j h =
    slot_eq refl refl (find-assign_other fd j t w.revoke_deadlines h) refl refl

pub slot_at-completions :
    (fd : ℕ) (ps : List ℕ) (w : Worker)
    → slot_at fd (record w { close_completions = assign fd ps w.close_completions })
      ≡ record (slot_at fd w) { completions = some ps }
slot_at-completions fd ps w =
    slot_eq refl refl refl (find-assign_same fd ps w.close_completions) refl

pub completions-Only :
    (fd : ℕ) (ps : List ℕ) (w : Worker)
    → Only fd w (record w { close_completions = assign fd ps w.close_completions })
completions-Only fd ps w j h =
    slot_eq refl refl refl (find-assign_other fd j ps w.close_completions h) refl

pub slot_at-new :
    (fd : ℕ) (s : WebSocketSession) (i : Interest) (calls : List IndexCall) (w : Worker)
    → slot_at fd (record w {
      sessions = assign fd s w.sessions;
      interests = assign fd i w.interests;
      index_calls = calls;
    })
      ≡ record (slot_at fd w) { session = some s; interest = some i }
slot_at-new fd s i calls w =
    slot_eq (find-assign_same fd s w.sessions) refl refl refl (find-assign_same fd i w.interests)

pub new-Only :
    (fd : ℕ) (s : WebSocketSession) (i : Interest) (calls : List IndexCall) (w : Worker)
    → Only fd w (record w {
      sessions = assign fd s w.sessions;
      interests = assign fd i w.interests;
      index_calls = calls;
    })
new-Only fd s i calls w j h =
    slot_eq (find-assign_other fd j s w.sessions h) refl refl refl
      (find-assign_other fd j i w.interests h)
