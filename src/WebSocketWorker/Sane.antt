-- ===== src/WebSocketWorker/Sane.antt =====
-- What holds of every descriptor between two events of a worker.
use cpp_backend_server.Base.{
  ℕ, ◌≡◌, refl, sym, subst, Bool, true, false, not, Option, none, some, List, if_cases,
  option_cases, find, contains, member,
}
use cpp_backend_server.Connection.{has_pending_output}
use cpp_backend_server.WebSocketHandler.{WebSocketSession}
use cpp_backend_server.WebSocketWorker.{
  Interest, Worker, remove_session, modify_interest, set_write_interest,
}
use cpp_backend_server.WebSocketWorker.Slots.{
  Slot, slot_at, gone, Only, only_itself, slot_at-remove_session, remove_session-Only,
  slot_at-interest, interest-Only,
}

-- What a session and its interest must be: output that waits is waited for, and so is the removal
-- of a closing session.
abbrev pub Waits : WebSocketSession → Bool → Interest → Type 0
Waits s closing i =
    (has_pending_output s.connection ≡ true → i.writable ≡ true)
    × (closing ≡ true → i.writable ≡ true)

-- Nothing is kept of a descriptor without a session. A session is registered with `epoll`, waits
-- for output as above, and
--   without a deadline is read and has no callbacks,
--   with a deadline is closing and is not read any more.
abbrev pub SaneParts :
    Option WebSocketSession → Bool → Option ℕ → Option (List ℕ) → Option Interest → Type 0
SaneParts none closing deadline completions interest =
    (closing ≡ false) × (deadline ≡ none) × (completions ≡ none) × (interest ≡ none)
SaneParts (some s) closing deadline completions none = ⊥
SaneParts (some s) closing none completions (some i) =
    Waits s closing i × (i.readable ≡ true) × (completions ≡ none)
SaneParts (some s) closing (some t) completions (some i) =
    Waits s closing i × (i.readable ≡ false) × (closing ≡ true)

abbrev pub IsSane : Slot → Type 0
IsSane v = SaneParts v.session v.closing v.deadline v.completions v.interest

-- What is left of that while a handler has not yet asked for output.
abbrev pub KeptParts :
    Option WebSocketSession → Bool → Option ℕ → Option (List ℕ) → Option Interest → Type 0
KeptParts none closing deadline completions interest =
    (closing ≡ false) × (deadline ≡ none) × (completions ≡ none) × (interest ≡ none)
KeptParts (some s) closing none completions interest = completions ≡ none
KeptParts (some s) closing (some t) completions interest = closing ≡ true

abbrev pub IsKept : Slot → Type 0
IsKept v = KeptParts v.session v.closing v.deadline v.completions v.interest

pub SaneParts-KeptParts :
    (s : Option WebSocketSession) (c : Bool) (d : Option ℕ) (q : Option (List ℕ))
    (i : Option Interest)
    → SaneParts s c d q i
    → KeptParts s c d q i
SaneParts-KeptParts none c d q i h = h
SaneParts-KeptParts (some s) c d q none h = elim h [ ]
SaneParts-KeptParts (some s) c none q (some i) h = h.2
SaneParts-KeptParts (some s) c (some t) q (some i) h = h.2

pub IsSane-IsKept : (v : Slot) → IsSane v → IsKept v
IsSane-IsKept v h = SaneParts-KeptParts v.session v.closing v.deadline v.completions v.interest h

gone-IsSane : IsSane gone
gone-IsSane = (refl, refl, refl, refl)

pub remove_session-IsSane : (fd : ℕ) (w : Worker) → IsSane (slot_at fd (remove_session fd w))
remove_session-IsSane fd w = subst IsSane (sym (slot_at-remove_session fd w)) gone-IsSane

-- `w'` came from `w` by a handler for `fd`, which left `fd` sane.
pub record Serves (fd : ℕ) (w w' : Worker) : Type 0 where
  pub only : Only fd w w'
  pub sane_after : IsSane (slot_at fd w')

pub remove_session-Serves : (fd : ℕ) (w : Worker) → Serves fd w (remove_session fd w)
remove_session-Serves fd w = record {
  only = remove_session-Only fd w;
  sane_after = remove_session-IsSane fd w;
}

registered :
    (s : WebSocketSession) (c : Bool) (d : Option ℕ) (q : Option (List ℕ)) (enabled readable : Bool)
    → KeptParts (some s) c d q none
    → readable ≡ not (elim d [ none ↦ false | some t ↦ true ])
    → Waits s c (record { readable = readable; writable = enabled })
    → SaneParts (some s) c d q (some (record { readable = readable; writable = enabled }))
registered s c none q enabled readable h e w = (w, e, h)
registered s c (some t) q enabled readable h e w = (w, e, h)

readable_lem :
    (fd : ℕ) (w : Worker)
    → not (contains fd w.revoke_deadlines)
      ≡ not (elim (find fd w.revoke_deadlines) [ none ↦ false | some t ↦ true ])
unfolding contains
readable_lem fd w = refl

-- The worker asks for output, or stops to, of a session that may.
pub modify_interest-Serves :
    (fd : ℕ) (enabled accepted : Bool) (s : WebSocketSession) (w : Worker)
    → find fd w.sessions ≡ some s
    → IsKept (slot_at fd w)
    → Waits s
        (member fd w.closing_sessions)
        (record { readable = not (contains fd w.revoke_deadlines); writable = enabled })
    → Serves fd w (modify_interest fd enabled accepted w)
unfolding modify_interest
modify_interest-Serves fd enabled accepted s w e h waits =
    let c = member fd w.closing_sessions in
    let d = find fd w.revoke_deadlines in
    let q = find fd w.close_completions in
    let i : Interest = record {
      readable = not (contains fd w.revoke_deadlines);
      writable = enabled;
    } in
    let h' : KeptParts (some s) c d q none =
      weaken s c d q (find fd w.interests) none
        (subst (λ o. KeptParts o c d q (find fd w.interests)) e h) in
    if_cases (Serves fd w) accepted _ (remove_session fd w)
      (λ _. record {
        only = interest-Only fd i w;
        sane_after = subst IsSane (sym (slot_at-interest fd i w)) (
            subst (λ o. SaneParts o c d q (some i)) (sym e)
              (registered s c d q enabled _ h' (readable_lem fd w) waits));
      })
      (λ _. remove_session-Serves fd w)
  where
    weaken :
        (s : WebSocketSession) (c : Bool) (d : Option ℕ) (q : Option (List ℕ))
        (i i' : Option Interest)
        → KeptParts (some s) c d q i
        → KeptParts (some s) c d q i'
    weaken s c none q i i' h = h
    weaken s c (some t) q i i' h = h

KeptParts-nothing :
    (fd : ℕ) (w : Worker)
    → find fd w.sessions ≡ none
    → IsKept (slot_at fd w)
    → IsSane (slot_at fd w)
KeptParts-nothing fd w e h =
    let c = member fd w.closing_sessions in
    let d = find fd w.revoke_deadlines in
    let q = find fd w.close_completions in
    let i = find fd w.interests in
    subst (λ o. SaneParts o c d q i) (sym e) (subst (λ o. KeptParts o c d q i) e h)

pub asks_for_output :
    (fd : ℕ) (accepted : Bool) (w : Worker)
    → IsKept (slot_at fd w)
    → Serves fd w (set_write_interest fd true accepted w)
unfolding set_write_interest
asks_for_output fd accepted w h =
    option_cases (Serves fd w) (find fd w.sessions) w (λ s. modify_interest fd true accepted w)
      (λ e. record { only = only_itself fd w; sane_after = KeptParts-nothing fd w e h })
      (λ s e. modify_interest-Serves fd true accepted s w e h (λ _. refl, λ _. refl))
