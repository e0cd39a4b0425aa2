-- ===== src/WebSocketWorker/Revoking.antt =====
-- The revocation of a device keeps every descriptor sane.
use cpp_backend_server.Base.{
  ℕ, ◌+◌, ◌≡◌, ◌≢◌, refl, sym, ap, ◌∙◌, subst, Bool, true, ◌&&◌, Option, none, some, List, [], ◌∷◌,
  if◌then◌else◌, if_cases, option_cases, Bool-cases, ◌==◌, ==→eq, ◌++◌, inl, inr, ◌⊎◌, find, assign,
  contains, contains-none, member, member-front, member-rest, set_insert,
}
use cpp_backend_server.Frame.{close}
use cpp_backend_server.WebSocketPool.{Uuid}
use cpp_backend_server.WebSocketHandler.{WebSocketSession, queue_frame, answer_with}
use cpp_backend_server.WebSocketWorker.{
  callbacks, Interest, Worker, seconds, remove_session, put_session,
}
use cpp_backend_server.WebSocketWorker.Tasks.{
  Answers, revoked_payload, start_sending, send_close, revoke_one, revoke_each, await_close,
  await_all, targets, revoke_targets, revoke_device,
}
use cpp_backend_server.WebSocketWorker.Slots.{
  Slot, slot_at, Only-then, slot_at-closing, closing-Only, slot_at-deadline, deadline-Only,
  slot_at-completions, completions-Only, put_session-Only,
}
use cpp_backend_server.WebSocketWorker.Sane.{
  SaneParts, IsSane, KeptParts, IsKept, Serves, remove_session-Serves,
}
use cpp_backend_server.WebSocketWorker.Output.{
  AllSane, SaneBut, SaneBut-none, SaneBut-at, SaneBut-rest, Serves-itself, Only-Serves,
  put_session-IsKept, start_sending-Serves,
}

-- A session that waits to be revoked: it may have callbacks without a deadline.
abbrev pub AwaitedParts :
    Option WebSocketSession → Bool → Option ℕ → Option (List ℕ) → Option Interest → Type 0
AwaitedParts none closing deadline completions interest =
    SaneParts none closing deadline completions interest
AwaitedParts (some s) closing deadline completions none = ⊥
AwaitedParts (some s) closing none completions (some i) = i.readable ≡ true
AwaitedParts (some s) closing (some t) completions (some i) =
    SaneParts (some s) closing (some t) completions (some i)

abbrev pub IsAwaited : Slot → Type 0
IsAwaited v = AwaitedParts v.session v.closing v.deadline v.completions v.interest

closing_dated :
    (s : Option WebSocketSession) (c : Bool) (t : ℕ) (d : Option ℕ) (q : Option (List ℕ))
    (i : Option Interest)
    → c ≡ true
    → AwaitedParts s c d q i
    → KeptParts s true (some t) q i
closing_dated none c t d q i on h = absurd (cc (on, h.0))
closing_dated (some s) c t d q i on h = refl

SaneParts-dated :
    (s : Option WebSocketSession) (c : Bool) (d : Option ℕ) (q : Option (List ℕ))
    (i : Option Interest)
    → d ≢ none
    → AwaitedParts s c d q i
    → SaneParts s c d q i
SaneParts-dated none c d q i some_ h = h
SaneParts-dated (some s) c d q none some_ h = elim h [ ]
SaneParts-dated (some s) c none q (some i) some_ h = absurd (some_ refl)
SaneParts-dated (some s) c (some t) q (some i) some_ h = h

pub SaneParts-AwaitedParts :
    (s : Option WebSocketSession) (c : Bool) (d : Option ℕ) (q : Option (List ℕ))
    (i : Option Interest)
    → SaneParts s c d q i
    → AwaitedParts s c d q i
SaneParts-AwaitedParts none c d q i h = h
SaneParts-AwaitedParts (some s) c d q none h = elim h [ ]
SaneParts-AwaitedParts (some s) c none q (some i) h = h.1
SaneParts-AwaitedParts (some s) c (some t) q (some i) h = h

with_callback :
    (s : WebSocketSession) (c : Bool) (d : Option ℕ) (q q' : Option (List ℕ)) (i : Option Interest)
    → AwaitedParts (some s) c d q i
    → AwaitedParts (some s) c d q' i
with_callback s c d q q' none h = elim h [ ]
with_callback s c none q q' (some i) h = h
with_callback s c (some t) q q' (some i) h = h

send_close-Serves :
    (fd : ℕ) (a : Answers) (w : Worker)
    → ((s : WebSocketSession) → find fd w.sessions ≡ some s → IsKept (slot_at fd w))
    → Serves fd w (send_close fd a w)
unfolding send_close
send_close-Serves fd a w h =
    option_cases (Serves fd w) (find fd w.sessions) (remove_session fd w) _
      (λ _. remove_session-Serves fd w)
      (λ s e.
        let s' = queue_frame (answer_with close revoked_payload) s in
        let w' = put_session fd s' w in
        Only-Serves fd w w' _ (put_session-Only fd s' w)
          (start_sending-Serves fd a w' (put_session-IsKept fd s s' w e (h s e))))

pub revoke_one-Serves :
    (fd : ℕ) (a : Answers) (w : Worker) → IsAwaited (slot_at fd w) → Serves fd w (revoke_one fd a w)
unfolding revoke_one
revoke_one-Serves fd a w h =
    let c = member fd w.closing_sessions in
    let d = find fd w.revoke_deadlines in
    let q = find fd w.close_completions in
    let i = find fd w.interests in
    let t = a.now + seconds 2 in
    let dated : Worker = record w { revoke_deadlines = assign fd t w.revoke_deadlines } in
    let closing : Worker = record dated {
      closing_sessions = set_insert fd dated.closing_sessions;
    } in
    let marked = slot_at-deadline fd t w in
    let dated_only = deadline-Only fd t w in
    if_cases (Serves fd w) (contains fd w.revoke_deadlines) w _
      (λ has. Serves-itself fd w (
        SaneParts-dated (find fd w.sessions) c d q i
          (λ e. cc (has, contains-none fd w.revoke_deadlines e)) h))
      (λ _.
        if_cases (Serves fd w) c (start_sending fd a dated) (send_close fd a closing)
          (λ on. Only-Serves fd w dated _ dated_only (
            start_sending-Serves fd a dated (
              subst IsKept (sym marked) (
                subst (λ b. KeptParts (find fd w.sessions) b (some t) q i) (sym on)
                  (closing_dated (find fd w.sessions) c t d q i on h)))))
          (λ _.
            Only-Serves fd w closing _
              (Only-then fd w dated closing dated_only (closing-Only fd dated))
              (send_close-Serves fd a closing (λ s e.
                subst IsKept
                  (sym (
                    slot_at-closing fd dated
                    ∙ ap (λ (v : Slot). record v { closing = true }) marked))
                  (subst (λ o. KeptParts o true (some t) q i) (sym e) refl)))))

-- While the device is revoked, the descriptors `fds` may still wait for it.
abbrev Ready : List ℕ → Worker → Type 0
Ready = SaneBut IsAwaited

IsSane-IsAwaited : (v : Slot) → IsSane v → IsAwaited v
IsSane-IsAwaited v h =
    SaneParts-AwaitedParts v.session v.closing v.deadline v.completions v.interest h

revoke_each-AllSane :
    (fds : List ℕ) (answers : ℕ → Answers) (w : Worker)
    → Ready fds w
    → AllSane (revoke_each fds answers w)
unfolding revoke_each
revoke_each-AllSane [] answers w h = SaneBut-none IsAwaited w h
revoke_each-AllSane (fd ∷ rest) answers w h =
    let w' = revoke_one fd (answers fd) w in
    let head : IsAwaited (slot_at fd w) =
      SaneBut-at IsAwaited fd (fd ∷ rest) w IsSane-IsAwaited h in
    let served = revoke_one-Serves fd (answers fd) w head in
    revoke_each-AllSane rest answers w' (SaneBut-rest IsAwaited fd rest w w' served h)

-- A descriptor of `all` with a session may get a callback.
await_close-Ready :
    (fd promise : ℕ) (all : List ℕ) (s : WebSocketSession) (w : Worker)
    → member fd all ≡ true
    → find fd w.sessions ≡ some s
    → Ready all w
    → Ready all (await_close promise fd w)
unfolding await_close
await_close-Ready fd promise all s w m e h j = elim (Bool-cases (fd == j)) [
  | inl same ↦
      let c = member fd w.closing_sessions in
      let d = find fd w.revoke_deadlines in
      let q = find fd w.close_completions in
      let i = find fd w.interests in
      let a : IsAwaited (slot_at fd w) = SaneBut-at IsAwaited fd all w IsSane-IsAwaited h in
      let ps = callbacks q ++ promise ∷ [] in
      let a' : AwaitedParts (find fd w.sessions) c d (some ps) i =
        subst (λ o. AwaitedParts o c d (some ps) i) (sym e)
          (with_callback s c d q (some ps) i (subst (λ o. AwaitedParts o c d q i) e a)) in
      subst
        (λ k.
          IsSane (slot_at k (await_close promise fd w))
          ⊎ ((member k all ≡ true) × IsAwaited (slot_at k (await_close promise fd w))))
        (==→eq fd j same) (inr (m, subst IsAwaited (sym (slot_at-completions fd ps w)) a'))
  | inr other ↦
      let o =
        sym (
          completions-Only fd (callbacks (find fd w.close_completions) ++ promise ∷ []) w j
            other) in
      elim (h j) [ inl x ↦ inl (subst IsSane o x) | inr (m, a) ↦ inr (m, subst IsAwaited o a) ]
]

-- The descriptors of `fds` are among `all`, and have sessions.
abbrev HaveSessions : List ℕ → List ℕ → List (ℕ × WebSocketSession) → Type 0
HaveSessions fds all sessions =
    (j : ℕ)
    → member j fds ≡ true
    → (member j all ≡ true) × ((s : WebSocketSession) × (find j sessions ≡ some s))

await_all-Ready :
    (fds all : List ℕ) (promise : ℕ) (w : Worker)
    → HaveSessions fds all w.sessions
    → Ready all w
    → Ready all (await_all fds promise w)
unfolding await_all await_close
await_all-Ready [] all promise w m h = h
await_all-Ready (fd ∷ rest) all promise w m h =
    let (here, (s, e)) = m fd (member-front fd rest) in
    await_all-Ready rest all promise (await_close promise fd w)
      (λ j r. m j (member-rest j fd rest r)) (await_close-Ready fd promise all s w here e h)

targets_found :
    (user device : Uuid) (sessions : List (ℕ × WebSocketSession)) (j : ℕ)
    → member j (targets user device sessions) ≡ true
    → (s : WebSocketSession) × (find j sessions ≡ some s)
unfolding targets member find
targets_found user device [] j h = absurd (cc h)
targets_found user device ((fd, s) ∷ rest) j h = elim (Bool-cases (fd == j)) [
  | inl same ↦ (s, ap (λ b. if b then some s else find j rest) same)
  | inr other ↦
      let later : member j (targets user device rest) ≡ true =
        if_cases
          (λ (fds : List ℕ). member j fds ≡ true → member j (targets user device rest) ≡ true)
          (s.user_id == user && s.device_id == device) (fd ∷ targets user device rest)
          (targets user device rest)
          (λ _ m. sym (ap (λ b. if b then true else member j (targets user device rest)) other) ∙ m)
          (λ _ m. m) h in
      let (t, e) = targets_found user device rest j later in
      (t, ap (λ b. if b then some s else find j rest) other ∙ e)
]

revoke_targets-AllSane :
    (fds : List ℕ) (promise : ℕ) (answers : ℕ → Answers) (w : Worker)
    → HaveSessions fds fds w.sessions
    → AllSane w
    → AllSane (revoke_targets fds promise answers w)
unfolding revoke_targets
revoke_targets-AllSane [] promise answers w m h = h
revoke_targets-AllSane (fd ∷ rest) promise answers w m h =
    revoke_each-AllSane (fd ∷ rest) answers _
      (await_all-Ready (fd ∷ rest) (fd ∷ rest) promise _ m (λ j. inl (h j)))

pub revoke_device-AllSane :
    (user device : Uuid) (promise : ℕ) (answers : ℕ → Answers) (w : Worker)
    → AllSane w
    → AllSane (revoke_device user device promise answers w)
unfolding revoke_device
revoke_device-AllSane user device promise answers w h =
    let fds = targets user device w.sessions in
    revoke_targets-AllSane fds promise answers w
      (λ j m. (m, targets_found user device w.sessions j m)) h
