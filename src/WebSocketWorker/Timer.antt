-- ===== src/WebSocketWorker/Timer.antt =====
-- The timer of a worker keeps every descriptor sane, and ends every revocation that is due.
use cpp_backend_server.Base.{
  ℕ, ◌≤◌, ◌≡◌, refl, sym, ap, ◌∙◌, subst, Bool, true, false, Option, none, some, List, [], ◌∷◌,
  ◌==◌, ==→eq, if◌then◌else◌, if_cases, option_cases, Bool-cases, inl, inr, ◌⊎◌, arith, find,
  member, member-front, member-rest,
}
use cpp_backend_server.WebSocketHandler.{WebSocketSession}
use cpp_backend_server.WebSocketWorker.{
  Interest, Worker, remove_session, modify_interest, set_write_interest,
}
use cpp_backend_server.WebSocketWorker.Events.{
  Tick, keeps, expires, pings, deadline_tick, tick_of, ticked, tick_sessions, is_expired, is_pinged,
  fds_where, remove_each, watch_each, handle_timer,
}
use cpp_backend_server.WebSocketWorker.Slots.{
  Slot, slot_at, gone, Only, only_itself, slot_at-remove_session, remove_session-Only,
  interest-Only,
}
use cpp_backend_server.WebSocketWorker.Sane.{
  SaneParts, IsSane, KeptParts, IsKept, SaneParts-KeptParts, IsSane-IsKept, remove_session-Serves,
  asks_for_output,
}
use cpp_backend_server.WebSocketWorker.Output.{
  AllSane, SaneBut, SaneBut-none, SaneBut-at, SaneBut-rest, KeptParts-replaced,
}

module _ (now : ℕ) (deadlines : List (ℕ × ℕ)) where
  abbrev tick_found : ℕ → Option WebSocketSession → Option WebSocketSession
  tick_found j none = none
  tick_found j (some s) = some (ticked now (tick_of now deadlines j s) s)

  find-tick_sessions :
      (sessions : List (ℕ × WebSocketSession)) (j : ℕ)
      → find j (tick_sessions now deadlines sessions) ≡ tick_found j (find j sessions)
  unfolding find tick_sessions
  find-tick_sessions [] j = refl
  find-tick_sessions ((fd, t) ∷ rest) j =
      by_key (fd == j) _ (find j rest) (==→eq fd j) (find-tick_sessions rest j)
    where
      by_key :
          (b : Bool) (o o' : Option WebSocketSession)
          → (b ≡ true → fd ≡ j)
          → o ≡ tick_found j o'
          → (if b then some (ticked now (tick_of now deadlines fd t) t) else o)
            ≡ tick_found j (if b then some t else o')
      by_key true o o' k ih = ap (λ i. some (ticked now (tick_of now deadlines i t) t)) (k refl)
      by_key false o o' k ih = ih

  member-fds_where :
      (test : Tick → Bool) (sessions : List (ℕ × WebSocketSession)) (j : ℕ) (s : WebSocketSession)
      → find j sessions ≡ some s
      → test (tick_of now deadlines j s) ≡ true
      → member j (fds_where test now deadlines sessions) ≡ true
  unfolding find fds_where
  member-fds_where test [] j s e h = absurd (cc e)
  member-fds_where test ((fd, t) ∷ rest) j s e h =
      by_key (fd == j) (==→eq fd j) e (λ e'. member-fds_where test rest j s e' h)
    where
      others : List ℕ
      others = fds_where test now deadlines rest

      chosen : Bool
      chosen = test (tick_of now deadlines fd t)

      by_key :
          (b : Bool)
          → (b ≡ true → fd ≡ j)
          → (if b then some t else find j rest) ≡ some s
          → (find j rest ≡ some s → member j others ≡ true)
          → member j (if chosen then fd ∷ others else others) ≡ true
      by_key true k e ih =
          let u : s ≡ t = sym (cc e) in
          let c : chosen ≡ true =
            subst (λ i. test (tick_of now deadlines i t) ≡ true) (sym (k refl))
              (subst (λ x. test (tick_of now deadlines j x) ≡ true) u h) in
          ap (λ b. member j (if b then fd ∷ others else others)) c
          ∙ subst (λ i. member j (i ∷ others) ≡ true) (sym (k refl)) (member-front j others)
      by_key false k e ih =
          if_cases (λ (fds : List ℕ). member j fds ≡ true) chosen (fd ∷ others) others
            (λ _. member-rest j fd others (ih e)) (λ _. ih e)

  ticked-SaneParts :
      (o : Option WebSocketSession) (c : Bool) (d : Option ℕ) (q : Option (List ℕ))
      (i : Option Interest) (j : ℕ) (writable : List ℕ)
      → ((s : WebSocketSession)
          → o ≡ some s
          → is_pinged (tick_of now deadlines j s) ≡ true
          → member j writable ≡ true)
      → SaneParts o c d q i
      → SaneParts (tick_found j o) c d q i
        ⊎ ((member j writable ≡ true) × KeptParts (tick_found j o) c d q i)
  unfolding ticked is_pinged
  ticked-SaneParts none c d q i j writable m h = inl h
  ticked-SaneParts (some s) c d q i j writable m h = by_tick (tick_of now deadlines j s) (m s refl)
    where
      by_tick :
          (t : Tick)
          → (is_pinged t ≡ true → member j writable ≡ true)
          → SaneParts (some (ticked now t s)) c d q i
            ⊎ ((member j writable ≡ true) × KeptParts (some (ticked now t s)) c d q i)
      by_tick keeps m = inl h
      by_tick expires m = inl h
      by_tick pings m = inr (
        m refl,
        KeptParts-replaced s (ticked now pings s) c d q i (SaneParts-KeptParts (some s) c d q i h),
      )

remove_each-SaneBut :
    (Q : Slot → Type 0) (fds writable : List ℕ) (w : Worker)
    → SaneBut Q writable w
    → SaneBut Q writable (remove_each fds w)
unfolding remove_each
remove_each-SaneBut Q [] writable w h = h
remove_each-SaneBut Q (fd ∷ rest) writable w h =
    remove_each-SaneBut Q rest writable (remove_session fd w) (λ j. elim (Bool-cases (fd == j)) [
      | inl e ↦ inl (
          subst (λ k. IsSane (slot_at k (remove_session fd w))) (==→eq fd j e)
            (remove_session-Serves fd w).sane_after)
      | inr e ↦
          let o = sym (remove_session-Only fd w j e) in
          elim (h j) [ inl x ↦ inl (subst IsSane o x) | inr (m, a) ↦ inr (m, subst Q o a) ]
    ])

watch_each-AllSane :
    (fds : List ℕ) (accepted : ℕ → Bool) (w : Worker)
    → SaneBut IsKept fds w
    → AllSane (watch_each fds accepted w)
unfolding watch_each
watch_each-AllSane [] accepted w h = SaneBut-none IsKept w h
watch_each-AllSane (fd ∷ rest) accepted w h =
    let served =
      asks_for_output fd (accepted fd) w (SaneBut-at IsKept fd (fd ∷ rest) w IsSane-IsKept h) in
    watch_each-AllSane rest accepted (set_write_interest fd true (accepted fd) w)
      (SaneBut-rest IsKept fd rest w _ served h)

pub handle_timer-AllSane :
    (now : ℕ) (accepted : ℕ → Bool) (w : Worker) → AllSane w → AllSane (handle_timer now accepted w)
unfolding handle_timer
handle_timer-AllSane now accepted w h =
    let ds = w.revoke_deadlines in
    let writable = fds_where is_pinged now ds w.sessions in
    let w' : Worker = record w { sessions = tick_sessions now ds w.sessions } in
    let ready : SaneBut IsKept writable w' = λ j.
      let c = member j w.closing_sessions in
      let d = find j ds in
      let q = find j w.close_completions in
      let i = find j w.interests in
      let e = find-tick_sessions now ds w.sessions j in
      subst (λ o. SaneParts o c d q i ⊎ ((member j writable ≡ true) × KeptParts o c d q i)) (sym e)
        (ticked-SaneParts now ds (find j w.sessions) c d q i j writable
          (λ s e t. member-fds_where now ds is_pinged w.sessions j s e t) (h j)) in
    watch_each-AllSane writable accepted _ (remove_each-SaneBut IsKept _ writable w' ready)

pub find-set_write_interest :
    (fd : ℕ) (enabled accepted : Bool) (w : Worker)
    → Only fd w (set_write_interest fd enabled accepted w)
unfolding set_write_interest modify_interest
find-set_write_interest fd enabled accepted w =
    option_cases (Only fd w) (find fd w.sessions) w (λ s. modify_interest fd enabled accepted w)
      (λ _. only_itself fd w)
      (λ _ _.
        if_cases (Only fd w) accepted _ (remove_session fd w) (λ _. interest-Only fd _ w)
          (λ _. remove_session-Only fd w))

after_removal :
    (fd j : ℕ) (w : Worker) → slot_at j w ≡ gone → slot_at j (remove_session fd w) ≡ gone
after_removal fd j w e = elim (Bool-cases (fd == j)) [
  | inl same ↦
      subst (λ k. slot_at k (remove_session fd w) ≡ gone) (==→eq fd j same)
        (slot_at-remove_session fd w)
  | inr other ↦ remove_session-Only fd w j other ∙ e
]

stays_gone :
    (fds : List ℕ) (j : ℕ) (w : Worker) → slot_at j w ≡ gone → slot_at j (remove_each fds w) ≡ gone
unfolding remove_each
stays_gone [] j w e = e
stays_gone (fd ∷ rest) j w e = stays_gone rest j (remove_session fd w) (after_removal fd j w e)

removed :
    (fds : List ℕ) (j : ℕ) (w : Worker) → member j fds ≡ true → slot_at j (remove_each fds w) ≡ gone
unfolding remove_each member
removed [] j w m = absurd (cc m)
removed (fd ∷ rest) j w m = elim (Bool-cases (fd == j)) [
  | inl e ↦ stays_gone rest j (remove_session fd w) (
      subst (λ k. slot_at k (remove_session fd w) ≡ gone) (==→eq fd j e)
        (slot_at-remove_session fd w))
  | inr e ↦
      removed rest j (remove_session fd w) (sym (ap (λ b. if b then true else member j rest) e) ∙ m)
]

unasked :
    (fd j : ℕ) (accepted : Bool) (w : Worker)
    → slot_at j w ≡ gone
    → slot_at j (set_write_interest fd true accepted w) ≡ gone
unfolding set_write_interest modify_interest
unasked fd j accepted w e = elim (Bool-cases (fd == j)) [
  | inl same ↦
      let none_ : find fd w.sessions ≡ none =
        ap (λ k. find k w.sessions) (==→eq fd j same) ∙ ap (λ v. v.session) e in
      option_cases (λ (w' : Worker). slot_at j w' ≡ gone) (find fd w.sessions) w
        (λ s. modify_interest fd true accepted w) (λ _. e) (λ s f. absurd (cc (none_, f)))
  | inr other ↦ find-set_write_interest fd true accepted w j other ∙ e
]

watched_gone :
    (fds : List ℕ) (j : ℕ) (accepted : ℕ → Bool) (w : Worker)
    → slot_at j w ≡ gone
    → slot_at j (watch_each fds accepted w) ≡ gone
unfolding watch_each
watched_gone [] j accepted w e = e
watched_gone (fd ∷ rest) j accepted w e =
    watched_gone rest j accepted (set_write_interest fd true (accepted fd) w)
      (unasked fd j (accepted fd) w e)

due :
    (now t : ℕ) (s : WebSocketSession) → t ≤ now → is_expired (deadline_tick now (some t) s) ≡ true
unfolding is_expired deadline_tick
due now t s h = ground (arith, h)

-- A tick of the timer at or after the deadline of a session's revocation removes the session, with
-- all that the worker keeps of its descriptor, whatever `epoll_ctl` answers.
pub handle_timer-due :
    (now t j : ℕ) (accepted : ℕ → Bool) (s : WebSocketSession) (w : Worker)
    → find j w.sessions ≡ some s
    → find j w.revoke_deadlines ≡ some t
    → t ≤ now
    → slot_at j (handle_timer now accepted w) ≡ gone
unfolding handle_timer tick_of
handle_timer-due now t j accepted s w e d h =
    let ds = w.revoke_deadlines in
    let expired = fds_where is_expired now ds w.sessions in
    let m : member j expired ≡ true =
      member-fds_where now ds is_expired w.sessions j s e
        (ap (λ o. is_expired (deadline_tick now o s)) d ∙ due now t s h) in
    watched_gone (fds_where is_pinged now ds w.sessions) j accepted _
      (removed expired j (record w { sessions = tick_sessions now ds w.sessions }) m)
