-- ===== src/WebSocketWorker/Revoked.antt =====
-- A revocation ends: the timer that comes at or after all deadlines fulfils its promise.
use cpp_backend_server.Base.{
  ℕ, ◌≤◌, ◌≡◌, ◌≢◌, refl, sym, ap, ◌∙◌, subst, Bool, true, Option, none, some, List, [], ◌∷◌, ◌==◌,
  ==_refl, if◌then◌else◌, if_cases, option_cases, Option-cases, inl, inr, find, find-erase,
  find-assign, member,
}
use cpp_backend_server.WebSocketHandler.{WebSocketSession}
use cpp_backend_server.WebSocketWorker.{
  Interest, Promises, Worker, count_down, complete, complete_all, callbacks, remove_session,
  modify_interest, set_write_interest,
}
use cpp_backend_server.WebSocketWorker.Events.{
  fds_where, is_expired, is_pinged, tick_sessions, remove_each, watch_each, handle_timer,
}
use cpp_backend_server.WebSocketWorker.Slots.{Slot, slot_at}
use cpp_backend_server.WebSocketWorker.Sane.{SaneParts}
use cpp_backend_server.WebSocketWorker.Debts.{Callbacks, count, OwesParts, Debt, debt}
use cpp_backend_server.WebSocketWorker.Dropping.{handle_timer-Keeps}
use cpp_backend_server.WebSocketWorker.Timer.{handle_timer-due}
use cpp_backend_server.WebSocketWorker.System.{Reach, steps, ticks, Reach-AllSane}
use cpp_backend_server.WebSocketWorker.Fulfilment.{debt-IsCounted}

-- The timer sets no deadline.
abbrev NoDeadline : ℕ → Worker → Type 0
NoDeadline j w = find j w.revoke_deadlines ≡ none

remove_session-NoDeadline :
    (fd j : ℕ) (w : Worker) → NoDeadline j w → NoDeadline j (remove_session fd w)
unfolding remove_session
remove_session-NoDeadline fd j w h =
    find-erase fd j w.revoke_deadlines
    ∙ if_cases (λ (o : Option ℕ). o ≡ none) (fd == j) none (find j w.revoke_deadlines) (λ _. refl)
        (λ _. h)

remove_each-NoDeadline :
    (fds : List ℕ) (j : ℕ) (w : Worker) → NoDeadline j w → NoDeadline j (remove_each fds w)
unfolding remove_each
remove_each-NoDeadline [] j w h = h
remove_each-NoDeadline (fd ∷ rest) j w h =
    remove_each-NoDeadline rest j (remove_session fd w) (remove_session-NoDeadline fd j w h)

watch_each-NoDeadline :
    (fds : List ℕ) (j : ℕ) (accepted : ℕ → Bool) (w : Worker)
    → NoDeadline j w
    → NoDeadline j (watch_each fds accepted w)
unfolding watch_each set_write_interest modify_interest
watch_each-NoDeadline [] j accepted w h = h
watch_each-NoDeadline (fd ∷ rest) j accepted w h =
    watch_each-NoDeadline rest j accepted (set_write_interest fd true (accepted fd) w) (
      option_cases (NoDeadline j) (find fd w.sessions) w
        (λ s. modify_interest fd true (accepted fd) w) (λ _. h)
        (λ _ _.
          if_cases (NoDeadline j) (accepted fd) _ (remove_session fd w) (λ _. h)
            (λ _. remove_session-NoDeadline fd j w h)))

handle_timer-NoDeadline :
    (now j : ℕ) (accepted : ℕ → Bool) (w : Worker)
    → NoDeadline j w
    → NoDeadline j (handle_timer now accepted w)
unfolding handle_timer
handle_timer-NoDeadline now j accepted w h =
    watch_each-NoDeadline (fds_where is_pinged now w.revoke_deadlines w.sessions) j accepted _ (
      remove_each-NoDeadline (fds_where is_expired now w.revoke_deadlines w.sessions) j
        (record w { sessions = tick_sessions now w.revoke_deadlines w.sessions }) h)

-- A promise keeps its counter.
abbrev HasCounter : ℕ → Debt → Type 0
HasCounter p d = find p d.promises.remaining ≢ none

count_down-kept :
    (q p : ℕ) (o : Option ℕ) (ps : Promises)
    → find p ps.remaining ≢ none
    → find p (count_down q ps o).remaining ≢ none
unfolding count_down
count_down-kept q p none ps h = h
count_down-kept q p (some n) ps h = λ e.
    if_cases (λ (o : Option ℕ). o ≡ none → ⊥) (q == p) (some _) (find p ps.remaining) (λ _ f. cc f)
      (λ _. h) (sym (find-assign q p _ ps.remaining) ∙ e)

complete_all-kept :
    (qs : List ℕ) (p : ℕ) (ps : Promises)
    → find p ps.remaining ≢ none
    → find p (complete_all qs ps).remaining ≢ none
unfolding complete_all complete
complete_all-kept [] p ps h = h
complete_all-kept (q ∷ qs) p ps h =
    complete_all-kept qs p (complete q ps) (count_down-kept q p (find q ps.remaining) ps h)

no_callbacks : (m : Callbacks) (p : ℕ) → ((fd : ℕ) → find fd m ≡ none) → count p m ≡ 0
unfolding find
no_callbacks [] p h = refl
no_callbacks ((fd, ps) ∷ m) p h =
    absurd (cc (sym (ap (λ b. if b then some ps else find fd m) (==_refl fd)) ∙ h fd))

-- A sane descriptor without a deadline has no callbacks.
undated :
    (s : Option WebSocketSession) (c : Bool) (d : Option ℕ) (q : Option (List ℕ))
    (i : Option Interest)
    → d ≡ none
    → SaneParts s c d q i
    → q ≡ none
undated none c d q i e h = h.2
undated (some s) c d q none e h = elim h [ ]
undated (some s) c none q (some i) e h = h.2
undated (some s) c (some t) q (some i) e h = absurd (cc e)

present :
    (s : Option WebSocketSession) (c : Bool) (d : Option ℕ) (q : Option (List ℕ))
    (i : Option Interest) (t : ℕ)
    → d ≡ some t
    → SaneParts s c d q i
    → (u : WebSocketSession) × (s ≡ some u)
present none c d q i t e h = absurd (cc (e, h.1))
present (some s) c d q i t e h = (s, refl)

-- After a tick at or after every deadline no descriptor has callbacks.
cleared :
    (now fd : ℕ) (accepted : ℕ → Bool) (w : Worker)
    → Reach w
    → ((t : ℕ) → find fd w.revoke_deadlines ≡ some t → t ≤ now)
    → find fd (handle_timer now accepted w).close_completions ≡ none
cleared now fd accepted w r due =
    let w' = handle_timer now accepted w in
    let sane = Reach-AllSane w r fd in
    elim (Option-cases (find fd w.revoke_deadlines)) [
      | inl e ↦
          let v = slot_at fd w' in
          let sane' = Reach-AllSane w' (steps w w' r (ticks now accepted w)) fd in
          undated v.session v.closing v.deadline v.completions v.interest
            (handle_timer-NoDeadline now fd accepted w e) sane'
      | inr (t, e) ↦
          let v = slot_at fd w in
          let (s, f) = present v.session v.closing v.deadline v.completions v.interest t e sane in
          ap (λ (u : Slot). u.completions) (handle_timer-due now t fd accepted s w f e (due t e))
    ]

-- In every state that a worker reaches, if a revocation's promise has its counter and the timer
-- comes when no deadline is still ahead, the promise holds its value after it.
pub handle_timer-fulfilled :
    (now promise n : ℕ) (accepted : ℕ → Bool) (w : Worker)
    → Reach w
    → find promise w.promises.remaining ≡ some n
    → ((fd t : ℕ) → find fd w.revoke_deadlines ≡ some t → t ≤ now)
    → member promise (handle_timer now accepted w).promises.fulfilled ≡ true
handle_timer-fulfilled now promise n accepted w r e due =
    let w' = handle_timer now accepted w in
    let counted = debt-IsCounted w' (steps w w' r (ticks now accepted w)) in
    let zero_ : count promise w'.close_completions ≡ 0 =
      no_callbacks w'.close_completions promise (λ fd. cleared now fd accepted w r (due fd)) in
    let kept : HasCounter promise (debt w') =
      handle_timer-Keeps (HasCounter promise)
        (λ fd d h. complete_all-kept (callbacks (find fd d.completions)) promise d.promises h) now
        accepted w (λ f. cc (e, f)) in
    elim (Option-cases (find promise w'.promises.remaining)) [
      | inl f ↦ absurd (kept f)
      | inr (k, f) ↦
          let (same, _, holds) =
            subst
              (λ o.
                OwesParts o (count promise w'.close_completions)
                  (member promise w'.promises.fulfilled))
              f (counted.owed promise) in
          holds ∙ ap (λ i. i == 0) (same ∙ zero_)
    ]
