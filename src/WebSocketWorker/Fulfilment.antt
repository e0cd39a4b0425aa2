-- ===== src/WebSocketWorker/Fulfilment.antt =====
-- The promise of a revocation holds its value exactly when all its callbacks have run.
use cpp_backend_server.Base.{
  ℕ, suc, ◌+◌, ◌^◌, ◌<◌, ◌≡◌, refl, sym, ap, ◌∙◌, subst, Bool, true, false, none, some, List, [],
  ◌∷◌, ◌++◌, ◌==◌, ==→eq, if◌then◌else◌, Bool-cases, inl, inr, length, find, assign,
  find-assign_same, find-assign_other, member, arith,
}
use cpp_backend_server.WebSocketWorker.{Promises, Worker, callbacks}
use cpp_backend_server.WebSocketWorker.Tasks.{
  Answers, targets, await_close, await_all, revoke_targets, revoke_device,
}
use cpp_backend_server.WebSocketWorker.Debts.{
  one_if, occurrences, occurrences-append, count, Distinct, Distinct-assign, count-assign,
  OwesParts, Owes, Owes-eq, Debt, debt, IsCounted, drop_debt-IsCounted,
}
use cpp_backend_server.WebSocketWorker.Dropping.{
  push-Keeps, close_session-Keeps, reply-Keeps, revoke_each-Keeps, handle_timer-Keeps,
}
use cpp_backend_server.WebSocketWorker.DroppingEvents.{handle_event-Keeps}
use cpp_backend_server.WebSocketWorker.Accepting.Proved.{accept_session-debt}
use cpp_backend_server.WebSocketWorker.System.{
  Step, serves, ticks, takes_over, pushes, replies, closes, revokes, Reach, starts, steps,
}

abbrev later : Bool → ℕ → ℕ
later true r = r
later false r = 0

-- `promise` still gets `r` callbacks.
record IsAhead (promise r : ℕ) (d : Debt) : Type 0 where
  distinct : Distinct d.completions
  owed : (q : ℕ) → Owes q (count q d.completions + later (promise == q) r) d.promises

one_more :
    (b : Bool) (n m r k : ℕ)
    → n + k ≡ m + (k + (one_if b + 0))
    → m + later b (suc r) ≡ n + later b r
one_more true n m r k e = omega (arith, e)
one_more false n m r k e = omega (arith, e)

await_close-IsAhead :
    (promise r fd : ℕ) (w : Worker)
    → IsAhead promise (suc r) (debt w)
    → IsAhead promise r (debt (await_close promise fd w))
unfolding await_close
await_close-IsAhead promise r fd w h =
    let m = w.close_completions in
    let old = callbacks (find fd m) in
    record {
      distinct = Distinct-assign fd (old ++ promise ∷ []) m h.distinct;
      owed = λ q.
          Owes-eq q _ _ w.promises
            (one_more (promise == q) _ (count q m) r (occurrences q old) (
              count-assign q fd (old ++ promise ∷ []) m
              ∙ ap (λ t. count q m + t) (occurrences-append q old (promise ∷ []))))
            (h.owed q);
    }

IsAhead-IsCounted : (promise : ℕ) (d : Debt) → IsAhead promise 0 d → IsCounted d
IsAhead-IsCounted promise d h = record {
  distinct = h.distinct;
  owed = λ q. Owes-eq q _ _ d.promises (nothing (promise == q) _) (h.owed q);
}
  where
    nothing : (b : Bool) (n : ℕ) → n + later b 0 ≡ n
    nothing true n = omega arith
    nothing false n = omega arith

await_all-IsCounted :
    (fds : List ℕ) (promise : ℕ) (w : Worker)
    → IsAhead promise (length fds) (debt w)
    → IsCounted (debt (await_all fds promise w))
unfolding await_all
await_all-IsCounted [] promise w h = IsAhead-IsCounted promise (debt w) h
await_all-IsCounted (fd ∷ rest) promise w h =
    await_all-IsCounted rest promise (await_close promise fd w)
      (await_close-IsAhead promise (length rest) fd w h)

new_counter :
    (promise r : ℕ) (d : Debt)
    → find promise d.promises.remaining ≡ none
    → member promise d.promises.fulfilled ≡ false
    → suc r < 2 ^ 64
    → IsCounted d
    → Owes promise
        (count promise d.completions + suc r)
        (record d.promises { remaining = assign promise (suc r) d.promises.remaining })
new_counter promise r d fresh unset few h =
    let k = count promise d.completions in
    let done = member promise d.promises.fulfilled in
    let none_yet : k ≡ 0 = subst (λ o. OwesParts o k done) fresh (h.owed promise) in
    subst (λ o. OwesParts o (k + suc r) done)
      (sym (find-assign_same promise (suc r) d.promises.remaining))
      (omega (arith, none_yet), few, unset ∙ not_zero r)
  where
    not_zero : (r : ℕ) → false ≡ (suc r == 0)
    not_zero r = ground arith

new_counter-IsAhead :
    (promise r : ℕ) (d : Debt)
    → find promise d.promises.remaining ≡ none
    → member promise d.promises.fulfilled ≡ false
    → suc r < 2 ^ 64
    → IsCounted d
    → IsAhead promise (suc r) (record {
      completions = d.completions;
      promises = record d.promises { remaining = assign promise (suc r) d.promises.remaining };
    })
new_counter-IsAhead promise r d fresh unset few h = record {
  distinct = h.distinct;
  owed = λ q. elim (Bool-cases (promise == q)) [
    | inl same ↦
        subst (λ b. Owes q (count q d.completions + later b (suc r)) (counters r)) (sym same)
          (subst (λ i. Owes i (count i d.completions + suc r) (counters r)) (==→eq promise q same)
            (new_counter promise r d fresh unset few h))
    | inr other ↦
        subst (λ b. Owes q (count q d.completions + later b (suc r)) (counters r)) (sym other)
          (subst (λ o. OwesParts o (count q d.completions + 0) (member q d.promises.fulfilled))
            (sym (find-assign_other promise q (suc r) d.promises.remaining other))
            (Owes-eq q _ _ d.promises (omega arith) (h.owed q)))
  ];
}
  where
    counters : ℕ → Promises
    counters r = record d.promises { remaining = assign promise (suc r) d.promises.remaining }

fulfilled_at_once :
    (promise : ℕ) (d : Debt)
    → find promise d.promises.remaining ≡ none
    → IsCounted d
    → IsCounted (record {
      completions = d.completions;
      promises = record d.promises { fulfilled = promise ∷ d.promises.fulfilled };
    })
unfolding member
fulfilled_at_once promise d fresh h = record {
  distinct = h.distinct;
  owed = λ q. elim (Bool-cases (promise == q)) [
    | inl same ↦
        let none_here =
          subst (λ i. find i d.promises.remaining ≡ none) (==→eq promise q same) fresh in
        subst (λ o. OwesParts o (count q d.completions) (member q (promise ∷ d.promises.fulfilled)))
          (sym none_here)
          (subst (λ o. OwesParts o (count q d.completions) (member q d.promises.fulfilled))
            none_here (h.owed q))
    | inr other ↦
        subst (λ b. OwesParts (find q d.promises.remaining) (count q d.completions) b)
          (sym (ap (λ b. if b then true else member q d.promises.fulfilled) other)) (h.owed q)
  ];
}

revoke_targets-IsCounted :
    (fds : List ℕ) (promise : ℕ) (answers : ℕ → Answers) (w : Worker)
    → find promise w.promises.remaining ≡ none
    → member promise w.promises.fulfilled ≡ false
    → length fds < 2 ^ 64
    → IsCounted (debt w)
    → IsCounted (debt (revoke_targets fds promise answers w))
unfolding revoke_targets
revoke_targets-IsCounted [] promise answers w fresh unset few h =
    fulfilled_at_once promise (debt w) fresh h
revoke_targets-IsCounted (fd ∷ rest) promise answers w fresh unset few h =
    revoke_each-Keeps IsCounted drop_debt-IsCounted (fd ∷ rest) answers _ (
      await_all-IsCounted (fd ∷ rest) promise _
        (new_counter-IsAhead promise (length rest) (debt w) fresh unset few h))

step-IsCounted : (w w' : Worker) → Step w w' → IsCounted (debt w) → IsCounted (debt w')
unfolding revoke_device
step-IsCounted _ _ (serves fd flags accepts a w ended) h =
    handle_event-Keeps IsCounted drop_debt-IsCounted fd flags accepts a w h
step-IsCounted _ _ (ticks now accepted w) h =
    handle_timer-Keeps IsCounted drop_debt-IsCounted now accepted w h
step-IsCounted _ _ (takes_over fd id c k a w) h =
    subst IsCounted (sym (accept_session-debt fd id c k a w)) h
step-IsCounted _ _ (pushes fd id device message accepted w) h =
    push-Keeps IsCounted drop_debt-IsCounted fd id device message accepted w h
step-IsCounted _ _ (replies r fd id accepted w) h =
    reply-Keeps IsCounted drop_debt-IsCounted r fd id accepted w h
step-IsCounted _ _ (closes fd id device w) h =
    close_session-Keeps IsCounted drop_debt-IsCounted fd id device w h
step-IsCounted _ _ (revokes user device promise answers w fresh unset few) h =
    revoke_targets-IsCounted (targets user device w.sessions) promise answers w fresh unset few h

pub debt-IsCounted : (w : Worker) → Reach w → IsCounted (debt w)
unfolding find
debt-IsCounted _ starts = record { distinct = tt; owed = λ p. refl }
debt-IsCounted _ (steps w w' r s) = step-IsCounted w w' s (debt-IsCounted w r)

-- In every state that a worker reaches, the counter of a revocation's promise is the number of its
-- callbacks that are registered with descriptors, and the promise holds its value exactly when that
-- number is zero.
pub Reach-Owes :
    (w : Worker) (promise n : ℕ)
    → Reach w
    → find promise w.promises.remaining ≡ some n
    → (n ≡ count promise w.close_completions)
      × (member promise w.promises.fulfilled ≡ (count promise w.close_completions == 0))
Reach-Owes w promise n r e =
    let k = count promise w.close_completions in
    let done = member promise w.promises.fulfilled in
    let (same, _, holds) = subst (λ o. OwesParts o k done) e ((debt-IsCounted w r).owed promise) in
    (same, holds ∙ ap (λ i. i == 0) same)
