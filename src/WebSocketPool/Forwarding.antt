-- ===== src/WebSocketPool/Forwarding.antt =====
-- Connections go to the workers in turn.
use cpp_backend_server.Base.{
  ℕ, zero, suc, ◌+◌, ◌%◌, ◌^◌, ◌<◌, ◌≡◌, refl, ap, ◌∙◌, true, false, some, ◌==◌, arith,
}
use cpp_backend_server.WebSocketPool.{WebSocketPool, forward_connections}

-- The pool after a number of connections.
pub forwarded : ℕ → WebSocketPool → WebSocketPool
forwarded zero p = p
forwarded (suc n) p = (forward_connections (forwarded n p)).1

record IsServing (p : WebSocketPool) : Type 0 where
  initialized : p.initialized ≡ true
  running : p.stopping ≡ false
  workers : 0 < p.worker_count

forward-serving :
    (p : WebSocketPool)
    → IsServing p
    → forward_connections p ≡ (
      some (p.next_worker % p.worker_count),
      record p { next_worker = (p.next_worker + 1) % 2 ^ 64 },
    )
unfolding forward_connections
forward-serving p h =
    let e : (p.worker_count == 0) ≡ false = ground (arith, h.workers) in
    rw (h.initialized, h.running, e) refl

forwarded-next :
    (p : WebSocketPool) (n : ℕ)
    → IsServing p
    → p.next_worker + n < 2 ^ 64
    → forwarded n p ≡ record p { next_worker = p.next_worker + n }
unfolding forwarded
forwarded-next p zero h bound = ap (λ k. record p { next_worker = k }) (omega arith)
forwarded-next p (suc n) h bound =
    let before = forwarded-next p n h (omega (arith, bound)) in
    ap (λ q. (forward_connections q).1) before
    ∙ ap (λ r. r.1)
        (forward-serving (record p { next_worker = p.next_worker + n })
          (record { initialized = h.initialized; running = h.running; workers = h.workers }))
    ∙ ap (λ k. record p { next_worker = k }) (omega (arith, bound))

-- The connections that reach an open pool go to its workers in turn: the n-th after now, counted
-- from 0, goes to the worker that is n places after the next one, as long as the counter does not
-- pass 2^64.
pub forward_connections-turn :
    (p : WebSocketPool) (n : ℕ)
    → p.initialized ≡ true
    → p.stopping ≡ false
    → 0 < p.worker_count
    → p.next_worker + n < 2 ^ 64
    → (forward_connections (forwarded n p)).0 ≡ some ((p.next_worker + n) % p.worker_count)
forward_connections-turn p n i s w bound =
    let h : IsServing p = record { initialized = i; running = s; workers = w } in
    ap (λ q. (forward_connections q).0) (forwarded-next p n h bound)
    ∙ ap (λ r. r.0)
        (forward-serving (record p { next_worker = p.next_worker + n })
          (record { initialized = h.initialized; running = h.running; workers = h.workers }))
