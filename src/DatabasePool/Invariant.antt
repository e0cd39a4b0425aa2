-- ===== src/DatabasePool/Invariant.antt =====
-- The count of `DatabasePool` is right in every reachable state.
use cpp_backend_server.Base.{
  ℕ, ◌+◌, ◌≡◌, refl, subst, ap, true, false, ◌∷◌, ◌++◌, length, length-append, arith, ◌↔◌,
}
use cpp_backend_server.DatabasePool.{
  Acquired, pool_closed, timed_out, lent, may_open, get_connection, finish_connection, all_returned,
}
use cpp_backend_server.DatabasePool.Maintenance.Count.{maintain-IsCounted}
use cpp_backend_server.DatabasePool.Counted.{IsCounted}
use cpp_backend_server.DatabasePool.System.{
  System, hand_out, Step, inits, acquires, finishes, releases, closes, maintains, Reach, here, next,
}
use cpp_backend_server.DatabasePool.Sections.{
  given, get_connection-IsCounted, finish_connection-IsCounted, release-IsCounted, close-IsCounted,
  init-IsCounted,
}

abbrev pub outside : System → ℕ
outside s = length s.borrowed + s.opening

hand_out-IsCounted :
    (a : Acquired) (s : System)
    → IsCounted (given a (outside s)) s.pool
    → IsCounted (outside (hand_out a s)) (hand_out a s).pool
hand_out-IsCounted (lent c) s h = subst (λ k. IsCounted k s.pool) (omega arith) h
hand_out-IsCounted may_open s h = subst (λ k. IsCounted k s.pool) (omega arith) h
hand_out-IsCounted pool_closed s h = h
hand_out-IsCounted timed_out s h = h

Step-IsCounted :
    (s t : System) → Step s t → IsCounted (outside s) s.pool → IsCounted (outside t) t.pool
Step-IsCounted s t (inits config pending thread_starts) h =
    init-IsCounted s.pool config pending thread_starts (outside s) h
Step-IsCounted s t acquires h =
    hand_out-IsCounted (get_connection s.pool).0 _ (get_connection-IsCounted (outside s) s.pool h)
Step-IsCounted s t (finishes n o e) h = hand_out-IsCounted (finish_connection s.pool o).0 _ (
    finish_connection-IsCounted (length s.borrowed + n) s.pool o
      (subst (λ k. IsCounted k s.pool) (omega (arith, e)) h))
Step-IsCounted s t (releases before after c reset_ok queue_ok e) h =
    let n : length s.borrowed ≡ length (before ++ c ∷ after) = ap length e in
    release-IsCounted (length (before ++ after) + s.opening) s.pool c reset_ok queue_ok (
      subst (λ k. IsCounted k s.pool)
        (omega (arith, n, length-append before (c ∷ after), length-append before after)) h)
Step-IsCounted s t closes h = close-IsCounted (outside s) s.pool h
Step-IsCounted s t (maintains now alive reopen extra p e) h =
    maintain-IsCounted now alive reopen extra (outside s) s.pool p h e

-- In every state that the steps of clients, `init`, `close` and the maintenance thread reach,
-- `total_connections_` is the number of connections in the queue, lent out or being opened, it is
-- at most `max_connections_`, `min_connections_` is at most `max_connections_`, and a pool that
-- does not run has no connection in its queue.
pub Reach-IsCounted : (s : System) → Reach s → IsCounted (outside s) s.pool
Reach-IsCounted s here = record {
  counted = omega arith;
  capped = omega arith;
  ordered = omega arith;
  closed_empty = λ e. refl;
  unused = λ e. (refl, refl);
}
Reach-IsCounted s (next {s = r} h step) = Step-IsCounted r s step (Reach-IsCounted r h)

-- In every reachable state whose pool has been closed, or never started, the wait of `close` is over
-- exactly where no connection is lent out and no thread is opening one.
pub all_returned-Reach :
    (s : System)
    → Reach s
    → s.pool.is_running ≡ false
    → (all_returned s.pool ≡ true) ↔ ((length s.borrowed ≡ 0) × (s.opening ≡ 0))
unfolding all_returned
all_returned-Reach s reach e =
    let h = Reach-IsCounted s reach in
    let n = h.closed_empty e in
    (
      λ r. (ground (arith, r, h.counted, n), ground (arith, r, h.counted, n)),
      λ r. ground (arith, r.0, r.1, h.counted, n),
    )
