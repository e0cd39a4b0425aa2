-- ===== src/DatabasePool/Sections.antt =====
-- Each critical section of `DatabasePool` keeps its count right.
use cpp_backend_server.Base.{
  ℕ, suc, ◌+◌, ◌-◌, ◌≤◌, ◌<◌, ◌≡◌, refl, ap, Bool, true, false, not, List, [], ◌∷◌, ◌++◌, ltb, leb,
  ◌==◌, length, length-append, arith, if_cases, not-false, ◌⊎◌, inl, inr, ◌||◌,
}
use cpp_backend_server.DatabasePool.{
  ℤ, pos, negsuc, Connection, DatabasePoolConfig, Pool, init, init_with, valid_config, InitResult,
  Acquired, pool_closed, timed_out, lent, may_open, get_connection, ready, take_idle, Opened, threw,
  opened, finish_connection, release_returned_connections, close, drain, already_initialized,
  started, connect_failed, thread_failed,
}
use cpp_backend_server.DatabasePool.Counted.{IsCounted}

-- The connections outside the queue, once the pool has answered.
abbrev pub given : Acquired → ℕ → ℕ
given (lent c) k = suc k
given may_open k = suc k
given _ k = k

-- What the first answer of a configuration settles.
abbrev IsFit : InitResult ⊎ (ℕ × ℕ) → Type 0
IsFit (inl r) = Unit
IsFit (inr (lo, hi)) = lo ≤ hi

valid_config-IsFit : (lo hi : ℤ) → IsFit (valid_config lo hi)
unfolding valid_config
valid_config-IsFit (negsuc n) hi = tt
valid_config-IsFit (pos lo) (negsuc n) = tt
valid_config-IsFit (pos lo) (pos hi) =
    if_cases IsFit (leb hi 0 || ltb hi lo) _ _ (λ e. tt) (λ e. ground (arith, e))

init_with-IsCounted :
    (p : Pool) (config : DatabasePoolConfig) (pending : List Connection) (thread_starts : Bool)
    (v : InitResult ⊎ (ℕ × ℕ))
    → IsFit v
    → p.initialized ≡ false
    → (k : ℕ) → IsCounted k p
    → IsCounted k (init_with p config pending thread_starts v).1
unfolding init_with
init_with-IsCounted p config pending thread_starts (inl r) fit e k h = h
init_with-IsCounted p config pending thread_starts (inr (lo, hi)) fit e k h =
    let absent : k ≡ 0 = (h.unused e).1 in
    let stopped : p.is_running ≡ false = (h.unused e).0 in
    let none_idle = h.closed_empty stopped in
    let Fine = λ (r : InitResult × Pool). IsCounted k r.1 in
    let configured = record p {
      min_connections = lo;
      max_connections = hi;
      idle_time = config.idle_time;
    } in
    let failed = record configured {
      idle_queue = p.idle_queue;
      total_connections = 0;
      is_running = false;
    } in
    let running = record configured {
      idle_queue = pending;
      total_connections = lo;
      is_running = true;
      initialized = true;
    } in
    if_cases Fine (not (length pending == lo)) (connect_failed, configured) _
      (λ f. record {
        counted = h.counted;
        capped = omega (arith, h.counted, none_idle, absent);
        ordered = fit;
        closed_empty = h.closed_empty;
        unused = h.unused;
      })
      (λ f.
        if_cases Fine thread_starts (started, running) (thread_failed, failed)
          (λ g. record {
            counted = ground (arith, f, absent);
            capped = fit;
            ordered = fit;
            closed_empty = λ z. absurd (cc z);
            unused = λ z. absurd (cc z);
          })
          (λ g. record {
            counted = omega (arith, none_idle, absent);
            capped = omega arith;
            ordered = fit;
            closed_empty = λ z. none_idle;
            unused = λ z. (refl, absent);
          }))

take_idle-IsCounted :
    (k : ℕ) (p : Pool) (queue : List Connection)
    → p.idle_queue ≡ queue
    → p.is_running ≡ true
    → (length queue ≡ 0 → p.total_connections < p.max_connections)
    → IsCounted k p
    → IsCounted (given (take_idle p queue).0 k) (take_idle p queue).1
unfolding take_idle
take_idle-IsCounted k p [] q r e h =
    let none_idle : length p.idle_queue ≡ 0 = ap length q in
    record {
      counted = omega (arith, h.counted);
      capped = omega (arith, e refl);
      ordered = h.ordered;
      closed_empty = λ z. none_idle;
      unused = λ z. absurd (cc ((h.unused z).0, r));
    }
take_idle-IsCounted k p (c ∷ rest) q r e h =
    let n : length p.idle_queue ≡ suc (length rest) = ap length q in
    record {
      counted = omega (arith, h.counted, n);
      capped = h.capped;
      ordered = h.ordered;
      closed_empty = λ z. absurd (cc (z, r));
      unused = λ z. absurd (cc ((h.unused z).0, r));
    }

ready-room :
    (p : Pool)
    → p.is_running ≡ true
    → ready p ≡ true
    → length p.idle_queue ≡ 0
    → p.total_connections < p.max_connections
unfolding ready
ready-room p r e n = ground (arith, e)

pub get_connection-IsCounted :
    (k : ℕ) (p : Pool)
    → IsCounted k p
    → IsCounted (given (get_connection p).0 k) (get_connection p).1
unfolding get_connection
get_connection-IsCounted k p h =
    let Fine = λ (r : Acquired × Pool). IsCounted (given r.0 k) r.1 in
    if_cases Fine (not p.is_running) (pool_closed, p) _ (λ e. h)
      (λ e.
        if_cases Fine (not (ready p)) (timed_out, p) (take_idle p p.idle_queue) (λ f. h)
          (λ f.
            let r = not-false p.is_running e in
            take_idle-IsCounted k p p.idle_queue refl r (ready-room p r (not-false (ready p) f)) h))

-- A connection outside the queue is given up.
forget-IsCounted :
    (k : ℕ) (p : Pool)
    → IsCounted (suc k) p
    → IsCounted k (record p { total_connections = p.total_connections - 1 })
forget-IsCounted k p h = record {
  counted = omega (arith, h.counted);
  capped = omega (arith, h.capped);
  ordered = h.ordered;
  closed_empty = h.closed_empty;
  unused = λ z. absurd (omega (arith, (h.unused z).1));
}

pub finish_connection-IsCounted :
    (k : ℕ) (p : Pool) (o : Opened)
    → IsCounted (suc k) p
    → IsCounted (given (finish_connection p o).0 k) (finish_connection p o).1
unfolding finish_connection
finish_connection-IsCounted k p threw h = forget-IsCounted k p h
finish_connection-IsCounted k p (opened c alive) h =
    if_cases (λ (r : Acquired × Pool). IsCounted (given r.0 k) r.1) p.is_running (lent c, p)
      (pool_closed, record p { total_connections = p.total_connections - 1 }) (λ e. h)
      (λ e. forget-IsCounted k p h)

pub release-IsCounted :
    (k : ℕ) (p : Pool) (c : Connection) (reset_ok queue_ok : Bool)
    → IsCounted (suc k) p
    → IsCounted k (release_returned_connections p c reset_ok queue_ok)
unfolding release_returned_connections
release-IsCounted k p c reset_ok queue_ok h =
    let lost = forget-IsCounted k p h in
    if_cases (IsCounted k) (not p.is_running) _ _ (λ e. lost)
      (λ e.
        if_cases (IsCounted k) (not reset_ok) _ _ (λ f. lost)
          (λ f.
            if_cases (IsCounted k) queue_ok (record p { idle_queue = p.idle_queue ++ c ∷ [] }) _
              (λ g.
                let r = not-false p.is_running e in
                record {
                  counted = omega (arith, h.counted, length-append p.idle_queue (c ∷ []));
                  capped = h.capped;
                  ordered = h.ordered;
                  closed_empty = λ z. absurd (cc (z, r));
                  unused = λ z. absurd (cc ((h.unused z).0, r));
                })
              (λ g. lost)))

drain-IsCounted :
    (k : ℕ) (queue : List Connection) (p : Pool)
    → p.idle_queue ≡ queue
    → p.total_connections ≡ length queue + k
    → p.total_connections ≤ p.max_connections
    → p.min_connections ≤ p.max_connections
    → p.is_running ≡ false
    → (p.initialized ≡ false → k ≡ 0)
    → IsCounted k (drain queue p)
unfolding drain
drain-IsCounted k [] p q t cap o r u =
    let n : length p.idle_queue ≡ 0 = ap length q in
    record {
      counted = omega (arith, n, t);
      capped = cap;
      ordered = o;
      closed_empty = λ z. n;
      unused = λ z. (r, u z);
    }
drain-IsCounted k (c ∷ rest) p q t cap o r u =
    drain-IsCounted k rest _ refl (omega (arith, t)) (omega (arith, cap)) o r u

pub close-IsCounted : (k : ℕ) (p : Pool) → IsCounted k p → IsCounted k (close p)
unfolding close
close-IsCounted k p h =
    drain-IsCounted k p.idle_queue _ refl h.counted h.capped h.ordered refl (λ e. (h.unused e).1)

pub init-IsCounted :
    (p : Pool) (config : DatabasePoolConfig) (pending : List Connection) (thread_starts : Bool)
    (k : ℕ)
    → IsCounted k p
    → IsCounted k (init p config pending thread_starts).1
unfolding init
init-IsCounted p config pending thread_starts k h =
    if_cases (λ (r : InitResult × Pool). IsCounted k r.1) p.initialized (already_initialized, p) _
      (λ e. h)
      (λ e.
        init_with-IsCounted p config pending thread_starts _
          (valid_config-IsFit config.min_connections config.max_connections) e k h)
