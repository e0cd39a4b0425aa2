-- ===== src/DatabasePool/Maintenance/Count.antt =====
-- A round of the maintenance thread of `DatabasePool` keeps the count right.
use cpp_backend_server.Base.{
  ℕ, zero, suc, ◌+◌, ◌-◌, ◌≤◌, ◌≡◌, refl, subst, ap, Bool, true, false, not, List, [], ◌∷◌, ◌++◌,
  ltb, if◌then◌else◌, length, length-append, arith, Bool-cases, not-false, inl, inr, ◌⊎◌,
}
use cpp_backend_server.DatabasePool.{Connection, Pool, Opened, threw, opened}
use cpp_backend_server.DatabasePool.Counted.{IsCounted}
use cpp_backend_server.DatabasePool.Maintenance.{
  Reap, reap, reap_pass, reap_front, Round, continues, stops, terminates, ◌>>=◌, replace_dead, heal,
  heal_pass, heal_front, top_up, shrink, maintain,
}

-- The loop closes and counts together, and only what is surplus.
record IsReaped (k low high : ℕ) (r : Reap) : Type 0 where
  counted : r.total ≡ length r.queue + k
  spare : low + r.surplus ≤ r.total
  capped : r.total ≤ high

reap_pass-IsReaped :
    (k low high now idle_time : ℕ) (r : Reap) (queue : List Connection)
    → r.queue ≡ queue
    → IsReaped k low high r
    → IsReaped k low high (reap_pass now idle_time r queue)
unfolding reap_pass
reap_pass-IsReaped k low high now idle_time r [] e h = h
reap_pass-IsReaped k low high now idle_time r (c ∷ rest) e h =
    let n : length r.queue ≡ suc (length rest) = ap length e in
    unfold reap_front in
    ground (arith, n, length-append rest (c ∷ []), h.counted, h.spare, h.capped)

reap-IsReaped :
    (fuel i k low high now idle_time : ℕ) (r : Reap)
    → IsReaped k low high r
    → IsReaped k low high (reap fuel i now idle_time r)
unfolding reap
reap-IsReaped zero i k low high now idle_time r h = h
reap-IsReaped (suc fuel) i k low high now idle_time r h =
    elim (Bool-cases (ltb i (length r.queue))) [
      | inl e ↦ rw e (
          reap-IsReaped fuel (i + 1) k low high now idle_time _
            (reap_pass-IsReaped k low high now idle_time r r.queue refl h))
      | inr e ↦ rw e h
    ]

-- A pool whose threads run.
pub record IsLive (k : ℕ) (p : Pool) : Type 0 where
  pub counted : p.total_connections ≡ length p.idle_queue + k
  pub capped : p.total_connections ≤ p.max_connections
  pub ordered : p.min_connections ≤ p.max_connections
  pub running : p.is_running ≡ true
  pub initialized : p.initialized ≡ true

live : (k : ℕ) (p : Pool) → p.is_running ≡ true → IsCounted k p → IsLive k p
live k p running h = record {
  counted = h.counted;
  capped = h.capped;
  ordered = h.ordered;
  running = running;
  initialized = elim (Bool-cases p.initialized) [
    | inl e ↦ e
    | inr e ↦ absurd (cc (running, (h.unused e).0))
  ];
}

IsLive-IsCounted : (k : ℕ) (p : Pool) → IsLive k p → IsCounted k p
IsLive-IsCounted k p h = record {
  counted = h.counted;
  capped = h.capped;
  ordered = h.ordered;
  closed_empty = λ e. absurd (cc (h.running, e));
  unused = λ e. absurd (cc (h.initialized, e));
}

abbrev pub IsKept : ℕ → Round → Type 0
IsKept k (continues p) = IsLive k p
IsKept k (stops p) = IsCounted k p
IsKept k terminates = Unit

shrink-IsLive : (k now : ℕ) (p : Pool) → IsLive k p → IsLive k (shrink now p)
unfolding shrink
shrink-IsLive k now p h = elim (Bool-cases (ltb 0 (p.total_connections - p.min_connections))) [
  | inl e ↦
      let r =
        reap-IsReaped (length p.idle_queue) 0 k p.min_connections p.max_connections now p.idle_time
          (record {
            queue = p.idle_queue;
            surplus = p.total_connections - p.min_connections;
            total = p.total_connections;
          })
          (record { counted = h.counted; spare = ground (arith, e); capped = h.capped }) in
      rw e (record {
        counted = r.counted;
        capped = r.capped;
        ordered = h.ordered;
        running = h.running;
        initialized = h.initialized;
      })
  | inr e ↦ rw e h
]

bind-IsKept :
    (k : ℕ) (m : Round) (f : Pool → Round)
    → IsKept k m
    → ((p : Pool) → IsLive k p → IsKept k (f p))
    → IsKept k (m >>= f)
bind-IsKept k (continues p) f h g = g p h
bind-IsKept k (stops p) f h g = h
bind-IsKept k terminates f h g = tt

replace_dead-IsKept :
    (k : ℕ) (p : Pool) (o : Opened)
    → p.total_connections ≡ suc (length p.idle_queue) + k
    → p.total_connections ≤ p.max_connections
    → p.min_connections ≤ p.max_connections
    → p.is_running ≡ true
    → p.initialized ≡ true
    → IsKept k (replace_dead p o)
unfolding replace_dead
replace_dead-IsKept k p threw e c o r i = tt
replace_dead-IsKept k p (opened x true) e c o r i = record {
  counted = omega (arith, length-append p.idle_queue (x ∷ []), e);
  capped = c;
  ordered = o;
  running = r;
  initialized = i;
}
replace_dead-IsKept k p (opened x false) e c o r i = record {
  counted = omega (arith, e);
  capped = omega (arith, c);
  ordered = o;
  running = r;
  initialized = i;
}

heal_pass-IsKept :
    (alive : Connection → Bool) (reopen : Connection → Opened) (k : ℕ) (p : Pool)
    (queue : List Connection)
    → p.idle_queue ≡ queue
    → IsLive k p
    → IsKept k (heal_pass alive reopen queue p)
unfolding heal_pass heal_front
heal_pass-IsKept alive reopen k p [] q h = h
heal_pass-IsKept alive reopen k p (c ∷ rest) q h =
    let n : length p.idle_queue ≡ suc (length rest) = ap length q in
    elim (Bool-cases (alive c)) [
      | inl e ↦ rw e (record {
        counted = omega (arith, length-append rest (c ∷ []), h.counted, n);
        capped = h.capped;
        ordered = h.ordered;
        running = h.running;
        initialized = h.initialized;
      })
      | inr e ↦ rw e (
          replace_dead-IsKept k (record p { idle_queue = rest }) (reopen c)
            (omega (arith, h.counted, n)) h.capped h.ordered h.running h.initialized)
    ]

heal-IsKept :
    (alive : Connection → Bool) (reopen : Connection → Opened) (k n : ℕ) (p : Pool)
    → IsLive k p
    → IsKept k (heal alive reopen n p)
unfolding heal
heal-IsKept alive reopen k zero p h = h
heal-IsKept alive reopen k (suc n) p h =
    bind-IsKept k _ (heal alive reopen n) (heal_pass-IsKept alive reopen k p p.idle_queue refl h)
      (heal-IsKept alive reopen k n)

IsKept-if :
    (k : ℕ) (b : Bool) (x y : Round)
    → (b ≡ true → IsKept k x)
    → (b ≡ false → IsKept k y)
    → IsKept k (if b then x else y)
IsKept-if k true x y f g = f refl
IsKept-if k false x y f g = g refl

top_up-IsKept : (k : ℕ) (o : Opened) (p : Pool) → IsLive k p → IsKept k (top_up o p)
unfolding top_up
top_up-IsKept k threw p h =
    IsKept-if k (ltb p.total_connections p.min_connections) terminates (continues p) (λ e. tt)
      (λ e. h)
top_up-IsKept k (opened c true) p h =
    IsKept-if k (ltb p.total_connections p.min_connections)
      (continues (record p {
        idle_queue = p.idle_queue ++ c ∷ [];
        total_connections = p.total_connections + 1;
      }))
      (continues p)
      (λ e. record {
        counted = omega (arith, length-append p.idle_queue (c ∷ []), h.counted);
        capped = ground (arith, e, h.ordered);
        ordered = h.ordered;
        running = h.running;
        initialized = h.initialized;
      })
      (λ e. h)
top_up-IsKept k (opened c false) p h =
    IsKept-if k (ltb p.total_connections p.min_connections) (stops p) (continues p)
      (λ e. IsLive-IsCounted k p h) (λ e. h)

pub maintain-IsKept :
    (now : ℕ) (alive : Connection → Bool) (reopen : Connection → Opened) (extra : Opened) (k : ℕ)
    (p : Pool)
    → IsCounted k p
    → IsKept k (maintain now alive reopen extra p)
unfolding maintain
maintain-IsKept now alive reopen extra k p h =
    IsKept-if k (not p.is_running) _ _ (λ e. h)
      (λ e.
        bind-IsKept k _ (top_up extra)
          (heal-IsKept alive reopen k _ (shrink now p)
            (shrink-IsLive k now p (live k p (not-false p.is_running e) h)))
          (top_up-IsKept k extra))

pub maintain-IsCounted :
    (now : ℕ) (alive : Connection → Bool) (reopen : Connection → Opened) (extra : Opened) (k : ℕ)
    (p q : Pool)
    → IsCounted k p
    → (maintain now alive reopen extra p ≡ continues q)
      ⊎ (maintain now alive reopen extra p ≡ stops q)
    → IsCounted k q
maintain-IsCounted now alive reopen extra k p q h (inl e) =
    IsLive-IsCounted k q (subst (IsKept k) e (maintain-IsKept now alive reopen extra k p h))
maintain-IsCounted now alive reopen extra k p q h (inr e) =
    subst (IsKept k) e (maintain-IsKept now alive reopen extra k p h)
