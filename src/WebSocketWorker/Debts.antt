-- ===== src/WebSocketWorker/Debts.antt =====
-- The counters of the promises of revocations against the callbacks that are registered.
use cpp_backend_server.Base.{
  ℕ, ◌+◌, ◌-◌, ◌%◌, ◌^◌, ◌<◌, ◌≡◌, refl, sym, ap, ◌∙◌, subst, Bool, true, false, Option, none, some,
  List, [], ◌∷◌, ◌++◌, ◌==◌, ==→eq, ==_refl, if◌then◌else◌, if_cases, Bool-cases, inl, inr, find,
  assign, erase, find-assign_same, find-assign_other, find-erase, member, arith,
}
use cpp_backend_server.WebSocketWorker.{
  Promises, Worker, count_down, complete, complete_all, callbacks,
}

abbrev pub Callbacks : Type 0
Callbacks = List (ℕ × List ℕ)

abbrev pub one_if : Bool → ℕ
one_if true = 1
one_if false = 0

-- How often a promise stands in a list, and how many of its callbacks are registered.
abbrev pub occurrences : ℕ → List ℕ → ℕ
occurrences p [] = 0
occurrences p (q ∷ qs) = one_if (q == p) + occurrences p qs

abbrev pub count : ℕ → Callbacks → ℕ
count p [] = 0
count p ((fd, ps) ∷ rest) = occurrences p ps + count p rest

-- No descriptor stands twice.
abbrev pub Distinct : Callbacks → Type 0
Distinct [] = Unit
Distinct ((fd, ps) ∷ rest) = (find fd rest ≡ none) × Distinct rest

pub occurrences-append :
    (p : ℕ) (xs ys : List ℕ) → occurrences p (xs ++ ys) ≡ occurrences p xs + occurrences p ys
occurrences-append p [] ys = omega arith
occurrences-append p (x ∷ xs) ys = omega (arith, occurrences-append p xs ys)

erase-absent : (fd : ℕ) (m : Callbacks) → find fd m ≡ none → erase fd m ≡ m
unfolding find erase
erase-absent fd [] e = refl
erase-absent fd ((k, ps) ∷ m) e = elim (Bool-cases (k == fd)) [
  | inl same ↦ absurd (cc (ap (λ b. if b then some ps else find fd m) (sym same) ∙ e))
  | inr other ↦
      ap (λ b. if b then erase fd m else (k, ps) ∷ erase fd m) other
      ∙ ap (λ r. (k, ps) ∷ r)
          (erase-absent fd m (ap (λ b. if b then some ps else find fd m) (sym other) ∙ e))
]

pub Distinct-erase : (fd : ℕ) (m : Callbacks) → Distinct m → Distinct (erase fd m)
unfolding erase
Distinct-erase fd [] d = tt
Distinct-erase fd ((k, ps) ∷ m) d =
    if_cases Distinct (k == fd) (erase fd m) ((k, ps) ∷ erase fd m) (λ _. Distinct-erase fd m d.1)
      (λ other. (find-erase fd k m ∙ nowhere (fd == k) (find k m) d.0, Distinct-erase fd m d.1))
  where
    nowhere : (b : Bool) (o : Option (List ℕ)) → o ≡ none → (if b then none else o) ≡ none
    nowhere true o e = refl
    nowhere false o e = e

pub Distinct-assign :
    (fd : ℕ) (ps : List ℕ) (m : Callbacks) → Distinct m → Distinct (assign fd ps m)
unfolding assign find
Distinct-assign fd ps [] d = (refl, tt)
Distinct-assign fd ps ((k, qs) ∷ m) d =
    if_cases Distinct (k == fd) ((k, ps) ∷ m) ((k, qs) ∷ assign fd ps m) (λ _. d)
      (λ other.
        (find-assign_other fd k ps m (swapped k fd other) ∙ d.0, Distinct-assign fd ps m d.1))
  where
    swapped : (a b : ℕ) → (a == b) ≡ false → (b == a) ≡ false
    swapped a b h = ground (arith, h)

-- What is erased with a descriptor is its own callbacks.
pub count-erase :
    (p fd : ℕ) (m : Callbacks)
    → Distinct m
    → count p (erase fd m) + occurrences p (callbacks (find fd m)) ≡ count p m
unfolding erase find callbacks
count-erase p fd [] d = refl
count-erase p fd ((k, ps) ∷ m) d = elim (Bool-cases (k == fd)) [
  | inl same ↦
      let gone : erase fd m ≡ m =
        erase-absent fd m (subst (λ i. find i m ≡ none) (==→eq k fd same) d.0) in
      rw same (omega (arith, ap (count p) gone))
  | inr other ↦ rw other (omega (arith, count-erase p fd m d.1))
]

pub count-assign :
    (p fd : ℕ) (ps : List ℕ) (m : Callbacks)
    → count p (assign fd ps m) + occurrences p (callbacks (find fd m))
      ≡ count p m + occurrences p ps
unfolding assign find callbacks
count-assign p fd ps [] = omega arith
count-assign p fd ps ((k, qs) ∷ m) = elim (Bool-cases (k == fd)) [
  | inl same ↦ rw same (omega arith)
  | inr other ↦ rw other (omega (arith, count-assign p fd ps m))
]

-- A promise with `k` callbacks to come: without a counter there are none; a counter is that number,
-- and the promise holds its value exactly when it is zero.
abbrev pub OwesParts : Option ℕ → ℕ → Bool → Type 0
OwesParts none k done = k ≡ 0
OwesParts (some n) k done = (n ≡ k) × (n < 2 ^ 64) × (done ≡ (n == 0))

abbrev pub Owes : ℕ → ℕ → Promises → Type 0
Owes p k ps = OwesParts (find p ps.remaining) k (member p ps.fulfilled)

pub Owes-eq : (p k k' : ℕ) (ps : Promises) → k ≡ k' → Owes p k ps → Owes p k' ps
Owes-eq p k k' ps e h = subst (λ t. Owes p t ps) e h

below_one_less : (n k : ℕ) → n ≡ 1 + k → n < 2 ^ 64 → (n + (2 ^ 64 - 1)) % 2 ^ 64 ≡ k
below_one_less n k e h = omega (arith, e, h)

other_promise :
    (p q : ℕ) (b : Bool) (ps : List ℕ)
    → (p == q) ≡ false
    → member q (if b then p ∷ ps else ps) ≡ member q ps
unfolding member
other_promise p q true ps h = ap (λ c. if c then true else member q ps) h
other_promise p q false ps h = refl

counted_down :
    (p k : ℕ) (ps : Promises) (o : Option ℕ)
    → find p ps.remaining ≡ o
    → OwesParts o (1 + k) (member p ps.fulfilled)
    → Owes p k (count_down p ps o)
unfolding count_down member
counted_down p k ps none e h = absurd (omega (arith, h))
counted_down p k ps (some n) e (same, small, done) =
    let left = (n + (2 ^ 64 - 1)) % 2 ^ 64 in
    let lower : left ≡ k = below_one_less n k same small in
    subst (λ o. OwesParts o k (member p (if left == 0 then p ∷ ps.fulfilled else ps.fulfilled)))
      (sym (find-assign_same p left ps.remaining))
      (lower, omega (arith, lower, same, small), holds (left == 0) n same done)
  where
    holds :
        (b : Bool) (n : ℕ)
        → n ≡ 1 + k
        → member p ps.fulfilled ≡ (n == 0)
        → member p (if b then p ∷ ps.fulfilled else ps.fulfilled) ≡ b
    holds true n e d = ap (λ c. if c then true else member p ps.fulfilled) (==_refl p)
    holds false n e d = ground (arith, d, e)

not_counted :
    (p q k : ℕ) (ps : Promises) (o : Option ℕ)
    → (p == q) ≡ false
    → Owes q k ps
    → Owes q k (count_down p ps o)
unfolding count_down
not_counted p q k ps none other h = h
not_counted p q k ps (some n) other h =
    let left = (n + (2 ^ 64 - 1)) % 2 ^ 64 in
    let fulfilled = if left == 0 then p ∷ ps.fulfilled else ps.fulfilled in
    subst (λ o. OwesParts o k (member q fulfilled))
      (sym (find-assign_other p q left ps.remaining other))
      (subst (λ b. OwesParts (find q ps.remaining) k b)
        (sym (other_promise p q (left == 0) ps.fulfilled other)) h)

-- One callback runs.
complete-Owes :
    (p q k : ℕ) (ps : Promises) → Owes q (one_if (p == q) + k) ps → Owes q k (complete p ps)
unfolding complete
complete-Owes p q k ps h = elim (Bool-cases (p == q)) [
  | inl same ↦
      subst (λ i. Owes i k (count_down p ps (find p ps.remaining))) (==→eq p q same)
        (counted_down p k ps (find p ps.remaining) refl (
          subst (λ i. Owes i (1 + k) ps) (sym (==→eq p q same))
            (subst (λ b. Owes q (one_if b + k) ps) same h)))
  | inr other ↦
      not_counted p q k ps (find p ps.remaining) other
        (Owes-eq q (0 + k) k ps (omega arith) (subst (λ b. Owes q (one_if b + k) ps) other h))
]

complete_all-Owes :
    (xs : List ℕ) (q k : ℕ) (ps : Promises)
    → Owes q (occurrences q xs + k) ps
    → Owes q k (complete_all xs ps)
unfolding complete_all
complete_all-Owes [] q k ps h = Owes-eq q (0 + k) k ps (omega arith) h
complete_all-Owes (x ∷ xs) q k ps h =
    complete_all-Owes xs q k (complete x ps)
      (complete-Owes x q (occurrences q xs + k) ps (Owes-eq q _ _ ps (omega arith) h))

-- The callbacks and the promises of a worker, and what the removal of a descriptor does to them.
pub record Debt : Type 0 where
  pub completions : Callbacks
  pub promises : Promises

abbrev pub debt : Worker → Debt
debt w = record { completions = w.close_completions; promises = w.promises }

abbrev pub drop_debt : ℕ → Debt → Debt
drop_debt fd d = record {
  completions = erase fd d.completions;
  promises = complete_all (callbacks (find fd d.completions)) d.promises;
}

-- The counters are right.
pub record IsCounted (d : Debt) : Type 0 where
  pub distinct : Distinct d.completions
  pub owed : (p : ℕ) → Owes p (count p d.completions) d.promises

pub drop_debt-IsCounted : (fd : ℕ) (d : Debt) → IsCounted d → IsCounted (drop_debt fd d)
drop_debt-IsCounted fd d h = record {
  distinct = Distinct-erase fd d.completions h.distinct;
  owed = λ p.
      complete_all-Owes (callbacks (find fd d.completions)) p (count p (erase fd d.completions))
        d.promises
        (Owes-eq p _ _ d.promises (omega (arith, count-erase p fd d.completions h.distinct))
          (h.owed p));
}
