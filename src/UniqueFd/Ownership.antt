-- ===== src/UniqueFd/Ownership.antt =====
-- Where a descriptor is: src/common/UniqueFd.cpp.
use cpp_backend_server.Base.{
  ℕ, zero, suc, ◌+◌, true, false, Option, none, some, List, [], ◌∷◌, ◌==◌, if◌then◌else◌, if_cases,
  length, ltb, ◌≡◌, refl, ap, ◌∙◌,
}
use cpp_backend_server.UniqueFd.{
  Descriptors, fd_of, put, add, construct, move_construct, move_assign, release, reset, destroy,
  Operation, constructing, move_constructing, move_assigning, releasing, resetting, destroying,
  operate,
}
use native.Mathlib.Omega.{arith}

unfoldable pub is_fd : ℕ → Option ℕ → ℕ
is_fd fd none = 0
is_fd fd (some n) = if n == fd then 1 else 0

unfoldable pub owned : ℕ → List (Option ℕ) → ℕ
owned fd [] = 0
owned fd (o ∷ os) = is_fd fd o + owned fd os

unfoldable pub times : ℕ → List ℕ → ℕ
times fd [] = 0
times fd (n ∷ ns) = (if n == fd then 1 else 0) + times fd ns

-- How often a descriptor is owned, has been closed, or has been handed back.
unfoldable pub held : ℕ → Descriptors → ℕ
held fd s = owned fd s.owners + times fd s.closed + times fd s.lent

unfoldable pub taken_by : ℕ → Operation → ℕ
taken_by fd (constructing o) = is_fd fd o
taken_by fd (resetting this o) = is_fd fd o
taken_by fd _ = 0

-- The objects that an operation is called with are there.
unfoldable pub Exist : Operation → Descriptors → Type 0
Exist (constructing o) s = Unit
Exist (move_constructing i) s = ltb i (length s.owners) ≡ true
Exist (move_assigning i j) s = (ltb i (length s.owners) ≡ true) × (ltb j (length s.owners) ≡ true)
Exist (releasing i) s = ltb i (length s.owners) ≡ true
Exist (resetting i o) s = ltb i (length s.owners) ≡ true
Exist (destroying i) s = ltb i (length s.owners) ≡ true

times-add : (fd : ℕ) (o : Option ℕ) (ns : List ℕ) → times fd (add o ns) ≡ is_fd fd o + times fd ns
unfolding times add is_fd
times-add fd none ns = ground arith
times-add fd (some n) ns = refl

owned-put :
    (fd i : ℕ) (v : Option ℕ) (os : List (Option ℕ))
    → ltb i (length os) ≡ true
    → owned fd (put i v os) + is_fd fd (fd_of i os) ≡ is_fd fd v + owned fd os
unfolding owned put fd_of is_fd
owned-put fd i v [] h = ground arith
owned-put fd zero v (o ∷ os) h = ground arith
owned-put fd (suc i) v (o ∷ os) h = ground (arith, owned-put fd i v os)

length-put : (i : ℕ) (v : Option ℕ) (os : List (Option ℕ)) → length (put i v os) ≡ length os
unfolding put
length-put i v [] = refl
length-put zero v (o ∷ os) = refl
length-put (suc i) v (o ∷ os) = ap suc (length-put i v os)

fd_of-put :
    (i j : ℕ) (v : Option ℕ) (os : List (Option ℕ))
    → (i == j) ≡ false
    → fd_of j (put i v os) ≡ fd_of j os
unfolding fd_of put
fd_of-put i j v [] h = refl
fd_of-put zero zero v (o ∷ os) h = ground arith
fd_of-put zero (suc j) v (o ∷ os) h = refl
fd_of-put (suc i) zero v (o ∷ os) h = refl
fd_of-put (suc i) (suc j) v (o ∷ os) h = fd_of-put i j v os (ground arith)

held_closed :
    (fd i : ℕ) (v : Option ℕ) (s : Descriptors)
    → ltb i (length s.owners) ≡ true
    → owned fd (put i v s.owners) + times fd (add (fd_of i s.owners) s.closed) + times fd s.lent
      ≡ is_fd fd v + held fd s
unfolding held
held_closed fd i v s h =
    ground (arith, owned-put fd i v s.owners h, times-add fd (fd_of i s.owners) s.closed)

held_lent :
    (fd i : ℕ) (s : Descriptors)
    → ltb i (length s.owners) ≡ true
    → owned fd (put i none s.owners) + times fd s.closed + times fd (add (fd_of i s.owners) s.lent)
      ≡ held fd s
unfolding held is_fd
held_lent fd i s h =
    ground (arith, owned-put fd i none s.owners h, times-add fd (fd_of i s.owners) s.lent)

owned_moved :
    (fd i j : ℕ) (os : List (Option ℕ))
    → ltb i (length os) ≡ true
    → ltb j (length os) ≡ true
    → (i == j) ≡ false
    → owned fd (put j none (put i (fd_of j os) os)) + is_fd fd (fd_of i os) ≡ owned fd os
unfolding is_fd
owned_moved fd i j os h k d =
    let v = fd_of j os in
    let e = owned-put fd i v os h in
    let f = owned-put fd j none (put i v os) (ap (ltb j) (length-put i v os) ∙ k) in
    let g = ap (is_fd fd) (fd_of-put i j v os d) in ground (arith, e, f, g)

held-construct :
    (fd : ℕ) (o : Option ℕ) (s : Descriptors) → held fd (construct o s) ≡ is_fd fd o + held fd s
unfolding held construct owned
held-construct fd o s = ground arith

held-move_construct :
    (fd i : ℕ) (s : Descriptors)
    → ltb i (length s.owners) ≡ true
    → held fd (move_construct i s) ≡ held fd s
unfolding held move_construct owned is_fd
held-move_construct fd i s h = ground (arith, owned-put fd i none s.owners h)

held-move_assign :
    (fd i j : ℕ) (s : Descriptors)
    → ltb i (length s.owners) ≡ true
    → ltb j (length s.owners) ≡ true
    → held fd (move_assign i j s) ≡ held fd s
unfolding held move_assign
held-move_assign fd i j s h k =
    if_cases (λ r. held fd r ≡ held fd s) (i == j) s
      (record {
        owners = put j none (put i (fd_of j s.owners) s.owners);
        closed = add (fd_of i s.owners) s.closed;
        lent = s.lent;
      })
      (λ _. refl)
      (λ d.
        let e = owned_moved fd i j s.owners h k d in
        let a = times-add fd (fd_of i s.owners) s.closed in ground (arith, e, a))

nothing_taken : (a b : ℕ) → a ≡ b → a ≡ 0 + b
nothing_taken a b e = ground arith

held-operate :
    (fd : ℕ) (o : Operation) (s : Descriptors)
    → Exist o s
    → held fd (operate o s) ≡ taken_by fd o + held fd s
unfolding operate Exist taken_by release reset destroy is_fd held owned
held-operate fd (constructing o) s h = held-construct fd o s
held-operate fd (move_constructing i) s h =
    nothing_taken (held fd (move_construct i s)) (held fd s) (held-move_construct fd i s h)
held-operate fd (move_assigning i j) s h =
    nothing_taken (held fd (move_assign i j s)) (held fd s) (held-move_assign fd i j s h.0 h.1)
held-operate fd (releasing i) s h =
    nothing_taken (held fd (release i s)) (held fd s) (held_lent fd i s h)
held-operate fd (resetting i o) s h = held_closed fd i o s h
held-operate fd (destroying i) s h = held_closed fd i none s h

unfoldable pub taken : ℕ → List Operation → ℕ
taken fd [] = 0
taken fd (o ∷ os) = taken_by fd o + taken fd os

unfoldable pub play : List Operation → Descriptors → Descriptors
play [] s = s
play (o ∷ os) s = play os (operate o s)

-- Each operation is called with objects that are there.
unfoldable pub AllExist : List Operation → Descriptors → Type 0
AllExist [] s = Unit
AllExist (o ∷ os) s = Exist o s × AllExist os (operate o s)

-- Whatever objects are constructed, moved, assigned, released, reset and destroyed, in whatever order,
-- as long as each operation finds its objects: the number of objects that own a descriptor, of its
-- closes and of its releases grows together by the number of times that they have taken it over.
-- None is lost, and none is closed twice for one taking.
pub held-play :
    (fd : ℕ) (ops : List Operation) (s : Descriptors)
    → AllExist ops s
    → held fd (play ops s) ≡ taken fd ops + held fd s
unfolding play AllExist taken
held-play fd [] s h = ground arith
held-play fd (o ∷ os) s h =
    let e = held-operate fd o s h.0 in
    let f = held-play fd os (operate o s) h.1 in ground (arith, e, f)
