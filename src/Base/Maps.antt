-- ===== src/Base/Maps.antt =====
-- Maps and sets keyed by numbers, as lists: `std::unordered_map` and `std::unordered_set` with keys that
-- stand in a list once.
use Prim.Native.Nat.{ℕ}
use mathlib.Core.Path.{◌≡◌, refl, ap, subst, ◌∙◌}
use mathlib.Core.Bool.{Bool, true, false}
use mathlib.Core.Option.{Option, none, some}
use mathlib.Core.List.{List, [], ◌∷◌}
use native.Mathlib.Omega.{arith}
use cpp_backend_server.Base.Tests.{◌==◌, ==_refl, ==→eq, if◌then◌else◌, if_cases}

module _ {ℓ} {A : Type ℓ} where
  unfoldable pub find : ℕ → List (ℕ × A) → Option A
  find key [] = none
  find key ((k, a) ∷ rest) = if k == key then some a else find key rest

  -- `insert_or_assign`, and `m[key] = a`.
  unfoldable pub assign : ℕ → A → List (ℕ × A) → List (ℕ × A)
  assign key a [] = (key, a) ∷ []
  assign key a ((k, b) ∷ rest) = if k == key then (k, a) ∷ rest else (k, b) ∷ assign key a rest

  -- Since a key stands in a map once, all its entries are that one.
  unfoldable pub erase : ℕ → List (ℕ × A) → List (ℕ × A)
  erase key [] = []
  erase key ((k, a) ∷ rest) = if k == key then erase key rest else (k, a) ∷ erase key rest

  unfoldable pub contains : ℕ → List (ℕ × A) → Bool
  contains key m = elim (find key m) [ none ↦ false | some a ↦ true ]

  pub find-assign :
      (i j : ℕ) (a : A) (m : List (ℕ × A))
      → find j (assign i a m) ≡ (if i == j then some a else find j m)
  unfolding find assign
  find-assign i j a [] = refl
  find-assign i j a ((k, b) ∷ m) = ground (arith, find-assign i j a m)

  pub find-erase :
      (i j : ℕ) (m : List (ℕ × A)) → find j (erase i m) ≡ (if i == j then none else find j m)
  unfolding find erase
  find-erase i j [] = ground arith
  find-erase i j ((k, b) ∷ m) = ground (arith, find-erase i j m)

  pub find-assign_same : (i : ℕ) (a : A) (m : List (ℕ × A)) → find i (assign i a m) ≡ some a
  find-assign_same i a m =
      find-assign i i a m ∙ ap (λ t. if t then some a else find i m) (==_refl i)

  pub find-assign_other :
      (i j : ℕ) (a : A) (m : List (ℕ × A)) → (i == j) ≡ false → find j (assign i a m) ≡ find j m
  find-assign_other i j a m h = find-assign i j a m ∙ ap (λ t. if t then some a else find j m) h

  pub find-erase_same : (i : ℕ) (m : List (ℕ × A)) → find i (erase i m) ≡ none
  find-erase_same i m = find-erase i i m ∙ ap (λ t. if t then none else find i m) (==_refl i)

  pub find-erase_other :
      (i j : ℕ) (m : List (ℕ × A)) → (i == j) ≡ false → find j (erase i m) ≡ find j m
  find-erase_other i j m h = find-erase i j m ∙ ap (λ t. if t then none else find j m) h

  pub contains-some :
      (key : ℕ) (m : List (ℕ × A)) (a : A) → find key m ≡ some a → contains key m ≡ true
  unfolding contains
  contains-some key m a e = ap (λ o. elim o [ none ↦ false | some a ↦ true ]) e

  pub contains-none : (key : ℕ) (m : List (ℕ × A)) → find key m ≡ none → contains key m ≡ false
  unfolding contains
  contains-none key m e = ap (λ o. elim o [ none ↦ false | some a ↦ true ]) e

unfoldable pub member : ℕ → List ℕ → Bool
member x [] = false
member x (y ∷ ys) = if y == x then true else member x ys

pub member-front : (x : ℕ) (xs : List ℕ) → member x (x ∷ xs) ≡ true
unfolding member
member-front x xs = ap (λ b. if b then true else member x xs) (==_refl x)

pub member-rest : (x y : ℕ) (xs : List ℕ) → member x xs ≡ true → member x (y ∷ xs) ≡ true
unfolding member
member-rest x y xs h = if_cases (λ b. b ≡ true) (y == x) true (member x xs) (λ _. refl) (λ _. h)

unfoldable pub set_insert : ℕ → List ℕ → List ℕ
set_insert x ys = if member x ys then ys else x ∷ ys

unfoldable pub set_erase : ℕ → List ℕ → List ℕ
set_erase x [] = []
set_erase x (y ∷ ys) = if y == x then set_erase x ys else y ∷ set_erase x ys

pub member-set_insert :
    (i j : ℕ) (xs : List ℕ) → member j (set_insert i xs) ≡ (if i == j then true else member j xs)
unfolding member set_insert
member-set_insert i j xs =
    if_cases (λ (ys : List ℕ). member j ys ≡ (if i == j then true else member j xs)) (member i xs)
      xs (i ∷ xs)
      (λ e.
        if_cases (λ b. member j xs ≡ b) (i == j) true (member j xs)
          (λ f. subst (λ k. member k xs ≡ true) (==→eq i j f) e) (λ f. refl))
      (λ e. refl)

pub member-set_erase :
    (i j : ℕ) (xs : List ℕ) → member j (set_erase i xs) ≡ (if i == j then false else member j xs)
unfolding member set_erase
member-set_erase i j [] = ground arith
member-set_erase i j (y ∷ xs) = ground (arith, member-set_erase i j xs)

pub member-set_insert_same : (i : ℕ) (xs : List ℕ) → member i (set_insert i xs) ≡ true
member-set_insert_same i xs =
    member-set_insert i i xs ∙ ap (λ t. if t then true else member i xs) (==_refl i)

pub member-set_insert_other :
    (i j : ℕ) (xs : List ℕ) → (i == j) ≡ false → member j (set_insert i xs) ≡ member j xs
member-set_insert_other i j xs h =
    member-set_insert i j xs ∙ ap (λ t. if t then true else member j xs) h

pub member-set_erase_same : (i : ℕ) (xs : List ℕ) → member i (set_erase i xs) ≡ false
member-set_erase_same i xs =
    member-set_erase i i xs ∙ ap (λ t. if t then false else member i xs) (==_refl i)

pub member-set_erase_other :
    (i j : ℕ) (xs : List ℕ) → (i == j) ≡ false → member j (set_erase i xs) ≡ member j xs
member-set_erase_other i j xs h =
    member-set_erase i j xs ∙ ap (λ t. if t then false else member j xs) h
