-- ===== src/Base/Strings.antt =====
-- Byte strings, and maps keyed by them: `std::string`, `std::string_view` and
-- `std::unordered_map<std::string, std::string>` as far as the server uses them.
use Prim.Native.Nat.{ℕ, zero, suc, ◌+◌, ◌≤◌, ◌<◌}
use Prim.Native.Char.{code}
use Prim.Native.String.{String}
use mathlib.Core.Path.{◌≡◌, refl, sym, ap, ap₂, ◌∙◌}
use mathlib.Core.Logic.{◌≢◌, ◌↔◌}
use mathlib.Core.Bool.{Bool, true, false, ◌&&◌}
use mathlib.Core.Option.{Option, none, some}
use mathlib.Core.Option
use mathlib.Core.List.{List, [], ◌∷◌, ◌++◌}
use native.Mathlib.Omega.{arith}
use cpp_backend_server.Base.Tests.{◌==◌, if◌then◌else◌}
use cpp_backend_server.Base.Lists.{All, length}

abbrev pub Bytes : Type 0
Bytes = List ℕ

-- The bytes of an ASCII literal.
abbrev pub codes : String → Bytes
codes String.[] = []
codes (String.◌∷◌ c s) = code c ∷ codes s

unfoldable pub eq_bytes : Bytes → Bytes → Bool
eq_bytes [] [] = true
eq_bytes (x ∷ xs) (y ∷ ys) = x == y && eq_bytes xs ys
eq_bytes _ _ = false

pub eq_bytes_refl : (xs : Bytes) → eq_bytes xs xs ≡ true
unfolding eq_bytes
eq_bytes_refl [] = refl
eq_bytes_refl (x ∷ xs) = ground (arith, eq_bytes_refl xs)

pub eq_bytes→eq : (xs ys : Bytes) → eq_bytes xs ys ≡ true → xs ≡ ys
unfolding eq_bytes
eq_bytes→eq [] [] h = refl
eq_bytes→eq [] (y ∷ ys) h = cc
eq_bytes→eq (x ∷ xs) [] h = cc
eq_bytes→eq (x ∷ xs) (y ∷ ys) h =
    ap₂ (λ z zs. z ∷ zs) (ground arith) (eq_bytes→eq xs ys (ground arith))

pub eq_bytes_iff : (xs ys : Bytes) → (eq_bytes xs ys ≡ true) ↔ (xs ≡ ys)
eq_bytes_iff xs ys = (eq_bytes→eq xs ys, λ e. ap (eq_bytes xs) (sym e) ∙ eq_bytes_refl xs)

-- `find(c)`: the index of the first `c`; `none` is `npos`.
unfoldable pub find_byte : ℕ → Bytes → Option ℕ
find_byte c [] = none
find_byte c (x ∷ xs) = if x == c then some 0 else Option.map suc (find_byte c xs)

-- `find(c, from)`.
unfoldable pub find_byte_from : ℕ → ℕ → Bytes → Option ℕ
find_byte_from c zero xs = find_byte c xs
find_byte_from c (suc n) [] = none
find_byte_from c (suc n) (x ∷ xs) = Option.map suc (find_byte_from c n xs)

-- `find("\r\n")`.
unfoldable pub find_crlf : Bytes → Option ℕ
find_crlf [] = none
find_crlf (x ∷ []) = none
find_crlf (x ∷ (y ∷ ys)) =
    if x == 13 && y == 10 then some 0 else Option.map suc (find_crlf (y ∷ ys))

abbrev pub crlf : Bytes
crlf = 13 ∷ 10 ∷ []

abbrev pub Lacks : ℕ → Bytes → Type 0
Lacks c = All (λ x. x ≢ c)

pub find_byte-append :
    (c : ℕ) (xs ys : Bytes) → Lacks c xs → find_byte c (xs ++ c ∷ ys) ≡ some (length xs)
unfolding find_byte
find_byte-append c [] ys h = ground arith
find_byte-append c (x ∷ xs) ys h = ground (arith, find_byte-append c xs ys h.1)

pub find_byte-Lacks : (c : ℕ) (xs : Bytes) → Lacks c xs → find_byte c xs ≡ none
unfolding find_byte
find_byte-Lacks c [] h = refl
find_byte-Lacks c (x ∷ xs) h = ground (arith, find_byte-Lacks c xs h.1)

pub find_byte-skip :
    (c : ℕ) (xs ys : Bytes) (o : Option ℕ)
    → Lacks c xs
    → find_byte c ys ≡ o
    → find_byte c (xs ++ ys) ≡ Option.map (λ k. length xs + k) o
unfolding find_byte
find_byte-skip c [] ys none h e = e
find_byte-skip c [] ys (some k) h e = e ∙ ap some (omega arith)
find_byte-skip c (x ∷ xs) ys none h e = ground (arith, find_byte-skip c xs ys none h.1)
find_byte-skip c (x ∷ xs) ys (some k) h e = ground (arith, find_byte-skip c xs ys (some k) h.1)

-- A byte that has been found stays where it is when more bytes follow.
pub find_byte-stable :
    (c : ℕ) (xs ys : Bytes) (i : ℕ) → find_byte c xs ≡ some i → find_byte c (xs ++ ys) ≡ some i
unfolding find_byte
find_byte-stable c [] ys i h = cc
find_byte-stable c (x ∷ xs) ys zero h = ground arith
find_byte-stable c (x ∷ xs) ys (suc i) h = ground (arith, find_byte-stable c xs ys i)

pub find_byte-lt : (c : ℕ) (xs : Bytes) (i : ℕ) → find_byte c xs ≡ some i → i < length xs
unfolding find_byte
find_byte-lt c [] i h = cc
find_byte-lt c (x ∷ xs) zero h = omega arith
find_byte-lt c (x ∷ xs) (suc i) h = ground (arith, find_byte-lt c xs i)

pub find_byte_from-stable :
    (c n : ℕ) (xs ys : Bytes) (i : ℕ)
    → find_byte_from c n xs ≡ some i
    → find_byte_from c n (xs ++ ys) ≡ some i
unfolding find_byte_from
find_byte_from-stable c zero xs ys i h = find_byte-stable c xs ys i h
find_byte_from-stable c (suc n) [] ys i h = cc
find_byte_from-stable c (suc n) (x ∷ xs) ys zero h = ground arith
find_byte_from-stable c (suc n) (x ∷ xs) ys (suc i) h =
    ground (arith, find_byte_from-stable c n xs ys i)

pub find_crlf-stable :
    (xs ys : Bytes) (i : ℕ) → find_crlf xs ≡ some i → find_crlf (xs ++ ys) ≡ some i
unfolding find_crlf
find_crlf-stable [] ys i h = cc
find_crlf-stable (x ∷ []) ys i h = cc
find_crlf-stable (x ∷ (z ∷ xs)) ys zero h = ground arith
find_crlf-stable (x ∷ (z ∷ xs)) ys (suc i) h = ground (arith, find_crlf-stable (z ∷ xs) ys i)

pub find_crlf-lt : (xs : Bytes) (i : ℕ) → find_crlf xs ≡ some i → i + 2 ≤ length xs
unfolding find_crlf
find_crlf-lt [] i h = cc
find_crlf-lt (x ∷ []) i h = cc
find_crlf-lt (x ∷ (z ∷ xs)) zero h = omega arith
find_crlf-lt (x ∷ (z ∷ xs)) (suc i) h = ground (arith, find_crlf-lt (z ∷ xs) i)

pub find_crlf-append :
    (xs ys : Bytes) → Lacks 13 xs → find_crlf (xs ++ 13 ∷ 10 ∷ ys) ≡ some (length xs)
unfolding find_crlf
find_crlf-append [] ys h = refl
find_crlf-append (x ∷ []) ys h = ground arith
find_crlf-append (x ∷ (z ∷ xs)) ys h = ground (arith, find_crlf-append (z ∷ xs) ys h.1)

module _ {ℓ} {V : Type ℓ} where
  -- `map.find(key)`.
  unfoldable pub lookup : Bytes → List (Bytes × V) → Option V
  lookup k [] = none
  lookup k ((j, v) ∷ m) = if eq_bytes j k then some v else lookup k m

  -- `map[key] = value`: a new key goes to the end.
  unfoldable pub insert : Bytes → V → List (Bytes × V) → List (Bytes × V)
  insert k v [] = (k, v) ∷ []
  insert k v ((j, w) ∷ m) = if eq_bytes j k then (j, v) ∷ m else (j, w) ∷ insert k v m

  pub lookup-insert :
      (k j : Bytes) (v : V) (m : List (Bytes × V))
      → lookup j (insert k v m) ≡ (if eq_bytes k j then some v else lookup j m)
  unfolding lookup insert
  lookup-insert k j v [] = refl
  lookup-insert k j v ((i, w) ∷ m) =
      ground (arith, eq_bytes_iff k j, eq_bytes_iff i k, eq_bytes_iff i j, lookup-insert k j v m)

  pub insert-new :
      (k : Bytes) (v : V) (m : List (Bytes × V))
      → lookup k m ≡ none
      → insert k v m ≡ m ++ (k, v) ∷ []
  unfolding lookup insert
  insert-new k v [] h = refl
  insert-new k v ((j, w) ∷ m) h = ground (arith, insert-new k v m)
