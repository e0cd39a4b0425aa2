-- ===== src/Frame/Stage.antt =====
-- The loop body of `WebSocketSession::FrameParse` on a longer buffer: what it has decided does not
-- change when more bytes stand behind those that it read.
use cpp_backend_server.Base.{
  ℕ, zero, suc, ◌+◌, ◌≤◌, ◌%◌, ◌^◌, ◌≡◌, refl, sym, subst, ap, ap₂, ◌∙◌, List, ◌∷◌, ◌++◌, length,
  length-append, get_or-append, arith, bit_or, bit_xor, Bool-cases, inl, inr, ◌==◌, ◌*◌,
}
use cpp_backend_server.Frame.{
  Scan, found, more, bad, ◌>>=◌, need, refuse_if, parse_head, parse_extent16, parse_extent64,
  parse_extent, read_be, unmask, mask_size, parse_one, u64_mod,
}

-- `s` is what `m` becomes when bytes are added: only a wait may change.
abbrev pub Extends : {A : Type 0} → Scan A → Scan A → Type 0
Extends more s = Unit
Extends bad s = s ≡ bad
Extends (found a) s = s ≡ found a

Extends-refl : {A : Type 0} (m : Scan A) → Extends m m
Extends-refl more = tt
Extends-refl bad = refl
Extends-refl (found a) = refl

-- The rule for a sequence of parts.
bind-Extends :
    {A B : Type 0} (m s : Scan A) (k l : A → Scan B)
    → Extends m s
    → ((a : A) → m ≡ found a → Extends (k a) (l a))
    → Extends (m >>= k) (s >>= l)
bind-Extends more s k l e h = tt
bind-Extends bad s k l e h = ap (λ t. t >>= l) e
bind-Extends (found a) s k l e h = subst (λ t. Extends (k a) (t >>= l)) (sym e) (h a refl)

pub le_of_need : (sub : List ℕ) (n : ℕ) (u : Unit {0}) → need sub n ≡ found u → n ≤ length sub
unfolding need
le_of_need sub n u h = ground arith

need-Extends : (a b : List ℕ) (n : ℕ) → Extends (need a n) (need (a ++ b) n)
unfolding need
need-Extends a b n = ground (arith, length-append a b)

-- One wait for `n` bytes, then a part that reads inside them.
need_then-Extends :
    {B : Type 0} (a b : List ℕ) (n : ℕ) (k l : Unit {0} → Scan B)
    → (n ≤ length a → Extends (k tt) (l tt))
    → Extends (need a n >>= k) (need (a ++ b) n >>= l)
need_then-Extends a b n k l h =
    bind-Extends (need a n) (need (a ++ b) n) k l (need-Extends a b n)
      (λ u e. h (le_of_need a n u e))

read_be-append :
    (n i : ℕ) (a b : List ℕ) (acc : ℕ)
    → i + n ≤ length a
    → read_be n i (a ++ b) acc ≡ read_be n i a acc
unfolding read_be
read_be-append zero i a b acc h = refl
read_be-append (suc n) i a b acc h =
    ap (λ t. read_be n (i + 1) (a ++ b) (bit_or (acc * 2 ^ 8 % u64_mod) t))
      (get_or-append a b i 0 (omega arith))
    ∙ read_be-append n (i + 1) a b _ (omega arith)

unmask-append :
    (n i mo po : ℕ) (a b : List ℕ)
    → mo + mask_size ≤ po
    → po + i + n ≤ length a
    → unmask n i mo po (a ++ b) ≡ unmask n i mo po a
unfolding unmask
unmask-append zero i mo po a b g h = refl
unmask-append (suc n) i mo po a b g h =
    ap₂ (λ x xs. x ∷ xs)
      (ap₂ bit_xor (get_or-append a b (po + i) 0 (omega arith))
        (get_or-append a b (mo + i % mask_size) 0 (omega arith)))
      (unmask-append n (i + 1) mo po a b g (omega arith))

parse_extent16-Extends : (a b : List ℕ) → Extends (parse_extent16 a) (parse_extent16 (a ++ b))
unfolding parse_extent16
parse_extent16-Extends a b = need_then-Extends a b 4 _ _ λ h.
    rw (get_or-append a b 2 0 (omega arith), get_or-append a b 3 0 (omega arith)) (Extends-refl _)

parse_extent64-Extends : (a b : List ℕ) → Extends (parse_extent64 a) (parse_extent64 (a ++ b))
unfolding parse_extent64
parse_extent64-Extends a b = need_then-Extends a b 10 _ _ λ h.
    rw (get_or-append a b 2 0 (omega arith), read_be-append 8 2 a b 0 (omega arith))
      (Extends-refl _)

parse_extent-Extends : (a b : List ℕ) (n : ℕ) → Extends (parse_extent a n) (parse_extent (a ++ b) n)
unfolding parse_extent
parse_extent-Extends a b n = elim (Bool-cases (n == 126)) [
  | inl e ↦ rw e (parse_extent16-Extends a b)
  | inr e ↦ rw e (elim (Bool-cases (n == 127)) [
    | inl e' ↦ rw e' (parse_extent64-Extends a b)
    | inr e' ↦ rw e' refl
  ])
]

-- A part that does not look at the buffer, then one that may.
same-Extends :
    {A B : Type 0} (m : Scan A) (k l : A → Scan B)
    → ((a : A) → m ≡ found a → Extends (k a) (l a))
    → Extends (m >>= k) (m >>= l)
same-Extends m k l h = bind-Extends m m k l (Extends-refl m) h

-- A frame that has been parsed, or refused, stays so whatever follows it.
pub parse_one-Extends : (a b : List ℕ) → Extends (parse_one a) (parse_one (a ++ b))
unfolding parse_one
parse_one-Extends a b = need_then-Extends a b 2 _ _ λ two.
    rw (get_or-append a b 0 0 (omega arith), get_or-append a b 1 0 (omega arith))
      (same-Extends (parse_head _ _) _ _ λ head _.
        bind-Extends (parse_extent a head.length7) _ _ _ (parse_extent-Extends a b head.length7)
          λ extent _. same-Extends (refuse_if _) _ _ λ u _.
            need_then-Extends a b (extent.header_size + mask_size) _ _ λ h.
              need_then-Extends a b (extent.header_size + mask_size + extent.payload_size) _ _
                λ all.
                  rw
                    (unmask-append extent.payload_size 0 extent.header_size
                      (extent.header_size + mask_size) a b (omega arith) (omega arith))
                    refl)
