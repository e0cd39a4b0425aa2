-- ===== src/Base/Bits.antt =====
-- `&`, `|` and `^` on machine words, as arithmetic.
use Prim.Native.Nat.{
  ℕ, zero, suc, ◌+◌, ◌*◌, ◌/◌, ◌%◌, ◌^◌, ◌≤◌, ◌<◌, max, min, bit_or, bit_xor, bitwise, bit_and,
  differ, digits, bit_and-bitwise, bit_or-bitwise, bit_xor-bitwise,
}
use mathlib.Core.Path.{◌≡◌, refl, sym, ap, ap₂, ◌∙◌}
use mathlib.Core.Bool.{Bool, true, ◌&&◌}
use native.Mathlib.Omega.{arith}
use native.Mathlib.Nat.{le_refl, pow-suc}
use cpp_backend_server.Base.Tests.{◌==◌}

-- A test that every number under a bound passes, by evaluation.
unfoldable pub passes_below : (ℕ → Bool) → ℕ → Bool
passes_below test zero = true
passes_below test (suc bound) = passes_below test bound && test bound

pub passes_below_lem :
    (test : ℕ → Bool) (bound i : ℕ) → i < bound → passes_below test bound ≡ true → test i ≡ true
unfolding passes_below
passes_below_lem test zero i h e = elim h [ ]
passes_below_lem test (suc bound) i h e = ground (arith, passes_below_lem test bound i)

module _ (rest : ℕ → ℕ) (digit : ℕ → ℕ → ℕ) where
  no_digits : (fuel y : ℕ) → digits rest digit fuel 0 y ≡ rest y
  no_digits zero y = refl
  no_digits (suc fuel) y = refl

  -- The fuel of `digits` may be any bound of the first number.
  same_digits : (n x y m : ℕ) → x ≤ n → x ≤ m → digits rest digit n x y ≡ digits rest digit m x y
  same_digits n zero y m h k = no_digits n y ∙ sym (no_digits m y)
  same_digits zero (suc x) y m h k = absurd (omega (arith, h))
  same_digits (suc n) (suc x) y zero h k = absurd (omega (arith, k))
  same_digits (suc n) (suc x) y (suc m) h k =
      ap (λ t. t * 2 + digit (suc x % 2) (y % 2))
        (same_digits n (suc x / 2) (y / 2) m (omega (arith, h)) (omega (arith, k)))

  bitwise-low :
      (x y : ℕ)
      → bitwise rest digit (suc x) y
        ≡ bitwise rest digit (suc x / 2) (y / 2) * 2 + digit (suc x % 2) (y % 2)
  bitwise-low x y =
      ap (λ t. t * 2 + digit (suc x % 2) (y % 2))
        (same_digits x (suc x / 2) (y / 2) (suc x / 2) (omega arith) (le_refl _))

-- One binary digit at v time.
bit_and_halves : (v w : ℕ) → bit_and v w ≡ bit_and (v / 2) (w / 2) * 2 + min (v % 2) (w % 2)
bit_and_halves zero w = simp bit_and-bitwise (omega arith)
bit_and_halves (suc v) w = simp bit_and-bitwise (bitwise-low (λ u. 0) min v w)

bit_or_halves : (v w : ℕ) → bit_or v w ≡ bit_or (v / 2) (w / 2) * 2 + max (v % 2) (w % 2)
bit_or_halves zero w = simp bit_or-bitwise (omega arith)
bit_or_halves (suc v) w = simp bit_or-bitwise (bitwise-low (λ u. u) max v w)

bit_xor_halves : (v w : ℕ) → bit_xor v w ≡ bit_xor (v / 2) (w / 2) * 2 + differ (v % 2) (w % 2)
bit_xor_halves zero w = simp bit_xor-bitwise (differ_low w)
  where
    bit_of : (y : ℕ) → differ 0 y ≡ y
    bit_of y = refl

    differ_low : (w : ℕ) → w ≡ w / 2 * 2 + differ (0 % 2) (w % 2)
    differ_low w = omega (arith, bit_of (w % 2))
bit_xor_halves (suc v) w = simp bit_xor-bitwise (bitwise-low (λ u. u) differ v w)

double-pow-suc : (q k : ℕ) → q * 2 ^ suc k ≡ q * 2 ^ k * 2
double-pow-suc q k = omega (arith, ap (λ (t : ℕ). q * t) (pow-suc 2 k))

half-double : (a b : ℕ) → b ≡ a * 2 → b / 2 ≡ a
half-double a b e = omega arith

bit_or-zero_below : (n a : ℕ) → a ≤ n → bit_or a 0 ≡ a
bit_or-zero_below n zero p = refl
bit_or-zero_below zero (suc a) p = absurd (omega arith)
bit_or-zero_below (suc n) (suc a) p =
    omega (arith, bit_or_halves (suc a) 0, bit_or-zero_below n (suc a / 2) (omega arith))

bit_or-zero : (a r : ℕ) → r ≡ 0 → bit_or a r ≡ a + r
bit_or-zero a r e = rw e (omega (arith, bit_or-zero_below a a (le_refl a)))

-- `(q << k) | r` is a sum when `r` has at most `k` digits.
pub bit_or_shifted : (k q r : ℕ) → r < 2 ^ k → bit_or (q * 2 ^ k) r ≡ q * 2 ^ k + r
bit_or_shifted zero q r h = bit_or-zero (q * 1) r (omega arith)
bit_or_shifted (suc k) q r h = omega (
  arith,
  bit_or_halves (q * 2 ^ suc k) r,
  double-pow-suc q k,
  ap (λ t. bit_or t (r / 2)) (half-double (q * 2 ^ k) _ (double-pow-suc q k)),
  bit_or_shifted k q (r / 2) (omega (arith, pow-suc 2 k)),
)

differ_bits : (x y : ℕ) → x < 2 → y < 2 → (differ x y < 2) × (differ (differ x y) y ≡ x)
differ_bits zero zero p q = (omega arith, refl)
differ_bits zero (suc zero) p q = (omega arith, refl)
differ_bits (suc zero) zero p q = (omega arith, refl)
differ_bits (suc zero) (suc zero) p q = (omega arith, refl)
differ_bits (suc (suc x)) y p q = absurd (omega arith)
differ_bits zero (suc (suc y)) p q = absurd (omega arith)
differ_bits (suc zero) (suc (suc y)) p q = absurd (omega arith)

-- Exclusive or stays within the digits of its arguments.
pub bit_xor-lt_pow : (k a b : ℕ) → a < 2 ^ k → b < 2 ^ k → bit_xor a b < 2 ^ k
bit_xor-lt_pow zero zero b p q = omega (arith, ap (bit_xor 0) (zero_of b q))
  where
    zero_of : (b : ℕ) → b < 1 → b ≡ 0
    zero_of b q = omega arith
bit_xor-lt_pow zero (suc a) b p q = absurd (omega arith)
bit_xor-lt_pow (suc k) a b p q = omega (
  arith,
  pow-suc 2 k,
  bit_xor_halves a b,
  (differ_bits (a % 2) (b % 2) (omega arith) (omega arith)).0,
  bit_xor-lt_pow k (a / 2) (b / 2) (omega (arith, pow-suc 2 k)) (omega (arith, pow-suc 2 k)),
)

bit_xor_cancel_step :
    (a b x y : ℕ)
    → x ≡ bit_xor a b
    → bit_xor (bit_xor (a / 2) (b / 2)) (b / 2) ≡ a / 2
    → y ≡ bit_xor x b
    → y ≡ a
bit_xor_cancel_step a b x y e ih f =
    let d = differ_bits (a % 2) (b % 2) (omega arith) (omega arith) in
    let low : x % 2 ≡ differ (a % 2) (b % 2) = omega (arith, e, bit_xor_halves a b, d.0) in
    let high : x / 2 ≡ bit_xor (a / 2) (b / 2) = omega (arith, e, bit_xor_halves a b, d.0) in
    omega (
      arith,
      f,
      bit_xor_halves x b,
      ap (λ t. bit_xor t (b / 2)) high,
      ap (λ t. differ t (b % 2)) low,
      ih,
      d.1,
    )

-- Masking twice with the same word gives the word back.
pub bit_xor_cancel : (k a b : ℕ) → a < 2 ^ k → b < 2 ^ k → bit_xor (bit_xor a b) b ≡ a
bit_xor_cancel zero zero zero p q = refl
bit_xor_cancel zero (suc a) b p q = absurd (omega arith)
bit_xor_cancel zero zero (suc b) p q = absurd (omega arith)
bit_xor_cancel (suc k) a b p q =
    bit_xor_cancel_step a b _ _ refl
      (bit_xor_cancel k (a / 2) (b / 2) (omega (arith, pow-suc 2 k)) (omega (arith, pow-suc 2 k)))
      refl

bit_and-zero_below : (top v : ℕ) → v ≤ top → bit_and v 0 ≡ 0
bit_and-zero_below top zero h = refl
bit_and-zero_below zero (suc v) h = absurd (omega arith)
bit_and-zero_below (suc top) (suc v) h =
    omega (arith, bit_and_halves (suc v) 0, bit_and-zero_below top (suc v / 2) (omega arith))

bit_and-odd : (m c a b : ℕ) → c ≡ m * 2 + 1 → b ≡ a / 2 → bit_and a c ≡ bit_and b m * 2 + a % 2
bit_and-odd m c a b e f =
    let h : c / 2 ≡ m = omega (arith, e) in
    omega (arith, bit_and_halves a c, e, ap₂ bit_and (sym f) h)

-- `x & 0xFF` is the low byte.
pub bit_and_low_byte : (a : ℕ) → bit_and a 0xff ≡ a % 256
bit_and_low_byte a = omega (
  arith,
  bit_and-odd 127 255 a (a / 2) refl refl,
  bit_and-odd 63 127 (a / 2) (a / 4) refl (omega arith),
  bit_and-odd 31 63 (a / 4) (a / 8) refl (omega arith),
  bit_and-odd 15 31 (a / 8) (a / 16) refl (omega arith),
  bit_and-odd 7 15 (a / 16) (a / 32) refl (omega arith),
  bit_and-odd 3 7 (a / 32) (a / 64) refl (omega arith),
  bit_and-odd 1 3 (a / 64) (a / 128) refl (omega arith),
  bit_and-odd 0 1 (a / 128) (a / 256) refl (omega arith),
  bit_and-zero_below (a / 256) (a / 256) (le_refl _),
)

-- The masks that a frame's first two bytes are read with.
masks_table :
    passes_below
      (λ x.
        (bit_and x 0x0f == x % 16)
        && (bit_and x 0x70 == x / 16 % 8 * 16)
        && (bit_and x 0x80 == x / 128 * 128)
        && (bit_and x 0x7f == x % 128))
      256
    ≡ true
unfolding passes_below
masks_table = refl

pub byte_masks :
    (x : ℕ)
    → x < 256
    → (bit_and x 0x0f ≡ x % 16)
      × (bit_and x 0x70 ≡ x / 16 % 8 * 16)
      × (bit_and x 0x80 ≡ x / 128 * 128)
      × (bit_and x 0x7f ≡ x % 128)
byte_masks x h = ground (arith, passes_below_lem _ 256 x h masks_table)
