-- ===== src/KeyService/Guards.antt =====
-- What the key repository is called with.
use cpp_backend_server.Base.{
  ◌≤◌, ◌≡◌, refl, Bool, true, false, not, ◌||◌, Option, none, some, List, [], ◌∷◌, ltb, ◌==◌, ==→eq,
  if◌then◌else◌, if_cases, length, Bytes, All, arith,
}
use cpp_backend_server.DatabasePool.{ℤ, pos, negsuc}
use cpp_backend_server.KeyService.{
  all_hex, is_negative, bad_prekey, any_bad, is_active, wrong_count, wrong_prekey, unavailable,
  creates, upload_one_time_prekeys,
}

abbrev pub IsNatural : ℤ → Type 0
IsNatural (pos n) = Unit
IsNatural (negsuc n) = ⊥

-- A key of 64 hexadecimal digits under an identifier that is not negative.
abbrev pub IsPrekey : ℤ × Bytes → Type 0
IsPrekey (id, key) = IsNatural id × (length key ≡ 64) × (all_hex key ≡ true)

-- What the keys and the device are.
abbrev pub IsChecked : Option Bool → List (ℤ × Bytes) → Type 0
IsChecked device prekeys =
    (device ≡ some true) × (1 ≤ length prekeys) × (length prekeys ≤ 10) × All IsPrekey prekeys

bad_prekey-IsPrekey : (id : ℤ) (key : Bytes) → bad_prekey id key ≡ false → IsPrekey (id, key)
unfolding bad_prekey is_negative
bad_prekey-IsPrekey (negsuc n) key e = absurd (cc e)
bad_prekey-IsPrekey (pos n) key e = parts (length key == 64) (all_hex key) refl refl e
  where
    parts :
        (a b : Bool)
        → (length key == 64) ≡ a
        → all_hex key ≡ b
        → not a || not b ≡ false
        → IsPrekey (pos n, key)
    parts true true p q f = (tt, ==→eq (length key) 64 p, q)
    parts true false p q f = absurd (cc f)
    parts false b p q f = absurd (cc f)

any_bad-All : (prekeys : List (ℤ × Bytes)) → any_bad prekeys ≡ false → All IsPrekey prekeys
unfolding any_bad
any_bad-All [] e = tt
any_bad-All ((id, key) ∷ rest) e = parts (bad_prekey id key) refl e (any_bad-All rest)
  where
    parts :
        (b : Bool)
        → bad_prekey id key ≡ b
        → (if b then true else any_bad rest) ≡ false
        → (any_bad rest ≡ false → All IsPrekey rest)
        → IsPrekey (id, key) × All IsPrekey rest
    parts true p f later = absurd (cc f)
    parts false p f later = (bad_prekey-IsPrekey id key p, later f)

is_active-eq : (device : Option Bool) → is_active device ≡ true → device ≡ some true
unfolding is_active
is_active-eq none e = absurd (cc e)
is_active-eq (some true) e = refl
is_active-eq (some false) e = absurd (cc e)

-- One-time keys reach the repository only for a device that is active, one to ten at once, and each
-- with 64 hexadecimal digits and an identifier that is not negative.
pub upload_one_time_prekeys-IsChecked :
    (device : Option Bool) (prekeys : List (ℤ × Bytes))
    → upload_one_time_prekeys device prekeys ≡ creates
    → IsChecked device prekeys
unfolding upload_one_time_prekeys
upload_one_time_prekeys-IsChecked device prekeys =
    if_cases (λ u. u ≡ creates → IsChecked device prekeys)
      (length prekeys == 0 || ltb 10 (length prekeys)) wrong_count _ (λ e h. absurd (cc h))
      (λ e.
        if_cases (λ u. u ≡ creates → IsChecked device prekeys) (any_bad prekeys) wrong_prekey _
          (λ f h. absurd (cc h))
          (λ f.
            if_cases (λ u. u ≡ creates → IsChecked device prekeys) (is_active device) creates
              unavailable
              (λ g h. (
                is_active-eq device g,
                ground (arith, e),
                ground (arith, e),
                any_bad-All prekeys f,
              ))
              (λ g h. absurd (cc h))))
