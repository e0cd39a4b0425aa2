-- ===== src/ChatService/Errors.antt =====
-- The errors of the database that `newTextMessage` tells apart.
use cpp_backend_server.Base.{
  ◌≡◌, ◌⊎◌, inl, inr, refl, ap, ap₂, true, ◌||◌, Option, none, some, [], ◌∷◌, ◌++◌, Bytes, codes,
  eq_bytes→eq, eq_bytes_iff, ◌↔◌, arith,
}
use cpp_backend_server.Router.{starts_with}
use cpp_backend_server.HttpSession.{
  DatabaseErrorKind, connection, query, constraint, data_conversion,
}
use cpp_backend_server.ChatService.{is_key, retryable, is_connection}

-- A serialization failure, a deadlock, or a collision of envelope keys.
abbrev pub IsPassingError : Bytes → Option Bytes → Type 0
IsPassingError code name =
    (code ≡ codes "40001")
    ⊎ (code ≡ codes "40P01")
    ⊎ ((code ≡ codes "23505") × (name ≡ some (codes "message_envelopes_pkey")))

is_key_iff :
    (name : Option Bytes) → (is_key name ≡ true) ↔ (name ≡ some (codes "message_envelopes_pkey"))
unfolding is_key
is_key_iff none = (λ e. absurd (cc e), λ e. absurd (cc e))
is_key_iff (some name) =
    let key = codes "message_envelopes_pkey" in
    (
      λ e. ap some (eq_bytes→eq name key e),
      λ e. (eq_bytes_iff name key).1 (ap (λ o. elim o [ none ↦ name | some n ↦ n ]) e),
    )

pub retryable_iff :
    (code : Bytes) (name : Option Bytes) → (retryable code name ≡ true) ↔ IsPassingError code name
unfolding retryable
retryable_iff code name = ground (
  arith,
  eq_bytes_iff code (codes "40001"),
  eq_bytes_iff code (codes "40P01"),
  eq_bytes_iff code (codes "23505"),
  is_key_iff name,
)

-- The connection is lost, or the code is one of SQLSTATE's class 08.
abbrev pub IsUnreachable : DatabaseErrorKind → Bytes → Type 0
IsUnreachable kind code = (kind ≡ connection) ⊎ ((rest : Bytes) × (code ≡ codes "08" ++ rest))

starts_with_iff :
    (prefix text : Bytes)
    → (starts_with prefix text ≡ true) ↔ ((rest : Bytes) × (text ≡ prefix ++ rest))
unfolding starts_with
starts_with_iff [] text = (λ e. (text, refl), λ r. refl)
starts_with_iff (p ∷ prefix) [] = (λ e. absurd (cc e), λ r. let f = r.1 in absurd (cc f))
starts_with_iff (p ∷ prefix) (c ∷ text) =
    let later = starts_with_iff prefix text in
    (
      λ e.
          let r = later.0 (ground (arith, e)) in
          (r.0, ap₂ (λ z zs. z ∷ zs) (ground (arith, e)) r.1),
      λ r.
          let f = r.1 in
          let g : c ≡ p = cc f in let h = later.1 (r.0, cc f) in ground (arith, g, h),
    )

lost_by_code :
    (kind : DatabaseErrorKind) (code : Bytes)
    → ¬ (kind ≡ connection)
    → (starts_with (codes "08") code ≡ true) ↔ IsUnreachable kind code
lost_by_code kind code other =
    let by_code = starts_with_iff (codes "08") code in
    (λ e. inr (by_code.0 e), λ l. elim l [ inl e ↦ absurd (other e) | inr r ↦ by_code.1 r ])

pub lost_iff :
    (kind : DatabaseErrorKind) (code : Bytes)
    → (is_connection kind || starts_with (codes "08") code ≡ true) ↔ IsUnreachable kind code
unfolding is_connection
lost_iff connection code = (λ e. inl refl, λ e. refl)
lost_iff query code = lost_by_code query code (λ e. absurd (cc e))
lost_iff constraint code = lost_by_code constraint code (λ e. absurd (cc e))
lost_iff data_conversion code = lost_by_code data_conversion code (λ e. absurd (cc e))
