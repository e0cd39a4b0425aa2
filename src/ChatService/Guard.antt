-- ===== src/ChatService/Guard.antt =====
-- What the guard of `newTextMessage` lets through.
use cpp_backend_server.Base.{
  ℕ, ◌≤◌, ◌≡◌, ◌≢◌, ◌⊎◌, inl, inr, refl, true, false, [], ◌∷◌, length, ◌==◌, Bytes, All, arith,
  Bool-cases,
}
use cpp_backend_server.Router.{Uuid}
use cpp_backend_server.ChatService.{
  NewTextMessageRequest, is_space, all_spaces, is_empty, is_invalid,
}

-- The white space that the guard knows.
abbrev pub IsSpace : ℕ → Type 0
IsSpace b = (b ≡ 32) ⊎ (b ≡ 9) ⊎ (b ≡ 13) ⊎ (b ≡ 10)

-- What the sender, the device and the message must be.
abbrev pub IsValid : Uuid → Uuid → NewTextMessageRequest → Type 0
IsValid user sender r =
    (user ≢ 0)
    × (sender ≢ 0)
    × (r.message_id ≢ 0)
    × (r.recipient_device_id ≢ 0)
    × (sender ≢ r.recipient_device_id)
    × (1 ≤ length r.packet)
    × (length r.packet ≤ 65536)
    × (length r.protocol_version ≤ 128)
    × ¬ (All IsSpace r.protocol_version)

only_spaces→All : (bs : Bytes) → all_spaces bs ≡ true → All IsSpace bs
unfolding all_spaces is_space
only_spaces→All [] e = tt
only_spaces→All (b ∷ bs) e = (ground (arith, e), only_spaces→All bs (ground (arith, e)))

All→only_spaces : (bs : Bytes) → All IsSpace bs → all_spaces bs ≡ true
unfolding all_spaces is_space
All→only_spaces [] e = refl
All→only_spaces (b ∷ bs) (e, f) = ground (arith, e, All→only_spaces bs f)

is_empty-length : (bs : Bytes) → is_empty bs ≡ (length bs == 0)
unfolding is_empty
is_empty-length [] = refl
is_empty-length (b ∷ bs) = ground arith

pub is_invalid→IsValid :
    (user sender : Uuid) (r : NewTextMessageRequest)
    → is_invalid user sender r ≡ false
    → IsValid user sender r
unfolding is_invalid
is_invalid→IsValid user sender r e =
    let f = is_empty-length r.packet in
    (
      (λ z. ground (arith, e, z)),
      (λ z. ground (arith, e, z)),
      (λ z. ground (arith, e, z)),
      (λ z. ground (arith, e, z)),
      (λ z. ground (arith, e, z)),
      ground (arith, e, f),
      ground (arith, e),
      ground (arith, e),
      (λ z. let g = All→only_spaces r.protocol_version z in ground (arith, e, g)),
    )

pub is_invalid→invalid :
    (user sender : Uuid) (r : NewTextMessageRequest)
    → is_invalid user sender r ≡ true
    → ¬ IsValid user sender r
unfolding is_invalid
is_invalid→invalid user sender r e (u, s, m, d, n, p, q, v, t) =
    let f = is_empty-length r.packet in
    let g : all_spaces r.protocol_version ≡ false =
      elim (Bool-cases (all_spaces r.protocol_version)) [
        | inl h ↦ absurd (t (only_spaces→All r.protocol_version h))
        | inr h ↦ h
      ] in
    ground (arith, e, f, g, u, s, m, d, n, p, q, v)
