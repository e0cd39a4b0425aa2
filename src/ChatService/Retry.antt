-- ===== src/ChatService/Retry.antt =====
-- Which attempt answers.
use cpp_backend_server.Base.{
  ℕ, zero, suc, ◌+◌, ◌≤◌, ◌<◌, ◌≡◌, ◌⊎◌, inl, inr, refl, true, false, ◌||◌, none, some, if_cases,
  codes, ◌↔◌, arith,
}
use cpp_backend_server.Router.{Uuid, starts_with}
use cpp_backend_server.ChatService.{
  NewTextMessageRequest, Saved, saved, database_error, other_exception, success, duplicate_request,
  permission_denied, conflict, Result, only, sent, duplicate, denied, conflicting, internal_error,
  database_unavailable, invalid_request, retry_later, is_invalid, is_connection, with_envelope,
  answer_of, is_transient, attempts, new_text_message,
}
use cpp_backend_server.ChatService.Guard.{IsValid, is_invalid→IsValid, is_invalid→invalid}
use cpp_backend_server.ChatService.Errors.{IsPassingError, retryable_iff, IsUnreachable, lost_iff}

before_one : (P : ℕ → Type 0) → P 0 → (j : ℕ) → j < 1 → P j
before_one P p zero h = p
before_one P p (suc j) h = absurd (omega (arith, h))

before_two : (P : ℕ → Type 0) → P 0 → P 1 → (j : ℕ) → j < 2 → P j
before_two P p q zero h = p
before_two P p q (suc zero) h = q
before_two P p q (suc (suc j)) h = absurd (omega (arith, h))

module _ {ℓ} {E : Type ℓ} where
  abbrev pub IsPassing : Saved E → Type 0
  IsPassing (saved s e) = ⊥
  IsPassing (database_error kind code name) = IsPassingError code name
  IsPassing other_exception = ⊥

  is_transient_iff : (s : Saved E) → (is_transient s ≡ true) ↔ IsPassing s
  unfolding is_transient
  is_transient_iff (saved s e) = (λ h. absurd (cc h), λ h. absurd h)
  is_transient_iff (database_error kind code name) = retryable_iff code name
  is_transient_iff other_exception = (λ h. absurd (cc h), λ h. absurd h)

  -- What the sender is told of an attempt that is not repeated.
  abbrev pub IsAnswer : Saved E → Result E → Type ℓ
  IsAnswer (saved success (some e)) r = r ≡ record { status = sent; envelope = some e }
  IsAnswer (saved duplicate_request (some e)) r =
      r ≡ record { status = duplicate; envelope = some e }
  IsAnswer (saved permission_denied o) r = r ≡ only denied
  IsAnswer (saved conflict o) r = r ≡ only conflicting
  IsAnswer (database_error kind code name) r =
      (IsUnreachable kind code × (r ≡ only database_unavailable))
      ⊎ (¬ IsUnreachable kind code × (r ≡ only internal_error))
  IsAnswer _ r = r ≡ only internal_error

  answer_of-IsAnswer : (s : Saved E) → IsAnswer s (answer_of s)
  unfolding answer_of with_envelope
  answer_of-IsAnswer (saved success none) = refl
  answer_of-IsAnswer (saved success (some e)) = refl
  answer_of-IsAnswer (saved duplicate_request none) = refl
  answer_of-IsAnswer (saved duplicate_request (some e)) = refl
  answer_of-IsAnswer (saved permission_denied o) = refl
  answer_of-IsAnswer (saved conflict o) = refl
  answer_of-IsAnswer (database_error kind code name) =
      if_cases (IsAnswer (database_error kind code name))
        (is_connection kind || starts_with (codes "08") code) (only database_unavailable)
        (only internal_error) (λ e. inl ((lost_iff kind code).0 e, refl))
        (λ e. inr (λ l. absurd (cc (e, (lost_iff kind code).1 l)), refl))
  answer_of-IsAnswer other_exception = refl

  -- The attempts before the last one fail in passing, and the last one answers, or is the third and
  -- fails in passing too.
  abbrev pub IsAnswered : (ℕ → Saved E) → ℕ × Result E → Type ℓ
  IsAnswered save (n, r) =
      (k : ℕ) × (n ≡ k + 1)
      × (k ≤ 2)
      × ((j : ℕ) → j < k → IsPassing (save j))
      × ((¬ IsPassing (save k) × IsAnswer (save k) r)
          ⊎ (IsPassing (save k) × (k ≡ 2) × (r ≡ only retry_later)))

  passes : (save : ℕ → Saved E) (k : ℕ) → is_transient (save k) ≡ true → IsPassing (save k)
  passes save k e = (is_transient_iff (save k)).0 e

  settled :
      (save : ℕ → Saved E) (k : ℕ)
      → k ≤ 2
      → ((j : ℕ) → j < k → IsPassing (save j))
      → is_transient (save k) ≡ false
      → IsAnswered save (k + 1, answer_of (save k))
  settled save k few before e = (
    k,
    refl,
    few,
    before,
    inl (λ p. absurd (cc (e, (is_transient_iff (save k)).1 p)), answer_of-IsAnswer (save k)),
  )

  attempts-IsAnswered : (save : ℕ → Saved E) → IsAnswered save (attempts 3 0 save)
  unfolding attempts
  attempts-IsAnswered save =
      if_cases (IsAnswered save) (is_transient (save 0)) _ (1, answer_of (save 0))
        (λ a.
          if_cases (IsAnswered save) (is_transient (save 1)) _ (2, answer_of (save 1))
            (λ b.
              let before =
                before_two (λ j. IsPassing (save j)) (passes save 0 a) (passes save 1 b) in
              if_cases (IsAnswered save) (is_transient (save 2)) (3, only retry_later)
                (3, answer_of (save 2))
                (λ c. (2, refl, omega arith, before, inr (passes save 2 c, refl, refl)))
                (λ c. settled save 2 (omega arith) before c))
            (λ b.
              settled save 1 (omega arith) (before_one (λ j. IsPassing (save j)) (passes save 0 a))
                b))
        (λ a. settled save 0 (omega arith) (λ j h. absurd (omega (arith, h))) a)

  -- What comes of a message: a valid one is answered by its attempts, an invalid one without any.
  abbrev pub IsDealtWith :
      Uuid → Uuid → NewTextMessageRequest → (ℕ → Saved E) → ℕ × Result E → Type ℓ
  IsDealtWith user sender request save out =
      (IsValid user sender request × IsAnswered save out)
      ⊎ (¬ IsValid user sender request × (out ≡ (0, only invalid_request)))

  -- A valid message is stored by one to three attempts. Each before the last one has failed with a
  -- serialization failure, a deadlock or a collision of envelope keys. If the last one has not, the
  -- answer is what belongs to its status or its error; if it has, it is the third and the answer is
  -- `RetryLater`. An invalid message is refused without an attempt.
  pub new_text_message-IsDealtWith :
      (user sender : Uuid) (request : NewTextMessageRequest) (save : ℕ → Saved E)
      → IsDealtWith user sender request save (new_text_message user sender request save)
  unfolding new_text_message
  new_text_message-IsDealtWith user sender request save =
      if_cases (IsDealtWith user sender request save) (is_invalid user sender request)
        (0, only invalid_request) (attempts 3 0 save)
        (λ e. inr (is_invalid→invalid user sender request e, refl))
        (λ e. inl (is_invalid→IsValid user sender request e, attempts-IsAnswered save))
