-- ===== src/WebSocketWorker/Mailbox/Awake.antt =====
-- Nothing that is handed to a worker is lost, left lying or taken out of order.
use cpp_backend_server.Base.{
  ◌<◌, ◌≡◌, ◌≢◌, refl, sym, ap, ◌∙◌, true, List, [], ◌∷◌, ◌++◌, append_assoc, append-nil, ◌⊎◌, inl,
  inr, arith,
}
use cpp_backend_server.WebSocketWorker.Mailbox.{
  Mailbox, new_mailbox, Written, written, write_would_block, write_failed, CountRead, count_read,
  count_interrupted, count_would_block, count_failed, push, signal, signal_with, receive, take_all,
}

-- The steps of the threads and the worker, in any order: what was handed over and what was taken so
-- far, and the mailbox. A write to an eventfd blocks only while its count is not zero.
pub data Play {ℓ} (A : Type ℓ) : List A → List A → Mailbox A → Type ℓ where
  starts : Play A [] [] new_mailbox
  pushes :
      (handed taken : List A) (b : Mailbox A) (a : A)
      → Play A handed taken b
      → Play A (handed ++ a ∷ []) taken (push a b)
  signals :
      (handed taken : List A) (b : Mailbox A) (result : Written)
      → Play A handed taken b
      → 0 < b.writers
      → (result ≡ write_would_block → b.signalled ≡ true)
      → result ≢ write_failed
      → Play A handed taken (signal result b)
  receives :
      (handed taken : List A) (b : Mailbox A) (results : List CountRead)
      → Play A handed taken b
      → Play A handed taken (receive results b)
  takes :
      (handed taken : List A) (b : Mailbox A)
      → Play A handed taken b
      → b.draining ≡ true
      → Play A handed (taken ++ (take_all b).0) (take_all b).1

-- The queue is empty, or the eventfd wakes the worker, or a thread is about to write to it, or the
-- worker is about to take the queue.
abbrev pub IsAwake {ℓ} : {A : Type ℓ} → Mailbox A → Type ℓ
IsAwake b = (b.queue ≡ []) ⊎ ((b.signalled ≡ true) ⊎ ((0 < b.writers) ⊎ (b.draining ≡ true)))

signal-IsAwake {ℓ} :
    {A : Type ℓ} (result : Written) (b : Mailbox A)
    → (result ≡ write_would_block → b.signalled ≡ true)
    → result ≢ write_failed
    → IsAwake (signal result b)
unfolding signal signal_with
signal-IsAwake written b full fine = inr (inl refl)
signal-IsAwake write_would_block b full fine = inr (inl (full refl))
signal-IsAwake write_failed b full fine = absurd (fine refl)

receive-IsAwake {ℓ} :
    {A : Type ℓ} (results : List CountRead) (b : Mailbox A)
    → IsAwake b
    → IsAwake (receive results b)
unfolding receive
receive-IsAwake [] b h = h
receive-IsAwake (count_read ∷ rest) b h = inr (inr (inr refl))
receive-IsAwake (count_interrupted ∷ rest) b h = receive-IsAwake rest b h
receive-IsAwake (count_would_block ∷ rest) b h = inr (inr (inr refl))
receive-IsAwake (count_failed ∷ rest) b h = h

play-IsAwake {ℓ} :
    {A : Type ℓ} (handed taken : List A) (b : Mailbox A) → Play A handed taken b → IsAwake b
unfolding new_mailbox push take_all
play-IsAwake _ _ _ starts = inl refl
play-IsAwake _ _ _ (pushes handed taken b a p) = inr (inr (inl (omega arith)))
play-IsAwake _ _ _ (signals handed taken b result p some_ full fine) =
    signal-IsAwake result b full fine
play-IsAwake _ _ _ (receives handed taken b results p) =
    receive-IsAwake results b (play-IsAwake handed taken b p)
play-IsAwake _ _ _ (takes handed taken b p d) = inl refl

signal-queue {ℓ} :
    {A : Type ℓ} (result : Written) (b : Mailbox A) → (signal result b).queue ≡ b.queue
unfolding signal signal_with
signal-queue written b = refl
signal-queue write_would_block b = refl
signal-queue write_failed b = refl

receive-queue {ℓ} :
    {A : Type ℓ} (results : List CountRead) (b : Mailbox A) → (receive results b).queue ≡ b.queue
unfolding receive
receive-queue [] b = refl
receive-queue (count_read ∷ rest) b = refl
receive-queue (count_interrupted ∷ rest) b = receive-queue rest b
receive-queue (count_would_block ∷ rest) b = refl
receive-queue (count_failed ∷ rest) b = refl

play-queue {ℓ} :
    {A : Type ℓ} (handed taken : List A) (b : Mailbox A)
    → Play A handed taken b
    → taken ++ b.queue ≡ handed
unfolding new_mailbox push take_all
play-queue _ _ _ starts = refl
play-queue _ _ _ (pushes handed taken b a p) =
    sym (append_assoc taken b.queue (a ∷ [])) ∙ ap (λ t. t ++ a ∷ []) (play-queue handed taken b p)
play-queue _ _ _ (signals handed taken b result p some_ full fine) =
    ap (λ t. taken ++ t) (signal-queue result b) ∙ play-queue handed taken b p
play-queue _ _ _ (receives handed taken b results p) =
    ap (λ t. taken ++ t) (receive-queue results b) ∙ play-queue handed taken b p
play-queue _ _ _ (takes handed taken b p d) =
    append-nil (taken ++ b.queue) ∙ play-queue handed taken b p

-- However the threads and the worker interleave, as long as no write to the eventfd fails: what the
-- worker has taken, followed by what is queued, is what was handed over, in its order; and when the
-- queue is not empty, the eventfd wakes the worker, or a thread is about to write to it, or the
-- worker is about to take the queue.
pub Play-IsAwake :
    {A : Type 0} (handed taken : List A) (b : Mailbox A)
    → Play A handed taken b
    → (taken ++ b.queue ≡ handed) × IsAwake b
Play-IsAwake handed taken b p = (play-queue handed taken b p, play-IsAwake handed taken b p)
