-- ===== src/ServiceThreadPool/Drain.antt =====
-- No accepted task is lost, and a stopping pool runs all of them.
use cpp_backend_server.Base.{
  ℕ, ◌≡◌, refl, sym, ap, ◌∙◌, List, [], ◌∷◌, ◌++◌, append_assoc, append-nil, if_cases,
}
use cpp_backend_server.ServiceThreadPool.{
  ServiceThreadPool, new_pool, init, Received, rejected, accepted, receive_task, Woken, waits,
  returns, runs, wake_with, wake, request_stop, joined,
}

-- The pool with the tasks that it accepted and those that threads took, each in their order.
pub record Log {ℓ} (T : Type ℓ) : Type ℓ where
  pub pool : ServiceThreadPool T
  pub given : List T
  pub taken : List T

pub data Event {ℓ} (T : Type ℓ) : Type ℓ where
  starts stops joins wakes : Event T
  receives : T → Event T

module _ {ℓ} {T : Type ℓ} where
  unfoldable pub after_receive : Log T → T → Received T → Log T
  after_receive l task rejected = l
  after_receive l task (accepted p) = record l { pool = p; given = l.given ++ task ∷ [] }

  unfoldable pub after_wake : Log T → Woken T → Log T
  after_wake l waits = l
  after_wake l returns = l
  after_wake l (runs task p) = record l { pool = p; taken = l.taken ++ task ∷ [] }

  unfoldable pub happen : Event T → Log T → Log T
  happen starts l = record l { pool = init l.pool }
  happen stops l = record l { pool = request_stop l.pool }
  happen joins l = record l { pool = joined l.pool }
  happen wakes l = after_wake l (wake l.pool)
  happen (receives task) l = after_receive l task (receive_task l.pool task)

  unfoldable pub play : List (Event T) → Log T → Log T
  play [] l = l
  play (e ∷ es) l = play es (happen e l)

  abbrev IsKept : Log T → Type ℓ
  IsKept l = l.taken ++ l.pool.tasks ≡ l.given

  init-tasks : (p : ServiceThreadPool T) → (init p).tasks ≡ p.tasks
  unfolding init
  init-tasks p =
      if_cases (λ (q : ServiceThreadPool T). q.tasks ≡ p.tasks) _ p _ (λ e. refl) (λ e. refl)

  receive-IsKept :
      (l : Log T) (task : T) → IsKept l → IsKept (after_receive l task (receive_task l.pool task))
  unfolding after_receive receive_task
  receive-IsKept l task h =
      if_cases (λ (r : Received T). IsKept (after_receive l task r)) l.pool.stop rejected
        (accepted (record l.pool { tasks = l.pool.tasks ++ task ∷ [] })) (λ e. h)
        (λ e. sym (append_assoc l.taken l.pool.tasks (task ∷ [])) ∙ ap (λ t. t ++ task ∷ []) h)

  wake-IsKept :
      (l : Log T) (tasks : List T)
      → l.taken ++ tasks ≡ l.given
      → l.pool.tasks ≡ tasks
      → IsKept (after_wake l (wake_with l.pool tasks))
  unfolding after_wake wake_with
  wake-IsKept l [] h e =
      if_cases (λ (w : Woken T). IsKept (after_wake l w)) l.pool.stop returns waits
        (λ z. ap (λ t. l.taken ++ t) e ∙ h) (λ z. ap (λ t. l.taken ++ t) e ∙ h)
  wake-IsKept l (task ∷ rest) h e = append_assoc l.taken (task ∷ []) rest ∙ h

  happen-IsKept : (e : Event T) (l : Log T) → IsKept l → IsKept (happen e l)
  unfolding happen wake request_stop joined
  happen-IsKept starts l h = ap (λ t. l.taken ++ t) (init-tasks l.pool) ∙ h
  happen-IsKept stops l h = h
  happen-IsKept joins l h = h
  happen-IsKept wakes l h = wake-IsKept l l.pool.tasks h refl
  happen-IsKept (receives task) l h = receive-IsKept l task h

  play-IsKept : (es : List (Event T)) (l : Log T) → IsKept l → IsKept (play es l)
  unfolding play
  play-IsKept [] l h = h
  play-IsKept (e ∷ es) l h = play-IsKept es (happen e l) (happen-IsKept e l h)

  abbrev pub fresh : ℕ → Log T
  fresh count = record { pool = new_pool count; given = []; taken = [] }

  -- Whatever calls and threads come in whatever order, the tasks that threads took followed by
  -- those in the queue are the tasks that the pool accepted, in the order of their acceptance: no
  -- task is lost, run twice or overtaken.
  pub play-Kept :
      (count : ℕ) (es : List (Event T))
      → (play es (fresh count)).taken ++ (play es (fresh count)).pool.tasks
        ≡ (play es (fresh count)).given
  play-Kept count es = play-IsKept es (fresh count) refl

  returns-empty :
      (p : ServiceThreadPool T) (tasks : List T) → wake_with p tasks ≡ returns → tasks ≡ []
  unfolding wake_with
  returns-empty p [] e = refl
  returns-empty p (task ∷ rest) e = cc e

  -- A thread of the pool returns only when every task that was accepted has been taken.
  pub wake-drained :
      (count : ℕ) (es : List (Event T))
      → wake (play es (fresh count)).pool ≡ returns
      → (play es (fresh count)).taken ≡ (play es (fresh count)).given
  unfolding wake
  wake-drained count es e =
      let l = play es (fresh count) in
      sym (append-nil l.taken)
      ∙ ap (λ t. l.taken ++ t) (sym (returns-empty l.pool l.pool.tasks e))
      ∙ play-Kept count es
