-- ===== src/BlockingQueue.antt =====
-- libcrocofixutility/blocking_queue.cppm: the queue between threads. Its mutex makes a method one step, up to
-- where it waits: a thread that waits sleeps until it is woken, and takes its next step then.
pub mod Fifo
mod Examples
use crocofix.Base.{ℕ, zero, suc, ◌+◌, Bool, true, false, Option, none, some, List, [], ◌∷◌, ◌++◌}

-- `push_front` puts a value at the head of the list, `back` is the last. Of `m_condition` there are the number of
-- threads that sleep in `wait` or `wait_for`, and of those that were woken and have not run since.
pub record BlockingQueue {ℓ} (A : Type ℓ) : Type ℓ where
  pub queue : List A
  pub asleep : ℕ
  pub woken : ℕ

abbrev pub behind {ℓ} : {A : Type ℓ} → A → Option (A × List A) → Option (A × List A)
behind x none = none
behind x (some (v, xs)) = some (v, x ∷ xs)

-- `back` and `pop_back`, where the predicate of the wait holds.
unfoldable pub take_back {ℓ} : {A : Type ℓ} → List A → Option (A × List A)
take_back [] = none
take_back (x ∷ []) = some (x, [])
take_back (x ∷ y ∷ xs) = behind x (take_back (y ∷ xs))

module _ {ℓ} {A : Type ℓ} where
  abbrev pub woken_of : ℕ → BlockingQueue A → BlockingQueue A
  woken_of zero q = q
  woken_of (suc n) q = record q { asleep = n; woken = q.woken + 1 }

  -- `m_condition.notify_one()`: one of the threads that sleep, if there is one, is woken.
  unfoldable pub notify_one : BlockingQueue A → BlockingQueue A
  notify_one q = woken_of q.asleep q

  unfoldable pub enqueue : A → BlockingQueue A → BlockingQueue A
  unfolding notify_one
  enqueue v q = notify_one (record q { queue = v ∷ q.queue })

  -- The predicate did not hold: the thread goes to sleep.
  unfoldable pub wait : BlockingQueue A → BlockingQueue A
  wait q = record q { asleep = q.asleep + 1 }

  abbrev pub taken : BlockingQueue A → Option (A × List A) → Option (A × BlockingQueue A)
  taken q none = none
  taken q (some (v, xs)) = some (v, record q { queue = xs })

  -- `none` where it has to wait.
  unfoldable pub dequeue : BlockingQueue A → Option (A × BlockingQueue A)
  unfolding take_back
  dequeue q = taken q (take_back q.queue)

  abbrev pub tried : A → BlockingQueue A → Option (A × BlockingQueue A) → Bool × A × BlockingQueue A
  tried value q none = (false, value, q)
  tried value q (some (v, p)) = (true, v, p)

  -- `try_dequeue` when its wait ends: the result, the variable and the queue.
  unfoldable pub try_dequeue : A → BlockingQueue A → Bool × A × BlockingQueue A
  unfolding dequeue
  try_dequeue value q = tried value q (dequeue q)
