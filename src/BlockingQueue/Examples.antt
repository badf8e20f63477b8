-- ===== src/BlockingQueue/Examples.antt =====
-- A thread that sleeps on an empty queue, two values enqueued, and the first taken out by that thread.
use crocofix.Base.{ℕ, refl, [], ◌∷◌}
use crocofix.BlockingQueue.{BlockingQueue, notify_one, enqueue, wait, dequeue, take_back}
use crocofix.BlockingQueue.Fifo.{
  Runs, constructed, slept, enqueued, resumed, Next, Awake, Runs-Next,
}

abbrev empty_queue : BlockingQueue ℕ
empty_queue = record { queue = []; asleep = 0; woken = 0 }

abbrev one_left : BlockingQueue ℕ
one_left = record { queue = 2 ∷ []; asleep = 0; woken = 0 }

one_out : Runs (1 ∷ 2 ∷ []) (1 ∷ []) one_left
unfolding enqueue notify_one wait dequeue take_back
one_out =
    resumed {q = enqueue 2 (enqueue 1 (wait empty_queue))} 0 1 (record one_left { woken = 1 })
      (enqueued 2 (enqueued 1 (slept constructed refl))) refl refl

Runs-Next_example : Next (1 ∷ 2 ∷ []) (1 ∷ []) (dequeue one_left) × Awake one_left
Runs-Next_example = Runs-Next (1 ∷ 2 ∷ []) (1 ∷ []) one_left one_out
