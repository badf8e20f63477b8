-- ===== src/Scheduler/Examples.antt =====
-- A repeating timer and a single shot whose lambda reads the wrong token.
use crocofix.Base.{ℕ, ◌≡◌, refl, Bool, false, arith}
use crocofix.Base.Exec.{ok, err}
use crocofix.Scheduler.{
  Scheduler, scheduler, schedule_relative_callback, schedule_repeating_callback, complete,
  add_timer, has, erase, find_wait, drop_wait, handler, not_found,
}
use crocofix.Scheduler.Timers.{Runs, constructed, repeating, relative, Runs-inserts}

abbrev both : Scheduler
both = (schedule_relative_callback 8 (schedule_repeating_callback 1000 7 scheduler).1).1

both-Runs : Runs both
unfolding schedule_repeating_callback add_timer has
both-Runs = relative 8 (repeating 1000 7 constructed (omega arith)) (omega arith)

Runs-inserts_example :
    ((i c : ℕ) → (schedule_repeating_callback i c both).0 ≡ ok both.next_cancellation_token)
    × ((c : ℕ) → (schedule_relative_callback c both).0 ≡ ok both.next_cancellation_token)
    × ((t : ℕ) (error : Bool) → (complete t error t both).0 ≡ ok tt)
Runs-inserts_example = Runs-inserts both both-Runs

-- If the memory that it reads holds 0, the single shot erases the repeating timer, whose next round throws.
dangling : (complete 0 false 0 (complete 1 false 0 both).1).0 ≡ err (not_found 0)
unfolding complete find_wait drop_wait handler erase has add_timer schedule_relative_callback
    schedule_repeating_callback
dangling = refl
