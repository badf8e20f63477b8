-- ===== src/Scheduler.antt =====
-- libcrocofix/scheduler.cppm, libcrocofix/boost_asio_scheduler.cppm and libcrocofix/boost_asio_scheduler.cpp:
-- the table of timers and the handlers of `async_wait`. A callback is known by a number; the waits
-- that the io_context holds and what was posted to it stand beside the table.
pub mod Timers
mod Examples
use crocofix.Base.{
  ℕ, ◌+◌, ◌%◌, ◌^◌, Bool, true, false, ◌||◌, Option, none, some, List, [], ◌∷◌, ◌++◌, ◌==◌,
  if◌then◌else◌,
}
use crocofix.Base.Bytes.{text, to_string}
use crocofix.Base.Exec.{Error, Result, ok, err, runtime_error}

-- A pending `async_wait`: a timer that repeats has an interval.
pub record Wait : Type 0 where
  pub token : ℕ
  pub interval : Option ℕ
  pub callback : ℕ
  pub cancelled : Bool

pub record Scheduler : Type 0 where
  pub next_cancellation_token : ℕ
  pub timers : List ℕ
  pub waits : List Wait
  pub posted : List ℕ

abbrev pub scheduler : Scheduler
scheduler = record { next_cancellation_token = 0; timers = []; waits = []; posted = [] }

-- `m_timers.find`
unfoldable pub has : ℕ → List ℕ → Bool
has t [] = false
has t (u ∷ ts) = (u == t) || has t ts

-- `m_timers.erase`
unfoldable pub erase : ℕ → List ℕ → List ℕ
erase t [] = []
erase t (u ∷ ts) = let rest = erase t ts in if u == t then rest else u ∷ rest

unfoldable pub find_wait : ℕ → List Wait → Option Wait
find_wait t [] = none
find_wait t (w ∷ ws) = if w.token == t then some w else find_wait t ws

unfoldable pub drop_wait : ℕ → List Wait → List Wait
drop_wait t [] = []
drop_wait t (w ∷ ws) = let rest = drop_wait t ws in if w.token == t then rest else w ∷ rest

-- A timer has one wait, of which `timer.cancel()` makes an error.
unfoldable pub cancel_waits : ℕ → List Wait → List Wait
cancel_waits t [] = []
cancel_waits t (w ∷ ws) =
    let rest = cancel_waits t ws in
    (if w.token == t then record w { cancelled = true } else w) ∷ rest

abbrev pub u64_mod : ℕ
u64_mod = 2 ^ 64

abbrev pub wait_for : ℕ → Option ℕ → ℕ → Wait
wait_for t i c = record { token = t; interval = i; callback = c; cancelled = false }

-- `m_next_cancellation_token++`
abbrev pub next_token : Scheduler → Scheduler
next_token s = record s { next_cancellation_token = (s.next_cancellation_token + 1) % u64_mod }

abbrev not_inserted : ℕ → Error
not_inserted t =
    runtime_error (text "failed to insert timer with cancellation token " ++ to_string t)

abbrev pub with_timer : ℕ → Option ℕ → ℕ → Scheduler → Scheduler
with_timer t i c s = record s { timers = t ∷ s.timers; waits = s.waits ++ wait_for t i c ∷ [] }

-- What the two methods below share.
unfoldable pub add_timer : Option ℕ → ℕ → Scheduler → Result ℕ × Scheduler
unfolding has
add_timer i c s =
    let t = s.next_cancellation_token in
    if has t s.timers
    then (err (not_inserted t), next_token s)
    else (ok t, with_timer t i c (next_token s))

unfoldable pub schedule_relative_callback : ℕ → Scheduler → Result ℕ × Scheduler
unfolding add_timer
schedule_relative_callback c s = add_timer none c s

unfoldable pub schedule_repeating_callback : ℕ → ℕ → Scheduler → Result ℕ × Scheduler
unfolding add_timer
schedule_repeating_callback i c s = add_timer (some i) c s

unfoldable pub cancel_callback : ℕ → Scheduler → Scheduler
unfolding has cancel_waits
cancel_callback t s = if has t s.timers then record s { waits = cancel_waits t s.waits } else s

abbrev pub post : ℕ → Scheduler → Scheduler
post c s = record s { posted = s.posted ++ c ∷ [] }

abbrev pub erase_timer : ℕ → Scheduler → Scheduler
erase_timer t s = record s { timers = erase t s.timers }

-- The lambda of `schedule_relative_callback`. It holds `token` by reference, and the variable is gone when
-- it runs: `read` is the number that it finds there.
abbrev pub once_handler : Bool → ℕ → ℕ → Scheduler → Result (Unit {0}) × Scheduler
once_handler error read c s = (ok tt, erase_timer read (if error then s else post c s))

abbrev pub not_found : ℕ → Error
not_found t = runtime_error (text "unable to find timer with cancellation token " ++ to_string t)

unfoldable pub handler : Bool → ℕ → ℕ → ℕ → Scheduler → Result (Unit {0}) × Scheduler
unfolding has erase
handler true t i c s = (ok tt, erase_timer t s)
handler false t i c s =
    if has t s.timers
    then (ok tt, record (post c s) { waits = s.waits ++ wait_for t (some i) c ∷ [] })
    else (err (not_found t), post c s)

abbrev pub handled : Bool → ℕ → Wait → Option ℕ → Scheduler → Result (Unit {0}) × Scheduler
handled error read w none s = once_handler error read w.callback s
handled error read w (some i) s = handler error w.token i w.callback s

abbrev pub fire : Bool → ℕ → Scheduler → Option Wait → Result (Unit {0}) × Scheduler
fire error read s none = (ok tt, s)
fire error read s (some w) =
    handled error read w w.interval (record s { waits = drop_wait w.token s.waits })

-- The wait of the timer `t` completes, with an error or without.
unfoldable pub complete : ℕ → Bool → ℕ → Scheduler → Result (Unit {0}) × Scheduler
unfolding find_wait drop_wait handler erase
complete t error read s = fire error read s (find_wait t s.waits)
