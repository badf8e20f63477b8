-- ===== src/Scheduler/Timers.antt =====
-- The table of libcrocofix/boost_asio_scheduler.cpp holds a timer for each wait.
use crocofix.Base.{
  ℕ, ◌+◌, ◌<◌, ◌%◌, ◌≡◌, refl, ap, Bool, true, false, ◌||◌, Option, none, some, List, [], ◌∷◌, ◌++◌,
  ◌==◌, if◌then◌else◌, arith, All, All-append,
}
use crocofix.Base.Exec.{Result, ok}
use crocofix.Scheduler.{
  Wait, Scheduler, scheduler, has, erase, find_wait, drop_wait, cancel_waits, u64_mod, add_timer,
  schedule_relative_callback, schedule_repeating_callback, cancel_callback, handler, once_handler,
  handled, fire, complete, with_timer, next_token, erase_timer, wait_for,
}

-- The tokens given out are below the next one, and each wait has its timer.
pub record IsValid (s : Scheduler) : Type 0 where
  pub given : All (λ (t : ℕ). t < s.next_cancellation_token) s.timers
  pub backed : All (λ (w : Wait). has w.token s.timers ≡ true) s.waits

abbrev Backed : List ℕ → Wait → Type 0
Backed ts w = has w.token ts ≡ true

abbrev Given : ℕ → ℕ → Type 0
Given n t = t < n

fresh : (n : ℕ) (ts : List ℕ) → All (Given n) ts → has n ts ≡ false
unfolding has
fresh n [] h = refl
fresh n (t ∷ ts) h = ground (arith, h.0, fresh n ts h.1)

later : (n : ℕ) (ts : List ℕ) → All (Given n) ts → All (Given (n + 1)) ts
later n [] h = tt
later n (t ∷ ts) h = (omega (arith, h.0), later n ts h.1)

erase-Given : (n t : ℕ) (ts : List ℕ) → All (Given n) ts → All (Given n) (erase t ts)
unfolding erase
erase-Given n t [] h = tt
erase-Given n t (u ∷ ts) h = by_test (u == t) (erase-Given n t ts h.1)
  where
    by_test :
        (c : Bool)
        → All (Given n) (erase t ts)
        → All (Given n) (if c then erase t ts else u ∷ erase t ts)
    by_test true k = k
    by_test false k = (h.0, k)

has-erase : (u t : ℕ) (ts : List ℕ) → (u == t) ≡ false → has u ts ≡ true → has u (erase t ts) ≡ true
unfolding has erase
has-erase u t [] e h = h
has-erase u t (v ∷ ts) e h = by_rest (has u ts) refl (λ k. has-erase u t ts e k)
  where
    by_test :
        (c : Bool)
        → (v == t) ≡ c
        → ((v == u) || has u (erase t ts)) ≡ true
        → (c ≡ true → has u (erase t ts) ≡ true)
        → has u (if c then erase t ts else v ∷ erase t ts) ≡ true
    by_test true q k l = l refl
    by_test false q k l = k

    by_rest :
        (b : Bool)
        → has u ts ≡ b
        → (has u ts ≡ true → has u (erase t ts) ≡ true)
        → has u (if v == t then erase t ts else v ∷ erase t ts) ≡ true
    by_rest true q k = let l = k q in by_test (v == t) refl (ground (arith, l)) (λ c. l)
    by_rest false q k =
        by_test (v == t) refl (ground (arith, h, q)) (λ c. absurd (ground (arith, h, q, c, e)))

waits-erase :
    (t : ℕ) (ts : List ℕ) (ws : List Wait)
    → All (Backed ts) ws
    → All (Backed (erase t ts)) (drop_wait t ws)
unfolding drop_wait
waits-erase t ts [] h = tt
waits-erase t ts (w ∷ ws) h = by_test (w.token == t) refl (waits-erase t ts ws h.1)
  where
    by_test :
        (c : Bool)
        → (w.token == t) ≡ c
        → All (Backed (erase t ts)) (drop_wait t ws)
        → All (Backed (erase t ts)) (if c then drop_wait t ws else w ∷ drop_wait t ws)
    by_test true q k = k
    by_test false q k = (has-erase w.token t ts q h.0, k)

waits-drop :
    (t : ℕ) (ts : List ℕ) (ws : List Wait) → All (Backed ts) ws → All (Backed ts) (drop_wait t ws)
unfolding drop_wait
waits-drop t ts [] h = tt
waits-drop t ts (w ∷ ws) h = by_test (w.token == t) (waits-drop t ts ws h.1)
  where
    by_test :
        (c : Bool)
        → All (Backed ts) (drop_wait t ws)
        → All (Backed ts) (if c then drop_wait t ws else w ∷ drop_wait t ws)
    by_test true k = k
    by_test false k = (h.0, k)

waits-add : (t : ℕ) (ts : List ℕ) (ws : List Wait) → All (Backed ts) ws → All (Backed (t ∷ ts)) ws
unfolding has
waits-add t ts [] h = tt
waits-add t ts (w ∷ ws) h = (ground (arith, h.0), waits-add t ts ws h.1)

waits-cancel :
    (t : ℕ) (ts : List ℕ) (ws : List Wait)
    → All (Backed ts) ws
    → All (Backed ts) (cancel_waits t ws)
unfolding cancel_waits
waits-cancel t ts [] h = tt
waits-cancel t ts (w ∷ ws) h = (by_test (w.token == t), waits-cancel t ts ws h.1)
  where
    by_test : (c : Bool) → has (if c then record w { cancelled = true } else w).token ts ≡ true
    by_test true = h.0
    by_test false = h.0

-- The wait that is found has the token and its timer.
abbrev FoundBacked : ℕ → List ℕ → Option Wait → Type 0
FoundBacked t ts none = Unit
FoundBacked t ts (some w) = (w.token ≡ t) × Backed ts w

found-Backed :
    (t : ℕ) (ts : List ℕ) (ws : List Wait) → All (Backed ts) ws → FoundBacked t ts (find_wait t ws)
unfolding find_wait
found-Backed t ts [] h = tt
found-Backed t ts (w ∷ ws) h = by_test (w.token == t) refl (found-Backed t ts ws h.1)
  where
    by_test :
        (c : Bool)
        → (w.token == t) ≡ c
        → FoundBacked t ts (find_wait t ws)
        → FoundBacked t ts (if c then some w else find_wait t ws)
    by_test true q k = (ground (arith, q), h.0)
    by_test false q k = k

add_timer-inserts :
    (i : Option ℕ) (c : ℕ) (s : Scheduler)
    → IsValid s
    → add_timer i c s
      ≡ (ok s.next_cancellation_token, with_timer s.next_cancellation_token i c (next_token s))
unfolding add_timer
add_timer-inserts i c s h = rw (fresh s.next_cancellation_token s.timers h.given) refl

add_timer-IsValid :
    (i : Option ℕ) (c : ℕ) (s : Scheduler)
    → IsValid s
    → s.next_cancellation_token + 1 < u64_mod
    → IsValid (add_timer i c s).1
unfolding has
add_timer-IsValid i c s h k =
    rw (add_timer-inserts i c s h, no_wrap s.next_cancellation_token k)
      (record {
        given = (omega arith, later s.next_cancellation_token s.timers h.given);
        backed =
            All-append (Backed (s.next_cancellation_token ∷ s.timers)) s.waits
              (wait_for s.next_cancellation_token i c ∷ [])
              (waits-add s.next_cancellation_token s.timers s.waits h.backed) (ground arith, tt);
      })
  where
    no_wrap : (n : ℕ) → n + 1 < u64_mod → (n + 1) % u64_mod ≡ n + 1
    no_wrap n q = omega (arith, q)

-- The method returned, and left a valid table.
abbrev Fine : Result (Unit {0}) × Scheduler → Type 0
Fine x = (x.0 ≡ ok tt) × IsValid x.1

erased-Fine :
    (t : ℕ) (s : Scheduler) (p : List ℕ)
    → IsValid s
    → Fine (ok tt, erase_timer t (record s { waits = drop_wait t s.waits; posted = p }))
erased-Fine t s p h = (
  refl,
  record {
    given = erase-Given s.next_cancellation_token t s.timers h.given;
    backed = waits-erase t s.timers s.waits h.backed;
  },
)

complete-Fine : (t : ℕ) (error : Bool) (s : Scheduler) → IsValid s → Fine (complete t error t s)
unfolding complete handler
complete-Fine t error s h = by_wait (find_wait t s.waits) (found-Backed t s.timers s.waits h.backed)
  where
    repeats :
        (u i c : ℕ) (e : Bool)
        → Backed s.timers (wait_for u (some i) c)
        → Fine (handler e u i c (record s { waits = drop_wait u s.waits }))
    repeats u i c true b = erased-Fine u s s.posted h
    repeats u i c false b = rw b (
      refl,
      record {
        given = h.given;
        backed =
            All-append (Backed s.timers) (drop_wait u s.waits) (wait_for u (some i) c ∷ [])
              (waits-drop u s.timers s.waits h.backed) (b, tt);
      },
    )

    once : (c : ℕ) (e : Bool) → Fine (once_handler e t c (record s { waits = drop_wait t s.waits }))
    once c true = erased-Fine t s s.posted h
    once c false = erased-Fine t s (s.posted ++ c ∷ []) h

    by_kind :
        (w : Wait) (i : Option ℕ)
        → w.token ≡ t
        → Backed s.timers w
        → Fine (handled error t w i (record s { waits = drop_wait w.token s.waits }))
    by_kind w none q b = rw q (once w.callback error)
    by_kind w (some i) q b = repeats w.token i w.callback error b

    by_wait : (o : Option Wait) → FoundBacked t s.timers o → Fine (fire error t s o)
    by_wait none b = (refl, h)
    by_wait (some w) b = by_kind w w.interval b.0 b.1

-- The schedulers that a program comes to: timers added and cancelled and waits that complete, with an error
-- or without, in any order. The lambda of a single shot reads its own token; less than 2^64 tokens
-- are given out.
pub data Runs : Scheduler → Type 0 where
  constructed : Runs scheduler
  relative :
      {s : Scheduler} (c : ℕ)
      → Runs s
      → s.next_cancellation_token + 1 < u64_mod
      → Runs (schedule_relative_callback c s).1
  repeating :
      {s : Scheduler} (i c : ℕ)
      → Runs s
      → s.next_cancellation_token + 1 < u64_mod
      → Runs (schedule_repeating_callback i c s).1
  cancelled : {s : Scheduler} (t : ℕ) → Runs s → Runs (cancel_callback t s)
  completed : {s : Scheduler} (t : ℕ) (error : Bool) → Runs s → Runs (complete t error t s).1

cancel-IsValid : (t : ℕ) (s : Scheduler) → IsValid s → IsValid (cancel_callback t s)
unfolding cancel_callback
cancel-IsValid t s h = by_test (has t s.timers)
  where
    by_test : (c : Bool) → IsValid (if c then record s { waits = cancel_waits t s.waits } else s)
    by_test true = record { given = h.given; backed = waits-cancel t s.timers s.waits h.backed }
    by_test false = h

pub Runs-IsValid : (s : Scheduler) → Runs s → IsValid s
unfolding schedule_relative_callback schedule_repeating_callback
Runs-IsValid s constructed = record { given = tt; backed = tt }
Runs-IsValid s (relative {s = r} c h k) = add_timer-IsValid none c r (Runs-IsValid r h) k
Runs-IsValid s (repeating {s = r} i c h k) = add_timer-IsValid (some i) c r (Runs-IsValid r h) k
Runs-IsValid s (cancelled {s = r} t h) = cancel-IsValid t r (Runs-IsValid r h)
Runs-IsValid s (completed {s = r} t error h) = (complete-Fine t error r (Runs-IsValid r h)).1

-- In whatever order timers are added, cancelled and complete, none of the scheduler's exceptions is thrown:
-- a new timer is inserted under the next token, and the wait of a repeating timer finds it in the
-- table. This is where the lambda of a single shot erases its own timer, and tokens have not run out.
pub Runs-inserts :
    (s : Scheduler)
    → Runs s
    → ((i c : ℕ) → (schedule_repeating_callback i c s).0 ≡ ok s.next_cancellation_token)
      × ((c : ℕ) → (schedule_relative_callback c s).0 ≡ ok s.next_cancellation_token)
      × ((t : ℕ) (error : Bool) → (complete t error t s).0 ≡ ok tt)
unfolding schedule_relative_callback schedule_repeating_callback
Runs-inserts s h =
    let v = Runs-IsValid s h in
    (
      (λ i c. ap (λ (x : Result ℕ × Scheduler). x.0) (add_timer-inserts (some i) c s v)),
      (λ c. ap (λ (x : Result ℕ × Scheduler). x.0) (add_timer-inserts none c s v)),
      (λ t error. (complete-Fine t error s v).0),
    )
