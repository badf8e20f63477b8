-- ===== src/Session/Transitions.antt =====
-- The state machine of libcrocofix/session_state.cppm, as `session::state` announces its changes.
mod Moves
mod Steps
mod Handlers
mod Examples
use crocofix.Base.{refl, arith, List, [], ◌∷◌}
use crocofix.Base.Exec.Keeps.{Does, does_rules}
use crocofix.Session.State.{Session, Env, Setting, configure, ensure_options_are_mutable, session}
use crocofix.Session.Steps.{
  Primitives, open_session-Does, close-Does, enter_disconnected-Does, defibrillate-Does,
  test_request_due-Does,
}
use crocofix.Session.Handler.{
  opens, closes, hang_up, heartbeat_due, test_request_timeout, reads, sends, set_numbers,
  configures, Call, run_call, run_calls,
}
use crocofix.Session.Transitions.Moves.{IsWalk, Walks, Walks-Composes}
use crocofix.Session.Transitions.Steps.{Walks-Primitives, update-Walks}
use crocofix.Session.Transitions.Handlers.{on_message_read-Walks}

module _ (env : Env) where
  abbrev p : Primitives env Walks
  p = Walks-Primitives env

  mutable-Walks : Does Walks ensure_options_are_mutable
  unfolding ensure_options_are_mutable
  mutable-Walks = record { at = λ s. record { at = λ w. ground arith } }

  configure-Walks : (x : Setting) → Does Walks (configure x)
  unfolding configure
  configure-Walks x = search (does_rules, p.composes, mutable-Walks, update-Walks) depth 8

  run_call-Walks : (c : Call) → Does Walks (run_call env c)
  unfolding run_call
  run_call-Walks opens = open_session-Does env p
  run_call-Walks closes = close-Does env p
  run_call-Walks hang_up = enter_disconnected-Does env p
  run_call-Walks heartbeat_due = defibrillate-Does env p
  run_call-Walks test_request_timeout = test_request_due-Does env p
  run_call-Walks (reads m) = on_message_read-Walks env m
  run_call-Walks (sends m options) = search (does_rules, p.composes, p.sends)
  run_call-Walks (set_numbers a b) =
      search (does_rules, p.composes, p.set_incomings, p.set_outgoings)
  run_call-Walks (configures x) = configure-Walks x

  runs-Walks : (cs : List Call) (s : Session) → Walks s (run_calls env cs s)
  unfolding run_calls
  runs-Walks [] s = Walks-Composes.stay s
  runs-Walks (c ∷ cs) s =
      Walks-Composes.join s (run_call env c s).1 _ ((run_call-Walks c).at s)
        (runs-Walks cs (run_call env c s).1)

-- Whatever calls a new session gets, messages read, timers and settings included: the changes of its
-- state that it announced are a walk through the state machine, from `connected` to the state that it
-- is in. Each one starts where the one before ended and ends somewhere else; the session logs on only
-- from `logging_on`, `resetting` or `resending`, enters `logging_on` only from `connected`, and comes
-- back to `connected` only from `logged_on`.
pub run_calls-IsWalk :
    (env : Env) (cs : List Call)
    → IsWalk (run_calls env cs session).events (run_calls env cs session).state
unfolding session IsWalk
run_calls-IsWalk env cs = (runs-Walks env cs session).at refl
