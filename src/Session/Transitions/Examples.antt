-- ===== src/Session/Transitions/Examples.antt =====
-- The walk of an acceptor that a peer logs on to.
use crocofix.Session.State.{session}
use crocofix.Session.Handler.{run_calls}
use crocofix.Session.Examples.{env, calls}
use crocofix.Session.Transitions.Moves.{IsWalk}
use crocofix.Session.Transitions.{run_calls-IsWalk}

run_calls-IsWalk_example :
    IsWalk (run_calls env calls session).events (run_calls env calls session).state
run_calls-IsWalk_example = run_calls-IsWalk env calls
