-- ===== src/Session/Transitions/Steps.antt =====
-- The primitive methods of a session as steps of a walk through the state machine.
use crocofix.Base.{ℕ, ◌≡◌, refl, Bool, true, false, Option, none, some, ◌++◌, arith, if◌then◌else◌}
use crocofix.Base.Exec.{pure, throw, logic_error, ◌>>=◌, ◌>>◌}
use crocofix.Base.Bytes.{text}
use crocofix.Base.Exec.Keeps.{Does, does_rules, Does-if, Does-pure}
use crocofix.Message.{Message}
use crocofix.Session.State.{
  Session, Method, Env, cancel, is_initiator, state_name, SessionState, disconnected, connected,
  logging_on, resending, logged_on, resetting, is_state, emit, set_state, set_incoming,
  set_outgoing, set_heartbeat_interval, set_resent, update, allocate_test_request_id,
  allocate_outgoing_msg_seq_num,
}
use crocofix.Session.Validate.{extend_target}
use crocofix.Session.Steps.{Primitives, is_open_to_all}
use crocofix.Session.Send.{is_reset, restart, number_for, write, send}
use crocofix.Session.Replies.{
  cancel_and, clear_heartbeat_timer, clear_test_request_timer, set_heartbeat_token,
  set_test_request_token, expect_test_request, note_recovery, stop_defibrillator, send_logon, logon,
  leave_logged_on, leave_if_logged_on,
}
use crocofix.Session.Transitions.Moves.{
  Move, begins, leaves, recovers, resets, drops, Walks, Walks-Composes, same, emit-Walks,
  set_state-Walks,
}

free-Move : (a x : SessionState) → is_open_to_all x ≡ true → Move a x
free-Move a disconnected h = drops
free-Move a resending h = recovers
free-Move a resetting h = resets
free-Move a connected h = cc
free-Move a logging_on h = cc
free-Move a logged_on h = cc

enter-Walks : (x : SessionState) → is_open_to_all x ≡ true → Does Walks (set_state x)
enter-Walks x h = record { at = λ s. set_state-Walks x s (free-Move s.state x h) }

-- A guard on the state decides which move it is.
pub from_connected : (a : SessionState) → is_state a connected ≡ true → Move a logging_on
from_connected connected h = begins
from_connected disconnected h = cc
from_connected logging_on h = cc
from_connected resending h = cc
from_connected logged_on h = cc
from_connected resetting h = cc

from_logged_on : (a : SessionState) → is_state a logged_on ≡ true → Move a connected
from_logged_on logged_on h = leaves
from_logged_on connected h = cc
from_logged_on disconnected h = cc
from_logged_on logging_on h = cc
from_logged_on resending h = cc
from_logged_on resetting h = cc

set_incoming-Walks : (n : ℕ) → Does Walks (set_incoming n)
unfolding set_incoming
set_incoming-Walks n = record { at = λ s. same s _ refl refl }

set_outgoing-Walks : (n : ℕ) → Does Walks (set_outgoing n)
unfolding set_outgoing
set_outgoing-Walks n = record { at = λ s. same s _ refl refl }

set_heartbeat_interval-Walks : (n : ℕ) → Does Walks (set_heartbeat_interval n)
unfolding set_heartbeat_interval
set_heartbeat_interval-Walks n = record { at = λ s. same s _ refl refl }

set_resent-Walks : (n : ℕ) → Does Walks (set_resent n)
unfolding set_resent
set_resent-Walks n = record { at = λ s. same s _ refl refl }

allocate_test_request_id-Walks : Does Walks allocate_test_request_id
unfolding allocate_test_request_id
allocate_test_request_id-Walks = record { at = λ s. same s _ refl refl }

allocate_outgoing_msg_seq_num-Walks : Does Walks allocate_outgoing_msg_seq_num
unfolding allocate_outgoing_msg_seq_num
allocate_outgoing_msg_seq_num-Walks = record { at = λ s. same s _ refl refl }

-- A change that leaves the events and the state alone.
pub update-Walks :
    (f : Session → Session)
    → ((s : Session) → (f s).events ≡ s.events)
    → ((s : Session) → (f s).state ≡ s.state)
    → Does Walks (update f)
unfolding update
update-Walks f e h = record { at = λ s. same s (f s) (e s) (h s) }

ruleset walk_steps = (
  does_rules, Walks-Composes, emit-Walks, enter-Walks, set_incoming-Walks, set_outgoing-Walks,
  set_heartbeat_interval-Walks, allocate_test_request_id-Walks, allocate_outgoing_msg_seq_num-Walks,
)

write-Walks :
    (env : Env) (options number : ℕ) (m : Message) → Does Walks (write env options number m)
unfolding write
write-Walks env options number m = search walk_steps

restart-Walks : Does Walks restart
unfolding restart
restart-Walks = search walk_steps

is_reset-Walks : (m : Message) → Does Walks (is_reset m)
unfolding is_reset
is_reset-Walks m = search walk_steps

number_for-Walks : (options : ℕ) → Does Walks (number_for options)
unfolding number_for
number_for-Walks options = search walk_steps

send-Walks : (env : Env) (m : Message) (options : ℕ) → Does Walks (send env m options)
unfolding send
send-Walks env m options =
    search (walk_steps, is_reset-Walks, restart-Walks, number_for-Walks, write-Walks)

logon-Walks : (env : Env) → Does Walks (send_logon env false) → Does Walks (logon env)
unfolding logon set_state ◌>>=◌
logon-Walks env d = record { at = λ s. by_test s (is_state s.state connected) refl }
  where
    rest : Session → Method Unit
    rest s = if is_initiator s.options.logon_behaviour then send_logon env false else pure tt

    by_test :
        (s : Session) (b : Bool)
        → is_state s.state connected ≡ b
        → Walks s
            (((if b
                  then pure tt
                  else throw (
                      logic_error (
                        text "logon cannot be initiated in the current state "
                        ++ state_name s.state)))
                >> (set_state logging_on >> rest s))
              s).1
    by_test s true e =
        Walks-Composes.join s (set_state logging_on s).1 _
          (set_state-Walks logging_on s (from_connected s.state e))
          ((Does-if (is_initiator s.options.logon_behaviour) _ _ d (Does-pure Walks-Composes tt)).at
            _)
    by_test s false e = Walks-Composes.stay s

leave_logged_on-Walks :
    (s : Session) → is_state s.state logged_on ≡ true → Walks s (leave_logged_on s).1
unfolding leave_logged_on stop_defibrillator clear_heartbeat_timer emit update set_state ◌>>=◌
leave_logged_on-Walks s e = by_token s.heartbeat_timer_token
  where
    by_token :
        (o : Option ℕ) → Walks s ((cancel_and clear_heartbeat_timer o >> set_state connected) s).1
    by_token none = set_state-Walks connected s (from_logged_on s.state e)
    by_token (some t) =
        Walks-Composes.join s (emit (cancel t) s).1 _ ((emit-Walks (cancel t) refl).at s) (
          Walks-Composes.join _ (clear_heartbeat_timer (emit (cancel t) s).1).1 _
            (same _ _ refl refl) (set_state-Walks connected _ (from_logged_on s.state e)))

leave-Walks : Does Walks stop_defibrillator → Does Walks leave_if_logged_on
unfolding leave_if_logged_on ◌>>=◌
leave-Walks d = record { at = λ s. by_test s (is_state s.state logged_on) refl }
  where
    by_test :
        (s : Session) (b : Bool)
        → is_state s.state logged_on ≡ b
        → Walks s ((if b then leave_logged_on else pure tt) s).1
    by_test s true e = leave_logged_on-Walks s e
    by_test s false e = Walks-Composes.stay s

pub Walks-Primitives : (env : Env) → Primitives env Walks
unfolding clear_heartbeat_timer clear_test_request_timer expect_test_request note_recovery
    extend_target set_heartbeat_token set_test_request_token
Walks-Primitives env = record {
  composes = Walks-Composes;
  emits = emit-Walks;
  enters = enter-Walks;
  logons = logon-Walks env;
  leaves = leave-Walks;
  sends = send-Walks env;
  set_incomings = set_incoming-Walks;
  set_outgoings = set_outgoing-Walks;
  set_heartbeat_intervals = set_heartbeat_interval-Walks;
  allocate_test_request_ids = allocate_test_request_id-Walks;
  clear_heartbeat_timers = update-Walks _ (λ s. refl) (λ s. refl);
  clear_test_request_timers = update-Walks _ (λ s. refl) (λ s. refl);
  expect_test_requests = λ id. update-Walks _ (λ s. refl) (λ s. refl);
  note_recoverys = λ n. update-Walks _ (λ s. refl) (λ s. refl);
  set_resents = set_resent-Walks;
  extend_targets = λ n. update-Walks _ (λ s. ground arith) (λ s. ground arith);
  set_heartbeat_tokens = record { at = λ s. same s _ refl refl };
  set_test_request_tokens = record { at = λ s. same s _ refl refl };
}
