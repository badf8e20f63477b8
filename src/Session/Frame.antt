-- ===== src/Session/Frame.antt =====
-- What the methods of a session leave alone, whether they return or throw.
use mathlib.Core.Bool.{false≢true}
use crocofix.Base.{ℕ, ◌≡◌, ◌≢◌, refl, sym, subst, ◌∙◌, true, false, arith}
use crocofix.Base.Exec.Keeps.{Composes, Does, does_rules}
use crocofix.Message.{Message}
use crocofix.Session.State.{
  Session, Env, Event, SessionState, disconnected, connected, logging_on, resending, logged_on,
  resetting, emit, set_state, set_incoming, set_outgoing, set_heartbeat_interval, set_resent,
  update, allocate_test_request_id, allocate_outgoing_msg_seq_num,
}
use crocofix.Session.Validate.{extend_target}
use crocofix.Session.Steps.{Primitives, is_open_to_all}
use crocofix.Session.Send.{is_reset, restart, number_for, write, send}
use crocofix.Session.Replies.{
  clear_heartbeat_timer, clear_test_request_timer, set_heartbeat_token, set_test_request_token,
  expect_test_request, note_recovery, stop_defibrillator, send_logon, logon, leave_logged_on,
  leave_if_logged_on,
}

-- The behaviour and the receipt of a Logon are as they were, and the session did not log on.
pub record Frame (s t : Session) : Type 0 where
  pub behaviour : t.options.logon_behaviour ≡ s.options.logon_behaviour
  pub received : t.logon_received ≡ s.logon_received
  pub quiet : t.state ≡ logged_on → s.state ≡ logged_on

pub Frame-Composes : Composes Frame
Frame-Composes = record {
  stay = λ s. record { behaviour = refl; received = refl; quiet = λ e. e };
  join = λ s t u a b. record {
    behaviour = b.behaviour ∙ a.behaviour;
    received = b.received ∙ a.received;
    quiet = λ e. a.quiet (b.quiet e);
  };
}

-- A step that changes none of the three fields that `Frame` reads.
same :
    (s t : Session)
    → t.options.logon_behaviour ≡ s.options.logon_behaviour
    → t.logon_received ≡ s.logon_received
    → t.state ≡ s.state
    → Frame s t
same s t b r e = record { behaviour = b; received = r; quiet = λ h. sym e ∙ h }

emit-Frame : (e : Event) → Does Frame (emit e)
unfolding emit
emit-Frame e = record { at = λ s. same s _ refl refl refl }

set_state-Frame : (x : SessionState) → x ≢ logged_on → Does Frame (set_state x)
unfolding set_state
set_state-Frame x h = record {
  at = λ s. record {
    behaviour = ground arith;
    received = ground arith;
    quiet = λ e. ground (arith, h);
  };
}

disconnected-Frame : Does Frame (set_state disconnected)
disconnected-Frame = set_state-Frame disconnected (λ e. cc)

connected-Frame : Does Frame (set_state connected)
connected-Frame = set_state-Frame connected (λ e. cc)

logging_on-Frame : Does Frame (set_state logging_on)
logging_on-Frame = set_state-Frame logging_on (λ e. cc)

resending-Frame : Does Frame (set_state resending)
resending-Frame = set_state-Frame resending (λ e. cc)

resetting-Frame : Does Frame (set_state resetting)
resetting-Frame = set_state-Frame resetting (λ e. cc)

set_incoming-Frame : (n : ℕ) → Does Frame (set_incoming n)
unfolding set_incoming
set_incoming-Frame n = record { at = λ s. same s _ refl refl refl }

set_outgoing-Frame : (n : ℕ) → Does Frame (set_outgoing n)
unfolding set_outgoing
set_outgoing-Frame n = record { at = λ s. same s _ refl refl refl }

set_heartbeat_interval-Frame : (n : ℕ) → Does Frame (set_heartbeat_interval n)
unfolding set_heartbeat_interval
set_heartbeat_interval-Frame n = record { at = λ s. same s _ refl refl refl }

allocate_test_request_id-Frame : Does Frame allocate_test_request_id
unfolding allocate_test_request_id
allocate_test_request_id-Frame = record { at = λ s. same s _ refl refl refl }

allocate_outgoing_msg_seq_num-Frame : Does Frame allocate_outgoing_msg_seq_num
unfolding allocate_outgoing_msg_seq_num
allocate_outgoing_msg_seq_num-Frame = record { at = λ s. same s _ refl refl refl }

clear_heartbeat_timer-Frame : Does Frame clear_heartbeat_timer
unfolding clear_heartbeat_timer update
clear_heartbeat_timer-Frame = record { at = λ s. same s _ refl refl refl }

clear_test_request_timer-Frame : Does Frame clear_test_request_timer
unfolding clear_test_request_timer update
clear_test_request_timer-Frame = record { at = λ s. same s _ refl refl refl }

expect_test_request-Frame : (env : Env) (id : ℕ) → Does Frame (expect_test_request env id)
unfolding expect_test_request update
expect_test_request-Frame env id = record { at = λ s. same s _ refl refl refl }

note_recovery-Frame : (env : Env) (n : ℕ) → Does Frame (note_recovery env n)
unfolding note_recovery update
note_recovery-Frame env n = record { at = λ s. same s _ refl refl refl }

set_heartbeat_token-Frame : (env : Env) → Does Frame (set_heartbeat_token env)
unfolding set_heartbeat_token
set_heartbeat_token-Frame env = record { at = λ s. same s _ refl refl refl }

set_test_request_token-Frame : (env : Env) → Does Frame (set_test_request_token env)
unfolding set_test_request_token
set_test_request_token-Frame env = record { at = λ s. same s _ refl refl refl }

ruleset frame_steps = (
  does_rules, Frame-Composes, emit-Frame, disconnected-Frame, connected-Frame, logging_on-Frame,
  resending-Frame, resetting-Frame, set_incoming-Frame, set_outgoing-Frame,
  set_heartbeat_interval-Frame, allocate_test_request_id-Frame, allocate_outgoing_msg_seq_num-Frame,
  clear_heartbeat_timer-Frame, clear_test_request_timer-Frame, expect_test_request-Frame,
  note_recovery-Frame, set_heartbeat_token-Frame, set_test_request_token-Frame,
)

write-Frame :
    (env : Env) (options number : ℕ) (m : Message) → Does Frame (write env options number m)
unfolding write
write-Frame env options number m = search frame_steps

restart-Frame : Does Frame restart
unfolding restart
restart-Frame = search frame_steps

is_reset-Frame : (m : Message) → Does Frame (is_reset m)
unfolding is_reset
is_reset-Frame m = search frame_steps

number_for-Frame : (options : ℕ) → Does Frame (number_for options)
unfolding number_for
number_for-Frame options = search frame_steps

send-Frame : (env : Env) (m : Message) (options : ℕ) → Does Frame (send env m options)
unfolding send
send-Frame env m options =
    search (frame_steps, is_reset-Frame, restart-Frame, number_for-Frame, write-Frame)

set_resent-Frame : (n : ℕ) → Does Frame (set_resent n)
unfolding set_resent
set_resent-Frame n = record { at = λ s. same s _ refl refl refl }

extend_target-Frame : (env : Env) (n : ℕ) → Does Frame (extend_target env n)
unfolding extend_target update
extend_target-Frame env n = record {
  at = λ s. same s _ (ground arith) (ground arith) (ground arith);
}

free_not_logged_on : (x : SessionState) → is_open_to_all x ≡ true → x ≢ logged_on
free_not_logged_on x h e =
    absurd (false≢true (subst (λ (y : SessionState). is_open_to_all y ≡ true) e h))

logon-Frame : (env : Env) → Does Frame (send_logon env false) → Does Frame (logon env)
unfolding logon
logon-Frame env d = search (frame_steps) depth 10

leave-Frame : Does Frame stop_defibrillator → Does Frame leave_if_logged_on
unfolding leave_if_logged_on leave_logged_on
leave-Frame d = search (frame_steps) depth 10

pub Frame-Primitives : (env : Env) → Primitives env Frame
Frame-Primitives env = record {
  composes = Frame-Composes;
  emits = λ e h. emit-Frame e;
  enters = λ x h. set_state-Frame x (free_not_logged_on x h);
  logons = logon-Frame env;
  leaves = leave-Frame;
  sends = send-Frame env;
  set_incomings = set_incoming-Frame;
  set_outgoings = set_outgoing-Frame;
  set_heartbeat_intervals = set_heartbeat_interval-Frame;
  allocate_test_request_ids = allocate_test_request_id-Frame;
  clear_heartbeat_timers = clear_heartbeat_timer-Frame;
  clear_test_request_timers = clear_test_request_timer-Frame;
  expect_test_requests = expect_test_request-Frame env;
  note_recoverys = note_recovery-Frame env;
  set_resents = set_resent-Frame;
  extend_targets = extend_target-Frame env;
  set_heartbeat_tokens = set_heartbeat_token-Frame env;
  set_test_request_tokens = set_test_request_token-Frame env;
}
