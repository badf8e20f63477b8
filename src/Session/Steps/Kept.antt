-- ===== src/Session/Steps/Kept.antt =====
-- What each primitive method of a session keeps to.
use crocofix.Base.{ℕ, ◌≡◌, Bool, true, false}
use crocofix.Base.Exec.Keeps.{Composes, Does}
use crocofix.Message.{Message}
use crocofix.Session.State.{
  Session, Env, Event, state_changed, SessionState, disconnected, resending, resetting, emit,
  set_state, set_incoming, set_outgoing, set_heartbeat_interval, set_resent,
  allocate_test_request_id,
}
use crocofix.Session.Send.{send}
use crocofix.Session.Replies.{
  clear_heartbeat_timer, clear_test_request_timer, set_heartbeat_token, set_test_request_token,
  expect_test_request, note_recovery, stop_defibrillator, send_logon, logon, leave_if_logged_on,
}
use crocofix.Session.Validate.{extend_target}

-- `emit` is never called with a change of the state, which `set_state` announces itself.
abbrev pub is_change : Event → Bool
is_change (state_changed a b) = true
is_change _ = false

-- The states that a session enters from any other.
abbrev pub is_open_to_all : SessionState → Bool
is_open_to_all disconnected = true
is_open_to_all resending = true
is_open_to_all resetting = true
is_open_to_all _ = false

pub record Primitives (env : Env) (R : Session → Session → Type 0) : Type 0 where
  pub composes : Composes R
  pub emits : (e : Event) → is_change e ≡ false → Does R (emit e)
  pub enters : (x : SessionState) → is_open_to_all x ≡ true → Does R (set_state x)
  pub logons : Does R (send_logon env false) → Does R (logon env)
  pub leaves : Does R stop_defibrillator → Does R leave_if_logged_on
  pub sends : (m : Message) (options : ℕ) → Does R (send env m options)
  pub set_incomings : (n : ℕ) → Does R (set_incoming n)
  pub set_outgoings : (n : ℕ) → Does R (set_outgoing n)
  pub set_heartbeat_intervals : (n : ℕ) → Does R (set_heartbeat_interval n)
  pub allocate_test_request_ids : Does R (allocate_test_request_id)
  pub clear_heartbeat_timers : Does R (clear_heartbeat_timer)
  pub clear_test_request_timers : Does R (clear_test_request_timer)
  pub expect_test_requests : (id : ℕ) → Does R (expect_test_request env id)
  pub note_recoverys : (n : ℕ) → Does R (note_recovery env n)
  pub set_resents : (n : ℕ) → Does R (set_resent n)
  pub extend_targets : (n : ℕ) → Does R (extend_target env n)
  pub set_heartbeat_tokens : Does R (set_heartbeat_token env)
  pub set_test_request_tokens : Does R (set_test_request_token env)
