-- ===== src/Session/Steps/Replies.antt =====
-- The messages of a session of its own, and its timers, from the primitive methods.
use crocofix.Base.{ℕ, refl, Bool, false, Option, none, some}
use crocofix.Base.Bytes.{Bytes}
use crocofix.Base.Exec.Keeps.{Does, does_rules}
use crocofix.Field.{Fields}
use crocofix.Message.{Message}
use crocofix.Session.State.{
  Session, Env, disconnected, resending, resetting, set_state, allocate_test_request_id,
}
use crocofix.Session.Replies.{
  close, cancel_and, clear_heartbeat_timer, clear_test_request_timer, stop_defibrillator,
  stop_test_request_timer, set_heartbeat_token, set_test_request_token, start_defibrillator,
  send_standard, defibrillate, send_logon, logon, open_session, send_reject, leave_if_logged_on,
  send_logout, send_test_request, test_request_due, schedule_test_request,
  send_post_logon_test_request, send_gap_fill, perform_resend, request_resend,
}
use crocofix.Session.Validate.{refuse}
use crocofix.Session.Steps.Kept.{Primitives}

module _ (env : Env) {R : Session → Session → Type 0} (p : Primitives env R) where
  pub allocate_test_request_id-Does : Does R allocate_test_request_id
  allocate_test_request_id-Does = p.allocate_test_request_ids

  pub clear_heartbeat_timer-Does : Does R clear_heartbeat_timer
  clear_heartbeat_timer-Does = p.clear_heartbeat_timers

  pub clear_test_request_timer-Does : Does R clear_test_request_timer
  clear_test_request_timer-Does = p.clear_test_request_timers

  pub set_heartbeat_token-Does : Does R (set_heartbeat_token env)
  set_heartbeat_token-Does = p.set_heartbeat_tokens

  pub set_test_request_token-Does : Does R (set_test_request_token env)
  set_test_request_token-Does = p.set_test_request_tokens

  pub enter_disconnected-Does : Does R (set_state disconnected)
  enter_disconnected-Does = p.enters disconnected refl

  pub enter_resending-Does : Does R (set_state resending)
  enter_resending-Does = p.enters resending refl

  pub enter_resetting-Does : Does R (set_state resetting)
  enter_resetting-Does = p.enters resetting refl

  pub close-Does : Does R (close)
  unfolding close
  close-Does = search (does_rules, p.composes, p.emits, enter_disconnected-Does) depth 10

  pub cancel_heartbeat-Does : (o : Option ℕ) → Does R (cancel_and clear_heartbeat_timer o)
  cancel_heartbeat-Does none = search (does_rules, p.composes) depth 10
  cancel_heartbeat-Does (some t) =
      search (does_rules, p.composes, p.emits, clear_heartbeat_timer-Does) depth 10

  pub cancel_test_request-Does : (o : Option ℕ) → Does R (cancel_and clear_test_request_timer o)
  cancel_test_request-Does none = search (does_rules, p.composes) depth 10
  cancel_test_request-Does (some t) =
      search (does_rules, p.composes, p.emits, clear_test_request_timer-Does) depth 10

  pub stop_defibrillator-Does : Does R (stop_defibrillator)
  unfolding stop_defibrillator
  stop_defibrillator-Does = search (does_rules, p.composes, cancel_heartbeat-Does) depth 10

  pub stop_test_request_timer-Does : Does R (stop_test_request_timer)
  unfolding stop_test_request_timer
  stop_test_request_timer-Does = search (does_rules, p.composes, cancel_test_request-Does) depth 10

  pub start_defibrillator-Does : Does R (start_defibrillator env)
  unfolding start_defibrillator
  start_defibrillator-Does =
      search (does_rules, p.composes, p.emits, stop_defibrillator-Does, set_heartbeat_token-Does)
        depth 10

  pub send_standard-Does : (fs : Fields) → Does R (send_standard env fs)
  unfolding send_standard
  send_standard-Does fs = search (does_rules, p.composes, p.sends) depth 10

  pub defibrillate-Does : Does R (defibrillate env)
  unfolding defibrillate
  defibrillate-Does = search (does_rules, p.composes, send_standard-Does) depth 10

  pub send_logon-Does : (b : Bool) → Does R (send_logon env b)
  unfolding send_logon
  send_logon-Does b = search (does_rules, p.composes, p.sends) depth 10

  pub logon-Does : Does R (logon env)
  logon-Does = p.logons (send_logon-Does false)

  pub open_session-Does : Does R (open_session env)
  unfolding open_session
  open_session-Does = search (does_rules, p.composes, p.emits, logon-Does) depth 10

  pub send_reject-Does : (m : Message) (w r : Bytes) → Does R (send_reject env m w r)
  unfolding send_reject
  send_reject-Does m w r = search (does_rules, p.composes, p.sends) depth 10

  pub leave_if_logged_on-Does : Does R leave_if_logged_on
  leave_if_logged_on-Does = p.leaves stop_defibrillator-Does

  pub send_logout-Does : (w : Bytes) → Does R (send_logout env w)
  unfolding send_logout
  send_logout-Does w =
      search (does_rules, p.composes, send_standard-Does, leave_if_logged_on-Does, close-Does) depth
        10

  pub send_test_request-Does : Does R (send_test_request env)
  unfolding send_test_request
  send_test_request-Does =
      search
        (
          does_rules, p.composes, send_standard-Does, allocate_test_request_id-Does,
          p.expect_test_requests,
        )
        depth 10

  pub test_request_due-Does : Does R (test_request_due env)
  unfolding test_request_due
  test_request_due-Does =
      search (does_rules, p.composes, send_test_request-Does, clear_test_request_timer-Does) depth
        10

  pub schedule_test_request-Does : (n : ℕ) → Does R (schedule_test_request env n)
  unfolding schedule_test_request
  schedule_test_request-Does n =
      search (does_rules, p.composes, p.emits, set_test_request_token-Does) depth 10

  pub send_post_logon_test_request-Does : Does R (send_post_logon_test_request env)
  unfolding send_post_logon_test_request
  send_post_logon_test_request-Does =
      search (does_rules, p.composes, schedule_test_request-Does, send_test_request-Does) depth 10

  pub send_gap_fill-Does : (a b : ℕ) → Does R (send_gap_fill env a b)
  unfolding send_gap_fill
  send_gap_fill-Does a b = search (does_rules, p.composes, p.sends) depth 10

  pub perform_resend-Does : (a b : ℕ) → Does R (perform_resend env a b)
  unfolding perform_resend
  perform_resend-Does a b = search (does_rules, p.composes, send_gap_fill-Does) depth 10

  pub request_resend-Does : (n : ℕ) → Does R (request_resend env n)
  unfolding request_resend
  request_resend-Does n =
      search
        (
          does_rules, p.composes, p.emits, send_standard-Does, enter_resending-Does,
          p.note_recoverys,
        )
        depth 10

  pub refuse-Does : (m : Message) (w r : Bytes) → Does R (refuse env m w r)
  unfolding refuse
  refuse-Does m w r =
      search (does_rules, p.composes, p.emits, send_reject-Does, close-Does) depth 10
