-- ===== src/Session/Handler.antt =====
-- `session::on_message_read`, and the runs of a session: everything that can call it.
use crocofix.Base.{ℕ, ◌+◌, ◌%◌, Bool, ◌&&◌, List, [], ◌∷◌, ◌++◌, if◌then◌else◌}
use crocofix.Base.Bytes.{Bytes, text, bytes_eq, u32_mod}
use crocofix.Base.Exec.{pure, lift, ◌>>=◌, ◌>>◌}
use crocofix.Tags
use crocofix.Message.{Message, msg_type, msg_seq_num, poss_dup_flag, is_admin_type}
use crocofix.Session.State.{
  Session, Method, Env, disconnected, message_received, warning, emit, set_state, set_incoming,
  set_outgoing, Setting, configure,
}
use crocofix.Session.Send.{send}
use crocofix.Session.Replies.{close, open_session, defibrillate, test_request_due}
use crocofix.Session.Validate.{
  validate_checksum, validate_body_length, validate_begin_string, validate_comp_ids,
  validate_first_message, validate_sequence_numbers,
}
use crocofix.Session.Process.{
  process_sequence_reset, process_logon, process_heartbeat, process_test_request,
  process_resend_request, process_logout,
}

module _ (env : Env) where
  -- A check, and the rest if it passes: `if (!check) { return; }`.
  abbrev pub passing : Method Bool → Method Unit → Method Unit
  passing check rest = check >>= λ passed. if passed then rest else pure tt

  -- The last chain of `on_message_read`.
  unfoldable pub dispatch_rest : Message → Bytes → Method Unit
  dispatch_rest m t =
      if bytes_eq t Tags.test_request
      then process_test_request env m
      else if bytes_eq t Tags.resend_request
      then process_resend_request env m
      else if bytes_eq t Tags.logout
      then process_logout env
      else pure tt

  unfoldable pub dispatch : Message → Bytes → Method Unit
  dispatch m t = if bytes_eq t Tags.heartbeat then process_heartbeat env m else dispatch_rest m t

  unfoldable pub check_sequence : Message → Bytes → Method Bool
  check_sequence m t =
      if bytes_eq t Tags.logon then process_logon env m else validate_sequence_numbers env m

  unfoldable pub advance_incoming : Message → Method Unit
  advance_incoming m = do number ← lift (msg_seq_num m); set_incoming ((number + 1) % u32_mod)

  unfoldable pub process_in_sequence : Message → Bytes → Method Unit
  process_in_sequence m t = passing (check_sequence m t) (do advance_incoming m; dispatch m t)

  unfoldable pub process_typed : Message → Bytes → Method Unit
  process_typed m t = do
    poss_dup ← lift (poss_dup_flag m)
    if bytes_eq t Tags.sequence_reset
        then process_sequence_reset env m
        else if poss_dup && is_admin_type t
        then emit (warning (text "Ignoring PossDup Admin message with MsgType=" ++ t))
        else process_in_sequence m t

  -- From `message.MsgType()` on.
  unfoldable pub process_message : Message → Method Unit
  process_message m = do t ← lift (msg_type m); process_typed m t

  unfoldable pub on_message_read : Message → Method Unit
  on_message_read m = do
    emit (message_received m)
    passing (validate_checksum env m) (
        passing (validate_body_length env m) (
          passing (validate_begin_string env m) (
            passing (validate_comp_ids env m)
              (passing (validate_first_message env m) (process_message m)))))

-- The calls that reach a session from outside; `hang_up` is the `closed` signal of the reader or of the
-- writer. An exception leaves the call, with the state as it was then.
pub data Call : Type 0 where
  opens closes hang_up heartbeat_due test_request_timeout : Call
  reads : Message → Call
  sends : Message → ℕ → Call
  set_numbers : ℕ → ℕ → Call
  configures : Setting → Call

module _ (env : Env) where
  unfoldable pub run_call : Call → Method Unit
  run_call opens = open_session env
  run_call closes = close
  run_call hang_up = set_state disconnected
  run_call heartbeat_due = defibrillate env
  run_call test_request_timeout = test_request_due env
  run_call (reads m) = on_message_read env m
  run_call (sends m options) = send env m options >> pure tt
  run_call (set_numbers incoming outgoing) = set_incoming incoming >> set_outgoing outgoing
  run_call (configures x) = configure x

  unfoldable pub run_calls : List Call → Session → Session
  run_calls [] s = s
  run_calls (c ∷ cs) s = run_calls cs (run_call c s).1
