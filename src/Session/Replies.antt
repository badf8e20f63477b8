-- ===== src/Session/Replies.antt =====
-- What a session sends of its own accord, its timers, and `close`.
use crocofix.Base.{
  ℕ, ◌*◌, ◌%◌, Bool, true, false, not, Option, none, some, [], ◌∷◌, ◌++◌, ◌==◌, if◌then◌else◌,
}
use crocofix.Base.Bytes.{Bytes, text, to_string, u32_mod}
use crocofix.Base.Exec.{ok, pure, throw, lift, gets, logic_error, ◌>>=◌, ◌>>◌}
use crocofix.Tags
use crocofix.Field.{Fields, field, bool_value, replace_first_or_append, set}
use crocofix.Dictionary.{is_field_defined}
use crocofix.Message.{Message, message, standard, msg_seq_num}
use crocofix.Session.State.{
  Method, Env, disconnected, connected, logging_on, resending, logged_on, is_state, is_initiator,
  reader_open, reader_close, writer_close, schedule_repeating, schedule_relative, cancel,
  information, emit, set_state, update, state_name, allocate_test_request_id,
}
use crocofix.Session.Send.{send}

unfoldable pub close : Method Unit
close = do emit reader_close; emit writer_close; set_state disconnected

unfoldable pub clear_heartbeat_timer : Method Unit
clear_heartbeat_timer = update (λ s. record s { heartbeat_timer_token = none })

unfoldable pub clear_test_request_timer : Method Unit
clear_test_request_timer = update (λ s. record s { test_request_timer_token = none })

abbrev pub cancel_and : Method Unit → Option ℕ → Method Unit
cancel_and clear none = pure tt
cancel_and clear (some token) = do emit (cancel token); clear

unfoldable pub stop_defibrillator : Method Unit
stop_defibrillator = do
  token ← gets (λ s. s.heartbeat_timer_token)
  cancel_and clear_heartbeat_timer token

unfoldable pub stop_test_request_timer : Method Unit
stop_test_request_timer = do
  token ← gets (λ s. s.test_request_timer_token)
  cancel_and clear_test_request_timer token

unfoldable pub leave_logged_on : Method Unit
leave_logged_on = do stop_defibrillator; set_state connected

unfoldable pub leave_if_logged_on : Method Unit
leave_if_logged_on = do
  s ← gets (λ s. s)
  if is_state s.state logged_on then leave_logged_on else pure tt

module _ (env : Env) where
  unfoldable pub set_heartbeat_token : Method Unit
  set_heartbeat_token s =
      (ok tt, record s { heartbeat_timer_token = some (env.next_token s.events) })

  unfoldable pub set_test_request_token : Method Unit
  set_test_request_token s =
      (ok tt, record s { test_request_timer_token = some (env.next_token s.events) })

  -- The interval times 1000 is computed in `uint32_t`.
  unfoldable pub start_defibrillator : Method Unit
  start_defibrillator = do
    stop_defibrillator
    interval ← gets (λ s. s.options.heartbeat_interval)
    if interval == 0
        then pure tt
        else do emit (schedule_repeating (interval * 1000 % u32_mod)); set_heartbeat_token

  -- A message of the session's own, with the standard options.
  unfoldable pub send_standard : Fields → Method Unit
  send_standard fs = do send env (message true fs) standard; pure tt

  -- The callback of the heartbeat timer.
  unfoldable pub defibrillate : Method Unit
  defibrillate = do
    s ← gets (λ s. s)
    if is_state s.state logged_on
        then send_standard (field Tags.msg_type Tags.heartbeat ∷ [])
        else pure tt

  -- A flag whose value is `true` is a single field "Y".
  unfoldable pub send_logon : Bool → Method Unit
  send_logon reset_seq_num_flag = do
    s ← gets (λ s. s)
    let logon : Message = message true (
        field Tags.msg_type Tags.logon
        ∷ field Tags.encrypt_method Tags.encrypt_method_none
        ∷ field Tags.heart_bt_int (to_string s.options.heartbeat_interval)
        ∷ [])
    let fs : Fields =
        if reset_seq_num_flag
        then (set (field Tags.reset_seq_num_flag (bool_value true)) replace_first_or_append
            logon.fields).1
        else logon.fields
    let gs : Fields =
        if s.options.use_next_expected_msg_seq_num
        then (set (field Tags.next_expected_msg_seq_num (to_string s.incoming_msg_seq_num))
            replace_first_or_append fs).1
        else fs
    send env (record logon { fields = gs }) standard
    pure tt

  -- `m_reader.open(); logon();`
  unfoldable pub logon : Method Unit
  logon = do
    s ← gets (λ s. s)
    if is_state s.state connected
        then pure tt
        else throw (
            logic_error
              (text "logon cannot be initiated in the current state " ++ state_name s.state))
    set_state logging_on
    if is_initiator s.options.logon_behaviour then send_logon false else pure tt

  unfoldable pub open_session : Method Unit
  open_session = do emit reader_open; logon

  -- Every caller gives a reason.
  unfoldable pub send_reject : Message → Bytes → Bytes → Method Unit
  send_reject m what reason = do
    number ← lift (msg_seq_num m)
    let reject : Message = message true (
        field Tags.msg_type Tags.reject
        ∷ field Tags.ref_seq_num (to_string number)
        ∷ field Tags.text_tag what
        ∷ [])
    defined ← lift (is_field_defined env.fields Tags.session_reject_reason)
    let fs : Fields =
        if defined
        then (set (field Tags.session_reject_reason reason) replace_first_or_append reject.fields).1
        else reject.fields
    send env (record reject { fields = fs }) standard
    pure tt

  unfoldable pub send_logout : Bytes → Method Unit
  send_logout what = do
    send_standard (field Tags.msg_type Tags.logout ∷ field Tags.text_tag what ∷ [])
    leave_if_logged_on
    close

  unfoldable pub expect_test_request : ℕ → Method Unit
  expect_test_request id = update (λ s. record s { expected_test_request_id = some id })

  unfoldable pub send_test_request : Method Unit
  send_test_request = do
    id ← allocate_test_request_id
    expect_test_request id
    send_standard
        (field Tags.msg_type Tags.test_request ∷ field Tags.test_req_id (to_string id) ∷ [])

  -- The callback of the timer that `send_post_logon_test_request` starts.
  unfoldable pub test_request_due : Method Unit
  test_request_due = do clear_test_request_timer; send_test_request

  unfoldable pub schedule_test_request : ℕ → Method Unit
  schedule_test_request delay = do emit (schedule_relative delay); set_test_request_token

  unfoldable pub send_post_logon_test_request : Method Unit
  send_post_logon_test_request = do
    delay ← gets (λ s. s.options.test_request_delay)
    if not (delay == 0) then schedule_test_request delay else send_test_request

  -- `standard & ~set_msg_seq_num` is 7.
  unfoldable pub send_gap_fill : ℕ → ℕ → Method Unit
  send_gap_fill msg_seq_num new_seq_no = do
    send env
        (message true (
          field Tags.msg_type Tags.sequence_reset
          ∷ field Tags.msg_seq_num (to_string msg_seq_num)
          ∷ field Tags.gap_fill_flag (bool_value true)
          ∷ field Tags.poss_dup_flag (bool_value true)
          ∷ field Tags.new_seq_no (to_string new_seq_no)
          ∷ []))
        7
    pure tt

  unfoldable pub perform_resend : ℕ → ℕ → Method Unit
  perform_resend begin_msg_seq_num end_msg_seq_num = do
    next ← gets (λ s. s.outgoing_msg_seq_num)
    send_gap_fill begin_msg_seq_num next

  unfoldable pub note_recovery : ℕ → Method Unit
  note_recovery received = update λ s. record s {
    incoming_resent_msg_seq_num = s.incoming_msg_seq_num;
    incoming_target_msg_seq_num = received;
  }

  unfoldable pub request_resend : ℕ → Method Unit
  request_resend received = do
    expected ← gets (λ s. s.incoming_msg_seq_num)
    emit (
        information (
          text "Recoverable message sequence error, expected "
          ++ to_string expected
          ++ text " received "
          ++ to_string received
          ++ text " - initiating recovery"))
    set_state resending
    note_recovery received
    emit (
        information (
          text "Requesting resend, BeginSeqNo "
          ++ to_string expected
          ++ text " EndSeqNo "
          ++ to_string received))
    send_standard (
        field Tags.msg_type Tags.resend_request
        ∷ field Tags.begin_seq_no (to_string expected)
        ∷ field Tags.end_seq_no (to_string received)
        ∷ [])
