-- ===== src/Session/Process.antt =====
-- What a session does with each kind of administrative message.
use crocofix.Base.{
  ℕ, ◌+◌, ◌%◌, Bool, true, false, not, ◌&&◌, ◌||◌, Option, none, some, [], ◌∷◌, ◌++◌, ltb, leb,
  ◌==◌, if◌then◌else◌,
}
use crocofix.Base.Bytes.{Bytes, text, bytes_eq, to_string, codes, u32_mod}
use crocofix.Base.Exec.{Result, ok, err, pure, lift, gets, ◌>>=◌, ◌>>◌}
use crocofix.Tags
use crocofix.Field.{Field, field, try_get}
use crocofix.Message.{Message, stoi_u32, msg_seq_num, reset_seq_num_flag, gap_fill_flag}
use crocofix.Session.State.{
  Method, Env, logging_on, resending, logged_on, resetting, is_state, is_acceptor, error, warning,
  information, emit, set_state, set_incoming, set_outgoing, set_heartbeat_interval, set_resent,
  update,
}
use crocofix.Session.Replies.{
  close, stop_defibrillator, start_defibrillator, stop_test_request_timer, send_reject, send_logout,
  send_logon, send_test_request, send_post_logon_test_request, send_standard, perform_resend,
}
use crocofix.Session.Validate.{
  sequence_number_is_low, sequence_number_is_high, validate_sequence_numbers,
}

-- `try { … std::stoi … } catch (std::exception&)`
abbrev pub caught : Result ℕ → Option ℕ
caught (ok n) = some n
caught (err e) = none

unfoldable pub reset : Method Unit
reset = do stop_defibrillator; set_state resetting; set_outgoing 1; set_incoming 1

module _ (env : Env) where
  -- `error(text); send_logout(text); return false;`
  unfoldable pub refuse_logon : Bytes → Method Bool
  refuse_logon what = do emit (error what); send_logout env what; pure false

  unfoldable pub refuse_heartbeat_interval : Message → Bytes → Bytes → Method Bool
  refuse_heartbeat_interval m what reason = do
    emit (error what)
    send_reject env m what reason
    send_logout env what
    pure false

  unfoldable pub use_heartbeat_interval : Message → Bytes → Option ℕ → Method Bool
  use_heartbeat_interval m v none =
      refuse_heartbeat_interval m (v ++ text " is not a valid numeric HeartBtInt")
        Tags.value_is_incorrect
  use_heartbeat_interval m v (some n) = do set_heartbeat_interval n; pure true

  unfoldable pub read_heartbeat_interval : Message → Option Field → Method Bool
  read_heartbeat_interval m none =
      refuse_heartbeat_interval m (text "Logon message does not contain a HeartBtInt")
        Tags.required_tag_missing
  read_heartbeat_interval m (some f) = use_heartbeat_interval m f.value (caught (stoi_u32 f.value))

  unfoldable pub extract_heartbeat_interval : Message → Method Bool
  extract_heartbeat_interval m = read_heartbeat_interval m (try_get Tags.heart_bt_int m.fields)

  unfoldable pub resend_from : ℕ → ℕ → Method Unit
  resend_from next_expected outgoing = do
    emit (
        warning (
          text "NextExpectedMsgSeqNum too low, expecting "
          ++ to_string outgoing
          ++ text " but received "
          ++ to_string next_expected
          ++ text " - performing resend"))
    set_state resending
    perform_resend env next_expected outgoing

  -- The Logon of a peer that says which number it expects next.
  unfoldable pub accept_next_expected : ℕ → ℕ → Method Bool
  accept_next_expected next_expected outgoing = do
    if ltb ((next_expected + 1) % u32_mod) outgoing
        then resend_from next_expected outgoing
        else pure tt
    acceptor ← gets (λ s. is_acceptor s.options.logon_behaviour)
    if acceptor then send_logon env false else pure tt
    send_post_logon_test_request env
    pure true

  unfoldable pub check_next_expected : ℕ → Method Bool
  check_next_expected next_expected = do
    outgoing ← gets (λ s. s.outgoing_msg_seq_num)
    if ltb outgoing next_expected
        then refuse_logon (
            text "NextExpectedMsgSeqNum too high, expecting "
            ++ to_string outgoing
            ++ text " but received "
            ++ to_string next_expected)
        else accept_next_expected next_expected outgoing

  unfoldable pub use_next_expected : Bytes → Option ℕ → Method Bool
  use_next_expected v none =
      refuse_logon (v ++ text " is not a valid value for NextExpectedMsgSeqNum")
  use_next_expected v (some n) = check_next_expected n

  unfoldable pub read_next_expected : Option Field → Method Bool
  read_next_expected none = refuse_logon (text "Logon does not contain NextExpectedMsgSeqNum")
  read_next_expected (some f) = use_next_expected f.value (caught (stoi_u32 f.value))

  unfoldable pub confirm_reset : Method Bool
  confirm_reset = do
    state ← gets (λ s. s.state)
    if is_state state resetting then (do send_test_request env; pure true) else (do
      emit (
          information
            (text "Logon message received with ResetSeqNumFlag - resetting sequence numbers"))
      reset
      send_logon env true
      send_post_logon_test_request env
      pure true)

  -- A Logon with ResetSeqNumFlag.
  unfoldable pub process_reset_logon : Message → Method Bool
  process_reset_logon m = do
    number ← lift (msg_seq_num m)
    if not (number == 1)
        then (do
          emit (
              error (
                text
                  "Invalid logon message, the ResetSeqNumFlag is set and the MsgSeqNum is not 1"))
          pure false)
        else confirm_reset

  -- Any other Logon; the reset flag is false here.
  unfoldable pub process_plain_logon : Message → Method Bool
  process_plain_logon m = do
    low ← sequence_number_is_low env m
    if low then pure false else do
      acceptor ← gets (λ s. is_acceptor s.options.logon_behaviour)
      if acceptor then send_logon env false else pure tt
      high ← sequence_number_is_high env m
      if high then pure false else do send_post_logon_test_request env; pure true

  unfoldable pub process_logon : Message → Method Bool
  process_logon m = do
    resets ← lift (reset_seq_num_flag m)
    extracted ← extract_heartbeat_interval m
    if not extracted then pure false else do
      update (λ s. record s { logon_received = true })
      by_number ← gets (λ s. s.options.use_next_expected_msg_seq_num)
      if by_number
          then read_next_expected (try_get Tags.next_expected_msg_seq_num m.fields)
          else if resets
          then process_reset_logon m
          else process_plain_logon m

  unfoldable pub process_logout : Method Unit
  process_logout = do emit (information (text "Closing session in response to Logout")); close

  unfoldable pub answer_test_request : Message → Option Field → Method Unit
  answer_test_request m none = do
    send_reject env m (text "TestRequest does not contain a TestReqID") Tags.required_tag_missing
    emit (error (text "TestRequest does not contain a TestReqID"))
  answer_test_request m (some f) =
      send_standard env (field Tags.msg_type Tags.heartbeat ∷ field Tags.test_req_id f.value ∷ [])

  unfoldable pub process_test_request : Message → Method Unit
  process_test_request m = answer_test_request m (try_get Tags.test_req_id m.fields)

  unfoldable pub complete_logon : Method Unit
  complete_logon = do set_state logged_on; start_defibrillator env

  unfoldable pub reject_test_request_id : Method Unit
  reject_test_request_id = do
    emit (
        error
          (text "Received a Heartbeat with an incorrect TestReqID during Logon - disconnecting"))
    close

  -- The TestReqID of a Heartbeat against the one that is expected.
  unfoldable pub match_test_request_id : Option Field → Option ℕ → Method Unit
  match_test_request_id none expected = complete_logon
  match_test_request_id (some f) none =
      emit (warning (text "Received a Heartbeat with an unexpected TestReqID"))
  match_test_request_id (some f) (some id) =
      if bytes_eq f.value (to_string id) then complete_logon else reject_test_request_id

  unfoldable pub process_heartbeat : Message → Method Unit
  process_heartbeat m = do
    s ← gets (λ s. s)
    if is_state s.state logging_on || is_state s.state resetting || is_state s.state resending
        then match_test_request_id (try_get Tags.test_req_id m.fields) s.expected_test_request_id
        else pure tt

  -- `error(text); send_reject(…); return;`
  unfoldable pub report : Message → Bytes → Bytes → Method Unit
  report m what reason = do emit (error what); send_reject env m what reason

  unfoldable pub fill_gap : ℕ → Method Unit
  fill_gap number = do
    emit (information (text "SeqenceReset (GapFill) received, NewSeqNo = " ++ to_string number))
    set_resent number
    set_incoming number

  unfoldable pub finish_resend : Method Unit
  finish_resend = do
    s ← gets (λ s. s)
    if is_state s.state resending && leb s.incoming_target_msg_seq_num s.incoming_resent_msg_seq_num
        then (do
          emit (information (text "Resend complete"))
          send_test_request env
          start_defibrillator env)
        else pure tt

  unfoldable pub process_gap_fill : Message → ℕ → Method Unit
  process_gap_fill m number = do
    valid ← validate_sequence_numbers env m
    if not valid then pure tt else do
      s ← gets (λ s. s)
      if (s.options.use_next_expected_msg_seq_num && not (is_state s.state logging_on))
            || (not s.options.use_next_expected_msg_seq_num && not (is_state s.state resending))
          then report m (text "SequenceReset GapFill is not valid while not performing a resend")
              Tags.other
          else (do fill_gap number; finish_resend)

  unfoldable pub process_reset : ℕ → Method Unit
  process_reset number = do
    set_resent number
    emit (information (text "SeqenceReset (Reset) received, NewSeqNo = " ++ to_string number))
    finish_resend

  unfoldable pub check_new_seq_no : Message → Bool → Bytes → Option ℕ → Method Unit
  check_new_seq_no m gap_fill v none =
      report m (v ++ text " is not a valid value for NewSeqNo") Tags.value_is_incorrect
  check_new_seq_no m gap_fill v (some number) = do
    expected ← gets (λ s. s.incoming_msg_seq_num)
    if leb number expected
        then report m
            (text "NewSeqNo is not greater than expected MsgSeqNum = " ++ to_string expected)
            Tags.value_is_incorrect
        else if gap_fill
        then process_gap_fill m number
        else process_reset number

  unfoldable pub use_new_seq_no : Message → Option Field → Method Unit
  use_new_seq_no m none =
      report m (text "SequenceReset does not contain a NewSeqNo field") Tags.required_tag_missing
  use_new_seq_no m (some f) = do
    gap_fill ← lift (gap_fill_flag m)
    check_new_seq_no m gap_fill f.value (caught (stoi_u32 f.value))

  unfoldable pub process_sequence_reset : Message → Method Unit
  process_sequence_reset m = use_new_seq_no m (try_get Tags.new_seq_no m.fields)

  abbrev is_early_version : Bytes → Bool
  is_early_version v = bytes_eq v (codes "FIX.4.0") || bytes_eq v (codes "FIX.4.1")

  -- `std::stoi` is not guarded here: what it throws leaves the handler.
  unfoldable pub resend_range : Field → Field → Method Unit
  resend_range first last = do
    from ← lift (stoi_u32 first.value)
    end ← lift (stoi_u32 last.value)
    emit (
        information (
          text "Performing resend from BeginSeqNo = "
          ++ to_string from
          ++ text " to EndSeqNo "
          ++ to_string end))
    version ← gets (λ s. s.options.begin_string)
    perform_resend env from (if is_early_version version && (end == 9999) then 0 else end)
    send_post_logon_test_request env

  unfoldable pub check_resend_range : Message → Option Field → Option Field → Method Unit
  check_resend_range m none last =
      report m (text "ResendRequest does not contain a BeginSeqNo field") Tags.required_tag_missing
  check_resend_range m (some f) none =
      report m (text "ResendRequest does not contain a EndSeqNo field") Tags.required_tag_missing
  check_resend_range m (some f) (some g) = resend_range f g

  unfoldable pub process_resend_request : Message → Method Unit
  process_resend_request m = do
    stop_test_request_timer
    check_resend_range m (try_get Tags.begin_seq_no m.fields) (try_get Tags.end_seq_no m.fields)
