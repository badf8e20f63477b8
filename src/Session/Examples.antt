-- ===== src/Session/Examples.antt =====
-- An acceptor that a peer logs on to, and sessions that differ from a new one in a field or two.
use crocofix.Base.{zero, suc, ◌≢◌, ℕ, List, ◌+◌, ◌%◌, ◌≡◌, refl, true, false, none, [], ◌∷◌, ◌++◌}
use crocofix.Base.Bytes.{Bytes, codes, text, to_string, u32_mod, bytes_eq, digits}
use crocofix.Base.Exec.{ok, err, logic_error, ◌>>=◌}
use crocofix.Tags
use crocofix.Field.{get, Fields, field, try_get, get_bool}
use crocofix.Message.{
  msg_type, Message, message, msg_seq_num, poss_dup_flag, reset_seq_num_flag, is_admin,
  number_of_digits, calculate_body_length, decoded_checksum, format_checksum,
}
use crocofix.Session.State.{
  disconnected, Session, SessionState, Env, logon_behaviour, begin_string, sender_comp_id,
  target_comp_id, logged_on, acceptor, session, state_name, configure, emit, set_state,
  set_incoming, set_heartbeat_interval, allocate_outgoing_msg_seq_num,
}
use crocofix.Session.Handler.{
  Call, opens, reads, configures, run_calls, process_typed, dispatch_rest, dispatch, check_sequence,
  advance_incoming, process_in_sequence, process_message, on_message_read, run_call,
}
use crocofix.Session.Validate.{
  validate_sequence_numbers, check_checksum, validate_checksum, check_body_length,
  validate_body_length, check_begin_string, validate_begin_string, check_comp_id, validate_comp_ids,
  check_first_message, validate_first_message, sequence_number_is_high, sequence_number_is_low,
  refuse,
}
use crocofix.Session.Process.{
  use_heartbeat_interval, read_heartbeat_interval, extract_heartbeat_interval, process_plain_logon,
  process_logon, complete_logon, match_test_request_id, process_heartbeat,
}
use crocofix.Session.Send.{is_reset, number_for, write, send}
use crocofix.Session.Replies.{
  stop_defibrillator, set_heartbeat_token, set_test_request_token, start_defibrillator, send_logon,
  logon, open_session, schedule_test_request, send_post_logon_test_request, close, send_reject,
  send_standard, leave_logged_on, leave_if_logged_on, send_logout,
}
use crocofix.Dictionary.{no_pedigree, is_field_defined}
use crocofix.Session.LoggedOn.{ReadsLogon, acceptor_logged_on}
use crocofix.Session.Delivery.{IsApplication, application_in_sequence, configure-refused}
use crocofix.Session.Refusal.{Check, run_check, failed_check-disconnected, low_number-disconnected}
use crocofix.Session.Recovery.Stamps.{written_messages}
use crocofix.Session.Numbers.{ArePlain, IsPlain, HandedOver, send_all, send_all-consecutive}

-- A writer that leaves messages as they are, one token, one time, and no dictionary.
abbrev pub env : Env
env = record {
  encode = λ m options. m;
  next_token = λ es. 1;
  timestamp = λ es f. [];
  fields = record { field_offsets = []; fields = [] };
}

-- A message from the peer, as the decoder leaves it.
abbrev pub received : Bytes → Bytes → Bytes → Fields → Message
received type number length more = record {
  fields =
      field 8 (codes "FIX.4.4")
      ∷ field 9 length
      ∷ field 35 type
      ∷ field 49 (codes "INIT")
      ∷ field 56 (codes "ACCEPT")
      ∷ field 34 number
      ∷ (more ++ field 10 (codes "000") ∷ []);
  decode_checksum = 0;
  decode_checksum_valid = true;
}

abbrev pub calls : List Call
calls =
    configures (logon_behaviour acceptor)
    ∷ configures (begin_string (codes "FIX.4.4"))
    ∷ configures (sender_comp_id (codes "ACCEPT"))
    ∷ configures (target_comp_id (codes "INIT"))
    ∷ opens
    ∷ reads (received (codes "A") (codes "1") (codes "35") (field 108 (codes "30") ∷ []))
    ∷ reads (received (codes "0") (codes "2") (codes "28") [])
    ∷ []

calls_end :
    ((run_calls env calls session).state ≡ logged_on)
    × ((run_calls env calls session).options.logon_behaviour ≡ acceptor)
unfolding bytes_eq digits to_string try_get get_bool message msg_seq_num poss_dup_flag
    reset_seq_num_flag is_admin number_of_digits calculate_body_length decoded_checksum
    format_checksum session emit set_state set_incoming set_heartbeat_interval
    allocate_outgoing_msg_seq_num configure is_reset number_for write send stop_defibrillator
    set_heartbeat_token set_test_request_token start_defibrillator send_logon logon open_session
    schedule_test_request send_post_logon_test_request check_checksum validate_checksum
    check_body_length validate_body_length check_begin_string validate_begin_string check_comp_id
    validate_comp_ids check_first_message validate_first_message sequence_number_is_high
    sequence_number_is_low validate_sequence_numbers use_heartbeat_interval read_heartbeat_interval
    extract_heartbeat_interval process_plain_logon process_logon complete_logon
    match_test_request_id process_heartbeat dispatch_rest dispatch check_sequence advance_incoming
    process_in_sequence process_typed process_message on_message_read run_call run_calls
calls_end = (refl, refl)

acceptor_logged_on_example : ReadsLogon calls
acceptor_logged_on_example = acceptor_logged_on env calls calls_end.0 calls_end.1

pub application : IsApplication (codes "D")
unfolding bytes_eq
application = record {
  reset = refl;
  logon = refl;
  heartbeat = refl;
  test_request = refl;
  resend_request = refl;
  logout = refl;
  reject = refl;
  xml_non_fix = refl;
}

abbrev pub order : Bytes → Message
order number = received (codes "D") number (codes "0") []

abbrev pub expecting : SessionState → ℕ → Session
expecting state number = record session {
  state = state;
  incoming_msg_seq_num = number;
  incoming_target_msg_seq_num = 5;
}

pub order_number : msg_seq_num (order (codes "7")) ≡ ok 7
unfolding msg_seq_num try_get
order_number = refl

pub order_dup : poss_dup_flag (order (codes "7")) ≡ ok false
unfolding poss_dup_flag get_bool try_get
order_dup = refl

pub order_type : msg_type (order (codes "7")) ≡ ok (codes "D")
unfolding msg_type try_get get
order_type = refl

application_in_sequence_example :
    process_typed env (order (codes "7")) (codes "D") (expecting logged_on 7)
    ≡ (ok tt, record (expecting logged_on 7) { incoming_msg_seq_num = (7 + 1) % u32_mod })
application_in_sequence_example =
    application_in_sequence env (order (codes "7")) (codes "D") false (expecting logged_on 7)
      application order_dup order_number

configure_while_open : configure (sender_comp_id (codes "X")) (expecting logged_on 7) ≡ (
  err (
      logic_error
        (text "session configuration cannot be changed while state = " ++ state_name logged_on)),
  expecting logged_on 7,
)
configure_while_open =
    configure-refused (sender_comp_id (codes "X")) (expecting logged_on 7) refl refl

order_numbered : try_get Tags.msg_seq_num (order (codes "7")).fields ≢ none
unfolding try_get
order_numbered h = cc

abbrev orders : List Message
orders = order (codes "7") ∷ order (codes "7") ∷ []

order-IsPlain : IsPlain (order (codes "7"))
unfolding bytes_eq
order-IsPlain = record {
  type = codes "D";
  typed = order_type;
  not_logon = refl;
  numbered = order_numbered;
}

orders-ArePlain : ArePlain orders
unfolding ArePlain
orders-ArePlain = (order-IsPlain, (order-IsPlain, tt))

send_all-consecutive_example :
    HandedOver 1 orders
      (written_messages (expecting logged_on 7).events)
      (written_messages (run_calls env (send_all orders) (expecting logged_on 7)).events)
unfolding session
send_all-consecutive_example =
    send_all-consecutive env orders (expecting logged_on 7) orders-ArePlain

-- An orchestration of one field, SessionRejectReason, at its tag.
padded : ℕ → List ℕ → List ℕ
padded zero offsets = offsets
padded (suc n) offsets = 9 ∷ padded n offsets

abbrev rejecting : Env
rejecting = record env {
  fields = record {
    field_offsets = padded 373 (0 ∷ []);
    fields =
        record {
          tag = 373;
          is_data = false;
          name = codes "SessionRejectReason";
          type = [];
          synopsis = [];
          pedigree = no_pedigree;
          values = [];
        }
        ∷ [];
  };
}

wrong_length :
    (run_check rejecting (order (codes "7")) Check.body_length (expecting logged_on 7)).0 ≡ ok false
unfolding run_check padded bytes_eq digits to_string try_get is_field_defined message msg_seq_num
    is_admin number_of_digits calculate_body_length emit set_state allocate_outgoing_msg_seq_num
    configure is_reset number_for write send close send_reject refuse check_body_length
    validate_body_length
wrong_length = refl

failed_check-disconnected_example :
    (run_check rejecting (order (codes "7")) Check.body_length (expecting logged_on 7)).1.state
    ≡ disconnected
failed_check-disconnected_example =
    failed_check-disconnected rejecting (order (codes "7")) Check.body_length
      (expecting logged_on 7) wrong_length

low_number : (sequence_number_is_low env (order (codes "7")) (expecting logged_on 9)).0 ≡ ok true
unfolding bytes_eq try_get message msg_type msg_seq_num session emit set_state
    allocate_outgoing_msg_seq_num is_reset number_for write send close stop_defibrillator
    send_standard leave_logged_on leave_if_logged_on send_logout sequence_number_is_low ◌>>=◌
low_number = refl

low_number-disconnected_example :
    (sequence_number_is_low env (order (codes "7")) (expecting logged_on 9)).1.state ≡ disconnected
low_number-disconnected_example =
    low_number-disconnected env (order (codes "7")) (expecting logged_on 9) low_number
