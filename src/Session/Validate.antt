-- ===== src/Session/Validate.antt =====
-- The checks that an incoming message passes before it is processed. `false` ends its processing.
use crocofix.Base.{
  ℕ, Bool, true, false, not, ◌||◌, Option, none, some, [], ◌++◌, ltb, if◌then◌else◌,
}
use crocofix.Base.Bytes.{Bytes, text, bytes_eq, to_string}
use crocofix.Base.Exec.{pure, lift, gets, ◌>>=◌, ◌>>◌}
use crocofix.Tags
use crocofix.Field.{Field, try_get}
use crocofix.Message.{
  Message, msg_type, msg_seq_num, calculate_body_length, decoded_checksum, format_checksum,
}
use crocofix.Session.State.{
  Method, Env, Behaviour, resending, is_state, is_initiator, error, emit, update,
}
use crocofix.Session.Replies.{close, send_reject, send_logout, request_resend}

abbrev pub value_of : Option Field → Bytes
value_of none = []
value_of (some f) = f.value

-- Whether an optional field is there with this value.
abbrev pub holds : Option Field → Bytes → Bool
holds none v = false
holds (some f) v = bytes_eq f.value v

module _ (env : Env) where
  -- `error(text); send_reject(…); close(); return false;`
  unfoldable pub refuse : Message → Bytes → Bytes → Method Bool
  refuse m what reason = do emit (error what); send_reject env m what reason; close; pure false

  unfoldable pub check_checksum : Message → Option Field → Method Bool
  check_checksum m none =
      refuse m (text "Received message without a CheckSum") Tags.required_tag_missing
  check_checksum m (some f) = do
    sum ← lift (decoded_checksum m)
    calculated ← lift (format_checksum sum)
    if bytes_eq f.value calculated
        then pure true
        else refuse m
            (text "Received message with an invalid CheckSum, expected "
              ++ calculated
              ++ text " received "
              ++ f.value)
            Tags.value_is_incorrect

  unfoldable pub validate_checksum : Message → Method Bool
  validate_checksum m = check_checksum m (try_get Tags.check_sum m.fields)

  unfoldable pub check_body_length : Message → Option Field → Method Bool
  check_body_length m none =
      refuse m (text "Received message without a BodyLength") Tags.required_tag_missing
  check_body_length m (some f) =
      if bytes_eq f.value (to_string (calculate_body_length m))
      then pure true
      else refuse m
          (text "Received message with an invalid BodyLength, expected "
            ++ to_string (calculate_body_length m)
            ++ text " received "
            ++ f.value)
          Tags.value_is_incorrect

  unfoldable pub validate_body_length : Message → Method Bool
  validate_body_length m = check_body_length m (try_get Tags.body_length m.fields)

  unfoldable pub check_begin_string : Message → Bytes → Option Field → Method Bool
  check_begin_string m expected none =
      refuse m (text "Received message without a BeginString") Tags.required_tag_missing
  check_begin_string m expected (some f) =
      if bytes_eq f.value expected
      then pure true
      else refuse m
          (text "Invalid BeginString, received " ++ f.value ++ text " when expecting " ++ expected)
          Tags.value_is_incorrect

  unfoldable pub validate_begin_string : Message → Method Bool
  validate_begin_string m = do
    expected ← gets (λ s. s.options.begin_string)
    check_begin_string m expected (try_get Tags.begin_string m.fields)

  unfoldable pub check_comp_id : Message → Bytes → Bytes → Option Field → Method Bool
  check_comp_id m name expected f =
      if holds f expected
      then pure true
      else refuse m
          (text "Received "
            ++ name
            ++ text " '"
            ++ value_of f
            ++ text "' when expecting '"
            ++ expected
            ++ text "'")
          Tags.comp_id_problem

  unfoldable pub validate_comp_ids : Message → Method Bool
  validate_comp_ids m = do
    o ← gets (λ s. s.options)
    mine ←
        check_comp_id m (text "TargetCompID") o.sender_comp_id
          (try_get Tags.target_comp_id m.fields)
    if mine
        then check_comp_id m (text "SenderCompID") o.target_comp_id
            (try_get Tags.sender_comp_id m.fields)
        else pure false

  unfoldable pub reject_first_message : Message → Method Bool
  reject_first_message m = do
    emit (error (text "First message is not a Logon"))
    send_reject env m (text "First message is not a Logon") Tags.other
    send_logout env (text "First message is not a Logon")
    pure false

  unfoldable pub check_first_message : Message → Behaviour → Bool → Method Bool
  check_first_message m behaviour logon_received =
      if is_initiator behaviour || logon_received then pure true else do
        t ← lift (msg_type m)
        if bytes_eq t Tags.logon || bytes_eq t Tags.reject || bytes_eq t Tags.logout
            then pure true
            else reject_first_message m

  unfoldable pub validate_first_message : Message → Method Bool
  validate_first_message m = do
    s ← gets (λ s. s)
    check_first_message m s.options.logon_behaviour s.logon_received

  unfoldable pub extend_target : ℕ → Method Unit
  extend_target number = update λ s.
      if ltb s.incoming_target_msg_seq_num number
      then record s { incoming_target_msg_seq_num = number }
      else s

  unfoldable pub recover : ℕ → Method Bool
  recover number = do
    s ← gets (λ s. s)
    if is_state s.state resending then extend_target number else request_resend env number
    pure true

  unfoldable pub sequence_number_is_high : Message → Method Bool
  sequence_number_is_high m = do
    number ← lift (msg_seq_num m)
    expected ← gets (λ s. s.incoming_msg_seq_num)
    if ltb expected number then recover number else pure false

  abbrev too_low : ℕ → ℕ → Bytes
  too_low expected number =
      text "MsgSeqNum too low, expecting "
      ++ to_string expected
      ++ text " but received "
      ++ to_string number

  unfoldable pub sequence_number_is_low : Message → Method Bool
  sequence_number_is_low m = do
    number ← lift (msg_seq_num m)
    expected ← gets (λ s. s.incoming_msg_seq_num)
    if ltb number expected
        then (do
          emit (error (too_low expected number))
          send_logout env (too_low expected number)
          pure true)
        else pure false

  unfoldable pub validate_sequence_numbers : Message → Method Bool
  validate_sequence_numbers m = do
    high ← sequence_number_is_high m
    if high then pure false else do low ← sequence_number_is_low m; pure (not low)
