-- ===== src/Session/Send.antt =====
-- `session::send`.
use crocofix.Base.{ℕ, Bool, false, [], if◌then◌else◌}
use crocofix.Base.Bytes.{Bytes, bytes_eq, to_string}
use crocofix.Base.Exec.{pure, lift, gets, ◌>>=◌, ◌>>◌}
use crocofix.Tags
use crocofix.Field.{Field, Fields, field, SetOperation, replace_first, replace_first_or_append, set}
use crocofix.Message.{
  Message, has_option, set_checksum, set_begin_string, set_msg_seq_num, msg_type,
  reset_seq_num_flag,
}
use crocofix.Session.State.{
  Method, Env, resetting, written, message_sent, SessionOptions, emit, set_state, set_incoming,
  set_outgoing, allocate_outgoing_msg_seq_num,
}

abbrev pub set_if : Bool → Field → SetOperation → Fields → Fields
set_if b f op fs = if b then (set f op fs).1 else fs

-- The fields of a message with its header stamped; `CheckSum` gets its value from the encoder.
unfoldable pub stamped : SessionOptions → ℕ → ℕ → Bytes → Fields → Fields
stamped o options number time fs =
    let fs1 =
      set_if (has_option options set_begin_string) (field Tags.begin_string o.begin_string)
        replace_first fs in
    let fs2 = (set (field Tags.sender_comp_id o.sender_comp_id) replace_first fs1).1 in
    let fs3 = (set (field Tags.target_comp_id o.target_comp_id) replace_first fs2).1 in
    let fs4 =
      set_if (has_option options set_msg_seq_num) (field Tags.msg_seq_num (to_string number))
        replace_first fs3 in
    let fs5 = (set (field Tags.sending_time time) replace_first fs4).1 in
    set_if (has_option options set_checksum) (field Tags.check_sum []) replace_first_or_append fs5

-- A Logon that resets the sequence numbers.
unfoldable pub is_reset : Message → Method Bool
is_reset m = do
  t ← lift (msg_type m)
  if bytes_eq t Tags.logon then lift (reset_seq_num_flag m) else pure false

unfoldable pub restart : Method Unit
restart = do set_state resetting; set_outgoing 1; set_incoming 1

-- The number of a message that takes one.
unfoldable pub number_for : ℕ → Method ℕ
number_for options =
    if has_option options set_msg_seq_num then allocate_outgoing_msg_seq_num else pure 0

module _ (env : Env) where
  unfoldable pub write : ℕ → ℕ → Message → Method Message
  write options number m = do
    s ← gets (λ s. s)
    let out : Message = record m {
      fields =
          stamped s.options options number (env.timestamp s.events s.options.timestamp_format)
            m.fields;
    }
    emit (written out options)
    emit (message_sent (env.encode out options))
    pure (env.encode out options)

  unfoldable pub send : Message → ℕ → Method Message
  send m options = do
    resets ← is_reset m
    if resets then restart else pure tt
    number ← number_for options
    write options number m
