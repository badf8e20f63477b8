-- ===== src/Session/Recovery/Request.antt =====
-- The side that misses messages: it asks for them.
use crocofix.Base.{ℕ, ◌+◌, ◌%◌, ◌<◌, ◌≡◌, refl, true, false, none, some, [], ◌∷◌, ◌++◌, arith, ltb}
use crocofix.Base.Bytes.{Bytes, text, bytes_eq, to_string, u32_mod}
use crocofix.Base.Exec.{ok, ◌>>=◌}
use crocofix.Tags
use crocofix.Field.{Fields, field, try_get}
use crocofix.Message.{Message, message, msg_type, msg_seq_num, standard}
use crocofix.Session.State.{
  Session, Env, resending, is_state, information, state_changed, message_sent, written, emit,
  set_state, update,
}
use crocofix.Session.Replies.{send_standard, note_recovery, request_resend}
use crocofix.Session.Validate.{recover, sequence_number_is_high, validate_sequence_numbers}
use crocofix.Session.Numbers.{IsPlain, sent_out, send-plain, stamped-number}
use crocofix.Session.Recovery.Stamps.{stamped-other}

-- The state behind a message of the session's own.
abbrev pub after_send : Env → Fields → Session → Session
after_send env fs s = record s {
  outgoing_msg_seq_num = (s.outgoing_msg_seq_num + 1) % u32_mod;
  events =
      message_sent (env.encode (sent_out env (message true fs) s) standard)
      ∷ written (sent_out env (message true fs) s) standard
      ∷ s.events;
}

pub send_standard-plain :
    (env : Env) (fs : Fields) (s : Session)
    → IsPlain (message true fs)
    → send_standard env fs s ≡ (ok tt, after_send env fs s)
unfolding send_standard ◌>>=◌
send_standard-plain env fs s p = rw (send-plain env (message true fs) s p) refl

abbrev pub request_fields : ℕ → ℕ → Fields
request_fields from to =
    field Tags.msg_type Tags.resend_request
    ∷ field Tags.begin_seq_no (to_string from)
    ∷ field Tags.end_seq_no (to_string to)
    ∷ []

request-IsPlain : (from to : ℕ) → IsPlain (message true (request_fields from to))
unfolding message msg_type try_get bytes_eq
request-IsPlain from to = record {
  type = Tags.resend_request;
  typed = refl;
  not_logon = refl;
  numbered = λ h. cc;
}

-- The state in which the request goes out.
abbrev pub recovering : ℕ → Session → Session
recovering number s = record s {
  state = resending;
  incoming_resent_msg_seq_num = s.incoming_msg_seq_num;
  incoming_target_msg_seq_num = number;
  events =
      information (
        text "Requesting resend, BeginSeqNo "
        ++ to_string s.incoming_msg_seq_num
        ++ text " EndSeqNo "
        ++ to_string number)
      ∷ state_changed s.state resending
      ∷ information (
          text "Recoverable message sequence error, expected "
          ++ to_string s.incoming_msg_seq_num
          ++ text " received "
          ++ to_string number
          ++ text " - initiating recovery")
      ∷ s.events;
}

-- What the request says.
pub record Asks (from to number : ℕ) (w : Message) : Type 0 where
  pub typed : try_get Tags.msg_type w.fields ≡ some (field Tags.msg_type Tags.resend_request)
  pub original : try_get Tags.poss_dup_flag w.fields ≡ none
  pub numbered :
      try_get Tags.msg_seq_num w.fields ≡ some (field Tags.msg_seq_num (to_string number))
  pub begins : try_get Tags.begin_seq_no w.fields ≡ some (field Tags.begin_seq_no (to_string from))
  pub ends : try_get Tags.end_seq_no w.fields ≡ some (field Tags.end_seq_no (to_string to))

module _ (env : Env) where
  abbrev pub requested : ℕ → Session → Session
  requested number s =
      after_send env (request_fields s.incoming_msg_seq_num number) (recovering number s)

  request-sent :
      (number : ℕ) (s : Session)
      → is_state s.state resending ≡ false
      → request_resend env number s ≡ (ok tt, requested number s)
  unfolding request_resend emit set_state note_recovery update ◌>>=◌
  request-sent number s e = rw e (
      send_standard-plain env (request_fields s.incoming_msg_seq_num number) (recovering number s)
        (request-IsPlain s.incoming_msg_seq_num number))

  -- A message from behind a gap makes the session ask for what is missing.
  pub gap-requested :
      (m : Message) (number : ℕ) (s : Session)
      → is_state s.state resending ≡ false
      → msg_seq_num m ≡ ok number
      → s.incoming_msg_seq_num < number
      → validate_sequence_numbers env m s ≡ (ok false, requested number s)
  unfolding validate_sequence_numbers sequence_number_is_high recover ◌>>=◌
  gap-requested m number s e h l =
      let k : ltb s.incoming_msg_seq_num number ≡ true = ground (arith, l) in
      rw (h, k, e, request-sent number s e) refl

  pub request-Asks :
      (from to : ℕ) (s : Session)
      → Asks from to s.outgoing_msg_seq_num (sent_out env (message true (request_fields from to)) s)
  unfolding message try_get
  request-Asks from to s =
      let fs : Fields = (message true (request_fields from to)).fields in
      let time : Bytes = env.timestamp s.events s.options.timestamp_format in
      let n : ℕ = s.outgoing_msg_seq_num in
      record {
        typed =
            stamped-other s.options standard n time fs Tags.msg_type
              (record {
                begin_string = refl;
                sender_comp_id = refl;
                target_comp_id = refl;
                sending_time = refl;
                check_sum = refl;
              })
              refl;
        original =
            stamped-other s.options standard n time fs Tags.poss_dup_flag
              (record {
                begin_string = refl;
                sender_comp_id = refl;
                target_comp_id = refl;
                sending_time = refl;
                check_sum = refl;
              })
              refl;
        numbered = stamped-number s.options n time fs (λ h. cc);
        begins =
            stamped-other s.options standard n time fs Tags.begin_seq_no
              (record {
                begin_string = refl;
                sender_comp_id = refl;
                target_comp_id = refl;
                sending_time = refl;
                check_sum = refl;
              })
              refl;
        ends =
            stamped-other s.options standard n time fs Tags.end_seq_no
              (record {
                begin_string = refl;
                sender_comp_id = refl;
                target_comp_id = refl;
                sending_time = refl;
                check_sum = refl;
              })
              refl;
      }
