-- ===== src/Session/Handshake/Logons.antt =====
-- The Logons of two sessions.
use crocofix.Base.{
  ℕ, ◌+◌, ◌%◌, ◌≡◌, refl, sym, subst, Bool, true, false, some, [], ◌∷◌, ◌==◌, if◌then◌else◌,
}
use crocofix.Base.Bytes.{bytes_eq, to_string, u32_mod}
use crocofix.Base.Exec.{ok, ◌>>=◌}
use crocofix.Tags
use crocofix.Field.{Field, Fields, field, try_get, get_bool}
use crocofix.Message.{
  Message, message, msg_type, msg_seq_num, poss_dup_flag, reset_seq_num_flag, stoi_u32,
}
use crocofix.Session.State.{
  Session, Env, connected, logging_on, initiator, acceptor, is_acceptor, state_changed, reader_open,
  schedule_relative, emit, set_state, set_heartbeat_interval, update, allocate_outgoing_msg_seq_num,
}
use crocofix.Session.Send.{is_reset, number_for, write, send}
use crocofix.Session.Replies.{
  set_test_request_token, schedule_test_request, send_post_logon_test_request, send_logon, logon,
  open_session,
}
use crocofix.Session.Process.{
  use_heartbeat_interval, read_heartbeat_interval, extract_heartbeat_interval, process_plain_logon,
  process_logon, read_next_expected,
}
use crocofix.Session.Handler.{
  check_sequence, dispatch_rest, dispatch, process_in_sequence, process_typed,
}
use crocofix.Session.Delivery.{not_low, not_high, advanced}
use crocofix.Session.Recovery.Request.{after_send}

abbrev pub logon_fields : ℕ → Fields
logon_fields interval =
    field Tags.msg_type Tags.logon
    ∷ field Tags.encrypt_method Tags.encrypt_method_none
    ∷ field Tags.heart_bt_int (to_string interval)
    ∷ []

abbrev pub opened : Session → Session
opened s = record s {
  state = logging_on;
  events = state_changed connected logging_on ∷ reader_open ∷ s.events;
}

-- What the peer's Logon sets, and the number that is expected behind a message.
abbrev pub received : ℕ → Session → Session
received interval s = record s {
  options = record (s.options) { heartbeat_interval = interval };
  logon_received = true;
}

abbrev pub next : Session → Session
next s = record s { incoming_msg_seq_num = (s.incoming_msg_seq_num + 1) % u32_mod }

-- A Logon in sequence, without ResetSeqNumFlag.
pub record IsLogon (m : Message) (interval : ℕ) (s : Session) : Type 0 where
  pub typed : msg_type m ≡ ok Tags.logon
  pub original : poss_dup_flag m ≡ ok false
  pub numbered : msg_seq_num m ≡ ok s.incoming_msg_seq_num
  pub plain : reset_seq_num_flag m ≡ ok false
  pub value : Field
  pub found : try_get Tags.heart_bt_int m.fields ≡ some value
  pub read : stoi_u32 value.value ≡ ok interval

module _ (env : Env) where
  abbrev pub scheduled : Session → Session
  scheduled s = record s {
    events = schedule_relative s.options.test_request_delay ∷ s.events;
    test_request_timer_token =
        some (env.next_token (schedule_relative s.options.test_request_delay ∷ s.events));
  }

  send_logon-sent :
      (s : Session)
      → s.options.use_next_expected_msg_seq_num ≡ false
      → send_logon env false s
        ≡ (ok tt, after_send env (logon_fields s.options.heartbeat_interval) s)
  unfolding send_logon send is_reset number_for write allocate_outgoing_msg_seq_num emit message
      msg_type reset_seq_num_flag get_bool try_get bytes_eq ◌>>=◌
  send_logon-sent s u = simp u refl

  pub initiator-opened :
      (s : Session)
      → s.state ≡ connected
      → s.options.logon_behaviour ≡ initiator
      → s.options.use_next_expected_msg_seq_num ≡ false
      → open_session env s
        ≡ (ok tt, after_send env (logon_fields s.options.heartbeat_interval) (opened s))
  unfolding open_session logon emit set_state ◌>>=◌
  initiator-opened s e b u = simp (e, b) (send_logon-sent (opened s) u)

  pub acceptor-opened :
      (s : Session)
      → s.state ≡ connected
      → s.options.logon_behaviour ≡ acceptor
      → open_session env s ≡ (ok tt, opened s)
  unfolding open_session logon emit set_state ◌>>=◌
  acceptor-opened s e b = simp (e, b) refl

  module _ (m : Message) (interval : ℕ) (s : Session) (h : IsLogon m interval s)
      (u : s.options.use_next_expected_msg_seq_num ≡ false)
      (d : (s.options.test_request_delay == 0) ≡ false) where
    logon-plain : process_logon env m s ≡ process_plain_logon env m (received interval s)
    unfolding process_logon extract_heartbeat_interval read_heartbeat_interval
        use_heartbeat_interval set_heartbeat_interval update ◌>>=◌
    logon-plain =
        simp (h.plain, h.found, h.read)
          (subst
            (λ (b : Bool).
              (if b
                  then read_next_expected env (try_get Tags.next_expected_msg_seq_num m.fields)
                  else process_plain_logon env m)
                (received interval s)
              ≡ process_plain_logon env m (received interval s))
            (sym u) refl)

    logon-taken :
        (t : Session)
        → process_plain_logon env m (received interval s) ≡ (ok true, t)
        → process_typed env m Tags.logon s
          ≡ (ok tt, record t { incoming_msg_seq_num = (s.incoming_msg_seq_num + 1) % u32_mod })
    unfolding process_typed process_in_sequence check_sequence dispatch dispatch_rest bytes_eq ◌>>=◌
    logon-taken t e =
        simp (h.original, logon-plain, e, advanced env m s.incoming_msg_seq_num t h.numbered) refl

    -- An acceptor answers with a Logon of its own.
    pub acceptor-answers :
        is_acceptor s.options.logon_behaviour ≡ true
        → process_typed env m Tags.logon s
          ≡ (ok tt, next (scheduled (after_send env (logon_fields interval) (received interval s))))
    unfolding process_plain_logon send_post_logon_test_request schedule_test_request
        set_test_request_token emit ◌>>=◌
    acceptor-answers b =
        logon-taken (scheduled (after_send env (logon_fields interval) (received interval s))) (
          simp
            (
              not_low env m (received interval s) h.numbered,
              b,
              send_logon-sent (received interval s) u,
              not_high env m (after_send env (logon_fields interval) (received interval s))
                  h.numbered,
              d,
            )
            refl)

    pub initiator-takes :
        is_acceptor s.options.logon_behaviour ≡ false
        → process_typed env m Tags.logon s ≡ (ok tt, next (scheduled (received interval s)))
    unfolding process_plain_logon send_post_logon_test_request schedule_test_request
        set_test_request_token emit ◌>>=◌
    initiator-takes b = logon-taken (scheduled (received interval s)) (
        simp
          (
            not_low env m (received interval s) h.numbered,
            b,
            not_high env m (received interval s) h.numbered,
            d,
          )
          refl)
