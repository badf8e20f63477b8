-- ===== src/Session/Handshake/Probes.antt =====
-- The TestRequests behind the Logons, and the Heartbeats that answer them.
use crocofix.Base.{
  ℕ, ◌+◌, ◌%◌, ◌≡◌, refl, sym, subst, ◌∙◌, true, false, Option, none, some, [], ◌∷◌,
}
use crocofix.Base.Bytes.{Bytes, bytes_eq, to_string, u32_mod}
use crocofix.Base.Bytes.Equality.{bytes_eq_refl}
use crocofix.Base.Exec.{ok, ◌>>=◌}
use crocofix.Tags
use crocofix.Field.{Fields, field, try_get}
use crocofix.Message.{Message, message, msg_type, msg_seq_num, poss_dup_flag}
use crocofix.Session.State.{Session, Env, logging_on, logged_on, is_state, set_state, update}
use crocofix.Session.Replies.{clear_test_request_timer, start_defibrillator, test_request_due}
use crocofix.Session.Process.{
  answer_test_request, process_test_request, complete_logon, match_test_request_id,
  process_heartbeat,
}
use crocofix.Session.Handler.{
  check_sequence, dispatch_rest, dispatch, process_in_sequence, process_typed,
}
use crocofix.Session.Numbers.{IsPlain}
use crocofix.Session.Delivery.{valid_numbers, advanced}
use crocofix.Session.Recovery.Request.{after_send, send_standard-plain}
use crocofix.Session.Recovery.Filled.{
  Timed, start_defibrillator-Timed, probe_fields, probing, send_test_request-sent,
}
use crocofix.Session.Handshake.Logons.{next}

abbrev pub heartbeat_fields : Bytes → Fields
heartbeat_fields id = field Tags.msg_type Tags.heartbeat ∷ field Tags.test_req_id id ∷ []

heartbeat-IsPlain : (id : Bytes) → IsPlain (message true (heartbeat_fields id))
unfolding message msg_type try_get bytes_eq
heartbeat-IsPlain id = record {
  type = Tags.heartbeat;
  typed = refl;
  not_logon = refl;
  numbered = λ h. cc;
}

abbrev pub timer_cleared : Session → Session
timer_cleared s = record s { test_request_timer_token = none }

module _ (env : Env) where
  abbrev pub probed : Session → Session
  probed s = after_send env (probe_fields s.next_test_request_id) (probing env (timer_cleared s))

  pub due-probed : (s : Session) → test_request_due env s ≡ (ok tt, probed s)
  unfolding test_request_due clear_test_request_timer update ◌>>=◌
  due-probed s = send_test_request-sent env (timer_cleared s)

  pub probe-answered :
      (m : Message) (id : Bytes) (s : Session)
      → poss_dup_flag m ≡ ok false
      → msg_seq_num m ≡ ok s.incoming_msg_seq_num
      → try_get Tags.test_req_id m.fields ≡ some (field Tags.test_req_id id)
      → process_typed env m Tags.test_request s
        ≡ (ok tt, after_send env (heartbeat_fields id) (next s))
  unfolding process_typed process_in_sequence check_sequence dispatch dispatch_rest
      process_test_request answer_test_request bytes_eq ◌>>=◌
  probe-answered m id s p n f =
      simp (p, valid_numbers env m s n, advanced env m s.incoming_msg_seq_num s n, f)
        (send_standard-plain env (heartbeat_fields id) (next s) (heartbeat-IsPlain id))

  -- What the answer leaves behind.
  pub record On (s t : Session) : Type 0 where
    pub on : t.state ≡ logged_on
    pub incoming : t.incoming_msg_seq_num ≡ (s.incoming_msg_seq_num + 1) % u32_mod
    pub outgoing : t.outgoing_msg_seq_num ≡ s.outgoing_msg_seq_num

  complete_logon-On : (s : Session) → s.state ≡ logging_on → On s (complete_logon env (next s)).1
  unfolding complete_logon set_state ◌>>=◌
  complete_logon-On s e =
      let t : Session = (set_state logged_on (next s)).1 in
      let d : Timed t (start_defibrillator env t).1 = (start_defibrillator-Timed env).at t in
      let k : is_state s.state logged_on ≡ false = rw e refl in
      record {
        on = d.state ∙ rw k refl;
        incoming = d.incoming ∙ rw k refl;
        outgoing = d.outgoing ∙ rw k refl;
      }

  pub heartbeat-On :
      (m : Message) (id : ℕ) (s : Session)
      → poss_dup_flag m ≡ ok false
      → msg_seq_num m ≡ ok s.incoming_msg_seq_num
      → try_get Tags.test_req_id m.fields ≡ some (field Tags.test_req_id (to_string id))
      → s.state ≡ logging_on
      → s.expected_test_request_id ≡ some id
      → On s (process_typed env m Tags.heartbeat s).1
  unfolding process_typed process_in_sequence check_sequence dispatch process_heartbeat
      match_test_request_id bytes_eq ◌>>=◌
  heartbeat-On m id s p n f e x =
      let k : is_state s.state logging_on ≡ true = rw e refl in
      let o = complete_logon-On s e in
      let matched : On s
          (match_test_request_id env (some (field Tags.test_req_id (to_string id))) (some id)
            (next s)).1 =
        rw (bytes_eq_refl (to_string id)) o in
      simp (p, valid_numbers env m s n, advanced env m s.incoming_msg_seq_num s n, k, f)
        (subst
          (λ (y : Option ℕ).
            On s
              (match_test_request_id env (some (field Tags.test_req_id (to_string id))) y
                (next s)).1)
          (sym x) matched)
