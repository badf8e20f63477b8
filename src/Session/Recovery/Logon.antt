-- ===== src/Session/Recovery/Logon.antt =====
-- The Heartbeat that answers the TestRequest of a session that recovers.
use crocofix.Base.{◌≡◌, refl, sym, subst, ◌∙◌, true, false, Option, some, ℕ}
use crocofix.Base.Bytes.{bytes_eq, to_string}
use crocofix.Base.Bytes.Equality.{bytes_eq_refl}
use crocofix.Base.Exec.{ok, ◌>>=◌}
use crocofix.Tags
use crocofix.Field.{field, try_get}
use crocofix.Message.{Message, msg_seq_num, poss_dup_flag}
use crocofix.Session.State.{
  Session, Env, logging_on, resetting, resending, logged_on, is_state, set_state,
}
use crocofix.Session.Replies.{start_defibrillator}
use crocofix.Session.Process.{complete_logon, match_test_request_id, process_heartbeat}
use crocofix.Session.Handler.{check_sequence, dispatch, process_in_sequence, process_typed}
use crocofix.Session.Delivery.{valid_numbers, advanced}
use crocofix.Session.Recovery.Filled.{Timed, start_defibrillator-Timed}
use crocofix.Session.Handshake.Logons.{next}
use crocofix.Session.Handshake.Probes.{On}

module _ (env : Env) where
  resent-On : (s : Session) → s.state ≡ resending → On env s (complete_logon env (next s)).1
  unfolding complete_logon set_state ◌>>=◌
  resent-On s e =
      let t : Session = (set_state logged_on (next s)).1 in
      let d : Timed t (start_defibrillator env t).1 = (start_defibrillator-Timed env).at t in
      let k : is_state s.state logged_on ≡ false = rw e refl in
      record {
        on = d.state ∙ rw k refl;
        incoming = d.incoming ∙ rw k refl;
        outgoing = d.outgoing ∙ rw k refl;
      }

  pub heartbeat_answer :
      (m : Message) (id : ℕ) (s : Session)
      → poss_dup_flag m ≡ ok false
      → msg_seq_num m ≡ ok s.incoming_msg_seq_num
      → try_get Tags.test_req_id m.fields ≡ some (field Tags.test_req_id (to_string id))
      → s.state ≡ resending
      → s.expected_test_request_id ≡ some id
      → On env s (process_typed env m Tags.heartbeat s).1
  unfolding process_typed process_in_sequence check_sequence dispatch process_heartbeat
      match_test_request_id bytes_eq ◌>>=◌
  heartbeat_answer m id s p n f e x =
      let k : is_state s.state logging_on ≡ false = rw e refl in
      let l : is_state s.state resetting ≡ false = rw e refl in
      let j : is_state s.state resending ≡ true = rw e refl in
      let matched : On env s
          (match_test_request_id env (some (field Tags.test_req_id (to_string id))) (some id)
            (next s)).1 =
        rw (bytes_eq_refl (to_string id)) (resent-On s e) in
      simp (p, valid_numbers env m s n, advanced env m s.incoming_msg_seq_num s n, k, l, j, f)
        (subst
          (λ (y : Option ℕ).
            On env s
              (match_test_request_id env (some (field Tags.test_req_id (to_string id))) y
                (next s)).1)
          (sym x) matched)
