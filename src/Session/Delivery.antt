-- ===== src/Session/Delivery.antt =====
-- What single steps of a session do to its numbers, exactly.
use crocofix.Base.{ℕ, ◌+◌, ◌%◌, ◌<◌, ◌≡◌, refl, Bool, true, false, ◌++◌, arith, ltb, if◌then◌else◌}
use crocofix.Base.Bytes.{Bytes, text, bytes_eq, u32_mod}
use crocofix.Base.Exec.{ok, err, logic_error, ◌>>=◌}
use crocofix.Tags
use crocofix.Message.{Message, msg_seq_num, poss_dup_flag}
use crocofix.Session.State.{
  Session, Env, connected, is_state, state_name, set_incoming, Setting, is_guarded, configure,
  ensure_options_are_mutable,
}
use crocofix.Session.Validate.{
  sequence_number_is_high, sequence_number_is_low, validate_sequence_numbers,
}
use crocofix.Session.Handler.{
  check_sequence, advance_incoming, dispatch_rest, dispatch, process_in_sequence, process_typed,
}

ltb_irrefl : (n : ℕ) → ltb n n ≡ false
ltb_irrefl n = ground arith

ltb_of : {m n : ℕ} → m < n → ltb m n ≡ true
ltb_of h = ground arith

-- A message type that the session itself does nothing about.
pub record IsApplication (t : Bytes) : Type 0 where
  pub reset : bytes_eq t Tags.sequence_reset ≡ false
  pub logon : bytes_eq t Tags.logon ≡ false
  pub heartbeat : bytes_eq t Tags.heartbeat ≡ false
  pub test_request : bytes_eq t Tags.test_request ≡ false
  pub resend_request : bytes_eq t Tags.resend_request ≡ false
  pub logout : bytes_eq t Tags.logout ≡ false
  pub reject : bytes_eq t Tags.reject ≡ false
  pub xml_non_fix : bytes_eq t Tags.xml_non_fix ≡ false

module _ (env : Env) where
  pub not_high :
      (m : Message) (s : Session)
      → msg_seq_num m ≡ ok s.incoming_msg_seq_num
      → sequence_number_is_high env m s ≡ (ok false, s)
  unfolding sequence_number_is_high ◌>>=◌
  not_high m s h = rw (h, ltb_irrefl s.incoming_msg_seq_num) refl

  pub not_low :
      (m : Message) (s : Session)
      → msg_seq_num m ≡ ok s.incoming_msg_seq_num
      → sequence_number_is_low env m s ≡ (ok false, s)
  unfolding sequence_number_is_low ◌>>=◌
  not_low m s h = rw (h, ltb_irrefl s.incoming_msg_seq_num) refl

  pub valid_numbers :
      (m : Message) (s : Session)
      → msg_seq_num m ≡ ok s.incoming_msg_seq_num
      → validate_sequence_numbers env m s ≡ (ok true, s)
  unfolding validate_sequence_numbers ◌>>=◌
  valid_numbers m s h = rw (not_high m s h, not_low m s h) refl

  no_dispatch :
      (m : Message) (t : Bytes) (s : Session) → IsApplication t → dispatch env m t s ≡ (ok tt, s)
  unfolding dispatch dispatch_rest ◌>>=◌
  no_dispatch m t s a = rw (a.heartbeat, a.test_request, a.resend_request, a.logout) refl

pub advanced :
    (env : Env) (m : Message) (n : ℕ) (s : Session)
    → msg_seq_num m ≡ ok n
    → advance_incoming env m s ≡ (ok tt, record s { incoming_msg_seq_num = (n + 1) % u32_mod })
unfolding advance_incoming ◌>>=◌ set_incoming
advanced env m n s h = rw h refl

-- An application message that carries the expected number, and a legible PossDupFlag or none, is taken
-- without a call or an event, and the next number is expected, with the wrap-around of `uint32_t`.
pub application_in_sequence :
    (env : Env) (m : Message) (t : Bytes) (dup : Bool) (s : Session)
    → IsApplication t
    → poss_dup_flag m ≡ ok dup
    → msg_seq_num m ≡ ok s.incoming_msg_seq_num
    → process_typed env m t s
      ≡ (ok tt, record s { incoming_msg_seq_num = (s.incoming_msg_seq_num + 1) % u32_mod })
unfolding process_typed process_in_sequence check_sequence ◌>>=◌
application_in_sequence env m t true s a d q =
    rw
      (
        d,
        a.reset,
        a.logon,
        a.heartbeat,
        a.test_request,
        a.resend_request,
        a.reject,
        a.logout,
        a.xml_non_fix,
        valid_numbers env m s q,
        advanced env m s.incoming_msg_seq_num s q,
      )
      (no_dispatch env m t _ a)
application_in_sequence env m t false s a d q =
    rw (d, a.reset, a.logon, valid_numbers env m s q, advanced env m s.incoming_msg_seq_num s q)
      (no_dispatch env m t _ a)

target_if :
    (b : Bool) (n : ℕ) (s : Session)
    → (if b then record s { incoming_target_msg_seq_num = n } else s)
      ≡ record s { incoming_target_msg_seq_num = if b then n else s.incoming_target_msg_seq_num }
target_if true n s = refl
target_if false n s = refl

-- A setting that needs the session unused is refused in every state but `connected`: the call throws
-- and changes nothing.
pub configure-refused :
    (x : Setting) (s : Session)
    → is_guarded x ≡ true
    → is_state s.state connected ≡ false
    → configure x s ≡ (
      err (
          logic_error
            (text "session configuration cannot be changed while state = " ++ state_name s.state)),
      s,
    )
unfolding configure ensure_options_are_mutable ◌>>=◌
configure-refused x s g e = rw (g, e) refl
