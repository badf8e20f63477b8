-- ===== src/Session/Steps/Process.antt =====
-- The handlers of the administrative messages, from the primitive methods.
use crocofix.Base.{ℕ, Bool, Option, none, some}
use crocofix.Base.Bytes.{Bytes}
use crocofix.Base.Exec.Keeps.{Does, does_rules}
use crocofix.Field.{Field}
use crocofix.Message.{Message}
use crocofix.Session.State.{Session, Env}
use crocofix.Session.Process.{
  reset, refuse_logon, refuse_heartbeat_interval, use_heartbeat_interval, read_heartbeat_interval,
  extract_heartbeat_interval, resend_from, accept_next_expected, check_next_expected,
  use_next_expected, read_next_expected, confirm_reset, process_reset_logon, process_plain_logon,
  process_logout, answer_test_request, process_test_request, reject_test_request_id, report,
  fill_gap, finish_resend, process_gap_fill, process_reset, check_new_seq_no, use_new_seq_no,
  process_sequence_reset, resend_range, check_resend_range, process_resend_request,
}
use crocofix.Session.Steps.Kept.{Primitives}
use crocofix.Session.Steps.Replies.{
  enter_resending-Does, enter_resetting-Does, close-Does, stop_defibrillator-Does,
  stop_test_request_timer-Does, start_defibrillator-Does, send_standard-Does, send_logon-Does,
  send_reject-Does, send_logout-Does, send_test_request-Does, send_post_logon_test_request-Does,
  perform_resend-Does,
}
use crocofix.Session.Steps.Validate.{
  sequence_number_is_high-Does, sequence_number_is_low-Does, validate_sequence_numbers-Does,
}

module _ (env : Env) {R : Session → Session → Type 0} (p : Primitives env R) where
  pub reset-Does : Does R (reset)
  unfolding reset
  reset-Does =
      search
        (
          does_rules, p.composes, stop_defibrillator-Does, enter_resetting-Does, p.set_outgoings,
          p.set_incomings,
        )
        depth 10

  pub refuse_logon-Does : (w : Bytes) → Does R (refuse_logon env w)
  unfolding refuse_logon
  refuse_logon-Does w = search (does_rules, p.composes, p.emits, send_logout-Does) depth 10

  pub refuse_heartbeat_interval-Does :
      (m : Message) (w r : Bytes) → Does R (refuse_heartbeat_interval env m w r)
  unfolding refuse_heartbeat_interval
  refuse_heartbeat_interval-Does m w r =
      search (does_rules, p.composes, p.emits, send_reject-Does, send_logout-Does) depth 10

  pub use_heartbeat_interval-Does :
      (m : Message) (v : Bytes) (o : Option ℕ) → Does R (use_heartbeat_interval env m v o)
  unfolding use_heartbeat_interval
  use_heartbeat_interval-Does m v none =
      search (does_rules, refuse_heartbeat_interval-Does) depth 10
  use_heartbeat_interval-Does m v (some n) =
      search (does_rules, p.composes, p.set_heartbeat_intervals) depth 10

  pub read_heartbeat_interval-Does :
      (m : Message) (o : Option Field) → Does R (read_heartbeat_interval env m o)
  unfolding read_heartbeat_interval
  read_heartbeat_interval-Does m none = search (does_rules, refuse_heartbeat_interval-Does) depth 10
  read_heartbeat_interval-Does m (some f) =
      search (does_rules, use_heartbeat_interval-Does) depth 10

  pub extract_heartbeat_interval-Does : (m : Message) → Does R (extract_heartbeat_interval env m)
  unfolding extract_heartbeat_interval
  extract_heartbeat_interval-Does m = search (does_rules, read_heartbeat_interval-Does) depth 10

  pub resend_from-Does : (a b : ℕ) → Does R (resend_from env a b)
  unfolding resend_from
  resend_from-Does a b =
      search (does_rules, p.composes, p.emits, enter_resending-Does, perform_resend-Does) depth 10

  pub accept_next_expected-Does : (a b : ℕ) → Does R (accept_next_expected env a b)
  unfolding accept_next_expected
  accept_next_expected-Does a b =
      search
        (
          does_rules, p.composes, resend_from-Does, send_logon-Does,
          send_post_logon_test_request-Does,
        )
        depth 10

  pub check_next_expected-Does : (n : ℕ) → Does R (check_next_expected env n)
  unfolding check_next_expected
  check_next_expected-Does n =
      search (does_rules, p.composes, refuse_logon-Does, accept_next_expected-Does) depth 10

  pub use_next_expected-Does : (v : Bytes) (o : Option ℕ) → Does R (use_next_expected env v o)
  unfolding use_next_expected
  use_next_expected-Does v none = search (does_rules, refuse_logon-Does) depth 10
  use_next_expected-Does v (some n) = search (does_rules, check_next_expected-Does) depth 10

  pub read_next_expected-Does : (o : Option Field) → Does R (read_next_expected env o)
  unfolding read_next_expected
  read_next_expected-Does none = search (does_rules, refuse_logon-Does) depth 10
  read_next_expected-Does (some f) = search (does_rules, use_next_expected-Does) depth 10

  pub confirm_reset-Does : Does R (confirm_reset env)
  unfolding confirm_reset
  confirm_reset-Does =
      search
        (
          does_rules, p.composes, p.emits, send_test_request-Does, reset-Does, send_logon-Does,
          send_post_logon_test_request-Does,
        )
        depth 10

  pub process_reset_logon-Does : (m : Message) → Does R (process_reset_logon env m)
  unfolding process_reset_logon
  process_reset_logon-Does m = search (does_rules, p.composes, p.emits, confirm_reset-Does) depth 10

  pub process_plain_logon-Does : (m : Message) → Does R (process_plain_logon env m)
  unfolding process_plain_logon
  process_plain_logon-Does m =
      search
        (
          does_rules, p.composes, sequence_number_is_low-Does, sequence_number_is_high-Does,
          send_logon-Does, send_post_logon_test_request-Does,
        )
        depth 10

  pub process_logout-Does : Does R (process_logout env)
  unfolding process_logout
  process_logout-Does = search (does_rules, p.composes, p.emits, close-Does) depth 10

  pub answer_test_request-Does :
      (m : Message) (o : Option Field) → Does R (answer_test_request env m o)
  unfolding answer_test_request
  answer_test_request-Does m none =
      search (does_rules, p.composes, p.emits, send_reject-Does) depth 10
  answer_test_request-Does m (some f) = search (does_rules, send_standard-Does) depth 10

  pub process_test_request-Does : (m : Message) → Does R (process_test_request env m)
  unfolding process_test_request
  process_test_request-Does m = search (does_rules, answer_test_request-Does) depth 10

  pub reject_test_request_id-Does : Does R (reject_test_request_id env)
  unfolding reject_test_request_id
  reject_test_request_id-Does = search (does_rules, p.composes, p.emits, close-Does) depth 10

  pub report-Does : (m : Message) (w r : Bytes) → Does R (report env m w r)
  unfolding report
  report-Does m w r = search (does_rules, p.composes, p.emits, send_reject-Does) depth 10

  pub fill_gap-Does : (n : ℕ) → Does R (fill_gap env n)
  unfolding fill_gap
  fill_gap-Does n =
      search (does_rules, p.composes, p.emits, p.set_resents, p.set_incomings) depth 10

  pub finish_resend-Does : Does R (finish_resend env)
  unfolding finish_resend
  finish_resend-Does =
      search (does_rules, p.composes, p.emits, send_test_request-Does, start_defibrillator-Does)
        depth 10

  pub process_gap_fill-Does : (m : Message) (n : ℕ) → Does R (process_gap_fill env m n)
  unfolding process_gap_fill
  process_gap_fill-Does m n =
      search
        (
          does_rules, p.composes, validate_sequence_numbers-Does, report-Does, fill_gap-Does,
          finish_resend-Does,
        )
        depth 10

  pub process_reset-Does : (n : ℕ) → Does R (process_reset env n)
  unfolding process_reset
  process_reset-Does n =
      search (does_rules, p.composes, p.emits, p.set_resents, finish_resend-Does) depth 10

  pub check_new_seq_no-Does :
      (m : Message) (b : Bool) (v : Bytes) (o : Option ℕ) → Does R (check_new_seq_no env m b v o)
  unfolding check_new_seq_no
  check_new_seq_no-Does m b v none = search (does_rules, report-Does) depth 10
  check_new_seq_no-Does m b v (some n) =
      search (does_rules, p.composes, report-Does, process_gap_fill-Does, process_reset-Does) depth
        10

  pub use_new_seq_no-Does : (m : Message) (o : Option Field) → Does R (use_new_seq_no env m o)
  unfolding use_new_seq_no
  use_new_seq_no-Does m none = search (does_rules, report-Does) depth 10
  use_new_seq_no-Does m (some f) = search (does_rules, p.composes, check_new_seq_no-Does) depth 10

  pub process_sequence_reset-Does : (m : Message) → Does R (process_sequence_reset env m)
  unfolding process_sequence_reset
  process_sequence_reset-Does m = search (does_rules, use_new_seq_no-Does) depth 10

  pub resend_range-Does : (f g : Field) → Does R (resend_range env f g)
  unfolding resend_range
  resend_range-Does f g =
      search
        (does_rules, p.composes, p.emits, perform_resend-Does, send_post_logon_test_request-Does)
        depth 10

  pub check_resend_range-Does :
      (m : Message) (o q : Option Field) → Does R (check_resend_range env m o q)
  unfolding check_resend_range
  check_resend_range-Does m none q = search (does_rules, report-Does) depth 10
  check_resend_range-Does m (some f) none = search (does_rules, report-Does) depth 10
  check_resend_range-Does m (some f) (some g) = search (does_rules, resend_range-Does) depth 10

  pub process_resend_request-Does : (m : Message) → Does R (process_resend_request env m)
  unfolding process_resend_request
  process_resend_request-Does m =
      search (does_rules, p.composes, stop_test_request_timer-Does, check_resend_range-Does) depth
        10
