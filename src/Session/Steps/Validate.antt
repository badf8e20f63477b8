-- ===== src/Session/Steps/Validate.antt =====
-- The checks of an incoming message, from the primitive methods.
use crocofix.Base.{ℕ, Bool, Option, none, some}
use crocofix.Base.Bytes.{Bytes}
use crocofix.Base.Exec.Keeps.{Does, does_rules}
use crocofix.Field.{Field}
use crocofix.Message.{Message}
use crocofix.Session.State.{Session, Env, Behaviour}
use crocofix.Session.Validate.{
  check_checksum, validate_checksum, check_body_length, validate_body_length, check_begin_string,
  validate_begin_string, check_comp_id, validate_comp_ids, reject_first_message,
  check_first_message, validate_first_message, recover, sequence_number_is_high,
  sequence_number_is_low, validate_sequence_numbers,
}
use crocofix.Session.Steps.Kept.{Primitives}
use crocofix.Session.Steps.Replies.{
  send_reject-Does, send_logout-Does, request_resend-Does, refuse-Does,
}

module _ (env : Env) {R : Session → Session → Type 0} (p : Primitives env R) where
  pub check_checksum-Does : (m : Message) (o : Option Field) → Does R (check_checksum env m o)
  unfolding check_checksum
  check_checksum-Does m none = search (does_rules, refuse-Does) depth 10
  check_checksum-Does m (some f) = search (does_rules, p.composes, refuse-Does) depth 10

  pub validate_checksum-Does : (m : Message) → Does R (validate_checksum env m)
  unfolding validate_checksum
  validate_checksum-Does m = search (does_rules, check_checksum-Does) depth 10

  pub check_body_length-Does : (m : Message) (o : Option Field) → Does R (check_body_length env m o)
  unfolding check_body_length
  check_body_length-Does m none = search (does_rules, refuse-Does) depth 10
  check_body_length-Does m (some f) = search (does_rules, p.composes, refuse-Does) depth 10

  pub validate_body_length-Does : (m : Message) → Does R (validate_body_length env m)
  unfolding validate_body_length
  validate_body_length-Does m = search (does_rules, check_body_length-Does) depth 10

  pub check_begin_string-Does :
      (m : Message) (v : Bytes) (o : Option Field) → Does R (check_begin_string env m v o)
  unfolding check_begin_string
  check_begin_string-Does m v none = search (does_rules, refuse-Does) depth 10
  check_begin_string-Does m v (some f) = search (does_rules, p.composes, refuse-Does) depth 10

  pub validate_begin_string-Does : (m : Message) → Does R (validate_begin_string env m)
  unfolding validate_begin_string
  validate_begin_string-Does m = search (does_rules, p.composes, check_begin_string-Does) depth 10

  pub check_comp_id-Does :
      (m : Message) (n v : Bytes) (o : Option Field) → Does R (check_comp_id env m n v o)
  unfolding check_comp_id
  check_comp_id-Does m n v o = search (does_rules, p.composes, refuse-Does) depth 10

  pub validate_comp_ids-Does : (m : Message) → Does R (validate_comp_ids env m)
  unfolding validate_comp_ids
  validate_comp_ids-Does m = search (does_rules, p.composes, check_comp_id-Does) depth 10

  pub reject_first_message-Does : (m : Message) → Does R (reject_first_message env m)
  unfolding reject_first_message
  reject_first_message-Does m =
      search (does_rules, p.composes, p.emits, send_reject-Does, send_logout-Does) depth 10

  pub check_first_message-Does :
      (m : Message) (b : Behaviour) (r : Bool) → Does R (check_first_message env m b r)
  unfolding check_first_message
  check_first_message-Does m b r =
      search (does_rules, p.composes, reject_first_message-Does) depth 10

  pub validate_first_message-Does : (m : Message) → Does R (validate_first_message env m)
  unfolding validate_first_message
  validate_first_message-Does m = search (does_rules, p.composes, check_first_message-Does) depth 10

  pub recover-Does : (n : ℕ) → Does R (recover env n)
  unfolding recover
  recover-Does n = search (does_rules, p.composes, request_resend-Does, p.extend_targets) depth 10

  pub sequence_number_is_high-Does : (m : Message) → Does R (sequence_number_is_high env m)
  unfolding sequence_number_is_high
  sequence_number_is_high-Does m = search (does_rules, p.composes, recover-Does) depth 10

  pub sequence_number_is_low-Does : (m : Message) → Does R (sequence_number_is_low env m)
  unfolding sequence_number_is_low
  sequence_number_is_low-Does m =
      search (does_rules, p.composes, p.emits, send_logout-Does) depth 10

  pub validate_sequence_numbers-Does : (m : Message) → Does R (validate_sequence_numbers env m)
  unfolding validate_sequence_numbers
  validate_sequence_numbers-Does m =
      search (does_rules, p.composes, sequence_number_is_high-Does, sequence_number_is_low-Does)
        depth 10
