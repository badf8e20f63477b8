-- ===== src/Session/LoggedOn/Dispatch.antt =====
-- The handlers behind the checks: only one of a Heartbeat logs on.
use mathlib.Core.Bool.{false≢true}
use crocofix.Base.{ℕ, ◌≡◌, refl, sym, ◌∙◌, true, false, Option, none, some, arith}
use crocofix.Base.Bytes.{Bytes, bytes_eq}
use crocofix.Base.Exec.{ok}
use crocofix.Base.Exec.Keeps.{Does, does_rules, Does-bind, Does-if, Does-split, Does-bind-lift}
use crocofix.Tags
use crocofix.Field.{Field}
use crocofix.Message.{Message, msg_type}
use crocofix.Session.State.{Env, set_state, update}
use crocofix.Session.Process.{
  process_logout, complete_logon, match_test_request_id, process_heartbeat, process_logon,
}
use crocofix.Session.Handler.{
  dispatch, dispatch_rest, check_sequence, advance_incoming, process_in_sequence, process_typed,
  process_message,
}
use crocofix.Session.Frame.{Frame, Frame-Composes, Frame-Primitives}
use crocofix.Session.Steps.{
  Primitives, start_defibrillator-Does, extract_heartbeat_interval-Does, read_next_expected-Does,
  process_reset_logon-Does, process_plain_logon-Does, validate_sequence_numbers-Does,
  process_logout-Does, process_test_request-Does, process_sequence_reset-Does,
  process_resend_request-Does, reject_test_request_id-Does,
}
use crocofix.Session.LoggedOn.Relations.{
  Steady, Quiet, Steady-Composes, Quiet-Composes, Frame→Quiet, Quiet→Steady,
}

module _ (env : Env) where
  abbrev pub p : Primitives env Frame
  p = Frame-Primitives env

  receive-Quiet : Does Quiet (update (λ s. record s { logon_received = true }))
  unfolding update
  receive-Quiet = record {
    at = λ s. record { steady = record { behaviour = refl; received = λ e. refl }; quiet = λ e. e };
  }

  process_logon-Quiet : (m : Message) → Does Quiet (process_logon env m)
  unfolding process_logon
  process_logon-Quiet m =
      search
        (
          does_rules,
          Quiet-Composes,
          receive-Quiet,
          Frame→Quiet,
          extract_heartbeat_interval-Does env p,
          read_next_expected-Does env p,
          process_reset_logon-Does env p,
          process_plain_logon-Does env p,
        )
        depth 12

  pub advance_incoming-Frame : (m : Message) → Does Frame (advance_incoming env m)
  unfolding advance_incoming
  advance_incoming-Frame m = search (does_rules, Frame-Composes, p.set_incomings)

  check_sequence-Quiet : (m : Message) (t : Bytes) → Does Quiet (check_sequence env m t)
  unfolding check_sequence
  check_sequence-Quiet m t =
      Does-if _ _ _ (process_logon-Quiet m) (Frame→Quiet (validate_sequence_numbers-Does env p m))

  logout-Frame : Does Frame (process_logout env)
  logout-Frame = process_logout-Does env p

  pub dispatch_rest-Frame : (m : Message) (t : Bytes) → Does Frame (dispatch_rest env m t)
  unfolding dispatch_rest
  dispatch_rest-Frame m t = search (
    does_rules,
    Frame-Composes,
    process_test_request-Does env p,
    process_resend_request-Does env p,
    logout-Frame,
  )

  dispatch-Quiet :
      (m : Message) (t : Bytes) → bytes_eq t Tags.heartbeat ≡ false → Does Quiet (dispatch env m t)
  unfolding dispatch
  dispatch-Quiet m t e =
      Does-split _ (process_heartbeat env m) (dispatch_rest env m t)
        (λ (h : bytes_eq t Tags.heartbeat ≡ true). absurd (false≢true (sym e ∙ h)))
        (λ _. Frame→Quiet (dispatch_rest-Frame m t))

  complete_logon-Steady : Does Steady (complete_logon env)
  unfolding complete_logon set_state
  complete_logon-Steady =
      Does-bind Steady-Composes _ _
        (record { at = λ s. record { behaviour = ground arith; received = λ e. ground arith } })
        (λ _. Quiet→Steady (Frame→Quiet (start_defibrillator-Does env p)))

  match-Steady : (o : Option Field) (n : Option ℕ) → Does Steady (match_test_request_id env o n)
  unfolding match_test_request_id
  match-Steady none n = complete_logon-Steady
  match-Steady (some f) none = Quiet→Steady (Frame→Quiet (p.emits _ refl))
  match-Steady (some f) (some i) =
      Does-if _ _ _ complete_logon-Steady
        (Quiet→Steady (Frame→Quiet (reject_test_request_id-Does env p)))

  process_heartbeat-Steady : (m : Message) → Does Steady (process_heartbeat env m)
  unfolding process_heartbeat
  process_heartbeat-Steady m = search (does_rules, Steady-Composes, match-Steady)

  dispatch-Steady : (m : Message) (t : Bytes) → Does Steady (dispatch env m t)
  unfolding dispatch
  dispatch-Steady m t =
      Does-if _ (process_heartbeat env m) (dispatch_rest env m t) (process_heartbeat-Steady m)
        (Quiet→Steady (Frame→Quiet (dispatch_rest-Frame m t)))

  process_in_sequence-Steady : (m : Message) (t : Bytes) → Does Steady (process_in_sequence env m t)
  unfolding process_in_sequence
  process_in_sequence-Steady m t =
      search
        (
          does_rules, Steady-Composes, Frame→Quiet, Quiet→Steady, check_sequence-Quiet,
          advance_incoming-Frame, dispatch-Steady,
        )
        depth 9

  process_rest-Quiet :
      (m : Message) (t : Bytes)
      → Does Quiet (dispatch env m t)
      → Does Quiet (process_in_sequence env m t)
  unfolding process_in_sequence
  process_rest-Quiet m t rest =
      search (does_rules, Quiet-Composes, Frame→Quiet, check_sequence-Quiet, advance_incoming-Frame)
        depth 9

  typed-Steady : (m : Message) (t : Bytes) → Does Steady (process_typed env m t)
  unfolding process_typed
  typed-Steady m t =
      search
        (
          does_rules,
          Steady-Composes,
          Frame→Quiet,
          Quiet→Steady,
          p.emits,
          process_in_sequence-Steady,
          process_sequence_reset-Does env p,
        )
        depth 9

  typed-Quiet :
      (m : Message) (t : Bytes)
      → Does Quiet (process_in_sequence env m t)
      → Does Quiet (process_typed env m t)
  unfolding process_typed
  typed-Quiet m t rest =
      search (does_rules, Quiet-Composes, Frame→Quiet, p.emits, process_sequence_reset-Does env p)
        depth 9

  -- What a message that is no Heartbeat does before it is processed and after.
  pub message-Quiet :
      (m : Message)
      → ((t : Bytes) → msg_type m ≡ ok t → bytes_eq t Tags.heartbeat ≡ false)
      → Does Quiet (process_message env m)
  unfolding process_message
  message-Quiet m other =
      Does-bind-lift Quiet-Composes (msg_type m) (process_typed env m)
        λ t e. typed-Quiet m t (process_rest-Quiet m t (dispatch-Quiet m t (other t e)))

  pub message-Steady : (m : Message) → Does Steady (process_message env m)
  unfolding process_message
  message-Steady m = search (does_rules, Steady-Composes, typed-Steady)
