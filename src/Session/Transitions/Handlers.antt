-- ===== src/Session/Transitions/Handlers.antt =====
-- The handlers of incoming messages as steps of a walk through the state machine.
use crocofix.Base.{◌≡◌, ◌||◌, Bool, true, false, Option, none, some, refl, ℕ, if◌then◌else◌}
use crocofix.Base.Bytes.{Bytes, bytes_eq, to_string}
use crocofix.Base.Exec.{pure, ◌>>=◌}
use crocofix.Base.Exec.Keeps.{Does, does_rules}
use crocofix.Field.{Field, try_get}
use crocofix.Tags
use crocofix.Message.{Message}
use crocofix.Session.State.{
  Session, Env, SessionState, connected, disconnected, logging_on, resending, logged_on, resetting,
  is_state, set_state, update,
}
use crocofix.Session.Process.{
  complete_logon, reject_test_request_id, match_test_request_id, process_heartbeat, process_logon,
  process_logout,
}
use crocofix.Session.Handler.{
  dispatch, dispatch_rest, check_sequence, advance_incoming, process_in_sequence, process_typed,
  process_message, on_message_read,
}
use crocofix.Session.Steps.{
  Primitives, start_defibrillator-Does, validate_checksum-Does, validate_body_length-Does,
  validate_begin_string-Does, validate_comp_ids-Does, validate_first_message-Does,
  extract_heartbeat_interval-Does, read_next_expected-Does, process_reset_logon-Does,
  process_plain_logon-Does, validate_sequence_numbers-Does, process_logout-Does,
  process_test_request-Does, process_sequence_reset-Does, process_resend_request-Does,
  reject_test_request_id-Does,
}
use crocofix.Session.Transitions.Moves.{
  Move, completes, completes_reset, completes_resend, Walks, Walks-Composes, set_state-Walks,
}
use crocofix.Session.Transitions.Steps.{Walks-Primitives, update-Walks}

-- The states that a Heartbeat is awaited in.
abbrev is_waiting : SessionState → Bool
is_waiting a = is_state a logging_on || is_state a resetting || is_state a resending

from_waiting : (a : SessionState) → is_waiting a ≡ true → Move a logged_on
from_waiting logging_on h = completes
from_waiting resetting h = completes_reset
from_waiting resending h = completes_resend
from_waiting connected h = cc
from_waiting disconnected h = cc
from_waiting logged_on h = cc

module _ (env : Env) where
  abbrev p : Primitives env Walks
  p = Walks-Primitives env

  complete_logon-Walks :
      (s : Session) → is_waiting s.state ≡ true → Walks s (complete_logon env s).1
  unfolding complete_logon set_state ◌>>=◌
  complete_logon-Walks s h =
      Walks-Composes.join s (set_state logged_on s).1 _
        (set_state-Walks logged_on s (from_waiting s.state h))
        ((start_defibrillator-Does env p).at (set_state logged_on s).1)

  match-Walks :
      (f : Option Field) (expected : Option ℕ) (s : Session)
      → is_waiting s.state ≡ true
      → Walks s (match_test_request_id env f expected s).1
  unfolding match_test_request_id
  match-Walks none n s h = complete_logon-Walks s h
  match-Walks (some f) none s h = (p.emits _ refl).at s
  match-Walks (some f) (some id) s h = by_test (bytes_eq f.value (to_string id))
    where
      by_test :
          (b : Bool) → Walks s ((if b then complete_logon env else reject_test_request_id env) s).1
      by_test true = complete_logon-Walks s h
      by_test false = (reject_test_request_id-Does env p).at s

  heartbeat-Walks : (m : Message) → Does Walks (process_heartbeat env m)
  unfolding process_heartbeat ◌>>=◌
  heartbeat-Walks m = record { at = λ s. by_test s (is_waiting s.state) refl }
    where
      by_test :
          (s : Session) (b : Bool)
          → is_waiting s.state ≡ b
          → Walks s
              ((if b
                  then match_test_request_id env
                      (try_get Tags.test_req_id m.fields)
                      s.expected_test_request_id
                  else pure tt)
                s).1
      by_test s true h =
          match-Walks (try_get Tags.test_req_id m.fields) s.expected_test_request_id s h
      by_test s false h = Walks-Composes.stay s

  receive-Walks : Does Walks (update (λ s. record s { logon_received = true }))
  receive-Walks = update-Walks _ (λ s. refl) (λ s. refl)

  process_logon-Walks : (m : Message) → Does Walks (process_logon env m)
  unfolding process_logon
  process_logon-Walks m =
      search
        (
          does_rules,
          Walks-Composes,
          receive-Walks,
          extract_heartbeat_interval-Does env p,
          read_next_expected-Does env p,
          process_reset_logon-Does env p,
          process_plain_logon-Does env p,
        )
        depth 12

  advance_incoming-Walks : (m : Message) → Does Walks (advance_incoming env m)
  unfolding advance_incoming
  advance_incoming-Walks m = search (does_rules, Walks-Composes, p.set_incomings)

  check_sequence-Walks : (m : Message) (t : Bytes) → Does Walks (check_sequence env m t)
  unfolding check_sequence
  check_sequence-Walks m t =
      search (does_rules, process_logon-Walks, validate_sequence_numbers-Does env p)

  logout-Walks : Does Walks (process_logout env)
  logout-Walks = process_logout-Does env p

  dispatch_rest-Walks : (m : Message) (t : Bytes) → Does Walks (dispatch_rest env m t)
  unfolding dispatch_rest
  dispatch_rest-Walks m t = search (
    does_rules,
    Walks-Composes,
    process_test_request-Does env p,
    process_resend_request-Does env p,
    logout-Walks,
  )

  dispatch-Walks : (m : Message) (t : Bytes) → Does Walks (dispatch env m t)
  unfolding dispatch
  dispatch-Walks m t = search (does_rules, heartbeat-Walks, dispatch_rest-Walks)

  process_in_sequence-Walks : (m : Message) (t : Bytes) → Does Walks (process_in_sequence env m t)
  unfolding process_in_sequence
  process_in_sequence-Walks m t =
      search
        (does_rules, Walks-Composes, check_sequence-Walks, advance_incoming-Walks, dispatch-Walks)
        depth 9

  typed-Walks : (m : Message) (t : Bytes) → Does Walks (process_typed env m t)
  unfolding process_typed
  typed-Walks m t =
      search
        (
          does_rules,
          Walks-Composes,
          p.emits,
          process_in_sequence-Walks,
          process_sequence_reset-Does env p,
        )
        depth 9

  message-Walks : (m : Message) → Does Walks (process_message env m)
  unfolding process_message
  message-Walks m = search (does_rules, Walks-Composes, typed-Walks)

  pub on_message_read-Walks : (m : Message) → Does Walks (on_message_read env m)
  unfolding on_message_read
  on_message_read-Walks m =
      search
        (
          does_rules,
          Walks-Composes,
          p.emits,
          validate_checksum-Does env p,
          validate_body_length-Does env p,
          validate_begin_string-Does env p,
          validate_comp_ids-Does env p,
          validate_first_message-Does env p,
          message-Walks,
        )
        depth 14
