-- ===== src/Session/LoggedOn.antt =====
-- An acceptor logs on only after it received a Logon.
mod Relations
mod Dispatch
mod Reading
mod Heard
use mathlib.Core.Bool.{false≢true}
use crocofix.Base.{
  ℕ, ◌≡◌, ◌≢◌, refl, sym, ap, ◌∙◌, inl, inr, Bool, true, false, Option, none, some, List, [], ◌∷◌,
  arith, if◌then◌else◌, Bool-cases,
}
use crocofix.Base.Bytes.{Bytes, bytes_eq}
use crocofix.Base.Bytes.Equality.{bytes_eq→eq}
use crocofix.Base.Exec.{Error, Result, ok, err, continue, ◌>>=◌, pure}
use crocofix.Base.Exec.Keeps.{
  Composes, Does, does_rules, Does-bind, Does-if, Does-pure, Does-split, Does-bind-lift, Fails,
  bind-Fails, false-Fails,
}
use crocofix.Tags
use crocofix.Field.{Field}
use crocofix.Message.{Message, msg_type}
use crocofix.Session.State.{
  Session, Method, Env, connected, logged_on, Behaviour, initiator, acceptor, Setting, set_state,
  update, configure, session, logon_behaviour,
}
use crocofix.Session.Process.{
  process_logout, complete_logon, match_test_request_id, process_heartbeat, process_logon,
}
use crocofix.Session.Validate.{validate_first_message, check_first_message, reject_first_message}
use crocofix.Session.Handler.{
  opens, closes, hang_up, heartbeat_due, test_request_timeout, reads, sends, set_numbers,
  configures, passing, dispatch, dispatch_rest, check_sequence, advance_incoming,
  process_in_sequence, process_typed, process_message, on_message_read, Call, run_call, run_calls,
}
use crocofix.Session.Frame.{Frame, Frame-Composes, Frame-Primitives}
use crocofix.Session.Steps.{
  open_session-Does, close-Does, enter_disconnected-Does, defibrillate-Does, test_request_due-Does,
  Primitives, start_defibrillator-Does, validate_checksum-Does, validate_body_length-Does,
  validate_begin_string-Does, validate_comp_ids-Does, validate_first_message-Does,
  extract_heartbeat_interval-Does, read_next_expected-Does, process_reset_logon-Does,
  process_plain_logon-Does, validate_sequence_numbers-Does, process_logout-Does,
  process_test_request-Does, process_sequence_reset-Does, process_resend_request-Does,
  reject_test_request_id-Does,
}
use crocofix.Session.LoggedOn.Relations.{
  MayLogOn, Steady, Quiet, Steady-Composes, Quiet-Composes, ok-injective, err≢ok,
  connected≢logged_on, initiator≢acceptor, Frame→Quiet, Quiet→Steady,
}
use crocofix.Session.LoggedOn.Dispatch.{p, message-Quiet, message-Steady}
pub use crocofix.Session.LoggedOn.Heard.{ReadsLogon}
use crocofix.Session.LoggedOn.Heard.{calls-heard}
use crocofix.Session.LoggedOn.Reading.{
  on_message_read-Steady, on_message_read-Quiet, heartbeat-Barred,
}

-- Logged on only if it may be.
pub record IsSound (s : Session) : Type 0 where
  pub sound : s.state ≡ logged_on → s.options.logon_behaviour ≡ acceptor → s.logon_received ≡ true

Quiet-IsSound : {s t : Session} → Quiet s t → IsSound s → IsSound t
Quiet-IsSound q i = record {
  sound = λ e acc. q.steady.received (i.sound (q.quiet e) (sym q.steady.behaviour ∙ acc));
}

Frame-IsSound : {s t : Session} → Frame s t → IsSound s → IsSound t
Frame-IsSound f i = record {
  sound = λ e acc. f.received ∙ i.sound (f.quiet e) (sym f.behaviour ∙ acc);
}

Steady-IsSound : {s t : Session} → Steady s t → MayLogOn s → IsSound t
Steady-IsSound d may = record { sound = λ e acc. d.received (may (sym d.behaviour ∙ acc)) }

module _ (env : Env) where
  acceptor-IsSound :
      (m : Message) (s : Session) (r : Result Bytes)
      → msg_type m ≡ r
      → s.options.logon_behaviour ≡ acceptor
      → s.logon_received ≡ false
      → IsSound s
      → IsSound (on_message_read env m s).1
  acceptor-IsSound m s (err x) h acc unread i =
      Quiet-IsSound ((on_message_read-Quiet env m (λ t e. absurd (err≢ok (sym h ∙ e)))).at s) i
  acceptor-IsSound m s (ok t) h acc unread i = elim (Bool-cases (bytes_eq t Tags.heartbeat)) [
    | inl e ↦
        Frame-IsSound
          ((heartbeat-Barred env m (h ∙ ap ok (bytes_eq→eq t Tags.heartbeat e))).at s acc unread) i
    | inr e ↦
        Quiet-IsSound ((on_message_read-Quiet env m (λ u k. rw (ok-injective (sym k ∙ h)) e)).at s)
          i
  ]

  on_message_read-IsSound :
      (m : Message) (s : Session) (b : Behaviour) (r : Bool)
      → s.options.logon_behaviour ≡ b
      → s.logon_received ≡ r
      → IsSound s
      → IsSound (on_message_read env m s).1
  on_message_read-IsSound m s b true e f i =
      Steady-IsSound ((on_message_read-Steady env m).at s) (λ _. f)
  on_message_read-IsSound m s initiator false e f i =
      Steady-IsSound ((on_message_read-Steady env m).at s)
        (λ acc. absurd (initiator≢acceptor (sym e ∙ acc)))
  on_message_read-IsSound m s acceptor false e f i = acceptor-IsSound m s (msg_type m) refl e f i

  configure-IsSound : (x : Setting) (s : Session) → IsSound s → IsSound (configure x s).1
  unfolding configure
  configure-IsSound (logon_behaviour b) s i = record { sound = ground (arith, i.sound) }
  configure-IsSound _ s i = record { sound = ground (arith, i.sound) }

  run_call-IsSound : (c : Call) (s : Session) → IsSound s → IsSound (run_call env c s).1
  unfolding run_call
  run_call-IsSound opens s i = Frame-IsSound ((open_session-Does env (p env)).at s) i
  run_call-IsSound closes s i = Frame-IsSound ((close-Does env (p env)).at s) i
  run_call-IsSound hang_up s i = Frame-IsSound ((enter_disconnected-Does env (p env)).at s) i
  run_call-IsSound heartbeat_due s i = Frame-IsSound ((defibrillate-Does env (p env)).at s) i
  run_call-IsSound test_request_timeout s i =
      Frame-IsSound ((test_request_due-Does env (p env)).at s) i
  run_call-IsSound (reads m) s i =
      on_message_read-IsSound m s s.options.logon_behaviour s.logon_received refl refl i
  run_call-IsSound (sends m options) s i =
      Frame-IsSound
        ((Does-bind Frame-Composes _ _ ((p env).sends m options)
            (λ _. Does-pure Frame-Composes tt)).at
          s)
        i
  run_call-IsSound (set_numbers a b) s i =
      Frame-IsSound
        ((Does-bind Frame-Composes _ _ ((p env).set_incomings a) (λ _. (p env).set_outgoings b)).at
          s)
        i
  run_call-IsSound (configures x) s i = configure-IsSound x s i

  run_calls-IsSound : (cs : List Call) (s : Session) → IsSound s → IsSound (run_calls env cs s)
  unfolding run_calls
  run_calls-IsSound [] s i = i
  run_calls-IsSound (c ∷ cs) s i =
      run_calls-IsSound cs (run_call env c s).1 (run_call-IsSound c s i)

acceptor_received :
    (env : Env) (cs : List Call)
    → (run_calls env cs session).state ≡ logged_on
    → (run_calls env cs session).options.logon_behaviour ≡ acceptor
    → (run_calls env cs session).logon_received ≡ true
unfolding session
acceptor_received env cs =
    (run_calls-IsSound env cs session
      (record { sound = λ e acc. absurd (connected≢logged_on e) })).sound

not_yet : session.logon_received ≢ true
unfolding session
not_yet e = false≢true e

-- After any calls of a new session, messages read, timers and settings included, an acceptor that is
-- logged on has read a message whose MsgType is Logon.
pub acceptor_logged_on :
    (env : Env) (cs : List Call)
    → (run_calls env cs session).state ≡ logged_on
    → (run_calls env cs session).options.logon_behaviour ≡ acceptor
    → ReadsLogon cs
acceptor_logged_on env cs e acc =
    elim (calls-heard env cs session (acceptor_received env cs e acc)) [
      | inl h ↦ absurd (not_yet h)
      | inr h ↦ h
    ]
