-- ===== src/Session/LoggedOn/Heard.antt =====
-- A session has received a Logon only after it has read one.
use mathlib.Core.Bool.{false≢true}
use crocofix.Base.{
  ℕ, ◌≡◌, refl, sym, ap, ◌∙◌, ◌⊎◌, inl, inr, Bool-cases, true, false, Option, none, some, List, [],
  ◌∷◌, arith,
}
use crocofix.Base.Bytes.{Bytes, bytes_eq}
use crocofix.Base.Bytes.Equality.{bytes_eq→eq}
use crocofix.Base.Exec.{Result, ok, err}
use crocofix.Base.Exec.Keeps.{
  Composes, Does, does_rules, Does-bind, Does-if, Does-pure, Does-split, Does-bind-lift,
}
use crocofix.Tags
use crocofix.Field.{Field}
use crocofix.Message.{Message, msg_type}
use crocofix.Session.State.{Session, Method, Env, Setting, logon_behaviour, set_state, configure}
use crocofix.Session.Process.{
  complete_logon, match_test_request_id, process_heartbeat, process_logon,
}
use crocofix.Session.Validate.{validate_first_message, validate_sequence_numbers}
use crocofix.Session.Handler.{
  opens, closes, hang_up, heartbeat_due, test_request_timeout, reads, sends, set_numbers,
  configures, dispatch, dispatch_rest, check_sequence, process_in_sequence, process_typed,
  process_message, on_message_read, Call, run_call, run_calls,
}
use crocofix.Session.Frame.{Frame, Frame-Composes}
use crocofix.Session.Steps.{
  open_session-Does, close-Does, enter_disconnected-Does, defibrillate-Does, test_request_due-Does,
  start_defibrillator-Does, validate_first_message-Does, validate_sequence_numbers-Does,
  process_sequence_reset-Does, reject_test_request_id-Does,
}
use crocofix.Session.LoggedOn.Relations.{err≢ok, ok-injective}
use crocofix.Session.LoggedOn.Dispatch.{p, advance_incoming-Frame, dispatch_rest-Frame}
use crocofix.Session.LoggedOn.Reading.{handler-Does}

-- The receipt of a Logon is as it was.
record Unheard (s t : Session) : Type 0 where
  same : t.logon_received ≡ s.logon_received

Unheard-Composes : Composes Unheard
Unheard-Composes = record {
  stay = λ s. record { same = refl };
  join = λ s t u a b. record { same = b.same ∙ a.same };
}

Frame→Unheard : {A : Type 0} {m : Method A} → Does Frame m → Does Unheard m
Frame→Unheard d = record { at = λ s. record { same = (d.at s).received } }

module _ (env : Env) where
  complete_logon-Unheard : Does Unheard (complete_logon env)
  unfolding complete_logon set_state
  complete_logon-Unheard =
      Does-bind Unheard-Composes _ _ (record { at = λ s. record { same = ground arith } })
        (λ _. Frame→Unheard (start_defibrillator-Does env (p env)))

  match-Unheard : (o : Option Field) (n : Option ℕ) → Does Unheard (match_test_request_id env o n)
  unfolding match_test_request_id
  match-Unheard none n = complete_logon-Unheard
  match-Unheard (some f) none = Frame→Unheard ((p env).emits _ refl)
  match-Unheard (some f) (some i) =
      Does-if _ _ _ complete_logon-Unheard (Frame→Unheard (reject_test_request_id-Does env (p env)))

  process_heartbeat-Unheard : (m : Message) → Does Unheard (process_heartbeat env m)
  unfolding process_heartbeat
  process_heartbeat-Unheard m = search (does_rules, Unheard-Composes, match-Unheard)

  dispatch-Unheard : (m : Message) (t : Bytes) → Does Unheard (dispatch env m t)
  unfolding dispatch
  dispatch-Unheard m t =
      Does-if _ (process_heartbeat env m) (dispatch_rest env m t) (process_heartbeat-Unheard m)
        (Frame→Unheard (dispatch_rest-Frame env m t))

  check_sequence-Unheard :
      (m : Message) (t : Bytes)
      → bytes_eq t Tags.logon ≡ false
      → Does Unheard (check_sequence env m t)
  unfolding check_sequence
  check_sequence-Unheard m t e =
      Does-split _ (process_logon env m) (validate_sequence_numbers env m)
        (λ (h : bytes_eq t Tags.logon ≡ true). absurd (false≢true (sym e ∙ h)))
        (λ _. Frame→Unheard (validate_sequence_numbers-Does env (p env) m))

  in_sequence-Unheard :
      (m : Message) (t : Bytes)
      → Does Unheard (check_sequence env m t)
      → Does Unheard (process_in_sequence env m t)
  unfolding process_in_sequence
  in_sequence-Unheard m t first =
      search (does_rules, Unheard-Composes, Frame→Unheard, advance_incoming-Frame, dispatch-Unheard)
        depth 9

  typed-Unheard :
      (m : Message) (t : Bytes)
      → Does Unheard (process_in_sequence env m t)
      → Does Unheard (process_typed env m t)
  unfolding process_typed
  typed-Unheard m t rest =
      search
        (
          does_rules,
          Unheard-Composes,
          Frame→Unheard,
          (p env).emits,
          process_sequence_reset-Does env (p env),
        )
        depth 9

  message-Unheard :
      (m : Message)
      → ((t : Bytes) → msg_type m ≡ ok t → bytes_eq t Tags.logon ≡ false)
      → Does Unheard (process_message env m)
  unfolding process_message
  message-Unheard m other =
      Does-bind-lift Unheard-Composes (msg_type m) (process_typed env m)
        λ t e. typed-Unheard m t (in_sequence-Unheard m t (check_sequence-Unheard m t (other t e)))

  read-Unheard :
      (m : Message)
      → ((t : Bytes) → msg_type m ≡ ok t → bytes_eq t Tags.logon ≡ false)
      → Does Unheard (on_message_read env m)
  read-Unheard m other =
      handler-Does env Unheard-Composes (λ A n d. Frame→Unheard d) m
        (Does-bind Unheard-Composes (validate_first_message env m) _
          (Frame→Unheard (validate_first_message-Does env (p env) m))
          (λ b. Does-if b _ _ (message-Unheard m other) (Does-pure Unheard-Composes tt)))

-- One of the calls reads a Logon.
pub data ReadsLogon : List Call → Type 0 where
  now : (m : Message) (cs : List Call) → msg_type m ≡ ok Tags.logon → ReadsLogon (reads m ∷ cs)
  later : (c : Call) (cs : List Call) → ReadsLogon cs → ReadsLogon (c ∷ cs)

module _ (env : Env) where
  read-heard :
      (m : Message) (cs : List Call) (s : Session) (r : Result Bytes)
      → msg_type m ≡ r
      → (on_message_read env m s).1.logon_received ≡ true
      → (s.logon_received ≡ true) ⊎ ReadsLogon (reads m ∷ cs)
  read-heard m cs s (err x) h e =
      inl (sym ((read-Unheard env m (λ t k. absurd (err≢ok (sym h ∙ k)))).at s).same ∙ e)
  read-heard m cs s (ok t) h e = elim (Bool-cases (bytes_eq t Tags.logon)) [
    | inl l ↦ inr (now m cs (h ∙ ap ok (bytes_eq→eq t Tags.logon l)))
    | inr l ↦
        inl (sym ((read-Unheard env m (λ u k. rw (ok-injective (sym k ∙ h)) l)).at s).same ∙ e)
  ]

  configure-Unheard : (x : Setting) (s : Session) → Unheard s (configure x s).1
  unfolding configure
  configure-Unheard (logon_behaviour b) s = record { same = ground arith }
  configure-Unheard _ s = record { same = ground arith }

  call-heard :
      (c : Call) (cs : List Call) (s : Session)
      → (run_call env c s).1.logon_received ≡ true
      → (s.logon_received ≡ true) ⊎ ReadsLogon (c ∷ cs)
  unfolding run_call
  call-heard opens cs s e = inl (sym ((open_session-Does env (p env)).at s).received ∙ e)
  call-heard closes cs s e = inl (sym ((close-Does env (p env)).at s).received ∙ e)
  call-heard hang_up cs s e = inl (sym ((enter_disconnected-Does env (p env)).at s).received ∙ e)
  call-heard heartbeat_due cs s e = inl (sym ((defibrillate-Does env (p env)).at s).received ∙ e)
  call-heard test_request_timeout cs s e =
      inl (sym ((test_request_due-Does env (p env)).at s).received ∙ e)
  call-heard (reads m) cs s e = read-heard m cs s (msg_type m) refl e
  call-heard (sends m options) cs s e = inl (
      sym
        ((Does-bind Frame-Composes _ _ ((p env).sends m options)
            (λ _. Does-pure Frame-Composes tt)).at
          s).received
      ∙ e)
  call-heard (set_numbers a b) cs s e = inl (
      sym
        ((Does-bind Frame-Composes _ _ ((p env).set_incomings a) (λ _. (p env).set_outgoings b)).at
          s).received
      ∙ e)
  call-heard (configures x) cs s e = inl (sym (configure-Unheard x s).same ∙ e)

  pub calls-heard :
      (cs : List Call) (s : Session)
      → (run_calls env cs s).logon_received ≡ true
      → (s.logon_received ≡ true) ⊎ ReadsLogon cs
  unfolding run_calls
  calls-heard [] s e = inl e
  calls-heard (c ∷ cs) s e = elim (calls-heard cs (run_call env c s).1 e) [
    | inl h ↦ call-heard c cs s h
    | inr h ↦ inr (later c cs h)
  ]
