-- ===== src/Session/LoggedOn/Reading.antt =====
-- `on_message_read` as a whole.
use mathlib.Core.Bool.{false≢true}
use crocofix.Base.{◌≡◌, ◌≢◌, refl, sym, ◌∙◌, Bool, true, false, if◌then◌else◌}
use crocofix.Base.Bytes.{Bytes, bytes_eq}
use crocofix.Base.Exec.{Result, ok, err, continue, ◌>>=◌, pure}
use crocofix.Base.Exec.Keeps.{
  Composes, Does, Does-bind, Does-if, Does-pure, Fails, bind-Fails, false-Fails,
}
use crocofix.Tags
use crocofix.Message.{Message, msg_type}
use crocofix.Session.State.{Session, Method, Env, Behaviour, initiator, acceptor}
use crocofix.Session.Validate.{validate_first_message, check_first_message, reject_first_message}
use crocofix.Session.Handler.{passing, process_message, on_message_read}
use crocofix.Session.Frame.{Frame, Frame-Composes}
use crocofix.Session.Steps.{
  validate_checksum-Does, validate_body_length-Does, validate_begin_string-Does,
  validate_comp_ids-Does, validate_first_message-Does,
}
use crocofix.Session.LoggedOn.Relations.{
  Steady, Quiet, Steady-Composes, Quiet-Composes, initiator≢acceptor, Frame→Quiet, Quiet→Steady,
}
use crocofix.Session.LoggedOn.Dispatch.{p, message-Quiet, message-Steady}

module _ (env : Env) where
  -- The checks in front of the last one are frames, so a relation that holds of frames holds of the
  -- whole handler once it holds of what follows them.
  module _ {R : Session → Session → Type 0} (c : Composes R)
      (frames : (A : Type 0) (n : Method A) → Does Frame n → Does R n) (m : Message)
      (last : Does R (passing env (validate_first_message env m) (process_message env m))) where
    gate :
        (check : Method Bool) (rest : Method Unit)
        → Does Frame check
        → Does R rest
        → Does R (passing env check rest)
    gate check rest d r =
        Does-bind c check _ (frames Bool check d) (λ b. Does-if b _ _ r (Does-pure c tt))

    pub handler-Does : Does R (on_message_read env m)
    unfolding on_message_read
    handler-Does = Does-bind c _ _ (frames Unit _ ((p env).emits _ refl)) λ _.
        gate _ _ (validate_checksum-Does env (p env) m) (
          gate _ _ (validate_body_length-Does env (p env) m) (
            gate _ _ (validate_begin_string-Does env (p env) m)
              (gate _ _ (validate_comp_ids-Does env (p env) m) last)))

  pub on_message_read-Steady : (m : Message) → Does Steady (on_message_read env m)
  on_message_read-Steady m =
      handler-Does Steady-Composes (λ A n d. Quiet→Steady (Frame→Quiet d)) m
        (Does-bind Steady-Composes (validate_first_message env m) _
          (Quiet→Steady (Frame→Quiet (validate_first_message-Does env (p env) m)))
          (λ b. Does-if b _ _ (message-Steady env m) (Does-pure Steady-Composes tt)))

  pub on_message_read-Quiet :
      (m : Message)
      → ((t : Bytes) → msg_type m ≡ ok t → bytes_eq t Tags.heartbeat ≡ false)
      → Does Quiet (on_message_read env m)
  on_message_read-Quiet m other =
      handler-Does Quiet-Composes (λ A n d. Frame→Quiet d) m
        (Does-bind Quiet-Composes (validate_first_message env m) _
          (Frame→Quiet (validate_first_message-Does env (p env) m))
          (λ b. Does-if b _ _ (message-Quiet env m other) (Does-pure Quiet-Composes tt)))

  reject_first-Fails : (m : Message) → Fails (reject_first_message env m)
  unfolding reject_first_message
  reject_first-Fails m =
      bind-Fails _ _ (λ _. bind-Fails _ _ (λ _. bind-Fails _ _ (λ _. false-Fails)))

  -- A Heartbeat is no first message of an acceptor.
  check_first-Fails :
      (m : Message) (b : Behaviour) (r : Bool)
      → b ≡ acceptor
      → r ≡ false
      → msg_type m ≡ ok Tags.heartbeat
      → Fails (check_first_message env m b r)
  unfolding check_first_message bytes_eq ◌>>=◌
  check_first-Fails m initiator r e f h = absurd (initiator≢acceptor e)
  check_first-Fails m acceptor true e f h = absurd (false≢true (sym f))
  check_first-Fails m acceptor false e f h = rw h (λ s. reject_first-Fails m s)

  -- `passing` goes no further than a check that fails.
  stopped-Frame :
      (s t : Session) (r : Result Bool) (rest : Method Unit)
      → r ≢ ok true
      → Frame s t
      → Frame s (continue r (λ passed. if passed then rest else pure tt) t).1
  unfolding ◌>>=◌
  stopped-Frame s t (ok true) rest h f = absurd (h refl)
  stopped-Frame s t (ok false) rest h f = f
  stopped-Frame s t (err e) rest h f = f

  barred_first :
      (m : Message) (s : Session)
      → msg_type m ≡ ok Tags.heartbeat
      → s.options.logon_behaviour ≡ acceptor
      → s.logon_received ≡ false
      → Frame s (passing env (validate_first_message env m) (process_message env m) s).1
  unfolding validate_first_message ◌>>=◌
  barred_first m s h acc unread =
      stopped-Frame s _ _ (process_message env m)
        (check_first-Fails m s.options.logon_behaviour s.logon_received acc unread h s)
        ((validate_first_message-Does env (p env) m).at s)

  -- An acceptor that has received no Logon, which a frame leaves as it is.
  abbrev Barred : Session → Session → Type 0
  Barred s t = s.options.logon_behaviour ≡ acceptor → s.logon_received ≡ false → Frame s t

  Barred-Composes : Composes Barred
  Barred-Composes = record {
    stay = λ s acc unread. Frame-Composes.stay s;
    join = λ s t u a b acc unread.
        let f = a acc unread in
        Frame-Composes.join s t u f (b (f.behaviour ∙ acc) (f.received ∙ unread));
  }

  pub heartbeat-Barred :
      (m : Message) → msg_type m ≡ ok Tags.heartbeat → Does Barred (on_message_read env m)
  heartbeat-Barred m h =
      handler-Does Barred-Composes (λ A n d. record { at = λ s acc unread. d.at s }) m
        (record { at = λ s. barred_first m s h })
