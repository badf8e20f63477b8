-- ===== src/Session/Recovery/Reset.antt =====
-- A SequenceReset in Reset mode, and the message behind it.
use crocofix.Base.{ℕ, ◌<◌, ◌≡◌, refl, ap, ◌∙◌, false, some, ◌∷◌, ◌++◌, arith, leb}
use crocofix.Base.Bytes.{Bytes, text, bytes_eq, to_string}
use crocofix.Base.Exec.{Result, ok, ◌>>=◌}
use crocofix.Tags
use crocofix.Field.{Field, try_get}
use crocofix.Message.{Message, msg_type, msg_seq_num, poss_dup_flag, gap_fill_flag, stoi_u32}
use crocofix.Session.State.{Session, Env, resending, is_state, information, emit, set_resent}
use crocofix.Session.Process.{
  finish_resend, process_reset, check_new_seq_no, use_new_seq_no, process_sequence_reset,
}
use crocofix.Session.Handler.{process_typed, process_message}
use crocofix.Session.Delivery.{IsApplication}
use crocofix.Session.Recovery.Rounds.{ahead-requested}
use crocofix.Session.Recovery.Request.{requested}
use crocofix.Session.Handshake.Arrivals.{process_message-typed}

-- A SequenceReset to a number, in Reset mode.
pub record Resets (to : ℕ) (m : Message) : Type 0 where
  pub typed : msg_type m ≡ ok Tags.sequence_reset
  pub original : poss_dup_flag m ≡ ok false
  pub no_gap_fill : gap_fill_flag m ≡ ok false
  pub value : Field
  pub found : try_get Tags.new_seq_no m.fields ≡ some value
  pub read : stoi_u32 value.value ≡ ok to

-- What the session notes of it: the number, but not as the one that it expects.
abbrev pub was_reset : ℕ → Session → Session
was_reset n s = record s {
  incoming_resent_msg_seq_num = n;
  events =
      information (text "SeqenceReset (Reset) received, NewSeqNo = " ++ to_string n) ∷ s.events;
}

module _ (env : Env) (n : ℕ) (s : Session) (idle : is_state s.state resending ≡ false)
    (ahead : s.incoming_msg_seq_num < n) where
  reset-noted :
      (m : Message)
      → Resets n m
      → process_typed env m Tags.sequence_reset s ≡ (ok tt, was_reset n s)
  unfolding process_typed process_sequence_reset use_new_seq_no check_new_seq_no process_reset
      finish_resend set_resent emit bytes_eq ◌>>=◌
  reset-noted m r =
      let above : leb n s.incoming_msg_seq_num ≡ false = ground (arith, ahead) in
      simp (r.original, r.found, r.no_gap_fill, r.read, above, idle) refl

  -- Outside of a resend a SequenceReset in Reset mode to a number past the expected one leaves the expected
  -- number as it was: the application message that the peer numbers with NewSeqNo next is taken to be ahead
  -- of a gap, and the session asks the peer to resend from the old expected number up to it.
  pub reset-requested :
      (reset next : Message) (t : Bytes)
      → Resets n reset
      → IsApplication t
      → msg_type next ≡ ok t
      → poss_dup_flag next ≡ ok false
      → msg_seq_num next ≡ ok n
      → process_message env next (process_message env reset s).1
        ≡ (ok tt, requested env n (was_reset n s))
  reset-requested reset next t r a y p h =
      ap (λ (x : Result (Unit {0}) × Session). process_message env next x.1)
        (process_message-typed env reset Tags.sequence_reset s r.typed ∙ reset-noted reset r)
      ∙ process_message-typed env next t (was_reset n s) y
      ∙ ahead-requested env next t n (was_reset n s) a p h idle ahead
