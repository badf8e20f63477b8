-- ===== src/Session/Handshake/Arrivals.antt =====
-- What a session reads of a message that the other one sent.
use crocofix.Base.{ℕ, ◌≤◌, ◌≡◌, ◌≢◌, refl, ◌∙◌, false, none, some, ◌==◌}
use crocofix.Base.Bytes.{Bytes, int_max}
use crocofix.Base.Exec.{ok, ◌>>=◌}
use crocofix.Tags
use crocofix.Field.{field, try_get, get_bool}
use crocofix.Message.{Message, msg_type, msg_seq_num, poss_dup_flag, reset_seq_num_flag, standard}
use crocofix.Session.State.{Session, Env}
use crocofix.Session.Handler.{process_typed, process_message}
use crocofix.Session.Numbers.{sent_out, stamped-number}
use crocofix.Session.Recovery.Stamps.{Arrives, Unstamped, stamped-other, stoi_u32-to_string}

pub process_message-typed :
    (env : Env) (m : Message) (t : Bytes) (s : Session)
    → msg_type m ≡ ok t
    → process_message env m s ≡ process_typed env m t s
unfolding process_message ◌>>=◌
process_message-typed env m t s e = rw e refl

module _ (env : Env) (w m : Message) (s : Session) (a : Arrives (sent_out env w s) m) where
  pub arrived-field :
      (t : ℕ)
      → Unstamped t
      → (Tags.msg_seq_num == t) ≡ false
      → (Tags.body_length == t) ≡ false
      → try_get t m.fields ≡ try_get t w.fields
  arrived-field t u n l =
      a.found t l u.check_sum
      ∙ stamped-other s.options standard s.outgoing_msg_seq_num
          (env.timestamp s.events s.options.timestamp_format) w.fields t u n

  pub arrived-number :
      try_get Tags.msg_seq_num w.fields ≢ none
      → s.outgoing_msg_seq_num ≤ int_max
      → msg_seq_num m ≡ ok s.outgoing_msg_seq_num
  unfolding msg_seq_num
  arrived-number h l =
      rw
        (a.found Tags.msg_seq_num refl refl
          ∙ stamped-number s.options s.outgoing_msg_seq_num
              (env.timestamp s.events s.options.timestamp_format) w.fields h)
        (stoi_u32-to_string s.outgoing_msg_seq_num l)

  pub arrived-original : try_get Tags.poss_dup_flag w.fields ≡ none → poss_dup_flag m ≡ ok false
  unfolding poss_dup_flag get_bool
  arrived-original h =
      rw
        (arrived-field Tags.poss_dup_flag
            (record {
              begin_string = refl;
              sender_comp_id = refl;
              target_comp_id = refl;
              sending_time = refl;
              check_sum = refl;
            })
            refl refl
          ∙ h)
        refl

  pub arrived-type :
      (t : Bytes)
      → try_get Tags.msg_type w.fields ≡ some (field Tags.msg_type t)
      → msg_type m ≡ ok t
  unfolding msg_type
  arrived-type t h =
      rw
        (arrived-field Tags.msg_type
            (record {
              begin_string = refl;
              sender_comp_id = refl;
              target_comp_id = refl;
              sending_time = refl;
              check_sum = refl;
            })
            refl refl
          ∙ h)
        refl

  pub arrived-reset :
      try_get Tags.reset_seq_num_flag w.fields ≡ none → reset_seq_num_flag m ≡ ok false
  unfolding reset_seq_num_flag get_bool
  arrived-reset h =
      rw
        (arrived-field Tags.reset_seq_num_flag
            (record {
              begin_string = refl;
              sender_comp_id = refl;
              target_comp_id = refl;
              sending_time = refl;
              check_sum = refl;
            })
            refl refl
          ∙ h)
        refl
