-- ===== src/Session/Handshake/Contents.antt =====
-- What the messages of a handshake say where they arrive.
use crocofix.Base.{◌≢◌, ℕ, ◌≤◌, ◌≡◌, refl, sym, ap, ◌∙◌, false, true, none, some, ◌==◌}
use crocofix.Base.Bytes.{Bytes, to_string, int_max}
use crocofix.Base.Exec.{ok}
use crocofix.Tags
use crocofix.Field.{field, try_get}
use crocofix.Message.{Message, message, msg_type, msg_seq_num, poss_dup_flag}
use crocofix.Session.State.{Session, Env}
use crocofix.Session.Numbers.{sent_out}
use crocofix.Session.Recovery.Stamps.{Arrives, Unstamped, stoi_u32-to_string}
use crocofix.Session.Recovery.Filled.{probe_fields}
use crocofix.Session.Handshake.Logons.{logon_fields, IsLogon}
use crocofix.Session.Handshake.Arrivals.{
  arrived-field, arrived-number, arrived-original, arrived-reset, arrived-type,
}
use crocofix.Session.Handshake.Probes.{heartbeat_fields}

free_tag :
    (t : ℕ)
    → (Tags.begin_string == t) ≡ false
    → (Tags.sender_comp_id == t) ≡ false
    → (Tags.target_comp_id == t) ≡ false
    → (Tags.sending_time == t) ≡ false
    → (Tags.check_sum == t) ≡ false
    → Unstamped t
free_tag t b s r n c = record {
  begin_string = b;
  sender_comp_id = s;
  target_comp_id = r;
  sending_time = n;
  check_sum = c;
}

module _ (env : Env) where
  -- A Logon arrives.
  pub arrived-IsLogon :
      (interval : ℕ) (m : Message) (s t : Session)
      → Arrives (sent_out env (message true (logon_fields interval)) s) m
      → s.outgoing_msg_seq_num ≤ int_max
      → interval ≤ int_max
      → t.incoming_msg_seq_num ≡ s.outgoing_msg_seq_num
      → IsLogon m interval t
  unfolding message try_get
  arrived-IsLogon interval m s t a l i e = record {
    typed = arrived-type env (message true (logon_fields interval)) m s a Tags.logon refl;
    original = arrived-original env (message true (logon_fields interval)) m s a refl;
    numbered =
        arrived-number env (message true (logon_fields interval)) m s a (λ h. cc) l ∙ ap ok (sym e);
    plain = arrived-reset env (message true (logon_fields interval)) m s a refl;
    value = field Tags.heart_bt_int (to_string interval);
    found =
        arrived-field env (message true (logon_fields interval)) m s a Tags.heart_bt_int
          (free_tag Tags.heart_bt_int refl refl refl refl refl) refl refl;
    read = stoi_u32-to_string interval i;
  }

  -- A TestRequest or the Heartbeat that answers it arrives.
  pub record Identified (type id : Bytes) (m : Message) (n : ℕ) : Type 0 where
    pub typed : msg_type m ≡ ok type
    pub original : poss_dup_flag m ≡ ok false
    pub numbered : msg_seq_num m ≡ ok n
    pub identified : try_get Tags.test_req_id m.fields ≡ some (field Tags.test_req_id id)

  message-Identified :
      (w m : Message) (type id : Bytes) (s : Session) (n : ℕ)
      → try_get Tags.msg_type w.fields ≡ some (field Tags.msg_type type)
      → try_get Tags.msg_seq_num w.fields ≢ none
      → try_get Tags.poss_dup_flag w.fields ≡ none
      → try_get Tags.test_req_id w.fields ≡ some (field Tags.test_req_id id)
      → Arrives (sent_out env w s) m
      → s.outgoing_msg_seq_num ≤ int_max
      → n ≡ s.outgoing_msg_seq_num
      → Identified type id m n
  message-Identified w m type id s n y h k f a l e = record {
    typed = arrived-type env w m s a type y;
    original = arrived-original env w m s a k;
    numbered = arrived-number env w m s a h l ∙ ap ok (sym e);
    identified =
        arrived-field env w m s a Tags.test_req_id
          (free_tag Tags.test_req_id refl refl refl refl refl) refl refl
        ∙ f;
  }

  pub probe-Identified :
      (id : ℕ) (m : Message) (s : Session) (n : ℕ)
      → Arrives (sent_out env (message true (probe_fields id)) s) m
      → s.outgoing_msg_seq_num ≤ int_max
      → n ≡ s.outgoing_msg_seq_num
      → Identified Tags.test_request (to_string id) m n
  unfolding message try_get
  probe-Identified id m s n a l e =
      message-Identified (message true (probe_fields id)) m Tags.test_request (to_string id) s n
        refl (λ h. cc) refl refl a l e

  pub beat-Identified :
      (id : Bytes) (m : Message) (s : Session) (n : ℕ)
      → Arrives (sent_out env (message true (heartbeat_fields id)) s) m
      → s.outgoing_msg_seq_num ≤ int_max
      → n ≡ s.outgoing_msg_seq_num
      → Identified Tags.heartbeat id m n
  unfolding message try_get
  beat-Identified id m s n a l e =
      message-Identified (message true (heartbeat_fields id)) m Tags.heartbeat id s n refl (λ h. cc)
        refl refl a l e
