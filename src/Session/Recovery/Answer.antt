-- ===== src/Session/Recovery/Answer.antt =====
-- The side that is asked for messages: it fills the gap up to its next number.
use crocofix.Base.{ℕ, ◌≡◌, refl, true, false, Option, none, some, [], ◌∷◌, ◌++◌, ◌==◌}
use crocofix.Base.Bytes.{text, bytes_eq, to_string}
use crocofix.Base.Exec.{ok, ◌>>=◌}
use crocofix.Tags
use crocofix.Field.{Field, Fields, field, bool_value, try_get}
use crocofix.Message.{Message, message, msg_type, stoi_u32}
use crocofix.Session.State.{Session, Env, information, cancel, message_sent, written, emit, update}
use crocofix.Session.Send.{stamped, is_reset, number_for, write, send}
use crocofix.Session.Replies.{
  cancel_and, clear_test_request_timer, stop_test_request_timer, set_test_request_token,
  schedule_test_request, send_post_logon_test_request, send_gap_fill, perform_resend,
}
use crocofix.Session.Process.{resend_range, check_resend_range, process_resend_request}
use crocofix.Session.Recovery.Stamps.{written_messages, stamped-other, stamped-unnumbered}

abbrev gap_fields : ℕ → ℕ → Fields
gap_fields from to =
    field Tags.msg_type Tags.sequence_reset
    ∷ field Tags.msg_seq_num (to_string from)
    ∷ field Tags.gap_fill_flag (bool_value true)
    ∷ field Tags.poss_dup_flag (bool_value true)
    ∷ field Tags.new_seq_no (to_string to)
    ∷ []

-- A gap fill from one number up to another.
pub record FillsGap (from to : ℕ) (w : Message) : Type 0 where
  pub typed : try_get Tags.msg_type w.fields ≡ some (field Tags.msg_type Tags.sequence_reset)
  pub numbered : try_get Tags.msg_seq_num w.fields ≡ some (field Tags.msg_seq_num (to_string from))
  pub flagged :
      try_get Tags.gap_fill_flag w.fields ≡ some (field Tags.gap_fill_flag (bool_value true))
  pub duplicate :
      try_get Tags.poss_dup_flag w.fields ≡ some (field Tags.poss_dup_flag (bool_value true))
  pub next : try_get Tags.new_seq_no w.fields ≡ some (field Tags.new_seq_no (to_string to))

module _ (env : Env) where
  abbrev gap_fill : ℕ → ℕ → Session → Message
  gap_fill from to s = record (message true (gap_fields from to)) {
    fields =
        stamped s.options 7 0 (env.timestamp s.events s.options.timestamp_format)
          (message true (gap_fields from to)).fields;
  }

  gap_fill-FillsGap : (from to : ℕ) (s : Session) → FillsGap from to (gap_fill from to s)
  unfolding message try_get
  gap_fill-FillsGap from to s = record {
    typed =
        stamped-other s.options 7 0 _ _ Tags.msg_type
          (record {
            begin_string = refl;
            sender_comp_id = refl;
            target_comp_id = refl;
            sending_time = refl;
            check_sum = refl;
          })
          refl;
    numbered = stamped-unnumbered s.options 7 0 _ _ refl;
    flagged =
        stamped-other s.options 7 0 _ _ Tags.gap_fill_flag
          (record {
            begin_string = refl;
            sender_comp_id = refl;
            target_comp_id = refl;
            sending_time = refl;
            check_sum = refl;
          })
          refl;
    duplicate =
        stamped-other s.options 7 0 _ _ Tags.poss_dup_flag
          (record {
            begin_string = refl;
            sender_comp_id = refl;
            target_comp_id = refl;
            sending_time = refl;
            check_sum = refl;
          })
          refl;
    next =
        stamped-other s.options 7 0 _ _ Tags.new_seq_no
          (record {
            begin_string = refl;
            sender_comp_id = refl;
            target_comp_id = refl;
            sending_time = refl;
            check_sum = refl;
          })
          refl;
  }

  abbrev filled : ℕ → Session → Session
  filled from s = record s {
    events =
        message_sent (env.encode (gap_fill from s.outgoing_msg_seq_num s) 7)
        ∷ written (gap_fill from s.outgoing_msg_seq_num s) 7
        ∷ s.events;
  }

  perform_resend-filled :
      (from end : ℕ) (s : Session) → perform_resend env from end s ≡ (ok tt, filled from s)
  unfolding perform_resend send_gap_fill send is_reset number_for write emit message msg_type
      try_get bytes_eq ◌>>=◌
  perform_resend-filled from end s = refl

  -- What the answer leaves behind.
  pub record Answered (from : ℕ) (s t : Session) : Type 0 where
    pub gap_filler : Message
    pub handed : written_messages t.events ≡ gap_filler ∷ written_messages s.events
    pub fills : FillsGap from s.outgoing_msg_seq_num gap_filler
    pub outgoing : t.outgoing_msg_seq_num ≡ s.outgoing_msg_seq_num
    pub incoming : t.incoming_msg_seq_num ≡ s.incoming_msg_seq_num

  abbrev performing : ℕ → ℕ → Session → Session
  performing from to s = record s {
    events =
        information (
          text "Performing resend from BeginSeqNo = "
          ++ to_string from
          ++ text " to EndSeqNo "
          ++ to_string to)
        ∷ s.events;
  }

  resend_range-Answered :
      (f g : Field) (from to : ℕ) (s : Session)
      → stoi_u32 f.value ≡ ok from
      → stoi_u32 g.value ≡ ok to
      → (s.options.test_request_delay == 0) ≡ false
      → Answered from s (resend_range env f g s).1
  unfolding resend_range perform_resend send_gap_fill send is_reset number_for write emit
      set_test_request_token schedule_test_request send_post_logon_test_request written_messages
      message msg_type try_get bytes_eq ◌>>=◌
  resend_range-Answered f g from to s h k d =
      rw (h, k, d)
        (record {
          gap_filler = _;
          handed = refl;
          fills = gap_fill-FillsGap from s.outgoing_msg_seq_num (performing from to s);
          outgoing = refl;
          incoming = refl;
        })

  -- The timer that is stopped first sends nothing.
  pub process_resend_request-Answered :
      (m : Message) (f g : Field) (from to : ℕ) (s : Session)
      → try_get Tags.begin_seq_no m.fields ≡ some f
      → try_get Tags.end_seq_no m.fields ≡ some g
      → stoi_u32 f.value ≡ ok from
      → stoi_u32 g.value ≡ ok to
      → (s.options.test_request_delay == 0) ≡ false
      → Answered from s (process_resend_request env m s).1
  unfolding process_resend_request check_resend_range stop_test_request_timer emit
      clear_test_request_timer update written_messages ◌>>=◌
  process_resend_request-Answered m f g from to s x y h k d =
      rw (x, y) (by_token s.test_request_timer_token)
    where
      by_token :
          (o : Option ℕ)
          → Answered from s
              ((cancel_and clear_test_request_timer o
                  >>= (λ u. check_resend_range env m (some f) (some g)))
                s).1
      by_token none = resend_range-Answered f g from to s h k d
      by_token (some t) =
          let a =
            resend_range-Answered f g from to (clear_test_request_timer (emit (cancel t) s).1).1 h k
              d in
          record {
            gap_filler = a.gap_filler;
            handed = a.handed;
            fills = a.fills;
            outgoing = a.outgoing;
            incoming = a.incoming;
          }
