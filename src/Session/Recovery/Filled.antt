-- ===== src/Session/Recovery/Filled.antt =====
-- The side that misses messages: it takes the gap fill.
use crocofix.Base.{
  ℕ, ◌+◌, ◌%◌, ◌≤◌, ◌<◌, ◌≡◌, refl, sym, ap, ◌∙◌, Bool, true, false, Option, none, some, [], ◌∷◌,
  ◌++◌, arith, leb,
}
use crocofix.Base.Bytes.{Bytes, text, bytes_eq, to_string, int_max, u32_mod}
use crocofix.Base.Exec.{ok, ◌>>=◌}
use crocofix.Base.Exec.Keeps.{Composes, Does, does_rules}
use crocofix.Tags
use crocofix.Field.{Fields, field, try_get, get_bool}
use crocofix.Message.{Message, message, msg_type, msg_seq_num, gap_fill_flag, poss_dup_flag}
use crocofix.Session.State.{
  Session, SessionState, Env, Event, resending, is_state, information, written, emit, set_resent,
  set_incoming, allocate_test_request_id, update,
}
use crocofix.Session.Replies.{
  cancel_and, clear_heartbeat_timer, stop_defibrillator, set_heartbeat_token, start_defibrillator,
  expect_test_request, send_test_request,
}
use crocofix.Session.Process.{
  fill_gap, finish_resend, process_gap_fill, check_new_seq_no, use_new_seq_no,
  process_sequence_reset,
}
use crocofix.Session.Handler.{process_typed}
use crocofix.Session.Numbers.{IsPlain, sent_out}
use crocofix.Session.Delivery.{valid_numbers}
use crocofix.Session.Recovery.Stamps.{written_messages, Arrives, stoi_u32-to_string}
use crocofix.Session.Recovery.Request.{after_send, send_standard-plain}
use crocofix.Session.Recovery.Answer.{FillsGap}

-- What the timers leave alone.
pub record Timed (s t : Session) : Type 0 where
  pub incoming : t.incoming_msg_seq_num ≡ s.incoming_msg_seq_num
  pub outgoing : t.outgoing_msg_seq_num ≡ s.outgoing_msg_seq_num
  pub state : t.state ≡ s.state
  pub expected : t.expected_test_request_id ≡ s.expected_test_request_id
  pub handed : written_messages t.events ≡ written_messages s.events

Timed-Composes : Composes Timed
Timed-Composes = record {
  stay = λ s. record {
    incoming = refl;
    outgoing = refl;
    state = refl;
    expected = refl;
    handed = refl;
  };
  join = λ s t u a b. record {
    incoming = b.incoming ∙ a.incoming;
    outgoing = b.outgoing ∙ a.outgoing;
    state = b.state ∙ a.state;
    expected = b.expected ∙ a.expected;
    handed = b.handed ∙ a.handed;
  };
}

abbrev is_written : Event → Bool
is_written (written m options) = true
is_written _ = false

emit-Timed : (e : Event) → is_written e ≡ false → Does Timed (emit e)
unfolding emit written_messages
emit-Timed e h = record {
  at = λ s. record {
    incoming = refl;
    outgoing = refl;
    state = refl;
    expected = refl;
    handed = unwritten e h s;
  };
}
  where
    unwritten :
        (e : Event)
        → is_written e ≡ false
        → (s : Session) → written_messages (e ∷ s.events) ≡ written_messages s.events
    unwritten (written m options) h s = cc
    unwritten _ h s = refl

clear-Timed : Does Timed clear_heartbeat_timer
unfolding clear_heartbeat_timer update
clear-Timed = record {
  at = λ s. record {
    incoming = refl;
    outgoing = refl;
    state = refl;
    expected = refl;
    handed = refl;
  };
}

token-Timed : (env : Env) → Does Timed (set_heartbeat_token env)
unfolding set_heartbeat_token
token-Timed env = record {
  at = λ s. record {
    incoming = refl;
    outgoing = refl;
    state = refl;
    expected = refl;
    handed = refl;
  };
}

cancel-Timed : (o : Option ℕ) → Does Timed (cancel_and clear_heartbeat_timer o)
cancel-Timed none = search (does_rules, Timed-Composes)
cancel-Timed (some t) = search (does_rules, Timed-Composes, emit-Timed, clear-Timed)

pub start_defibrillator-Timed : (env : Env) → Does Timed (start_defibrillator env)
unfolding start_defibrillator stop_defibrillator
start_defibrillator-Timed env =
    search (does_rules, Timed-Composes, emit-Timed, token-Timed, cancel-Timed) depth 12

abbrev pub probe_fields : ℕ → Fields
probe_fields id = field Tags.msg_type Tags.test_request ∷ field Tags.test_req_id (to_string id) ∷ []

probe-IsPlain : (id : ℕ) → IsPlain (message true (probe_fields id))
unfolding message msg_type try_get bytes_eq
probe-IsPlain id = record {
  type = Tags.test_request;
  typed = refl;
  not_logon = refl;
  numbered = λ h. cc;
}

module _ (env : Env) where
  -- The state in which the TestRequest goes out.
  abbrev pub probing : Session → Session
  probing s = record s {
    next_test_request_id = (s.next_test_request_id + 1) % u32_mod;
    expected_test_request_id = some s.next_test_request_id;
  }

  pub send_test_request-sent :
      (s : Session)
      → send_test_request env s
        ≡ (ok tt, after_send env (probe_fields s.next_test_request_id) (probing s))
  unfolding send_test_request allocate_test_request_id expect_test_request update ◌>>=◌
  send_test_request-sent s =
      send_standard-plain env (probe_fields s.next_test_request_id) (probing s)
        (probe-IsPlain s.next_test_request_id)

  -- What the gap fill leaves behind: the gap is closed, and a TestRequest with the next identifier went out.
  pub record Closed (to : ℕ) (s t : Session) : Type 0 where
    pub incoming : t.incoming_msg_seq_num ≡ to
    pub state : t.state ≡ resending
    pub expected : t.expected_test_request_id ≡ some s.next_test_request_id
    pub outgoing : t.outgoing_msg_seq_num ≡ (s.outgoing_msg_seq_num + 1) % u32_mod
    pub asking : Session
    pub asked_as : asking.outgoing_msg_seq_num ≡ s.outgoing_msg_seq_num
    pub handed :
        written_messages t.events
        ≡ sent_out env (message true (probe_fields s.next_test_request_id)) asking
          ∷ written_messages s.events

  finish_resend-Closed :
      (to : ℕ) (s : Session)
      → s.state ≡ resending
      → s.incoming_msg_seq_num ≡ to
      → s.incoming_target_msg_seq_num ≤ s.incoming_resent_msg_seq_num
      → Closed to s (finish_resend env s).1
  unfolding finish_resend emit written_messages ◌>>=◌
  finish_resend-Closed to s e i l =
      let k : leb s.incoming_target_msg_seq_num s.incoming_resent_msg_seq_num ≡ true =
        ground (arith, l) in
      let u : Session = record s { events = information (text "Resend complete") ∷ s.events } in
      let v : Session = after_send env (probe_fields s.next_test_request_id) (probing u) in
      let d : Timed v (start_defibrillator env v).1 = (start_defibrillator-Timed env).at v in
      let h : is_state s.state resending ≡ true =
        ap (λ (x : SessionState). is_state x resending) e in
      rw (h, k, send_test_request-sent u)
        (record {
          incoming = d.incoming ∙ i;
          state = d.state ∙ e;
          expected = d.expected;
          outgoing = d.outgoing;
          asking = probing u;
          asked_as = refl;
          handed = d.handed;
        })

  abbrev filled : ℕ → Session → Session
  filled to s = record s {
    incoming_resent_msg_seq_num = to;
    incoming_msg_seq_num = to;
    events =
        information (text "SeqenceReset (GapFill) received, NewSeqNo = " ++ to_string to)
        ∷ s.events;
  }

  check_new_seq_no-Closed :
      (m : Message) (v : Bytes) (to : ℕ) (s : Session)
      → msg_seq_num m ≡ ok s.incoming_msg_seq_num
      → s.incoming_msg_seq_num < to
      → s.state ≡ resending
      → s.options.use_next_expected_msg_seq_num ≡ false
      → s.incoming_target_msg_seq_num ≤ to
      → Closed to s (check_new_seq_no env m true v (some to) s).1
  unfolding check_new_seq_no process_gap_fill fill_gap set_resent set_incoming emit written_messages
      ◌>>=◌
  check_new_seq_no-Closed m v to s n l e u k =
      let h : is_state s.state resending ≡ true =
        ap (λ (x : SessionState). is_state x resending) e in
      let above : leb to s.incoming_msg_seq_num ≡ false = ground (arith, l) in
      let c = finish_resend-Closed to (filled to s) e refl k in
      simp (above, valid_numbers env m s n, u, h)
        (record {
          incoming = c.incoming;
          state = c.state;
          expected = c.expected;
          outgoing = c.outgoing;
          asking = c.asking;
          asked_as = c.asked_as;
          handed = c.handed;
        })

  pub gap_fill-Closed :
      (w m : Message) (from to : ℕ) (s : Session)
      → FillsGap from to w
      → Arrives w m
      → s.incoming_msg_seq_num ≡ from
      → from < to
      → to ≤ int_max
      → s.state ≡ resending
      → s.options.use_next_expected_msg_seq_num ≡ false
      → s.incoming_target_msg_seq_num ≤ to
      → Closed to s (process_typed env m Tags.sequence_reset s).1
  unfolding process_typed process_sequence_reset use_new_seq_no poss_dup_flag gap_fill_flag get_bool
      msg_seq_num bytes_eq ◌>>=◌
  gap_fill-Closed w m from to s g a i l small e u k =
      let dup = a.found Tags.poss_dup_flag refl refl ∙ g.duplicate in
      let gap = a.found Tags.gap_fill_flag refl refl ∙ g.flagged in
      let next = a.found Tags.new_seq_no refl refl ∙ g.next in
      let n : msg_seq_num m ≡ ok s.incoming_msg_seq_num =
        rw (a.found Tags.msg_seq_num refl refl ∙ g.numbered)
          (stoi_u32-to_string from (omega (arith, l, small)) ∙ ap ok (sym i)) in
      rw (dup, next, gap, stoi_u32-to_string to small)
        (check_new_seq_no-Closed m (to_string to) to s n (omega (arith, i, l)) e u k)
