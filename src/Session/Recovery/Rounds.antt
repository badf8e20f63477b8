-- ===== src/Session/Recovery/Rounds.antt =====
-- The steps in which two sessions close a gap, on the states that they lead to.
use crocofix.Base.{
  ℕ, ◌+◌, ◌%◌, ◌≤◌, ◌<◌, ◌≡◌, refl, sym, ap, subst, ◌∙◌, true, false, none, some, List, [], ◌∷◌,
  arith, ◌==◌,
}
use crocofix.Base.Bytes.{Bytes, bytes_eq, to_string, int_max, u32_mod}
use crocofix.Base.Exec.{Result, ok, ◌>>=◌}
use crocofix.Tags
use crocofix.Field.{field, try_get, get_bool}
use crocofix.Message.{Message, message, of_fields, msg_type, msg_seq_num, poss_dup_flag}
use crocofix.Session.State.{Session, Env, resending, logged_on, is_state}
use crocofix.Session.Handler.{
  check_sequence, dispatch_rest, dispatch, process_in_sequence, process_typed, process_message,
}
use crocofix.Session.Numbers.{sent_out}
use crocofix.Session.Delivery.{IsApplication, valid_numbers, advanced}
use crocofix.Session.Recovery.Stamps.{written_messages, Arrives, stoi_u32-to_string}
use crocofix.Session.Recovery.Request.{
  after_send, request-Asks, request_fields, recovering, requested, gap-requested,
}
use crocofix.Session.Recovery.Answer.{Answered, process_resend_request-Answered}
use crocofix.Session.Recovery.Filled.{Closed, gap_fill-Closed, probe_fields}
use crocofix.Session.Handshake.Logons.{next}
use crocofix.Session.Handshake.Arrivals.{process_message-typed}
use crocofix.Session.Handshake.Contents.{probe-Identified, beat-Identified}
use crocofix.Session.Handshake.Probes.{heartbeat_fields, probe-answered, On}
use crocofix.Session.Recovery.Logon.{heartbeat_answer}

-- One session behind the other: `n` is a number past the one that the first expects, which the second has used.
pub record Lags (n : ℕ) (a b : Session) : Type 0 where
  pub not_resending : is_state a.state resending ≡ false
  pub by_gap_fill : a.options.use_next_expected_msg_seq_num ≡ false
  pub ahead : a.incoming_msg_seq_num < n
  pub used : n < b.outgoing_msg_seq_num
  pub in_step : b.incoming_msg_seq_num ≡ a.outgoing_msg_seq_num
  pub delayed : (b.options.test_request_delay == 0) ≡ false
  pub small_a : a.outgoing_msg_seq_num + 1 ≤ int_max
  pub small_b : b.outgoing_msg_seq_num ≤ int_max

abbrev pub newest : List Message → Message
newest [] = of_fields []
newest (m ∷ ms) = m

-- The message that a session handed to its writer last.
abbrev pub newest_written : Session → Message
newest_written s = newest (written_messages s.events)

-- The session took one message more to its writer.
abbrev pub HandedOne : Session → Session → Type 0
HandedOne s t = written_messages t.events ≡ newest_written t ∷ written_messages s.events

module _ (env : Env) where
  pub ahead-requested :
      (m : Message) (t : Bytes) (n : ℕ) (s : Session)
      → IsApplication t
      → poss_dup_flag m ≡ ok false
      → msg_seq_num m ≡ ok n
      → is_state s.state resending ≡ false
      → s.incoming_msg_seq_num < n
      → process_typed env m t s ≡ (ok tt, requested env n s)
  unfolding process_typed process_in_sequence check_sequence ◌>>=◌
  ahead-requested m t n s a p h e l = simp (p, a.reset, a.logon, gap-requested env m n s e h l) refl

  -- The peer's side, for the request as it arrives.
  answered :
      (m : Message) (from to : ℕ) (s : Session)
      → try_get Tags.poss_dup_flag m.fields ≡ none
      → msg_seq_num m ≡ ok s.incoming_msg_seq_num
      → try_get Tags.begin_seq_no m.fields ≡ some (field Tags.begin_seq_no (to_string from))
      → try_get Tags.end_seq_no m.fields ≡ some (field Tags.end_seq_no (to_string to))
      → from ≤ int_max
      → to ≤ int_max
      → (s.options.test_request_delay == 0) ≡ false
      → Answered env from
          (record s { incoming_msg_seq_num = (s.incoming_msg_seq_num + 1) % u32_mod })
          (process_typed env m Tags.resend_request s).1
  unfolding process_typed process_in_sequence check_sequence dispatch dispatch_rest bytes_eq
      poss_dup_flag get_bool ◌>>=◌
  answered m from to s p n b e l k d =
      simp (p, valid_numbers env m s n, advanced env m s.incoming_msg_seq_num s n)
        (process_resend_request-Answered env m _ _ from to _ b e (stoi_u32-to_string from l)
          (stoi_u32-to_string to k) d)

-- The gap is closed: a request, a gap fill without a number of its own, a TestRequest and a Heartbeat went
-- out, one in each step, each session expects the number that the other one uses next, and the first
-- is logged on.
pub record Recovered (a b a1 b1 a2 b2 a3 : Session) : Type 0 where
  pub asked : HandedOne a a1
  pub filled : HandedOne b b1
  pub probed : HandedOne a1 a2
  pub answered : HandedOne b1 b2
  pub kept : b1.outgoing_msg_seq_num ≡ b.outgoing_msg_seq_num
  pub incoming : a3.incoming_msg_seq_num ≡ b2.outgoing_msg_seq_num
  pub outgoing : b2.incoming_msg_seq_num ≡ a3.outgoing_msg_seq_num
  pub on : a3.state ≡ logged_on

typed-by :
    {w m : Message} (t : Bytes)
    → Arrives w m
    → try_get Tags.msg_type w.fields ≡ some (field Tags.msg_type t)
    → msg_type m ≡ ok t
unfolding msg_type
typed-by t x h = rw (x.found Tags.msg_type refl refl ∙ h) refl

pub stepped : (P : Session → Type 0) {x y : Result (Unit {0}) × Session} → x ≡ y → P y.1 → P x.1
stepped P e h = subst (λ (x : Result (Unit {0}) × Session). P x.1) (sym e) h

abbrev after : ℕ → ℕ
after n = (n + 1) % u32_mod

-- The steps behind the first, for the request as it was sent.
module _ (env_a env_b : Env) (a b : Session) (n : ℕ) (request fill probe beat : Message)
    (g : Lags n a b) where
  abbrev a1 : Session
  a1 = requested env_a n a

  abbrev b1 : Session
  b1 = (process_message env_b request b).1

  abbrev a2 : Session
  a2 = (process_message env_a fill a1).1

  abbrev b2 : Session
  b2 = (process_message env_b probe b1).1

  abbrev a3 : Session
  a3 = (process_message env_a beat a2).1

  abbrev id : ℕ
  id = a.next_test_request_id

  abbrev beating : Session
  beating = after_send env_b (heartbeat_fields (to_string id)) (next b1)

  from_small : a.incoming_msg_seq_num < b.outgoing_msg_seq_num
  from_small = omega (arith, g.ahead, g.used)

  peer-Answered :
      Arrives
        (sent_out env_a (message true (request_fields a.incoming_msg_seq_num n)) (recovering n a))
        request
      → Answered env_b a.incoming_msg_seq_num
          (record b { incoming_msg_seq_num = after b.incoming_msg_seq_num })
          b1
  unfolding msg_seq_num
  peer-Answered x =
      let q = request-Asks env_a a.incoming_msg_seq_num n (recovering n a) in
      stepped
        (Answered env_b a.incoming_msg_seq_num
          (record b { incoming_msg_seq_num = after b.incoming_msg_seq_num }))
        (process_message-typed env_b request Tags.resend_request b (typed-by _ x q.typed))
        (answered env_b request a.incoming_msg_seq_num n b
          (x.found Tags.poss_dup_flag refl refl ∙ q.original)
          (rw (x.found Tags.msg_seq_num refl refl ∙ q.numbered) (
            stoi_u32-to_string a.outgoing_msg_seq_num (omega (arith, g.small_a))
            ∙ ap ok (sym g.in_step)))
          (x.found Tags.begin_seq_no refl refl ∙ q.begins)
          (x.found Tags.end_seq_no refl refl ∙ q.ends) (omega (arith, from_small, g.small_b))
          (omega (arith, g.used, g.small_b)) g.delayed)

  module _
      (s : Answered env_b a.incoming_msg_seq_num
        (record b { incoming_msg_seq_num = after b.incoming_msg_seq_num })
        b1) where
    fill-Closed : Arrives s.gap_filler fill → Closed env_a b.outgoing_msg_seq_num a1 a2
    fill-Closed y =
        stepped (Closed env_a b.outgoing_msg_seq_num a1)
          (process_message-typed env_a fill Tags.sequence_reset a1 (typed-by _ y s.fills.typed))
          (gap_fill-Closed env_a s.gap_filler fill a.incoming_msg_seq_num b.outgoing_msg_seq_num a1
            s.fills y refl from_small g.small_b refl g.by_gap_fill (omega (arith, g.used)))

    module _ (c : Closed env_a b.outgoing_msg_seq_num a1 a2) where
      probe-taken :
          Arrives (sent_out env_a (message true (probe_fields id)) c.asking) probe
          → process_message env_b probe b1 ≡ (ok tt, beating)
      probe-taken z =
          let small : c.asking.outgoing_msg_seq_num ≤ int_max =
            omega (arith, c.asked_as, g.small_a) in
          let i =
            probe-Identified env_a id probe c.asking b1.incoming_msg_seq_num z small
              (s.incoming ∙ ap after g.in_step ∙ sym c.asked_as) in
          process_message-typed env_b probe Tags.test_request b1 i.typed
          ∙ probe-answered env_b probe (to_string id) b1 i.original i.numbered i.identified

      beat-taken :
          Arrives (sent_out env_b (message true (heartbeat_fields (to_string id))) (next b1)) beat
          → On env_a a2 a3
      beat-taken z =
          let i =
            beat-Identified env_b (to_string id) beat (next b1) a2.incoming_msg_seq_num z
              (omega (arith, s.outgoing, g.small_b)) (c.incoming ∙ sym s.outgoing) in
          stepped (On env_a a2) (process_message-typed env_a beat Tags.heartbeat a2 i.typed) (
            heartbeat_answer env_a beat id a2 i.original i.numbered i.identified c.state c.expected)

  pub recovered :
      Arrives (newest_written a1) request
      → Arrives (newest_written b1) fill
      → Arrives (newest_written a2) probe
      → Arrives (newest_written b2) beat
      → Recovered a b a1 b1 a2 b2 a3
  unfolding written_messages
  recovered x y z u =
      let s = peer-Answered x in
      let e : newest_written b1 ≡ s.gap_filler = ap newest s.handed in
      let c : Closed env_a b.outgoing_msg_seq_num a1 a2 =
        fill-Closed s (subst (λ (w : Message). Arrives w fill) e y) in
      let f : newest_written a2 ≡ sent_out env_a (message true (probe_fields id)) c.asking =
        ap newest c.handed in
      let h : b2 ≡ beating =
        ap (λ (r : Result (Unit {0}) × Session). r.1)
          (probe-taken s c (subst (λ (w : Message). Arrives w probe) f z)) in
      let o : On env_a a2 a3 =
        beat-taken s c (subst (λ (t : Session). Arrives (newest_written t) beat) h u) in
      record {
        asked = refl;
        filled = s.handed ∙ ap (λ (w : Message). w ∷ written_messages b.events) (sym e);
        probed = c.handed ∙ ap (λ (w : Message). w ∷ written_messages a1.events) (sym f);
        answered = subst (λ (t : Session). HandedOne b1 t) (sym h) refl;
        kept = s.outgoing;
        incoming =
            o.incoming
            ∙ ap after (c.incoming ∙ sym s.outgoing)
            ∙ sym (ap (λ (t : Session). t.outgoing_msg_seq_num) h);
        outgoing =
            ap (λ (t : Session). t.incoming_msg_seq_num) h
            ∙ ap after (s.incoming ∙ ap after g.in_step)
            ∙ sym (o.outgoing ∙ c.outgoing);
        on = o.on;
      }
