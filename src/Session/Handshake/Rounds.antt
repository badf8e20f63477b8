-- ===== src/Session/Handshake/Rounds.antt =====
-- The steps of a handshake, on the states that they lead to.
use crocofix.Base.{ℕ, ◌+◌, ◌%◌, ◌≤◌, ◌≡◌, refl, sym, ap, ◌∙◌, false, arith, ◌==◌}
use crocofix.Base.Bytes.{to_string, int_max, u32_mod}
use crocofix.Base.Exec.{ok}
use crocofix.Tags
use crocofix.Message.{Message}
use crocofix.Session.State.{Session, Env, connected, logged_on, initiator, acceptor, is_acceptor}
use crocofix.Session.Replies.{open_session}
use crocofix.Session.Handler.{process_message}
use crocofix.Session.Recovery.{newest_written}
use crocofix.Session.Recovery.Stamps.{written_messages, Arrives}
use crocofix.Session.Recovery.Request.{after_send}
use crocofix.Session.Recovery.Filled.{probing}
use crocofix.Session.Handshake.Logons.{
  logon_fields, opened, received, next, scheduled, initiator-opened, acceptor-opened,
  acceptor-answers, initiator-takes,
}
use crocofix.Session.Handshake.Probes.{
  heartbeat_fields, timer_cleared, probed, probe-answered, On, heartbeat-On,
}
use crocofix.Session.Handshake.Arrivals.{process_message-typed}
use crocofix.Session.Handshake.Contents.{arrived-IsLogon, probe-Identified, beat-Identified}

-- An initiator and an acceptor, each of which expects the number that the other one uses next.
pub record CanPair (a b : Session) : Type 0 where
  pub connected_a : a.state ≡ connected
  pub connected_b : b.state ≡ connected
  pub initiator_a : a.options.logon_behaviour ≡ initiator
  pub acceptor_b : b.options.logon_behaviour ≡ acceptor
  pub plain_a : a.options.use_next_expected_msg_seq_num ≡ false
  pub plain_b : b.options.use_next_expected_msg_seq_num ≡ false
  pub delayed_a : (a.options.test_request_delay == 0) ≡ false
  pub delayed_b : (b.options.test_request_delay == 0) ≡ false
  pub expects_a : a.incoming_msg_seq_num ≡ b.outgoing_msg_seq_num
  pub expects_b : b.incoming_msg_seq_num ≡ a.outgoing_msg_seq_num
  pub small_a : a.outgoing_msg_seq_num + 2 ≤ int_max
  pub small_b : b.outgoing_msg_seq_num + 2 ≤ int_max
  pub small_interval : a.options.heartbeat_interval ≤ int_max

-- Both are logged on, and each expects the number that the other one uses next.
pub record ArePaired (a b : Session) : Type 0 where
  pub on_a : a.state ≡ logged_on
  pub on_b : b.state ≡ logged_on
  pub expects_a : a.incoming_msg_seq_num ≡ b.outgoing_msg_seq_num
  pub expects_b : b.incoming_msg_seq_num ≡ a.outgoing_msg_seq_num

module _ (env_a env_b : Env) (a b : Session) (c : CanPair a b) where
  abbrev pub interval : ℕ
  interval = a.options.heartbeat_interval

  abbrev pub a1 : Session
  a1 = after_send env_a (logon_fields interval) (opened a)

  abbrev pub b2 : Session
  b2 =
      next
        (scheduled env_b (after_send env_b (logon_fields interval) (received interval (opened b))))

  abbrev pub a2 : Session
  a2 = next (scheduled env_a (received interval a1))

  abbrev pub a3 : Session
  a3 = probed env_a a2

  abbrev pub b3 : Session
  b3 = after_send env_b (heartbeat_fields (to_string a.next_test_request_id)) (next b2)

  abbrev pub b4 : Session
  b4 = probed env_b b3

  pub a_opens : open_session env_a a ≡ (ok tt, a1)
  a_opens = initiator-opened env_a a c.connected_a c.initiator_a c.plain_a

  pub b_opens : open_session env_b b ≡ (ok tt, opened b)
  b_opens = acceptor-opened env_b b c.connected_b c.acceptor_b

  pub b_answers :
      (logon : Message)
      → Arrives (newest_written a1) logon
      → process_message env_b logon (opened b) ≡ (ok tt, b2)
  unfolding written_messages
  b_answers logon x =
      let l =
        arrived-IsLogon env_a interval logon (opened a) (opened b) x (omega (arith, c.small_a))
          c.small_interval c.expects_b in
      process_message-typed env_b logon Tags.logon (opened b) l.typed
      ∙ acceptor-answers env_b logon interval (opened b) l c.plain_b c.delayed_b
          (ap is_acceptor c.acceptor_b)

  pub a_takes :
      (reply : Message)
      → Arrives (newest_written b2) reply
      → process_message env_a reply a1 ≡ (ok tt, a2)
  unfolding written_messages
  a_takes reply x =
      let l =
        arrived-IsLogon env_b interval reply (received interval (opened b)) a1 x
          (omega (arith, c.small_b)) c.small_interval c.expects_a in
      process_message-typed env_a reply Tags.logon a1 l.typed
      ∙ initiator-takes env_a reply interval a1 l c.plain_a c.delayed_a
          (ap is_acceptor c.initiator_a)

  pub b_answers_probe :
      (probe : Message)
      → Arrives (newest_written a3) probe
      → process_message env_b probe b2 ≡ (ok tt, b3)
  unfolding written_messages
  b_answers_probe probe x =
      let i =
        probe-Identified env_a a.next_test_request_id probe (probing env_a (timer_cleared a2))
          b2.incoming_msg_seq_num x (omega (arith, c.small_a))
          (ap (λ (n : ℕ). (n + 1) % u32_mod) c.expects_b) in
      process_message-typed env_b probe Tags.test_request b2 i.typed
      ∙ probe-answered env_b probe (to_string a.next_test_request_id) b2 i.original i.numbered
          i.identified

  pub a_completes :
      (beat : Message)
      → Arrives (newest_written b3) beat
      → On env_a a3 (process_message env_a beat a3).1
  unfolding written_messages
  a_completes beat x =
      let i =
        beat-Identified env_b (to_string a.next_test_request_id) beat (next b2)
          a3.incoming_msg_seq_num x (omega (arith, c.small_b))
          (ap (λ (n : ℕ). (n + 1) % u32_mod) c.expects_a) in
      rw (process_message-typed env_a beat Tags.heartbeat a3 i.typed) (
        heartbeat-On env_a beat a.next_test_request_id a3 i.original i.numbered i.identified refl
          refl)

  -- The second round, for whatever the first left of the initiator.
  module _ (a4 : Session) (o : On env_a a3 a4) where
    abbrev pub a5 : Session
    a5 = after_send env_a (heartbeat_fields (to_string b.next_test_request_id)) (next a4)

    pub a_answers_probe :
        (probe : Message)
        → Arrives (newest_written b4) probe
        → process_message env_a probe a4 ≡ (ok tt, a5)
    unfolding written_messages
    a_answers_probe probe x =
        let i =
          probe-Identified env_b b.next_test_request_id probe (probing env_b (timer_cleared b3))
            a4.incoming_msg_seq_num x (omega (arith, c.small_b))
            (o.incoming ∙ ap (λ (n : ℕ). ((n + 1) % u32_mod + 1) % u32_mod) c.expects_a) in
        process_message-typed env_a probe Tags.test_request a4 i.typed
        ∙ probe-answered env_a probe (to_string b.next_test_request_id) a4 i.original i.numbered
            i.identified

    pub b_completes :
        (beat : Message)
        → Arrives (newest_written a5) beat
        → ArePaired a5 (process_message env_b beat b4).1
    unfolding written_messages
    b_completes beat x =
        let small : a4.outgoing_msg_seq_num ≤ int_max = omega (arith, o.outgoing, c.small_a) in
        let i =
          beat-Identified env_a (to_string b.next_test_request_id) beat (next a4)
            b4.incoming_msg_seq_num x small
            (ap (λ (n : ℕ). ((n + 1) % u32_mod + 1) % u32_mod) c.expects_b ∙ sym o.outgoing) in
        let p : On env_b b4 (process_message env_b beat b4).1 =
          rw (process_message-typed env_b beat Tags.heartbeat b4 i.typed) (
            heartbeat-On env_b beat b.next_test_request_id b4 i.original i.numbered i.identified
              refl refl) in
        record {
          on_a = o.on;
          on_b = p.on;
          expects_a =
              ap (λ (n : ℕ). (n + 1) % u32_mod)
                (o.incoming ∙ ap (λ (n : ℕ). ((n + 1) % u32_mod + 1) % u32_mod) c.expects_a)
              ∙ sym p.outgoing;
          expects_b =
              p.incoming
              ∙ ap (λ (n : ℕ). (n + 1) % u32_mod)
                  (ap (λ (n : ℕ). ((n + 1) % u32_mod + 1) % u32_mod) c.expects_b ∙ sym o.outgoing);
        }
