-- ===== src/Session/Handshake.antt =====
-- How two sessions of libcrocofix/session.cpp log on to each other.
pub mod Logons
pub mod Arrivals
pub mod Contents
pub mod Probes
mod Rounds
mod Examples
use crocofix.Base.{
  ℕ, ◌+◌, ◌%◌, ◌≤◌, ◌≡◌, ◌≢◌, refl, sym, ap, subst, ◌∙◌, false, true, none, some, [], ◌∷◌, arith,
  ◌==◌,
}
use crocofix.Base.Bytes.{Bytes, to_string, int_max, u32_mod}
use crocofix.Base.Exec.{Result, ok}
use crocofix.Tags
use crocofix.Field.{Fields, field, try_get}
use crocofix.Message.{Message, message, msg_seq_num, poss_dup_flag, stoi_u32}
use crocofix.Session.State.{
  Session, Env, connected, logging_on, logged_on, initiator, acceptor, is_acceptor, Behaviour,
}
use crocofix.Session.Replies.{open_session, test_request_due}
use crocofix.Session.Handler.{process_message}
use crocofix.Session.Numbers.{sent_out}
use crocofix.Session.Recovery.{newest_written}
use crocofix.Session.Recovery.Stamps.{written_messages, Arrives, Unstamped, stoi_u32-to_string}
use crocofix.Session.Recovery.Request.{after_send}
use crocofix.Session.Recovery.Filled.{probe_fields, probing}
use crocofix.Session.Handshake.Logons.{
  logon_fields, opened, received, next, scheduled, IsLogon, initiator-opened, acceptor-opened,
  acceptor-answers, initiator-takes,
}
use crocofix.Session.Handshake.Arrivals.{
  arrived-field, arrived-number, arrived-original, arrived-reset,
}
use crocofix.Session.Handshake.Probes.{
  heartbeat_fields, timer_cleared, probed, due-probed, probe-answered, On, heartbeat-On,
}
pub use crocofix.Session.Handshake.Rounds.{CanPair, ArePaired}
use crocofix.Session.Handshake.Rounds.{
  a1, b2, a2, a3, b3, b4, a5, a_opens, b_opens, b_answers, a_takes, b_answers_probe, a_completes,
  a_answers_probe, b_completes,
}

abbrev state_of : Result (Unit {0}) × Session → Session
state_of r = r.1

-- What a session handed over last arrives.
abbrev Sent : Message → Session → Type 0
Sent m s = Arrives (newest_written s) m

-- The two sessions between the messages: each opens, the acceptor answers the Logon, the initiator takes the
-- answer, then the timer of each sends a TestRequest, the initiator's first.
module _ (env_a env_b : Env) (a b : Session)
    (logon reply probe_a beat_b probe_b beat_a : Message) where
  abbrev pub opened_a : Session
  opened_a = (open_session env_a a).1

  abbrev pub opened_b : Session
  opened_b = (open_session env_b b).1

  abbrev pub answered_b : Session
  answered_b = (process_message env_b logon opened_b).1

  abbrev pub taken_a : Session
  taken_a = (process_message env_a reply opened_a).1

  abbrev pub probing_a : Session
  probing_a = (test_request_due env_a taken_a).1

  abbrev pub beating_b : Session
  beating_b = (process_message env_b probe_a answered_b).1

  abbrev pub on_a : Session
  on_a = (process_message env_a beat_b probing_a).1

  abbrev pub probing_b : Session
  probing_b = (test_request_due env_b beating_b).1

  abbrev pub beating_a : Session
  beating_a = (process_message env_a probe_b on_a).1

  abbrev pub on_b : Session
  on_b = (process_message env_b beat_a probing_b).1

  -- An initiator and an acceptor, newly connected, log on to each other: once the Logons, the two TestRequests
  -- and the Heartbeats that answer them have arrived as they were sent, both are logged on, and each
  -- expects the number that the other one uses next. This is where neither uses NextExpectedMsgSeqNum,
  -- both delay their TestRequest, each expected the other's number from the start, and the numbers and
  -- the heartbeat interval fit an `int`. A message is followed from `process_message` on,
  -- where `on_message_read` has checked it, and is handled as the MsgType says that it arrives with.
  pub logons-ArePaired :
      CanPair a b
      → Arrives (newest_written opened_a) logon
      → Arrives (newest_written answered_b) reply
      → Arrives (newest_written probing_a) probe_a
      → Arrives (newest_written beating_b) beat_b
      → Arrives (newest_written probing_b) probe_b
      → Arrives (newest_written beating_a) beat_a
      → ArePaired beating_a on_b
  logons-ArePaired c x y z u v w =
      let e1 : opened_a ≡ a1 env_a env_b a b c = ap state_of (a_opens env_a env_b a b c) in
      let f1 : opened_b ≡ opened b = ap state_of (b_opens env_a env_b a b c) in
      let f2 : answered_b ≡ b2 env_a env_b a b c =
        ap (λ (s : Session). (process_message env_b logon s).1) f1
        ∙ ap state_of (b_answers env_a env_b a b c logon (subst (Sent logon) e1 x)) in
      let e2 : taken_a ≡ a2 env_a env_b a b c =
        ap (λ (s : Session). (process_message env_a reply s).1) e1
        ∙ ap state_of (a_takes env_a env_b a b c reply (subst (Sent reply) f2 y)) in
      let e3 : probing_a ≡ a3 env_a env_b a b c =
        ap (λ (s : Session). (test_request_due env_a s).1) e2
        ∙ ap state_of (due-probed env_a (a2 env_a env_b a b c)) in
      let f3 : beating_b ≡ b3 env_a env_b a b c =
        ap (λ (s : Session). (process_message env_b probe_a s).1) f2
        ∙ ap state_of (b_answers_probe env_a env_b a b c probe_a (subst (Sent probe_a) e3 z)) in
      let o = a_completes env_a env_b a b c beat_b (subst (Sent beat_b) f3 u) in
      let a4 : Session = (process_message env_a beat_b (a3 env_a env_b a b c)).1 in
      let e4 : on_a ≡ a4 = ap (λ (s : Session). (process_message env_a beat_b s).1) e3 in
      let f4 : probing_b ≡ b4 env_a env_b a b c =
        ap (λ (s : Session). (test_request_due env_b s).1) f3
        ∙ ap state_of (due-probed env_b (b3 env_a env_b a b c)) in
      let e5 : beating_a ≡ a5 env_a env_b a b c a4 o =
        ap (λ (s : Session). (process_message env_a probe_b s).1) e4
        ∙ ap state_of
            (a_answers_probe env_a env_b a b c a4 o probe_b (subst (Sent probe_b) f4 v)) in
      let f5 = ap (λ (s : Session). (process_message env_b beat_a s).1) f4 in
      subst (λ (s : Session). ArePaired s on_b) (sym e5)
        (subst (λ (s : Session). ArePaired (a5 env_a env_b a b c a4 o) s) (sym f5)
          (b_completes env_a env_b a b c a4 o beat_a (subst (Sent beat_a) e5 w)))
