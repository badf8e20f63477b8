-- ===== src/Session/Handshake/Examples.antt =====
-- Two new sessions, one of them made an acceptor.
use crocofix.Base.{refl, arith}
use crocofix.Message.{Message}
use crocofix.Session.State.{Session, acceptor, session}
use crocofix.Session.Examples.{env}
use crocofix.Session.Recovery.{newest_written}
use crocofix.Session.Recovery.Stamps.{Arrives}
use crocofix.Session.Handshake.{
  CanPair, ArePaired, opened_a, answered_b, probing_a, beating_b, probing_b, beating_a, on_b,
  logons-ArePaired,
}

abbrev a : Session
a = session

abbrev b : Session
b = record session { options = record (session.options) { logon_behaviour = acceptor } }

can_pair : CanPair a b
unfolding session
can_pair = record {
  connected_a = refl;
  connected_b = refl;
  initiator_a = refl;
  acceptor_b = refl;
  plain_a = refl;
  plain_b = refl;
  delayed_a = refl;
  delayed_b = refl;
  expects_a = refl;
  expects_b = refl;
  small_a = omega arith;
  small_b = omega arith;
  small_interval = omega arith;
}

abbrev empty : Message
empty = newest_written a

abbrev logon : Message
logon = newest_written (opened_a env env a b empty empty empty empty empty empty)

abbrev reply : Message
reply = newest_written (answered_b env env a b logon empty empty empty empty empty)

abbrev probe_a : Message
probe_a = newest_written (probing_a env env a b logon reply empty empty empty empty)

abbrev beat_b : Message
beat_b = newest_written (beating_b env env a b logon reply probe_a empty empty empty)

abbrev probe_b : Message
probe_b = newest_written (probing_b env env a b logon reply probe_a beat_b empty empty)

abbrev beat_a : Message
beat_a = newest_written (beating_a env env a b logon reply probe_a beat_b probe_b empty)

as_sent : (m : Message) → Arrives m m
as_sent m = record { found = λ t h k. refl }

logons-ArePaired_example :
    ArePaired
      (beating_a env env a b logon reply probe_a beat_b probe_b beat_a)
      (on_b env env a b logon reply probe_a beat_b probe_b beat_a)
logons-ArePaired_example =
    logons-ArePaired env env a b logon reply probe_a beat_b probe_b beat_a can_pair (as_sent logon)
      (as_sent reply) (as_sent probe_a) (as_sent beat_b) (as_sent probe_b) (as_sent beat_a)
