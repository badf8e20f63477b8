-- ===== src/Session/Recovery.antt =====
-- How two sessions of libcrocofix/session.cpp close a gap in the numbers of one of them.
pub mod Stamps
pub mod Request
pub mod Answer
pub mod Filled
pub mod Logon
pub mod Rounds
pub mod Reset
mod Examples
use crocofix.Base.{
  ℕ, ◌+◌, ◌%◌, ◌≤◌, ◌<◌, ◌≡◌, refl, sym, ap, subst, ◌∙◌, Bool, true, false, none, some, List, [],
  ◌∷◌, arith, ◌==◌, ◌&&◌, if◌then◌else◌, append-nil,
}
use crocofix.Base.Bytes.{Bytes, bytes_eq, to_string, int_max, u32_mod}
use crocofix.Base.Exec.{Result, ok, pure, ◌>>=◌}
use crocofix.Tags
use crocofix.Field.{field, try_get, get_bool}
use crocofix.Message.{
  Message, message, of_fields, msg_type, msg_seq_num, poss_dup_flag, stoi_u32, standard,
}
use crocofix.Session.State.{Session, Env, resending, logged_on, is_state}
use crocofix.Session.Handler.{
  check_sequence, dispatch_rest, dispatch, process_in_sequence, process_typed, process_message,
}
use crocofix.Session.Numbers.{sent_out, stamped-number}
use crocofix.Session.Delivery.{IsApplication, valid_numbers, advanced}
use crocofix.Session.Recovery.Stamps.{
  written_messages, Arrives, Unstamped, stamped-other, stoi_u32-to_string,
}
use crocofix.Session.Recovery.Request.{
  after_send, Asks, request-Asks, request_fields, recovering, requested, gap-requested,
}
use crocofix.Session.Recovery.Answer.{FillsGap, Answered, process_resend_request-Answered}
use crocofix.Session.Recovery.Filled.{Closed, gap_fill-Closed, probe_fields}
use crocofix.Session.Handshake.Logons.{next}
use crocofix.Session.Handshake.Arrivals.{process_message-typed}
use crocofix.Session.Handshake.Contents.{probe-Identified, beat-Identified}
use crocofix.Session.Handshake.Probes.{heartbeat_fields, probe-answered, On}
use crocofix.Session.Recovery.Logon.{heartbeat_answer}
pub use crocofix.Session.Recovery.Rounds.{Lags, newest_written, HandedOne, Recovered}
use crocofix.Session.Recovery.Rounds.{ahead-requested, stepped, recovered}

-- The two sessions between the messages.
module _ (env_a env_b : Env) (a b : Session) (ahead request fill probe beat : Message) where
  abbrev pub asking_a : Session
  asking_a = (process_message env_a ahead a).1

  abbrev pub filling_b : Session
  filling_b = (process_message env_b request b).1

  abbrev pub probing_a : Session
  probing_a = (process_message env_a fill asking_a).1

  abbrev pub beating_b : Session
  beating_b = (process_message env_b probe filling_b).1

  abbrev pub on_a : Session
  on_a = (process_message env_a beat probing_a).1

  -- An application message reaches a session from behind a gap, and the request that the session hands to its
  -- writer, the peer's answer, the TestRequest that the session sends then and the Heartbeat of the peer
  -- arrive as they were sent: each step sent one message, the gap fill without a number of its own, each
  -- session expects the number that the other one uses next, and the first is logged on. This is where the
  -- session was not resending and does not use NextExpectedMsgSeqNum, the peer missed nothing and delays its
  -- TestRequest, and the numbers fit an `int`. A message is followed from `process_message` on, where
  -- `on_message_read` has checked it, and is handled as the MsgType says that it arrives with.
  pub gap-Recovered :
      (t : Bytes) (n : ℕ)
      → Lags n a b
      → IsApplication t
      → msg_type ahead ≡ ok t
      → poss_dup_flag ahead ≡ ok false
      → msg_seq_num ahead ≡ ok n
      → Arrives (newest_written asking_a) request
      → Arrives (newest_written filling_b) fill
      → Arrives (newest_written probing_a) probe
      → Arrives (newest_written beating_b) beat
      → Recovered a b asking_a filling_b probing_a beating_b on_a
  gap-Recovered t n g i y p h =
      let e =
        process_message-typed env_a ahead t a y
        ∙ ahead-requested env_a ahead t n a i p h g.not_resending g.ahead in
      stepped
        (λ (s : Session).
          Arrives (newest_written s) request
          → Arrives (newest_written filling_b) fill
          → Arrives (newest_written (process_message env_a fill s).1) probe
          → Arrives (newest_written beating_b) beat
          → Recovered a b s filling_b (process_message env_a fill s).1 beating_b
              (process_message env_a beat (process_message env_a fill s).1).1)
        e (recovered env_a env_b a b n request fill probe beat g)
