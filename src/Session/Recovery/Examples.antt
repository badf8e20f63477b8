-- ===== src/Session/Recovery/Examples.antt =====
-- A session that expects the number 3 and receives 7, while the peer's next number is 9.
use crocofix.Base.{◌≡◌, refl, [], ◌∷◌, arith}
use crocofix.Base.Bytes.{codes, to_string}
use crocofix.Base.Exec.{ok}
use crocofix.Tags
use crocofix.Field.{field, try_get, get_bool}
use crocofix.Message.{Message, msg_type, gap_fill_flag, poss_dup_flag}
use crocofix.Session.State.{Session, logged_on, session}
use crocofix.Session.Handler.{process_message}
use crocofix.Session.Examples.{
  env, received, order, expecting, application, order_type, order_number, order_dup,
}
use crocofix.Session.Recovery.Stamps.{Arrives, stoi_u32-to_string}
use crocofix.Session.Recovery.Request.{requested}
use crocofix.Session.Recovery.Reset.{Resets, was_reset, reset-requested}
use crocofix.Session.Recovery.{Lags, newest_written, Recovered, gap-Recovered}

abbrev lagging : Session
lagging = expecting logged_on 3

abbrev peer : Session
peer = record session { outgoing_msg_seq_num = 9 }

abbrev a1 : Session
a1 = (process_message env (order (codes "7")) lagging).1

-- The messages arrive just as they were handed over.
abbrev request : Message
request = newest_written a1

abbrev b1 : Session
b1 = (process_message env request peer).1

abbrev fill : Message
fill = newest_written b1

abbrev a2 : Session
a2 = (process_message env fill a1).1

abbrev probe : Message
probe = newest_written a2

abbrev b2 : Session
b2 = (process_message env probe b1).1

abbrev beat : Message
beat = newest_written b2

as_sent : (m : Message) → Arrives m m
as_sent m = record { found = λ t a b. refl }

lagging-Lags : Lags 7 lagging peer
unfolding session
lagging-Lags = record {
  not_resending = refl;
  by_gap_fill = refl;
  ahead = omega arith;
  used = omega arith;
  in_step = refl;
  delayed = refl;
  small_a = omega arith;
  small_b = omega arith;
}

gap-Recovered_example : Recovered lagging peer a1 b1 a2 b2 (process_message env beat a2).1
gap-Recovered_example =
    gap-Recovered env env lagging peer (order (codes "7")) request fill probe beat (codes "D") 7
      lagging-Lags application order_type order_dup order_number (as_sent request) (as_sent fill)
      (as_sent probe) (as_sent beat)

abbrev reset : Message
reset = received (codes "4") (codes "3") (codes "0") (field Tags.new_seq_no (to_string 7) ∷ [])

reset-Resets : Resets 7 reset
unfolding msg_type poss_dup_flag gap_fill_flag get_bool try_get
reset-Resets = record {
  typed = refl;
  original = refl;
  no_gap_fill = refl;
  value = field Tags.new_seq_no (to_string 7);
  found = refl;
  read = stoi_u32-to_string 7 (omega arith);
}

reset-requested_example :
    process_message env (order (codes "7")) (process_message env reset lagging).1
    ≡ (ok tt, requested env 7 (was_reset 7 lagging))
reset-requested_example =
    reset-requested env 7 lagging refl (omega arith) reset (order (codes "7")) (codes "D")
      reset-Resets application order_type order_dup order_number
