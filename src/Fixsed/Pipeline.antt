-- ===== src/Fixsed/Pipeline.antt =====
-- fixsed/pipeline.hpp and fixsed/pipeline.cpp: what the proxy does with a message of either side. The
-- script's function is a parameter; the DTrace probes, which only report, are left out.
use crocofix.Base.{◌<◌, ◌-◌, ◌≡◌, refl, List, [], ◌∷◌, ◌++◌, if◌then◌else◌, length}
use crocofix.Base.Bytes.{Bytes, to_string}
use crocofix.Base.Exec.{Error, Result, ok, err}
use crocofix.Field.{Fields}
use crocofix.Dictionary.{FieldTable, MessageDefinition}
use crocofix.Message.{Message, standard}
use crocofix.Message.Encode.{encode}
use crocofix.Message.Printing.{pretty_print}
use crocofix.SocketWriter.{SocketWriter, buffer_size, Written, write}
use crocofix.SocketWriter.Order.{accepted, IsValid, WriteEnd, write-WriteEnd}
use crocofix.Fixsed.{Options}

-- The tables of FIX.5.0SP2, and the function of the script: its end, with what an invalid result says,
-- and the message as it left it.
pub record Proxy : Type 0 where
  pub table : FieldTable
  pub messages : List MessageDefinition
  pub function : Message → Result (Unit {0}) × Message

-- The entries of the log, at either level, and the writer of the other side.
pub record Side : Type 0 where
  pub info : List Bytes
  pub error : List Bytes
  pub destination : SocketWriter

unfoldable pub raw_fields : Fields → Bytes
raw_fields [] = []
raw_fields (f ∷ fs) = to_string f.tag ++ (b'=' ∷ f.value) ++ (1 ∷ raw_fields fs)

-- `log_message`: what is logged; `pretty_print` may throw.
unfoldable pub log_message : Options → Proxy → Message → Result Bytes
unfolding pretty_print raw_fields
log_message o p m =
    if o.pretty_print then pretty_print p.table p.messages m else ok (raw_fields m.fields)

abbrev log_info : Bytes → Side → Side
log_info s d = record d { info = d.info ++ s ∷ [] }

-- The text of an error that the script raised.
abbrev said : Error → Bytes
said (Error.out_of_range v) = v
said (Error.runtime_error v) = v
said (Error.invalid_argument v) = v
said (Error.logic_error v) = v
said (Error.length_error v) = v
said (Error.undetermined v) = v

-- How the handler ended, and the side; the message goes to the destination as the script left it.
abbrev written_to : Side → Written → Result (Unit {0}) × Side
written_to d w = (w.ended, record d { destination = w.writer })

abbrev pub send_on : Side → Message → Result Bytes → Result (Unit {0}) × Side
send_on d m (err e) = (err e, d)
send_on d m (ok s) = written_to (log_info s d) (write d.destination m standard)

abbrev pub after_script :
    Options → Proxy → Side → Result (Unit {0}) × Message → Result (Unit {0}) × Side
after_script o p d (err e, m) = (ok tt, record d { error = d.error ++ said e ∷ [] })
after_script o p d (ok u, m) = send_on d m (log_message o p m)

abbrev pub run_script : Options → Proxy → Side → Message → Result Bytes → Result (Unit {0}) × Side
run_script o p d m (err e) = (err e, d)
run_script o p d m (ok s) = after_script o p (log_info s d) (p.function m)

-- The lambda that both readers' signals are connected to.
unfoldable pub process_message : Options → Proxy → Message → Side → Result (Unit {0}) × Side
unfolding log_message write
process_message o p m d = run_script o p d m (log_message o p m)

-- What the destination was given.
abbrev pub given : Side → Bytes
given d = accepted d.destination

-- How a message of one side ends, by what the script made of it: `m` is the message as it left it.
abbrev pub Outcome : Side → Message → Result (Unit {0}) → Result (Unit {0}) × Side → Type 0
Outcome d m (err e) (ok u, d') = d'.destination ≡ d.destination
Outcome d m (ok v) (ok u, d') =
    (b : Bytes) × ((encode m (buffer_size - length d.destination.pending_buffer) standard).0 ≡ ok b)
    × (0 < length b)
    × (given d' ≡ given d ++ b)
Outcome d m r (err e, d') = d'.destination ≡ d.destination

module _ (o : Options) (p : Proxy) (d : Side) (h : IsValid d.destination) where
  thrown :
      (m : Message) (r : Result (Unit {0})) (e : Error) (d' : Side)
      → d'.destination ≡ d.destination
      → Outcome d m r (err e, d')
  thrown m (ok u) e d' q = q
  thrown m (err x) e d' q = q

  by_write :
      (m : Message) (i : List Bytes) (r : Result Bytes) (w : Written) (x : Result (Unit {0}))
      → (encode m (buffer_size - length d.destination.pending_buffer) standard).0 ≡ r
      → WriteEnd d.destination r w x
      → Outcome d m (ok tt) (x, record d { info = i; destination = w.writer })
  by_write m i (ok b) w (ok u) e k = (b, e, k.2, k.1)
  by_write m i (err f) w (ok u) e k = elim k [ ]
  by_write m i (ok b) w (err x) e k = k
  by_write m i (err f) w (err x) e k = k

  by_second :
      (m : Message) (s : Bytes) (r : Result Bytes)
      → Outcome d m (ok tt) (send_on (log_info s d) m r)
  by_second m s (err e) = refl
  by_second m s (ok t) =
      by_write m ((d.info ++ s ∷ []) ++ t ∷ []) _ (write d.destination m standard)
        (write d.destination m standard).ended refl (write-WriteEnd d.destination m standard h)

  by_script :
      (s : Bytes) (f : Result (Unit {0}) × Message)
      → Outcome d f.1 f.0 (after_script o p (log_info s d) f)
  by_script s (err e, m) = refl
  by_script s (ok u, m) = by_second m s (log_message o p m)

  by_first :
      (m : Message) (r : Result Bytes)
      → Outcome d (p.function m).1 (p.function m).0 (run_script o p d m r)
  by_first m (err e) = thrown (p.function m).1 (p.function m).0 e d refl
  by_first m (ok s) = by_script s (p.function m)

  pub process_message-Outcome :
      (m : Message) → Outcome d (p.function m).1 (p.function m).0 (process_message o p m d)
  unfolding process_message
  process_message-Outcome m = by_first m (log_message o p m)
