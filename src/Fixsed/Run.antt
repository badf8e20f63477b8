-- ===== src/Fixsed/Run.antt =====
-- fixsed/pipeline.cpp, `pipeline::run`: the connections, the script, and the loop that passes messages on.
-- What Boost.Asio and the script engine answer is a parameter.
-- A write that is over the high water mark waits, and other handlers run meanwhile; here they run after it.
use crocofix.Base.{Option, none, some, List, [], ◌∷◌, ◌++◌}
use crocofix.Base.Bytes.{Bytes, text}
use crocofix.Base.Exec.{Error, Result, ok, err, runtime_error, Exec, pure, throw, lift, ◌>>=◌, ◌>>◌}
use crocofix.Dictionary.{FieldTable, MessageDefinition}
use crocofix.Field.Conversions.{signed_string}
use crocofix.Message.{Message}
use crocofix.SocketReader.{SocketReader, socket_reader, Handled, on_read}
use crocofix.SocketWriter.{SocketWriter, socket_writer, complete}
use crocofix.Fixsed.{Options}
use crocofix.Fixsed.Pipeline.{Proxy, Side, process_message}

abbrev pub Function : Type 0
Function = Message → Result (Unit {0}) × Message

-- The other end of a connection.
pub record Endpoint : Type 0 where
  pub address : Bytes
  pub port : Bytes

-- What the calls of `run` outside of the program answer, in the order of the calls.
pub record Outside : Type 0 where
  pub listening : Result (Unit {0})
  pub accepted : Result Endpoint
  pub resolved : Result (Unit {0})
  pub connected : Result Endpoint
  pub loaded : Result (Unit {0})
  pub initiator_read : Option Function
  pub acceptor_read : Option Function

-- The readers and writers of both sides, and the log.
pub record Pipeline : Type 0 where
  pub initiator_reader : SocketReader
  pub acceptor_reader : SocketReader
  pub initiator_writer : SocketWriter
  pub acceptor_writer : SocketWriter
  pub info : List Bytes
  pub error : List Bytes

abbrev pub pipeline : Pipeline
pipeline = record {
  initiator_reader = socket_reader;
  acceptor_reader = socket_reader;
  initiator_writer = socket_writer;
  acceptor_writer = socket_writer;
  info = [];
  error = [];
}

unfoldable pub log_info : Bytes → Exec Pipeline Unit
log_info s x = (ok tt, record x { info = x.info ++ s ∷ [] })

-- `[host:port]`
abbrev at_port : Bytes → Bytes → Bytes
at_port host port = b'[' ∷ host ++ b':' ∷ port ++ b']' ∷ []

abbrev host_or_any : Option Bytes → Bytes
host_or_any none = text "*"
host_or_any (some host) = host

unfoldable pub connect : Options → Outside → Exec Pipeline Unit
unfolding log_info ◌>>=◌
connect o x = do
  lift x.listening
  log_info
      (text "waiting for initiator " ++ at_port (host_or_any o.in_host) (signed_string o.in_port))
  initiator ← lift x.accepted
  log_info (text "accepted initiator " ++ at_port initiator.address initiator.port)
  log_info (text "resolving acceptor " ++ at_port o.out_host (signed_string o.out_port))
  lift x.resolved
  log_info (text "connecting to acceptor " ++ at_port o.out_host (signed_string o.out_port))
  acceptor ← lift x.connected
  log_info (text "connected to acceptor " ++ at_port acceptor.address acceptor.port)

abbrev function_or_throw : Options → Bytes → Option Function → Exec Pipeline Function
function_or_throw o name (some f) = pure f
function_or_throw o name none =
    throw (
      runtime_error (text "could not load " ++ name ++ text "() function from script " ++ o.script))

-- The functions of the script for the messages of the initiator and of the acceptor.
unfoldable pub load_script : Options → Outside → Exec Pipeline (Function × Function)
unfolding ◌>>=◌
load_script o x = do
  lift x.loaded
  f ← function_or_throw o (text "initiator_read") x.initiator_read
  g ← function_or_throw o (text "acceptor_read") x.acceptor_read
  pure (f, g)

-- The messages that a reader dispatches, one by one; the first that throws ends the loop.
abbrev pub next_message :
    (Side → Result (Unit {0}) × Side) → Result (Unit {0}) × Side → Result (Unit {0}) × Side
next_message again (ok u, d) = again d
next_message again (err e, d) = (err e, d)

unfoldable pub process_each : Options → Proxy → List Message → Side → Result (Unit {0}) × Side
unfolding process_message
process_each o p [] d = (ok tt, d)
process_each o p (m ∷ ms) d = next_message (λ e. process_each o p ms e) (process_message o p m d)

-- How a handler of a read ends: as the subscriber did, or else as the reader does.
abbrev pub ended_by : Result (Unit {0}) → Result (Unit {0}) → Result (Unit {0})
ended_by (err e) r = err e
ended_by (ok u) r = r

abbrev pub to_acceptor : Pipeline → Side
to_acceptor x = record { info = x.info; error = x.error; destination = x.acceptor_writer }

abbrev pub to_initiator : Pipeline → Side
to_initiator x = record { info = x.info; error = x.error; destination = x.initiator_writer }

abbrev pub passed_to_acceptor :
    Pipeline → Handled → Result (Unit {0}) × Side → Result (Unit {0}) × Pipeline
passed_to_acceptor x h (r, d) = (
  ended_by r h.ended,
  record x {
    initiator_reader = h.reader;
    acceptor_writer = d.destination;
    info = d.info;
    error = d.error;
  },
)

abbrev pub passed_to_initiator :
    Pipeline → Handled → Result (Unit {0}) × Side → Result (Unit {0}) × Pipeline
passed_to_initiator x h (r, d) = (
  ended_by r h.ended,
  record x {
    acceptor_reader = h.reader;
    initiator_writer = d.destination;
    info = d.info;
    error = d.error;
  },
)

-- The handlers of the reads, for the bytes `s`. If a message throws, the loop ends, and the reader is not
-- used any more.
unfoldable pub from_initiator : Options → Proxy → Bytes → Exec Pipeline Unit
unfolding process_each on_read
from_initiator o p s x =
    let h = on_read p.table x.initiator_reader s in
    passed_to_acceptor x h (process_each o p h.dispatched (to_acceptor x))

unfoldable pub from_acceptor : Options → Proxy → Bytes → Exec Pipeline Unit
unfolding process_each on_read
from_acceptor o p s x =
    let h = on_read p.table x.acceptor_reader s in
    passed_to_initiator x h (process_each o p h.dispatched (to_initiator x))

-- The handlers that `io_context.run` runs.
pub data Happening : Type 0 where
  initiator_sends acceptor_sends : Bytes → Happening
  initiator_written acceptor_written : Happening

unfoldable pub happen : Options → Proxy → Proxy → Happening → Exec Pipeline Unit
unfolding from_initiator from_acceptor complete
happen o p q (initiator_sends s) x = from_initiator o p s x
happen o p q (acceptor_sends s) x = from_acceptor o q s x
happen o p q initiator_written x =
    (ok tt, record x { initiator_writer = complete x.initiator_writer })
happen o p q acceptor_written x = (ok tt, record x { acceptor_writer = complete x.acceptor_writer })

unfoldable pub run_loop : Options → Proxy → Proxy → List Happening → Exec Pipeline Unit
unfolding happen ◌>>=◌
run_loop o p q [] = pure tt
run_loop o p q (e ∷ es) = do happen o p q e; run_loop o p q es

-- The `catch` around it all.
abbrev what : Error → Bytes
what (Error.out_of_range v) = v
what (Error.runtime_error v) = v
what (Error.invalid_argument v) = v
what (Error.logic_error v) = v
what (Error.length_error v) = v
what (Error.undetermined v) = v

abbrev reported : Result (Unit {0}) × Pipeline → Pipeline
reported (ok u, x) = x
reported (err e, x) = record x { error = x.error ++ (text "error: " ++ what e) ∷ [] }

abbrev proxy : FieldTable → List MessageDefinition → Function → Proxy
proxy t ms f = record { table = t; messages = ms; function = f }

-- `pipeline::run`, with what happens on the connections once they are made.
unfoldable pub run :
    Options → FieldTable → List MessageDefinition → Outside → List Happening → Pipeline
unfolding connect load_script run_loop ◌>>=◌
run o t ms x es = reported (
    (do connect o x; (f, g) ← load_script o x; run_loop o (proxy t ms f) (proxy t ms g) es)
      pipeline)
