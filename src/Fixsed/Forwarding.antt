-- ===== src/Fixsed/Forwarding.antt =====
-- What the proxy of fixsed/pipeline.cpp gives to either side.
mod Each
use crocofix.Base.{ℕ, ◌≤◌, ◌≡◌, ap, List, [], ◌∷◌, ◌++◌, append_assoc, append-nil, length}
use crocofix.Base.Bytes.{Bytes}
use crocofix.Base.Exec.{Error, ok}
use crocofix.Message.{Message, standard}
use crocofix.Message.Encode.{encode}
use crocofix.SocketReader.{SocketReader, room}
use crocofix.SocketReader.Refinement.{Reads}
use crocofix.SocketWriter.{SocketWriter, Written, write, complete}
use crocofix.SocketWriter.Order.{accepted, IsValid, WriteEnd, write-WriteEnd}
use crocofix.Fixsed.{Options}
use crocofix.Fixsed.Pipeline.{
  Proxy, log_message, send_on, after_script, run_script, given, Outcome, process_message,
  process_message-Outcome,
}
use crocofix.Fixsed.Run.{Pipeline, pipeline, next_message, from_initiator, from_acceptor}
pub use crocofix.Fixsed.Forwarding.Each.{Forwards}
use crocofix.Fixsed.Forwarding.Each.{Passed}

-- One side of the proxy: the bytes its reader was given, the reader, and the writer of the other side.
record Relays (p : Proxy) (a : Bytes) (r : SocketReader) (w : SocketWriter) : Type 0 where
  messages : List Message
  reads : Reads p.table a messages r
  valid : IsValid w
  forwards : Forwards p messages (accepted w)

-- The states that the proxy comes to while nothing is thrown: `p` passes on what the initiator sends and `q`
-- what the acceptor sends, and `a` and `b` are the bytes read of either. Reads and completed writes
-- come in any order.
pub data Proxied (o : Options) (p q : Proxy) : Bytes → Bytes → Pipeline → Type 0 where
  connected :
      (info error : List Bytes)
      → Proxied o p q [] [] (record pipeline { info = info; error = error })
  initiator_sends :
      {a b : Bytes} {x : Pipeline} (s : Bytes)
      → Proxied o p q a b x
      → length s ≤ room x.initiator_reader
      → (from_initiator o p s x).0 ≡ ok tt
      → Proxied o p q (a ++ s) b (from_initiator o p s x).1
  acceptor_sends :
      {a b : Bytes} {x : Pipeline} (s : Bytes)
      → Proxied o p q a b x
      → length s ≤ room x.acceptor_reader
      → (from_acceptor o q s x).0 ≡ ok tt
      → Proxied o p q a (b ++ s) (from_acceptor o q s x).1
  initiator_written :
      {a b : Bytes} {x : Pipeline}
      → Proxied o p q a b x
      → Proxied o p q a b (record x { initiator_writer = complete x.initiator_writer })
  acceptor_written :
      {a b : Bytes} {x : Pipeline}
      → Proxied o p q a b x
      → Proxied o p q a b (record x { acceptor_writer = complete x.acceptor_writer })
