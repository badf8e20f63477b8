-- ===== src/SocketReader.antt =====
-- libcrocofix/socket_reader.cppm and libcrocofix/socket_reader.cpp: the read buffer and the handler of
-- `async_read_some`. The bytes that arrive are an argument; the messages dispatched come back in order.
pub mod Stream
pub mod Bounds
pub mod Refinement
pub mod Frames
pub mod Examples
use crocofix.Base.{
  ℕ, zero, suc, ◌+◌, ◌-◌, Bool, true, false, List, [], ◌∷◌, ◌++◌, ltb, ◌==◌, if◌then◌else◌, length,
  take, drop, replicate,
}
use crocofix.Base.Bytes.{Bytes}
use crocofix.Base.Exec.{Error, Result, ok, err}
use crocofix.Dictionary.{FieldTable}
use crocofix.Message.{Message, of_fields, reset}
use crocofix.Message.Decode.{DecodeResult, decode}

-- `m_read_buffer.size()`
abbrev pub buffer_size : ℕ
buffer_size = 8192

pub record SocketReader : Type 0 where
  pub read_buffer : Bytes
  pub write_offset : ℕ
  pub read_offset : ℕ
  pub message : Message

abbrev pub socket_reader : SocketReader
socket_reader = record {
  read_buffer = replicate buffer_size 0;
  write_offset = 0;
  read_offset = 0;
  message = of_fields [];
}

-- The bytes `decode` is given: `m_write_offset - m_read_offset` of them from `m_read_offset` on.
unfoldable pub unread : SocketReader → Bytes
unread r = take (r.write_offset - r.read_offset) (drop r.read_offset r.read_buffer)

-- The head of `read`: with a full buffer the left overs move to the start.
unfoldable pub make_room : SocketReader → SocketReader
unfolding unread
make_room r =
    if r.write_offset == buffer_size
    then record r {
      read_buffer = unread r ++ drop (r.write_offset - r.read_offset) r.read_buffer;
      read_offset = 0;
      write_offset = r.write_offset - r.read_offset;
    }
    else r

-- The size of the buffer handed to `async_read_some`.
unfoldable pub room : SocketReader → ℕ
room r = length r.read_buffer - r.write_offset

-- What `async_read_some` put behind `m_write_offset`, and `m_write_offset += bytes_transferred`.
unfoldable pub transferred : SocketReader → Bytes → SocketReader
transferred r s = record r {
  read_buffer =
      take r.write_offset r.read_buffer ++ (s ++ drop (r.write_offset + length s) r.read_buffer);
  write_offset = r.write_offset + length s;
}

-- What a handler left: the messages it dispatched, the reader, and how it ended.
pub record Handled : Type 0 where
  pub dispatched : List Message
  pub reader : SocketReader
  pub ended : Result (Unit {0})

abbrev pub handled : List Message → SocketReader → Result (Unit {0}) → Handled
handled ms r x = record { dispatched = ms; reader = r; ended = x }

abbrev pub dispatching : Message → Handled → Handled
dispatching m h = record h { dispatched = m ∷ h.dispatched }

abbrev pub advanced : SocketReader → ℕ → Message → SocketReader
advanced r n m = record r { read_offset = r.read_offset + n; message = m }

abbrev pub stepped : (SocketReader → Handled) → SocketReader → ℕ → Message → Bool → Handled
stepped again r n m true = dispatching m (again (advanced r n (reset m)))
stepped again r n m false = handled [] (advanced r n m) (ok tt)

abbrev pub after_decode :
    (SocketReader → Handled) → SocketReader → Result DecodeResult × Message → Handled
after_decode again r (err e, m) = handled [] (record r { message = m }) (err e)
after_decode again r (ok x, m) = stepped again r x.consumed m x.complete

-- The `while` loop. Every message takes at least one byte, so fuel past the unread bytes is enough.
unfoldable pub drain : ℕ → FieldTable → SocketReader → Handled
unfolding decode unread reset
drain zero d r = handled [] r (ok tt)
drain (suc fuel) d r = after_decode (λ q. drain fuel d q) r (decode d r.message (unread r))

abbrev pub read_again : Handled → Result (Unit {0}) → Handled
read_again h (err e) = h
read_again h (ok u) = record h { reader = make_room h.reader }

-- The handler, for the bytes `s`: the loop and, if no exception left it, the next `read`.
unfoldable pub on_read : FieldTable → SocketReader → Bytes → Handled
unfolding drain unread transferred make_room
on_read d r s =
    let q = transferred r s in let h = drain (suc (length (unread q))) d q in read_again h h.ended
