-- ===== src/Connection/Examples.antt =====
-- One Heartbeat from writer to reader.
use crocofix.Base.{
  ℕ, ◌≤◌, ◌≡◌, refl, sym, [], ◌∷◌, ◌++◌, append-nil, arith, length, length-replicate, List, All,
}
use crocofix.Base.Bytes.{to_string, digits}
use crocofix.Base.Exec.{ok}
use crocofix.Field.{Fields, set, try_get}
use crocofix.Message.{
  Message, standard, buffer_checksum, calculate_body_length, number_of_digits, format_checksum,
}
use crocofix.Message.Encode.{encode}
use crocofix.Message.Wire.{wire}
use crocofix.Message.Examples.{
  table, front, heartbeat, front-IsPlain, checksum-IsPlain, front-Untagged, front-SumsUp,
}
use crocofix.SocketReader.{SocketReader, socket_reader, buffer_size, room, on_read}
use crocofix.SocketReader.Frames.{IsFrame, frame, all_read_back}
use crocofix.SocketWriter.{SocketWriter, socket_writer, write, complete, flush_pending_writes}
use crocofix.Connection.{
  Connection, connected, writes, completes, reads, dispatched_in_order, all_dispatched,
  read_in_transit,
}

abbrev sent : List Fields
sent = front ∷ []

sent-IsFrame : All (IsFrame table) sent
sent-IsFrame = (
  record {
    untagged = front-Untagged;
    plain = front-IsPlain;
    closes = checksum-IsPlain;
    sums_up = front-SumsUp;
  },
  tt,
)

abbrev writer : SocketWriter
writer = complete (write socket_writer heartbeat standard).writer

abbrev reader : SocketReader
reader = (on_read table socket_reader writer.sent).reader

abbrev received : List Message
received = (on_read table socket_reader writer.sent).dispatched

encoded : (encode heartbeat 8192 standard).0 ≡ ok (frame front)
unfolding encode set try_get to_string digits calculate_body_length number_of_digits format_checksum
    buffer_checksum wire
encoded = refl

accepted_call : (write socket_writer heartbeat standard).ended ≡ ok tt
unfolding encode write set try_get to_string digits calculate_body_length number_of_digits
    format_checksum buffer_checksum
accepted_call = refl

written_out : Connection table sent [] [] writer socket_reader
written_out = completes (writes heartbeat front connected encoded accepted_call)

room_left : length writer.sent ≤ room socket_reader
unfolding room encode write flush_pending_writes complete set try_get to_string digits
    calculate_body_length number_of_digits format_checksum buffer_checksum
room_left = omega (arith, length-replicate {A = ℕ} buffer_size 0)

read_through : (on_read table socket_reader writer.sent).ended ≡ ok tt
read_through =
    read_in_transit table sent [] [] writer.sent [] writer socket_reader sent-IsFrame written_out
      (sym (append-nil writer.sent)) room_left

read_out : Connection table sent received writer.sent writer reader
read_out = reads writer.sent [] written_out (sym (append-nil writer.sent)) room_left read_through

dispatched_in_order_example : (later : List Message) × (received ++ later ≡ all_read_back sent)
dispatched_in_order_example =
    dispatched_in_order table sent received writer.sent writer reader sent-IsFrame read_out

buffers_empty : (writer.active_buffer ≡ []) × (writer.pending_buffer ≡ [])
unfolding encode write flush_pending_writes complete set try_get to_string digits
    calculate_body_length number_of_digits format_checksum buffer_checksum
buffers_empty = (refl, refl)

all_dispatched_example : received ≡ all_read_back sent
all_dispatched_example =
    all_dispatched table sent received writer reader sent-IsFrame read_out buffers_empty.0
      buffers_empty.1
