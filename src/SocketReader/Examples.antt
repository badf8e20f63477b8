-- ===== src/SocketReader/Examples.antt =====
-- Two Heartbeats in one read, on which the theorems about the reader are run.
use crocofix.Base.{ℕ, ◌≡◌, ◌≤◌, refl, [], ◌∷◌, arith, length, length-replicate, All, List}
use crocofix.Base.Bytes.{to_string, digits}
use crocofix.Base.Exec.{ok}
use crocofix.Field.{Fields}
use crocofix.Message.{of_fields, buffer_checksum}
use crocofix.Message.Wire.{wire}
use crocofix.Message.Examples.{
  table, front, front-IsPlain, checksum-IsPlain, front-Untagged, front-SumsUp,
}
use crocofix.SocketReader.{socket_reader, buffer_size, room, on_read}
use crocofix.SocketReader.Stream.{Follows, deliver}
use crocofix.SocketReader.Bounds.{IsValid, socket_reader-IsValid, on_read-IsValid}
use crocofix.SocketReader.Refinement.{opened, view, on_read-deliver}
use crocofix.SocketReader.Frames.{IsFrame, frames, all_read_back, on_read-frames}

abbrev pub sent : List Fields
sent = front ∷ front ∷ []

pub sent-IsFrame : All (IsFrame table) sent
sent-IsFrame = (one, (one, tt))
  where
    one : IsFrame table front
    one = record {
      untagged = front-Untagged;
      plain = front-IsPlain;
      closes = checksum-IsPlain;
      sums_up = front-SumsUp;
    }

pub sent_room : length (frames sent) ≤ room socket_reader
unfolding room wire to_string digits buffer_checksum
sent_room = omega (arith, length-replicate {A = ℕ} buffer_size 0)

on_read-IsValid_example : IsValid (on_read table socket_reader (frames sent)).reader
on_read-IsValid_example =
    on_read-IsValid table socket_reader (frames sent) socket_reader-IsValid sent_room

on_read-deliver_example :
    Follows
      (deliver table (of_fields []) (frames sent))
      []
      (view (on_read table socket_reader (frames sent)))
on_read-deliver_example = on_read-deliver table [] [] socket_reader (frames sent) opened sent_room

both_read :
    ((on_read table socket_reader (frames sent)).dispatched ≡ all_read_back sent)
    × ((on_read table socket_reader (frames sent)).ended ≡ ok tt)
both_read =
    on_read-frames table sent [] [] socket_reader (frames sent) sent-IsFrame opened sent_room refl
