-- ===== src/SocketReader/Frames.antt =====
-- The bytes of several encoded messages, one behind the other, through the reader of
-- libcrocofix/socket_reader.cpp.
use crocofix.Base.{
  ◌≤◌, ◌≡◌, refl, sym, ap, ◌∙◌, true, List, [], ◌∷◌, ◌++◌, append_assoc, length, drop-append, All,
}
use crocofix.Base.Bytes.{Bytes}
use crocofix.Base.Exec.{ok}
use crocofix.Tags
use crocofix.Field.{Fields}
use crocofix.Dictionary.{FieldTable}
use crocofix.Message.{Message, of_fields, reset, buffer_checksum, sum_bytes}
use crocofix.Message.Decode.{decode, decode_field, cut, narrowed}
use crocofix.Message.Wire.{IsPlain, wire, bytes_of}
use crocofix.Message.Checksum.{SumsUp}
use crocofix.Message.BodyLength.{Untagged}
use crocofix.Message.RoundTrip.{checksum_field, decode_message}
use crocofix.SocketReader.{SocketReader, room, on_read}
use crocofix.SocketReader.Stream.{Delivered, delivered, after, next, deliver, deliver-next}
use crocofix.SocketReader.Refinement.{Reads, opened, receive, on_read-deliver}

-- The fields in front of the checksum of a message that `encode` writes and `decode` reads.
pub record IsFrame (d : FieldTable) (gs : Fields) : Type 0 where
  pub untagged : Untagged Tags.check_sum gs
  pub plain : All (IsPlain d) gs
  pub closes : IsPlain d (checksum_field gs)
  pub sums_up : SumsUp (wire gs)

-- The bytes of a message, and what `decode` makes of them.
abbrev pub frame : Fields → Bytes
frame gs = wire gs ++ bytes_of (checksum_field gs)

abbrev pub read_back : Fields → Message
read_back gs = record {
  fields = gs ++ checksum_field gs ∷ [];
  decode_checksum = buffer_checksum (wire gs);
  decode_checksum_valid = true;
}

abbrev pub frames : List Fields → Bytes
frames [] = []
frames (gs ∷ ms) = frame gs ++ frames ms

abbrev pub all_read_back : List Fields → List Message
all_read_back [] = []
all_read_back (gs ∷ ms) = read_back gs ∷ all_read_back ms

deliver-nil :
    (d : FieldTable) → deliver d (of_fields []) [] ≡ delivered [] (of_fields []) [] (ok tt)
unfolding decode sum_bytes narrowed decode_field cut
deliver-nil d = deliver-next d (of_fields []) [] ∙ refl

pub deliver-frames :
    (d : FieldTable) (ms : List Fields)
    → All (IsFrame d) ms
    → deliver d (of_fields []) (frames ms) ≡ delivered (all_read_back ms) (of_fields []) [] (ok tt)
unfolding reset
deliver-frames d [] h = deliver-nil d
deliver-frames d (gs ∷ ms) h =
    rw (append_assoc (wire gs) (bytes_of (checksum_field gs)) (frames ms)) (
      deliver-next d (of_fields []) _
      ∙ ap (next (λ p t. deliver d p t) (wire gs ++ (bytes_of (checksum_field gs) ++ frames ms)))
          (decode_message d gs (frames ms) h.0.plain h.0.untagged h.0.closes h.0.sums_up)
      ∙ ap (after (read_back gs)) (
          rw
            (
              sym (append_assoc (wire gs) (bytes_of (checksum_field gs)) (frames ms)),
              drop-append (frame gs) (frames ms),
            )
            (deliver-frames d ms h.1)))

-- What a reader has dispatched are the messages of the stream it was given.
pub Reads-messages :
    (d : FieldTable) (a : Bytes) (ms : List Message) (r : SocketReader)
    → Reads d a ms r
    → ms ≡ (deliver d (of_fields []) a).messages
Reads-messages d a ms r opened = sym (ap (λ (y : Delivered). y.messages) (deliver-nil d))
Reads-messages d a ms r (receive {a = b} {ms = ns} {r = q} s h k e) =
    sym (on_read-deliver d b ns q s h k).messages

-- The peer's messages, each the bytes that `encode` writes for plain fields, with any cut into reads: when
-- their last byte has been read, the reader has dispatched these messages and no others, in the order
-- they were sent, and the handler ended without an exception.
pub on_read-frames :
    (d : FieldTable) (sent : List Fields) (a : Bytes) (ms : List Message) (r : SocketReader)
    (s : Bytes)
    → All (IsFrame d) sent
    → Reads d a ms r
    → length s ≤ room r
    → a ++ s ≡ frames sent
    → (ms ++ (on_read d r s).dispatched ≡ all_read_back sent) × ((on_read d r s).ended ≡ ok tt)
on_read-frames d sent a ms r s h k l e =
    let f = on_read-deliver d a ms r s k l in
    let y : deliver d (of_fields []) (a ++ s)
        ≡ delivered (all_read_back sent) (of_fields []) [] (ok tt) =
      ap (deliver d (of_fields [])) e ∙ deliver-frames d sent h in
    (
      sym f.messages ∙ ap (λ (z : Delivered). z.messages) y,
      sym f.ended ∙ ap (λ (z : Delivered). z.ended) y,
    )
