-- ===== src/Connection.antt =====
-- One direction of a connection: the libcrocofix/socket_writer.cpp of one side, the bytes on their way,
-- and the libcrocofix/socket_reader.cpp of the other side, whose steps interleave in any order.
mod Examples
use crocofix.Base.{
  ◌-◌, ◌≤◌, ◌≡◌, ◌≢◌, refl, sym, ap, subst, ◌∙◌, List, [], ◌∷◌, ◌++◌, append_assoc, append-nil,
  length, All,
}
use crocofix.Base.Bytes.{Bytes}
use crocofix.Base.Exec.{Error, Result, ok, err}
use crocofix.Field.{Fields}
use crocofix.Dictionary.{FieldTable}
use crocofix.Message.{Message, of_fields, standard}
use crocofix.Message.Encode.{encode}
use crocofix.SocketReader.{SocketReader, socket_reader, room, unread, on_read}
use crocofix.SocketReader.Stream.{Delivered, delivered, deliver, Splits, deliver-append}
use crocofix.SocketReader.Refinement.{Reads, opened, receive, Reads-stream, on_read-deliver}
use crocofix.SocketReader.Frames.{
  IsFrame, frame, frames, all_read_back, deliver-frames, Reads-messages,
}
use crocofix.SocketWriter.{SocketWriter, socket_writer, buffer_size, write, complete}
use crocofix.SocketWriter.Order.{
  Run, constructed, wrote, refused, completed, Run-accepted, accepted,
}

-- The messages that the writer accepted, the messages that the reader dispatched, the bytes that the
-- reader was given, and the two ends. A read takes any of the bytes that have been sent; that its handler
-- ends without an exception is `read_in_transit`, where the messages are frames of plain fields.
pub data Connection (d : FieldTable)
    : List Fields → List Message → Bytes → SocketWriter → SocketReader → Type 0 where
  connected : Connection d [] [] [] socket_writer socket_reader
  writes :
      {sent : List Fields} {ms : List Message} {a : Bytes} {w : SocketWriter} {r : SocketReader}
      (m : Message) (gs : Fields)
      → Connection d sent ms a w r
      → (encode m (buffer_size - length w.pending_buffer) standard).0 ≡ ok (frame gs)
      → (write w m standard).ended ≡ ok tt
      → Connection d (sent ++ gs ∷ []) ms a (write w m standard).writer r
  refuses :
      {sent : List Fields} {ms : List Message} {a : Bytes} {w : SocketWriter} {r : SocketReader}
      (m : Message) (e : Error)
      → Connection d sent ms a w r
      → (write w m standard).ended ≡ err e
      → Connection d sent ms a (write w m standard).writer r
  completes :
      {sent : List Fields} {ms : List Message} {a : Bytes} {w : SocketWriter} {r : SocketReader}
      → Connection d sent ms a w r
      → Connection d sent ms a (complete w) r
  reads :
      {sent : List Fields} {ms : List Message} {a : Bytes} {w : SocketWriter} {r : SocketReader}
      (s rest : Bytes)
      → Connection d sent ms a w r
      → w.sent ≡ a ++ (s ++ rest)
      → length s ≤ room r
      → (on_read d r s).ended ≡ ok tt
      → Connection d sent (ms ++ (on_read d r s).dispatched) (a ++ s) w (on_read d r s).reader

frames-append : (ms : List Fields) (gs : Fields) → frames (ms ++ gs ∷ []) ≡ frames ms ++ frame gs
frames-append [] gs = append-nil (frame gs)
frames-append (hs ∷ ms) gs =
    ap (λ (x : Bytes). frame hs ++ x) (frames-append ms gs)
    ∙ sym (append_assoc (frame hs) (frames ms) (frame gs))

module _ (d : FieldTable) where
  Connection-Run :
      (sent : List Fields) (ms : List Message) (a : Bytes) (w : SocketWriter) (r : SocketReader)
      → Connection d sent ms a w r
      → Run (frames sent) w
  Connection-Run sent ms a w r connected = constructed
  Connection-Run sent ms a w r (writes {sent = before} {w = v} m gs c e x) =
      subst (λ (b : Bytes). Run b (write v m standard).writer) (sym (frames-append before gs))
        (wrote m standard (frame gs) (Connection-Run _ _ _ _ _ c) e x)
  Connection-Run sent ms a w r (refuses m e c x) =
      refused m standard e (Connection-Run _ _ _ _ _ c) x
  Connection-Run sent ms a w r (completes c) = completed (Connection-Run _ _ _ _ _ c)
  Connection-Run sent ms a w r (reads s rest c e k x) = Connection-Run _ _ _ _ _ c

  Connection-Reads :
      (sent : List Fields) (ms : List Message) (a : Bytes) (w : SocketWriter) (r : SocketReader)
      → Connection d sent ms a w r
      → Reads d a ms r
  Connection-Reads sent ms a w r connected = opened
  Connection-Reads sent ms a w r (writes m gs c e x) = Connection-Reads _ _ _ _ _ c
  Connection-Reads sent ms a w r (refuses m e c x) = Connection-Reads _ _ _ _ _ c
  Connection-Reads sent ms a w r (completes c) = Connection-Reads _ _ _ _ _ c
  Connection-Reads sent ms a w r (reads s rest c e k x) =
      receive s (Connection-Reads _ _ _ _ _ c) k x

  -- The bytes that the writer was given and the reader was not.
  record Begins (a s : Bytes) : Type 0 where
    behind : Bytes
    split : s ≡ a ++ behind

  in_transit :
      (sent : List Fields) (w : SocketWriter) (a s rest : Bytes)
      → Run (frames sent) w
      → w.sent ≡ a ++ (s ++ rest)
      → Begins (a ++ s) (frames sent)
  in_transit sent w a s rest h e = record {
    behind = rest ++ (w.active_buffer ++ w.pending_buffer);
    split =
        sym (Run-accepted (frames sent) w h).1
        ∙ ap (λ (x : Bytes). x ++ (w.active_buffer ++ w.pending_buffer))
            (e ∙ sym (append_assoc a s rest))
        ∙ append_assoc (a ++ s) rest (w.active_buffer ++ w.pending_buffer);
  }

  Connection-Begins :
      (sent : List Fields) (ms : List Message) (a : Bytes) (w : SocketWriter) (r : SocketReader)
      → Connection d sent ms a w r
      → Begins a (frames sent)
  Connection-Begins sent ms a w r connected = record { behind = []; split = refl }
  Connection-Begins sent ms a w r (writes {sent = before} m gs c e x) =
      let b = Connection-Begins before ms a _ r c in
      record {
        behind = b.behind ++ frame gs;
        split =
            frames-append before gs
            ∙ ap (λ (y : Bytes). y ++ frame gs) b.split
            ∙ append_assoc a b.behind (frame gs);
      }
  Connection-Begins sent ms a w r (refuses m e c x) = Connection-Begins _ _ _ _ _ c
  Connection-Begins sent ms a w r (completes c) = Connection-Begins _ _ _ _ _ c
  Connection-Begins sent ms a w r (reads {a = b} s rest c e k x) =
      in_transit sent w b s rest (Connection-Run _ _ _ _ _ c) e

  not_failed :
      (e : Error) (t : Bytes) (whole y : Delivered) (sent : List Fields)
      → Splits d t whole y (err e)
      → whole ≡ delivered (all_read_back sent) (of_fields []) [] (ok tt)
      → y.ended ≢ err e
  not_failed e t whole y sent h f g =
      let q : ok (tt {0}) ≡ err e =
        sym (ap (λ (z : Delivered). z.ended) f) ∙ ap (λ (z : Delivered). z.ended) h ∙ g in
      absurd (cc q)

  whole_stream :
      (sent : List Fields) (a t : Bytes)
      → All (IsFrame d) sent
      → frames sent ≡ a ++ t
      → deliver d (of_fields []) (a ++ t) ≡ delivered (all_read_back sent) (of_fields []) [] (ok tt)
  whole_stream sent a t h e = ap (deliver d (of_fields [])) (sym e) ∙ deliver-frames d sent h

  stream_ended :
      (sent : List Fields) (a t : Bytes)
      → All (IsFrame d) sent
      → frames sent ≡ a ++ t
      → (deliver d (of_fields []) a).ended ≡ ok tt
  stream_ended sent a t h e =
      by_end (deliver d (of_fields []) a).ended refl (deliver-append d (of_fields []) a t)
    where
      by_end :
          (x : Result (Unit {0}))
          → (deliver d (of_fields []) a).ended ≡ x
          → Splits d t (deliver d (of_fields []) (a ++ t)) (deliver d (of_fields []) a) x
          → (deliver d (of_fields []) a).ended ≡ ok tt
      by_end (ok u) f k = f
      by_end (err w) f k =
          absurd
            (not_failed w t _ (deliver d (of_fields []) a) sent k (whole_stream sent a t h e) f)

-- At every moment the messages that the reader has dispatched are the first of those that the writer
-- accepted, in the order of the calls: each was encoded to a frame of plain fields, which may have been
-- sent and read in any pieces.
pub dispatched_in_order :
    (d : FieldTable) (sent : List Fields) (ms : List Message) (a : Bytes) (w : SocketWriter)
    (r : SocketReader)
    → All (IsFrame d) sent
    → Connection d sent ms a w r
    → (later : List Message) × (ms ++ later ≡ all_read_back sent)
dispatched_in_order d sent ms a w r h c =
    let b = Connection-Begins d sent ms a w r c in
    let f = Reads-stream d a ms r b.behind (Connection-Reads d sent ms a w r c) in
    (
      (deliver d r.message (unread r ++ b.behind)).messages,
      sym f.messages
          ∙ ap (λ (y : Delivered). y.messages) (whole_stream d sent a b.behind h b.split),
    )

-- Once nothing is left in the writer's buffers and all bytes it sent have been read, the reader has
-- dispatched all messages accepted, in order, and no others.
pub all_dispatched :
    (d : FieldTable) (sent : List Fields) (ms : List Message) (w : SocketWriter) (r : SocketReader)
    → All (IsFrame d) sent
    → Connection d sent ms w.sent w r
    → w.active_buffer ≡ []
    → w.pending_buffer ≡ []
    → ms ≡ all_read_back sent
all_dispatched d sent ms w r h c x y =
    Reads-messages d w.sent ms r (Connection-Reads d sent ms w.sent w r c)
    ∙ ap (λ (b : Bytes). (deliver d (of_fields []) b).messages)
        (sym (append-nil w.sent)
          ∙ ap (λ (b : Bytes). w.sent ++ b) (sym (ap (λ (b : Bytes). b ++ w.pending_buffer) x ∙ y))
          ∙ (Run-accepted (frames sent) w (Connection-Run d sent ms w.sent w r c)).1)
    ∙ ap (λ (z : Delivered). z.messages) (deliver-frames d sent h)

-- Reading bytes that were sent never throws.
pub read_in_transit :
    (d : FieldTable) (sent : List Fields) (ms : List Message) (a s rest : Bytes) (w : SocketWriter)
    (r : SocketReader)
    → All (IsFrame d) sent
    → Connection d sent ms a w r
    → w.sent ≡ a ++ (s ++ rest)
    → length s ≤ room r
    → (on_read d r s).ended ≡ ok tt
read_in_transit d sent ms a s rest w r h c e k =
    let b = in_transit d sent w a s rest (Connection-Run d sent ms a w r c) e in
    sym (on_read-deliver d a ms r s (Connection-Reads d sent ms a w r c) k).ended
    ∙ stream_ended d sent (a ++ s) b.behind h b.split
