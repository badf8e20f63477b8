-- ===== src/SocketReader/Refinement.antt =====
-- The reader of libcrocofix/socket_reader.cpp against the stream: its buffer and the sizes of the pieces
-- that arrive do not show in what it dispatches.
use crocofix.Base.{
  ◌-◌, ◌==◌, if◌then◌else◌, ℕ, zero, suc, ◌≤◌, ◌≡◌, refl, sym, ap, subst, ◌∙◌, Bool, true, false,
  List, [], ◌++◌, append_assoc, length, drop,
}
use crocofix.Base.Bytes.{Bytes}
use crocofix.Base.Exec.{Result, ok, err}
use crocofix.Dictionary.{FieldTable}
use crocofix.Message.{Message, of_fields, reset}
use crocofix.Message.Decode.{DecodeResult, decode}
use crocofix.SocketReader.{
  SocketReader, socket_reader, buffer_size, unread, room, make_room, transferred, advanced, Handled,
  stepped, after_decode, drain, read_again, on_read,
}
use crocofix.SocketReader.Stream.{
  Delivered, delivered, after, completed, next, deliver_within, deliver, Follows, Follows-refl,
  SameEnd, Splits, deliver-append,
}
use crocofix.SocketReader.Bounds.{
  IsValid, socket_reader-IsValid, unread-advanced, unread-transferred, unread-make_room,
  transferred-IsValid, on_read-IsValid, drain-IsValid,
}

-- A handler's end without the buffer.
abbrev pub view : Handled → Delivered
view h = delivered h.dispatched h.reader.message (unread h.reader) h.ended

unread-message : (r : SocketReader) (m : Message) → unread (record r { message = m }) ≡ unread r
unfolding unread
unread-message r m = refl

message-make_room : (r : SocketReader) → (make_room r).message ≡ r.message
unfolding make_room
message-make_room r = by_full (r.write_offset == buffer_size)
  where
    by_full :
        (c : Bool)
        → (if c
            then record r {
              read_buffer = unread r ++ drop (r.write_offset - r.read_offset) r.read_buffer;
              read_offset = 0;
              write_offset = r.write_offset - r.read_offset;
            }
            else r).message
          ≡ r.message
    by_full true = refl
    by_full false = refl

view-drain :
    (n : ℕ) (d : FieldTable) (r : SocketReader)
    → view (drain n d r) ≡ deliver_within n d r.message (unread r)
unfolding drain deliver_within
view-drain zero d r = refl
view-drain (suc n) d r = by_result (λ q. view-drain n d q) (decode d r.message (unread r))
  where
    by_complete :
        ((q : SocketReader) → view (drain n d q) ≡ deliver_within n d q.message (unread q))
        → (k : ℕ) (m : Message) (c : Bool)
        → view (stepped (λ q. drain n d q) r k m c)
          ≡ completed (λ q t. deliver_within n d q t) (unread r) k m c
    by_complete again k m true = ap (after m) (
        again (advanced r k (reset m))
        ∙ ap (deliver_within n d (reset m)) (unread-advanced r k (reset m)))
    by_complete again k m false =
        ap (λ (s : Bytes). delivered [] m s (ok tt)) (unread-advanced r k m)

    by_result :
        ((q : SocketReader) → view (drain n d q) ≡ deliver_within n d q.message (unread q))
        → (y : Result DecodeResult × Message)
        → view (after_decode (λ q. drain n d q) r y)
          ≡ next (λ q t. deliver_within n d q t) (unread r) y
    by_result again (err e, m) = ap (λ (s : Bytes). delivered [] m s (err e)) (unread-message r m)
    by_result again (ok x, m) = by_complete again x.consumed m x.complete

view-on_read :
    (d : FieldTable) (r : SocketReader) (s : Bytes)
    → IsValid r
    → length s ≤ room r
    → view (on_read d r s) ≡ deliver d r.message (unread r ++ s)
unfolding on_read
view-on_read d r s h k =
    let q = transferred r s in
    let n = suc (length (unread q)) in
    by_end (drain n d q) (drain-IsValid n d q (transferred-IsValid r s h k)) (drain n d q).ended
    ∙ view-drain n d q
    ∙ ap (λ (t : Bytes). deliver d q.message t) (unread-transferred r s h k)
  where
    by_end :
        (y : Handled) → IsValid y.reader → (x : Result (Unit {0})) → view (read_again y x) ≡ view y
    by_end y v (ok u) = rw (unread-make_room y.reader v, message-make_room y.reader) refl
    by_end y v (err e) = refl

-- The readers that a connection comes to without an exception, with the bytes it was sent and the
-- messages it dispatched.
pub data Reads (d : FieldTable) : Bytes → List Message → SocketReader → Type 0 where
  opened : Reads d [] [] socket_reader
  receive :
      {a : Bytes} {ms : List Message} {r : SocketReader} (s : Bytes)
      → Reads d a ms r
      → length s ≤ room r
      → (on_read d r s).ended ≡ ok tt
      → Reads d (a ++ s) (ms ++ (on_read d r s).dispatched) (on_read d r s).reader

pub Reads-IsValid :
    (d : FieldTable) (a : Bytes) (ms : List Message) (r : SocketReader) → Reads d a ms r → IsValid r
Reads-IsValid d a ms r opened = socket_reader-IsValid
Reads-IsValid d a ms r (receive s h k e) = on_read-IsValid d _ s (Reads-IsValid d _ _ _ h) k

-- However the stream goes on, it is what was dispatched and what the bytes at hand and the message begun
-- make of it.
unfoldable Agrees : FieldTable → Bytes → List Message → SocketReader → Type 0
Agrees d a ms r =
    (b : Bytes)
    → Follows (deliver d (of_fields []) (a ++ b)) ms (deliver d r.message (unread r ++ b))

Follows-trans :
    (x y z : Delivered) (ms ns : List Message)
    → Follows x ms y
    → Follows y ns z
    → Follows x (ms ++ ns) z
Follows-trans x y z ms ns h k = record {
  messages = h.messages ∙ ap (◌++◌ ms) k.messages ∙ sym (append_assoc ms ns z.messages);
  ended = h.ended ∙ k.ended;
  same_end = by_end y.ended z.ended k.ended h.same_end k.same_end;
}
  where
    by_end : (c e : Result (Unit {0})) → c ≡ e → SameEnd c x y → SameEnd e y z → SameEnd e x z
    by_end (ok u) (ok v) q f g = (
      f.0 ∙ g.0,
      record {
        fields = f.1.fields ∙ g.1.fields;
        valid = f.1.valid ∙ g.1.valid;
        sum = f.1.sum ∙ g.1.sum;
      },
    )
    by_end (err w) (err v) q f g = f ∙ g
    by_end (ok u) (err v) q f g = absurd (cc q)
    by_end (err w) (ok v) q f g = absurd (cc q)

received :
    (d : FieldTable) (r : SocketReader) (s b : Bytes)
    → IsValid r
    → length s ≤ room r
    → (on_read d r s).ended ≡ ok tt
    → Follows
        (deliver d r.message (unread r ++ (s ++ b)))
        (on_read d r s).dispatched
        (deliver d (on_read d r s).reader.message (unread (on_read d r s).reader ++ b))
received d r s b h k e = rw (sym (append_assoc (unread r) s b)) (
    subst
      (λ (c : Result (Unit {0})).
        Splits d b (deliver d r.message ((unread r ++ s) ++ b)) (view (on_read d r s)) c)
      e
      (subst (λ (y : Delivered). Splits d b (deliver d r.message ((unread r ++ s) ++ b)) y y.ended)
        (sym (view-on_read d r s h k)) (deliver-append d r.message (unread r ++ s) b)))

at_start : unread socket_reader ≡ []
unfolding unread
at_start = refl

Reads-Agrees :
    (d : FieldTable) (a : Bytes) (ms : List Message) (r : SocketReader)
    → Reads d a ms r
    → Agrees d a ms r
unfolding Agrees
Reads-Agrees d a ms r opened b = rw at_start (Follows-refl _ _ refl)
Reads-Agrees d a ms r (receive {a = c} {ms = ns} {r = q} s h k e) b = rw (append_assoc c s b) (
    Follows-trans _ _ _ ns (on_read d q s).dispatched (Reads-Agrees d c ns q h (s ++ b))
      (received d q s b (Reads-IsValid d c ns q h) k e))

-- What the reader has dispatched are the first messages of the stream, however it goes on.
pub Reads-stream :
    (d : FieldTable) (a : Bytes) (ms : List Message) (r : SocketReader) (b : Bytes)
    → Reads d a ms r
    → Follows (deliver d (of_fields []) (a ++ b)) ms (deliver d r.message (unread r ++ b))
unfolding Agrees
Reads-stream d a ms r b h = Reads-Agrees d a ms r h b

-- A reader that was sent the bytes `a` and then reads `s`: what it dispatched before and dispatches now
-- are the messages of the stream `a ++ s`, in order, however the bytes were split into reads and
-- moved in the buffer. The handler ends as the stream does, with the same exception or without one,
-- and without one the bytes it holds are the end of the stream and the message begun has the fields
-- decoded from the stream, its checksum so far the same modulo 256. Which exception a length field with a
-- negative value raises is left open (`undetermined`) where the byte that decides it stands in front of the
-- data field's tag.
pub on_read-deliver :
    (d : FieldTable) (a : Bytes) (ms : List Message) (r : SocketReader) (s : Bytes)
    → Reads d a ms r
    → length s ≤ room r
    → Follows (deliver d (of_fields []) (a ++ s)) ms (view (on_read d r s))
unfolding Agrees
on_read-deliver d a ms r s h k =
    subst (λ (y : Delivered). Follows (deliver d (of_fields []) (a ++ s)) ms y)
      (sym (view-on_read d r s (Reads-IsValid d a ms r h) k)) (Reads-Agrees d a ms r h s)
