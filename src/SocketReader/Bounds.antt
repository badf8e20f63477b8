-- ===== src/SocketReader/Bounds.antt =====
-- The offsets of the read buffer of libcrocofix/socket_reader.cpp, and the unread bytes between them.
use crocofix.Base.{
  ℕ, zero, suc, ◌+◌, ◌-◌, ◌≤◌, ◌≡◌, refl, sym, ap, ◌∙◌, Bool, true, false, ◌++◌, append_assoc,
  arith, length, length-append, length-drop, length-take, length-replicate, take, drop, drop-drop,
  drop-take, take_exactly, drop_within, ◌==◌, if◌then◌else◌,
}
use crocofix.Base.Bytes.{Bytes}
use crocofix.Base.Exec.{Result, ok, err}
use crocofix.Dictionary.{FieldTable}
use crocofix.Message.{Message, reset}
use crocofix.Message.Decode.{DecodeResult, decode}
use crocofix.Message.Stopped.{Consumes, decode-Consumes}
use crocofix.SocketReader.{
  SocketReader, socket_reader, buffer_size, unread, room, make_room, transferred, advanced, Handled,
  stepped, after_decode, drain, read_again, on_read,
}

-- The read offset is behind the write offset, and both are in the buffer.
pub record IsValid (r : SocketReader) : Type 0 where
  pub size : length r.read_buffer ≡ buffer_size
  pub ordered : r.read_offset ≤ r.write_offset
  pub inside : r.write_offset ≤ buffer_size

pub socket_reader-IsValid : IsValid socket_reader
socket_reader-IsValid = record {
  size = length-replicate buffer_size 0;
  ordered = omega arith;
  inside = omega arith;
}

pub length-unread :
    (r : SocketReader) → IsValid r → length (unread r) ≡ r.write_offset - r.read_offset
unfolding unread
length-unread r h =
    length-take (r.write_offset - r.read_offset) (drop r.read_offset r.read_buffer)
      (omega (arith, h.size, h.ordered, h.inside, length-drop r.read_offset r.read_buffer))

pub unread-advanced :
    (r : SocketReader) (n : ℕ) (m : Message) → unread (advanced r n m) ≡ drop n (unread r)
unfolding unread
unread-advanced r n m =
    rw
      (
        drop-take n (r.write_offset - r.read_offset) (drop r.read_offset r.read_buffer),
        drop-drop n r.read_offset r.read_buffer,
      )
      (ap (λ (k : ℕ). take k (drop (r.read_offset + n) r.read_buffer))
        (later r.write_offset r.read_offset n))
  where
    later : (w o n : ℕ) → w - (o + n) ≡ w - o - n
    later w o n = omega arith

advanced-IsValid :
    (r : SocketReader) (n : ℕ) (m : Message)
    → IsValid r
    → n ≤ length (unread r)
    → IsValid (advanced r n m)
advanced-IsValid r n m h k = record {
  size = h.size;
  ordered = omega (arith, k, h.ordered, length-unread r h);
  inside = h.inside;
}

pub unread-transferred :
    (r : SocketReader) (s : Bytes)
    → IsValid r
    → length s ≤ room r
    → unread (transferred r s) ≡ unread r ++ s
unfolding unread transferred room
unread-transferred r s h k =
    rw
      (
        drop_within r.read_offset front (s ++ behind) (omega (arith, h.ordered, length_front)),
        sym (append_assoc (drop r.read_offset front) s behind),
      )
      (take_exactly (r.write_offset + length s - r.read_offset) (drop r.read_offset front ++ s)
          behind whole
        ∙ ap (λ (x : Bytes). x ++ s) (drop-take r.read_offset r.write_offset r.read_buffer))
  where
    front : Bytes
    front = take r.write_offset r.read_buffer

    behind : Bytes
    behind = drop (r.write_offset + length s) r.read_buffer

    length_front : length front ≡ r.write_offset
    length_front = length-take r.write_offset r.read_buffer (omega (arith, h.size, h.inside))

    whole : length (drop r.read_offset front ++ s) ≡ r.write_offset + length s - r.read_offset
    whole = omega (
      arith,
      h.ordered,
      length_front,
      length-append (drop r.read_offset front) s,
      length-drop r.read_offset front,
    )

pub transferred-IsValid :
    (r : SocketReader) (s : Bytes) → IsValid r → length s ≤ room r → IsValid (transferred r s)
unfolding transferred room
transferred-IsValid r s h k = record {
  size = size;
  ordered = omega (arith, h.ordered);
  inside = omega (arith, h.size, h.inside, k);
}
  where
    size : length (transferred r s).read_buffer ≡ buffer_size
    size = omega (
      arith,
      h.size,
      h.inside,
      k,
      length-append (take r.write_offset r.read_buffer)
          (s ++ drop (r.write_offset + length s) r.read_buffer),
      length-take r.write_offset r.read_buffer (omega (arith, h.size, h.inside)),
      length-append s (drop (r.write_offset + length s) r.read_buffer),
      length-drop (r.write_offset + length s) r.read_buffer,
    )

pub unread-make_room : (r : SocketReader) → IsValid r → unread (make_room r) ≡ unread r
unfolding make_room unread
unread-make_room r h = by_full (r.write_offset == buffer_size)
  where
    by_full :
        (c : Bool)
        → unread (
            if c
            then record r {
              read_buffer = unread r ++ drop (r.write_offset - r.read_offset) r.read_buffer;
              read_offset = 0;
              write_offset = r.write_offset - r.read_offset;
            }
            else r)
          ≡ unread r
    by_full true =
        take_exactly (r.write_offset - r.read_offset - 0) (unread r) _
          (omega (arith, length-unread r h))
    by_full false = refl

pub make_room-IsValid : (r : SocketReader) → IsValid r → IsValid (make_room r)
unfolding make_room
make_room-IsValid r h = by_full (r.write_offset == buffer_size)
  where
    by_full :
        (c : Bool)
        → IsValid (
            if c
            then record r {
              read_buffer = unread r ++ drop (r.write_offset - r.read_offset) r.read_buffer;
              read_offset = 0;
              write_offset = r.write_offset - r.read_offset;
            }
            else r)
    by_full true = record {
      size = omega (
        arith,
        h.size,
        h.ordered,
        h.inside,
        length-append (unread r) (drop (r.write_offset - r.read_offset) r.read_buffer),
        length-unread r h,
        length-drop (r.write_offset - r.read_offset) r.read_buffer,
      );
      ordered = omega arith;
      inside = omega (arith, h.inside);
    }
    by_full false = h

pub drain-IsValid :
    (n : ℕ) (d : FieldTable) (r : SocketReader) → IsValid r → IsValid (drain n d r).reader
unfolding drain
drain-IsValid zero d r h = h
drain-IsValid (suc n) d r h =
    by_result (λ q k. drain-IsValid n d q k) (decode d r.message (unread r))
      (decode-Consumes d r.message (unread r))
  where
    by_complete :
        ((q : SocketReader) → IsValid q → IsValid (drain n d q).reader)
        → (x : DecodeResult) (m : Message) → x.consumed ≤ length (unread r)
        → (c : Bool) → IsValid (stepped (λ q. drain n d q) r x.consumed m c).reader
    by_complete again x m k true = again _ (advanced-IsValid r x.consumed (reset m) h k)
    by_complete again x m k false = advanced-IsValid r x.consumed m h k

    by_result :
        ((q : SocketReader) → IsValid q → IsValid (drain n d q).reader)
        → (y : Result DecodeResult × Message) → Consumes (unread r) y
        → IsValid (after_decode (λ q. drain n d q) r y).reader
    by_result again (err e, m) c = record { size = h.size; ordered = h.ordered; inside = h.inside }
    by_result again (ok x, m) c = by_complete again x m c.1 x.complete

-- The handler keeps the size of the buffer, the read offset at or before the write offset, and both in
-- the buffer, whatever arrived in the bytes it had asked for, and however the handler ended.
pub on_read-IsValid :
    (d : FieldTable) (r : SocketReader) (s : Bytes)
    → IsValid r
    → length s ≤ room r
    → IsValid (on_read d r s).reader
unfolding on_read
on_read-IsValid d r s h k =
    let q = transferred r s in
    let v = drain-IsValid (suc (length (unread q))) d q (transferred-IsValid r s h k) in
    by_end (drain (suc (length (unread q))) d q) v (drain (suc (length (unread q))) d q).ended
  where
    by_end :
        (y : Handled) → IsValid y.reader → (x : Result (Unit {0})) → IsValid (read_again y x).reader
    by_end y v (ok u) = make_room-IsValid y.reader v
    by_end y v (err e) = v
