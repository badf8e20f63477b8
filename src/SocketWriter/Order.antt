-- ===== src/SocketWriter/Order.antt =====
-- The order of the bytes that libcrocofix/socket_writer.cpp sends, and its buffers' bounds.
use crocofix.Base.{
  ℕ, ◌-◌, ◌≤◌, ◌<◌, ◌≡◌, refl, sym, ap, subst, ◌∙◌, Bool, true, false, List, [], ◌∷◌, ◌++◌,
  append_assoc, append-nil, arith, length, length-append, ltb, leb, ◌==◌, if◌then◌else◌,
}
use crocofix.Base.Bytes.{Bytes, text}
use crocofix.Base.Exec.{Error, Result, ok, err, out_of_range, runtime_error}
use crocofix.Message.{Message}
use crocofix.Message.Encode.{encode}
use crocofix.Message.Capacity.{Fits, encode-Fits}
use crocofix.SocketWriter.{
  SocketWriter, socket_writer, buffer_size, start_write, flush_pending_writes, Written, written,
  append_pending, write_encoded, write, complete_oldest, complete,
}

-- The bytes that were handed to the writer, in the order in which it sends them.
abbrev pub accepted : SocketWriter → Bytes
accepted w = w.sent ++ (w.active_buffer ++ w.pending_buffer)

-- Without a write under way both buffers are empty; else the write is that of the active buffer.
abbrev pub InFlight : SocketWriter → List Bytes → Type 0
InFlight w [] = (w.active_buffer ≡ []) × (w.pending_buffer ≡ [])
InFlight w (b ∷ []) = (b ≡ w.active_buffer) × (0 < length w.active_buffer)
InFlight w (b ∷ c ∷ ws) = ⊥

pub record IsValid (w : SocketWriter) : Type 0 where
  pub in_flight : InFlight w w.writing
  pub pending_fits : length w.pending_buffer ≤ buffer_size
  pub active_fits : length w.active_buffer ≤ buffer_size

abbrev of_parts : Bytes → Bytes → List Bytes → Bytes → SocketWriter
of_parts p a ws s = record { pending_buffer = p; active_buffer = a; writing = ws; sent = s }

pub longer : (x : ℕ) (a : Bytes) → ltb 0 (length (x ∷ a)) ≡ true
longer x a = ground arith

-- With bytes pending, a flush leaves a write under way and the order as it was.
record Flushed (w v : SocketWriter) : Type 0 where
  valid : IsValid v
  same : accepted v ≡ accepted w

flush-Flushed :
    (w : SocketWriter) (p : Bytes)
    → IsValid w
    → 0 < length p
    → length (w.pending_buffer ++ p) ≤ buffer_size
    → Flushed (append_pending w p) (flush_pending_writes (append_pending w p))
unfolding flush_pending_writes
flush-Flushed w p h k l =
    by_parts w.pending_buffer w.active_buffer w.writing w.sent h.in_flight h.active_fits l
  where
    by_parts :
        (q a : Bytes) (ws : List Bytes) (s : Bytes)
        → InFlight (of_parts q a ws s) ws
        → length a ≤ buffer_size
        → length (q ++ p) ≤ buffer_size
        → Flushed (append_pending (of_parts q a ws s) p) (
            if ltb 0 (length a)
            then append_pending (of_parts q a ws s) p
            else start_write (append_pending (of_parts q a ws s) p))
    by_parts q [] [] s f c e = record {
      valid = record {
        in_flight = (refl, omega (arith, k, length-append q p));
        pending_fits = omega arith;
        active_fits = e;
      };
      same = ap (λ (x : Bytes). s ++ x) (append-nil (q ++ p));
    }
    by_parts q (x ∷ a) [] s f c e = absurd (cc (f.0))
    by_parts q [] (b ∷ []) s f c e = absurd (omega (arith, f.1))
    by_parts q (x ∷ a) (b ∷ []) s f c e = rw (longer x a) (record {
      valid = record { in_flight = f; pending_fits = e; active_fits = c };
      same = refl;
    })
    by_parts q a (b ∷ c ∷ ws) s f g e = elim f [ ]

-- Appending what was encoded.
appended : (w : SocketWriter) (b : Bytes) → accepted (append_pending w b) ≡ accepted w ++ b
appended w b =
    ap (λ (x : Bytes). w.sent ++ x) (sym (append_assoc w.active_buffer w.pending_buffer b))
    ∙ sym (append_assoc w.sent (w.active_buffer ++ w.pending_buffer) b)

-- How a call of `write` ends: `e` is what `encode` wrote.
abbrev pub WriteEnd : SocketWriter → Result Bytes → Written → Result (Unit {0}) → Type 0
WriteEnd w (ok b) x (ok u) =
    IsValid x.writer × (accepted x.writer ≡ accepted w ++ b) × (0 < length b)
WriteEnd w (err e) x (ok u) = ⊥
WriteEnd w r x (err e) = x.writer ≡ w

pub write-WriteEnd :
    (w : SocketWriter) (m : Message) (options : ℕ)
    → IsValid w
    → WriteEnd w
        (encode m (buffer_size - length w.pending_buffer) options).0
        (write w m options)
        (write w m options).ended
unfolding write
write-WriteEnd w m options h = by_room (leb buffer_size (length w.pending_buffer))
  where
    room : ℕ
    room = buffer_size - length w.pending_buffer

    by_size :
        (b : Bytes) (q : Message) (c : Bool)
        → (length b == 0) ≡ c
        → length b ≤ room
        → WriteEnd w
            (ok b)
            (if c
              then written (err (runtime_error (text "failed to encode message"))) w q
              else written (ok tt) (flush_pending_writes (append_pending w b)) q)
            (if c
              then written (err (runtime_error (text "failed to encode message"))) w q
              else written (ok tt) (flush_pending_writes (append_pending w b)) q).ended
    by_size b q true e k = refl
    by_size b q false e k =
        let l : length (w.pending_buffer ++ b) ≤ buffer_size =
          omega (arith, k, h.pending_fits, length-append w.pending_buffer b) in
        let n : 0 < length b = ground (arith, e) in
        let f = flush-Flushed w b h n l in (f.valid, f.same ∙ appended w b, n)

    by_encoded :
        (r : Result Bytes) (q : Message)
        → Fits room r
        → WriteEnd w r (write_encoded w (r, q)) (write_encoded w (r, q)).ended
    by_encoded (err e) q k = refl
    by_encoded (ok b) q k = by_size b q (length b == 0) refl k

    refused :
        (r : Result Bytes)
        → WriteEnd w r
            (written (err (out_of_range (text "array::at"))) w m)
            (err (out_of_range (text "array::at")))
    refused (ok b) = refl
    refused (err e) = refl

    by_room :
        (c : Bool)
        → WriteEnd w
            (encode m room options).0
            (if c
              then written (err (out_of_range (text "array::at"))) w m
              else write_encoded w (encode m room options))
            (if c
              then written (err (out_of_range (text "array::at"))) w m
              else write_encoded w (encode m room options)).ended
    by_room true = refused (encode m room options).0
    by_room false =
        by_encoded (encode m room options).0 (encode m room options).1 (encode-Fits m room options)

-- A handler of `async_write` leaves nothing pending, and nothing under way if nothing was pending.
abbrev pub Rested : Bytes → SocketWriter → Type 0
Rested [] v = v.writing ≡ []
Rested (b ∷ p) v = Unit

pub record Completed (w v : SocketWriter) : Type 0 where
  pub valid : IsValid v
  pub same : accepted v ≡ accepted w
  pub nothing_pending : v.pending_buffer ≡ []
  pub rested : Rested w.pending_buffer v

pub complete-Completed : (w : SocketWriter) → IsValid w → Completed w (complete w)
unfolding complete flush_pending_writes
complete-Completed w h =
    by_parts w.pending_buffer w.active_buffer w.writing w.sent h.in_flight h.pending_fits
      h.active_fits
  where
    sent_before : (s b a q : Bytes) → b ≡ a → (s ++ b) ++ (q ++ []) ≡ s ++ (a ++ q)
    sent_before s b a q e = rw (e, append-nil q) (append_assoc s a q)

    by_parts :
        (q a : Bytes) (ws : List Bytes) (s : Bytes)
        → InFlight (of_parts q a ws s) ws
        → length q ≤ buffer_size
        → length a ≤ buffer_size
        → Completed (of_parts q a ws s) (complete_oldest (of_parts q a ws s) ws)
    by_parts [] a [] s f k c = record {
      valid = record { in_flight = f; pending_fits = k; active_fits = c };
      same = refl;
      nothing_pending = refl;
      rested = refl;
    }
    by_parts (y ∷ q) a [] s f k c = absurd (cc (f.1))
    by_parts [] a (b ∷ []) s f k c = record {
      valid = record { in_flight = (refl, refl); pending_fits = k; active_fits = k };
      same = sent_before s b a [] f.0;
      nothing_pending = refl;
      rested = refl;
    }
    by_parts (y ∷ q) a (b ∷ []) s f k c = rw (longer y q) (record {
      valid = record {
        in_flight = (refl, omega arith);
        pending_fits = omega arith;
        active_fits = k;
      };
      same = sent_before s b a (y ∷ q) f.0;
      nothing_pending = refl;
      rested = tt;
    })
    by_parts q a (b ∷ c ∷ ws) s f k g = elim f [ ]

-- The writers that a program comes to: calls of `write`, refused or not, and completed writes, in any
-- order, with the bytes that `encode` wrote for the messages accepted, in the order of the calls. The
-- handlers that run while a call waits, other calls of `write` among them, are such steps too.
pub data Run : Bytes → SocketWriter → Type 0 where
  constructed : Run [] socket_writer
  wrote :
      {s : Bytes} {w : SocketWriter} (m : Message) (options : ℕ) (b : Bytes)
      → Run s w
      → (encode m (buffer_size - length w.pending_buffer) options).0 ≡ ok b
      → (write w m options).ended ≡ ok tt
      → Run (s ++ b) (write w m options).writer
  refused :
      {s : Bytes} {w : SocketWriter} (m : Message) (options : ℕ) (e : Error)
      → Run s w
      → (write w m options).ended ≡ err e
      → Run s (write w m options).writer
  completed : {s : Bytes} {w : SocketWriter} → Run s w → Run s (complete w)

abbrev Reached : Bytes → SocketWriter → Type 0
Reached s w = IsValid w × (accepted w ≡ s)

-- In every order of calls and completed writes, the bytes sent, those in the active buffer and those in the
-- pending buffer are together the bytes of the messages accepted, in the order of the calls. At most
-- one write is under way, that of the active buffer; bytes are pending only behind it; both buffers
-- keep their size.
pub Run-accepted : (s : Bytes) (w : SocketWriter) → Run s w → IsValid w × (accepted w ≡ s)
Run-accepted s w constructed = (
  record { in_flight = (refl, refl); pending_fits = omega arith; active_fits = omega arith },
  refl,
)
Run-accepted s w (wrote {s = t} {w = v} m options b h e x) =
    let i : Reached t v = Run-accepted t v h in
    by_end
      (subst (λ (c : Result (Unit {0})). WriteEnd v (ok b) (write v m options) c) x
        (subst (λ (r : Result Bytes). WriteEnd v r (write v m options) (write v m options).ended) e
          (write-WriteEnd v m options i.0)))
      i
  where
    by_end :
        WriteEnd v (ok b) (write v m options) (ok tt)
        → Reached t v
        → Reached (t ++ b) (write v m options).writer
    by_end y i = (y.0, y.1 ∙ ap (λ (z : Bytes). z ++ b) i.1)
Run-accepted s w (refused {w = v} m options e h x) =
    let i : Reached s v = Run-accepted s v h in
    by_end (encode m (buffer_size - length v.pending_buffer) options).0
      (subst
        (λ (c : Result (Unit {0})).
          WriteEnd v (encode m (buffer_size - length v.pending_buffer) options).0
            (write v m options) c)
        x (write-WriteEnd v m options i.0))
      i
  where
    by_end :
        (r : Result Bytes)
        → WriteEnd v r (write v m options) (err e)
        → Reached s v
        → Reached s (write v m options).writer
    by_end (ok b) y i = subst (Reached s) (sym y) i
    by_end (err f) y i = subst (Reached s) (sym y) i
Run-accepted s w (completed {w = v} h) =
    let i : Reached s v = Run-accepted s v h in
    let c = complete-Completed v i.0 in (c.valid, c.same ∙ i.1)
