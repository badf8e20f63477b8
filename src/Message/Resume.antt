-- ===== src/Message/Resume.antt =====
-- Decoding is restartable: a message that arrives in pieces is decoded as if it had come at once.
use crocofix.Base.{
  take_front, drop-append, front_length, ℕ, suc, ◌+◌, ◌-◌, ◌%◌, ◌≡◌, refl, sym, subst, ap, ◌∙◌,
  Bool, true, false, ◌++◌, append_assoc, arith, length, length-append, take, drop,
}
use crocofix.Base.Bytes.{Bytes, u32_mod}
use crocofix.Base.Exec.{Result, ok, err}
use crocofix.Field.{Fields}
use crocofix.Dictionary.{FieldTable}
use crocofix.Message.{Message, sum_bytes}
use crocofix.Message.Decode.{Scanned, narrowed, DecodeResult, finish, decode}
use crocofix.Message.Loop.{decode_by}
use crocofix.Message.Scan.{scan, Continues, extended, scan-append}
use crocofix.Message.Stopped.{Suffix, Waits, Stopped, loop-Stopped}
use crocofix.Message.Checksum.{narrowed-mod, sum_bytes-append}

-- The same checksum: the same number once it is final, and before that the same modulo 256.
abbrev pub SameSum : Bool → ℕ → ℕ → Type 0
SameSum true a b = a ≡ b
SameSum false a b = a % 256 ≡ b % 256

pub record Alike (done : Bool) (m m' : Message) : Type 0 where
  pub fields : m.fields ≡ m'.fields
  pub valid : m.decode_checksum_valid ≡ m'.decode_checksum_valid
  pub sum : SameSum done m.decode_checksum m'.decode_checksum

-- `y` is what decoding gives at once, `x` what it gives when `c` bytes were consumed before.
abbrev pub Resumes : ℕ → Result DecodeResult × Message → Result DecodeResult × Message → Type 0
Resumes c (ok r, m) (ok r', m') =
    (r'.consumed ≡ c + r.consumed) × (r'.complete ≡ r.complete) × Alike r'.complete m' m
Resumes c (err e, m) (err e', m') = (e' ≡ e) × (m'.fields ≡ m.fields)
Resumes c (ok r, m) (err e, m') = ⊥
Resumes c (err e, m) (ok r, m') = ⊥

summed : (s u q : Bytes) → s ≡ q ++ u → sum_bytes (take (length s - length u) s) ≡ sum_bytes q
summed s u q e = rw e (ap sum_bytes (take_front q u))

module _ (m m1 : Message) (p s : Bytes) (o : Scanned) (stop : Stopped s o) where
  open stop use {unsummed, rest}

  abbrev sum : Message → Bytes → ℕ
  sum k t = sum_bytes (take (length t - length o.unsummed) t)

  sums :
      m1.decode_checksum % 256 ≡ (m.decode_checksum + sum_bytes p) % 256
      → (m.decode_checksum + narrowed (sum m (p ++ s))) % u32_mod % 256
        ≡ (m1.decode_checksum + narrowed (sum m1 s)) % u32_mod % 256
  sums h = omega (
    arith,
    h,
    narrowed-mod m.decode_checksum (sum m (p ++ s)),
    narrowed-mod m1.decode_checksum (sum m1 s),
    summed s o.unsummed unsummed.front unsummed.whole,
    summed (p ++ s) o.unsummed (p ++ unsummed.front)
        (ap (◌++◌ p) unsummed.whole ∙ sym (append_assoc p unsummed.front o.unsummed)),
    sum_bytes-append p unsummed.front,
  )

  consumed : length (p ++ s) - length o.rest ≡ length p + (length s - length o.rest)
  consumed =
      omega (arith, length-append p s, ap length rest.whole ∙ length-append rest.front o.rest)

  finish-Resumes :
      m.decode_checksum_valid ≡ m1.decode_checksum_valid
      → m1.decode_checksum % 256 ≡ (m.decode_checksum + sum_bytes p) % 256
      → (r : Result Bool) → Resumes (length p) (finish m1 s o r) (finish m (p ++ s) o r)
  finish-Resumes v h (err e) = (refl, refl)
  finish-Resumes v h (ok true) =
      (consumed, refl, record { fields = refl; valid = refl; sum = sums h })
  finish-Resumes v h (ok false) =
      (consumed, refl, record { fields = refl; valid = v; sum = sums h })

-- What a message decoded from `p` so far, an incomplete one, has become.
record Decoded (m : Message) (p : Bytes) (o : Scanned) (m1 : Message) : Type 0 where
  fields : m1.fields ≡ o.fields
  valid : m.decode_checksum_valid ≡ m1.decode_checksum_valid
  sum : m1.decode_checksum % 256 ≡ (m.decode_checksum + sum_bytes p) % 256

module _ (d : FieldTable) (m : Message) (b : Bytes) where
  resume :
      (m1 : Message) (a : Bytes) (o : Scanned) (p : Bytes)
      → a ≡ p ++ o.rest
      → Decoded m p o m1
      → scan d m.fields (a ++ b) ≡ scan d o.fields (o.rest ++ b)
      → Resumes (length p) (decode d m1 (o.rest ++ b)) (decode d m (a ++ b))
  resume m1 a o p e g k =
      let s = o.rest ++ b in
      let y = scan d o.fields s in
      rw
        (
          decode_by d m1 s y (ap (λ (fs : Fields). scan d fs s) g.fields),
          decode_by d m (a ++ b) y k,
        )
        (rw (ap (λ (x : Bytes). x ++ b) e ∙ append_assoc p o.rest b) (
          finish-Resumes m m1 p s y (loop-Stopped (suc (length s)) d o.fields s) g.valid g.sum
            y.complete))

  settled :
      (a : Bytes) (o : Scanned) (r : Result Bool)
      → Stopped a o
      → scan d m.fields (a ++ b) ≡ extended b o
      → o.complete ≡ r
      → decode d m (a ++ b) ≡ finish m (a ++ b) (extended b o) r
  settled a o r s k q = rw (sym q) (decode_by d m (a ++ b) (extended b o) k)

  finish-extended :
      (a : Bytes) (o : Scanned) (r : Result Bool)
      → Stopped a o
      → finish m (a ++ b) (extended b o) r ≡ finish m a o r
  finish-extended a o (err e) s = refl
  finish-extended a o (ok done) s = rw (front a o.unsummed s.unsummed, used a o.rest s.rest) refl
    where
      used : (a r : Bytes) → Suffix a r → length (a ++ b) - length (r ++ b) ≡ length a - length r
      used a r w = omega (arith, length-append a b, length-append r b)

      front :
          (a u : Bytes)
          → Suffix a u
          → take (length (a ++ b) - length (u ++ b)) (a ++ b) ≡ take (length a - length u) a
      front a u w =
          rw (w.whole)
            (rw (append_assoc w.front u b, take_front w.front (u ++ b), take_front w.front u) refl)

abbrev pub Returned : FieldTable → Message → Bytes → Bytes → ℕ → Message → Bool → Type 0
Returned d m a b n m1 true =
    decode d m (a ++ b) ≡ (ok (record { consumed = n; complete = true }), m1)
Returned d m a b n m1 false = Resumes n (decode d m1 (drop n a ++ b)) (decode d m (a ++ b))

-- What `b` behind the buffer `a` does: a message that was complete, or an exception, stays as it is, and
-- one that was not is taken up where the last call left it.
abbrev pub Onward : FieldTable → Message → Bytes → Bytes → Result DecodeResult × Message → Type 0
Onward d m a b (err e, m1) = decode d m (a ++ b) ≡ (err e, m1)
Onward d m a b (ok r, m1) = Returned d m a b r.consumed m1 r.complete

waiting :
    (d : FieldTable) (m : Message) (a b : Bytes) (o : Scanned) (p : Bytes)
    → a ≡ p ++ o.rest
    → o.unsummed ≡ o.rest
    → scan d m.fields (a ++ b) ≡ scan d o.fields (o.rest ++ b)
    → Onward d m a b (finish m a o (ok false))
waiting d m a b o p e u k =
    rw (bytes_used, ap (drop (length p)) e ∙ drop-append p o.rest)
      (resume d m b _ a o p e (record { fields = refl; valid = refl; sum = summed_up }) k)
  where
    bytes_used : length a - length o.rest ≡ length p
    bytes_used = rw e (front_length p o.rest)

    read_front : sum_bytes (take (length a - length o.unsummed) a) ≡ sum_bytes p
    read_front = rw u (summed a o.rest p e)

    summed_up :
        (m.decode_checksum + narrowed (sum_bytes (take (length a - length o.unsummed) a)))
          % u32_mod
          % 256
        ≡ (m.decode_checksum + sum_bytes p) % 256
    summed_up = omega (
      arith,
      read_front,
      narrowed-mod m.decode_checksum (sum_bytes (take (length a - length o.unsummed) a)),
    )

by_end :
    (d : FieldTable) (m : Message) (a b : Bytes) (o : Scanned) (r : Result Bool)
    → Stopped a o
    → Continues d b o (scan d m.fields (a ++ b)) r
    → o.complete ≡ r
    → Onward d m a b (finish m a o r)
by_end d m a b o (err e) s k q =
    settled d m b a o (err e) s k q ∙ finish-extended d m b a o (err e) s
by_end d m a b o (ok true) s k q =
    settled d m b a o (ok true) s k q ∙ finish-extended d m b a o (ok true) s
by_end d m a b o (ok false) s k q =
    waiting d m a b o s.rest.front s.rest.whole (subst (λ (r : Result Bool). Waits a o r) q s.waits)
      k

-- Decoding is restartable. Whatever `decode` made of a buffer, with more bytes behind it: a complete
-- message and an exception come out unchanged, and where no message was complete, decoding on from
-- the bytes that were left and the message as it was gives the fields, the completion and the
-- exception of decoding all bytes at once, and consumes as many bytes in the two calls. The checksum
-- is the same too where the message completes, before that it is the same modulo 256. Which exception a
-- length field with a negative value raises is left open (`undetermined`) where the byte that decides it
-- stands in front of the data field's tag.
pub decode-append : (d : FieldTable) (m : Message) (a b : Bytes) → Onward d m a b (decode d m a)
decode-append d m a b =
    let o = scan d m.fields a in
    rw (decode_by d m a o refl) (
      by_end d m a b o o.complete (loop-Stopped (suc (length a)) d m.fields a)
        (scan-append d b m.fields a) refl)
