-- ===== src/SocketReader/Stream.antt =====
-- What a stream of bytes means: the messages that decoding it from its start yields, one behind the
-- other. The reader of libcrocofix/socket_reader.cpp is compared with it.
use crocofix.Base.{
  drop_within, drop-drop, ℕ, zero, suc, ◌+◌, ◌≤◌, ◌<◌, ◌≡◌, refl, sym, subst, ap, ◌∙◌, Bool, true,
  false, List, [], ◌∷◌, ◌++◌, arith, length, length-drop, drop,
}
use crocofix.Base.Bytes.{Bytes}
use crocofix.Base.Exec.{Result, ok, err}
use crocofix.Dictionary.{FieldTable}
use crocofix.Message.{Message, reset}
use crocofix.Message.Decode.{DecodeResult, decode}
use crocofix.Message.Stopped.{Taken, Consumes, decode-Consumes}
use crocofix.Message.Resume.{Alike, Onward, Returned, Resumes, decode-append}

-- The messages in a stream, what is left of the stream behind them and the message begun there, or
-- the exception that a field of it raised.
pub record Delivered : Type 0 where
  pub messages : List Message
  pub partial : Message
  pub rest : Bytes
  pub ended : Result (Unit {0})

abbrev pub delivered : List Message → Message → Bytes → Result (Unit {0}) → Delivered
delivered ms m s x = record { messages = ms; partial = m; rest = s; ended = x }

abbrev pub after : Message → Delivered → Delivered
after m y = record y { messages = m ∷ y.messages }

abbrev pub completed : (Message → Bytes → Delivered) → Bytes → ℕ → Message → Bool → Delivered
completed again s n m true = after m (again (reset m) (drop n s))
completed again s n m false = delivered [] m (drop n s) (ok tt)

abbrev pub next : (Message → Bytes → Delivered) → Bytes → Result DecodeResult × Message → Delivered
next again s (err e, m) = delivered [] m s (err e)
next again s (ok x, m) = completed again s x.consumed m x.complete

unfoldable pub deliver_within : ℕ → FieldTable → Message → Bytes → Delivered
deliver_within zero d m s = delivered [] m s (ok tt)
deliver_within (suc n) d m s = next (λ k t. deliver_within n d k t) s (decode d m s)

abbrev pub deliver : FieldTable → Message → Bytes → Delivered
deliver d m s = deliver_within (suc (length s)) d m s

within :
    (n k : ℕ) (d : FieldTable) (m : Message) (s : Bytes)
    → length s < n
    → length s < k
    → deliver_within n d m s ≡ deliver_within k d m s
unfolding deliver_within
within zero k d m s h l = absurd (omega (arith, h))
within (suc n) zero d m s h l = absurd (omega (arith, l))
within (suc n) (suc k) d m s h l =
    by_result (λ q t a b. within n k d q t a b) (decode d m s) (decode-Consumes d m s)
  where
    by_complete :
        ((q : Message) (t : Bytes)
          → length t < n
          → length t < k
          → deliver_within n d q t ≡ deliver_within k d q t)
        → (x : DecodeResult) (q : Message) (c : Bool) → Taken x.consumed c
        → x.consumed ≤ length s
        → completed (λ p t. deliver_within n d p t) s x.consumed q c
          ≡ completed (λ p t. deliver_within k d p t) s x.consumed q c
    by_complete again x q true a b = ap (after q) (
        again (reset q) (drop x.consumed s) (omega (arith, a, b, h, length-drop x.consumed s))
          (omega (arith, a, b, l, length-drop x.consumed s)))
    by_complete again x q false a b = refl

    by_result :
        ((q : Message) (t : Bytes)
          → length t < n
          → length t < k
          → deliver_within n d q t ≡ deliver_within k d q t)
        → (y : Result DecodeResult × Message) → Consumes s y
        → next (λ q t. deliver_within n d q t) s y ≡ next (λ q t. deliver_within k d q t) s y
    by_result again (err e, q) c = refl
    by_result again (ok x, q) c = by_complete again x q x.complete c.0 c.1

-- Fuel past the length is enough.
pub deliver_lem :
    (n : ℕ) (d : FieldTable) (m : Message) (s : Bytes)
    → length s < n
    → deliver_within n d m s ≡ deliver d m s
deliver_lem n d m s h = within n (suc (length s)) d m s h (omega arith)

pub deliver-next :
    (d : FieldTable) (m : Message) (s : Bytes)
    → deliver d m s ≡ next (λ q t. deliver d q t) s (decode d m s)
unfolding deliver_within
deliver-next d m s = by_result (decode d m s) (decode-Consumes d m s)
  where
    by_complete :
        (x : DecodeResult) (q : Message) (c : Bool)
        → Taken x.consumed c
        → x.consumed ≤ length s
        → completed (λ p t. deliver_within (length s) d p t) s x.consumed q c
          ≡ completed (λ p t. deliver d p t) s x.consumed q c
    by_complete x q true a b = ap (after q) (
        deliver_lem (length s) d (reset q) (drop x.consumed s)
          (omega (arith, a, b, length-drop x.consumed s)))
    by_complete x q false a b = refl

    by_result :
        (y : Result DecodeResult × Message)
        → Consumes s y
        → next (λ q t. deliver_within (length s) d q t) s y ≡ next (λ q t. deliver d q t) s y
    by_result (err e, q) c = refl
    by_result (ok x, q) c = by_complete x q x.complete c.0 c.1

-- What `whole` makes of a stream is the messages `ms` and then what `y` makes of the rest of it. Behind
-- an exception only the fields of the message begun are compared, since the checksum is not kept.
abbrev pub SameEnd : Result (Unit {0}) → Delivered → Delivered → Type 0
SameEnd (ok u) x y = (x.rest ≡ y.rest) × Alike false x.partial y.partial
SameEnd (err e) x y = x.partial.fields ≡ y.partial.fields

pub record Follows (whole : Delivered) (ms : List Message) (y : Delivered) : Type 0 where
  pub messages : whole.messages ≡ ms ++ y.messages
  pub ended : whole.ended ≡ y.ended
  pub same_end : SameEnd y.ended whole y

-- The stream in two pieces, the first of which raised no exception.
abbrev pub Splits : FieldTable → Bytes → Delivered → Delivered → Result (Unit {0}) → Type 0
Splits d b whole y (ok u) = Follows whole y.messages (deliver d y.partial (y.rest ++ b))
Splits d b whole y (err e) = whole ≡ record y { rest = y.rest ++ b }

SameEnd-refl : (x : Delivered) (c : Result (Unit {0})) → SameEnd c x x
SameEnd-refl x (ok u) = (refl, record { fields = refl; valid = refl; sum = refl })
SameEnd-refl x (err e) = refl

pub Follows-refl : (x y : Delivered) → x ≡ y → Follows x [] y
Follows-refl x y e =
    rw e (record { messages = refl; ended = refl; same_end = SameEnd-refl y y.ended })

after-Splits :
    (d : FieldTable) (b : Bytes) (m : Message) (w y : Delivered) (c : Result (Unit {0}))
    → Splits d b w y c
    → Splits d b (after m w) (after m y) c
after-Splits d b m w y (ok u) h = record {
  messages = ap (◌∷◌ m) h.messages;
  ended = h.ended;
  same_end = same _ h.same_end;
}
  where
    same :
        (c : Result (Unit {0}))
        → SameEnd c w (deliver d y.partial (y.rest ++ b))
        → SameEnd c (after m w) (deliver d y.partial (y.rest ++ b))
    same (ok v) k = k
    same (err e) k = k
after-Splits d b m w y (err e) h = ap (after m) h

Alike-true : (x y : Message) → Alike true x y → x ≡ y
Alike-true x y h = cc (h.fields, h.valid, h.sum)

module _ (again : Message → Bytes → Delivered) (n : ℕ) (s : Bytes) where
  resumed_completed :
      (k : ℕ) (x y : Message) (c : Bool)
      → Alike c x y
      → Follows (completed again s (n + k) x c) [] (completed again (drop n s) k y c)
  resumed_completed k x y true h = Follows-refl _ _ (rw (drop-drop k n s, Alike-true x y h) refl)
  resumed_completed k x y false h = record {
    messages = refl;
    ended = refl;
    same_end = (sym (drop-drop k n s), h);
  }

  resumed :
      (x y : Result DecodeResult × Message)
      → Resumes n x y
      → Follows (next again s y) [] (next again (drop n s) x)
  resumed (ok r, m) (ok q, k) (c, e, h) = rw c (
      subst
        (λ (v : Bool).
          Follows (completed again s (n + r.consumed) k q.complete) []
            (completed again (drop n s) r.consumed m v))
        e (resumed_completed r.consumed k m q.complete h))
  resumed (ok r, m) (err f, k) h = elim h [ ]
  resumed (err e, m) (ok q, k) h = elim h [ ]
  resumed (err e, m) (err f, k) h = record { messages = refl; ended = ap err h.0; same_end = h.1 }

split_within :
    (n : ℕ) (d : FieldTable) (m : Message) (a b : Bytes)
    → length a < n
    → Splits d b (deliver d m (a ++ b)) (deliver d m a) (deliver d m a).ended
split_within zero d m a b h = absurd (omega (arith, h))
split_within (suc n) d m a b h = rw (deliver-next d m a) (
    by_result (λ q t. split_within n d q t b) (decode d m a) (decode-Consumes d m a)
      (decode-append d m a b))
  where
    by_complete :
        ((q : Message) (t : Bytes)
          → length t < n
          → Splits d b (deliver d q (t ++ b)) (deliver d q t) (deliver d q t).ended)
        → (x : DecodeResult) (q : Message) (c : Bool) → Taken x.consumed c
        → x.consumed ≤ length a
        → Returned d m a b x.consumed q c
        → Splits d b
            (deliver d m (a ++ b))
            (completed (λ p t. deliver d p t) a x.consumed q c)
            (completed (λ p t. deliver d p t) a x.consumed q c).ended
    by_complete again x q true k l o =
        rw (deliver-next d m (a ++ b) ∙ ap (next (λ p t. deliver d p t) (a ++ b)) o) (
          rw (drop_within x.consumed a b l) (
            after-Splits d b q _ _ _ (
              again (reset q) (drop x.consumed a)
                (omega (arith, h, k, l, length-drop x.consumed a)))))
    by_complete again x q false k l o =
        rw (deliver-next d m (a ++ b), deliver-next d q (drop x.consumed a ++ b))
          (rw (sym (drop_within x.consumed a b l)) (
            resumed (λ p t. deliver d p t) x.consumed (a ++ b) _ _
              (subst (λ (t : Bytes). Resumes x.consumed (decode d q t) (decode d m (a ++ b)))
                (sym (drop_within x.consumed a b l)) o)))

    by_result :
        ((q : Message) (t : Bytes)
          → length t < n
          → Splits d b (deliver d q (t ++ b)) (deliver d q t) (deliver d q t).ended)
        → (y : Result DecodeResult × Message) → Consumes a y
        → Onward d m a b y
        → Splits d b
            (deliver d m (a ++ b))
            (next (λ p t. deliver d p t) a y)
            (next (λ p t. deliver d p t) a y).ended
    by_result again (err e, q) c o =
        deliver-next d m (a ++ b) ∙ ap (next (λ p t. deliver d p t) (a ++ b)) o
    by_result again (ok x, q) c o = by_complete again x q x.complete c.0 c.1 o

-- A stream in two pieces: where no exception ended the first, the rest of it and the second follow with
-- the message begun, and an exception ends both alike.
pub deliver-append :
    (d : FieldTable) (m : Message) (a b : Bytes)
    → Splits d b (deliver d m (a ++ b)) (deliver d m a) (deliver d m a).ended
deliver-append d m a b = split_within (suc (length a)) d m a b (omega arith)
