-- ===== src/Message/Capacity.antt =====
-- `encode` stays inside the buffer it is given.
use crocofix.Base.{
  ℕ, ◌+◌, ◌-◌, ◌≤◌, ◌≡◌, refl, Bool, true, false, ◌&&◌, Option, none, some, [], ◌∷◌, ◌++◌, arith,
  length, length-append, ltb, leb, ◌==◌, if◌then◌else◌,
}
use crocofix.Base.Bytes.{Bytes, to_string}
use crocofix.Base.Exec.{Result, ok, err}
use crocofix.Tags
use crocofix.Field.{Field, Fields, field}
use crocofix.Message.{
  Message, has_option, set_checksum, set_body_length, buffer_checksum, format_checksum,
}
use crocofix.Message.Decode.{value_separator, field_separator}
use crocofix.Message.Encode.{
  Encoded, FieldWritten, stopped, returned, write_field, run_encode, failed, encode_field,
  close_with, encode_checksum, encode_loop, encode, with_body_length,
}

-- What a field stores is within its room, and so is what it returns, which is all of that.
record FieldFits (n : ℕ) (w : FieldWritten) (o : Option Bytes) : Type 0 where
  inside : length w.stored ≤ n
  same : (b : Bytes) → o ≡ some b → length b ≤ n

stopped-FieldFits : (n : ℕ) (s : Bytes) → length s ≤ n → FieldFits n (stopped s) none
stopped-FieldFits n s h = record { inside = h; same = λ b e. absurd (cc e) }

encode_field-FieldFits : (n : ℕ) (f : Field) → FieldFits n (write_field n f) (encode_field n f)
unfolding encode_field write_field
encode_field-FieldFits n f =
    by_tests (ltb n (length (to_string f.tag))) (leb n (length (to_string f.tag)))
      (leb n (length (to_string f.tag) + 1)) (leb n (length (to_string f.tag) + 1 + length f.value))
      refl refl refl
  where
    key : Bytes
    key = to_string f.tag ++ value_separator ∷ []

    all_of : Bytes
    all_of = to_string f.tag ++ value_separator ∷ (f.value ++ field_separator ∷ [])

    by : Bool → Bool → Bool → Bool → FieldWritten
    by w x y z =
        if w
        then stopped []
        else if x
        then stopped (to_string f.tag)
        else if y
        then stopped (to_string f.tag ++ value_separator ∷ [])
        else if z
        then stopped (to_string f.tag ++ value_separator ∷ [])
        else record {
          stored = to_string f.tag ++ value_separator ∷ (f.value ++ field_separator ∷ []);
          whole = true;
        }

    by_tests :
        (w x y z : Bool)
        → ltb n (length (to_string f.tag)) ≡ w
        → leb n (length (to_string f.tag)) ≡ x
        → leb n (length (to_string f.tag) + 1 + length f.value) ≡ z
        → FieldFits n (by w x y z) (returned (by w x y z))
    by_tests true x y z e g h = stopped-FieldFits n [] (omega arith)
    by_tests false true y z e g h = stopped-FieldFits n (to_string f.tag) (ground (arith, e))
    by_tests false false true z e g h =
        stopped-FieldFits n key
          (ground (arith, g, length-append (to_string f.tag) (value_separator ∷ [])))
    by_tests false false false true e g h =
        stopped-FieldFits n key
          (ground (arith, g, length-append (to_string f.tag) (value_separator ∷ [])))
    by_tests false false false false e g h =
        let k : length all_of ≤ n = ground (
          arith,
          h,
          length-append (to_string f.tag) (value_separator ∷ (f.value ++ field_separator ∷ [])),
          length-append f.value (field_separator ∷ []),
        ) in
        record { inside = k; same = λ b q. ground (arith, k, q) }

-- No more bytes than there is room for.
abbrev pub Fits : ℕ → Result Bytes → Type 0
Fits n (ok b) = length b ≤ n
Fits n (err e) = Unit

-- All that was stored is in the buffer, and so is what is returned.
pub record StaysIn (capacity : ℕ) (e : Encoded) : Type 0 where
  pub stored : length e.stored ≤ capacity
  pub written : Fits capacity e.written

abbrev AgainIn : ℕ → Bool → Fields → Bytes → Fields → Type 0
AgainIn capacity sums all out fs =
    (b : Bytes)
    → length (out ++ b) ≤ capacity
    → StaysIn capacity (encode_loop capacity sums all (out ++ b) fs)

encode_loop-StaysIn :
    (capacity : ℕ) (sums : Bool) (all : Fields) (out : Bytes) (fs : Fields)
    → length out ≤ capacity
    → StaysIn capacity (encode_loop capacity sums all out fs)
unfolding encode_loop
encode_loop-StaysIn capacity sums all out [] h = record { stored = h; written = h }
encode_loop-StaysIn capacity sums all out (f ∷ fs) h =
    by_checksum (λ b k. encode_loop-StaysIn capacity sums all (out ++ b) fs k)
      ((f.tag == Tags.check_sum) && sums)
  where
    joined : (b : Bytes) → length b ≤ capacity - length out → length (out ++ b) ≤ capacity
    joined b k = omega (arith, h, k, length-append out b)

    by_field :
        AgainIn capacity sums all out fs
        → (w : FieldWritten) (o : Option Bytes) → FieldFits (capacity - length out) w o
        → StaysIn capacity (elim o as (λ (x : Option Bytes). Encoded) [
          | none ↦ failed (ok []) (out ++ w.stored) all
          | some b ↦ encode_loop capacity sums all (out ++ b) fs
        ])
    by_field again w none k = record { stored = joined w.stored k.inside; written = omega arith }
    by_field again w (some b) k = again b (joined b (k.same b refl))

    closed :
        (gs : Fields) (w : FieldWritten) (o : Option Bytes)
        → FieldFits (capacity - length out) w o
        → StaysIn capacity (close_with out gs w.stored o)
    closed gs w none k = record { stored = joined w.stored k.inside; written = omega arith }
    closed gs w (some b) k =
        let j : length (out ++ b) ≤ capacity = joined b (k.same b refl) in
        record { stored = j; written = j }

    summed : (r : Result Bytes) → StaysIn capacity (encode_checksum capacity out all r)
    summed (err e) = record { stored = h; written = tt }
    summed (ok v) =
        closed _ _ _ (encode_field-FieldFits (capacity - length out) (field Tags.check_sum v))

    by_checksum :
        AgainIn capacity sums all out fs
        → (c : Bool)
        → StaysIn capacity (elim c as (λ (x : Bool). Encoded) [
          | true ↦ encode_checksum capacity out all (format_checksum (buffer_checksum out))
          | false ↦
              elim (encode_field (capacity - length out) f) as (λ (x : Option Bytes). Encoded) [
                | none ↦ failed (ok []) (out ++ (write_field (capacity - length out) f).stored) all
                | some b ↦ encode_loop capacity sums all (out ++ b) fs
              ]
        ])
    by_checksum again true = summed (format_checksum (buffer_checksum out))
    by_checksum again false =
        by_field again (write_field (capacity - length out) f)
          (encode_field (capacity - length out) f)
          (encode_field-FieldFits (capacity - length out) f)

-- Whatever the message, the options and the size of the buffer, and however `encode` ends, all the bytes that
-- it stores are in the buffer, those of a field that does not fit included, and it returns no more bytes
-- than the buffer has room for.
pub run_encode-StaysIn :
    (m : Message) (capacity options : ℕ) → StaysIn capacity (run_encode m capacity options)
run_encode-StaysIn m capacity options =
    encode_loop-StaysIn capacity (has_option options set_checksum)
      (with_body_length (has_option options set_body_length) m) []
      (with_body_length (has_option options set_body_length) m) (omega arith)

pub encode-Fits : (m : Message) (capacity options : ℕ) → Fits capacity (encode m capacity options).0
unfolding encode
encode-Fits m capacity options = (run_encode-StaysIn m capacity options).written
