-- ===== src/Message/RoundTrip.antt =====
-- Encoding a message and decoding the bytes.
use crocofix.Base.{
  take_front, ℕ, suc, ◌+◌, ◌-◌, ◌%◌, ◌≤◌, ◌≡◌, refl, ◌∙◌, ap, Bool, true, false, Option, none, some,
  [], ◌∷◌, ◌++◌, append_assoc, append-nil, arith, ◌==◌, length, length-append, take, All,
}
use crocofix.Base.Bytes.{Bytes, u32_mod}
use crocofix.Base.Exec.{ok}
use crocofix.Tags
use crocofix.Field.{Field, Fields, field}
use crocofix.Dictionary.{FieldTable, OrchestrationField, definition}
use crocofix.Message.{
  Message, of_fields, buffer_checksum, format_checksum, sum_bytes, three_digits, standard,
}
use crocofix.Message.Decode.{decode_loop, decode, narrowed, scanned}
use crocofix.Message.Encode.{
  Encoded, encode_checksum, encode_field, encode_loop, encode, failed, write_field,
  with_body_length,
}
use crocofix.Message.Loop.{loop_parsed, loop_complete, decode_by}
use crocofix.Message.Wire.{
  bytes_of, length-bytes_of, encode_fits, IsPlain, decode_field-bytes_of, wire, wire-nil, wire-cons,
  length-wire_cons,
}
use crocofix.Message.Checksum.{SumsUp, buffer_checksum_lem, narrowed-mod}
use crocofix.Message.BodyLength.{Untagged}

format_checksum_lem : (n : ℕ) → n ≤ 999 → format_checksum n ≡ ok (three_digits n)
unfolding format_checksum
format_checksum_lem n h = ground arith

-- One round of fuel for each field.
abbrev rounds : Fields → ℕ → ℕ
rounds [] n = n
rounds (g ∷ gs) n = suc (rounds gs n)

rounds-length : (gs : Fields) (n : ℕ) → rounds gs n ≡ length gs + n
rounds-length [] n = omega arith
rounds-length (g ∷ gs) n = omega (arith, rounds-length gs n)

-- Plain fields in front of the checksum are decoded one by one.
decode_loop-wire :
    (d : FieldTable) (fuel : ℕ) (fs gs : Fields) (rest : Bytes)
    → All (IsPlain d) gs
    → Untagged Tags.check_sum gs
    → decode_loop (rounds gs fuel) d fs (wire gs ++ rest) ≡ decode_loop fuel d (fs ++ gs) rest
decode_loop-wire d fuel fs [] rest h k = rw (append-nil, wire-nil)
decode_loop-wire d fuel fs (g ∷ gs) rest h k =
    rw (wire-cons g gs, append_assoc)
      (loop_parsed d (rounds gs fuel) fs _ g (wire gs ++ rest)
          (decode_field-bytes_of d fs g (wire gs ++ rest) h.0) k.0
        ∙ decode_loop-wire d fuel (fs ++ g ∷ []) gs rest h.1 k.1
        ∙ rw append_assoc)

-- Up to the checksum and no further.
decode_loop-message :
    (d : FieldTable) (fuel : ℕ) (gs : Fields) (ck : Field) (rest : Bytes)
    → All (IsPlain d) gs
    → Untagged Tags.check_sum gs
    → IsPlain d ck
    → ck.tag ≡ Tags.check_sum
    → decode_loop (rounds gs (suc fuel)) d [] (wire gs ++ (bytes_of ck ++ rest))
      ≡ scanned (gs ++ ck ∷ []) rest (bytes_of ck ++ rest) (ok true)
decode_loop-message d fuel gs ck rest h k p e =
    decode_loop-wire d (suc fuel) [] gs (bytes_of ck ++ rest) h k
    ∙ loop_complete d fuel gs _ ck rest (decode_field-bytes_of d gs ck rest p) e

module _ (capacity : ℕ) (all fs : Fields) (out : Bytes) (f : Field) where
  after_field : Option Bytes → Encoded
  after_field none = failed (ok []) (out ++ (write_field (capacity - length out) f).stored) all
  after_field (some b) = encode_loop capacity true all (out ++ b) fs

  loop_tag : Bool → Encoded
  unfolding after_field
  loop_tag true = encode_checksum capacity out all (format_checksum (buffer_checksum out))
  loop_tag false = after_field (encode_field (capacity - length out) f)

  loop_tag-fits :
      encode_field (capacity - length out) f ≡ some (bytes_of f)
      → loop_tag false ≡ encode_loop capacity true all (out ++ bytes_of f) fs
  unfolding loop_tag
  loop_tag-fits e = rw e

  loop_tag-closes :
      (v : Bytes)
      → format_checksum (buffer_checksum out) ≡ ok v
      → encode_field (capacity - length out) (field Tags.check_sum v)
        ≡ some (bytes_of (field Tags.check_sum v))
      → (loop_tag true).written ≡ ok (out ++ bytes_of (field Tags.check_sum v))
  unfolding loop_tag
  loop_tag-closes v e h = rw (e, h)

  encode_loop_lem :
      (b : Bool)
      → (f.tag == Tags.check_sum) ≡ b
      → encode_loop capacity true all out (f ∷ fs) ≡ loop_tag b
  unfolding encode_loop loop_tag
  encode_loop_lem true e = rw (e, encode_loop) refl
  encode_loop_lem false e = rw (e, encode_loop) refl

-- The encoding loop writes the fields in front of the checksum.
encode_loop-wire :
    (capacity : ℕ) (all gs rest : Fields) (out : Bytes)
    → Untagged Tags.check_sum gs
    → length out + length (wire gs) ≤ capacity
    → encode_loop capacity true all out (gs ++ rest)
      ≡ encode_loop capacity true all (out ++ wire gs) rest
encode_loop-wire capacity all [] rest out k fits = rw (wire-nil, append-nil)
encode_loop-wire capacity all (g ∷ gs) rest out k fits =
    encode_loop_lem capacity all (gs ++ rest) out g false (ground (arith, k.0))
    ∙ loop_tag-fits capacity all (gs ++ rest) out g
        (encode_fits (capacity - length out) g (omega (arith, length-wire_cons g gs)))
    ∙ encode_loop-wire capacity all gs rest (out ++ bytes_of g) k.1
        (omega (arith, length-append out (bytes_of g), length-wire_cons g gs))
    ∙ rw (wire-cons g gs, append_assoc)

abbrev pub checksum_field : Fields → Field
checksum_field gs = field Tags.check_sum (three_digits (buffer_checksum (wire gs)))

-- And then the checksum of those, which ends the message.
encode_loop-message :
    (capacity : ℕ) (all gs hs : Fields) (ck : Field)
    → Untagged Tags.check_sum gs
    → ck.tag ≡ Tags.check_sum
    → SumsUp (wire gs)
    → length (wire gs) + length (bytes_of (checksum_field gs)) ≤ capacity
    → (encode_loop capacity true all [] (gs ++ ck ∷ hs)).written
      ≡ ok (wire gs ++ bytes_of (checksum_field gs))
encode_loop-message capacity all gs hs ck k e up fits =
    ap (λ x. x.written)
      (encode_loop-wire capacity all gs (ck ∷ hs) [] k (omega arith)
        ∙ encode_loop_lem capacity all hs (wire gs) ck true (ground (arith, e)))
    ∙ loop_tag-closes capacity all hs (wire gs) ck (three_digits (buffer_checksum (wire gs)))
        (format_checksum_lem _ (omega (arith, buffer_checksum_lem (wire gs) up)))
        (encode_fits _ (checksum_field gs) (omega (arith, fits)))

length-le-wire : (gs : Fields) → length gs ≤ length (wire gs)
length-le-wire [] = omega arith
length-le-wire (g ∷ gs) = omega (arith, length-le-wire gs, length-wire_cons g gs, length-bytes_of g)

pub checksum_field-IsPlain :
    (d : FieldTable) (gs : Fields) (def : OrchestrationField)
    → definition d Tags.check_sum ≡ ok def
    → def.is_data ≡ false
    → IsPlain d (checksum_field gs)
checksum_field-IsPlain d gs def e h = record {
  small = omega arith;
  def = def;
  defined = e;
  not_data = h;
  clean = omega arith;
}

-- What decoding a whole message from an empty one yields, whatever bytes follow it.
pub decode_message :
    (d : FieldTable) (gs : Fields) (rest : Bytes)
    → All (IsPlain d) gs
    → Untagged Tags.check_sum gs
    → IsPlain d (checksum_field gs)
    → SumsUp (wire gs)
    → decode d (of_fields []) (wire gs ++ (bytes_of (checksum_field gs) ++ rest)) ≡ (
      ok (record { consumed = length (wire gs ++ bytes_of (checksum_field gs)); complete = true }),
      record {
        fields = gs ++ checksum_field gs ∷ [];
        decode_checksum = buffer_checksum (wire gs);
        decode_checksum_valid = true;
      },
    )
decode_message d gs rest h k p up =
    decode_by d (of_fields []) _ _
      (enough ∙ decode_loop-message d _ gs (checksum_field gs) rest h k p refl)
    ∙ cc (used, sum)
  where
    tail : Bytes
    tail = bytes_of (checksum_field gs) ++ rest

    spare : ℕ
    spare = length (wire gs ++ tail) - length gs

    enough :
        decode_loop (suc (length (wire gs ++ tail))) d [] (wire gs ++ tail)
        ≡ decode_loop (rounds gs (suc spare)) d [] (wire gs ++ tail)
    enough =
        ap (λ (n : ℕ). decode_loop n d [] (wire gs ++ tail))
          (omega
            (arith, rounds-length gs (suc spare), length-le-wire gs, length-append (wire gs) tail))

    used : length (wire gs ++ tail) - length rest ≡ length (wire gs ++ bytes_of (checksum_field gs))
    used = omega (
      arith,
      length-append (wire gs) tail,
      length-append (bytes_of (checksum_field gs)) rest,
      length-append (wire gs) (bytes_of (checksum_field gs)),
    )

    prefix : Bytes
    prefix = take (length (wire gs ++ tail) - length tail) (wire gs ++ tail)

    sum : (0 + narrowed (sum_bytes prefix)) % u32_mod % 256 ≡ buffer_checksum (wire gs)
    sum =
        narrowed-mod 0 (sum_bytes prefix)
        ∙ ap (λ (x : Bytes). (0 + sum_bytes x) % 256) (take_front (wire gs) tail)
        ∙ omega (arith, buffer_checksum_lem (wire gs) up)

-- A message with a CheckSum field, encoded into a buffer with room for it and decoded again, with any
-- bytes behind it: the fields up to the checksum come back, the checksum is the one that was
-- computed, and exactly the bytes written are consumed. The fields in front of the checksum, the
-- body length set, are plain, and their bytes do not sum to a negative `int`.
pub decode-encode :
    (d : FieldTable) (m : Message) (capacity : ℕ) (gs hs : Fields) (ck : Field) (rest : Bytes)
    → with_body_length true m ≡ gs ++ ck ∷ hs
    → ck.tag ≡ Tags.check_sum
    → Untagged Tags.check_sum gs
    → All (IsPlain d) gs
    → IsPlain d (checksum_field gs)
    → SumsUp (wire gs)
    → length (wire gs) + length (bytes_of (checksum_field gs)) ≤ capacity
    → ((encode m capacity standard).0 ≡ ok (wire gs ++ bytes_of (checksum_field gs)))
      × (decode d (of_fields []) (wire gs ++ (bytes_of (checksum_field gs) ++ rest)) ≡ (
        ok (record {
          consumed = length (wire gs ++ bytes_of (checksum_field gs));
          complete = true;
        }),
        record {
          fields = gs ++ checksum_field gs ∷ [];
          decode_checksum = buffer_checksum (wire gs);
          decode_checksum_valid = true;
        },
      ))
unfolding encode
decode-encode d m capacity gs hs ck rest e c k h p up fits = (
  ap (λ (fs : Fields). (encode_loop capacity true fs [] fs).written) e
      ∙ encode_loop-message capacity (gs ++ ck ∷ hs) gs hs ck k c up fits,
  decode_message d gs rest h k p up,
)
