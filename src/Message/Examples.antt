-- ===== src/Message/Examples.antt =====
-- A Heartbeat with four fields, on which the theorems about messages are run.
use crocofix.Base.{
  ℕ, ◌==◌, ◌≡◌, ◌≢◌, ◌≤◌, ◌<◌, ◌+◌, ◌*◌, ◌%◌, refl, Bool, true, false, not, ◌&&◌, some, none, [],
  ◌∷◌, ◌++◌, arith, length, All, if◌then◌else◌, leb,
}
use crocofix.Base.Bytes.{Bytes, codes, to_string, digits, u32_mod}
use crocofix.Base.Exec.{ok}
use crocofix.Tags
use crocofix.Field.{Fields, field, try_get, set}
use crocofix.Dictionary.{no_pedigree, FieldTable, OrchestrationField, definition}
use crocofix.Message.{
  Message, of_fields, standard, sum_bytes, count_high, buffer_checksum, format_checksum,
  number_of_digits, calculate_body_length,
}
use crocofix.Message.Decode.{decode, decode_loop, field_separator}
use crocofix.Message.Encode.{encode, run_encode, encode_field, with_body_length}
use crocofix.Message.Wire.{bytes_of, IsPlain, Lacks, wire, encode_field_lem}
use crocofix.Message.Checksum.{SumsUp, buffer_checksum_lem, buffer_checksum-negative}
use crocofix.Message.BodyLength.{Untagged, number_of_digits_lem, calculate_body_length_lem}
use crocofix.Message.Fuel.{decode_loop-ends}
use crocofix.Message.Resume.{Onward, decode-append}
use crocofix.Message.Capacity.{StaysIn, run_encode-StaysIn}
use crocofix.Message.RoundTrip.{checksum_field, decode-encode}

abbrev pub defined_as : ℕ → Bytes → OrchestrationField
defined_as t name = record {
  tag = t;
  is_data = false;
  name = name;
  type = [];
  synopsis = [];
  pedigree = no_pedigree;
  values = [];
}

-- Offsets up to tag 35; 9 is past the end of the fields.
abbrev pub table : FieldTable
table = record {
  field_offsets =
      9 ∷ 9 ∷ 9 ∷ 9 ∷ 9 ∷ 9 ∷ 9 ∷ 9 ∷ 0 ∷ 1 ∷ 2 ∷ 9 ∷ 9 ∷ 9 ∷ 9 ∷ 9 ∷ 9 ∷ 9 ∷ 9 ∷ 9 ∷ 9 ∷ 9 ∷ 9 ∷ 9
      ∷ 9 ∷ 9 ∷ 9 ∷ 9 ∷ 9 ∷ 9 ∷ 9 ∷ 9 ∷ 9 ∷ 9 ∷ 9 ∷ 3 ∷ [];
  fields =
      defined_as 8 (codes "BeginString")
      ∷ defined_as 9 (codes "BodyLength")
      ∷ defined_as 10 (codes "CheckSum")
      ∷ defined_as 35 (codes "MsgType")
      ∷ [];
}

abbrev body : Fields
body = field 35 (b'0' ∷ []) ∷ []

abbrev pub front : Fields
front = field 8 (codes "FIX.4.4") ∷ field 9 (b'5' ∷ []) ∷ body

abbrev pub heartbeat : Message
heartbeat =
    of_fields (field 8 (codes "FIX.4.4") ∷ field 9 [] ∷ field 35 (b'0' ∷ []) ∷ field 10 [] ∷ [])

unfoldable pub lacks : ℕ → Bytes → Bool
lacks c [] = true
lacks c (b ∷ s) = not (b == c) && lacks c s

pub lacks-Lacks : (c : ℕ) (s : Bytes) → lacks c s ≡ true → Lacks c s
unfolding lacks
lacks-Lacks c [] h = tt
lacks-Lacks c (b ∷ s) h = (ground arith, lacks-Lacks c s (ground arith))

plain :
    (t : ℕ) (v name : Bytes)
    → definition table t ≡ ok (defined_as t name)
    → t ≤ 100
    → Lacks field_separator v
    → IsPlain table (field t v)
plain t v name h small clean = record {
  small = omega (arith, small);
  def = defined_as t name;
  defined = h;
  not_data = refl;
  clean = clean;
}

pub front-IsPlain : All (IsPlain table) front
unfolding definition lacks
front-IsPlain = (
  plain 8 _ _ refl (omega arith) (lacks-Lacks 1 (codes "FIX.4.4") refl),
  (
    plain 9 _ _ refl (omega arith) (lacks-Lacks 1 (b'5' ∷ []) refl),
    (plain 35 _ _ refl (omega arith) (lacks-Lacks 1 (b'0' ∷ []) refl), tt),
  ),
)

pub checksum-IsPlain : IsPlain table (checksum_field front)
unfolding definition lacks wire buffer_checksum to_string digits
checksum-IsPlain = plain 10 _ _ refl (omega arith) (lacks-Lacks 1 (checksum_field front).value refl)

front_length : with_body_length true heartbeat ≡ front ++ field 10 [] ∷ []
unfolding calculate_body_length number_of_digits to_string digits set try_get
front_length = refl

pub front-Untagged : Untagged Tags.check_sum front
front-Untagged = ground arith

pub front-SumsUp : SumsUp (wire front)
unfolding wire sum_bytes count_high to_string digits
front-SumsUp = omega arith

front_fits : length (wire front) + length (bytes_of (checksum_field front)) ≤ 100
unfolding wire to_string digits buffer_checksum
front_fits = omega arith

decode-encode_example :
    ((encode heartbeat 100 standard).0 ≡ ok (wire front ++ bytes_of (checksum_field front)))
    × (decode table (of_fields []) (wire front ++ (bytes_of (checksum_field front) ++ b'8' ∷ []))
        ≡ (
          ok (record {
            consumed = length (wire front ++ bytes_of (checksum_field front));
            complete = true;
          }),
          record {
            fields = front ++ checksum_field front ∷ [];
            decode_checksum = buffer_checksum (wire front);
            decode_checksum_valid = true;
          },
        ))
decode-encode_example =
    decode-encode table heartbeat 100 front [] (field 10 []) (b'8' ∷ []) front_length refl
      front-Untagged front-IsPlain checksum-IsPlain front-SumsUp front_fits

decode_loop-ends_example :
    ((decode_loop 10 table [] (codes "8=FIX")).ended ≡ true)
    × (decode_loop (10 + 5) table [] (codes "8=FIX") ≡ decode_loop 10 table [] (codes "8=FIX"))
decode_loop-ends_example = decode_loop-ends 10 5 table [] (codes "8=FIX") (omega arith)

nine_digits : number_of_digits 1024 ≡ length (to_string 1024)
nine_digits = number_of_digits_lem 1024 (omega arith)

small_sum : buffer_checksum (wire front) ≡ sum_bytes (wire front) % 256
small_sum = buffer_checksum_lem (wire front) front-SumsUp

high_byte-negative : sum_bytes (200 ∷ []) < 256 * count_high (200 ∷ [])
unfolding sum_bytes count_high
high_byte-negative = omega arith

high_byte-odd : sum_bytes (200 ∷ []) % 256 ≢ 0
unfolding sum_bytes
high_byte-odd = omega arith

buffer_checksum-negative_example : format_checksum (buffer_checksum (200 ∷ [])) ≢ ok (codes "200")
buffer_checksum-negative_example =
    buffer_checksum-negative (200 ∷ []) (codes "200") high_byte-negative high_byte-odd

short_room : encode_field 4 (field 35 (b'0' ∷ [])) ≡ (
    if leb (length (bytes_of (field 35 (b'0' ∷ [])))) 4
    then some (bytes_of (field 35 (b'0' ∷ [])))
    else none)
short_room = encode_field_lem 4 (field 35 (b'0' ∷ []))

abbrev whole : Message
whole = of_fields (front ++ field 10 (codes "100") ∷ [])

body_fits : length (wire body) < u32_mod
unfolding wire to_string digits
body_fits = omega arith

calculate_body_length_lem_example : calculate_body_length whole ≡ length (wire body)
calculate_body_length_lem_example =
    calculate_body_length_lem whole (field 8 (codes "FIX.4.4") ∷ []) body [] (field 9 (b'5' ∷ []))
      (field 10 (codes "100")) refl (ground arith) (ground arith) refl (ground arith) (ground arith)
      refl body_fits

decode-append_example :
    Onward table
      (of_fields [])
      (codes "8=FIX.4.4")
      (1 ∷ codes "9=5")
      (decode table (of_fields []) (codes "8=FIX.4.4"))
decode-append_example = decode-append table (of_fields []) (codes "8=FIX.4.4") (1 ∷ codes "9=5")

run_encode-StaysIn_example : StaysIn 12 (run_encode heartbeat 12 standard)
run_encode-StaysIn_example = run_encode-StaysIn heartbeat 12 standard
