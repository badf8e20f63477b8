-- ===== src/Message.antt =====
-- libcrocofix/message.cppm and libcrocofix/message.cpp: the message, its accessors, its body length
-- and checksums. The decoder and the encoder stand in the children.
pub mod Decode
pub mod Encode
pub mod Printing
pub mod Loop
pub mod Behind
pub mod Fuel
pub mod Split
pub mod Scan
pub mod Stopped
pub mod Resume
pub mod Capacity
pub mod Examples
pub mod Wire
pub mod Checksum
pub mod BodyLength
pub mod RoundTrip
use Prim.Native.Nat.{bit_and}
use crocofix.Base.{
  ℕ, ◌+◌, ◌-◌, ◌*◌, ◌/◌, ◌%◌, Bool, true, false, not, ◌||◌, Option, none, some, List, [], ◌∷◌, ◌++◌,
  ltb, leb, ◌==◌, if◌then◌else◌, length,
}
use crocofix.Base.Bytes.{Bytes, ℤ, text, bytes_eq, to_string, stoi, to_u32, u32_mod}
use crocofix.Base.Exec.{Result, ok, err, runtime_error}
use crocofix.Tags
use crocofix.Field.{Field, Fields, field, replace_first_or_append, try_get, set, get_bool}

-- encode_options
abbrev pub set_checksum : ℕ
set_checksum = 1

abbrev pub set_body_length : ℕ
set_body_length = 2

abbrev pub set_begin_string : ℕ
set_begin_string = 4

abbrev pub set_msg_seq_num : ℕ
set_msg_seq_num = 8

abbrev pub standard : ℕ
standard = 15

-- `(options & flag) != 0`
abbrev pub has_option : ℕ → ℕ → Bool
has_option options flag = not (bit_and options flag == 0)

pub record Message : Type 0 where
  pub fields : Fields
  pub decode_checksum : ℕ
  pub decode_checksum_valid : Bool

abbrev pub of_fields : Fields → Message
of_fields fs = record { fields = fs; decode_checksum = 0; decode_checksum_valid = false }

abbrev pub header : Fields
header =
    field Tags.begin_string []
    ∷ field Tags.body_length []
    ∷ field Tags.msg_type []
    ∷ field Tags.sender_comp_id []
    ∷ field Tags.target_comp_id []
    ∷ field Tags.msg_seq_num []
    ∷ field Tags.sending_time []
    ∷ []

unfoldable pub set_all : Fields → Fields → Fields
set_all [] fs = fs
set_all (f ∷ news) fs = set_all news (set f replace_first_or_append fs).1

-- The constructor of `message`.
unfoldable pub message : Bool → Fields → Message
unfolding set_all set
message populate_header fs = of_fields (set_all fs (if populate_header then header else []))

-- `message::reset`
unfoldable pub reset : Message → Message
reset m = of_fields []

abbrev value_or : Bytes → Option Field → Result Bytes
value_or what none = err (runtime_error what)
value_or what (some f) = ok f.value

unfoldable pub begin_string : Message → Result Bytes
begin_string m =
    value_or (text "message does not have a BeginString field") (try_get Tags.begin_string m.fields)

unfoldable pub sender_comp_id : Message → Result Bytes
sender_comp_id m =
    value_or (text "message does not have a SenderCompID field")
      (try_get Tags.sender_comp_id m.fields)

unfoldable pub target_comp_id : Message → Result Bytes
target_comp_id m =
    value_or (text "message does not have a TargetCompID field")
      (try_get Tags.target_comp_id m.fields)

unfoldable pub msg_type : Message → Result Bytes
msg_type m =
    value_or (text "message does not have a MsgType field") (try_get Tags.msg_type m.fields)

abbrev unsigned : Result ℤ → Result ℕ
unsigned (ok z) = ok (to_u32 z)
unsigned (err e) = err e

-- `std::stoi` into a `uint32_t`.
unfoldable pub stoi_u32 : Bytes → Result ℕ
unfolding stoi
stoi_u32 v = unsigned (stoi v)

abbrev number_or : Bytes → Option Field → Result ℕ
number_or what none = err (runtime_error what)
number_or what (some f) = stoi_u32 f.value

unfoldable pub msg_seq_num : Message → Result ℕ
unfolding stoi_u32
msg_seq_num m =
    number_or (text "message does not have a MsgSeqNum field") (try_get Tags.msg_seq_num m.fields)

unfoldable pub poss_dup_flag : Message → Result Bool
poss_dup_flag m = get_bool Tags.poss_dup_flag m.fields

unfoldable pub gap_fill_flag : Message → Result Bool
gap_fill_flag m = get_bool Tags.gap_fill_flag m.fields

unfoldable pub reset_seq_num_flag : Message → Result Bool
reset_seq_num_flag m = get_bool Tags.reset_seq_num_flag m.fields

abbrev pub is_admin_type : Bytes → Bool
is_admin_type t =
    bytes_eq t Tags.logon
    || bytes_eq t Tags.heartbeat
    || bytes_eq t Tags.test_request
    || bytes_eq t Tags.resend_request
    || bytes_eq t Tags.reject
    || bytes_eq t Tags.sequence_reset
    || bytes_eq t Tags.logout
    || bytes_eq t Tags.xml_non_fix

abbrev admin_of : Result Bytes → Result Bool
admin_of (ok t) = ok (is_admin_type t)
admin_of (err e) = err e

unfoldable pub is_admin : Message → Result Bool
unfolding msg_type
is_admin m = admin_of (msg_type m)

abbrev flag : ℕ → ℕ → ℕ
flag value bound = if leb bound value then 1 else 0

-- libcrocofixutility/number_of_digits.cppm
unfoldable pub number_of_digits : ℕ → ℕ
number_of_digits n =
    1
    + flag n 10
    + flag n 100
    + flag n 1000
    + flag n 10000
    + flag n 100000
    + flag n 1000000
    + flag n 10000000
    + flag n 100000000
    + flag n 1000000000
    + flag n 10000000000
    + flag n 100000000000
    + flag n 1000000000000
    + flag n 10000000000000
    + flag n 100000000000000
    + flag n 1000000000000000
    + flag n 10000000000000000
    + flag n 100000000000000000
    + flag n 1000000000000000000
    + flag n 10000000000000000000

-- The loop of `calculate_body_length` over its two variables.
unfoldable pub body_length_from : Bool → ℕ → Fields → ℕ
body_length_from passed n [] = n
body_length_from passed n (f ∷ fs) = elim (f.tag == Tags.check_sum) [
  | true ↦ n
  | false ↦ elim passed [
    | true ↦ body_length_from true ((n + number_of_digits f.tag + length f.value + 2) % u32_mod) fs
    | false ↦ body_length_from (f.tag == Tags.body_length) n fs
  ]
]

unfoldable pub calculate_body_length : Message → ℕ
unfolding body_length_from
calculate_body_length m = body_length_from false 0 m.fields

-- The checksum that decoding left behind.
unfoldable pub decoded_checksum : Message → Result ℕ
decoded_checksum m =
    if m.decode_checksum_valid
    then ok m.decode_checksum
    else err (runtime_error (text "NO DECODE CHECKSUM"))

unfoldable pub sum_bytes : Bytes → ℕ
sum_bytes [] = 0
sum_bytes (b ∷ s) = b + sum_bytes s

unfoldable pub count_high : Bytes → ℕ
count_high [] = 0
count_high (b ∷ s) = flag b 128 + count_high s

-- `sum % 256` for the `int` high - low, as C++ truncates it, converted to `uint32_t`.
abbrev pub int_mod_256 : ℕ → ℕ → ℕ
int_mod_256 high low =
    if leb low high then (high - low) % 256 else (u32_mod - (low - high) % 256) % u32_mod

-- `calculate_checksum(std::string_view)`: `char` is signed, so a byte from 128 up counts as b - 256.
unfoldable pub buffer_checksum : Bytes → ℕ
unfolding sum_bytes count_high
buffer_checksum s = int_mod_256 (sum_bytes s) (256 * count_high s)

-- `std::format("{:03}", …)` of a number below 1000.
abbrev pub three_digits : ℕ → Bytes
three_digits n = (b'0' + n / 100) ∷ (b'0' + n / 10 % 10) ∷ (b'0' + n % 10) ∷ []

unfoldable pub format_checksum : ℕ → Result Bytes
format_checksum n =
    if ltb 999 n
    then err (
        runtime_error (
          text "Cannot format CheckSum that is greater than 3 digits '" ++ to_string n ++ text "'"))
    else ok (three_digits n)
