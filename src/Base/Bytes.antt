-- ===== src/Base/Bytes.antt =====
-- Field values and wire buffers as lists of bytes, and the standard library's conversions between
-- text and integers: `std::to_string`, `std::stoi`, `std::from_chars` and comparison of strings.
pub mod Decimal
pub mod Equality
use Prim.Native.Char.{code}
use Prim.Native.String.{String}
use Prim.Native.Nat.{ℕ, zero, suc, ◌+◌, ◌-◌, ◌*◌, ◌/◌, ◌%◌, ◌^◌}
use mathlib.Core.Bool.{Bool, true, false, ◌&&◌, ◌||◌}
use mathlib.Core.List.{List, [], ◌∷◌, ◌++◌}
use mathlib.Core.Option.{Option, none, some}
use crocofix.Base.Tests.{leb, ltb, ◌==◌, if◌then◌else◌}
use crocofix.Base.Exec.{Result, ok, err, invalid_argument, out_of_range}

abbrev pub Bytes : Type 0
Bytes = List ℕ

-- The bytes of a literal, which is ASCII text everywhere in the program.
abbrev pub codes : String → Bytes
codes String.[] = []
codes (String.◌∷◌ c s) = code c ∷ codes s

-- A log or exception text: shut, since no branch depends on what it says.
unfoldable pub text : String → Bytes
text s = codes s

unfoldable pub bytes_eq : Bytes → Bytes → Bool
bytes_eq [] [] = true
bytes_eq [] (b ∷ t) = false
bytes_eq (a ∷ s) [] = false
bytes_eq (a ∷ s) (b ∷ t) = (a == b) && bytes_eq s t

-- Signed integers; `negsuc n` is -(n + 1).
pub data ℤ : Type 0 where
  pos : ℕ → ℤ
  negsuc : ℕ → ℤ

abbrev pub u32_mod : ℕ
u32_mod = 2 ^ 32

-- The conversion of an `int` to `uint32_t`.
abbrev pub to_u32 : ℤ → ℕ
to_u32 (pos n) = n % u32_mod
to_u32 (negsuc n) = (u32_mod - suc n) % u32_mod

unfoldable pub digits : ℕ → ℕ → Bytes
digits zero n = []
digits (suc f) n =
    let front = digits f (n / 10) in
    if ltb n 10 then (b'0' + n) ∷ [] else front ++ (b'0' + n % 10) ∷ []

-- `std::to_string` and `std::to_chars`: 20 digits hold every 64-bit number.
unfoldable pub to_string : ℕ → Bytes
to_string n = digits 20 n

abbrev pub is_digit : ℕ → Bool
is_digit c = leb b'0' c && leb c b'9'

abbrev is_space : ℕ → Bool
is_space c = (c == 32) || (leb 9 c && leb c 13)

unfoldable pub skip_spaces : Bytes → Bytes
skip_spaces [] = []
skip_spaces (c ∷ s) = let rest = skip_spaces s in if is_space c then rest else c ∷ s

-- The value of the longest prefix of digits, read behind `n`.
unfoldable pub scan : Bytes → ℕ → ℕ
scan [] n = n
scan (c ∷ s) n = let rest = scan s (n * 10 + (c - b'0')) in if is_digit c then rest else n

unfoldable pub magnitude : Bytes → Option ℕ
magnitude [] = none
magnitude (c ∷ s) = if is_digit c then some (scan (c ∷ s) 0) else none

abbrev pub int_max : ℕ
int_max = 2147483647

-- A magnitude with its sign, if it fits an `int`.
abbrev pub positive : Option ℕ → Result ℤ
positive none = err (invalid_argument (text "stoi"))
positive (some n) = if leb n int_max then ok (pos n) else err (out_of_range (text "stoi"))

abbrev negated : ℕ → ℤ
negated zero = pos zero
negated (suc n) = negsuc n

abbrev pub negative : Option ℕ → Result ℤ
negative none = err (invalid_argument (text "stoi"))
negative (some n) = if leb n (int_max + 1) then ok (negated n) else err (out_of_range (text "stoi"))

unfoldable pub signed : Bytes → Result ℤ
unfolding magnitude scan
signed [] = err (invalid_argument (text "stoi"))
signed (c ∷ s) =
    if c == b'-'
    then negative (magnitude s)
    else if c == b'+'
    then positive (magnitude s)
    else positive (magnitude (c ∷ s))

-- `std::stoi`: leading spaces and a sign are allowed, and what follows the digits is ignored.
unfoldable pub stoi : Bytes → Result ℤ
unfolding signed skip_spaces
stoi s = signed (skip_spaces s)

-- `std::from_chars` into an `int`: no spaces, no plus sign.
unfoldable pub from_chars : Bytes → Result ℤ
unfolding magnitude scan
from_chars [] = err (invalid_argument [])
from_chars (c ∷ s) = if c == b'-' then negative (magnitude s) else positive (magnitude (c ∷ s))
