-- ===== src/Base/Bytes/Decimal.antt =====
-- Printing a number and reading it back.
use Prim.Native.Nat.{ℕ, zero, suc, ◌+◌, ◌-◌, ◌*◌, ◌/◌, ◌≤◌, ◌<◌}
use mathlib.Core.Path.{◌≡◌, refl, ap, ◌∙◌}
use mathlib.Core.Logic.{◌⊎◌, inl, inr}
use mathlib.Core.List.{[], ◌∷◌, ◌++◌}
use mathlib.Core.Option.{some}
use native.Mathlib.Omega.{arith}
use crocofix.Base.Tests.{ltb, Bool-cases}
use crocofix.Base.Lists.{All, All-append}
use crocofix.Base.Exec.{ok}
use crocofix.Base.Bytes.{Bytes, pos, digits, to_string, scan, magnitude, stoi, from_chars, int_max}

abbrev pub Digit : ℕ → Type 0
Digit c = (b'0' ≤ c) × (c ≤ b'9')

-- The number that a run of digits appends to `n`.
abbrev value : Bytes → ℕ → ℕ
value [] n = n
value (c ∷ s) n = value s (n * 10 + (c - b'0'))

value-append : (s t : Bytes) (n : ℕ) → value (s ++ t) n ≡ value t (value s n)
value-append [] t n = refl
value-append (c ∷ s) t n = value-append s t (n * 10 + (c - b'0'))

-- A text that no digit begins.
abbrev pub Stops : Bytes → Type 0
Stops [] = Unit {0}
Stops (c ∷ s) = (c < b'0') ⊎ (b'9' < c)

scan-append : (s rest : Bytes) (n : ℕ) → All Digit s → Stops rest → scan (s ++ rest) n ≡ value s n
unfolding scan
scan-append [] [] n h stop = refl
scan-append [] (c ∷ rest) n h stop = ground arith
scan-append (c ∷ s) rest n h stop =
    ground (arith, scan-append s rest (n * 10 + (c - b'0')) h.1 stop)

abbrev pub pow10 : ℕ → ℕ
pow10 zero = 1
pow10 (suc f) = 10 * pow10 f

digits-Digit : (f n : ℕ) → All Digit (digits f n)
unfolding digits
digits-Digit zero n = tt
digits-Digit (suc f) n = elim (Bool-cases (ltb n 10)) [
  | inl small ↦ rw small (ground arith)
  | inr large ↦
      rw large (All-append Digit (digits f (n / 10)) _ (digits-Digit f (n / 10)) (omega arith))
]

pub to_string-Digit : (n : ℕ) → All Digit (to_string n)
unfolding to_string
to_string-Digit n = digits-Digit 20 n

value-digits : (f n : ℕ) → n < pow10 f → value (digits f n) 0 ≡ n
unfolding digits
value-digits zero n h = omega arith
value-digits (suc f) n h = elim (Bool-cases (ltb n 10)) [
  | inl small ↦ rw small (omega arith)
  | inr large ↦
      rw (large, value-append (digits f (n / 10)) _ 0)
        (omega (arith, value-digits f (n / 10) (omega arith)))
]

-- A run of digits has one.
Starts : Bytes → Type 0
Starts [] = ⊥
Starts (c ∷ s) = Digit c

append-Starts : (s t : Bytes) → Starts s → Starts (s ++ t)
unfolding Starts
append-Starts [] t h = absurd h
append-Starts (c ∷ s) t h = h

digits-Starts : (f n : ℕ) → Starts (digits (suc f) n)
unfolding digits Starts
digits-Starts zero n = ground arith
digits-Starts (suc f) n = elim (Bool-cases (ltb n 10)) [
  | inl small ↦ rw small (ground arith)
  | inr large ↦ rw large (append-Starts (digits (suc f) (n / 10)) _ (digits-Starts f (n / 10)))
]

magnitude-Starts :
    (s rest : Bytes)
    → Starts s
    → All Digit s
    → Stops rest
    → magnitude (s ++ rest) ≡ some (value s 0)
unfolding magnitude Starts
magnitude-Starts [] rest h d stop = absurd h
magnitude-Starts (c ∷ s) rest h d stop = ground (arith, scan-append (c ∷ s) rest 0 d stop)

pub magnitude-to_string :
    (n : ℕ) (rest : Bytes) → n < pow10 20 → Stops rest → magnitude (to_string n ++ rest) ≡ some n
unfolding to_string
magnitude-to_string n rest h stop =
    magnitude-Starts (digits 20 n) rest (digits-Starts 19 n) (digits-Digit 20 n) stop
    ∙ ap some (value-digits 20 n h)

from_chars-Starts :
    (s rest : Bytes) (n : ℕ)
    → Starts s
    → n ≤ int_max
    → magnitude (s ++ rest) ≡ some n
    → from_chars (s ++ rest) ≡ ok (pos n)
unfolding Starts from_chars
from_chars-Starts [] rest n h small m = absurd h
from_chars-Starts (c ∷ s) rest n h small m = ground arith

-- `std::from_chars` reads back what `std::to_chars` wrote.
pub from_chars-to_string :
    (n : ℕ) (rest : Bytes)
    → n ≤ int_max
    → Stops rest
    → from_chars (to_string n ++ rest) ≡ ok (pos n)
unfolding to_string
from_chars-to_string n rest small stop =
    from_chars-Starts (digits 20 n) rest n (digits-Starts 19 n) small
      (unfold to_string in magnitude-to_string n rest (omega arith) stop)

stoi-Starts :
    (s rest : Bytes) (n : ℕ)
    → Starts s
    → n ≤ int_max
    → magnitude (s ++ rest) ≡ some n
    → stoi (s ++ rest) ≡ ok (pos n)
unfolding Starts stoi
stoi-Starts [] rest n h small m = absurd h
stoi-Starts (c ∷ s) rest n h small m = ground arith

-- `std::stoi` reads back what `std::to_string` wrote, if the number fits an `int`.
pub stoi-to_string :
    (n : ℕ) (rest : Bytes) → n ≤ int_max → Stops rest → stoi (to_string n ++ rest) ≡ ok (pos n)
unfolding to_string
stoi-to_string n rest small stop =
    stoi-Starts (digits 20 n) rest n (digits-Starts 19 n) small
      (unfold to_string in magnitude-to_string n rest (omega arith) stop)
