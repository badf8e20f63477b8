-- ===== src/Message/Checksum.antt =====
-- The two ways in which the code sums bytes, and `number_of_digits`.
use crocofix.Base.{ℕ, ◌+◌, ◌*◌, ◌%◌, ◌≤◌, ◌<◌, ◌≡◌, ◌≢◌, [], ◌∷◌, ◌++◌, arith}
use crocofix.Base.Bytes.{Bytes, u32_mod}
use crocofix.Message.{sum_bytes, count_high, buffer_checksum, format_checksum}
use crocofix.Base.Exec.{ok}
use crocofix.Message.Decode.{narrowed}

-- Bytes of which the `int` sum of signed characters is not negative; ASCII text is one.
abbrev pub SumsUp : Bytes → Type 0
SumsUp s = 256 * count_high s ≤ sum_bytes s

-- If the sum of a buffer's signed characters is not negative, its checksum is the sum of its bytes modulo 256.
pub buffer_checksum_lem : (s : Bytes) → SumsUp s → buffer_checksum s ≡ sum_bytes s % 256
unfolding buffer_checksum
buffer_checksum_lem s h = ground arith

out_of_place :
    (s : Bytes) → sum_bytes s < 256 * count_high s → sum_bytes s % 256 ≢ 0 → 999 < buffer_checksum s
unfolding buffer_checksum
out_of_place s h k = ground arith

too_large : (n : ℕ) (t : Bytes) → 999 < n → format_checksum n ≢ ok t
unfolding format_checksum
too_large n t h = ground arith

-- Where the sum of the signed characters of a buffer is negative, and no multiple of 256, its checksum
-- cannot be formatted: `format_checksum` returns no text at all.
pub buffer_checksum-negative :
    (s t : Bytes)
    → sum_bytes s < 256 * count_high s
    → sum_bytes s % 256 ≢ 0
    → format_checksum (buffer_checksum s) ≢ ok t
buffer_checksum-negative s t h k = too_large (buffer_checksum s) t (out_of_place s h k)

-- The sum that decoding keeps in a `char` is right modulo 256.
pub narrowed-mod : (c n : ℕ) → (c + narrowed n) % u32_mod % 256 ≡ (c + n) % 256
unfolding narrowed
narrowed-mod c n = ground arith

pub sum_bytes-append : (s t : Bytes) → sum_bytes (s ++ t) ≡ sum_bytes s + sum_bytes t
unfolding sum_bytes
sum_bytes-append [] t = omega arith
sum_bytes-append (b ∷ s) t = omega (arith, sum_bytes-append s t)
