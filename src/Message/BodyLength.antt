-- ===== src/Message/BodyLength.antt =====
-- The body length counts the bytes that the encoder writes between the BodyLength field and the
-- CheckSum field.
use crocofix.Base.{
  ℕ, zero, suc, ◌+◌, ◌/◌, ◌%◌, ◌≤◌, ◌<◌, ◌≡◌, ◌≢◌, refl, ◌∙◌, ap, [], ◌∷◌, ◌++◌, arith, ltb, leb,
  if◌then◌else◌, length, length-append, All, Bool-cases, inl, inr, true, false,
}
use crocofix.Base.Bytes.{u32_mod, digits, to_string}
use crocofix.Base.Bytes.Decimal.{pow10}
use crocofix.Tags
use crocofix.Field.{Field, Fields}
use crocofix.Message.{Message, number_of_digits, body_length_from, calculate_body_length}
use crocofix.Message.Wire.{length-bytes_of, wire, wire-nil, length-wire_cons}

-- How many powers of ten, from 10^1 up to 10^k, are at most `n`.
powers : ℕ → ℕ → ℕ
powers zero n = 0
powers (suc k) n = powers k n + (if leb (pow10 (suc k)) n then 1 else 0)

powers_small : (k n : ℕ) → n < 10 → powers k n ≡ 0
unfolding powers
powers_small zero n h = refl
powers_small (suc k) n h = ground (arith, powers_small k n h, pow10_pos k)
  where
    pow10_pos : (j : ℕ) → 1 ≤ pow10 j
    pow10_pos zero = omega arith
    pow10_pos (suc j) = omega (arith, pow10_pos j)

powers_large : (k n : ℕ) → 10 ≤ n → powers (suc k) n ≡ suc (powers k (n / 10))
unfolding powers
powers_large zero n h = ground arith
powers_large (suc k) n h = ground (arith, powers_large k n h)

length-digits : (f n : ℕ) → n < pow10 (suc f) → length (digits (suc f) n) ≡ 1 + powers f n
unfolding digits
length-digits zero n h = ground (arith, powers_small 0 n)
length-digits (suc f) n h = elim (Bool-cases (ltb n 10)) [
  | inl small ↦ rw small (ground (arith, powers_small (suc f) n))
  | inr large ↦ rw large (
      ground (
        arith,
        length-append (digits (suc f) (n / 10)) ((48 + n % 10) ∷ []),
        length-digits f (n / 10),
        powers_large f n,
      ))
]

-- `number_of_digits` counts the digits that `std::to_chars` writes, for every 64-bit number and more.
pub number_of_digits_lem : (n : ℕ) → n < pow10 20 → number_of_digits n ≡ length (to_string n)
unfolding number_of_digits to_string powers
number_of_digits_lem n h = omega (arith, length-digits 19 n h)

abbrev pub Untagged : ℕ → Fields → Type 0
Untagged t = All (λ f. f.tag ≢ t)

-- Tags that `to_string` writes whole.
abbrev pub SmallTags : Fields → Type 0
SmallTags = All (λ f. f.tag < pow10 20)

counted :
    (n : ℕ) (mid rest : Fields) (ck : Field)
    → Untagged Tags.check_sum mid
    → SmallTags mid
    → ck.tag ≡ Tags.check_sum
    → n + length (wire mid) < u32_mod
    → body_length_from true n (mid ++ ck ∷ rest) ≡ n + length (wire mid)
unfolding body_length_from
counted n [] rest ck h t e fits = ground (arith, ap (length {A = ℕ}) wire-nil)
counted n (f ∷ mid) rest ck h t e fits = ground (
  arith,
  length-wire_cons f mid,
  length-bytes_of f,
  number_of_digits_lem f.tag t.0,
  counted (n + number_of_digits f.tag + length f.value + 2) mid rest ck h.1 t.1,
  skip_mod (n + number_of_digits f.tag + length f.value + 2),
)
  where
    skip_mod : (k : ℕ) → k < u32_mod → k % u32_mod ≡ k
    skip_mod k lt = omega arith

uncounted :
    (gs rest : Fields) (bl : Field)
    → Untagged Tags.check_sum gs
    → Untagged Tags.body_length gs
    → bl.tag ≡ Tags.body_length
    → body_length_from false 0 (gs ++ bl ∷ rest) ≡ body_length_from true 0 rest
unfolding body_length_from
uncounted [] rest bl h k e = ground arith
uncounted (g ∷ gs) rest bl h k e = ground (arith, uncounted gs rest bl h.1 k.1 e)

-- The body length is the number of bytes written for the fields behind the first BodyLength and in
-- front of the first CheckSum, if the tags between them have at most 20 digits and that number fits a
-- `uint32_t`.
pub calculate_body_length_lem :
    (m : Message) (gs mid rest : Fields) (bl ck : Field)
    → m.fields ≡ gs ++ bl ∷ (mid ++ ck ∷ rest)
    → Untagged Tags.check_sum gs
    → Untagged Tags.body_length gs
    → bl.tag ≡ Tags.body_length
    → Untagged Tags.check_sum mid
    → SmallTags mid
    → ck.tag ≡ Tags.check_sum
    → length (wire mid) < u32_mod
    → calculate_body_length m ≡ length (wire mid)
unfolding calculate_body_length
calculate_body_length_lem m gs mid rest bl ck e h k b i t c fits =
    ap (body_length_from false 0) e
    ∙ uncounted gs (mid ++ ck ∷ rest) bl h k b
    ∙ counted 0 mid rest ck i t c (omega (arith, fits))
    ∙ omega arith
