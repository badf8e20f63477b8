-- ===== src/Message/Wire.antt =====
-- One field on the wire: what the encoder writes, the decoder reads back.
use crocofix.Base.{
  ℕ, ◌+◌, ◌≤◌, ◌≡◌, ◌≢◌, refl, ◌∙◌, ap, sym, append-nil, false, none, some, [], ◌∷◌, ◌++◌,
  append_assoc, arith, leb, if◌then◌else◌, length, length-append, All,
}
use crocofix.Base.Bytes.{Bytes, pos, int_max, to_string, from_chars}
use crocofix.Base.Bytes.Decimal.{Digit, to_string-Digit, from_chars-to_string}
use crocofix.Base.Exec.{ok}
use crocofix.Field.{Field, Fields}
use crocofix.Dictionary.{FieldTable, OrchestrationField, definition}
use crocofix.Message.Decode.{value_separator, field_separator, cut, decode_field, parsed}
use crocofix.Message.Encode.{encode_field, write_field}

abbrev pub bytes_of : Field → Bytes
bytes_of f = to_string f.tag ++ value_separator ∷ (f.value ++ field_separator ∷ [])

pub length-bytes_of :
    (f : Field) → length (bytes_of f) ≡ length (to_string f.tag) + length f.value + 2
length-bytes_of f = omega (
  arith,
  length-append (to_string f.tag) (value_separator ∷ (f.value ++ field_separator ∷ [])),
  length-append f.value (field_separator ∷ []),
)

-- A field is written exactly if it fits the room that is left, and then whole.
pub encode_field_lem :
    (room : ℕ) (f : Field)
    → encode_field room f ≡ (if leb (length (bytes_of f)) room then some (bytes_of f) else none)
unfolding encode_field write_field
encode_field_lem room f = ground (arith, length-bytes_of f)

pub encode_fits :
    (room : ℕ) (f : Field) → length (bytes_of f) ≤ room → encode_field room f ≡ some (bytes_of f)
encode_fits room f h = encode_field_lem room f ∙ ground arith

-- No byte of a text is `c`.
abbrev pub Lacks : ℕ → Bytes → Type 0
Lacks c = All (λ b. b ≢ c)

pub cut-append : (c : ℕ) (s r : Bytes) → Lacks c s → cut c (s ++ c ∷ r) ≡ some (s, r)
unfolding cut
cut-append c [] r h = ground arith
cut-append c (b ∷ s) r h = ground (arith, cut-append c s r h.1)

digits-Lacks : (s : Bytes) → All Digit s → Lacks value_separator s
digits-Lacks [] h = tt
digits-Lacks (c ∷ s) h = ((λ e. omega (arith, h.0)), digits-Lacks s h.1)

-- A field that the decoder can take: its tag is an `int` that the dictionary defines, not as raw data,
-- and its value holds no separator.
pub record IsPlain (d : FieldTable) (f : Field) : Type 0 where
  pub small : f.tag ≤ int_max
  pub def : OrchestrationField
  pub defined : definition d f.tag ≡ ok def
  pub not_data : def.is_data ≡ false
  pub clean : Lacks field_separator f.value

tag_cut :
    (f : Field) (rest : Bytes)
    → cut value_separator (bytes_of f ++ rest)
      ≡ some (to_string f.tag, f.value ++ field_separator ∷ rest)
tag_cut f rest =
    rw (append_assoc, append_assoc)
      (cut-append value_separator (to_string f.tag) _ (digits-Lacks _ (to_string-Digit f.tag)))

tag_read : (n : ℕ) → n ≤ int_max → from_chars (to_string n) ≡ ok (pos n)
tag_read n h = ap from_chars (sym (append-nil (to_string n))) ∙ from_chars-to_string n [] h tt

-- The decoder reads back a field that was written.
pub decode_field-bytes_of :
    (d : FieldTable) (fs : Fields) (f : Field) (rest : Bytes)
    → IsPlain d f
    → decode_field d fs (bytes_of f ++ rest) ≡ parsed f rest
unfolding decode_field
decode_field-bytes_of d fs f rest h =
    rw (tag_cut f rest, decode_field)
      (rw (tag_read f.tag h.small)
        (rw h.defined (rw h.not_data (rw (cut-append field_separator f.value rest h.clean) refl))))

unfoldable pub wire : Fields → Bytes
wire [] = []
wire (f ∷ fs) = bytes_of f ++ wire fs

pub length-wire_cons :
    (f : Field) (fs : Fields) → length (wire (f ∷ fs)) ≡ length (bytes_of f) + length (wire fs)
unfolding wire
length-wire_cons f fs = length-append (bytes_of f) (wire fs)

pub wire-nil : wire [] ≡ []
unfolding wire
wire-nil = refl

pub wire-cons : (f : Field) (fs : Fields) → wire (f ∷ fs) ≡ bytes_of f ++ wire fs
unfolding wire
wire-cons f fs = refl
