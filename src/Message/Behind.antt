-- ===== src/Message/Behind.antt =====
-- What a round of the decoding loop leaves of the buffer is an end of it, and shorter.
use crocofix.Base.{
  ℕ, zero, suc, ◌<◌, ◌≡◌, refl, sym, ap, ◌∙◌, Bool, true, false, Option, none, some, [], ◌∷◌, ◌++◌,
  append_assoc, arith, ◌==◌, if◌then◌else◌, length,
}
use crocofix.Base.Bytes.{Bytes, ℤ, pos, negsuc, from_chars, stoi}
use crocofix.Base.Exec.{Error, Result, ok, err}
use crocofix.Field.{Fields, field}
use crocofix.Dictionary.{FieldTable, OrchestrationField, definition}
use crocofix.Message.Decode.{
  Round, partial, failed, parsed, cut, split_at, prepend, prepend_split, field_separator,
  value_separator, last_value, checked_data, data_of_length, data_field, plain_field, defined_field,
  tagged_field, keyed_field, decode_field,
}

-- `r` stands behind some of the bytes of `s`.
pub record Behind (s r : Bytes) : Type 0 where
  pub front : Bytes
  pub whole : s ≡ front ++ r
  pub shorter : length r < length s

Behind-one : (b : ℕ) (s : Bytes) → Behind (b ∷ s) s
Behind-one b s = record { front = b ∷ []; whole = refl; shorter = omega arith }

Behind-cons : (b : ℕ) (s r : Bytes) → Behind s r → Behind (b ∷ s) r
Behind-cons b s r h = record {
  front = b ∷ h.front;
  whole = ap (λ (x : Bytes). b ∷ x) h.whole;
  shorter = omega (arith, h.shorter);
}

Behind-trans : (s r q : Bytes) → Behind s r → Behind r q → Behind s q
Behind-trans s r q h k = record {
  front = h.front ++ k.front;
  whole = h.whole ∙ ap (◌++◌ h.front) k.whole ∙ sym (append_assoc h.front k.front q);
  shorter = omega (arith, h.shorter, k.shorter);
}

abbrev CutBehind : Bytes → Option (Bytes × Bytes) → Type 0
CutBehind s none = Unit
CutBehind s (some (p, r)) = Behind s r

abbrev SplitBehind : Bytes → Option (Bytes × ℕ × Bytes) → Type 0
SplitBehind s none = Unit
SplitBehind s (some (p, c, r)) = Behind s r

abbrev pub RoundBehind : Bytes → Round → Type 0
RoundBehind s partial = Unit
RoundBehind s (failed e) = Unit
RoundBehind s (parsed f r) = Behind s r

cut-Behind : (c : ℕ) (s : Bytes) → CutBehind s (cut c s)
unfolding cut
cut-Behind c [] = tt
cut-Behind c (b ∷ s) = at_byte (b == c) (later (cut c s) (cut-Behind c s))
  where
    later : (o : Option (Bytes × Bytes)) → CutBehind s o → CutBehind (b ∷ s) (prepend b o)
    later none h = tt
    later (some (p, r)) h = Behind-cons b s r h

    at_byte :
        (e : Bool)
        → CutBehind (b ∷ s) (prepend b (cut c s))
        → CutBehind (b ∷ s) (if e then some ([], s) else prepend b (cut c s))
    at_byte true h = Behind-one b s
    at_byte false h = h

split_at-Behind : (n : ℕ) (s : Bytes) → SplitBehind s (split_at n s)
unfolding split_at
split_at-Behind n [] = tt
split_at-Behind zero (b ∷ s) = Behind-one b s
split_at-Behind (suc n) (b ∷ s) = later (split_at n s) (split_at-Behind n s)
  where
    later :
        (o : Option (Bytes × ℕ × Bytes)) → SplitBehind s o → SplitBehind (b ∷ s) (prepend_split b o)
    later none h = tt
    later (some (p, c, r)) h = Behind-cons b s r h

plain_field-Behind :
    (k : ℕ) (s : Bytes) (o : Option (Bytes × Bytes))
    → CutBehind s o
    → RoundBehind s (plain_field k o)
plain_field-Behind k s none h = tt
plain_field-Behind k s (some (v, r)) h = h

checked_data-Behind :
    (k : ℕ) (s : Bytes) (o : Option (Bytes × ℕ × Bytes))
    → SplitBehind s o
    → RoundBehind s (checked_data k o)
checked_data-Behind k s none h = tt
checked_data-Behind k s (some (v, c, r)) h = closed (c == field_separator) _
  where
    closed : (b : Bool) (e : Error) → RoundBehind s (if b then parsed (field k v) r else failed e)
    closed true e = h
    closed false e = tt

data_of_length-Behind :
    (k : ℕ) (key s : Bytes) (z : Result ℤ) → RoundBehind s (data_of_length k key s z)
data_of_length-Behind k key s (err e) = tt
data_of_length-Behind k key s (ok (negsuc n)) = tt
data_of_length-Behind k key s (ok (pos n)) = checked_data-Behind k s _ (split_at-Behind n s)

data_field-Behind :
    (k : ℕ) (key s : Bytes) (o : Option Bytes) → RoundBehind s (data_field k key s o)
data_field-Behind k key s none = tt
data_field-Behind k key s (some v) = data_of_length-Behind k key s (stoi v)

defined_field-Behind :
    (k : ℕ) (fs : Fields) (key s : Bytes) (r : Result OrchestrationField)
    → RoundBehind s (defined_field k fs key s r)
defined_field-Behind k fs key s (err e) = tt
defined_field-Behind k fs key s (ok def) = of_kind def.is_data
  where
    of_kind :
        (b : Bool)
        → RoundBehind s (
            if b then data_field k key s (last_value fs) else plain_field k (cut field_separator s))
    of_kind true = data_field-Behind k key s (last_value fs)
    of_kind false = plain_field-Behind k s _ (cut-Behind field_separator s)

tagged_field-Behind :
    (d : FieldTable) (fs : Fields) (key s : Bytes) (z : Result ℤ)
    → RoundBehind s (tagged_field d fs key s z)
tagged_field-Behind d fs key s (err e) = tt
tagged_field-Behind d fs key s (ok (negsuc n)) = tt
tagged_field-Behind d fs key s (ok (pos k)) = defined_field-Behind k fs key s (definition d k)

wider : (s r : Bytes) (x : Round) → Behind s r → RoundBehind r x → RoundBehind s x
wider s r partial h k = tt
wider s r (failed e) h k = tt
wider s r (parsed f q) h k = Behind-trans s r q h k

keyed_field-Behind :
    (d : FieldTable) (fs : Fields) (s : Bytes) (o : Option (Bytes × Bytes))
    → CutBehind s o
    → RoundBehind s (keyed_field d fs o)
keyed_field-Behind d fs s none h = tt
keyed_field-Behind d fs s (some (key, r)) h =
    wider s r _ h (tagged_field-Behind d fs key r (from_chars key))

pub decode_field-Behind :
    (d : FieldTable) (fs : Fields) (s : Bytes) → RoundBehind s (decode_field d fs s)
unfolding decode_field
decode_field-Behind d fs s = keyed_field-Behind d fs s _ (cut-Behind value_separator s)
