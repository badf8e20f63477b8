-- ===== src/Message/Split.antt =====
-- Decoding a buffer with more bytes behind it.
use crocofix.Base.{
  ℕ, zero, suc, ◌≡◌, refl, Bool, true, false, Option, none, some, [], ◌∷◌, ◌++◌, ◌==◌,
  if◌then◌else◌,
}
use crocofix.Base.Bytes.{Bytes, ℤ, pos, negsuc, from_chars, stoi}
use crocofix.Base.Exec.{Error, Result, ok, err}
use crocofix.Field.{Fields, field}
use crocofix.Dictionary.{FieldTable, OrchestrationField, definition}
use crocofix.Message.Decode.{
  Round, partial, failed, parsed, cut, split_at, prepend, prepend_split, field_separator,
  value_separator, last_value, checked_data, data_of_length, data_field, plain_field, defined_field,
  tagged_field, keyed_field, decode_field,
}

module _ (t : Bytes) where
  -- What a search or a round that did not run out of bytes becomes with `t` behind them.
  abbrev FoundBy : Option (Bytes × Bytes) → Option (Bytes × Bytes) → Type 0
  FoundBy none o = Unit
  FoundBy (some (p, r)) o = o ≡ some (p, r ++ t)

  abbrev SplitBy : Option (Bytes × ℕ × Bytes) → Option (Bytes × ℕ × Bytes) → Type 0
  SplitBy none o = Unit
  SplitBy (some (p, c, r)) o = o ≡ some (p, c, r ++ t)

  abbrev pub RoundBy : Round → Round → Type 0
  RoundBy partial y = Unit
  RoundBy (failed e) y = y ≡ failed e
  RoundBy (parsed f r) y = y ≡ parsed f (r ++ t)

  prepend-FoundBy :
      (b : ℕ) (o q : Option (Bytes × Bytes)) → FoundBy o q → FoundBy (prepend b o) (prepend b q)
  prepend-FoundBy b none q h = tt
  prepend-FoundBy b (some (p, r)) q h = rw h

  prepend-SplitBy :
      (b : ℕ) (o q : Option (Bytes × ℕ × Bytes))
      → SplitBy o q
      → SplitBy (prepend_split b o) (prepend_split b q)
  prepend-SplitBy b none q h = tt
  prepend-SplitBy b (some (p, c, r)) q h = rw h

  cut-FoundBy : (c : ℕ) (s : Bytes) → FoundBy (cut c s) (cut c (s ++ t))
  unfolding cut
  cut-FoundBy c [] = tt
  cut-FoundBy c (b ∷ s) =
      at_byte (b == c) (prepend-FoundBy b (cut c s) (cut c (s ++ t)) (cut-FoundBy c s))
    where
      at_byte :
          (e : Bool)
          → FoundBy (prepend b (cut c s)) (prepend b (cut c (s ++ t)))
          → FoundBy
              (if e then some ([], s) else prepend b (cut c s))
              (if e then some ([], s ++ t) else prepend b (cut c (s ++ t)))
      at_byte true h = refl
      at_byte false h = h

  split_at-SplitBy : (n : ℕ) (s : Bytes) → SplitBy (split_at n s) (split_at n (s ++ t))
  unfolding split_at
  split_at-SplitBy n [] = tt
  split_at-SplitBy zero (b ∷ s) = refl
  split_at-SplitBy (suc n) (b ∷ s) = prepend-SplitBy b _ _ (split_at-SplitBy n s)

  plain_field-RoundBy :
      (k : ℕ) (o q : Option (Bytes × Bytes))
      → FoundBy o q
      → RoundBy (plain_field k o) (plain_field k q)
  plain_field-RoundBy k none q h = tt
  plain_field-RoundBy k (some (v, r)) q h = rw h

  checked_data-RoundBy :
      (k : ℕ) (o q : Option (Bytes × ℕ × Bytes))
      → SplitBy o q
      → RoundBy (checked_data k o) (checked_data k q)
  checked_data-RoundBy k none q h = tt
  checked_data-RoundBy k (some (v, c, r)) q h = rw h (closed (c == field_separator) _)
    where
      closed :
          (b : Bool) (e : Error)
          → RoundBy
              (if b then parsed (field k v) r else failed e)
              (if b then parsed (field k v) (r ++ t) else failed e)
      closed true e = refl
      closed false e = refl

  data_of_length-RoundBy :
      (k : ℕ) (key s : Bytes) (z : Result ℤ)
      → RoundBy (data_of_length k key s z) (data_of_length k key (s ++ t) z)
  data_of_length-RoundBy k key s (err e) = refl
  data_of_length-RoundBy k key s (ok (negsuc n)) = refl
  data_of_length-RoundBy k key s (ok (pos n)) = checked_data-RoundBy k _ _ (split_at-SplitBy n s)

  data_field-RoundBy :
      (k : ℕ) (key s : Bytes) (o : Option Bytes)
      → RoundBy (data_field k key s o) (data_field k key (s ++ t) o)
  data_field-RoundBy k key s none = refl
  data_field-RoundBy k key s (some v) = data_of_length-RoundBy k key s (stoi v)

  defined_field-RoundBy :
      (k : ℕ) (fs : Fields) (key s : Bytes) (r : Result OrchestrationField)
      → RoundBy (defined_field k fs key s r) (defined_field k fs key (s ++ t) r)
  defined_field-RoundBy k fs key s (err e) = refl
  defined_field-RoundBy k fs key s (ok def) = of_kind def.is_data
    where
      of_kind :
          (b : Bool)
          → RoundBy
              (if b
                then data_field k key s (last_value fs)
                else plain_field k (cut field_separator s))
              (if b
                then data_field k key (s ++ t) (last_value fs)
                else plain_field k (cut field_separator (s ++ t)))
      of_kind true = data_field-RoundBy k key s (last_value fs)
      of_kind false = plain_field-RoundBy k _ _ (cut-FoundBy field_separator s)

  tagged_field-RoundBy :
      (d : FieldTable) (fs : Fields) (key s : Bytes) (z : Result ℤ)
      → RoundBy (tagged_field d fs key s z) (tagged_field d fs key (s ++ t) z)
  tagged_field-RoundBy d fs key s (err e) = refl
  tagged_field-RoundBy d fs key s (ok (negsuc n)) = refl
  tagged_field-RoundBy d fs key s (ok (pos k)) = defined_field-RoundBy k fs key s (definition d k)

  keyed_field-RoundBy :
      (d : FieldTable) (fs : Fields) (o q : Option (Bytes × Bytes))
      → FoundBy o q
      → RoundBy (keyed_field d fs o) (keyed_field d fs q)
  keyed_field-RoundBy d fs none q h = tt
  keyed_field-RoundBy d fs (some (key, s)) q h =
      rw h (tagged_field-RoundBy d fs key s (from_chars key))

  -- A round that found a field or failed does the same with more bytes behind it.
  pub decode_field-RoundBy :
      (d : FieldTable) (fs : Fields) (s : Bytes)
      → RoundBy (decode_field d fs s) (decode_field d fs (s ++ t))
  unfolding decode_field
  decode_field-RoundBy d fs s = keyed_field-RoundBy d fs _ _ (cut-FoundBy value_separator s)
