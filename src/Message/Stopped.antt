-- ===== src/Message/Stopped.antt =====
-- Where the decoding loop stops.
use crocofix.Base.{
  length, ◌<◌, ◌≤◌, arith, ℕ, zero, suc, ◌≡◌, ◌≢◌, refl, subst, sym, ap, ◌∙◌, Bool, true, false, [],
  ◌∷◌, ◌++◌, append_assoc, ◌⊎◌, inl, inr,
}
use crocofix.Base.Bytes.{Bytes}
use crocofix.Base.Exec.{Result, ok, err}
use crocofix.Tags
use crocofix.Field.{Field, Fields}
use crocofix.Dictionary.{FieldTable}
use crocofix.Message.{Message}
use crocofix.Message.Decode.{
  Round, partial, failed, parsed, decode_field, decode_loop, Scanned, DecodeResult, decode, finish,
}
use crocofix.Message.Loop.{
  decode_by, loop_spent, loop_partial, loop_failed, loop_parsed, loop_complete,
}
use crocofix.Message.Fuel.{same_or_not}
use crocofix.Message.Behind.{Behind, RoundBehind, decode_field-Behind}

pub record Suffix (s r : Bytes) : Type 0 where
  pub front : Bytes
  pub whole : s ≡ front ++ r

Suffix-refl : (s : Bytes) → Suffix s s
Suffix-refl s = record { front = []; whole = refl }

Behind-Suffix : (s r q : Bytes) → Behind s r → Suffix r q → Suffix s q
Behind-Suffix s r q h k = record {
  front = h.front ++ k.front;
  whole = h.whole ∙ ap (◌++◌ h.front) k.whole ∙ sym (append_assoc h.front k.front q);
}

-- Where the loop stopped: the bytes that are not summed are an end of the buffer, those that are left
-- are an end of these, and where the loop ran out of bytes the two are the same. A message that is
-- complete took bytes.
abbrev pub Waits : Bytes → Scanned → Result Bool → Type 0
Waits s o (ok false) = o.unsummed ≡ o.rest
Waits s o (ok true) = length o.rest < length s
Waits s o (err e) = Unit

pub record Stopped (s : Bytes) (o : Scanned) : Type 0 where
  pub unsummed : Suffix s o.unsummed
  pub rest : Suffix s o.rest
  pub waits : Waits s o o.complete

Waits-Behind :
    (s r : Bytes) (o : Scanned) (c : Result Bool) → length r < length s → Waits r o c → Waits s o c
Waits-Behind s r o (ok false) l h = h
Waits-Behind s r o (ok true) l h = omega (arith, l, h)
Waits-Behind s r o (err e) l h = tt

pub loop-Stopped :
    (n : ℕ) (d : FieldTable) (fs : Fields) (s : Bytes) → Stopped s (decode_loop n d fs s)
loop-Stopped zero d fs s =
    rw (loop_spent d fs s) (record { unsummed = Suffix-refl s; rest = Suffix-refl s; waits = refl })
loop-Stopped (suc n) d fs s =
    by_round (λ gs r. loop-Stopped n d gs r) (decode_field d fs s) refl (decode_field-Behind d fs s)
  where
    by_tag :
        (f : Field) (r : Bytes)
        → decode_field d fs s ≡ parsed f r
        → Behind s r
        → Stopped r (decode_loop n d (fs ++ f ∷ []) r)
        → (f.tag ≡ Tags.check_sum) ⊎ (f.tag ≢ Tags.check_sum)
        → Stopped s (decode_loop (suc n) d fs s)
    by_tag f r e h k (inl c) = rw (loop_complete d n fs s f r e c) (record {
      unsummed = Suffix-refl s;
      rest = Behind-Suffix s r r h (Suffix-refl r);
      waits = h.shorter;
    })
    by_tag f r e h k (inr c) = rw (loop_parsed d n fs s f r e c) (record {
      unsummed = Behind-Suffix s r _ h k.unsummed;
      rest = Behind-Suffix s r _ h k.rest;
      waits =
          (let o = decode_loop n d (fs ++ f ∷ []) r in
            Waits-Behind s r o o.complete h.shorter k.waits);
    })

    by_round :
        ((gs : Fields) (r : Bytes) → Stopped r (decode_loop n d gs r))
        → (x : Round) → decode_field d fs s ≡ x
        → RoundBehind s (decode_field d fs s)
        → Stopped s (decode_loop (suc n) d fs s)
    by_round again partial e h =
        rw (loop_partial d n fs s e)
          (record { unsummed = Suffix-refl s; rest = Suffix-refl s; waits = refl })
    by_round again (failed y) e h =
        rw (loop_failed d n fs s y e)
          (record { unsummed = Suffix-refl s; rest = Suffix-refl s; waits = tt })
    by_round again (parsed f r) e h =
        by_tag f r e (subst (λ (x : Round). RoundBehind s x) e h) (again (fs ++ f ∷ []) r)
          (same_or_not f.tag Tags.check_sum)

abbrev pub Taken : ℕ → Bool → Type 0
Taken n true = 1 ≤ n
Taken n false = Unit

-- A call consumes no more than the buffer, and one that completes a message at least a byte.
abbrev pub Consumes : Bytes → Result DecodeResult × Message → Type 0
Consumes s (err e, m) = Unit
Consumes s (ok x, m) = Taken x.consumed x.complete × (x.consumed ≤ length s)

pub decode-Consumes : (d : FieldTable) (m : Message) (s : Bytes) → Consumes s (decode d m s)
decode-Consumes d m s =
    let o = decode_loop (suc (length s)) d m.fields s in
    rw (decode_by d m s o refl)
      (used o o.complete (loop-Stopped (suc (length s)) d m.fields s).waits)
  where
    used : (o : Scanned) (r : Result Bool) → Waits s o r → Consumes s (finish m s o r)
    used o (err e) h = tt
    used o (ok true) h = (omega (arith, h), omega arith)
    used o (ok false) h = (tt, omega arith)
