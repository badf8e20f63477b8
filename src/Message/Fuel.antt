-- ===== src/Message/Fuel.antt =====
-- The decoding loop ends: each field that it takes makes the rest of the buffer shorter.
use crocofix.Base.{
  ℕ, zero, suc, true, ◌+◌, ◌<◌, ◌≡◌, refl, sym, subst, ◌∙◌, ap, [], ◌∷◌, ◌++◌, arith, ◌==◌, length,
  Bool-cases, inl, inr, ◌⊎◌, ◌≢◌,
}
use crocofix.Base.Bytes.{Bytes}
use crocofix.Tags
use crocofix.Field.{Field, Fields}
use crocofix.Dictionary.{FieldTable}
use crocofix.Message.Decode.{Round, partial, failed, parsed, decode_field, decode_loop, Scanned}
use crocofix.Message.Behind.{RoundBehind, decode_field-Behind}
use crocofix.Message.Loop.{loop_partial, loop_failed, loop_parsed, loop_complete}

pub parsed-shorter :
    (x : Round) (f : Field) (s r : Bytes) → x ≡ parsed f r → RoundBehind s x → length r < length s
parsed-shorter partial f s r e l = cc
parsed-shorter (failed y) f s r e l = cc
parsed-shorter (parsed g q) f s r e l =
    let k : RoundBehind s (parsed f r) = subst (λ (x : Round). RoundBehind s x) e l in k.shorter

pub same_or_not : (m n : ℕ) → (m ≡ n) ⊎ (m ≢ n)
same_or_not m n = elim (Bool-cases (m == n)) [
  | inl e ↦ inl (ground arith)
  | inr e ↦ inr (λ q. ground arith)
]

suc-plus : (m n : ℕ) → suc m + n ≡ suc (m + n)
suc-plus m n = omega arith

-- More fuel changes nothing.
pub decode_loop-enough :
    (fuel more : ℕ) (d : FieldTable) (fs : Fields) (s : Bytes)
    → length s < fuel
    → decode_loop (fuel + more) d fs s ≡ decode_loop fuel d fs s
decode_loop-enough zero more d fs s h = absurd (omega (arith, h))
decode_loop-enough (suc fuel) more d fs s h =
    ap (λ (n : ℕ). decode_loop n d fs s) (suc-plus fuel more)
    ∙ round (λ gs r l. decode_loop-enough fuel more d gs r l) (decode_field d fs s) refl
        (decode_field-Behind d fs s)
  where
    by_tag :
        (f : Field) (r : Bytes)
        → decode_field d fs s ≡ parsed f r
        → decode_loop (fuel + more) d (fs ++ f ∷ []) r ≡ decode_loop fuel d (fs ++ f ∷ []) r
        → (f.tag ≡ Tags.check_sum) ⊎ (f.tag ≢ Tags.check_sum)
        → decode_loop (suc (fuel + more)) d fs s ≡ decode_loop (suc fuel) d fs s
    by_tag f r e k (inl c) =
        loop_complete d (fuel + more) fs s f r e c ∙ sym (loop_complete d fuel fs s f r e c)
    by_tag f r e k (inr c) =
        loop_parsed d (fuel + more) fs s f r e c ∙ k ∙ sym (loop_parsed d fuel fs s f r e c)

    round :
        ((gs : Fields) (r : Bytes)
          → length r < fuel
          → decode_loop (fuel + more) d gs r ≡ decode_loop fuel d gs r)
        → (x : Round) → decode_field d fs s ≡ x
        → RoundBehind s (decode_field d fs s)
        → decode_loop (suc (fuel + more)) d fs s ≡ decode_loop (suc fuel) d fs s
    round again partial e l = loop_partial d (fuel + more) fs s e ∙ sym (loop_partial d fuel fs s e)
    round again (failed y) e l =
        loop_failed d (fuel + more) fs s y e ∙ sym (loop_failed d fuel fs s y e)
    round again (parsed f r) e l =
        by_tag f r e
          (again (fs ++ f ∷ []) r
            (omega (arith, h, parsed-shorter (decode_field d fs s) f s r e l)))
          (same_or_not f.tag Tags.check_sum)

ended-lem : {x y : Scanned} → x ≡ y → y.ended ≡ true → x.ended ≡ true
ended-lem e h = ap (λ (o : Scanned). o.ended) e ∙ h

decode_loop-ended :
    (fuel : ℕ) (d : FieldTable) (fs : Fields) (s : Bytes)
    → length s < fuel
    → (decode_loop fuel d fs s).ended ≡ true
decode_loop-ended zero d fs s h = absurd (omega (arith, h))
decode_loop-ended (suc fuel) d fs s h =
    round (λ gs r l. decode_loop-ended fuel d gs r l) (decode_field d fs s) refl
      (decode_field-Behind d fs s)
  where
    by_tag :
        (f : Field) (r : Bytes)
        → decode_field d fs s ≡ parsed f r
        → (decode_loop fuel d (fs ++ f ∷ []) r).ended ≡ true
        → (f.tag ≡ Tags.check_sum) ⊎ (f.tag ≢ Tags.check_sum)
        → (decode_loop (suc fuel) d fs s).ended ≡ true
    by_tag f r e k (inl c) = ended-lem (loop_complete d fuel fs s f r e c) refl
    by_tag f r e k (inr c) = ended-lem (loop_parsed d fuel fs s f r e c) k

    round :
        ((gs : Fields) (r : Bytes) → length r < fuel → (decode_loop fuel d gs r).ended ≡ true)
        → (x : Round) → decode_field d fs s ≡ x
        → RoundBehind s (decode_field d fs s)
        → (decode_loop (suc fuel) d fs s).ended ≡ true
    round again partial e l = ended-lem (loop_partial d fuel fs s e) refl
    round again (failed y) e l = ended-lem (loop_failed d fuel fs s y e) refl
    round again (parsed f r) e l =
        by_tag f r e
          (again (fs ++ f ∷ []) r
            (omega (arith, h, parsed-shorter (decode_field d fs s) f s r e l)))
          (same_or_not f.tag Tags.check_sum)

-- The loop ends by itself, at a `break`, an exception or the CheckSum field, before fuel past the length of
-- the buffer is spent, and any more fuel gives the same result.
pub decode_loop-ends :
    (fuel more : ℕ) (d : FieldTable) (fs : Fields) (s : Bytes)
    → length s < fuel
    → ((decode_loop fuel d fs s).ended ≡ true)
      × (decode_loop (fuel + more) d fs s ≡ decode_loop fuel d fs s)
decode_loop-ends fuel more d fs s h =
    (decode_loop-ended fuel d fs s h, decode_loop-enough fuel more d fs s h)
