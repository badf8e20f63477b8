-- ===== src/Message/Scan.antt =====
-- The decoding loop over a buffer that arrives in two pieces.
use crocofix.Base.{
  ℕ, zero, suc, ◌+◌, ◌-◌, ◌<◌, ◌≡◌, ◌≢◌, refl, subst, ap, ◌∙◌, Bool, true, false, [], ◌∷◌, ◌++◌,
  arith, length, length-append, ◌⊎◌, inl, inr,
}
use crocofix.Base.Bytes.{Bytes}
use crocofix.Base.Exec.{Result, ok, err}
use crocofix.Tags
use crocofix.Field.{Field, Fields}
use crocofix.Dictionary.{FieldTable}
use crocofix.Message.Decode.{
  Round, partial, failed, parsed, decode_field, decode_loop, Scanned, scanned,
}
use crocofix.Message.Loop.{loop_partial, loop_failed, loop_parsed, loop_complete}
use crocofix.Message.Fuel.{decode_loop-enough, parsed-shorter, same_or_not}
use crocofix.Message.Behind.{RoundBehind, decode_field-Behind}
use crocofix.Message.Split.{RoundBy, decode_field-RoundBy}

-- The loop with fuel enough.
abbrev pub scan : FieldTable → Fields → Bytes → Scanned
scan d fs s = decode_loop (suc (length s)) d fs s

pub scan_by :
    (n : ℕ) (d : FieldTable) (fs : Fields) (s : Bytes)
    → length s < n
    → decode_loop n d fs s ≡ scan d fs s
scan_by n d fs s h =
    ap (λ (k : ℕ). decode_loop k d fs s) (spare n (length s) h)
    ∙ decode_loop-enough (suc (length s)) (n - suc (length s)) d fs s (omega arith)
  where
    spare : (a b : ℕ) → b < a → a ≡ suc b + (a - suc b)
    spare a b q = omega (arith, q)

-- With `t` behind it, a loop that came to its end stays as it is.
abbrev pub extended : Bytes → Scanned → Scanned
extended t o = scanned o.fields (o.rest ++ t) (o.unsummed ++ t) o.complete

-- A loop that ran out of bytes goes on.
abbrev pub Continues : FieldTable → Bytes → Scanned → Scanned → Result Bool → Type 0
Continues d t o y (ok false) = y ≡ scan d o.fields (o.rest ++ t)
Continues d t o y (ok true) = y ≡ extended t o
Continues d t o y (err e) = y ≡ extended t o

module _ (d : FieldTable) (t : Bytes) where
  abbrev Goes : Scanned → Scanned → Type 0
  Goes o y = Continues d t o y o.complete

  loop-append :
      (n : ℕ) (fs : Fields) (s : Bytes)
      → length s < n
      → Goes (decode_loop n d fs s) (scan d fs (s ++ t))
  loop-append zero fs s h = absurd (omega (arith, h))
  loop-append (suc n) fs s h =
      by_round (λ gs r l. loop-append n gs r l) (decode_field d fs s) refl
        (decode_field-Behind d fs s) (decode_field-RoundBy t d fs s)
    where
      by_tag :
          (f : Field) (r : Bytes)
          → decode_field d fs s ≡ parsed f r
          → decode_field d fs (s ++ t) ≡ parsed f (r ++ t)
          → length r < length s
          → Goes (decode_loop n d (fs ++ f ∷ []) r) (scan d (fs ++ f ∷ []) (r ++ t))
          → (f.tag ≡ Tags.check_sum) ⊎ (f.tag ≢ Tags.check_sum)
          → Goes (decode_loop (suc n) d fs s) (scan d fs (s ++ t))
      by_tag f r e q l k (inl c) =
          rw (loop_complete d n fs s f r e c)
            (loop_complete d (length (s ++ t)) fs (s ++ t) f (r ++ t) q c)
      by_tag f r e q l k (inr c) =
          rw
            (
              loop_parsed d n fs s f r e c,
              loop_parsed d (length (s ++ t)) fs (s ++ t) f (r ++ t) q c,
            )
            (rw
              (scan_by (length (s ++ t)) d (fs ++ f ∷ []) (r ++ t)
                (omega (arith, l, length-append s t, length-append r t)))
              k)

      by_round :
          ((gs : Fields) (r : Bytes)
            → length r < n
            → Goes (decode_loop n d gs r) (scan d gs (r ++ t)))
          → (x : Round) → decode_field d fs s ≡ x
          → RoundBehind s (decode_field d fs s)
          → RoundBy t (decode_field d fs s) (decode_field d fs (s ++ t))
          → Goes (decode_loop (suc n) d fs s) (scan d fs (s ++ t))
      by_round again partial e l q = rw (loop_partial d n fs s e) refl
      by_round again (failed y) e l q = rw (loop_failed d n fs s y e) (
          loop_failed d (length (s ++ t)) fs (s ++ t) y
            (subst (λ (x : Round). RoundBy t x (decode_field d fs (s ++ t))) e q))
      by_round again (parsed f r) e l q =
          let shorter : length r < length s = parsed-shorter (decode_field d fs s) f s r e l in
          by_tag f r e (subst (λ (x : Round). RoundBy t x (decode_field d fs (s ++ t))) e q) shorter
            (again (fs ++ f ∷ []) r (omega (arith, shorter, h))) (same_or_not f.tag Tags.check_sum)

  -- The loop over two pieces.
  pub scan-append : (fs : Fields) (s : Bytes) → Goes (scan d fs s) (scan d fs (s ++ t))
  scan-append fs s = loop-append (suc (length s)) fs s (omega arith)
