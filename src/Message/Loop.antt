-- ===== src/Message/Loop.antt =====
-- The rounds of the decoding loop.
use crocofix.Base.{
  ℕ, zero, suc, ◌≡◌, ◌≢◌, refl, ap, length, ◌∙◌, true, false, [], ◌∷◌, ◌++◌, arith, ◌==◌,
}
use crocofix.Base.Bytes.{Bytes}
use crocofix.Base.Exec.{Error, ok, err}
use crocofix.Tags
use crocofix.Field.{Field, Fields}
use crocofix.Dictionary.{FieldTable}
use crocofix.Message.{Message}
use crocofix.Message.Decode.{
  Round, partial, failed, parsed, decode_field, decode_loop, Scanned, scanned, unended, decode,
  finish,
}

module _ (d : FieldTable) (fuel : ℕ) (fs : Fields) (s : Bytes) where
  -- What a round does with its result.
  abbrev after : Round → Scanned
  after partial = scanned fs s s (ok false)
  after (failed e) = scanned fs s s (err e)
  after (parsed f r) = elim (f.tag == Tags.check_sum) [
    | true ↦ scanned (fs ++ f ∷ []) r s (ok true)
    | false ↦ decode_loop fuel d (fs ++ f ∷ []) r
  ]

  after_lem : (x : Round) → decode_field d fs s ≡ x → decode_loop (suc fuel) d fs s ≡ after x
  unfolding decode_loop
  after_lem x e = rw (e, decode_loop) refl

  pub loop_partial :
      decode_field d fs s ≡ partial → decode_loop (suc fuel) d fs s ≡ scanned fs s s (ok false)
  loop_partial e = after_lem partial e

  pub loop_failed :
      (x : Error)
      → decode_field d fs s ≡ failed x
      → decode_loop (suc fuel) d fs s ≡ scanned fs s s (err x)
  loop_failed x e = after_lem (failed x) e

  pub loop_parsed :
      (f : Field) (r : Bytes)
      → decode_field d fs s ≡ parsed f r
      → f.tag ≢ Tags.check_sum
      → decode_loop (suc fuel) d fs s ≡ decode_loop fuel d (fs ++ f ∷ []) r
  loop_parsed f r e h = after_lem (parsed f r) e ∙ ground arith

  pub loop_complete :
      (f : Field) (r : Bytes)
      → decode_field d fs s ≡ parsed f r
      → f.tag ≡ Tags.check_sum
      → decode_loop (suc fuel) d fs s ≡ scanned (fs ++ f ∷ []) r s (ok true)
  loop_complete f r e h = after_lem (parsed f r) e ∙ ground arith

pub loop_spent : (d : FieldTable) (fs : Fields) (s : Bytes) → decode_loop zero d fs s ≡ unended fs s
unfolding decode_loop
loop_spent d fs s = refl

-- Decoding from where the loop stops.
pub decode_by :
    (d : FieldTable) (m : Message) (buffer : Bytes) (o : Scanned)
    → decode_loop (suc (length buffer)) d m.fields buffer ≡ o
    → decode d m buffer ≡ finish m buffer o o.complete
unfolding decode
decode_by d m buffer o e = ap (λ x. finish m buffer x x.complete) e
