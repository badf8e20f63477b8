-- ===== src/Fixsed/Endpoints.antt =====
-- What fixsed/options.cpp reads from its options.
use crocofix.Base.{ℕ, ◌≤◌, ◌≡◌, refl, sym, ap, ◌∙◌, some, [], ◌∷◌, ◌++◌, append-nil}
use crocofix.Base.Bytes.{Bytes, pos, to_string, stoi, int_max}
use crocofix.Base.Bytes.Decimal.{stoi-to_string}
use crocofix.Base.Exec.{ok, ◌>>=◌}
use crocofix.Message.Decode.{cut}
use crocofix.Message.Wire.{Lacks, cut-append}
use crocofix.Fixsed.{Options, bind_from, process_in, process_out, process_bind}

port_read : (p : ℕ) → p ≤ int_max → stoi (to_string p) ≡ ok (pos p)
port_read p h = ap stoi (sym (append-nil (to_string p))) ∙ stoi-to_string p [] h tt

module _ (host : Bytes) (p : ℕ) (o : Options) (h : Lacks b':' host) (small : p ≤ int_max) where
  abbrev pub endpoint : Bytes
  endpoint = host ++ b':' ∷ to_string p

  bind_endpoint :
      (s : Bytes) → s ≡ endpoint → process_bind s o ≡ bind_from endpoint (cut b':' endpoint) o
  unfolding process_bind
  bind_endpoint [] e = absurd (nothing host e)
    where
      nothing : (x : Bytes) → [] ≡ x ++ b':' ∷ to_string p → ⊥
      nothing [] q = cc q
      nothing (b ∷ x) q = cc q
  bind_endpoint (c ∷ s) e = ap (λ (x : Bytes). bind_from x (cut b':' x) o) e

  -- A host without a colon, a colon and a port written in decimal digits are read back by --in, --out and
  -- --bind: the two options of that endpoint become the host and the port, and the others stay.
  pub process-endpoint :
      (process_in endpoint o ≡ (ok tt, record o { in_host = some host; in_port = pos p }))
      × (process_out endpoint o ≡ (ok tt, record o { out_host = host; out_port = pos p }))
      × (process_bind endpoint o
          ≡ (ok tt, record o { bind_host = some host; bind_port = some (pos p) }))
  unfolding process_in process_out ◌>>=◌
  process-endpoint =
      let c : cut b':' endpoint ≡ some (host, to_string p) = cut-append b':' host (to_string p) h in
      let n : stoi (to_string p) ≡ ok (pos p) = port_read p small in
      (rw (c, n) refl, rw (c, n) refl, bind_endpoint endpoint refl ∙ rw (c, n) refl)
