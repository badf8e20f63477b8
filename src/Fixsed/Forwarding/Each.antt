-- ===== src/Fixsed/Forwarding/Each.antt =====
-- What the proxy of fixsed/pipeline.cpp makes of the messages that one reader dispatches.
use crocofix.Base.{
  ℕ, ◌≡◌, refl, sym, ap, subst, List, [], ◌∷◌, ◌++◌, ◌<◌, append_assoc, append-nil, length,
}
use crocofix.Base.Bytes.{Bytes}
use crocofix.Base.Exec.{Error, Result, ok, err}
use crocofix.Message.{Message, standard}
use crocofix.Message.Encode.{encode}
use crocofix.SocketWriter.{SocketWriter, Written, write}
use crocofix.SocketWriter.Order.{accepted, IsValid, WriteEnd, write-WriteEnd}
use crocofix.Fixsed.{Options}
use crocofix.Fixsed.Pipeline.{
  Proxy, Side, log_message, send_on, after_script, run_script, given, Outcome, process_message,
  process_message-Outcome,
}
use crocofix.Fixsed.Run.{next_message, process_each}

-- The bytes that go on for the messages of one side: of each that the script accepts, what `encode` writes of
-- the message as the script left it, and never nothing, which is what `encode` writes where the room is too
-- small; of the others nothing.
pub data Forwards (p : Proxy) : List Message → Bytes → Type 0 where
  nothing : Forwards p [] []
  accepts :
      {ms : List Message} {s : Bytes} (m : Message) (capacity : ℕ) (b : Bytes)
      → Forwards p ms s
      → (p.function m).0 ≡ ok tt
      → (encode (p.function m).1 capacity standard).0 ≡ ok b
      → 0 < length b
      → Forwards p (ms ++ m ∷ []) (s ++ b)
  refuses :
      {ms : List Message} {s : Bytes} (m : Message) (e : Error)
      → Forwards p ms s
      → (p.function m).0 ≡ err e
      → Forwards p (ms ++ m ∷ []) s

write-IsValid :
    (w : SocketWriter) (m : Message) (options : ℕ) → IsValid w → IsValid (write w m options).writer
write-IsValid w m options h = by_end _ (write w m options) _ (write-WriteEnd w m options h)
  where
    by_end :
        (r : Result Bytes) (x : Written) (e : Result (Unit {0}))
        → WriteEnd w r x e
        → IsValid x.writer
    by_end (ok b) x (ok u) k = k.0
    by_end (err f) x (ok u) k = elim k [ ]
    by_end (ok b) x (err e) k = subst IsValid (sym k) h
    by_end (err f) x (err e) k = subst IsValid (sym k) h

module _ (o : Options) (p : Proxy) where
  abbrev pub Valid : Side → Type 0
  Valid d = IsValid d.destination

  message-Valid : (m : Message) (d : Side) → Valid d → Valid (process_message o p m d).1
  unfolding process_message
  message-Valid m d h = by_first (log_message o p m)
    where
      by_second : (q : Message) (e : Side) (r : Result Bytes) → Valid e → Valid (send_on e q r).1
      by_second q e (err x) k = k
      by_second q e (ok t) k = write-IsValid e.destination q standard k

      by_script :
          (e : Side) (f : Result (Unit {0}) × Message) → Valid e → Valid (after_script o p e f).1
      by_script e (err x, q) k = k
      by_script e (ok u, q) k = by_second q e (log_message o p q) k

      by_first : (r : Result Bytes) → Valid (run_script o p d m r).1
      by_first (err e) = h
      by_first (ok s) = by_script _ (p.function m) h

  -- What one message adds, when nothing is thrown.
  message-Forwards :
      (m : Message) (ms : List Message) (d : Side)
      → Valid d
      → Forwards p ms (given d)
      → (process_message o p m d).0 ≡ ok tt
      → Forwards p (ms ++ m ∷ []) (given (process_message o p m d).1)
  message-Forwards m ms d h k e =
      by_outcome (p.function m).0 refl (process_message o p m d) (process_message-Outcome o p d h m)
        e
    where
      by_outcome :
          (r : Result (Unit {0}))
          → (p.function m).0 ≡ r
          → (x : Result (Unit {0}) × Side) → Outcome d (p.function m).1 r x
          → x.0 ≡ ok tt
          → Forwards p (ms ++ m ∷ []) (given x.1)
      by_outcome (ok v) f (ok u, e) y g =
          subst (λ (b : Bytes). Forwards p (ms ++ m ∷ []) b) (sym y.3) (accepts m _ y.0 k f y.1 y.2)
      by_outcome (err x) f (ok u, e) y g =
          subst (λ (w : SocketWriter). Forwards p (ms ++ m ∷ []) (accepted w)) (sym y)
            (refuses m x k f)
      by_outcome r f (err x, e) y g = cc

  pub record Passed (ms : List Message) (d : Side) : Type 0 where
    pub valid : Valid d
    pub forwards : Forwards p ms (given d)

  pub each-Passed :
      (ns ms : List Message) (d : Side)
      → Passed ms d
      → (process_each o p ns d).0 ≡ ok tt
      → Passed (ms ++ ns) (process_each o p ns d).1
  unfolding process_each
  each-Passed [] ms d h e = subst (λ (l : List Message). Passed l d) (sym (append-nil ms)) h
  each-Passed (n ∷ ns) ms d h e =
      subst (λ (l : List Message). Passed l (process_each o p (n ∷ ns) d).1)
        (append_assoc ms (n ∷ []) ns)
        (by_end (process_message o p n d) refl e (λ q. each-Passed ns (ms ++ n ∷ []) q))
    where
      by_end :
          (x : Result (Unit {0}) × Side)
          → process_message o p n d ≡ x
          → (next_message (λ q. process_each o p ns q) x).0 ≡ ok tt
          → ((q : Side)
              → Passed (ms ++ n ∷ []) q
              → (process_each o p ns q).0 ≡ ok tt
              → Passed ((ms ++ n ∷ []) ++ ns) (process_each o p ns q).1)
          → Passed ((ms ++ n ∷ []) ++ ns) (next_message (λ q. process_each o p ns q) x).1
      by_end (ok u, q) f g again =
          again q
            (record {
              valid =
                  subst (λ (y : Result (Unit {0}) × Side). Valid y.1) f (message-Valid n d h.valid);
              forwards =
                  subst (λ (y : Result (Unit {0}) × Side). Forwards p (ms ++ n ∷ []) (given y.1)) f
                    (message-Forwards n ms d h.valid h.forwards
                      (ap (λ (y : Result (Unit {0}) × Side). y.0) f));
            })
            g
      by_end (err x, q) f g again = cc
