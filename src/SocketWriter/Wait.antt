-- ===== src/SocketWriter/Wait.antt =====
-- The wait at the end of `write` in libcrocofix/socket_writer.cpp.
use crocofix.Base.{
  ◌⊎◌, inl, inr, ℕ, zero, suc, ◌≤◌, ◌<◌, ◌≡◌, refl, sym, ap, subst, ◌∙◌, Bool, true, false, List,
  [], ◌∷◌, append-nil, arith, length, ltb, if◌then◌else◌,
}
use crocofix.Base.Bytes.{Bytes}
use crocofix.SocketWriter.{
  SocketWriter, complete, over_high_water, drain_active, wait_below, buffer_high_water_mark,
}
use crocofix.SocketWriter.Order.{accepted, InFlight, IsValid, Rested, longer, complete-Completed}

-- Everything handed to the writer is sent, and nothing is under way.
pub record AllSent (w v : SocketWriter) : Type 0 where
  pub all : v.sent ≡ accepted w
  pub active_empty : v.active_buffer ≡ []
  pub pending_empty : v.pending_buffer ≡ []

idle : (w : SocketWriter) → IsValid w → w.writing ≡ [] → AllSent w w
idle w h e =
    let f : InFlight w [] = subst (InFlight w) e h.in_flight in
    record {
      all = rw (f.0, f.1) (sym (append-nil w.sent));
      active_empty = f.0;
      pending_empty = f.1;
    }

-- An empty active buffer is under no write.
unwritten : (w : SocketWriter) → IsValid w → w.active_buffer ≡ [] → w.writing ≡ []
unwritten w h e = by_writing w.writing h.in_flight
  where
    by_writing : (ws : List Bytes) → InFlight w ws → ws ≡ []
    by_writing [] f = refl
    by_writing (b ∷ []) f = absurd (omega (arith, f.1, ap (λ (x : Bytes). length x) e))
    by_writing (b ∷ c ∷ ws) f = elim f [ ]

-- One round of the wait: it ends, or a write completes.
round :
    (n : ℕ) (w : SocketWriter)
    → IsValid w
    → AllSent w (drain_active n (complete w))
    → AllSent w (drain_active (suc n) w)
unfolding drain_active
round n w h k = by_active w.active_buffer refl
  where
    by_active :
        (a : Bytes)
        → w.active_buffer ≡ a
        → AllSent w (elim (ltb 0 (length a)) as (λ (c : Bool). SocketWriter) [
          | true ↦ drain_active n (complete w)
          | false ↦ w
        ])
    by_active [] e = idle w h (unwritten w h e)
    by_active (x ∷ a) e = rw (longer x a) k

stays : (n : ℕ) (w : SocketWriter) → w.active_buffer ≡ [] → drain_active n w ≡ w
unfolding drain_active
stays zero w e = refl
stays (suc n) w e = by_active w.active_buffer e
  where
    by_active :
        (a : Bytes)
        → a ≡ []
        → (elim (ltb 0 (length a)) as (λ (c : Bool). SocketWriter) [
          | true ↦ drain_active n (complete w)
          | false ↦ w
        ])
          ≡ w
    by_active [] q = refl
    by_active (x ∷ a) q = absurd (cc q)

drained : (n : ℕ) (w : SocketWriter) → IsValid w → w.writing ≡ [] → AllSent w (drain_active n w)
drained n w h e = let i = idle w h e in subst (AllSent w) (sym (stays n w i.active_empty)) i

onward : (w u v : SocketWriter) → accepted u ≡ accepted w → AllSent u v → AllSent w v
onward w u v e h = record {
  all = h.all ∙ e;
  active_empty = h.active_empty;
  pending_empty = h.pending_empty;
}

last_round :
    (n : ℕ) (w : SocketWriter)
    → IsValid w
    → w.pending_buffer ≡ []
    → AllSent w (drain_active (suc n) w)
last_round n w h e =
    let c = complete-Completed w h in
    round n w h (
      onward w (complete w) _ c.same
        (drained n (complete w) c.valid (subst (λ (p : Bytes). Rested p (complete w)) e c.rested)))

-- The wait of a call that left more than the high water mark pending ends when two writes have completed
-- without errors, if no handler writes in between: then all bytes are sent that were handed to the
-- writer, in order, and both buffers are empty.
pub drain_active-AllSent :
    (n : ℕ) (w : SocketWriter) → IsValid w → 2 ≤ n → AllSent w (drain_active n w)
drain_active-AllSent zero w h k = absurd (omega (arith, k))
drain_active-AllSent (suc zero) w h k = absurd (omega (arith, k))
drain_active-AllSent (suc (suc n)) w h k =
    let c = complete-Completed w h in
    round (suc n) w h
      (onward w (complete w) _ c.same (last_round n (complete w) c.valid c.nothing_pending))

-- A call of `write` on a valid writer waits just when it left more than the high water mark pending. If only
-- this writer's handlers run meanwhile, without errors, fuel for two of them is enough for the wait to
-- end: all bytes that were handed to the writer are sent, in order, and both buffers are empty. A call
-- that does not wait leaves the writer as it is.
pub wait_below-enough :
    (n : ℕ) (w : SocketWriter)
    → IsValid w
    → 2 ≤ n
    → (AllSent w (wait_below n w) × (buffer_high_water_mark < length w.pending_buffer))
      ⊎ ((wait_below n w ≡ w) × (length w.pending_buffer ≤ buffer_high_water_mark))
unfolding wait_below
wait_below-enough n w h k = by_mark (over_high_water w) refl
  where
    by_mark :
        (c : Bool)
        → over_high_water w ≡ c
        → (AllSent w (if c then drain_active n w else w)
            × (buffer_high_water_mark < length w.pending_buffer))
          ⊎ (((if c then drain_active n w else w) ≡ w)
              × (length w.pending_buffer ≤ buffer_high_water_mark))
    by_mark true e = inl (drain_active-AllSent n w h k, ground (arith, e))
    by_mark false e = inr (refl, ground (arith, e))
