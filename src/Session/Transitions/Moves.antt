-- ===== src/Session/Transitions/Moves.antt =====
-- The moves of the state machine, and the primitive methods of a session as steps of a walk.
use crocofix.Base.{◌≡◌, refl, Bool, true, false, List, [], ◌∷◌}
use crocofix.Base.Exec.Keeps.{Composes, Does}
use crocofix.Session.State.{
  Session, Event, SessionState, disconnected, connected, logging_on, resending, logged_on,
  resetting, is_state, state_changed, emit, set_state,
}
use crocofix.Session.Steps.{is_change}

-- What follows what: a session recovers, resets and disconnects from everywhere.
pub data Move : SessionState → SessionState → Type 0 where
  begins : Move connected logging_on
  completes : Move logging_on logged_on
  completes_reset : Move resetting logged_on
  completes_resend : Move resending logged_on
  leaves : Move logged_on connected
  recovers : {a : SessionState} → Move a resending
  resets : {a : SessionState} → Move a resetting
  drops : {a : SessionState} → Move a disconnected

-- The changes among the events, the newest first, are moves from `connected` to this state.
unfoldable pub IsWalk : List Event → SessionState → Type 0
IsWalk [] x = x ≡ connected
IsWalk (state_changed a b ∷ es) x = (b ≡ x) × (is_state a b ≡ false) × Move a b × IsWalk es a
IsWalk (_ ∷ es) x = IsWalk es x

pub record Walks (s t : Session) : Type 0 where
  pub at : IsWalk s.events s.state → IsWalk t.events t.state

pub Walks-Composes : Composes Walks
Walks-Composes = record {
  stay = λ s. record { at = λ w. w };
  join = λ s t u a b. record { at = λ w. b.at (a.at w) };
}

-- A step that changes neither the events nor the state.
pub same : (s t : Session) → t.events ≡ s.events → t.state ≡ s.state → Walks s t
same s t e f = record { at = λ w. rw (e, f) w }

pub emit-Walks : (e : Event) → is_change e ≡ false → Does Walks (emit e)
unfolding emit IsWalk
emit-Walks e h = record { at = λ s. record { at = by_event e h s } }
  where
    by_event :
        (e : Event)
        → is_change e ≡ false
        → (s : Session) → IsWalk s.events s.state
        → IsWalk (e ∷ s.events) s.state
    by_event (state_changed a b) h s w = cc
    by_event _ h s w = w

-- Entering a state is a move of the machine, or nothing.
pub set_state-Walks : (x : SessionState) (s : Session) → Move s.state x → Walks s (set_state x s).1
unfolding set_state IsWalk
set_state-Walks x s m = record { at = λ w. by_test (is_state s.state x) refl w }
  where
    by_test :
        (b : Bool)
        → is_state s.state x ≡ b
        → IsWalk s.events s.state
        → IsWalk (set_state x s).1.events (set_state x s).1.state
    by_test true e w = rw e w
    by_test false e w = rw e (refl, e, m, w)
