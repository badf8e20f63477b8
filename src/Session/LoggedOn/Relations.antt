-- ===== src/Session/LoggedOn/Relations.antt =====
-- What a method of the session leaves of the behaviour, the receipt of a Logon and the logged-on state.
use crocofix.Base.{◌≡◌, ◌≢◌, refl, ◌∙◌, true}
use crocofix.Base.Bytes.{Bytes}
use crocofix.Base.Exec.{Error, ok, err}
use crocofix.Base.Exec.Keeps.{Composes, Does}
use crocofix.Session.State.{Session, Method, connected, logged_on, initiator, acceptor}
use crocofix.Session.Frame.{Frame}

-- Whether the session may log on: an initiator may, an acceptor after it received a Logon.
abbrev pub MayLogOn : Session → Type 0
MayLogOn s = s.options.logon_behaviour ≡ acceptor → s.logon_received ≡ true

-- The behaviour stays, a received Logon stays received.
pub record Steady (s t : Session) : Type 0 where
  pub behaviour : t.options.logon_behaviour ≡ s.options.logon_behaviour
  pub received : s.logon_received ≡ true → t.logon_received ≡ true

-- Moreover the session does not log on.
pub record Quiet (s t : Session) : Type 0 where
  pub steady : Steady s t
  pub quiet : t.state ≡ logged_on → s.state ≡ logged_on

pub Steady-Composes : Composes Steady
Steady-Composes = record {
  stay = λ s. record { behaviour = refl; received = λ e. e };
  join = λ s t u a b. record {
    behaviour = b.behaviour ∙ a.behaviour;
    received = λ e. b.received (a.received e);
  };
}

pub Quiet-Composes : Composes Quiet
Quiet-Composes = record {
  stay = λ s. record { steady = Steady-Composes.stay s; quiet = λ e. e };
  join = λ s t u a b. record {
    steady = Steady-Composes.join s t u a.steady b.steady;
    quiet = λ e. a.quiet (b.quiet e);
  };
}

pub ok-injective : {a b : Bytes} → ok a ≡ ok b → a ≡ b
ok-injective e = cc

pub err≢ok : {e : Error} {b : Bytes} → err e ≢ ok b
err≢ok h = cc

pub connected≢logged_on : connected ≢ logged_on
connected≢logged_on e = cc

pub initiator≢acceptor : initiator ≢ acceptor
initiator≢acceptor e = cc

module _ {A : Type 0} {m : Method A} where
  pub Frame→Quiet : Does Frame m → Does Quiet m
  Frame→Quiet d = record {
    at = λ s.
        let f = d.at s in
        record {
          steady = record { behaviour = f.behaviour; received = λ e. f.received ∙ e };
          quiet = f.quiet;
        };
  }

  pub Quiet→Steady : Does Quiet m → Does Steady m
  Quiet→Steady d = record { at = λ s. (d.at s).steady }
