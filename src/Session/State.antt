-- ===== src/Session/State.antt =====
-- The state of a session and what it does to the objects around it.
-- The reader, the writer, the scheduler and the subscribers of the signals are reached by calls: each
-- call is an event, and a session's events are kept, newest first. What comes back from them is a
-- value of `Env`. None of them calls the session back before it returns.
use crocofix.Base.{
  ℕ, ◌%◌, ◌+◌, Bool, true, false, not, Option, none, List, [], ◌∷◌, ◌++◌, ◌==◌, if◌then◌else◌,
}
use crocofix.Base.Bytes.{Bytes, text, u32_mod}
use crocofix.Base.Exec.{ok, err, Exec, pure, logic_error, ◌>>=◌, ◌>>◌}
use crocofix.Dictionary.{FieldTable}
use crocofix.Message.{Message}

pub data SessionState : Type 0 where
  disconnected connected logging_on resending logged_on resetting : SessionState

pub data Behaviour : Type 0 where
  initiator acceptor : Behaviour

pub data TimestampFormat : Type 0 where
  seconds milliseconds : TimestampFormat

-- `to_string(session_state)`
unfoldable pub state_name : SessionState → Bytes
state_name connected = text "connected"
state_name logging_on = text "loggin_on"
state_name resending = text "resending"
state_name logged_on = text "logged_on"
state_name resetting = text "resetting"
state_name disconnected = text "unknown"

abbrev state_number : SessionState → ℕ
state_number disconnected = 0
state_number connected = 1
state_number logging_on = 2
state_number resending = 3
state_number logged_on = 4
state_number resetting = 5

abbrev pub is_state : SessionState → SessionState → Bool
is_state a b = state_number a == state_number b

abbrev pub is_initiator : Behaviour → Bool
is_initiator initiator = true
is_initiator acceptor = false

abbrev pub is_acceptor : Behaviour → Bool
is_acceptor b = not (is_initiator b)

pub record SessionOptions : Type 0 where
  pub logon_behaviour : Behaviour
  pub begin_string : Bytes
  pub sender_comp_id : Bytes
  pub target_comp_id : Bytes
  pub heartbeat_interval : ℕ
  pub test_request_delay : ℕ
  pub timestamp_format : TimestampFormat
  pub use_next_expected_msg_seq_num : Bool

abbrev pub default_options : SessionOptions
default_options = record {
  logon_behaviour = initiator;
  begin_string = [];
  sender_comp_id = [];
  target_comp_id = [];
  heartbeat_interval = 30;
  test_request_delay = 1000;
  timestamp_format = milliseconds;
  use_next_expected_msg_seq_num = false;
}

-- Calls of the reader, the writer and the scheduler, and the signals. `written` carries the message
-- as it is handed to the writer, `message_sent` as the writer left it.
pub data Event : Type 0 where
  reader_open reader_close writer_close : Event
  written : Message → ℕ → Event
  schedule_repeating schedule_relative cancel : ℕ → Event
  error warning information : Bytes → Event
  state_changed : SessionState → SessionState → Event
  message_sent message_received : Message → Event

-- The code that the session calls: the writer's effect on a message (it returns normally), the token
-- and the time that follow a history of calls, and the orchestration.
pub record Env : Type 0 where
  pub encode : Message → ℕ → Message
  pub next_token : List Event → ℕ
  pub timestamp : List Event → TimestampFormat → Bytes
  pub fields : FieldTable

pub record Session : Type 0 where
  pub options : SessionOptions
  pub state : SessionState
  pub logon_received : Bool
  pub expected_test_request_id : Option ℕ
  pub next_test_request_id : ℕ
  pub incoming_msg_seq_num : ℕ
  pub outgoing_msg_seq_num : ℕ
  pub incoming_resent_msg_seq_num : ℕ
  pub incoming_target_msg_seq_num : ℕ
  pub test_request_timer_token : Option ℕ
  pub heartbeat_timer_token : Option ℕ
  pub events : List Event

-- The constructor.
unfoldable pub session : Session
session = record {
  options = default_options;
  state = connected;
  logon_received = false;
  expected_test_request_id = none;
  next_test_request_id = 0;
  incoming_msg_seq_num = 1;
  outgoing_msg_seq_num = 1;
  incoming_resent_msg_seq_num = 0;
  incoming_target_msg_seq_num = 0;
  test_request_timer_token = none;
  heartbeat_timer_token = none;
  events = [];
}

abbrev pub Method : Type 0 → Type 0
Method A = Exec Session A

unfoldable pub emit : Event → Method Unit
emit e s = (ok tt, record s { events = e ∷ s.events })

abbrev moved : SessionState → Session → Session
moved next s = record s { state = next; events = state_changed s.state next ∷ s.events }

-- `state(session_state)`
unfoldable pub set_state : SessionState → Method Unit
set_state next s = (ok tt, if is_state s.state next then s else moved next s)

unfoldable pub set_incoming : ℕ → Method Unit
set_incoming n s = (ok tt, record s { incoming_msg_seq_num = n })

unfoldable pub set_outgoing : ℕ → Method Unit
set_outgoing n s = (ok tt, record s { outgoing_msg_seq_num = n })

unfoldable pub set_heartbeat_interval : ℕ → Method Unit
set_heartbeat_interval n s =
    (ok tt, record s { options = record (s.options) { heartbeat_interval = n } })

unfoldable pub set_resent : ℕ → Method Unit
set_resent n s = (ok tt, record s { incoming_resent_msg_seq_num = n })

unfoldable pub update : (Session → Session) → Method Unit
update f s = (ok tt, f s)

-- `allocate_test_request_id`, `allocate_outgoing_msg_seq_num`: `uint32_t` post-increments.
unfoldable pub allocate_test_request_id : Method ℕ
allocate_test_request_id s = (
  ok s.next_test_request_id,
  record s { next_test_request_id = (s.next_test_request_id + 1) % u32_mod },
)

unfoldable pub allocate_outgoing_msg_seq_num : Method ℕ
allocate_outgoing_msg_seq_num s = (
  ok s.outgoing_msg_seq_num,
  record s { outgoing_msg_seq_num = (s.outgoing_msg_seq_num + 1) % u32_mod },
)

unfoldable pub ensure_options_are_mutable : Method Unit
unfolding state_name
ensure_options_are_mutable s = if is_state s.state connected then (ok tt, s) else (
  err (
      logic_error
        (text "session configuration cannot be changed while state = " ++ state_name s.state)),
  s,
)

-- The setters of the options. Those of the timestamp format, the heartbeat interval and the use of
-- NextExpectedMsgSeqNum do not look at the state.
pub data Setting : Type 0 where
  logon_behaviour : Behaviour → Setting
  begin_string sender_comp_id target_comp_id : Bytes → Setting
  heartbeat_interval test_request_delay : ℕ → Setting
  timestamp_format : TimestampFormat → Setting
  use_next_expected_msg_seq_num : Bool → Setting

abbrev applied : Setting → SessionOptions → SessionOptions
applied (logon_behaviour b) o = record o { logon_behaviour = b }
applied (begin_string v) o = record o { begin_string = v }
applied (sender_comp_id v) o = record o { sender_comp_id = v }
applied (target_comp_id v) o = record o { target_comp_id = v }
applied (heartbeat_interval n) o = record o { heartbeat_interval = n }
applied (test_request_delay n) o = record o { test_request_delay = n }
applied (timestamp_format f) o = record o { timestamp_format = f }
applied (use_next_expected_msg_seq_num b) o = record o { use_next_expected_msg_seq_num = b }

abbrev pub is_guarded : Setting → Bool
is_guarded (heartbeat_interval n) = false
is_guarded (timestamp_format f) = false
is_guarded (use_next_expected_msg_seq_num b) = false
is_guarded _ = true

unfoldable pub configure : Setting → Method Unit
unfolding ensure_options_are_mutable update ◌>>=◌
configure x = do
  if is_guarded x then ensure_options_are_mutable else pure tt
  update (λ s. record s { options = applied x s.options })
